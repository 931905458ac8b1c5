-- ===== src/Tests/Plugin.antt =====
-- Runs of the models of src/plugin at concrete inputs.
use xrd_ucache.Base.{ℕ, suc, ◌*◌, ◌%◌, ◌-◌, ◌+◌, ◌≤◌, ◌<◌, ◌≡◌, ◌⊎◌, min, arith, true}
use xrd_ucache.Rounding.{round_span, cut_run, max_wire_length}
use xrd_ucache.Rounding.Covers.{round_span_pages}
use xrd_ucache.Rounding.Cut.{Tiles, AreLegal, cut_run-Tiles}
use xrd_ucache.Retry.{Settings, Status, success, failure}
use xrd_ucache.Retry.Handler.{new_handler, open_origin}
use xrd_ucache.Retry.Handler.Laws.{Completes, open_origin-Completes}

round_span_pages_example :
    let s = round_span 4096 10000 5000 100 in
    ((s.first ≤ 1 * 4096)
      × (min (2 * 4096) 10000 ≤ s.last)
      × (s.first % 4096 ≡ 0)
      × ((s.last % 4096 ≡ 0) ⊎ (s.last ≡ 10000))
      × (s.last - s.first ≤ max_wire_length))
    ⊎ ((s.first ≡ 5000) × (s.last ≡ 5000 + 100) × (max_wire_length < 100 + 2 * 4096))
round_span_pages_example =
    round_span_pages 4096 10000 5000 100 1 (omega arith) (omega arith) (omega arith) (omega arith)
      (omega arith) (omega arith)

cut_run-Tiles_example :
    Tiles 5000 5000000 (cut_run 5000000 5000 5000000 3145728)
    × AreLegal 3145728 5000000 (cut_run 5000000 5000 5000000 3145728)
cut_run-Tiles_example =
    cut_run-Tiles 5000000 5000 5000000 3145728 (omega arith) (omega arith) (omega arith)
      (omega arith)

abbrev three_retries : Settings
three_retries = record { open_retries = 3; base_ms = 200; max_ms = 1000 }

-- Overloaded twice, then open.
abbrev overloaded_twice : ℕ → Status
overloaded_twice (suc (suc (suc n))) = success
overloaded_twice n = failure 400 3024

open_origin-Completes_example :
    Completes three_retries true overloaded_twice
      (λ n. true)
      new_handler
      (open_origin three_retries true overloaded_twice (λ n. true))
open_origin-Completes_example =
    open_origin-Completes three_retries true overloaded_twice (λ n. true)
