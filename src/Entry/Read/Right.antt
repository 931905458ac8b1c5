-- ===== src/Entry/Read/Right.antt =====
-- src/core/FileEntry.cc: what `readCached` answers.
use xrd_ucache.Base.{
  ℕ, ◌+◌, ◌-◌, ◌*◌, ◌/◌, ◌≤◌, ◌<◌, ◌≡◌, refl, sym, ap, ◌∙◌, inl, inr, Bool, true, false, ◌||◌, List,
  [], Content, arith, ◌==◌, Bool-cases, ltb, add64, div_mul_bounds, lt_of_mul, word_limit,
}
use mathlib.Core.Path.{subst}
use xrd_ucache.Sidecar.{npages}
use xrd_ucache.Entry.{Entry}
use xrd_ucache.Entry.Intact.{IsIntact, page_of_file}
use xrd_ucache.Entry.Read.{DiskReads, Plan, plan_pages, answer, read_cached}
use xrd_ucache.Entry.Read.Runs.{IsRight}
use xrd_ucache.Entry.Read.Verify.{both_accepted, second_part, read_runs_lem}
use xrd_ucache.Entry.Read.Planned.{IsPlanned, plan_pages-IsPlanned, meta-plan_pages}

module _ (crc : List ℕ → ℕ) (origin : Content) (io : DiskReads) where
  -- A request inside the file that is answered has the origin's bytes.
  answer_lem :
      (off len : ℕ) (account : Bool) (out : Content) (e : Entry) (x : ℕ)
      → IsIntact crc origin e
      → off + len ≤ e.meta.file_size
      → (answer crc io off len account out e).1 ≡ true
      → off ≤ x
      → x < off + len
      → IsRight origin off (answer crc io off len account out e).0.out x
  unfolding answer
  answer_lem off len account out e x v inside ok lo hi =
      let both = both_accepted planned _ ok in
      subst (λ (a : Plan × Bool). IsRight origin off (a.0.out) x)
        (sym (second_part planned _ both.0))
        (read_runs_lem crc origin io off len (planned.0.runs) (planned.0) (planned.0.entry) x refl
          (w both.0).intact.page (w both.0).sound both.1 lo hi
          ((w both.0).done x lo hi (
            rw (meta-plan_pages crc origin off len account (last + 1 - first) first begin both.0)
              (omega (arith, after, low, order)))))
    where
      first : ℕ
      first = off / e.meta.page_size

      last : ℕ
      last = (off + len - 1) / e.meta.page_size

      begin : Plan
      begin = record { entry = e; out = out; spec_served = 0; runs = []; crcs = [] }

      planned : Plan × Bool
      planned = plan_pages off len account (last + 1 - first) first begin

      low : (first * e.meta.page_size ≤ off) × (off < first * e.meta.page_size + e.meta.page_size)
      low = div_mul_bounds off e.meta.page_size v.page

      after :
          (last * e.meta.page_size ≤ off + len - 1)
          × (off + len - 1 < last * e.meta.page_size + e.meta.page_size)
      after = div_mul_bounds (off + len - 1) e.meta.page_size v.page

      order : first < last + 1
      order = lt_of_mul first (last + 1) e.meta.page_size (omega (arith, low, after))

      count : first + (last + 1 - first) ≡ last + 1
      count = omega (arith, order)

      last_inside : last < npages e.meta
      last_inside = page_of_file e.meta last v.page (omega (arith, after))

      w : planned.1 ≡ true → IsPlanned crc origin off len (last + 1) (planned.0)
      w ok =
          subst (λ k. IsPlanned crc origin off len k (planned.0)) count
            (plan_pages-IsPlanned crc origin off len account (last + 1 - first) first begin
              (omega (arith, order, last_inside))
              (record {
                intact = v;
                inside_file = inside;
                sound = tt;
                done = λ y p q r. absurd (omega (arith, low));
              })
              ok)

  -- A request inside the file is answered by the plan and its runs.
  read_cached_inside :
      (now off len : ℕ) (account : Bool) (out : Content) (e : Entry)
      → (len == 0) ≡ false
      → (ltb (add64 off len) off || ltb e.meta.file_size (add64 off len)) ≡ false
      → ((read_cached crc io now off len account out e).1
          ≡ (answer crc io off len account out e).0.out)
        × ((read_cached crc io now off len account out e).2
            ≡ (answer crc io off len account out e).1)
  unfolding read_cached
  read_cached_inside now off len account out e a b = rw (a, b, read_cached) (refl, refl)

  read_cached_outside :
      (now off len : ℕ) (account : Bool) (out : Content) (e : Entry)
      → (len == 0) ≡ false
      → (ltb (add64 off len) off || ltb e.meta.file_size (add64 off len)) ≡ true
      → (read_cached crc io now off len account out e).2 ≡ false
  unfolding read_cached
  read_cached_outside now off len account out e a b = rw (a, b, read_cached) refl

  -- When `readCached` answers true, on an intact entry, whose file ends a page below 2 ^ 64, the
  -- caller's buffer has the origin's bytes of the whole request, whatever mixture of staged pages and
  -- disk runs served it, and however much each disk read brought.
  pub read_cached_right :
      (now off len : ℕ) (account : Bool) (out : Content) (e : Entry) (x : ℕ)
      → IsIntact crc origin e
      → off < word_limit
      → len < word_limit
      → (read_cached crc io now off len account out e).2 ≡ true
      → off ≤ x
      → x < off + len
      → (read_cached crc io now off len account out e).1 (x - off) ≡ origin x
  read_cached_right now off len account out e x v small short ok lo hi =
      let some_byte : (len == 0) ≡ false = ground arith in
      elim (Bool-cases (ltb (add64 off len) off || ltb e.meta.file_size (add64 off len))) [
        | inl outside ↦
            let refused = read_cached_outside now off len account out e some_byte outside in
            absurd (cc)
        | inr inside ↦
            let same = read_cached_inside now off len account out e some_byte inside in
            ap (λ (f : Content). f (x - off)) same.0
            ∙ answer_lem off len account out e x v (ground arith) (sym same.1 ∙ ok) lo hi
      ]
