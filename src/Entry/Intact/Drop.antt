-- ===== src/Entry/Intact/Drop.antt =====
-- src/core/FileEntry.cc: `dropSpeculative` and `consumeSpeculative` keep an entry intact.
use xrd_ucache.Base.{
  ℕ, Bool, true, false, ◌||◌, List, [], ◌∷◌, Content, arith, ltb, leb, ◌==◌, if◌then◌else◌,
  Bool-cases, inl, inr, add64, ◌-◌, ◌/◌,
}
use xrd_ucache.Base.PageMap.{PageMap, Each, select}
use xrd_ucache.Base.PageMapLaws.{
  holds-find, Each-find, Each-assign, assign-SortedFrom, select-SortedFrom,
}
use xrd_ucache.Entry.{Entry, Pools}
use xrd_ucache.Entry.Intact.{IsGood, IsIntact}
use xrd_ucache.Entry.Intact.Stage.{with_buf-IsIntact}
use xrd_ucache.Entry.Stage.{
  erase_doomed, drop_speculative, consume_speculative, touch_edge, within, request_end,
  first_whole_page, whole_pages_stop,
}

module _ {ℓ κ} {V : Type ℓ} (P : ℕ → V → Type κ) where
  -- A selection of pages that have a property has it.
  pub Each-kept : (keep : ℕ → V → Bool) (m : PageMap V) → Each P m → Each P (select keep m)
  unfolding select
  Each-kept keep [] a = tt
  Each-kept keep ((j, w) ∷ m) a = ground (arith, a.0, Each-kept keep m a.1)

module _ (crc : List ℕ → ℕ) (origin : Content) where
  erase_doomed-IsIntact :
      (first stop : ℕ) (e : Entry)
      → IsIntact crc origin e
      → IsIntact crc origin (erase_doomed first stop e)
  unfolding erase_doomed
  erase_doomed-IsIntact first stop e v =
      with_buf-IsIntact crc origin e _ _ _ e.pools v
        (Each-kept (IsGood crc origin e.meta) _ e.buf v.staged)
        (select-SortedFrom _ 0 e.buf v.staged_sorted)

  if-IsIntact :
      (b : Bool) (x y : Entry)
      → IsIntact crc origin x
      → IsIntact crc origin y
      → IsIntact crc origin (if b then x else y)
  if-IsIntact true x y v w = v
  if-IsIntact false x y v w = w

  if_pair-IsIntact :
      (b : Bool) (x y : Entry × ℕ)
      → IsIntact crc origin x.0
      → IsIntact crc origin y.0
      → IsIntact crc origin (if b then x else y).0
  if_pair-IsIntact true x y v w = v
  if_pair-IsIntact false x y v w = w

  with_pools-IsIntact :
      (e : Entry) (pools : Pools)
      → IsIntact crc origin e
      → IsIntact crc origin (record e { pools = pools })
  with_pools-IsIntact e pools v =
      with_buf-IsIntact crc origin e e.buf e.buf_bytes e.spec_bytes pools v v.staged v.staged_sorted

  touch_edge-IsIntact :
      (first stop i : ℕ) (e : Entry)
      → IsIntact crc origin e
      → IsIntact crc origin (touch_edge first stop i e)
  unfolding touch_edge
  touch_edge-IsIntact first stop i e v = elim (holds-find i e.buf) [
    | inl (_, absent) ↦ rw (absent, touch_edge) (if-IsIntact (within first stop i) _ _ v v)
    | inr (p, _, there) ↦
        let g = Each-find (IsGood crc origin e.meta) i p e.buf v.staged there in
        let marked : IsGood crc origin e.meta i (record p { touched = true }) = record {
          inside = g.inside;
          bytes = g.bytes;
          sum = g.sum;
        } in
        rw (there, touch_edge)
          (if-IsIntact (within first stop i) _ _ v (
            if-IsIntact p.spec _ _
              (with_buf-IsIntact crc origin e _ _ _ e.pools v
                (Each-assign (IsGood crc origin e.meta) i _ e.buf v.staged marked)
                (assign-SortedFrom 0 i _ e.buf v.staged_sorted))
              v))
  ]

  -- Dropping predictions keeps an intact entry intact.
  pub drop_speculative-IsIntact :
      (off len : ℕ) (e : Entry)
      → IsIntact crc origin e
      → IsIntact crc origin (drop_speculative off len e).0
  unfolding drop_speculative
  drop_speculative-IsIntact off len e v =
      if_pair-IsIntact _ _ _ v
        (with_pools-IsIntact _ _ (erase_doomed-IsIntact (first_whole_page e off) _ e v))

  -- Consuming predictions keeps an intact entry intact.
  pub consume_speculative-IsIntact :
      (off len : ℕ) (e : Entry)
      → IsIntact crc origin e
      → IsIntact crc origin (consume_speculative off len e).0
  unfolding consume_speculative
  consume_speculative-IsIntact off len e v =
      let end = request_end e off len in
      let first = first_whole_page e off in
      let stop = whole_pages_stop e end in
      let edge = (end - 1) / e.meta.page_size in
      let start = off / e.meta.page_size in
      elim (Bool-cases (len == 0 || ltb (add64 off len) off || leb end off)) [
        | inl nothing ↦ rw (nothing, consume_speculative) v
        | inr some_page ↦
            rw (some_page, consume_speculative)
              (with_pools-IsIntact _ _ (
                erase_doomed-IsIntact first stop _ (
                  touch_edge-IsIntact first stop edge _
                    (touch_edge-IsIntact first stop start e v))))
      ]
