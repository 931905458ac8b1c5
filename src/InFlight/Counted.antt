-- ===== src/InFlight/Counted.antt =====
-- src/plugin/OriginInFlight.h: the counter is the guards that hold a read, whatever moves.
use xrd_ucache.Base.{
  ℕ, zero, suc, ◌+◌, ◌^◌, ◌≤◌, ◌<◌, ◌≡◌, refl, arith, Bool, true, false, List, [], ◌∷◌, ◌==◌,
  length, Bool-cases, inl, inr, ap,
}
use xrd_ucache.InFlight.{
  ReadGuards, holds, put, no_reads, begin_read, release, move_read, assign_read,
}
use xrd_ucache.InFlight.Reached.{Reached, started, begun, released, moved, assigned}

unfoldable pub one : Bool → ℕ
one true = 1
one false = 0

-- How many guards hold a read.
unfoldable pub armed : List Bool → ℕ
unfolding one
armed [] = 0
armed (g ∷ guards) = one g + armed guards

armed-put :
    (guards : List Bool) (k : ℕ) (b : Bool)
    → k < length guards
    → armed (put guards k b) + one (holds guards k) ≡ armed guards + one b
unfolding armed put
armed-put [] k b h = absurd (omega arith)
armed-put (g ∷ guards) zero b h = omega arith
armed-put (g ∷ guards) (suc k) b h = let rest = armed-put guards k b (omega arith) in omega arith

armed-disarm :
    (guards : List Bool) (k : ℕ) → armed (put guards k false) + one (holds guards k) ≡ armed guards
unfolding armed put one
armed-disarm [] k = refl
armed-disarm (g ∷ guards) zero = omega arith
armed-disarm (g ∷ guards) (suc k) = let rest = armed-disarm guards k in omega arith

length-put : (guards : List Bool) (k : ℕ) (b : Bool) → length (put guards k b) ≡ length guards
unfolding put
length-put [] k b = refl
length-put (g ∷ guards) zero b = refl
length-put (g ∷ guards) (suc k) b = ap suc (length-put guards k b)

holds-put :
    (guards : List Bool) (k j : ℕ) (b : Bool)
    → (k == j) ≡ false
    → holds (put guards k b) j ≡ holds guards j
unfolding put
holds-put [] k j b h = refl
holds-put (g ∷ guards) zero zero b h = absurd (ground (arith, h))
holds-put (g ∷ guards) zero (suc j) b h = refl
holds-put (g ∷ guards) (suc k) zero b h = refl
holds-put (g ∷ guards) (suc k) (suc j) b h = holds-put guards k j b (ground (arith, h))

pub record IsCounted (n : ℕ) (o : ReadGuards) : Type 0 where
  now : o.in_flight ≡ armed o.guards
  most : o.in_flight ≤ o.high_water
  begun_all : o.high_water ≤ n

holds-disarm : (guards : List Bool) (k : ℕ) → holds (put guards k false) k ≡ false
unfolding put
holds-disarm [] k = refl
holds-disarm (g ∷ guards) zero = refl
holds-disarm (g ∷ guards) (suc k) = holds-disarm guards k

holds-release : (k : ℕ) (o : ReadGuards) → holds (release k o).guards k ≡ false
unfolding release
holds-release k o = elim (Bool-cases (holds o.guards k)) [
  | inl on ↦ rw on (holds-disarm o.guards k)
  | inr off ↦ rw off off
]

length-release : (k : ℕ) (o : ReadGuards) → k < length o.guards → k < length (release k o).guards
unfolding release
length-release k o h = elim (Bool-cases (holds o.guards k)) [
  | inl on ↦ let same = length-put o.guards k false in rw on (omega arith)
  | inr off ↦ rw off h
]

begin_read-IsCounted :
    (n : ℕ) (o : ReadGuards) → suc n < 2 ^ 64 → IsCounted n o → IsCounted (suc n) (begin_read o)
unfolding begin_read armed one
begin_read-IsCounted n o small c = record {
  now = let h = c.now in let m = c.most in let b = c.begun_all in omega arith;
  most = let h = c.now in let m = c.most in let b = c.begun_all in ground arith;
  begun_all = let h = c.now in let m = c.most in let b = c.begun_all in ground arith;
}

release-IsCounted :
    (n k : ℕ) (o : ReadGuards) → n < 2 ^ 64 → IsCounted n o → IsCounted n (release k o)
unfolding release one
release-IsCounted n k o small c =
    let h = c.now in
    let m = c.most in
    let b = c.begun_all in
    let left = armed-disarm o.guards k in
    elim (Bool-cases (holds o.guards k)) [
      | inl on ↦
          let full = ap one on in
          rw on (record { now = omega arith; most = omega arith; begun_all = omega arith })
      | inr off ↦ rw off c
    ]

move_read-IsCounted : (n k : ℕ) (o : ReadGuards) → IsCounted n o → IsCounted n (move_read k o)
unfolding move_read armed
move_read-IsCounted n k o c =
    let h = c.now in
    let left = armed-disarm o.guards k in
    record { now = omega arith; most = c.most; begun_all = c.begun_all }

assign_read-IsCounted :
    (n to from : ℕ) (o : ReadGuards)
    → n < 2 ^ 64
    → to < length o.guards
    → IsCounted n o
    → IsCounted n (assign_read to from o)
unfolding assign_read armed
assign_read-IsCounted n to from o small live c =
    let freed = release to o in
    let d = release-IsCounted n to o small c in
    let h = d.now in
    let given = holds freed.guards from in
    elim (Bool-cases (to == from)) [
      | inl same ↦ rw same c
      | inr other ↦
          let gone = holds-release to o in
          let put_one = armed-put freed.guards to given (length-release to o live) in
          let taken = armed-disarm (put freed.guards to given) from in
          let kept = ap one (holds-put freed.guards to from given other) in
          rw other
            (record { now = omega (arith, ap one gone); most = d.most; begun_all = d.begun_all })
    ]

-- For fewer than 2 ^ 64 reads begun, however their guards were moved, assigned and released since: the
-- counter is the number of guards that hold a read, and the mark is at least that and at most the
-- number of reads begun.
pub Reached-IsCounted : {n : ℕ} {o : ReadGuards} → n < 2 ^ 64 → Reached n o → IsCounted n o
unfolding no_reads armed
Reached-IsCounted small started = record { now = refl; most = omega arith; begun_all = omega arith }
Reached-IsCounted small (begun {n} {o} r) =
    begin_read-IsCounted n o small (Reached-IsCounted (omega arith) r)
Reached-IsCounted {n} small (released {o = o} k r) =
    release-IsCounted n k o small (Reached-IsCounted small r)
Reached-IsCounted {n} small (moved {o = o} k r) =
    move_read-IsCounted n k o (Reached-IsCounted small r)
Reached-IsCounted {n} small (assigned {o = o} to from h r) =
    assign_read-IsCounted n to from o small h (Reached-IsCounted small r)
