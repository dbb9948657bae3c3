-- ===== src/Timerange/Nanos/Exact.antt =====
-- `nanos` is exact: it gives the value of the timestamp, or refuses it as no int64 holds it.
use open_tams.Prelude.{
  Bool-cases, ℕ, zero, suc, ◌+◌, ◌*◌, ◌^◌, ◌<◌, ◌≡◌, Bool, true, false, ◌&&◌, ◌||◌, none, some,
  if◌then◌else◌, leb, arith, refl, Bool-cases, inl, inr, ◌-◌, ◌/◌, ◌%◌,
}
use open_tams.Prelude.Int.{
  ℤ, pos, negsuc, pos_part, neg_part, ◌+ℤ◌, ◌-ℤ◌, ◌*ℤ◌, int64, int64-eq, max_int64, FitsInt64,
  ltb_ℤ,
}
use open_tams.Timerange.{Timestamp, ns_per_sec}
use open_tams.Timerange.Order.{IsValid}
use open_tams.Timerange.Nanos.{
  nanos, checked_nanos, checked_sum, max_seconds, min_seconds, timestamp_from_duration,
  floor_normalise,
}

-- The nanoseconds of a timestamp, with no bound.
unfoldable pub total : Timestamp → ℤ
total ts = ts.seconds *ℤ ns_per_sec +ℤ ts.nanoseconds

abbrev pub fits_int64 : ℤ → Bool
fits_int64 z = leb (pos_part z) max_int64 && leb (neg_part z) (2 ^ 63)

checked_sum-eq :
    (v ns : ℤ)
    → FitsInt64 v
    → pos_part ns < ns_per_sec
    → neg_part ns < ns_per_sec
    → checked_sum v ns ≡ (if fits_int64 (v +ℤ ns) then some (v +ℤ ns) else none)
unfolding checked_sum int64 ◌+ℤ◌ ◌-ℤ◌
checked_sum-eq (pos v) (pos k) h a b = ground arith
checked_sum-eq (pos v) (negsuc k) h a b = ground arith
checked_sum-eq (negsuc v) (pos k) h a b = ground arith
checked_sum-eq (negsuc v) (negsuc k) h a b = ground arith

-- Seconds and nanoseconds of one sign, as `nanos` makes them.
abbrev Agree : ℤ → ℤ → Type 0
Agree (pos n) (pos k) = Unit {0}
Agree (pos zero) (negsuc k) = Unit {0}
Agree (pos (suc n)) (negsuc k) = ⊥
Agree (negsuc n) (pos zero) = Unit {0}
Agree (negsuc n) (pos (suc k)) = ⊥
Agree (negsuc n) (negsuc k) = Unit {0}

scaled-fits :
    (s : ℤ) → (ltb_ℤ max_seconds s || ltb_ℤ s min_seconds) ≡ false → FitsInt64 (s *ℤ ns_per_sec)
unfolding ◌*ℤ◌
scaled-fits (pos n) h = ground arith
scaled-fits (negsuc n) h = ground arith

too_large :
    (s ns : ℤ)
    → Agree s ns
    → (ltb_ℤ max_seconds s || ltb_ℤ s min_seconds) ≡ true
    → fits_int64 (s *ℤ ns_per_sec +ℤ ns) ≡ false
unfolding ◌*ℤ◌ ◌+ℤ◌
too_large (pos n) (pos k) a h = ground arith
too_large (pos zero) (negsuc k) a h = ground arith
too_large (pos (suc n)) (negsuc k) a h = absurd a
too_large (negsuc n) (pos zero) a h = ground arith
too_large (negsuc n) (pos (suc k)) a h = absurd a
too_large (negsuc n) (negsuc k) a h = ground arith

checked_nanos-eq :
    (s ns : ℤ)
    → Agree s ns
    → pos_part ns < ns_per_sec
    → neg_part ns < ns_per_sec
    → checked_nanos s ns
      ≡ (if fits_int64 (s *ℤ ns_per_sec +ℤ ns) then some (s *ℤ ns_per_sec +ℤ ns) else none)
unfolding checked_nanos
checked_nanos-eq s ns a p q = elim (Bool-cases (ltb_ℤ max_seconds s || ltb_ℤ s min_seconds)) [
  | inl h ↦ rw (h, too_large s ns a h) refl
  | inr h ↦
      let fits = scaled-fits s h in
      rw (h, int64-eq (s *ℤ ns_per_sec) fits) (checked_sum-eq (s *ℤ ns_per_sec) ns fits p q)
]

next_second : (n : ℕ) → n < 2 ^ 63 → int64 (negsuc (suc n) +ℤ pos 1) ≡ negsuc n
unfolding int64 ◌+ℤ◌
next_second n h = ground arith

last_second : int64 (negsuc zero +ℤ pos 1) ≡ pos zero
unfolding int64 ◌+ℤ◌
last_second = ground arith

short_of_second :
    (k : ℕ)
    → suc k < ns_per_sec
    → int64 (pos (suc k) -ℤ pos ns_per_sec) ≡ negsuc (ns_per_sec - suc (suc k))
unfolding int64 ◌-ℤ◌
short_of_second k h = ground arith

same_total :
    (n k : ℕ)
    → suc k < ns_per_sec
    → (negsuc n *ℤ ns_per_sec +ℤ negsuc (ns_per_sec - suc (suc k))
        ≡ negsuc (suc n) *ℤ ns_per_sec +ℤ pos (suc k))
      × (pos zero *ℤ ns_per_sec +ℤ negsuc (ns_per_sec - suc (suc k))
          ≡ negsuc zero *ℤ ns_per_sec +ℤ pos (suc k))
unfolding ◌+ℤ◌ ◌*ℤ◌
same_total n k h = (ground arith, ground arith)

-- The two branches of `nanos`.
same_sign :
    (s ns : ℤ)
    → (ltb_ℤ s (pos 0) && ltb_ℤ (pos 0) ns) ≡ false
    → nanos (record { seconds = s; nanoseconds = ns }) ≡ checked_nanos s ns
unfolding nanos
same_sign s ns h = rw h refl

mixed_sign :
    (n k : ℕ)
    → nanos (record { seconds = negsuc n; nanoseconds = pos (suc k) })
      ≡ checked_nanos (int64 (negsuc n +ℤ pos 1)) (int64 (pos (suc k) -ℤ pos ns_per_sec))
unfolding nanos
mixed_sign n k = ground arith

nanos-fields :
    (s ns : ℤ)
    → IsValid (record { seconds = s; nanoseconds = ns })
    → nanos (record { seconds = s; nanoseconds = ns })
      ≡ (if fits_int64 (s *ℤ ns_per_sec +ℤ ns) then some (s *ℤ ns_per_sec +ℤ ns) else none)
nanos-fields s (negsuc k) v = absurd (omega arith)
nanos-fields (pos n) (pos k) v =
    rw (same_sign (pos n) (pos k) (ground arith))
      (checked_nanos-eq (pos n) (pos k) tt (omega arith) (omega arith))
nanos-fields (negsuc n) (pos zero) v =
    rw (same_sign (negsuc n) (pos zero) (ground arith))
      (checked_nanos-eq (negsuc n) (pos zero) tt (omega arith) (omega arith))
nanos-fields (negsuc zero) (pos (suc k)) v =
    rw
      (
        mixed_sign zero k,
        last_second,
        short_of_second k (omega arith),
        ← (same_total zero k (omega arith)).1,
      )
      (checked_nanos-eq (pos zero) (negsuc (ns_per_sec - suc (suc k))) tt (omega arith)
        (omega arith))
nanos-fields (negsuc (suc n)) (pos (suc k)) v =
    rw
      (
        mixed_sign (suc n) k,
        next_second n (omega arith),
        short_of_second k (omega arith),
        ← (same_total n k (omega arith)).0,
      )
      (checked_nanos-eq (negsuc n) (negsuc (ns_per_sec - suc (suc k))) tt (omega arith)
        (omega arith))

-- `nanos` gives the value in nanoseconds, and fails exactly when no int64 holds it.
pub nanos-eq :
    (ts : Timestamp)
    → IsValid ts
    → nanos ts ≡ (if fits_int64 (total ts) then some (total ts) else none)
unfolding total
nanos-eq ts v = nanos-fields ts.seconds ts.nanoseconds v

negative_duration :
    (q r n : ℕ)
    → n + 1 ≡ q * ns_per_sec + r
    → r < ns_per_sec
    → n < 2 ^ 63
    → IsValid (floor_normalise (pos 0 -ℤ pos q) (pos 0 -ℤ pos r))
      × (total (floor_normalise (pos 0 -ℤ pos q) (pos 0 -ℤ pos r)) ≡ negsuc n)
unfolding floor_normalise total ◌+ℤ◌ ◌-ℤ◌ ◌*ℤ◌ int64
negative_duration zero zero n e h p = absurd (omega arith)
negative_duration (suc q) zero n e h p = (ground arith, ground arith)
negative_duration zero (suc r) n e h p = (ground arith, ground arith)
negative_duration (suc q) (suc r) n e h p = (ground arith, ground arith)

-- A duration is the total of its timestamp, which is floor-normalised.
pub total-timestamp_from_duration :
    (d : ℤ)
    → FitsInt64 d
    → IsValid (timestamp_from_duration d) × (total (timestamp_from_duration d) ≡ d)
unfolding timestamp_from_duration total ◌+ℤ◌ ◌*ℤ◌ floor_normalise
total-timestamp_from_duration (pos n) h = (ground arith, ground arith)
total-timestamp_from_duration (negsuc n) h =
    negative_duration ((n + 1) / ns_per_sec) ((n + 1) % ns_per_sec) n (omega arith) (omega arith)
      (omega arith)
