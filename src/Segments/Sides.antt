-- ===== src/Segments/Sides.antt =====
-- The tests of `rangeContains` on one side of both ranges, against the ranks of timestamps.
use open_tams.Timerange.Order.{IsValid, rank}
use open_tams.Timerange.Instants.{IsInterval, Within, IsBound, Below, Above}
use open_tams.Timerange.{
  TimeRange, exclusive, inclusive, is_eternity, same_bound, unbounded, Timestamp, BoundType,
}
use open_tams.Segments.Containment.{
  is_greater, is_less, side_within, inner_end_greater, inner_start_less, compare_ts,
}
use open_tams.Prelude.{
  false, none, refl, some, true, ◌&&◌, ◌==◌, ◌||◌, ◌≡◌, ℕ, Option, Bool, ltb, arith,
}

-- The two tests in terms of ranks.
pub is_less-rank :
    (a b : Timestamp) (tie : Bool)
    → IsValid a
    → IsValid b
    → is_less (compare_ts a b) tie ≡ (ltb (rank a) (rank b) || (rank a == rank b && tie))
unfolding is_less compare_ts rank
is_less-rank a b tie va vb = ground arith

is_greater-rank :
    (a b : Timestamp) (tie : Bool)
    → IsValid a
    → IsValid b
    → is_greater (compare_ts a b) tie ≡ (ltb (rank b) (rank a) || (rank a == rank b && tie))
unfolding is_greater compare_ts rank
is_greater-rank a b tie va vb = ground arith

-- A bound that passes its test lies within the outer one.
pub start_sound :
    (o : Option Timestamp) (t : BoundType) (i : Option Timestamp) (u : BoundType) (r : ℕ)
    → IsBound o t
    → IsBound i u
    → side_within inner_start_less o t i u ≡ some true
    → Above i u r
    → Above o t r
unfolding side_within inner_start_less same_bound
start_sound none t i u r vo vi h a = tt
start_sound (some o) unbounded i u r vo vi h a = absurd vo
start_sound (some o) inclusive none inclusive r vo vi h a = absurd vi
start_sound (some o) inclusive none exclusive r vo vi h a = absurd vi
start_sound (some o) inclusive none unbounded r vo vi h a = absurd (ground arith)
start_sound (some o) exclusive none inclusive r vo vi h a = absurd vi
start_sound (some o) exclusive none exclusive r vo vi h a = absurd vi
start_sound (some o) exclusive none unbounded r vo vi h a = absurd (ground arith)
start_sound (some o) t (some i) unbounded r vo vi h a = absurd vi
start_sound (some o) inclusive (some i) inclusive r vo vi h a =
    ground (arith, is_less-rank i o false vi vo)
start_sound (some o) inclusive (some i) exclusive r vo vi h a =
    ground (arith, is_less-rank i o false vi vo)
start_sound (some o) exclusive (some i) inclusive r vo vi h a =
    ground (arith, is_less-rank i o true vi vo)
start_sound (some o) exclusive (some i) exclusive r vo vi h a =
    ground (arith, is_less-rank i o false vi vo)

pub end_sound :
    (o : Option Timestamp) (t : BoundType) (i : Option Timestamp) (u : BoundType) (r : ℕ)
    → IsBound o t
    → IsBound i u
    → side_within inner_end_greater o t i u ≡ some true
    → Below i u r
    → Below o t r
unfolding side_within inner_end_greater same_bound
end_sound none t i u r vo vi h a = tt
end_sound (some o) unbounded i u r vo vi h a = absurd vo
end_sound (some o) inclusive none inclusive r vo vi h a = absurd vi
end_sound (some o) inclusive none exclusive r vo vi h a = absurd vi
end_sound (some o) inclusive none unbounded r vo vi h a = absurd (ground arith)
end_sound (some o) exclusive none inclusive r vo vi h a = absurd vi
end_sound (some o) exclusive none exclusive r vo vi h a = absurd vi
end_sound (some o) exclusive none unbounded r vo vi h a = absurd (ground arith)
end_sound (some o) t (some i) unbounded r vo vi h a = absurd vi
end_sound (some o) inclusive (some i) inclusive r vo vi h a =
    ground (arith, is_greater-rank i o false vi vo)
end_sound (some o) inclusive (some i) exclusive r vo vi h a =
    ground (arith, is_greater-rank i o false vi vo)
end_sound (some o) exclusive (some i) inclusive r vo vi h a =
    ground (arith, is_greater-rank i o true vi vo)
end_sound (some o) exclusive (some i) exclusive r vo vi h a =
    ground (arith, is_greater-rank i o false vi vo)

-- No test dereferences a missing pointer.
pub side_within-some :
    (outside : Timestamp → BoundType → Timestamp → BoundType → Bool) (o : Option Timestamp)
    (t : BoundType) (i : Option Timestamp) (u : BoundType)
    → IsBound o t
    → IsBound i u
    → (b : Bool) × (side_within outside o t i u ≡ some b)
unfolding side_within same_bound
side_within-some outside none unbounded i u vo vi = (true, refl)
side_within-some outside none inclusive i u vo vi = absurd vo
side_within-some outside none exclusive i u vo vi = absurd vo
side_within-some outside (some o) unbounded i u vo vi = absurd vo
side_within-some outside (some o) inclusive none unbounded vo vi = (false, refl)
side_within-some outside (some o) inclusive none inclusive vo vi = absurd vi
side_within-some outside (some o) inclusive none exclusive vo vi = absurd vi
side_within-some outside (some o) exclusive none unbounded vo vi = (false, refl)
side_within-some outside (some o) exclusive none inclusive vo vi = absurd vi
side_within-some outside (some o) exclusive none exclusive vo vi = absurd vi
side_within-some outside (some o) t (some i) unbounded vo vi = absurd vi
side_within-some outside (some o) inclusive (some i) inclusive vo vi = (_, refl)
side_within-some outside (some o) inclusive (some i) exclusive vo vi = (_, refl)
side_within-some outside (some o) exclusive (some i) inclusive vo vi = (_, refl)
side_within-some outside (some o) exclusive (some i) exclusive vo vi = (_, refl)

eternity-Above :
    (o : Option Timestamp) (t : BoundType) (r : ℕ)
    → IsBound o t
    → same_bound t unbounded ≡ true
    → Above o t r
unfolding same_bound
eternity-Above none t r v h = tt
eternity-Above (some o) unbounded r v h = absurd v
eternity-Above (some o) inclusive r v h = absurd (ground arith)
eternity-Above (some o) exclusive r v h = absurd (ground arith)

eternity-Below :
    (o : Option Timestamp) (t : BoundType) (r : ℕ)
    → IsBound o t
    → same_bound t unbounded ≡ true
    → Below o t r
unfolding same_bound
eternity-Below none t r v h = tt
eternity-Below (some o) unbounded r v h = absurd v
eternity-Below (some o) inclusive r v h = absurd (ground arith)
eternity-Below (some o) exclusive r v h = absurd (ground arith)

pub eternity-Within : (tr : TimeRange) (r : ℕ) → IsInterval tr → is_eternity tr ≡ true → Within tr r
unfolding is_eternity
eternity-Within tr r v h = (
  eternity-Above tr.start tr.start_type r v.0 (ground arith),
  eternity-Below tr.end tr.end_type r v.1 (ground arith),
)
