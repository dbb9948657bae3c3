-- ===== src/Segments/Containment.antt =====
-- internal/metastore/segments.go, `rangeContains` and its helpers, by which the store checks that an
-- object's time range lies in the one that is recorded for the object. `none` is a nil dereference.
use open_tams.Prelude.{Bool, true, false, ◌&&◌, not, Option, none, some, if◌then◌else◌}
use open_tams.Prelude.Int.{ltb_ℤ}
use open_tams.Prelude.Maybe.{◌>>=◌}
use open_tams.Timerange.{
  Timestamp, TimeRange, BoundType, inclusive, exclusive, unbounded, same_bound, is_empty,
  is_eternity,
}

pub data Comparison : Type 0 where
  less same greater : Comparison

-- The results -1, 0 and 1 of `compareTS`.
unfoldable pub compare_ts : Timestamp → Timestamp → Comparison
compare_ts a b =
    if ltb_ℤ a.seconds b.seconds
    then less
    else if ltb_ℤ b.seconds a.seconds
    then greater
    else if ltb_ℤ a.nanoseconds b.nanoseconds
    then less
    else if ltb_ℤ b.nanoseconds a.nanoseconds
    then greater
    else same

-- The result of both tests for a comparison, with `tie` for equal endpoints.
unfoldable pub is_less : Comparison → Bool → Bool
is_less less tie = true
is_less same tie = tie
is_less greater tie = false

unfoldable pub is_greater : Comparison → Bool → Bool
is_greater less tie = false
is_greater same tie = tie
is_greater greater tie = true

unfoldable pub inner_start_less : Timestamp → BoundType → Timestamp → BoundType → Bool
unfolding same_bound compare_ts is_less
inner_start_less outer outer_type inner inner_type =
    is_less (compare_ts inner outer)
      (same_bound outer_type exclusive && same_bound inner_type inclusive)

unfoldable pub inner_end_greater : Timestamp → BoundType → Timestamp → BoundType → Bool
unfolding same_bound compare_ts is_greater
inner_end_greater outer outer_type inner inner_type =
    is_greater (compare_ts inner outer)
      (same_bound outer_type exclusive && same_bound inner_type inclusive)

-- One of the two blocks on a bound: whether it lets the check go on. It dereferences both pointers
-- behind the tests on the markers.
unfoldable pub side_within :
    (Timestamp → BoundType → Timestamp → BoundType → Bool)
    → Option Timestamp
    → BoundType
    → Option Timestamp
    → BoundType
    → Option Bool
unfolding same_bound
side_within outside outer outer_type inner inner_type =
    if same_bound outer_type unbounded
    then some true
    else if same_bound inner_type unbounded
    then some false
    else do i ← inner; o ← outer; some (not (outside o outer_type i inner_type))

unfoldable pub range_contains : TimeRange → TimeRange → Option Bool
range_contains outer inner =
    if is_eternity outer
    then some true
    else if is_empty inner
    then some true
    else if is_eternity inner
    then some false
    else elim (side_within inner_start_less outer.start outer.start_type inner.start
        inner.start_type) [
          | none ↦ none
          | some false ↦ some false
          | some true ↦
              side_within inner_end_greater outer.end outer.end_type inner.end inner.end_type
        ]
