-- ===== src/Timerange/Nanos.antt =====
-- internal/timerange/nsbounds.go: ranges as half-open intervals of int64 nanoseconds. The arithmetic
-- is int64 arithmetic that wraps around. `ErrOutOfRange` and `ErrEmptyRange` are the two errors;
-- the text that wraps them in `NsBounds` is left out.
mod Examples
pub mod Exact
pub mod Meaning
use open_tams.Prelude.{
  ◌%◌, ℕ, ◌+◌, ◌-◌, ◌%◌, ◌/◌, ◌^◌, Bool, true, false, ◌&&◌, ◌||◌, not, Option, none, some,
  if◌then◌else◌,
}
use open_tams.Prelude.Int.{ℤ, pos, negsuc, ltb_ℤ, eqb_ℤ, ◌+ℤ◌, ◌-ℤ◌, ◌*ℤ◌, int64, max_int64}
use open_tams.Prelude.Result.{Result, ok, err, ◌>>=◌}
use open_tams.Timerange.{
  Timestamp, TimeRange, BoundType, inclusive, exclusive, same_bound, is_empty, ns_per_sec,
}

pub data NsError : Type 0 where
  out_of_range empty_range : NsError

pub record NsBounds : Type 0 where
  pub lower : ℤ
  pub upper : ℤ
  pub lower_unbounded : Bool
  pub upper_unbounded : Bool

-- `math.MaxInt64/nsPerSec`, and `math.MinInt64/nsPerSec`, which rounds towards zero.
abbrev max_seconds : ℤ
max_seconds = pos (max_int64 / ns_per_sec)

abbrev min_seconds : ℤ
min_seconds = negsuc (2 ^ 63 / ns_per_sec - 1)

abbrev min_int64 : ℤ
min_int64 = negsuc max_int64

-- The last part of `nanos`: the sum of seconds and nanoseconds, if it does not overflow.
checked_sum : ℤ → ℤ → Option ℤ
checked_sum v ns =
    if (ltb_ℤ (pos 0) ns && ltb_ℤ (int64 (pos max_int64 -ℤ ns)) v)
      || (ltb_ℤ ns (pos 0) && ltb_ℤ v (int64 (min_int64 -ℤ ns)))
    then none
    else some (int64 (v +ℤ ns))

unfoldable pub checked_nanos : ℤ → ℤ → Option ℤ
unfolding checked_sum
checked_nanos s ns =
    if ltb_ℤ max_seconds s || ltb_ℤ s min_seconds
    then none
    else checked_sum (int64 (s *ℤ ns_per_sec)) ns

-- `(value, true)` is `some value`, `(0, false)` is `none`.
unfoldable pub nanos : Timestamp → Option ℤ
nanos ts =
    if ltb_ℤ ts.seconds (pos 0) && ltb_ℤ (pos 0) ts.nanoseconds
    then checked_nanos (int64 (ts.seconds +ℤ pos 1)) (int64 (ts.nanoseconds -ℤ pos ns_per_sec))
    else checked_nanos ts.seconds ts.nanoseconds

bump : Bool → ℤ → Result NsError ℤ
bump add_one v =
    if add_one && eqb_ℤ v (pos max_int64)
    then err out_of_range
    else ok (if add_one then int64 (v +ℤ pos 1) else v)

unfoldable pub bound_nanos : Timestamp → Bool → Result NsError ℤ
unfolding bump
bound_nanos ts add_one = elim (nanos ts) [ none ↦ err out_of_range | some v ↦ bump add_one v ]

-- One side of the result: its value, zero if there is none, and whether it is unbounded.
unfoldable pub side_nanos : Option Timestamp → Bool → Result NsError (ℤ × Bool)
side_nanos none add_one = ok (pos 0, true)
side_nanos (some ts) add_one = do v ← bound_nanos ts add_one; ok (v, false)

unfoldable pub ns_bounds : TimeRange → Result NsError NsBounds
unfolding side_nanos same_bound
ns_bounds tr = if is_empty tr then err empty_range else do
  lo ← side_nanos tr.start (same_bound tr.start_type exclusive)
  hi ← side_nanos tr.end (same_bound tr.end_type inclusive)
  ok (record { lower = lo.0; upper = hi.0; lower_unbounded = lo.1; upper_unbounded = hi.1 })

-- `TimestampFromDuration`: Go's `/` and `%` round towards zero.
floor_normalise : ℤ → ℤ → Timestamp
floor_normalise s ns =
    if ltb_ℤ ns (pos 0)
    then record { seconds = int64 (s -ℤ pos 1); nanoseconds = ns +ℤ pos ns_per_sec }
    else record { seconds = s; nanoseconds = ns }

pub timestamp_from_duration : ℤ → Timestamp
timestamp_from_duration (pos d) = floor_normalise (pos (d / ns_per_sec)) (pos (d % ns_per_sec))
timestamp_from_duration (negsuc d) =
    floor_normalise (pos 0 -ℤ pos ((d + 1) / ns_per_sec)) (pos 0 -ℤ pos ((d + 1) % ns_per_sec))
