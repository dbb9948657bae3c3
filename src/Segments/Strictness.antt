-- ===== src/Segments/Strictness.antt =====
-- `rangeContains` of internal/metastore/segments.go on an exclusive start directly before an inclusive
-- one.
use open_tams.Segments.Subrange.{Within-IsSubrange}
use open_tams.Segments.Sides.{is_less-rank}
use open_tams.Timerange.Order.{next-IsValid, rank, IsValid, top_rank, rank-next}
use open_tams.Prelude.{false, none, some, ◌<◌, true, ◌≡◌, arith}
use open_tams.Timerange.{
  contains, Timestamp, exclusive, inclusive, next, unbounded, is_eternity, TimeRange, is_empty,
  same_bound,
}
use open_tams.Segments.Containment.{range_contains, side_within, inner_start_less}

abbrev pub from_instant : Timestamp → TimeRange
from_instant ts = record {
  start = some ts;
  start_type = inclusive;
  end = none;
  end_type = unbounded;
}

abbrev pub behind_instant : Timestamp → TimeRange
behind_instant ts = record {
  start = some ts;
  start_type = exclusive;
  end = none;
  end_type = unbounded;
}

-- For every valid timestamp but the last, rangeContains answers that the range from the next
-- timestamp on does not contain the range behind the timestamp, although every valid timestamp that
-- Contains finds in the latter it finds in the former.
pub range_contains-refuses :
    (ts other : Timestamp)
    → IsValid ts
    → rank ts < top_rank
    → IsValid other
    → contains (behind_instant ts) other ≡ true
    → (range_contains (from_instant (next ts)) (behind_instant ts) ≡ some false)
      × (contains (from_instant (next ts)) other ≡ true)
unfolding range_contains is_eternity is_empty same_bound side_within inner_start_less
range_contains-refuses ts other v h vo c = (
  ground (arith, is_less-rank ts (next ts) false v (next-IsValid ts v h), rank-next ts v h),
  Within-IsSubrange (from_instant (next ts)) (behind_instant ts) (next-IsValid ts v h, tt) (v, tt)
      (λ r w. (omega (arith, rank-next ts v h, w.0), tt)) other vo c,
)
