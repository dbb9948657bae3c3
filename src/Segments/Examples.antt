-- ===== src/Segments/Examples.antt =====
-- Runs of the segment store, and the theorems about it applied to them.
use open_tams.Segments.Span.{rows_span}
use open_tams.Segments.Success.{HasText, delete_segments-succeeds}
use open_tams.Prelude.Sort.{All}
use open_tams.Timerange.Nanos.Meaning.{InBounds}
use open_tams.Segments.Conditions.{Contained, Covers, is_covered_iff, overlap_cond_iff}
use open_tams.Segments.Listing.{overlap_cond}
use open_tams.Segments.Subrange.{range_contains_sound}
use open_tams.Segments.Deletion.{Deletion, delete_segments-Deletion}
use open_tams.Segments.Consistent.{IsConsistent}
use open_tams.Segments.Containment.{
  range_contains, side_within, inner_start_less, inner_end_greater,
}
use open_tams.Segments.Effects.{IsInserted, IsWritable, insert_segments-IsInserted}
use open_tams.Segments.Invariant.{
  Write, failure, insert_batch, apply_all, apply_all-IsConsistent, delete_range,
}
use open_tams.Prelude.{◌≡◌, none, some, [], ◌∷◌, true, false, refl, arith, List, ap, inr, ◌↔◌, ℕ}
use open_tams.Prelude.Int.{pos, ◌+ℤ◌, ◌-ℤ◌, ◌*ℤ◌, int64, ℤ, ◌≤ℤ◌}
use open_tams.Prelude.Bytes.{codes, cut, split_last, bytes_eq}
use open_tams.Prelude.Decimal.{parse_uint, format_uint}
use open_tams.Prelude.Result.{ok}
use open_tams.Timerange.{is_empty, is_eternity, before, equal, contains}
use open_tams.Timerange.Text.{
  parse, parse_timestamp, range_text, timestamp_text, separated, side, valid_int, valid_nano,
}
use open_tams.Timerange.Nanos.{ns_bounds, nanos, checked_nanos, bound_nanos, NsBounds}
use open_tams.Segments.{
  segment_overlap, find_flow, check_guard, lock_writable_flow, of_ns, segment_bounds,
  batch_overlaps, overlaps_any, existing_overlap, is_inverted, SegmentRow, bounds_overlap,
  ranges_overlap, FlowRow,
}
use open_tams.Segments.Insert.{new_row, check_existing, lower_param, upper_param}
use open_tams.Segments.Write.{
  insert_segments, delete_segments, finish, insert_transaction, delete_transaction, delete_covered,
  refresh_flow_timerange, flow_span, span_text, first_row, last_row, indices, pick, set_span,
  is_covered, remaining, deleted, group_counts, total_deleted, decrement_all, join_span,
}
use open_tams.Segments.Pages.{no_faults}
use open_tams.Segments.Samples.{
  at_second, seconds_range, f1, o1, seg1, seg2, no_segments, ids, two_segments, inserted,
  no_segments-IsConsistent, valid0, valid1, valid2, flow, reads_text1, reads_text2,
  two_segments-IsConsistent,
}

abbrev writes : List Write
writes =
    insert_batch no_faults ids 7 f1 (codes "s3") (seg1 ∷ seg2 ∷ [])
    ∷ delete_range no_faults 8 f1 (seconds_range 0 1) none
    ∷ []

apply_all-IsConsistent_example : IsConsistent (apply_all writes no_segments)
apply_all-IsConsistent_example = apply_all-IsConsistent writes no_segments no_segments-IsConsistent

abbrev overlapping : Write
overlapping = insert_batch no_faults ids 9 f1 (codes "s3") (seg1 ∷ [])

overlap_fails : failure overlapping two_segments ≡ some segment_overlap
unfolding failure insert_segments finish insert_transaction segment_bounds batch_overlaps
    overlaps_any existing_overlap is_inverted lock_writable_flow check_guard find_flow
    check_existing bytes_eq new_row ◌-ℤ◌ ◌+ℤ◌ ◌*ℤ◌ int64 is_empty before equal ns_bounds nanos
    checked_nanos bound_nanos bounds_overlap ranges_overlap
overlap_fails = refl

insert_segments-IsInserted_example :
    ((0 ∷ 1 ∷ []) ≡ indices 0 (seg1 ∷ seg2 ∷ []))
    × IsInserted ids 7 f1
        (seg1 ∷ seg2 ∷ [])
        no_segments
        (insert_segments no_faults ids 7 f1 (codes "s3") (seg1 ∷ seg2 ∷ []) no_segments).1
insert_segments-IsInserted_example =
    insert_segments-IsInserted no_faults ids 7 f1 (codes "s3") (seg1 ∷ seg2 ∷ []) no_segments
      (0 ∷ 1 ∷ []) (ap (λ p. p.0) inserted)

deleted_one : (delete_segments no_faults 8 f1 (seconds_range 0 1) (some o1) two_segments).0 ≡ ok 1
unfolding delete_segments finish delete_transaction delete_covered lock_writable_flow check_guard
    find_flow is_covered remaining deleted group_counts total_deleted decrement_all
    refresh_flow_timerange flow_span span_text first_row last_row pick set_span join_span bytes_eq
    new_row parse parse_timestamp cut parse_uint split_last separated side valid_int valid_nano
    int64 ◌-ℤ◌ ◌+ℤ◌ ◌*ℤ◌ range_text is_empty timestamp_text format_uint before equal is_eternity
    ns_bounds nanos checked_nanos bound_nanos of_ns lower_param upper_param
deleted_one = refl

delete_segments-Deletion_example :
    IsWritable f1 two_segments.flows
    × Deletion 8 f1
        (seconds_range 0 1)
        (some o1)
        two_segments
        1
        (delete_segments no_faults 8 f1 (seconds_range 0 1) (some o1) two_segments).1
delete_segments-Deletion_example =
    delete_segments-Deletion no_faults 8 f1 (seconds_range 0 1) (some o1) two_segments 1 deleted_one

abbrev row1 : SegmentRow
row1 = new_row 0 f1 7 seg1 (pos 0) (pos 1_000_000_000)

abbrev row2 : SegmentRow
row2 = new_row 1 f1 7 seg2 (pos 1_000_000_000) (pos 2_000_000_000)

first_of_two : first_row f1 (row1 ∷ row2 ∷ []) ≡ some row1
unfolding first_row pick bytes_eq new_row
first_of_two = refl

last_of_two : last_row f1 (row1 ∷ row2 ∷ []) ≡ some row2
unfolding last_row pick bytes_eq new_row
last_of_two = refl

range_contains_sound_example : contains (seconds_range 0 2) (at_second 0) ≡ true
unfolding range_contains is_eternity is_empty before equal side_within inner_start_less
    inner_end_greater contains
range_contains_sound_example =
    range_contains_sound (seconds_range 0 2) (seconds_range 0 1) (at_second 0) (valid0, valid2)
      (valid0, valid1) refl valid0 refl

abbrev first_second : NsBounds
first_second = record {
  lower = pos 0;
  upper = pos 1_000_000_000;
  lower_unbounded = false;
  upper_unbounded = false;
}

is_covered_iff_example :
    (is_covered f1 (lower_param first_second) (upper_param first_second) none row1 ≡ true)
    ↔ ((row1.flow_id ≡ f1) × Contained first_second row1)
is_covered_iff_example = is_covered_iff f1 first_second row1 (unfold new_row in omega arith)

overlap_cond_iff_example :
    (overlap_cond (lower_param first_second) (upper_param first_second) row1 ≡ true)
    ↔ ((z : ℤ) × Covers row1 z × InBounds first_second z)
overlap_cond_iff_example =
    overlap_cond_iff first_second row1 (unfold new_row in omega arith) (inr (inr (omega arith)))

abbrev spanned_flow : FlowRow
spanned_flow = record flow { flow_timerange = some (codes "[0:0_2:0)"); segments_updated = some 7 }

flow_found : find_flow f1 two_segments.flows ≡ some spanned_flow
unfolding find_flow bytes_eq
flow_found = refl

not_empty : is_empty (seconds_range 0 1) ≡ false
unfolding is_empty before equal
not_empty = refl

second_bounds : ns_bounds (seconds_range 0 1) ≡ ok first_second
unfolding ns_bounds is_empty before equal nanos checked_nanos bound_nanos int64 ◌-ℤ◌ ◌+ℤ◌ ◌*ℤ◌
second_bounds = refl

two_segments-HasText : All HasText two_segments.segments
unfolding new_row
two_segments-HasText = (
  (seconds_range 0 1, reads_text1, (valid0, valid1)),
  ((seconds_range 1 2, reads_text2, (valid1, valid2)), tt),
)

delete_segments-succeeds_example :
    (count : ℕ) × ((delete_segments no_faults 8 f1 (seconds_range 0 1) none two_segments).0
      ≡ ok count)
    × Deletion 8 f1
        (seconds_range 0 1)
        none
        two_segments
        count
        (delete_segments no_faults 8 f1 (seconds_range 0 1) none two_segments).1
delete_segments-succeeds_example =
    delete_segments-succeeds 8 f1 (seconds_range 0 1) none two_segments spanned_flow flow_found refl
      two_segments-HasText (inr (first_second, second_bounds))

rows_span_example : (row1.lower_ns ≤ℤ row2.lower_ns) × (row2.upper_ns ≤ℤ row2.upper_ns)
rows_span_example =
    rows_span f1 (row1 ∷ []) row2 [] row1 row2 two_segments-IsConsistent.disjoint
      two_segments-IsConsistent.nonempty first_of_two last_of_two (unfold new_row in refl)
