-- ===== src/Segments/Samples.antt =====
-- A store with one flow and two segments, which an insertion makes.
use open_tams.Segments.Consistent.{IsConsistent}
use open_tams.Segments.References.{refs, references}
use open_tams.Segments.Transactions.{insert_segments-IsConsistent}
use open_tams.Timerange.Order.{IsValid}
use open_tams.Prelude.{ℕ, ◌≡◌, none, some, [], ◌∷◌, false, refl, arith, ◌<◌}
use open_tams.Prelude.Int.{pos, ◌+ℤ◌, ◌-ℤ◌, ◌*ℤ◌, int64}
use open_tams.Prelude.Bytes.{Bytes, codes, cut, split_last, bytes_eq}
use open_tams.Prelude.Decimal.{parse_uint, format_uint}
use open_tams.Prelude.Result.{ok}
use open_tams.Timerange.{
  Timestamp, TimeRange, inclusive, exclusive, is_empty, is_eternity, before, equal,
}
use open_tams.Timerange.Text.{
  parse, parse_timestamp, range_text, timestamp_text, separated, side, valid_int, valid_nano,
}
use open_tams.Timerange.Nanos.{ns_bounds, nanos, checked_nanos, bound_nanos}
use open_tams.Segments.{
  Segment, FlowRow, Store, find_flow, check_guard, lock_writable_flow, segment_bounds,
  batch_overlaps, overlaps_any, existing_overlap, upsert, is_inverted, bounds_overlap,
  ranges_overlap,
}
use open_tams.Segments.Insert.{
  new_row, check_existing, upsert_objects, check_object_timeranges, add_rows, store_row,
}
use open_tams.Segments.Write.{
  insert_segments, finish, insert_transaction, refresh_flow_timerange, flow_span, span_text,
  first_row, last_row, indices, pick, set_span, join_span,
}
use open_tams.Segments.Pages.{no_faults}

abbrev pub at_second : ℕ → Timestamp
at_second n = record { seconds = pos n; nanoseconds = pos 0 }

abbrev pub seconds_range : ℕ → ℕ → TimeRange
seconds_range a b = record {
  start = some (at_second a);
  start_type = inclusive;
  end = some (at_second b);
  end_type = exclusive;
}

abbrev pub f1 : Bytes
f1 = codes "f1"

abbrev pub o1 : Bytes
o1 = codes "o1"

abbrev pub segment : TimeRange → Bytes → Segment
segment range text = record {
  object_id = o1;
  timerange = range;
  ts_offset = none;
  object_timerange = none;
  last_duration = none;
  key_frame_count = none;
  get_urls = [];
  timerange_raw = text;
  ts_offset_raw = [];
  object_timerange_raw = [];
  last_duration_raw = [];
  sample_offset = none;
  sample_count = none;
}

abbrev pub text1 : Bytes
text1 = codes "[0:0_1:0)"

abbrev pub text2 : Bytes
text2 = codes "[1:0_2:0)"

abbrev pub seg1 : Segment
seg1 = segment (seconds_range 0 1) text1

abbrev pub seg2 : Segment
seg2 = segment (seconds_range 1 2) text2

abbrev pub flow : FlowRow
flow = record { id = f1; read_only = false; flow_timerange = none; segments_updated = none }

abbrev pub no_segments : Store
no_segments = record { flows = flow ∷ []; objects = []; segments = [] }

abbrev pub ids : ℕ → ℕ
ids i = i

abbrev pub two_segments : Store
two_segments = record {
  flows = record flow { flow_timerange = some (codes "[0:0_2:0)"); segments_updated = some 7 } ∷ [];
  objects =
      record { id = o1; ref_count = pos 2; storage_id = some (codes "s3"); reaping = false } ∷ [];
  segments =
      new_row 0 f1 7 seg1 (pos 0) (pos 1_000_000_000)
      ∷ new_row 1 f1 7 seg2 (pos 1_000_000_000) (pos 2_000_000_000)
      ∷ [];
}

pub reads_text1 : parse text1 ≡ ok (seconds_range 0 1)
unfolding parse parse_timestamp cut parse_uint split_last separated side valid_int valid_nano int64
    ◌-ℤ◌
reads_text1 = refl

pub reads_text2 : parse text2 ≡ ok (seconds_range 1 2)
unfolding parse parse_timestamp cut parse_uint split_last separated side valid_int valid_nano int64
    ◌-ℤ◌
reads_text2 = refl

pub inserted :
    insert_segments no_faults ids 7 f1 (codes "s3") (seg1 ∷ seg2 ∷ []) no_segments
    ≡ (ok (0 ∷ 1 ∷ []), two_segments)
unfolding insert_segments finish insert_transaction segment_bounds batch_overlaps overlaps_any
    existing_overlap is_inverted lock_writable_flow check_guard find_flow check_existing
    upsert_objects upsert check_object_timeranges add_rows store_row new_row refresh_flow_timerange
    flow_span span_text first_row last_row pick indices set_span join_span bytes_eq parse
    parse_timestamp cut parse_uint split_last separated side valid_int valid_nano int64 ◌-ℤ◌ ◌+ℤ◌
    ◌*ℤ◌ range_text is_empty timestamp_text format_uint before equal is_eternity ns_bounds nanos
    checked_nanos bound_nanos bounds_overlap ranges_overlap
inserted = refl

pub no_segments-IsConsistent : IsConsistent no_segments
unfolding refs references
no_segments-IsConsistent = record { disjoint = tt; nonempty = tt; counted = λ object. refl }

pub two_segments-IsConsistent : IsConsistent two_segments
two_segments-IsConsistent = rw inserted at (
    insert_segments-IsConsistent no_faults ids 7 f1 (codes "s3") (seg1 ∷ seg2 ∷ []) no_segments
      no_segments-IsConsistent)

pub at_second-IsValid : (n : ℕ) → n < 100 → IsValid (at_second n)
at_second-IsValid n h = record { fits = omega arith; nonneg = refl; below = omega arith }

abbrev pub valid0 : IsValid (at_second 0)
valid0 = at_second-IsValid 0 (omega arith)

abbrev pub valid1 : IsValid (at_second 1)
valid1 = at_second-IsValid 1 (omega arith)

abbrev pub valid2 : IsValid (at_second 2)
valid2 = at_second-IsValid 2 (omega arith)
