-- ===== src/Segments.antt =====
-- internal/metastore/segments.go over the tables of migrations/000001 and 000005: the rows, the
-- statements on them, and the bounds of segments. UUIDs are byte strings. `database` is any error of
-- the driver or of a constraint of the tables that the code does not single out.
pub mod Containment
pub mod Insert
pub mod Write
pub mod Added
pub mod References
pub mod Consistent
pub mod Transactions
pub mod Invariant
pub mod Listing
pub mod Scanned
pub mod Paging
pub mod Pages
pub mod Batch
pub mod Effects
pub mod Outcome
pub mod Taken
pub mod Deletion
pub mod Success
pub mod Span
pub mod Refresh
pub mod Sides
pub mod Subrange
pub mod Strictness
pub mod Conditions
pub mod Samples
mod Examples
use open_tams.Prelude.{
  ℕ, ◌+◌, Bool, true, false, ◌&&◌, ◌||◌, not, Option, none, some, List, [], ◌∷◌, ◌≡◌, if◌then◌else◌,
  ltb, leb,
}
use open_tams.Prelude.Bytes.{Bytes, bytes_eq, is_nil}
use open_tams.Prelude.Int.{ℤ, pos, ltb_ℤ, ◌+ℤ◌, ◌-ℤ◌}
use open_tams.Prelude.Result.{Result, ok, err, ◌>>=◌}
use open_tams.Timerange.{Timestamp, TimeRange, is_empty}
use open_tams.Timerange.Nanos.{NsBounds, NsError, ns_bounds}

-- `domain.GetURL` and `domain.Segment`, without the flow and the creation time, which the store does
-- not read off a segment.
pub record GetUrl : Type 0 where
  pub url : Bytes
  pub label : Bytes
  pub controlled : Bool

pub record Segment : Type 0 where
  pub object_id : Bytes
  pub timerange : TimeRange
  pub ts_offset : Option Timestamp
  pub object_timerange : Option TimeRange
  pub last_duration : Option Timestamp
  pub key_frame_count : Option ℤ
  pub get_urls : List GetUrl
  pub timerange_raw : Bytes
  pub ts_offset_raw : Bytes
  pub object_timerange_raw : Bytes
  pub last_duration_raw : Bytes
  pub sample_offset : Option ℤ
  pub sample_count : Option ℤ

-- A row of segments, of objects and of flows. The column get_urls, a JSON text or NULL, is the list
-- that it stands for.
pub record SegmentRow : Type 0 where
  pub id : ℕ
  pub flow_id : Bytes
  pub segment_object : Bytes
  pub stored_timerange : Bytes
  pub lower_ns : ℤ
  pub upper_ns : ℤ
  pub stored_ts_offset : Bytes
  pub stored_object_timerange : Option Bytes
  pub stored_last_duration : Option Bytes
  pub stored_key_frames : Option ℤ
  pub stored_sample_offset : Option ℤ
  pub stored_sample_count : Option ℤ
  pub stored_urls : List GetUrl
  pub created_at : ℕ

pub record ObjectRow : Type 0 where
  pub id : Bytes
  pub ref_count : ℤ
  pub storage_id : Option Bytes
  pub reaping : Bool

pub record FlowRow : Type 0 where
  pub id : Bytes
  pub read_only : Bool
  pub flow_timerange : Option Bytes
  pub segments_updated : Option ℕ

pub record Store : Type 0 where
  pub flows : List FlowRow
  pub objects : List ObjectRow
  pub segments : List SegmentRow

pub data StoreError : Type 0 where
  flow_not_found flow_read_only bad_input segment_overlap segment_object_reaping : StoreError
  controlled_storage_not_configured invalid_object_timerange invalid_cursor : StoreError
  bad_stored_text database nil_dereference : StoreError
  bad_range : NsError → StoreError

-- The calls of the database that a transaction makes, with the index of a loop.
pub data Step : Type 0 where
  begin lock_flow read_flow delete find_span set_flow commit query : Step
  find_overlap upsert_object find_object_timerange insert_row decrement : ℕ → Step

-- Which calls fail.
abbrev pub Faults : Type 0
Faults = Step → Bool

abbrev pub call : Faults → Step → Result StoreError (Unit {0})
call faults step = if faults step then err database else ok tt

-- `GetFlowForSegmentWrite` and the two tests on its result.
unfoldable pub find_flow : Bytes → List FlowRow → Option FlowRow
find_flow id [] = none
find_flow id (f ∷ fs) = if bytes_eq f.id id then some f else find_flow id fs

unfoldable pub check_guard : Option FlowRow → Result StoreError (Unit {0})
check_guard none = err flow_not_found
check_guard (some f) = if f.read_only then err flow_read_only else ok tt

unfoldable pub lock_writable_flow : Faults → Bytes → Store → Result StoreError (Unit {0})
lock_writable_flow faults flow_id s = do
  _ ← call faults lock_flow
  check_guard (find_flow flow_id s.flows)

unfoldable pub of_ns {ℓ} : {A : Type ℓ} → Result NsError A → Result StoreError A
of_ns (ok a) = ok a
of_ns (err e) = err (bad_range e)

-- `segmentBounds`.
pub one_bound : Segment → Result StoreError NsBounds
unfolding of_ns
one_bound seg = if is_nil seg.timerange_raw then err bad_input else of_ns (ns_bounds seg.timerange)

pub segment_bounds : List Segment → Result StoreError (List NsBounds)
unfolding one_bound
segment_bounds [] = ok []
segment_bounds (seg ∷ segs) = do b ← one_bound seg; bs ← segment_bounds segs; ok (b ∷ bs)

pub bounds_overlap : NsBounds → NsBounds → Bool
bounds_overlap a b =
    (a.lower_unbounded || b.upper_unbounded || ltb_ℤ a.lower b.upper)
    && (b.lower_unbounded || a.upper_unbounded || ltb_ℤ b.lower a.upper)

-- The inner loop on `j` and the outer loop on `i`.
pub overlaps_any : NsBounds → List NsBounds → Bool
overlaps_any b [] = false
overlaps_any b (c ∷ cs) = let rest = overlaps_any b cs in if bounds_overlap b c then true else rest

pub batch_overlaps : List NsBounds → Bool
batch_overlaps [] = false
batch_overlaps (b ∷ bs) = let rest = batch_overlaps bs in if overlaps_any b bs then true else rest

-- The interval that `existingOverlapSQL` and the constraint no_segment_overlap read off a row.
unfoldable pub row_bounds : SegmentRow → NsBounds
row_bounds r = record {
  lower = r.lower_ns;
  upper = r.upper_ns;
  lower_unbounded = false;
  upper_unbounded = false;
}

-- `&&` on `int8range`s: an empty range overlaps nothing. The constructor refuses bounds in the
-- wrong order.
pub has_points : NsBounds → Bool
has_points b = b.lower_unbounded || b.upper_unbounded || ltb_ℤ b.lower b.upper

pub ranges_overlap : NsBounds → NsBounds → Bool
unfolding has_points bounds_overlap
ranges_overlap a b = has_points a && has_points b && bounds_overlap a b

pub is_inverted : NsBounds → Bool
is_inverted b = not b.lower_unbounded && not b.upper_unbounded && ltb_ℤ b.upper b.lower

pub existing_overlap : Bytes → NsBounds → List SegmentRow → Bool
unfolding row_bounds
existing_overlap flow_id b [] = false
existing_overlap flow_id b (r ∷ rs) =
    let rest = existing_overlap flow_id b rs in
    if bytes_eq r.flow_id flow_id && ranges_overlap (row_bounds r) b then true else rest

-- `INSERT INTO objects … ON CONFLICT (id) DO UPDATE SET ref_count = objects.ref_count + 1 WHERE
-- objects.reaping = false`; `none` is the case of no returned row.
pub upsert : Bytes → Option Bytes → List ObjectRow → Option (List ObjectRow)
upsert id storage [] =
    some (record { id = id; ref_count = pos 1; storage_id = storage; reaping = false } ∷ [])
upsert id storage (o ∷ os) =
    let rest = upsert id storage os in
    if bytes_eq o.id id
    then (if o.reaping then none else some (record o { ref_count = o.ref_count +ℤ pos 1 } ∷ os))
    else elim rest [ none ↦ none | some os' ↦ some (o ∷ os') ]
