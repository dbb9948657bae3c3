-- ===== src/Segments/Insert.antt =====
-- internal/metastore/segments.go, the steps 2 to 4 of `InsertSegments` on the rows of the tables.
use open_tams.Prelude.{
  ℕ, ◌+◌, not, Option, none, some, List, [], ◌∷◌, ◌++◌, if◌then◌else◌, ltb, ◌-◌, ◌&&◌, true, Bool,
  ◌^◌,
}
use open_tams.Prelude.Bytes.{Bytes, bytes_eq, is_nil}
use open_tams.Prelude.Int.{ℤ, ltb_ℤ, pos, negsuc}
use open_tams.Prelude.Result.{Result, ok, err, ◌>>=◌, ensure}
use open_tams.Timerange.{TimeRange}
use open_tams.Timerange.Nanos.{NsBounds}
use open_tams.Timerange.Text.{parse}
use open_tams.Segments.{
  invalid_object_timerange, nil_dereference, segment_overlap, insert_row, database,
  find_object_timerange, bad_stored_text, upsert_object, segment_object_reaping,
  controlled_storage_not_configured, find_overlap, Segment, SegmentRow, ObjectRow, StoreError,
  Faults, call, existing_overlap, upsert, is_inverted, row_bounds,
}
use open_tams.Segments.Containment.{range_contains}

-- Step 2, against the rows that are there.
unfoldable pub check_existing :
    Faults → Bytes → ℕ → List NsBounds → List SegmentRow → Result StoreError (Unit {0})
check_existing faults flow_id i [] rows = ok tt
check_existing faults flow_id i (b ∷ bs) rows = do
  _ ← call faults (find_overlap i)
  _ ← ensure (not (is_inverted b)) database
  _ ← ensure (not (existing_overlap flow_id b rows)) segment_overlap
  check_existing faults flow_id (i + 1) bs rows

-- Step 3: the storage of the object, and its count of references.
unfoldable pub storage_of : Bytes → Segment → Result StoreError (Option Bytes)
storage_of controlled seg =
    if is_nil seg.get_urls
    then (if is_nil controlled then err controlled_storage_not_configured else ok (some controlled))
    else ok none

unfoldable pub claim : Option (List ObjectRow) → Result StoreError (List ObjectRow)
claim none = err segment_object_reaping
claim (some objects) = ok objects

unfoldable pub upsert_objects :
    Faults → Bytes → ℕ → List Segment → List ObjectRow → Result StoreError (List ObjectRow)
unfolding storage_of claim
upsert_objects faults controlled i [] objects = ok objects
upsert_objects faults controlled i (seg ∷ segs) objects = do
  storage ← storage_of controlled seg
  _ ← call faults (upsert_object i)
  objects' ← claim (upsert seg.object_id storage objects)
  upsert_objects faults controlled (i + 1) segs objects'

-- Step 3.5: `ORDER BY created_at ASC LIMIT 1` among the rows of the object with a time range, with
-- the creation time of the row that was found.
earlier : Option (ℕ × Bytes) → ℕ × Bytes → ℕ × Bytes
earlier none p = p
earlier (some q) p = if ltb q.0 p.0 then q else p

earliest : Bytes → List SegmentRow → Option (ℕ × Bytes)
unfolding earlier
earliest object [] = none
earliest object (r ∷ rs) =
    let rest = earliest object rs in
    if bytes_eq r.segment_object object
    then elim r.stored_object_timerange [
      | none ↦ rest
      | some text ↦ some (earlier rest (r.created_at, text))
    ]
    else rest

-- The test on the range that is stored, where there is one.
within_stored : Option (ℕ × Bytes) → TimeRange → Result StoreError (Unit {0})
within_stored none range = ok tt
within_stored (some p) range = elim (parse p.1) [
  | err _ ↦ err bad_stored_text
  | ok stored ↦ elim (range_contains stored range) [
    | none ↦ err nil_dereference
    | some b ↦ ensure b invalid_object_timerange
  ]
]

check_one : Faults → ℕ → Option TimeRange → Bytes → List SegmentRow → Result StoreError (Unit {0})
unfolding within_stored earliest
check_one faults i none object rows = ok tt
check_one faults i (some range) object rows = do
  _ ← call faults (find_object_timerange i)
  within_stored (earliest object rows) range

unfoldable pub check_object_timeranges :
    Faults → ℕ → List Segment → List SegmentRow → Result StoreError (Unit {0})
unfolding check_one
check_object_timeranges faults i [] rows = ok tt
check_object_timeranges faults i (seg ∷ segs) rows = do
  _ ← check_one faults i seg.object_timerange seg.object_id rows
  check_object_timeranges faults (i + 1) segs rows

-- `lowerParam` and `upperParam`; `none` is NULL.
unfoldable pub lower_param : NsBounds → Option ℤ
lower_param b = if b.lower_unbounded then none else some b.lower

unfoldable pub upper_param : NsBounds → Option ℤ
upper_param b = if b.upper_unbounded then none else some b.upper

unfoldable pub null_if_empty : Bytes → Option Bytes
null_if_empty s = if is_nil s then none else some s

abbrev max_int32 : ℕ
max_int32 = 2 ^ 31 - 1

-- Step 4: one `INSERT`, under NOT NULL, segments_bounds_nonempty and no_segment_overlap.
unfoldable pub new_row : ℕ → Bytes → ℕ → Segment → ℤ → ℤ → SegmentRow
new_row id flow_id now seg lower upper = record {
  id = id;
  flow_id = flow_id;
  segment_object = seg.object_id;
  stored_timerange = seg.timerange_raw;
  lower_ns = lower;
  upper_ns = upper;
  stored_ts_offset = seg.ts_offset_raw;
  stored_object_timerange = null_if_empty seg.object_timerange_raw;
  stored_last_duration = null_if_empty seg.last_duration_raw;
  stored_key_frames = seg.key_frame_count;
  stored_sample_offset = seg.sample_offset;
  stored_sample_count = seg.sample_count;
  stored_urls = seg.get_urls;
  created_at = now;
}

unfoldable pub not_null : Option ℤ → Result StoreError ℤ
not_null none = err database
not_null (some v) = ok v

unfoldable pub store_row : SegmentRow → List SegmentRow → Result StoreError (List SegmentRow)
store_row row rows =
    if not (ltb_ℤ row.lower_ns row.upper_ns)
    then err database
    else if existing_overlap row.flow_id (row_bounds row) rows
    then err segment_overlap
    else ok (rows ++ row ∷ [])

-- The column key_frame_count is an INT, which the driver refuses to fill with a larger number.
unfoldable pub fits_int4 : Option ℤ → Bool
fits_int4 none = true
fits_int4 (some v) = not (ltb_ℤ v (negsuc max_int32)) && not (ltb_ℤ (pos max_int32) v)

unfoldable pub add_row :
    ℕ → Bytes → ℕ → Segment → NsBounds → List SegmentRow → Result StoreError (List SegmentRow)
unfolding lower_param upper_param not_null fits_int4
add_row id flow_id now seg b rows = do
  lower ← not_null (lower_param b)
  upper ← not_null (upper_param b)
  _ ← ensure (fits_int4 seg.key_frame_count) database
  store_row (new_row id flow_id now seg lower upper) rows

-- `ids` are the numbers that the sequence of the table gives to the rows of the batch.
unfoldable pub add_rows :
    Faults
    → (ℕ → ℕ)
    → Bytes
    → ℕ
    → ℕ
    → List Segment
    → List NsBounds
    → List SegmentRow
    → Result StoreError (List SegmentRow)
unfolding add_row
add_rows faults ids flow_id now i (seg ∷ segs) (b ∷ bs) rows = do
  _ ← call faults (insert_row i)
  rows' ← add_row (ids i) flow_id now seg b rows
  add_rows faults ids flow_id now (i + 1) segs bs rows'
add_rows faults ids flow_id now i _ _ rows = ok rows
