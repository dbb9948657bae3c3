-- ===== src/Segments/Write.antt =====
-- internal/metastore/segments.go, the two transactions `InsertSegments` and
-- `DeleteSegmentsByTimerange`, and the refresh of the flow's time range at the end of both. The body
-- of a transaction works on a copy of the tables, which replaces them if the commit succeeds.
use open_tams.Prelude.{
  ℕ, ◌+◌, Bool, true, ◌&&◌, not, Option, none, some, List, [], ◌∷◌, if◌then◌else◌,
}
use open_tams.Prelude.Bytes.{Bytes, bytes_eq}
use open_tams.Prelude.Int.{ℤ, pos, ltb_ℤ, ◌-ℤ◌}
use open_tams.Prelude.Result.{Result, ok, err, ◌>>=◌, ensure}
use open_tams.Timerange.{TimeRange, is_empty}
use open_tams.Timerange.Nanos.{NsBounds, ns_bounds}
use open_tams.Timerange.Text.{parse, range_text, ParseError}
use open_tams.Segments.{
  commit, begin, delete, decrement, segment_overlap, set_flow, find_span, nil_dereference,
  bad_stored_text, of_ns, Segment, SegmentRow, ObjectRow, FlowRow, Store, StoreError, Faults, call,
  lock_writable_flow, segment_bounds, batch_overlaps,
}
use open_tams.Segments.Insert.{
  check_existing, upsert_objects, check_object_timeranges, add_rows, lower_param, upper_param,
}

-- `ORDER BY lower_ns … LIMIT 1` among the rows of a flow, where `better` is the order.
unfoldable pub keep : (SegmentRow → SegmentRow → Bool) → Option SegmentRow → SegmentRow → SegmentRow
keep better none r = r
keep better (some q) r = if better q r then q else r

unfoldable pub pick : (SegmentRow → SegmentRow → Bool) → Bytes → List SegmentRow → Option SegmentRow
unfolding keep
pick better flow_id [] = none
pick better flow_id (r ∷ rs) =
    let rest = pick better flow_id rs in
    if bytes_eq r.flow_id flow_id then some (keep better rest r) else rest

abbrev pub starts_before : SegmentRow → SegmentRow → Bool
starts_before q r = ltb_ℤ q.lower_ns r.lower_ns

abbrev pub starts_behind : SegmentRow → SegmentRow → Bool
starts_behind q r = ltb_ℤ r.lower_ns q.lower_ns

unfoldable pub first_row : Bytes → List SegmentRow → Option SegmentRow
first_row = pick starts_before

unfoldable pub last_row : Bytes → List SegmentRow → Option SegmentRow
last_row = pick starts_behind

unfoldable pub join_span : TimeRange → TimeRange → TimeRange
join_span first last = record {
  start = first.start;
  start_type = first.start_type;
  end = last.end;
  end_type = last.end_type;
}

of_text : Result ParseError TimeRange → Result StoreError TimeRange
of_text (ok tr) = ok tr
of_text (err e) = err bad_stored_text

of_panic : Option Bytes → Result StoreError (Option Bytes)
of_panic none = err nil_dereference
of_panic (some text) = ok (some text)

unfoldable pub span_text : Option SegmentRow → Option SegmentRow → Result StoreError (Option Bytes)
unfolding of_text of_panic
span_text (some a) (some b) = do
  first ← of_text (parse a.stored_timerange)
  last ← of_text (parse b.stored_timerange)
  of_panic (range_text (join_span first last))
span_text _ _ = ok none

unfoldable pub flow_span : Faults → Bytes → List SegmentRow → Result StoreError (Option Bytes)
flow_span faults flow_id rows = do
  _ ← call faults find_span
  span_text (first_row flow_id rows) (last_row flow_id rows)

-- `UPDATE flows SET segments_updated = now(), timerange = $2 WHERE id = $1`.
unfoldable pub set_span : ℕ → Bytes → Option Bytes → List FlowRow → List FlowRow
set_span now flow_id span [] = []
set_span now flow_id span (f ∷ fs) =
    (if bytes_eq f.id flow_id
      then record f { flow_timerange = span; segments_updated = some now }
      else f)
    ∷ set_span now flow_id span fs

unfoldable pub refresh_flow_timerange :
    Faults → ℕ → Bytes → List SegmentRow → List FlowRow → Result StoreError (List FlowRow)
refresh_flow_timerange faults now flow_id rows flows = do
  span ← flow_span faults flow_id rows
  _ ← call faults set_flow
  ok (set_span now flow_id span flows)

-- The store behind a transaction: the committed tables, or the ones before.
unfoldable pub finish {ℓ} :
    {A : Type ℓ} → Store → Result StoreError (A × Store) → Result StoreError A × Store
finish s (err e) = (err e, s)
finish s (ok (a, s')) = (ok a, s')

-- The indices of a batch, all of which are accepted.
unfoldable pub indices : ℕ → List Segment → List ℕ
indices i [] = []
indices i (seg ∷ segs) = i ∷ indices (i + 1) segs

unfoldable pub insert_transaction :
    Faults → (ℕ → ℕ) → ℕ → Bytes → Bytes → List Segment → Store → Result StoreError (List ℕ × Store)
insert_transaction faults ids now flow_id controlled batch s = do
  bounds ← segment_bounds batch
  _ ← ensure (not (batch_overlaps bounds)) segment_overlap
  _ ← call faults begin
  _ ← lock_writable_flow faults flow_id s
  _ ← check_existing faults flow_id 0 bounds s.segments
  objects ← upsert_objects faults controlled 0 batch s.objects
  _ ← check_object_timeranges faults 0 batch s.segments
  rows ← add_rows faults ids flow_id now 0 batch bounds s.segments
  flows ← refresh_flow_timerange faults now flow_id rows s.flows
  _ ← call faults commit
  ok (indices 0 batch, record { flows = flows; objects = objects; segments = rows })

unfoldable pub insert_segments :
    Faults → (ℕ → ℕ) → ℕ → Bytes → Bytes → List Segment → Store → Result StoreError (List ℕ) × Store
insert_segments faults ids now flow_id controlled batch s =
    finish s (insert_transaction faults ids now flow_id controlled batch s)

-- The condition of the `DELETE`, with the parameters of `queryBounds`; a NULL lets every row pass.
unfoldable pub is_covered : Bytes → Option ℤ → Option ℤ → Option Bytes → SegmentRow → Bool
is_covered flow_id lo hi object r =
    bytes_eq r.flow_id flow_id
    && elim lo [ none ↦ true | some l ↦ not (ltb_ℤ r.lower_ns l) ]
    && elim hi [ none ↦ true | some h ↦ not (ltb_ℤ h r.upper_ns) ]
    && elim object [ none ↦ true | some o ↦ bytes_eq r.segment_object o ]

unfoldable pub remaining : (SegmentRow → Bool) → List SegmentRow → List SegmentRow
remaining p [] = []
remaining p (r ∷ rs) = let rest = remaining p rs in if p r then rest else r ∷ rest

unfoldable pub deleted : (SegmentRow → Bool) → List SegmentRow → List SegmentRow
deleted p [] = []
deleted p (r ∷ rs) = let rest = deleted p rs in if p r then r ∷ rest else rest

-- `SELECT object_id, COUNT(*) FROM deleted GROUP BY object_id`.
unfoldable pub add_to_group : Bytes → List (Bytes × ℕ) → List (Bytes × ℕ)
add_to_group object [] = (object, 1) ∷ []
add_to_group object (g ∷ gs) =
    let rest = add_to_group object gs in
    if bytes_eq g.0 object then (g.0, g.1 + 1) ∷ gs else g ∷ rest

unfoldable pub group_counts : List SegmentRow → List (Bytes × ℕ)
unfolding add_to_group
group_counts [] = []
group_counts (r ∷ rs) = add_to_group r.segment_object (group_counts rs)

unfoldable pub total_deleted : List (Bytes × ℕ) → ℕ
total_deleted [] = 0
total_deleted (g ∷ gs) = g.1 + total_deleted gs

-- `UPDATE objects SET ref_count = ref_count - $1 WHERE id = $2`, for each group.
unfoldable pub subtract : Bytes → ℕ → List ObjectRow → List ObjectRow
subtract object n [] = []
subtract object n (o ∷ os) =
    (if bytes_eq o.id object then record o { ref_count = o.ref_count -ℤ pos n } else o)
    ∷ subtract object n os

unfoldable pub decrement_all :
    Faults → ℕ → List (Bytes × ℕ) → List ObjectRow → Result StoreError (List ObjectRow)
unfolding subtract
decrement_all faults i [] objects = ok objects
decrement_all faults i (g ∷ gs) objects = do
  _ ← call faults (decrement i)
  decrement_all faults (i + 1) gs (subtract g.0 g.1 objects)

unfoldable pub delete_covered :
    Faults → ℕ → Bytes → Option Bytes → NsBounds → Store → Result StoreError (ℕ × Store)
delete_covered faults now flow_id object b s =
    let taken = is_covered flow_id (lower_param b) (upper_param b) object in
    let groups = group_counts (deleted taken s.segments) in
    do
      _ ← call faults delete
      objects ← decrement_all faults 0 groups s.objects
      flows ← refresh_flow_timerange faults now flow_id (remaining taken s.segments) s.flows
      _ ← call faults commit
      ok (
        total_deleted groups,
        record { flows = flows; objects = objects; segments = remaining taken s.segments },
      )

unfoldable pub delete_transaction :
    Faults → ℕ → Bytes → TimeRange → Option Bytes → Store → Result StoreError (ℕ × Store)
delete_transaction faults now flow_id range object s = do
  _ ← call faults begin
  _ ← lock_writable_flow faults flow_id s
  if is_empty range
      then ok (0, s)
      else do b ← of_ns (ns_bounds range); delete_covered faults now flow_id object b s

unfoldable pub delete_segments :
    Faults → ℕ → Bytes → TimeRange → Option Bytes → Store → Result StoreError ℕ × Store
delete_segments faults now flow_id range object s =
    finish s (delete_transaction faults now flow_id range object s)
