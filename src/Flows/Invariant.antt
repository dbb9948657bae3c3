-- ===== src/Flows/Invariant.antt =====
-- Sequences of all operations of internal/metastore that change its tables.
use open_tams.Flows.Small.{
  put_flow_tag-IsSound, delete_flow_tag-IsSound, update_flow_field-IsSound,
  put_flow_read_only-IsSound, put_flow_collection-IsSound, delete_flow_collection-IsSound,
  put_source_tag-IsSound, delete_source_tag-IsSound,
}
use open_tams.Prelude.Sort.{All-map}
use open_tams.Flows.Preserved.{upsert_flow-IsSound, delete_flow-IsSound}
use open_tams.Prelude.Result.{Returns-bind, ensure}
use open_tams.Flows.Finish.{finish-keeps}
use open_tams.Segments.Consistent.{IsDrifted}
use open_tams.Segments.Write.{set_span}
use open_tams.Prelude.Bytes.{Bytes, bytes_eq}
use open_tams.Segments.Invariant.{Write, apply}
use open_tams.Flows.Sources.{update_source_field, SourceColumn, set_source_column}
use open_tams.Flows.Operations.{put_store, with_cores, run, run_all}
use open_tams.Prelude.{
  [], ap, inl, inr, refl, some, ℕ, ◌∙◌, ◌∷◌, ◌≡◌, List, Option, map, Bool-cases,
}
use open_tams.Flows.Sources.{source_label, source_description}
use open_tams.Flows.Operations.{
  Op, upsert_op, delete_op, put_tag_op, delete_tag_op, column_op, read_only_op, put_collection_op,
  delete_collection_op, put_source_tag_op, delete_source_tag_op, source_column_op, segments_op,
}
use open_tams.Flows.Sound.{IsSound, HasFlow, HasSource, update-IsSound, IsDrifted-flows}
use open_tams.Flows.{
  Db, is_flow, is_source, FlowEntry, segment_store, Failing, SourceRow, calls, exec, not_found,
}
use open_tams.Prelude.Table.{exists, update, exists-update, find-update_each}
use open_tams.Segments.Outcome.{IsWrite, apply-IsWrite, apply-IsDrifted}
use open_tams.Segments.{Store, find_flow, FlowRow}

-- A source keeps its format and its place under a change of its other columns.
columns-IsSound :
    (now : ℕ) (id : Bytes) (col : SourceColumn) (db : Db)
    → IsSound db
    → IsSound (record db { sources = update (is_source id) (set_source_column now col) db.sources })
unfolding segment_store set_source_column
columns-IsSound now id col db c = record {
  sourced = All-map _ _ db.flows (λ f h. found f h) c.sourced;
  source_tagged = All-map _ _ db.source_tags (λ t h. same t.owner ∙ h) c.source_tagged;
  tagged = c.tagged;
  collected = c.collected;
  owned = c.owned;
  drift = c.drift;
  counted = record {
    disjoint = c.counted.disjoint;
    nonempty = c.counted.nonempty;
    counted = c.counted.counted;
  };
}
  where
    same_id : (col : SourceColumn) (s : SourceRow) → (set_source_column now col s).id ≡ s.id
    same_id (source_label v) s = refl
    same_id (source_description v) s = refl

    same_format :
        (col : SourceColumn) (s : SourceRow) → (set_source_column now col s).format ≡ s.format
    same_format (source_label v) s = refl
    same_format (source_description v) s = refl

    same :
        (i : Bytes)
        → exists (is_source i) (update (is_source id) (set_source_column now col) db.sources)
          ≡ exists (is_source i) db.sources
    same i =
        exists-update (is_source i) (is_source id) (set_source_column now col) db.sources
          (λ s. ap (λ j. bytes_eq j i) (same_id col s))

    found :
        (f : FlowEntry)
        → HasSource db.sources f
        → HasSource (update (is_source id) (set_source_column now col) db.sources) f
    found f (s, e, a) =
        let (t, k, o) =
          find-update_each (is_source f.source_id) (is_source id) (set_source_column now col)
            db.sources s (λ s. ap (λ j. bytes_eq j f.source_id) (same_id col s)) e in
        (t, k, elim o [ inl u ↦ rw u a | inr u ↦ rw u (same_format col s ∙ a) ])

update_source_field-IsSound :
    (failing : Failing) (now : ℕ) (id : Bytes) (col : SourceColumn) (db : Db)
    → IsSound db
    → IsSound (update_source_field failing now id col db).1
unfolding update_source_field
update_source_field-IsSound failing now id col db c = finish-keeps IsSound db _ c (
    Returns-bind _ (calls failing exec) _ λ _ _.
      Returns-bind _ (ensure (exists (is_source id) db.sources) not_found) _
        λ _ _. columns-IsSound now id col db c)

-- What a transaction on segments writes into the rows of flows.
abbrev pub spanned : ℕ → Option Bytes → FlowEntry → FlowEntry
spanned now span f = record f {
  core = record f.core { flow_timerange = span; segments_updated = some now };
}

pub with_cores-set_span :
    (now : ℕ) (id : Bytes) (span : Option Bytes) (flows : List FlowEntry)
    → with_cores flows (set_span now id span (map (λ f. f.core) flows))
      ≡ update (is_flow id) (spanned now span) flows
unfolding with_cores set_span update
with_cores-set_span now id span [] = refl
with_cores-set_span now id span (f ∷ fs) = elim (Bool-cases (bytes_eq f.core.id id)) [
  | inl e ↦ rw (e, with_cores-set_span now id span fs) refl
  | inr e ↦ rw (e, with_cores-set_span now id span fs) refl
]

pub with_cores_same : (flows : List FlowEntry) → with_cores flows (map (λ f. f.core) flows) ≡ flows
unfolding with_cores
with_cores_same [] = refl
with_cores_same (f ∷ fs) = ap (λ l. f ∷ l) (with_cores_same fs)

pub put_store_same : (db : Db) → put_store db (segment_store db) ≡ db
unfolding put_store segment_store
put_store_same db = rw (with_cores_same db.flows) refl

exists-find_flow :
    (id : Bytes) (flows : List FlowEntry) (f : FlowRow)
    → find_flow id (map (λ e. e.core) flows) ≡ some f
    → HasFlow flows id
unfolding find_flow exists
exists-find_flow id [] f e = absurd (cc)
exists-find_flow id (x ∷ xs) f e = elim (Bool-cases (bytes_eq x.core.id id)) [
  | inl t ↦ rw t
  | inr t ↦ rw t (exists-find_flow id xs f (rw t at e))
]

write-IsSound :
    (db : Db) (s : Store) (c : IsSound db)
    → IsWrite (segment_store db) s
    → IsDrifted c.drift s
    → IsSound (put_store db s)
unfolding put_store segment_store
write-IsSound db s c i d =
    rw (i.spanned, with_cores-set_span i.now i.flow_id i.span db.flows)
      (update-IsSound db (is_flow i.flow_id) (spanned i.now i.span) s.objects s.segments
        (λ e. (refl, refl, refl)) c
        (i.owned (λ r. HasFlow db.flows r.flow_id)
          (λ r e. rw e (exists-find_flow i.flow_id db.flows i.writable.0 i.writable.1)) c.owned)
        (IsDrifted-flows c.drift s [] d))

segments-IsSound :
    (w : Write) (db : Db) → IsSound db → IsSound (put_store db (apply w (segment_store db)))
segments-IsSound w db c = elim (apply-IsWrite w (segment_store db)) [
  | inl e ↦ rw (e, put_store_same db) c
  | inr i ↦
      write-IsSound db (apply w (segment_store db)) c i
        (apply-IsDrifted c.drift w (segment_store db) c.counted)
]

pub run-IsSound : (op : Op) (db : Db) → IsSound db → IsSound (run op db)
unfolding run
run-IsSound (upsert_op failing now f) db = upsert_flow-IsSound failing now f db
run-IsSound (delete_op failing id) db = delete_flow-IsSound failing id db
run-IsSound (put_tag_op failing id name value) db = put_flow_tag-IsSound failing id name value db
run-IsSound (delete_tag_op failing id name) db = delete_flow_tag-IsSound failing id name db
run-IsSound (column_op failing now id col) db = update_flow_field-IsSound failing now id col db
run-IsSound (read_only_op failing now id b) db = put_flow_read_only-IsSound failing now id b db
run-IsSound (put_collection_op failing id items) db =
    put_flow_collection-IsSound failing id items db
run-IsSound (delete_collection_op failing id) db = delete_flow_collection-IsSound failing id db
run-IsSound (put_source_tag_op failing id name value) db =
    put_source_tag-IsSound failing id name value db
run-IsSound (delete_source_tag_op failing id name) db = delete_source_tag-IsSound failing id name db
run-IsSound (source_column_op failing now id col) db =
    update_source_field-IsSound failing now id col db
run-IsSound (segments_op w) db = segments-IsSound w db

-- Every sequence of the operations that change flows, sources, tags, collections and segments, with
-- any failures of the database, keeps the tables sound: every flow has its source, of the same
-- format; every tag, collection item and segment belongs to a source or flow that exists; the
-- segments of a flow hold points and do not overlap; and the count of each object is at least the
-- number of the segments that refer to it.
pub run_all-IsSound : (ops : List Op) (db : Db) → IsSound db → IsSound (run_all ops db)
unfolding run_all
run_all-IsSound [] db c = c
run_all-IsSound (op ∷ ops) db c = run_all-IsSound ops (run op db) (run-IsSound op db c)
