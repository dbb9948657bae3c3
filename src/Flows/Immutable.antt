-- ===== src/Flows/Immutable.antt =====
-- internal/metastore/flows.go: no operation changes the source or the format of a flow, nor the
-- codec of one that has segments.
use open_tams.Flows.Invariant.{with_cores_same, spanned, with_cores-set_span}
use open_tams.Prelude.Result.{Returns-bind, ensure}
use open_tams.Flows.Keys.{
  IsKept, Harmless, unchanged, deletes, upsert_flow-IsKept, delete_flow-IsKept, updated,
}
use open_tams.Prelude.Bytes.{Bytes}
use open_tams.Segments.Invariant.{Write, apply}
use open_tams.Prelude.{false, inl, inr, refl, some, ◌∙◌, ◌≡◌, ℕ, List, Bool, ap}
use open_tams.Flows.Sources.{
  delete_source_tag, put_source_tag, update_source_field, SourceColumn, source_exists,
}
use open_tams.Flows.Finish.{finish-keeps}
use open_tams.Flows.Fields.{
  label, description, avg_bit_rate, max_bit_rate, put_flow_read_only, guarded, touch,
  update_flow_field, put_flow_collection, put_flow_tag, set_flow_column, set_column, set_read_only,
  delete_flow_tag, delete_flow_collection, Column, flow_writable, insert_items,
}
use open_tams.Flows.Operations.{
  Op, upsert_op, delete_op, put_tag_op, delete_tag_op, column_op, read_only_op, put_collection_op,
  delete_collection_op, put_source_tag_op, delete_source_tag_op, source_column_op, segments_op, run,
  put_store, with_cores,
}
use open_tams.Flows.{
  Db, is_flow, is_source, FlowEntry, segment_store, begin, commit, delete, not_found, exec, Failing,
  calls, CollectionItem, in_collection,
}
use open_tams.Prelude.Table.{find, exists, remove}
use open_tams.Segments.Outcome.{apply-IsWrite}

-- The operations that leave the rows of flows alone.
guarded-flows :
    (failing : Failing) (id : Bytes) (changed db : Db)
    → changed.flows ≡ db.flows
    → (guarded failing id changed db).1.flows ≡ db.flows
unfolding guarded
guarded-flows failing id changed db h =
    finish-keeps (λ d. d.flows ≡ db.flows) db _ refl
      (Returns-bind _ (flow_writable failing id db) _
        λ _ _. Returns-bind _ (calls failing exec) _ λ _ _. h)

pub put_flow_collection-flows :
    (failing : Failing) (id : Bytes) (items : List CollectionItem) (db : Db)
    → (put_flow_collection failing id items db).1.flows ≡ db.flows
unfolding put_flow_collection
put_flow_collection-flows failing id items db =
    finish-keeps (λ d. d.flows ≡ db.flows) db _ refl
      (Returns-bind _ (calls failing begin) _ λ _ _.
        Returns-bind _ (flow_writable failing id db) _ λ _ _.
          Returns-bind _ (calls failing delete) _ λ _ _.
            Returns-bind _
              (insert_items failing id 0 items (remove (in_collection id) db.collections)) _
              λ _ _. Returns-bind _ (calls failing commit) _ λ _ _. refl)

put_source_tag-flows :
    (failing : Failing) (id name value : Bytes) (db : Db)
    → (put_source_tag failing id name value db).1.flows ≡ db.flows
unfolding put_source_tag
put_source_tag-flows failing id name value db =
    finish-keeps (λ d. d.flows ≡ db.flows) db _ refl
      (Returns-bind _ (source_exists failing id db) _
        λ _ _. Returns-bind _ (calls failing exec) _ λ _ _. refl)

delete_source_tag-flows :
    (failing : Failing) (id name : Bytes) (db : Db)
    → (delete_source_tag failing id name db).1.flows ≡ db.flows
unfolding delete_source_tag
delete_source_tag-flows failing id name db =
    finish-keeps (λ d. d.flows ≡ db.flows) db _ refl
      (Returns-bind _ (source_exists failing id db) _
        λ _ _. Returns-bind _ (calls failing exec) _ λ _ _. refl)

update_source_field-flows :
    (failing : Failing) (now : ℕ) (id : Bytes) (col : SourceColumn) (db : Db)
    → (update_source_field failing now id col db).1.flows ≡ db.flows
unfolding update_source_field
update_source_field-flows failing now id col db =
    finish-keeps (λ d. d.flows ≡ db.flows) db _ refl
      (Returns-bind _ (calls failing exec) _
        λ _ _. Returns-bind _ (ensure (exists (is_source id) db.sources) not_found) _ λ _ _. refl)

-- The operations that update the rows of flows.
touched-Harmless : (now : ℕ) (col : Column) → Harmless (λ f. touch now (set_column col f))
unfolding touch set_column
touched-Harmless now (label v) e = (refl, refl, refl, refl)
touched-Harmless now (description v) e = (refl, refl, refl, refl)
touched-Harmless now (avg_bit_rate v) e = (refl, refl, refl, refl)
touched-Harmless now (max_bit_rate v) e = (refl, refl, refl, refl)

update_flow_field-IsKept :
    (failing : Failing) (now : ℕ) (i : Bytes) (col : Column) (e : FlowEntry) (id : Bytes) (db : Db)
    → find (is_flow id) db.flows ≡ some e
    → IsKept id e db.segments (update_flow_field failing now i col db).1
unfolding update_flow_field set_flow_column
update_flow_field-IsKept failing now i col e id db he =
    finish-keeps (IsKept id e db.segments) db _ (unchanged id e db db refl he) (
      Returns-bind _ (flow_writable failing i db) _ λ _ _.
        Returns-bind _ (calls failing exec) _ λ _ _.
          Returns-bind _ (ensure (exists (is_flow i) db.flows) not_found) _ λ _ _.
            updated id e db (is_flow i) (λ f. touch now (set_column col f)) _
              (touched-Harmless now col) he refl)

put_flow_read_only-IsKept :
    (failing : Failing) (now : ℕ) (i : Bytes) (b : Bool) (e : FlowEntry) (id : Bytes) (db : Db)
    → find (is_flow id) db.flows ≡ some e
    → IsKept id e db.segments (put_flow_read_only failing now i b db).1
unfolding put_flow_read_only set_read_only touch
put_flow_read_only-IsKept failing now i b e id db he =
    finish-keeps (IsKept id e db.segments) db _ (unchanged id e db db refl he) (
      Returns-bind _ (calls failing exec) _ λ _ _.
        Returns-bind _ (ensure (exists (is_flow i) db.flows) not_found) _ λ _ _.
          updated id e db (is_flow i) (set_read_only now b) _ (λ x. (refl, refl, refl, refl)) he
            refl)

segments-IsKept :
    (w : Write) (e : FlowEntry) (id : Bytes) (db : Db)
    → find (is_flow id) db.flows ≡ some e
    → IsKept id e db.segments (put_store db (apply w (segment_store db)))
unfolding put_store segment_store
segments-IsKept w e id db he = elim (apply-IsWrite w (segment_store db)) [
  | inl s ↦
      unchanged id e db _ (ap (λ t. with_cores db.flows t.flows) s ∙ with_cores_same db.flows) he
  | inr i ↦
      updated id e db (is_flow i.flow_id) (spanned i.now i.span) _ (λ x. (refl, refl, refl, refl))
        he
        (ap (with_cores db.flows) i.spanned ∙ with_cores-set_span i.now i.flow_id i.span db.flows)
]

-- An operation of any kind, with any failures of the database, leaves a flow that was there with its
-- source and its format, and with its codec where it had segments, unless the operation is the
-- deletion of this flow.
pub run-immutable :
    (op : Op) (id : Bytes) (e : FlowEntry) (db : Db)
    → deletes id op ≡ false
    → find (is_flow id) db.flows ≡ some e
    → IsKept id e db.segments (run op db)
unfolding run put_flow_tag delete_flow_tag delete_flow_collection
run-immutable (upsert_op failing now f) id e db d he = upsert_flow-IsKept failing now f e id db he
run-immutable (delete_op failing i) id e db d he = delete_flow-IsKept failing i e id db d he
run-immutable (put_tag_op failing i name value) id e db d he =
    unchanged id e db _ (guarded-flows failing i _ db refl) he
run-immutable (delete_tag_op failing i name) id e db d he =
    unchanged id e db _ (guarded-flows failing i _ db refl) he
run-immutable (column_op failing now i col) id e db d he =
    update_flow_field-IsKept failing now i col e id db he
run-immutable (read_only_op failing now i b) id e db d he =
    put_flow_read_only-IsKept failing now i b e id db he
run-immutable (put_collection_op failing i items) id e db d he =
    unchanged id e db _ (put_flow_collection-flows failing i items db) he
run-immutable (delete_collection_op failing i) id e db d he =
    unchanged id e db _ (guarded-flows failing i _ db refl) he
run-immutable (put_source_tag_op failing i name value) id e db d he =
    unchanged id e db _ (put_source_tag-flows failing i name value db) he
run-immutable (delete_source_tag_op failing i name) id e db d he =
    unchanged id e db _ (delete_source_tag-flows failing i name db) he
run-immutable (source_column_op failing now i col) id e db d he =
    unchanged id e db _ (update_source_field-flows failing now i col db) he
run-immutable (segments_op w) id e db d he = segments-IsKept w e id db he
