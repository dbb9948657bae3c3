-- ===== src/Flows/Columns.antt =====
-- internal/metastore/flows.go: what `GetFlow` reads behind the change of one field of a flow.
use open_tams.Flows.Finish.{finish-ok}
use open_tams.Prelude.Table.{find, exists, find-update_other, find-update_same}
use open_tams.Flows.Guards.{none_failing}
use open_tams.Prelude.Bytes.{Bytes, bytes_eq, bytes_eq_iff}
use open_tams.Flows.{
  Db, Flow, Failing, get_flow, FlowEntry, scan_flow_base, is_flow, tags_of, collection_of, calls,
  exec, read_flow, not_found, read_only,
}
use open_tams.Prelude.Result.{ok, Returns, Returns-bind, ensure, Returns-ok, Returns-ensure}
use open_tams.Flows.Fields.{
  label, description, avg_bit_rate, max_bit_rate, Column, flow_writable, touch, update_flow_field,
  set_column, set_flow_column,
}
use open_tams.Prelude.{◌≡◌, refl, some, inl, inr, false, ℕ, ap, Option-cases, ◌∙◌, not}

-- A flow with another value in a field.
abbrev pub set_field : ℕ → Column → Flow → Flow
set_field now (label v) g = record g { label = v; metadata_updated = now }
set_field now (description v) g = record g { description = v; metadata_updated = now }
set_field now (avg_bit_rate v) g = record g { avg_bit_rate = v; metadata_updated = now }
set_field now (max_bit_rate v) g = record g { max_bit_rate = v; metadata_updated = now }

-- What `GetFlow` makes of the row.
abbrev pub read_row : Db → Bytes → FlowEntry → Flow
read_row db id e = record (scan_flow_base (tags_of id db.flow_tags) e) {
  flow_collection = collection_of id db.collections;
}

set_column-is_flow :
    (now : ℕ) (c : Column) (id : Bytes) (e : FlowEntry)
    → is_flow id (touch now (set_column c e)) ≡ is_flow id e
unfolding touch set_column
set_column-is_flow now (label v) id e = refl
set_column-is_flow now (description v) id e = refl
set_column-is_flow now (avg_bit_rate v) id e = refl
set_column-is_flow now (max_bit_rate v) id e = refl

set_column-read_row :
    (now : ℕ) (c : Column) (db : Db) (id : Bytes) (e : FlowEntry)
    → read_row db id (touch now (set_column c e)) ≡ set_field now c (read_row db id e)
unfolding touch set_column scan_flow_base
set_column-read_row now (label v) db id e = refl
set_column-read_row now (description v) db id e = refl
set_column-read_row now (avg_bit_rate v) db id e = refl
set_column-read_row now (max_bit_rate v) db id e = refl

-- The test on read_only has found the flow.
pub flow_writable-found :
    (failing : Failing) (id : Bytes) (db : Db)
    → Returns
        (λ _. (e : FlowEntry) × (find (is_flow id) db.flows ≡ some e))
        (flow_writable failing id db)
unfolding flow_writable
flow_writable-found failing id db = Returns-bind _ (calls failing read_flow) _ λ _ _.
    elim (Option-cases (find (is_flow id) db.flows)) [
      | inl e ↦ rw e tt
      | inr (f, e) ↦ rw e (Returns-ensure (not f.core.read_only) read_only (f, refl))
    ]

pub get_flow-found :
    (id : Bytes) (db : Db) (e : FlowEntry)
    → find (is_flow id) db.flows ≡ some e
    → get_flow none_failing id db ≡ ok (read_row db id e)
unfolding get_flow
get_flow-found id db e h = rw (get_flow, h) refl

module _ (now : ℕ) (id : Bytes) (c : Column) (db : Db) where
  abbrev with_column : Db
  with_column = record db { flows = set_flow_column now id c db.flows }

  same_get :
      (e : FlowEntry)
      → find (is_flow id) db.flows ≡ some e
      → get_flow none_failing id with_column ≡ ok (set_field now c (read_row db id e))
  unfolding set_flow_column
  same_get e h =
      get_flow-found id with_column (touch now (set_column c e)) (
        find-update_same (is_flow id) (λ f. touch now (set_column c f)) db.flows e
          (λ y k. set_column-is_flow now c id y ∙ k) h)
      ∙ ap ok (set_column-read_row now c db id e)

  other_get :
      (j : Bytes)
      → bytes_eq id j ≡ false
      → get_flow none_failing j with_column ≡ get_flow none_failing j db
  unfolding get_flow set_flow_column
  other_get j d =
      let same =
        find-update_other (is_flow j) (is_flow id) (λ f. touch now (set_column c f)) db.flows
          (λ y k. rw ((bytes_eq_iff y.core.id id).0 k) d)
          (λ y k. set_column-is_flow now c j y ∙ k) in
      rw (get_flow, same) refl

-- Behind a change of a field that succeeds, GetFlow returns the flow as before, but for this field
-- and the time of the change, and every other flow as before.
pub update_flow_field-get :
    (failing : Failing) (now : ℕ) (id : Bytes) (c : Column) (db : Db)
    → (update_flow_field failing now id c db).0 ≡ ok tt
    → (g : Flow) × (get_flow none_failing id db ≡ ok g)
      × (get_flow none_failing id (update_flow_field failing now id c db).1
          ≡ ok (set_field now c g))
      × ((j : Bytes)
          → bytes_eq id j ≡ false
          → get_flow none_failing j (update_flow_field failing now id c db).1
            ≡ get_flow none_failing j db)
unfolding update_flow_field
update_flow_field-get failing now id c db h =
    let (there, changed) =
      finish-ok
        (λ _ db'.
          ((e : FlowEntry) × (find (is_flow id) db.flows ≡ some e))
          × (db' ≡ with_column now id c db))
        db _ tt
        (Returns-bind _ (flow_writable failing id db) _ λ u e.
          Returns-bind _ (calls failing exec) _ λ _ _.
            Returns-bind _ (ensure (exists (is_flow id) db.flows) not_found) _
              λ _ _. (Returns-ok _ _ u (flow_writable-found failing id db) e, refl))
        h in
    let (e, he) = there in
    rw changed (
      read_row db id e,
      get_flow-found id db e he,
      same_get now id c db e he,
      other_get now id c db,
    )
