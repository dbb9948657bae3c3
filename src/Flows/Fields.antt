-- ===== src/Flows/Fields.antt =====
-- internal/metastore/flows.go, the operations on one field of a flow, on its tags and on its
-- collection, most of them behind the test on read_only.
use open_tams.Prelude.Table.{update, upsert, remove, find, exists}
use open_tams.Prelude.Int.{ℤ}
use open_tams.Prelude.Bytes.{Bytes, bytes_eq}
use open_tams.Prelude.Result.{ok, ◌>>=◌, Result, ensure}
use open_tams.Prelude.{Option, [], none, some, ℕ, ◌&&◌, ◌++◌, ◌+◌, ◌∷◌, List, Bool, not}
use open_tams.Flows.{
  begin, read_flow, commit, delete, exec, insert_item, database, read_only, Failing, FlowEntry, Db,
  ItemRow, CollectionItem, TagRow, nil_json, is_flow, FlowError, calls, finish, is_tag, one_row,
  in_collection, not_found,
}

-- `flowWritable`.
unfoldable pub flow_writable : Failing → Bytes → Db → Result FlowError (Unit {0})
flow_writable failing id db = do
  _ ← calls failing read_flow
  f ← one_row (find (is_flow id) db.flows)
  ensure (not f.core.read_only) read_only

-- A statement that runs behind the test, and commits by itself.
unfoldable pub guarded : Failing → Bytes → Db → Db → Result FlowError (Unit {0}) × Db
guarded failing id changed db =
    finish db (do _ ← flow_writable failing id db; _ ← calls failing exec; ok (tt, changed))

unfoldable pub put_tag : Bytes → Bytes → Bytes → List TagRow → List TagRow
put_tag id name value =
    upsert (is_tag id name) (λ t. record t { value = value })
      (record { owner = id; name = name; value = value })

unfoldable pub put_flow_tag :
    Failing → Bytes → Bytes → Bytes → Db → Result FlowError (Unit {0}) × Db
put_flow_tag failing id name value db =
    guarded failing id (record db { flow_tags = put_tag id name value db.flow_tags }) db

unfoldable pub delete_flow_tag : Failing → Bytes → Bytes → Db → Result FlowError (Unit {0}) × Db
delete_flow_tag failing id name db =
    guarded failing id (record db { flow_tags = remove (is_tag id name) db.flow_tags }) db

-- The columns that have a `PUT` and a `DELETE` of their own, with the value, or NULL.
pub data Column : Type 0 where
  label description : Option Bytes → Column
  avg_bit_rate max_bit_rate : Option ℤ → Column

unfoldable pub set_column : Column → FlowEntry → FlowEntry
set_column (label v) f = record f { label = v }
set_column (description v) f = record f { description = v }
set_column (avg_bit_rate v) f = record f { avg_bit_rate = v }
set_column (max_bit_rate v) f = record f { max_bit_rate = v }

unfoldable pub touch : ℕ → FlowEntry → FlowEntry
touch now f = record f { metadata_updated = now }

unfoldable pub set_flow_column : ℕ → Bytes → Column → List FlowEntry → List FlowEntry
set_flow_column now id c = update (is_flow id) (λ f. touch now (set_column c f))

-- `updateFlowField`; the second test is on the rows that the statement changed.
unfoldable pub update_flow_field :
    Failing → ℕ → Bytes → Column → Db → Result FlowError (Unit {0}) × Db
update_flow_field failing now id c db = finish db (do
  _ ← flow_writable failing id db
  _ ← calls failing exec
  _ ← ensure (exists (is_flow id) db.flows) not_found
  ok (tt, record db { flows = set_flow_column now id c db.flows }))

unfoldable pub put_flow_label : Failing → ℕ → Bytes → Bytes → Db → Result FlowError (Unit {0}) × Db
put_flow_label failing now id v = update_flow_field failing now id (label (some v))

unfoldable pub delete_flow_label : Failing → ℕ → Bytes → Db → Result FlowError (Unit {0}) × Db
delete_flow_label failing now id = update_flow_field failing now id (label none)

unfoldable pub put_flow_description :
    Failing → ℕ → Bytes → Bytes → Db → Result FlowError (Unit {0}) × Db
put_flow_description failing now id v = update_flow_field failing now id (description (some v))

unfoldable pub delete_flow_description : Failing → ℕ → Bytes → Db → Result FlowError (Unit {0}) × Db
delete_flow_description failing now id = update_flow_field failing now id (description none)

unfoldable pub put_flow_avg_bit_rate :
    Failing → ℕ → Bytes → ℤ → Db → Result FlowError (Unit {0}) × Db
put_flow_avg_bit_rate failing now id v = update_flow_field failing now id (avg_bit_rate (some v))

unfoldable pub delete_flow_avg_bit_rate :
    Failing → ℕ → Bytes → Db → Result FlowError (Unit {0}) × Db
delete_flow_avg_bit_rate failing now id = update_flow_field failing now id (avg_bit_rate none)

unfoldable pub put_flow_max_bit_rate :
    Failing → ℕ → Bytes → ℤ → Db → Result FlowError (Unit {0}) × Db
put_flow_max_bit_rate failing now id v = update_flow_field failing now id (max_bit_rate (some v))

unfoldable pub delete_flow_max_bit_rate :
    Failing → ℕ → Bytes → Db → Result FlowError (Unit {0}) × Db
delete_flow_max_bit_rate failing now id = update_flow_field failing now id (max_bit_rate none)

unfoldable pub set_read_only : ℕ → Bool → FlowEntry → FlowEntry
set_read_only now b f = record (touch now f) { core = record f.core { read_only = b } }

unfoldable pub put_flow_read_only :
    Failing → ℕ → Bytes → Bool → Db → Result FlowError (Unit {0}) × Db
put_flow_read_only failing now id b db = finish db (do
  _ ← calls failing exec
  _ ← ensure (exists (is_flow id) db.flows) not_found
  ok (tt, record db { flows = update (is_flow id) (set_read_only now b) db.flows }))

-- The loop of the `INSERT`s; the primary key of flow_collection refuses an item that is there.
unfoldable pub item_row : Bytes → ℕ → CollectionItem → ItemRow
item_row id i item = record {
  owner = id;
  item_id = item.id;
  role = item.role;
  container_mapping = nil_json item.container_mapping;
  sort_order = i;
}

unfoldable pub is_item : Bytes → Bytes → ItemRow → Bool
is_item id item r = bytes_eq r.owner id && bytes_eq r.item_id item

unfoldable pub insert_items :
    Failing → Bytes → ℕ → List CollectionItem → List ItemRow → Result FlowError (List ItemRow)
insert_items failing id i [] rows = ok rows
insert_items failing id i (item ∷ items) rows = do
  _ ← calls failing (insert_item i)
  _ ← ensure (not (exists (is_item id item.id) rows)) database
  insert_items failing id (i + 1) items (rows ++ item_row id i item ∷ [])

unfoldable pub put_flow_collection :
    Failing → Bytes → List CollectionItem → Db → Result FlowError (Unit {0}) × Db
put_flow_collection failing id items db = finish db (do
  _ ← calls failing begin
  _ ← flow_writable failing id db
  _ ← calls failing delete
  rows ← insert_items failing id 0 items (remove (in_collection id) db.collections)
  _ ← calls failing commit
  ok (tt, record db { collections = rows }))

unfoldable pub delete_flow_collection : Failing → Bytes → Db → Result FlowError (Unit {0}) × Db
delete_flow_collection failing id db =
    guarded failing id (record db { collections = remove (in_collection id) db.collections }) db
