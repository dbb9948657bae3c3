-- ===== src/Flows/Operations.antt =====
-- The operations of internal/metastore that change its tables, as values, and their sequences.
use open_tams.Flows.Write.{upsert_flow, delete_flow}
use open_tams.Flows.Fields.{
  Column, put_flow_tag, delete_flow_tag, update_flow_field, put_flow_read_only, put_flow_collection,
  delete_flow_collection,
}
use open_tams.Flows.Sources.{SourceColumn, put_source_tag, delete_source_tag, update_source_field}
use open_tams.Flows.{CollectionItem, Db, Failing, Flow, FlowEntry, segment_store}
use open_tams.Segments.{FlowRow, Store}
use open_tams.Segments.Invariant.{Write, apply}
use open_tams.Prelude.Bytes.{Bytes}
use open_tams.Prelude.{ℕ, Bool, List, [], ◌∷◌}

pub data Op : Type 0 where
  upsert_op : Failing → ℕ → Flow → Op
  delete_op : Failing → Bytes → Op
  put_tag_op : Failing → Bytes → Bytes → Bytes → Op
  delete_tag_op : Failing → Bytes → Bytes → Op
  column_op : Failing → ℕ → Bytes → Column → Op
  read_only_op : Failing → ℕ → Bytes → Bool → Op
  put_collection_op : Failing → Bytes → List CollectionItem → Op
  delete_collection_op : Failing → Bytes → Op
  put_source_tag_op : Failing → Bytes → Bytes → Bytes → Op
  delete_source_tag_op : Failing → Bytes → Bytes → Op
  source_column_op : Failing → ℕ → Bytes → SourceColumn → Op
  segments_op : Write → Op

-- The rows of flows with the columns that a transaction on segments has written.
unfoldable pub with_cores : List FlowEntry → List FlowRow → List FlowEntry
with_cores [] cores = []
with_cores (f ∷ fs) [] = f ∷ fs
with_cores (f ∷ fs) (c ∷ cs) = record f { core = c } ∷ with_cores fs cs

unfoldable pub put_store : Db → Store → Db
put_store db s = record db {
  flows = with_cores db.flows s.flows;
  objects = s.objects;
  segments = s.segments;
}

unfoldable pub run : Op → Db → Db
run (upsert_op failing now f) db = (upsert_flow failing now f db).1
run (delete_op failing id) db = (delete_flow failing id db).1
run (put_tag_op failing id name value) db = (put_flow_tag failing id name value db).1
run (delete_tag_op failing id name) db = (delete_flow_tag failing id name db).1
run (column_op failing now id c) db = (update_flow_field failing now id c db).1
run (read_only_op failing now id b) db = (put_flow_read_only failing now id b db).1
run (put_collection_op failing id items) db = (put_flow_collection failing id items db).1
run (delete_collection_op failing id) db = (delete_flow_collection failing id db).1
run (put_source_tag_op failing id name value) db = (put_source_tag failing id name value db).1
run (delete_source_tag_op failing id name) db = (delete_source_tag failing id name db).1
run (source_column_op failing now id c) db = (update_source_field failing now id c db).1
run (segments_op w) db = put_store db (apply w (segment_store db))

unfoldable pub run_all : List Op → Db → Db
run_all [] db = db
run_all (op ∷ ops) db = run_all ops (run op db)
