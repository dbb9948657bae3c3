-- ===== src/Flows/Errors.antt =====
-- internal/metastore: which operations return an error.
use open_tams.Segments.Invariant.{failure}
use open_tams.Flows.Sources.{put_source_tag, delete_source_tag, update_source_field}
use open_tams.Flows.Fields.{
  put_flow_tag, delete_flow_tag, update_flow_field, put_flow_read_only, put_flow_collection,
  delete_flow_collection,
}
use open_tams.Flows.Write.{upsert_flow, delete_flow}
use open_tams.Prelude.{Bool, false, none, some, true}
use open_tams.Prelude.Result.{Result, err, ok}
use open_tams.Flows.Operations.{
  Op, upsert_op, delete_op, put_tag_op, delete_tag_op, column_op, read_only_op, put_collection_op,
  delete_collection_op, put_source_tag_op, delete_source_tag_op, source_column_op, segments_op,
}
use open_tams.Flows.{Db, FlowError, segment_store}

-- Whether an operation returns an error.
abbrev is_err {ℓ} : {A : Type ℓ} → Result FlowError A → Bool
is_err (ok a) = false
is_err (err e) = true

unfoldable pub rejects : Op → Db → Bool
rejects (upsert_op failing now f) db = is_err (upsert_flow failing now f db).0
rejects (delete_op failing id) db = is_err (delete_flow failing id db).0
rejects (put_tag_op failing id name value) db = is_err (put_flow_tag failing id name value db).0
rejects (delete_tag_op failing id name) db = is_err (delete_flow_tag failing id name db).0
rejects (column_op failing now id c) db = is_err (update_flow_field failing now id c db).0
rejects (read_only_op failing now id b) db = is_err (put_flow_read_only failing now id b db).0
rejects (put_collection_op failing id items) db = is_err (put_flow_collection failing id items db).0
rejects (delete_collection_op failing id) db = is_err (delete_flow_collection failing id db).0
rejects (put_source_tag_op failing id name value) db =
    is_err (put_source_tag failing id name value db).0
rejects (delete_source_tag_op failing id name) db = is_err (delete_source_tag failing id name db).0
rejects (source_column_op failing now id c) db = is_err (update_source_field failing now id c db).0
rejects (segments_op w) db = elim (failure w (segment_store db)) [ none ↦ false | some e ↦ true ]
