-- ===== src/Flows/Write.antt =====
-- internal/metastore/flows.go, the two operations on whole flows, `UpsertFlow` and `DeleteFlow`.
use open_tams.Prelude.Table.{find, exists, update, remove}
use open_tams.Flows.{
  Flow, FlowEntry, FlowError, Db, Failing, SourceRow, calls, codec_equal, finish, format_mismatch,
  immutable_field, in_collection, in_flow, is_flow, is_source, nil_json, not_found, begin,
  read_flow, read_source, insert_source, insert_flow, count_segments, update_flow, commit,
  decrement, delete,
}
use open_tams.Prelude.Int.{pos, ◌-ℤ◌}
use open_tams.Prelude.Result.{Result, ok, ◌>>=◌, ensure}
use open_tams.Prelude.Bytes.{Bytes, bytes_eq}
use open_tams.Prelude.{
  ℕ, Bool, true, false, ◌&&◌, not, none, some, List, [], ◌∷◌, ◌++◌, if◌then◌else◌,
}
use open_tams.Segments.{ObjectRow, SegmentRow}

-- `INSERT INTO sources (id, format)`, which takes the other columns' defaults.
unfoldable pub new_source : ℕ → Flow → SourceRow
new_source now f = record {
  id = f.source_id;
  format = f.format;
  label = none;
  description = none;
  created = now;
  updated = now;
}

-- `INSERT INTO flows`.
unfoldable pub new_entry : ℕ → Flow → FlowEntry
new_entry now f = record {
  core = record {
    id = f.id;
    read_only = f.read_only;
    flow_timerange = f.timerange;
    segments_updated = none;
  };
  source_id = f.source_id;
  format = f.format;
  codec = f.codec;
  container = f.container;
  label = f.label;
  description = f.description;
  essence_parameters = nil_json f.essence_parameters;
  container_mapping = nil_json f.container_mapping;
  avg_bit_rate = f.avg_bit_rate;
  max_bit_rate = f.max_bit_rate;
  segment_duration = f.segment_duration;
  generation = f.generation;
  metadata_version = f.metadata_version;
  created = now;
  metadata_updated = now;
}

-- `UPDATE flows SET … WHERE id = $1`: every column but the keys, format and the times of the others.
unfoldable pub set_entry : ℕ → Flow → FlowEntry → FlowEntry
set_entry now f e = record e {
  core = record e.core { read_only = f.read_only; flow_timerange = f.timerange };
  codec = f.codec;
  container = f.container;
  label = f.label;
  description = f.description;
  essence_parameters = nil_json f.essence_parameters;
  container_mapping = nil_json f.container_mapping;
  avg_bit_rate = f.avg_bit_rate;
  max_bit_rate = f.max_bit_rate;
  segment_duration = f.segment_duration;
  generation = f.generation;
  metadata_version = f.metadata_version;
  metadata_updated = now;
}

-- The source of a new flow: it exists with the flow's format, or it is created.
unfoldable pub ensure_source :
    Failing → ℕ → Flow → List SourceRow → Result FlowError (List SourceRow)
ensure_source failing now f sources = do
  _ ← calls failing read_source
  elim (find (is_source f.source_id) sources) [
    | none ↦ do _ ← calls failing insert_source; ok (sources ++ new_source now f ∷ [])
    | some src ↦ do _ ← ensure (bytes_eq src.format f.format) format_mismatch; ok sources
  ]

unfoldable pub create_flow : Failing → ℕ → Flow → Db → Result FlowError Db
create_flow failing now f db = do
  sources ← ensure_source failing now f db.sources
  _ ← calls failing insert_flow
  ok (record db { sources = sources; flows = db.flows ++ new_entry now f ∷ [] })

-- The test on the codec, which counts the segments if the codec changes.
unfoldable pub check_codec : Failing → Flow → FlowEntry → Db → Result FlowError (Unit {0})
check_codec failing f e db = if codec_equal e.codec f.codec then ok tt else do
  _ ← calls failing count_segments
  ensure (not (exists (in_flow f.id) db.segments)) immutable_field

unfoldable pub change_flow : Failing → ℕ → Flow → FlowEntry → Db → Result FlowError Db
change_flow failing now f e db = do
  _ ← ensure (bytes_eq e.source_id f.source_id) immutable_field
  _ ← ensure (bytes_eq e.format f.format) immutable_field
  _ ← check_codec failing f e db
  _ ← calls failing update_flow
  ok (record db { flows = update (is_flow f.id) (set_entry now f) db.flows })

unfoldable pub upsert_transaction : Failing → ℕ → Flow → Db → Result FlowError (Bool × Db)
upsert_transaction failing now f db = do
  _ ← calls failing begin
  _ ← calls failing read_flow
  elim (find (is_flow f.id) db.flows) [
    | none ↦ do db' ← create_flow failing now f db; _ ← calls failing commit; ok (true, db')
    | some e ↦ do db' ← change_flow failing now f e db; _ ← calls failing commit; ok (false, db')
  ]

unfoldable pub upsert_flow : Failing → ℕ → Flow → Db → Result FlowError Bool × Db
upsert_flow failing now f db = finish db (upsert_transaction failing now f db)

-- `UPDATE objects SET ref_count = ref_count - 1 FROM refs WHERE objects.id = refs.object_id`, where
-- refs are the distinct objects of the flow's segments.
unfoldable pub uses_object : Bytes → Bytes → SegmentRow → Bool
uses_object flow_id object r = bytes_eq r.flow_id flow_id && bytes_eq r.segment_object object

unfoldable pub release_objects : Bytes → List SegmentRow → List ObjectRow → List ObjectRow
release_objects flow_id rows [] = []
release_objects flow_id rows (o ∷ os) =
    (if exists (uses_object flow_id o.id) rows
      then record o { ref_count = o.ref_count -ℤ pos 1 }
      else o)
    ∷ release_objects flow_id rows os

-- `DELETE FROM flows`, with the rows that `ON DELETE CASCADE` takes.
unfoldable pub drop_flow : Bytes → Db → Db
drop_flow id db = record db {
  flows = remove (is_flow id) db.flows;
  flow_tags = remove (λ t. bytes_eq t.owner id) db.flow_tags;
  collections = remove (in_collection id) db.collections;
  segments = remove (in_flow id) db.segments;
}

unfoldable pub delete_transaction : Failing → Bytes → Db → Result FlowError (Unit {0} × Db)
delete_transaction failing id db = do
  _ ← calls failing begin
  _ ← calls failing decrement
  _ ← calls failing delete
  _ ← ensure (exists (is_flow id) db.flows) not_found
  _ ← calls failing commit
  ok (tt, drop_flow id (record db { objects = release_objects id db.segments db.objects }))

unfoldable pub delete_flow : Failing → Bytes → Db → Result FlowError (Unit {0}) × Db
delete_flow failing id db = finish db (delete_transaction failing id db)
