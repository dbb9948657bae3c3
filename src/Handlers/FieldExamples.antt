-- ===== src/Handlers/FieldExamples.antt =====
-- Requests for the fields of a flow, and the theorems about these applied to them.
use open_tams.Prelude.Table.{find, exists, remove}
use open_tams.Flows.Columns.{set_field, update_flow_field-get}
use open_tams.Flows.Guards.{none_failing}
use open_tams.Prelude.Bytes.{Bytes, codes, bytes_eq}
use open_tams.Flows.Fields.{
  Column, update_flow_field, flow_writable, label, put_flow_label, put_flow_collection,
  insert_items, is_item, item_row,
}
use open_tams.Segments.Samples.{f1}
use open_tams.Handlers.FlowBodies.{FlowEnv}
use open_tams.Handlers.ReadBack.{
  Answers, Canonical, write_request, write_request-Answers, without_mapping, get-put_collection,
}
use open_tams.Flows.Keyset.{CursorCodec, Cursor}
use open_tams.Prelude.Int.{pos, ℤ}
use open_tams.Prelude.Result.{ok}
use open_tams.Flows.Write.{new_source, new_entry}
use open_tams.Handlers.Listings.{
  GetFlowsParams, GetSourcesParams, clamped_limit, head_flows_request, given_limit, headed,
  get_flows_request, head_sources_request, get_sources_request, head_listings,
}
use open_tams.Handlers.Fields.{
  ApiCollItem, get_collection_request, put_collection_request, put_label_request, write_field,
  posted_items, posted_item, found, answered_write, written,
}
use open_tams.Prelude.{◌≡◌, none, some, [], ◌∷◌, refl, Option, List, map, false}
use open_tams.Flows.{Db, Flow, get_flow, finish}

plain_id : Bytes → Option Bytes
plain_id [] = none
plain_id (c ∷ s) = some (c ∷ s)

abbrev env : FlowEnv
env = record {
  parse_uuid = plain_id;
  parse_int = λ s. none;
  format_int = λ n. [];
  video_fields = λ s. none;
}

abbrev stored : Flow
stored = record {
  id = f1;
  source_id = codes "s1";
  format = codes "multi";
  codec = none;
  container = none;
  label = none;
  description = none;
  tags = [];
  essence_parameters = [];
  container_mapping = [];
  flow_collection = [];
  avg_bit_rate = none;
  max_bit_rate = none;
  segment_duration = none;
  generation = none;
  metadata_version = none;
  read_only = false;
  created = 0;
  metadata_updated = 0;
  segments_updated = none;
  timerange = none;
}

abbrev one_flow : Db
one_flow = record {
  sources = new_source 5 stored ∷ [];
  source_tags = [];
  flows = new_entry 5 stored ∷ [];
  flow_tags = [];
  collections = [];
  objects = [];
  segments = [];
}

abbrev new_label : Column
new_label = label (some (codes "label"))

puts_label : (write_request env none_failing 7 f1 new_label one_flow).0 ≡ ok written
unfolding put_label_request write_field plain_id put_flow_label update_flow_field flow_writable
    finish find exists new_entry bytes_eq answered_write
puts_label = refl

write_request-Answers_example :
    Answers env f1 new_label (write_request env none_failing 7 f1 new_label one_flow).1
write_request-Answers_example =
    write_request-Answers env none_failing 7 f1 new_label one_flow puts_label

updates : (update_flow_field none_failing 7 f1 new_label one_flow).0 ≡ ok tt
unfolding update_flow_field flow_writable finish find exists new_entry bytes_eq
updates = refl

update_flow_field-get_example :
    (g : Flow) × (get_flow none_failing f1 one_flow ≡ ok g)
    × (get_flow none_failing f1 (update_flow_field none_failing 7 f1 new_label one_flow).1
        ≡ ok (set_field 7 new_label g))
    × ((j : Bytes)
        → bytes_eq f1 j ≡ false
        → get_flow none_failing j (update_flow_field none_failing 7 f1 new_label one_flow).1
          ≡ get_flow none_failing j one_flow)
update_flow_field-get_example = update_flow_field-get none_failing 7 f1 new_label one_flow updates

abbrev body : List ApiCollItem
body =
    record { id = codes "f3"; role = codes "audio"; container_mapping = some (codes "{}") }
    ∷ record { id = codes "f2"; role = codes "video"; container_mapping = none }
    ∷ []

body-Canonical : Canonical env body
unfolding plain_id
body-Canonical = (refl, (refl, tt))

puts_body : (put_collection_request env none_failing f1 body one_flow).0 ≡ ok written
unfolding put_collection_request plain_id posted_items posted_item put_flow_collection insert_items
    finish flow_writable find new_entry bytes_eq remove is_item exists item_row answered_write
puts_body = refl

get-put_collection_example :
    get_collection_request env none_failing f1
      (put_collection_request env none_failing f1 body one_flow).1
    ≡ ok (found (map without_mapping body))
get-put_collection_example =
    get-put_collection env none_failing f1 body one_flow body-Canonical puts_body

read_cursor : Bytes → Option Cursor
read_cursor [] = none
read_cursor (n ∷ s) = some (n, s)

abbrev codec : CursorCodec
codec = record { encode_cursor = λ k. k.0 ∷ k.1; decode_cursor = read_cursor }

abbrev no_frame : Bytes → Option Bytes → Option ℤ
no_frame name text = none

abbrev flows_params : GetFlowsParams
flows_params = record {
  source_id = some (codes "s1");
  timerange = none;
  format = none;
  codec = none;
  label = none;
  tag_name = none;
  tag_exists_name = none;
  frame_width = none;
  frame_height = none;
  page = none;
  limit = some (pos 2000);
}

abbrev sources_params : GetSourcesParams
sources_params = record {
  label = some (codes "label");
  format = none;
  tag_name = none;
  tag_exists_name = none;
  page = none;
  limit = some (pos 10);
}

small : clamped_limit (some (pos 10)) ≡ given_limit (some (pos 10))
unfolding clamped_limit given_limit
small = refl

head_listings_example :
    (head_flows_request codec no_frame env none_failing flows_params one_flow
      ≡ headed (get_flows_request codec no_frame env none_failing flows_params one_flow))
    × (head_sources_request codec none_failing sources_params one_flow
        ≡ headed (
            get_sources_request codec none_failing
              (record sources_params { label = none; format = none })
              one_flow))
head_listings_example =
    head_listings codec no_frame env none_failing flows_params sources_params one_flow small

abbrev two_flows : Db
two_flows = record one_flow {
  flows = new_entry 5 stored ∷ new_entry 6 (record stored { id = codes "f2" }) ∷ [];
}
