-- ===== src/Flows/Examples.antt =====
-- Runs of the store of flows and sources, and the theorems about it applied to them.
use open_tams.Flows.Counts.{surplus, delete_flow-counts}
use open_tams.Segments.Pages.{no_faults}
use open_tams.Segments.Invariant.{insert_batch}
use open_tams.Flows.Reads.{Carries, get_flow-upsert_flow}
use open_tams.Flows.Immutable.{run-immutable}
use open_tams.Flows.Guards.{none_failing, read_only_stops, read_only_ignored}
use open_tams.Segments.Samples.{
  f1, two_segments, no_segments-IsConsistent, two_segments-IsConsistent, ids, seg1, seg2,
}
use open_tams.Flows.Invariant.{run_all-IsSound}
use open_tams.Segments.Consistent.{IsDrifted}
use open_tams.Prelude.Int.{pos, ℤ}
use open_tams.Prelude.Table.{find, remove, exists}
use open_tams.Flows.Errors.{rejects}
use open_tams.Flows.Keys.{IsKept}
use open_tams.Flows.Tags.{tag_value, put_flow_tag-get}
use open_tams.Flows.Listing.{
  ListFlowsParams, ListSourcesParams, range_condition, source_key, flow_key,
}
use open_tams.Prelude.Result.{ok}
use open_tams.Flows.Keyset.{CursorCodec, IsCursorCodec, Cursor, Unique}
use open_tams.Flows.Operations.{Op, run, run_all, put_tag_op, upsert_op, segments_op, delete_op}
use open_tams.Flows.Write.{
  delete_flow, new_entry, new_source, upsert_flow, upsert_transaction, delete_transaction,
  create_flow, ensure_source,
}
use open_tams.Flows.Sound.{IsSound}
use open_tams.Prelude.Bytes.{Bytes, bytes_eq, codes}
use open_tams.Flows.{
  CollectionItem, Db, Flow, FlowEntry, segment_store, get_flow, finish, is_flow, tags_of, in_flow,
}
use open_tams.Flows.Fields.{
  put_flow_collection, put_flow_tag, insert_items, guarded, flow_writable, is_item, item_row,
}
use open_tams.Prelude.{◌≡◌, none, some, [], ◌∷◌, true, false, refl, List, Option, ◌&&◌, ◌+◌}

abbrev s1 : Bytes
s1 = codes "s1"

abbrev video : Bytes
video = codes "video"

abbrev request : Flow
request = record {
  id = f1;
  source_id = s1;
  format = video;
  codec = none;
  container = none;
  label = some (codes "label");
  description = none;
  tags = [];
  essence_parameters = [];
  container_mapping = [];
  flow_collection = [];
  avg_bit_rate = none;
  max_bit_rate = none;
  segment_duration = none;
  generation = none;
  metadata_version = none;
  read_only = true;
  created = 0;
  metadata_updated = 0;
  segments_updated = none;
  timerange = none;
}

abbrev empty_db : Db
empty_db = record {
  sources = [];
  source_tags = [];
  flows = [];
  flow_tags = [];
  collections = [];
  objects = [];
  segments = [];
}

-- A flow that is there, and one that is read-only.
abbrev entry : FlowEntry
entry = new_entry 5 request

abbrev writable : FlowEntry
writable = new_entry 5 (record request { read_only = false })

abbrev one_flow : Db
one_flow = record empty_db { sources = new_source 5 request ∷ []; flows = entry ∷ [] }

abbrev writable_flow : Db
writable_flow = record one_flow { flows = writable ∷ [] }

abbrev filled : Db
filled = record one_flow { objects = two_segments.objects; segments = two_segments.segments }

filled-IsDrifted : IsDrifted (λ object. 0) (segment_store filled)
unfolding segment_store
filled-IsDrifted = record {
  disjoint = two_segments-IsConsistent.disjoint;
  nonempty = two_segments-IsConsistent.nonempty;
  counted = two_segments-IsConsistent.counted;
}

deletes_flow : (delete_flow none_failing f1 filled).0 ≡ ok tt
unfolding delete_flow delete_transaction finish exists bytes_eq new_entry
deletes_flow = refl

delete_flow-counts_example :
    ((delete_flow none_failing f1 filled).1.segments ≡ remove (in_flow f1) filled.segments)
    × IsDrifted
        (λ j. 0 + surplus f1 j filled.segments)
        (segment_store (delete_flow none_failing f1 filled).1)
delete_flow-counts_example =
    delete_flow-counts (λ object. 0) none_failing f1 filled filled-IsDrifted deletes_flow

empty_db-IsSound : IsSound empty_db
unfolding segment_store
empty_db-IsSound = record {
  sourced = tt;
  source_tagged = tt;
  tagged = tt;
  collected = tt;
  owned = tt;
  drift = λ object. 0;
  counted = record { disjoint = tt; nonempty = tt; counted = no_segments-IsConsistent.counted };
}

abbrev steps : List Op
steps =
    upsert_op none_failing 5 (record request { read_only = false })
    ∷ put_tag_op none_failing f1 (codes "name") (codes "value")
    ∷ segments_op (insert_batch no_faults ids 7 f1 (codes "s3") (seg1 ∷ seg2 ∷ []))
    ∷ delete_op none_failing f1
    ∷ []

run_all-IsSound_example : IsSound (run_all steps empty_db)
run_all-IsSound_example = run_all-IsSound steps empty_db empty_db-IsSound

abbrev tag_op : Op
tag_op = put_tag_op none_failing f1 (codes "name") (codes "value")

found : find (is_flow f1) one_flow.flows ≡ some entry
unfolding find new_entry bytes_eq
found = refl

abbrev other_codec : Op
other_codec = upsert_op none_failing 8 (record request { codec = some (codes "h264") })

run-immutable_example : IsKept f1 entry one_flow.segments (run other_codec one_flow)
run-immutable_example = run-immutable other_codec f1 entry one_flow refl found

marked : entry.core.read_only ≡ true
unfolding new_entry
marked = refl

read_only_stops_example : rejects tag_op one_flow ≡ true
read_only_stops_example = read_only_stops tag_op f1 entry one_flow refl found marked

same_source : entry.source_id ≡ request.source_id
unfolding new_entry
same_source = refl

same_format : entry.format ≡ request.format
unfolding new_entry
same_format = refl

same_codec : entry.codec ≡ request.codec
unfolding new_entry
same_codec = refl

read_only_ignored_example :
    ((delete_flow none_failing f1 one_flow).0 ≡ ok tt)
    × ((upsert_flow none_failing 9 request one_flow).0 ≡ ok false)
read_only_ignored_example =
    read_only_ignored 9 request entry one_flow found same_source same_format same_codec

creates : (upsert_flow none_failing 9 request empty_db).0 ≡ ok true
unfolding upsert_flow upsert_transaction create_flow ensure_source finish find
creates = refl

get_flow-upsert_flow_example :
    (g : Flow) × (get_flow none_failing f1 (upsert_flow none_failing 9 request empty_db).1 ≡ ok g)
    × Carries 9 request g empty_db
get_flow-upsert_flow_example = get_flow-upsert_flow none_failing 9 request empty_db true creates

puts_tag : (put_flow_tag none_failing f1 (codes "a") (codes "b") writable_flow).0 ≡ ok tt
unfolding put_flow_tag guarded finish flow_writable find new_entry bytes_eq
puts_tag = refl

abbrev tagged : Db
tagged = (put_flow_tag none_failing f1 (codes "a") (codes "b") writable_flow).1

put_flow_tag-get_example :
    (tag_value (codes "a") (tags_of f1 tagged.flow_tags) ≡ some (codes "b"))
    × ((i n : Bytes)
        → (bytes_eq f1 i && bytes_eq (codes "a") n) ≡ false
        → tag_value n (tags_of i tagged.flow_tags)
          ≡ tag_value n (tags_of i writable_flow.flow_tags))
put_flow_tag-get_example =
    put_flow_tag-get none_failing f1 (codes "a") (codes "b") writable_flow puts_tag

abbrev items : List CollectionItem
items =
    record { id = codes "f3"; role = some (codes "audio"); container_mapping = [] }
    ∷ record { id = codes "f2"; role = none; container_mapping = [] }
    ∷ []

puts_items : (put_flow_collection none_failing f1 items writable_flow).0 ≡ ok tt
unfolding put_flow_collection insert_items finish flow_writable find new_entry bytes_eq remove
    is_item exists item_row
puts_items = refl

-- A codec of cursors that needs no library.
read_cursor : Bytes → Option Cursor
read_cursor [] = none
read_cursor (n ∷ s) = some (n, s)

abbrev plain_codec : CursorCodec
plain_codec = record { encode_cursor = λ k. k.0 ∷ k.1; decode_cursor = read_cursor }

plain_codec-IsCursorCodec : IsCursorCodec plain_codec
unfolding read_cursor
plain_codec-IsCursorCodec k = refl

abbrev no_frame : Bytes → Option Bytes → Option ℤ
no_frame name text = none

abbrev flow_params : ListFlowsParams
flow_params = record {
  source_id = none;
  format = some video;
  label = none;
  codec = none;
  frame_width = none;
  frame_height = none;
  timerange = none;
  tag_exists = [];
  tag_values = [];
  limit = pos 1;
  page_from = none;
}

abbrev source_params : ListSourcesParams
source_params = record {
  limit = pos 1;
  page_from = none;
  label = none;
  format = some video;
  tag_exists = [];
  tag_values = [];
}

abbrev two_flows : Db
two_flows = record one_flow {
  sources = new_source 5 request ∷ new_source 6 (record request { source_id = codes "s2" }) ∷ [];
  flows = entry ∷ new_entry 6 (record request { id = codes "f2" }) ∷ [];
}

flows-Unique : Unique flow_key two_flows.flows
unfolding new_entry bytes_eq
flows-Unique = ((refl, tt), (tt, tt))

sources-Unique : Unique source_key two_flows.sources
unfolding new_source bytes_eq
sources-Unique = ((refl, tt), (tt, tt))

no_range : range_condition none ≡ ok none
unfolding range_condition
no_range = refl
