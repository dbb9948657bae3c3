-- ===== src/Handlers/Puts.antt =====
-- internal/httpx/handlers/flows.go: what `PutFlow` leaves to be read.
use open_tams.Prelude.Maybe.{map_option}
use open_tams.Prelude.Result.{err, ok, Result, Result-cases}
use open_tams.Prelude.Bytes.{Bytes}
use open_tams.Prelude.{false, inl, inr, none, refl, some, ℕ, ◌≡◌, map, Bool, ap, arith, ◌∙◌}
use open_tams.Flows.{Db, Failing, Flow, FlowError, get_flow, tags_of, collection_of}
use open_tams.Flows.Write.{upsert_flow}
use open_tams.Flows.Reads.{Carries, get_flow-upsert_flow}
use open_tams.Flows.Guards.{none_failing}
use open_tams.Segments.Pages.{no_faults}
use open_tams.Segments.{Faults}
use open_tams.Handlers.FlowBodies.{
  ApiFlowBase, FlowCommonJson, FlowEnv, api_flow_to_metastore, coll_item, map_flow_to_api, or_false,
  parse_version,
}
use open_tams.Handlers.FlowService.{
  FlowServiceError, from_flow, service_get, service_upsert, validate_video_flow,
}
use open_tams.Handlers.Flows.{
  PutFlowResponse, get_flow_request, got, got_flow, put_answer, put_flow,
}

-- What is read of a flow behind a PUT: the fields of the body, but its tags, its collection and a
-- version that is no number; the tags and the collection that the tables held; and no time range.
pub record Shows (env : FlowEnv) (id : Bytes) (base : ApiFlowBase) (db : Db) (j : FlowCommonJson)
    : Type 0 where
  pub id_same : j.id ≡ id
  pub source_id : j.source_id ≡ base.source_id
  pub format : j.format ≡ base.format
  pub codec : j.codec ≡ base.codec
  pub container : j.container ≡ base.container
  pub label : j.label ≡ base.label
  pub description : j.description ≡ base.description
  pub tags : j.tags ≡ tags_of id db.flow_tags
  pub essence_parameters : j.essence_parameters ≡ base.essence_parameters
  pub container_mapping : j.container_mapping ≡ base.container_mapping
  pub flow_collection : j.flow_collection ≡ map coll_item (collection_of id db.collections)
  pub avg_bit_rate : j.avg_bit_rate ≡ base.avg_bit_rate
  pub max_bit_rate : j.max_bit_rate ≡ base.max_bit_rate
  pub generation : j.generation ≡ base.generation
  pub metadata_version :
      j.metadata_version ≡ map_option env.format_int (parse_version env base.metadata_version)
  pub read_only : j.read_only ≡ or_false base.read_only
  pub timerange : j.timerange ≡ none

carried-Shows :
    (env : FlowEnv) (id : Bytes) (base : ApiFlowBase) (now : ℕ) (g : Flow) (db : Db)
    → Carries now (api_flow_to_metastore env id base) g db
    → Shows env id base db (map_flow_to_api env g)
unfolding api_flow_to_metastore map_flow_to_api
carried-Shows env id base now g db c = record {
  id_same = c.id;
  source_id = c.source_id;
  format = c.format;
  codec = c.codec;
  container = c.container;
  label = c.label;
  description = c.description;
  tags = c.tags;
  essence_parameters = c.essence_parameters;
  container_mapping = c.container_mapping;
  flow_collection = ap (map coll_item) c.flow_collection;
  avg_bit_rate = c.avg_bit_rate;
  max_bit_rate = c.max_bit_rate;
  generation = c.generation;
  metadata_version = ap (map_option env.format_int) c.metadata_version;
  read_only = c.read_only;
  timerange = c.timerange;
}

-- A service call that succeeds has passed the request on.
upsert-passed :
    (env : FlowEnv) (failing : Failing) (now : ℕ) (f : Flow) (db : Db) (created : Bool)
    → (service_upsert env failing now f db).0 ≡ ok created
    → ((upsert_flow failing now f db).0 ≡ ok created)
      × ((service_upsert env failing now f db).1 ≡ (upsert_flow failing now f db).1)
unfolding service_upsert from_flow
upsert-passed env failing now f db created h = elim (Result-cases (validate_video_flow env f)) [
  | inr (e, v) ↦ absurd (let k = rw (service_upsert, v) at h in cc)
  | inl (u, v) ↦ (
    from_flow-ok (upsert_flow failing now f db).0 created (rw (service_upsert, v) at h),
    rw (service_upsert, v) refl,
  )
]
  where
    from_flow-ok : (r : Result FlowError Bool) (b : Bool) → from_flow r ≡ ok b → r ≡ ok b
    from_flow-ok (ok a) b e = ground arith
    from_flow-ok (err x) b e = absurd (cc)

put_answer-ok :
    (env : FlowEnv) (failing : Failing) (faults : Faults) (id : Bytes)
    (r : Result FlowServiceError Bool) (db : Db) (resp : PutFlowResponse)
    → put_answer env failing faults id r db ≡ ok resp
    → (created : Bool) × (r ≡ ok created)
unfolding put_answer
put_answer-ok env failing faults id (ok b) db resp h = (b, refl)
put_answer-ok env failing faults id (err e) db resp h = absurd (cc)

put_flow-db :
    (env : FlowEnv) (failing read_failing : Failing) (now : ℕ) (flow_id id : Bytes)
    (base : ApiFlowBase) (db : Db)
    → env.parse_uuid flow_id ≡ some id
    → (put_flow env failing read_failing now flow_id (some base) db).1
      ≡ (service_upsert env failing now (api_flow_to_metastore env id base) db).1
unfolding put_flow
put_flow-db env failing read_failing now flow_id id base db u = rw (put_flow, u) refl

read_request :
    (env : FlowEnv) (flow_id id : Bytes) (g : Flow) (db : Db)
    → env.parse_uuid flow_id ≡ some id
    → get_flow none_failing id db ≡ ok g
    → get_flow_request env none_failing no_faults flow_id none none db
      ≡ ok (got (map_flow_to_api env g))
unfolding get_flow_request service_get or_false from_flow got_flow
read_request env flow_id id g db u h = rw (get_flow_request, u, service_get, h) refl

-- Behind a PUT of a flow that succeeds, whose id in the path can be read as a UUID, a GET without
-- include_timerange and timerange, in which no call of the database fails, succeeds and shows the
-- id, and of the body the source, format, codec, container, label, description, essence parameters,
-- container mapping, bit rates, generation and read_only mark, false where the body has none.
-- metadata_version is shown as the printed number that the body's text is read as, and not at all
-- where it is no number. Tags and collection are those that the tables held before, and no time
-- range is shown.
pub get-put_flow :
    (env : FlowEnv) (failing read_failing : Failing) (now : ℕ) (flow_id id : Bytes)
    (base : ApiFlowBase) (db : Db) (resp : PutFlowResponse)
    → env.parse_uuid flow_id ≡ some id
    → (put_flow env failing read_failing now flow_id (some base) db).0 ≡ ok resp
    → (j : FlowCommonJson) × (get_flow_request env none_failing no_faults flow_id none none
          (put_flow env failing read_failing now flow_id (some base) db).1
        ≡ ok (got j))
      × Shows env id base db j
unfolding put_flow
get-put_flow env failing read_failing now flow_id id base db resp u h =
    let f = api_flow_to_metastore env id base in
    let (created, s) =
      put_answer-ok env read_failing (λ _. false) id (service_upsert env failing now f db).0
        (service_upsert env failing now f db).1 resp (rw (put_flow, u) at h) in
    let (stored, same) = upsert-passed env failing now f db created s in
    let (g, read, carried) = get_flow-upsert_flow failing now f db created stored in
    (
      map_flow_to_api env g,
      rw (put_flow-db env failing read_failing now flow_id id base db u ∙ same) (
          read_request env flow_id id g (upsert_flow failing now f db).1 u
            (unfold api_flow_to_metastore in read)),
      carried-Shows env id base now g db carried,
    )
