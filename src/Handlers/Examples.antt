-- ===== src/Handlers/Examples.antt =====
-- Requests to the handlers, and the theorems about these applied to them.
use open_tams.Prelude.Int.{int64, ◌-ℤ◌}
use open_tams.Prelude.Decimal.{parse_uint}
use open_tams.Timerange.Nanos.{ns_bounds, bound_nanos, nanos, checked_nanos}
use open_tams.Prelude.Table.{find}
use open_tams.Timerange.{is_empty, before, equal}
use open_tams.Timerange.Text.{parse, side, parse_timestamp, valid_int, valid_nano, separated}
use open_tams.Segments.Write.{indices}
use open_tams.Flows.Write.{
  upsert_flow, upsert_transaction, create_flow, change_flow, check_codec, ensure_source, new_entry,
  new_source,
}
use open_tams.Service.{
  InsertResult, register_batch, register_sorted, sort_batch, place, refusal, stamped,
  segment_timerange_violation, answer, pick_accepted, both, not_accepted, is_member, assemble,
  outcome_of, translate, ServiceError,
}
use open_tams.Handlers.Puts.{Shows, get-put_flow}
use open_tams.Service.Policy.{store_insert-AcceptsAll, store_insert}
use open_tams.Segments.{StoreError}
use open_tams.Handlers.Replay.{post-retry, post-released}
use open_tams.Idempotency.Calls.{apply_all, prune_call}
use open_tams.Flows.Guards.{none_failing}
use open_tams.Segments.{Segment, Store}
use open_tams.Handlers.Effects.{TellsOutcome, post-cases, store_insert-ErrorsKeep}
use open_tams.Prelude.Sort.{All}
use open_tams.Segments.Samples.{f1, two_segments, o1, no_segments, seg1, text1, ids}
use open_tams.Conversion.{
  FlowSegmentPost, register_params_from_api, register_params_from_post_array, post_to_segment,
  set_time_fields, posted_urls, from_array, from_single,
}
use open_tams.Flows.{Db, codec_equal, finish}
use open_tams.Prelude.Bytes.{Bytes, codes, bytes_eq, cut, split_last}
use open_tams.Handlers.{Env, Problem}
use open_tams.Handlers.Urls.{
  Download, DownloadUrlSet, SegGetUrl, project_segment_urls, controlled_get_urls, Passes, Stamped,
  controlled_entries, wants_presigned, project_segment_urls-fine, wants_plain, signed_entry,
  storage_entry, opt_str, backend_label,
}
use open_tams.Segments.Listing.{ListQuery, Page}
use open_tams.Handlers.Post.{
  Conditions, Prepared, Request, Server, post_flow_segments, prepare, parsed_id, post_prepared,
  required_body, acquired_answer, refuse_if, register, created, converted, cached_conflict,
  marshalled, disposal, outcome_disposal, rejected, dispose, of_service,
}
use open_tams.Handlers.Reading.{head_flow_segments, head_of, get_flow_segments, head-get}
use open_tams.Conversion.Params.{GetFlowSegmentsParams}
use open_tams.Prelude.Result.{err, ok, Result}
use open_tams.Handlers.FlowBodies.{ApiFlowBase, FlowCommonJson, FlowEnv, api_flow_to_metastore}
use open_tams.Handlers.FlowService.{from_flow, service_upsert, validate_video_flow}
use open_tams.Handlers.Flows.{get_flow_request, got, put_answer, put_flow, put_updated}
use open_tams.Idempotency.{no_faults, acquire, select_row, delete_rows, acquired}
use open_tams.Segments.Pages.{no_faults as no_call_fails}
use open_tams.Prelude.{
  ◌≡◌, ◌⊎◌, none, some, [], ◌∷◌, true, false, refl, arith, List, Option, ℕ, if◌then◌else◌,
}

-- JSON and UUIDs that need no library.
marshal_problem : Problem → Option Bytes
marshal_problem p = some (123 ∷ p.detail)

unmarshal_problem : Bytes → Option Problem
unmarshal_problem text = none

plain_id : Bytes → Option Bytes
plain_id [] = none
plain_id (c ∷ s) = some (c ∷ s)

abbrev env : Env
env = record {
  parse_uuid = plain_id;
  hash = λ s. s;
  marshal_problem = marshal_problem;
  unmarshal_problem = unmarshal_problem;
  marshal_failures = λ fs. none;
  unmarshal_failures = λ s. none;
  conversion_text = λ e. codes "conversion";
  service_text = λ e. codes "service";
}

abbrev post : FlowSegmentPost
post = record {
  object_id = o1;
  timerange = text1;
  ts_offset = none;
  object_timerange = none;
  last_duration = none;
  key_frame_count = none;
  sample_offset = none;
  sample_count = none;
  get_urls = none;
}

abbrev post_request : Request
post_request = record {
  flow_id = f1;
  body = some (record {
    body = record { as_array = none; as_single = some post };
    raw = some (codes "raw");
  });
  key = codes "k1";
}

abbrev prepared : Prepared
prepared = record { flow_id = f1; key = codes "k1"; segments = seg1 ∷ []; body_hash = codes "raw" }

ready : prepare env post_request ≡ ok prepared
unfolding prepare parsed_id required_body refuse_if converted marshalled plain_id
    register_params_from_api register_params_from_post_array post_to_segment set_time_fields parse
    side parse_timestamp valid_int valid_nano parse_uint int64 posted_urls from_array from_single
    cut split_last separated ◌-ℤ◌
ready = refl

abbrev conditions : ℕ → Conditions
conditions now = record {
  acquire_faults = no_faults;
  complete_fails = false;
  release_fails = true;
  deferred_fails = false;
  db_now = now;
  app_now = now;
  ttl = 60;
}

-- A store that accepts every segment, and one that is out of order.
accept_all : Bytes → List Segment → Store → Result StoreError InsertResult × Store
accept_all flow_id segs s = (ok (record { accepted_indices = indices 0 segs }), s)

fail_all : Bytes → List Segment → Store → Result StoreError InsertResult × Store
fail_all flow_id segs s = (err StoreError.database, s)

abbrev server : Server Store
server = record { keys = []; store = no_segments }

claim : (acquire no_faults 100 100 (codes "k1") (codes "raw") 60 []).0 ≡ ok acquired
unfolding acquire select_row delete_rows
claim = refl

answers : (post_flow_segments accept_all env (conditions 100) post_request server).0 ≡ ok created
unfolding post_flow_segments post_prepared acquired_answer acquire select_row delete_rows register
    register_batch register_sorted sort_batch place refusal stamped segment_timerange_violation
    is_empty before equal ns_bounds bound_nanos nanos checked_nanos answer accept_all indices
    pick_accepted both not_accepted is_member assemble outcome_of disposal outcome_disposal dispose
    prepare parsed_id required_body refuse_if converted marshalled plain_id register_params_from_api
    register_params_from_post_array post_to_segment set_time_fields parse side parse_timestamp
    valid_int valid_nano parse_uint int64 posted_urls from_array from_single cut split_last
    separated ◌-ℤ◌
answers = refl

post-retry_example :
    post_flow_segments accept_all env (conditions 130) post_request (record {
      keys =
          apply_all
            (prune_call false 125 ∷ [])
            (post_flow_segments accept_all env (conditions 100) post_request server).1.keys;
      store = two_segments;
    })
    ≡ (
      ok (
          if bytes_eq (codes "raw") (codes "raw")
          then created
          else cached_conflict (codes "idempotency key reused with a different request body")),
      record {
        keys =
            apply_all
              (prune_call false 125 ∷ [])
              (post_flow_segments accept_all env (conditions 100) post_request server).1.keys;
        store = two_segments;
      },
    )
post-retry_example =
    post-retry accept_all env (conditions 100) post_request prepared server ready claim
      (conditions 130) post_request prepared created (prune_call false 125 ∷ []) two_segments tt
      refl answers tt (λ status body. (omega arith, tt)) ready refl refl (omega arith)

fails :
    (post_flow_segments fail_all env (conditions 100) post_request server).0
    ≡ err (of_service (ServiceError.of_store StoreError.database))
unfolding post_flow_segments post_prepared acquired_answer acquire select_row delete_rows register
    register_batch register_sorted sort_batch place refusal stamped segment_timerange_violation
    is_empty before equal ns_bounds bound_nanos nanos checked_nanos answer fail_all indices
    pick_accepted both not_accepted is_member assemble outcome_of disposal rejected dispose prepare
    parsed_id required_body refuse_if converted marshalled plain_id register_params_from_api
    register_params_from_post_array post_to_segment set_time_fields parse side parse_timestamp
    valid_int valid_nano parse_uint int64 posted_urls from_array from_single cut split_last
    separated ◌-ℤ◌ translate
fails = refl

post-released_example :
    (acquire no_faults 101 101
      (codes "k1")
      (codes "other")
      60
      (post_flow_segments fail_all env (conditions 100) post_request server).1.keys).0
    ≡ ok acquired
post-released_example =
    post-released fail_all env (conditions 100) post_request prepared server ready claim
      (of_service (ServiceError.of_store StoreError.database)) 101 101 60 (codes "other") tt fails
      refl

abbrev insert_rows : Bytes → List Segment → Store → Result StoreError InsertResult × Store
insert_rows id = store_insert no_call_fails ids 7 id (codes "s3")

post-cases_example :
    TellsOutcome (post_flow_segments insert_rows env (conditions 100) post_request server).0
    ⊎ ((post_flow_segments insert_rows env (conditions 100) post_request server).1.store
        ≡ no_segments)
post-cases_example =
    post-cases insert_rows (λ id. store_insert-AcceptsAll no_call_fails ids 7 id (codes "s3"))
      (λ id. store_insert-ErrorsKeep no_call_fails ids 7 id (codes "s3")) env (conditions 100)
      post_request server

abbrev get_params : GetFlowSegmentsParams
get_params = record {
  timerange = none;
  object_id = none;
  reverse_order = none;
  verbose_storage = none;
  accept_get_urls = none;
  accept_storage_ids = none;
  presigned = none;
  include_object_timerange = none;
  page = some (codes "cursor");
  limit = none;
}

abbrev download_url : DownloadUrlSet
download_url = record {
  storage_id = codes "default";
  storage_uri = codes "s3://bucket/o1";
  presigned_url = codes "https://bucket/o1";
  backend = record {
    storage_id = codes "default";
    provider = codes "aws";
    region = codes "eu";
    store_product = codes "s3";
  };
}

abbrev download : Download
download object presigned = some download_url

-- A store that cannot read the cursor.
bad_cursor : ListQuery → Store → Result StoreError Page
bad_cursor q s = err StoreError.invalid_cursor

head-get_example :
    head_flow_segments bad_cursor env f1 get_params two_segments
    ≡ head_of (get_flow_segments bad_cursor env download f1 get_params two_segments)
head-get_example = head-get bad_cursor env download f1 get_params two_segments

abbrev signed_only : List SegGetUrl
signed_only =
    record {
      url = codes "https://bucket/o1";
      label = some (codes "aws.eu:s3:opentams");
      storage_id = some (codes "default");
      controlled = none;
      presigned = some true;
    }
    ∷ []

projects : project_segment_urls download (some true) seg1 ≡ some signed_only
unfolding project_segment_urls controlled_get_urls controlled_entries wants_presigned wants_plain
    signed_entry storage_entry opt_str backend_label
projects = refl

project_segment_urls-fine_example : All (λ u. Passes (some true) u × Stamped seg1 u) signed_only
project_segment_urls-fine_example =
    project_segment_urls-fine download (some true) seg1 signed_only projects

abbrev flow_env : FlowEnv
flow_env = record {
  parse_uuid = plain_id;
  parse_int = λ s. none;
  format_int = λ n. [];
  video_fields = λ s. none;
}

abbrev base : ApiFlowBase
base = record {
  source_id = codes "s1";
  format = codes "audio";
  codec = none;
  container = none;
  label = some (codes "label");
  description = none;
  tags = (codes "name", codes "value") ∷ [];
  essence_parameters = [];
  container_mapping = [];
  flow_collection = [];
  avg_bit_rate = none;
  max_bit_rate = none;
  generation = none;
  metadata_version = none;
  read_only = none;
}

abbrev empty_db : Db
empty_db = record {
  sources = [];
  source_tags = [];
  flows = [];
  flow_tags = [];
  collections = [];
  objects = [];
  segments = [];
}

-- The answer to the PUT of a flow that is there.
abbrev there : Db
there = (put_flow flow_env none_failing none_failing 5 f1 (some base) empty_db).1

updates : (put_flow flow_env none_failing none_failing 6 f1 (some base) there).0 ≡ ok put_updated
unfolding put_flow plain_id service_upsert validate_video_flow from_flow upsert_flow
    upsert_transaction create_flow change_flow check_codec codec_equal ensure_source finish find
    put_answer api_flow_to_metastore new_entry new_source bytes_eq
updates = refl

parses : plain_id f1 ≡ some f1
unfolding plain_id
parses = refl

get-put_flow_example :
    (j : FlowCommonJson) × (get_flow_request flow_env none_failing no_call_fails f1 none none
        (put_flow flow_env none_failing none_failing 6 f1 (some base) there).1
      ≡ ok (got j))
    × Shows flow_env f1 base there j
get-put_flow_example =
    get-put_flow flow_env none_failing none_failing 6 f1 f1 base there put_updated parses updates
