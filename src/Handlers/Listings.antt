-- ===== src/Handlers/Listings.antt =====
-- internal/httpx/handlers/flows.go and sources.go, the listings of flows and of sources. The service
-- passes `ListFlows` on. A problem is its status.
use open_tams.Timerange.{TimeRange}
use open_tams.Timerange.Text.{ParseError, parse}
use open_tams.Prelude.Maybe.{map_option}
use open_tams.Handlers.Sources.{ApiSource, map_source}
use open_tams.Flows.Keyset.{CursorCodec}
use open_tams.Prelude.Result.{Result, err, ok, Result-cases}
use open_tams.Prelude.Bytes.{Bytes, codes}
use open_tams.Handlers.FlowBodies.{FlowCommonJson, FlowEnv, map_flow_to_api}
use open_tams.Prelude.Int.{negsuc, pos, ℤ}
use open_tams.Flows.Listing.{ListFlowsParams, ListSourcesParams, list_sources, list_flows}
use open_tams.Prelude.{
  ◌≡◌, refl, none, some, inl, inr, map, List, Option, if◌then◌else◌, [], ◌∷◌, ◌++◌, ltb, Bool,
}
use open_tams.Flows.{Db, Failing, Flow, Source, FlowError}

-- The generated parameters of GET and HEAD /flows, and of GET and HEAD /sources. No handler reads
-- `tag_name` and `tag_exists_name`.
pub record GetFlowsParams : Type 0 where
  pub source_id : Option Bytes
  pub timerange : Option Bytes
  pub format : Option Bytes
  pub codec : Option Bytes
  pub label : Option Bytes
  pub tag_name : Option Bytes
  pub tag_exists_name : Option Bool
  pub frame_width : Option ℤ
  pub frame_height : Option ℤ
  pub page : Option Bytes
  pub limit : Option ℤ

pub record GetSourcesParams : Type 0 where
  pub label : Option Bytes
  pub format : Option Bytes
  pub tag_name : Option Bytes
  pub tag_exists_name : Option Bool
  pub page : Option Bytes
  pub limit : Option ℤ

-- The limit of a listing: 100 if there is none, and at most 1000.
unfoldable pub clamped_limit : Option ℤ → ℤ
clamped_limit none = pos 100
clamped_limit (some (pos n)) = if ltb 1000 n then pos 1000 else pos n
clamped_limit (some (negsuc n)) = negsuc n

unfoldable pub parsed_source : FlowEnv → Option Bytes → Option Bytes
parsed_source env none = none
parsed_source env (some text) = env.parse_uuid text

unfoldable pub parsed_range : Option Bytes → Result ParseError (Option TimeRange)
parsed_range none = ok none
parsed_range (some text) = elim (parse text) [ err e ↦ err e | ok tr ↦ ok (some tr) ]

unfoldable pub flows_filter : FlowEnv → GetFlowsParams → Option TimeRange → ListFlowsParams
flows_filter env p range = record {
  source_id = parsed_source env p.source_id;
  format = p.format;
  label = p.label;
  codec = p.codec;
  frame_width = p.frame_width;
  frame_height = p.frame_height;
  timerange = range;
  tag_exists = [];
  tag_values = [];
  limit = clamped_limit p.limit;
  page_from = p.page;
}

-- `parseGetFlowsParams`.
unfoldable pub parse_get_flows_params : FlowEnv → GetFlowsParams → Result ParseError ListFlowsParams
parse_get_flows_params env p = elim (parsed_range p.timerange) [
  | err e ↦ err e
  | ok range ↦ ok (flows_filter env p range)
]

pub record PagingHeaders : Type 0 where
  pub limit : ℤ
  pub next_key : Option Bytes
  pub link : Option Bytes

unfoldable pub next_link : Bytes → Bytes
next_link cursor =
    codes "<>; rel=" ++ (34 ∷ codes "next") ++ (34 ∷ codes "; key=") ++ (34 ∷ cursor) ++ 34 ∷ []

unfoldable pub paging_headers : ℤ → Option Bytes → PagingHeaders
paging_headers limit cursor = record {
  limit = limit;
  next_key = cursor;
  link = map_option next_link cursor;
}

-- 200 with a body and headers, and 400; a HEAD has no body.
pub data ListingResponse (A : Type 0) : Type 0 where
  listing : List A → PagingHeaders → ListingResponse A
  listing_refused : ListingResponse A

pub data HeadListingResponse : Type 0 where
  head_listing : PagingHeaders → HeadListingResponse
  head_refused : HeadListingResponse

unfoldable pub flows_listed :
    FlowEnv
    → ListFlowsParams
    → Result FlowError (List Flow × Option Bytes)
    → Result FlowError (ListingResponse FlowCommonJson)
flows_listed env p (ok (flows, cursor)) =
    ok (listing (map (map_flow_to_api env) flows) (paging_headers p.limit cursor))
flows_listed env p (err FlowError.bad_timerange) = ok listing_refused
flows_listed env p (err e) = err e

unfoldable pub flows_headed :
    ListFlowsParams
    → Result FlowError (List Flow × Option Bytes)
    → Result FlowError HeadListingResponse
flows_headed p (ok (flows, cursor)) = ok (head_listing (paging_headers p.limit cursor))
flows_headed p (err FlowError.bad_timerange) = ok head_refused
flows_headed p (err e) = err e

module _ (codec : CursorCodec) (frame : Bytes → Option Bytes → Option ℤ) (env : FlowEnv)
    (failing : Failing) where
  unfoldable pub get_flows_request :
      GetFlowsParams → Db → Result FlowError (ListingResponse FlowCommonJson)
  get_flows_request params db = elim (parse_get_flows_params env params) [
    | err e ↦ ok listing_refused
    | ok p ↦ flows_listed env p (list_flows codec frame failing p db)
  ]

  unfoldable pub head_flows_request : GetFlowsParams → Db → Result FlowError HeadListingResponse
  head_flows_request params db = elim (parse_get_flows_params env params) [
    | err e ↦ ok head_refused
    | ok p ↦ flows_headed p (list_flows codec frame failing p db)
  ]

unfoldable pub sources_listed :
    ListSourcesParams
    → Result FlowError (List Source × Option Bytes)
    → Result FlowError (ListingResponse ApiSource)
sources_listed p (ok (sources, cursor)) =
    ok (listing (map map_source sources) (paging_headers p.limit cursor))
sources_listed p (err e) = err e

unfoldable pub sources_headed :
    ListSourcesParams
    → Result FlowError (List Source × Option Bytes)
    → Result FlowError HeadListingResponse
sources_headed p (ok (sources, cursor)) = ok (head_listing (paging_headers p.limit cursor))
sources_headed p (err e) = err e

unfoldable pub sources_filter : GetSourcesParams → ListSourcesParams
sources_filter p = record {
  limit = clamped_limit p.limit;
  page_from = p.page;
  label = p.label;
  format = p.format;
  tag_exists = [];
  tag_values = [];
}

unfoldable pub given_limit : Option ℤ → ℤ
given_limit none = pos 100
given_limit (some n) = n

-- The filter of a HEAD, which takes the limit as it is and reads no label and no format.
unfoldable pub head_sources_filter : GetSourcesParams → ListSourcesParams
head_sources_filter p = record {
  limit = given_limit p.limit;
  page_from = p.page;
  label = none;
  format = none;
  tag_exists = [];
  tag_values = [];
}

unfoldable pub get_sources_request :
    CursorCodec → Failing → GetSourcesParams → Db → Result FlowError (ListingResponse ApiSource)
get_sources_request codec failing params db =
    let p = sources_filter params in sources_listed p (list_sources codec failing p db)

unfoldable pub head_sources_request :
    CursorCodec → Failing → GetSourcesParams → Db → Result FlowError HeadListingResponse
head_sources_request codec failing params db =
    let p = head_sources_filter params in sources_headed p (list_sources codec failing p db)

-- What a HEAD keeps of the answer to a GET.
abbrev pub headed :
    {A : Type 0} → Result FlowError (ListingResponse A) → Result FlowError HeadListingResponse
headed (ok (listing items headers)) = ok (head_listing headers)
headed (ok listing_refused) = ok head_refused
headed (err e) = err e

flows_headed-listed :
    (env : FlowEnv) (p : ListFlowsParams) (r : Result FlowError (List Flow × Option Bytes))
    → flows_headed p r ≡ headed (flows_listed env p r)
unfolding flows_headed flows_listed
flows_headed-listed env p (ok (flows, cursor)) = refl
flows_headed-listed env p (err FlowError.not_found) = refl
flows_headed-listed env p (err FlowError.read_only) = refl
flows_headed-listed env p (err FlowError.immutable_field) = refl
flows_headed-listed env p (err FlowError.format_mismatch) = refl
flows_headed-listed env p (err FlowError.invalid_json) = refl
flows_headed-listed env p (err FlowError.bad_timerange) = refl
flows_headed-listed env p (err FlowError.database) = refl

sources_headed-listed :
    (p : ListSourcesParams) (r : Result FlowError (List Source × Option Bytes))
    → sources_headed p r ≡ headed (sources_listed p r)
unfolding sources_headed sources_listed
sources_headed-listed p (ok (sources, cursor)) = refl
sources_headed-listed p (err e) = refl

-- HEAD /flows answers as GET /flows does, without the body. HEAD /sources with a limit of at most
-- 1000, or none, answers as GET /sources does without its filters on the label and the format,
-- whatever these are in the request.
pub head_listings :
    (codec : CursorCodec) (frame : Bytes → Option Bytes → Option ℤ) (env : FlowEnv)
    (failing : Failing) (params : GetFlowsParams) (wanted : GetSourcesParams) (db : Db)
    → clamped_limit wanted.limit ≡ given_limit wanted.limit
    → (head_flows_request codec frame env failing params db
        ≡ headed (get_flows_request codec frame env failing params db))
      × (head_sources_request codec failing wanted db
          ≡ headed (
              get_sources_request codec failing (record wanted { label = none; format = none }) db))
unfolding head_flows_request get_flows_request head_sources_request get_sources_request
    sources_filter head_sources_filter
head_listings codec frame env failing params wanted db same = (
  elim (Result-cases (parse_get_flows_params env params)) [
    | inr (e, q) ↦ rw (head_flows_request, get_flows_request, q) refl
    | inl (p, q) ↦
        rw (head_flows_request, get_flows_request, q)
          (flows_headed-listed env p (list_flows codec frame failing p db))
  ],
  rw same (
      sources_headed-listed (head_sources_filter wanted)
        (list_sources codec failing (head_sources_filter wanted) db)),
)
