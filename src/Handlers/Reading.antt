-- ===== src/Handlers/Reading.antt =====
-- internal/httpx/handlers/segments.go: `GetFlowSegments`, `HeadFlowSegments` and
-- `DeleteFlowSegments`, over a store behind the segment service. The access log is left out.
use open_tams.Prelude.Int.{pos}
use open_tams.Prelude.Bytes.{Bytes, codes, length, bytes_eq, is_nil}
use open_tams.Prelude.Result.{Result, err, ok, Result-cases}
use open_tams.Prelude.{
  Bool, List, Option, [], if◌then◌else◌, inl, inr, none, refl, some, ℕ, ◌++◌, ◌∷◌, ◌≡◌,
  Option-cases,
}
use open_tams.Handlers.{Env, Problem, problem_400, problem_403, problem_404, problem_type}
use open_tams.Handlers.Urls.{Download, SegGetUrl, project_segment_urls, sanitise_header_value}
use open_tams.Conversion.{FlowSegment, ConversionError, bad_limit, segment_to_api}
use open_tams.Conversion.Params.{GetFlowSegmentsParams, ListParams, list_params_from_api}
use open_tams.Segments.Listing.{ListQuery, Page, Item}
use open_tams.Segments.{StoreError}
use open_tams.Service.{ServiceError, list, delete}
use open_tams.Timerange.{TimeRange, inclusive}
use open_tams.Timerange.Text.{ParseError, parse, range_text}

-- The paging headers, with the key of `X-Paging-NextKey` and of `Link`.
pub record Headers : Type 0 where
  pub limit : ℕ
  pub count : ℕ
  pub reverse_order : Bool
  pub timerange : Bytes
  pub next_key : Option Bytes
  pub link : Option Bytes

-- An element of the body: the segment without its URLs, and these.
pub record ListedSegment : Type 0 where
  pub segment : FlowSegment
  pub urls : Option (List SegGetUrl)

pub data GetResponse : Type 0 where
  listed : List ListedSegment → Headers → GetResponse
  get_bad_request get_not_found : Problem → GetResponse

pub data HeadResponse : Type 0 where
  head_listed : Headers → HeadResponse
  head_bad_request : HeadResponse

-- The errors that become a 5xx; `panics` is the panic of `String`.
pub data ReadError : Type 0 where
  panics : ReadError
  service_failed : ServiceError → ReadError

-- `listParamsErrorType`, without the prefix.
unfoldable pub list_params_error_type : ConversionError → Bytes
list_params_error_type bad_limit = codes "schema-validation"
list_params_error_type e = codes "invalid-timerange"

-- `page.Timerange`, which is the zero value where the page has no items.
unfoldable pub zero_range : TimeRange
zero_range = record { start = none; start_type = inclusive; end = none; end_type = inclusive }

unfoldable pub page_timerange : Option TimeRange → TimeRange
page_timerange none = zero_range
page_timerange (some tr) = tr

unfoldable pub page_headers : Bool → Page → Bytes → Headers
page_headers reverse page text =
    let cursor = sanitise_header_value page.next_cursor in
    record {
      limit = page.effective_limit;
      count = length page.items;
      reverse_order = reverse;
      timerange = text;
      next_key = if is_nil cursor then none else some cursor;
      link =
          if is_nil cursor
          then none
          else some (
              codes "<>; rel="
              ++ (34 ∷ codes "next")
              ++ (34 ∷ codes "; key=")
              ++ (34 ∷ cursor)
              ++ 34 ∷ []);
    }

unfoldable pub listed_segments : Download → Option Bool → List Item → List ListedSegment
listed_segments download presigned [] = []
listed_segments download presigned (i ∷ is) =
    record {
      segment = record (segment_to_api i.seg) { get_urls = none };
      urls = project_segment_urls download presigned i.seg;
    }
    ∷ listed_segments download presigned is

-- The query of `List`.
unfoldable pub list_query : Bytes → ListParams → ListQuery
list_query flow_id p = record {
  flow_id = flow_id;
  timerange = p.timerange;
  object_id = p.object_id;
  reverse_order = p.reverse_order;
  page = p.page;
  limit = pos p.limit;
}

-- The switch on the error of `List`.
unfoldable pub list_failed : Env → ServiceError → Result ReadError GetResponse
list_failed env ServiceError.not_found = ok (get_not_found (problem_404 (codes "flow not found")))
list_failed env (ServiceError.of_store StoreError.invalid_cursor) = ok (
    get_bad_request (
      problem_400 (codes "invalid-cursor")
        (env.service_text (ServiceError.of_store StoreError.invalid_cursor))))
list_failed env ServiceError.invalid_timerange = ok (
    get_bad_request
      (problem_400 (codes "invalid-timerange") (env.service_text ServiceError.invalid_timerange)))
list_failed env e = err (service_failed e)

unfoldable pub head_failed : ServiceError → Result ReadError HeadResponse
head_failed ServiceError.invalid_timerange = ok head_bad_request
head_failed e = err (service_failed e)

unfoldable pub get_page : Download → Option Bool → Bool → Page → Result ReadError GetResponse
get_page download presigned reverse page = elim (range_text (page_timerange page.timerange)) [
  | none ↦ err panics
  | some text ↦
      ok (listed (listed_segments download presigned page.items) (page_headers reverse page text))
]

unfoldable pub get_listed :
    Env → Download → ListParams → Result ServiceError Page → Result ReadError GetResponse
get_listed env download p (err e) = list_failed env e
get_listed env download p (ok page) = get_page download p.presigned p.reverse_order page

unfoldable pub head_page : Bool → Page → Result ReadError HeadResponse
head_page reverse page = elim (range_text (page_timerange page.timerange)) [
  | none ↦ err panics
  | some text ↦ ok (head_listed (page_headers reverse page text))
]

unfoldable pub head_listed_page :
    ListParams → Result ServiceError Page → Result ReadError HeadResponse
head_listed_page p (err e) = head_failed e
head_listed_page p (ok page) = head_page p.reverse_order page

module _ {S : Type 0} (list_segments : ListQuery → S → Result StoreError Page) where
  unfoldable pub get_flow_segments :
      Env → Download → Bytes → GetFlowSegmentsParams → S → Result ReadError GetResponse
  get_flow_segments env download flow_id params s = elim (env.parse_uuid flow_id) [
    | none ↦
        ok (
          get_bad_request
            (problem_400 (codes "invalid-uuid") (codes "flow_id is not a valid UUID")))
    | some id ↦ elim (list_params_from_api params) [
      | err e ↦
          ok (get_bad_request (problem_400 (list_params_error_type e) (env.conversion_text e)))
      | ok p ↦ get_listed env download p (list list_segments (list_query id p) s)
    ]
  ]

  unfoldable pub head_flow_segments :
      Env → Bytes → GetFlowSegmentsParams → S → Result ReadError HeadResponse
  head_flow_segments env flow_id params s = elim (env.parse_uuid flow_id) [
    | none ↦ ok head_bad_request
    | some id ↦ elim (list_params_from_api params) [
      | err e ↦ ok head_bad_request
      | ok p ↦ head_listed_page p (list list_segments (list_query id p) s)
    ]
  ]

pub data DeleteResponse : Type 0 where
  deleted : DeleteResponse
  delete_bad_request delete_forbidden delete_not_found : Problem → DeleteResponse

unfoldable pub delete_failed : Env → ServiceError → Result ReadError DeleteResponse
delete_failed env ServiceError.not_found =
    ok (delete_not_found (problem_404 (codes "flow not found")))
delete_failed env ServiceError.read_only =
    ok (delete_forbidden (problem_403 (codes "flow is read-only")))
delete_failed env ServiceError.invalid_timerange = ok (
    delete_bad_request
      (problem_400 (codes "invalid-timerange") (env.service_text ServiceError.invalid_timerange)))
delete_failed env e = err (service_failed e)

unfoldable pub delete_answer : Env → Result ServiceError ℕ → Result ReadError DeleteResponse
delete_answer env (ok n) = ok deleted
delete_answer env (err e) = delete_failed env e

-- The text of an error of `timerange.Parse`, behind its prefix, is a parameter.
module _ {S : Type 0}
    (delete_segments : Bytes → TimeRange → Option Bytes → S → Result StoreError ℕ × S) where
  unfoldable pub delete_parsed :
      Env
      → Bytes
      → Option Bytes
      → Result ParseError TimeRange
      → S
      → Result ReadError DeleteResponse × S
  delete_parsed env id object_id (err e) s = (
    ok (
        delete_bad_request (
          problem_400 (codes "invalid-timerange")
            (env.conversion_text (ConversionError.bad_query_timerange e)))),
    s,
  )
  delete_parsed env id object_id (ok tr) s =
      let (r, s') = delete (delete_segments id) tr object_id s in (delete_answer env r, s')

  unfoldable pub delete_flow_segments :
      Env → Bytes → Option Bytes → Option Bytes → S → Result ReadError DeleteResponse × S
  delete_flow_segments env flow_id timerange object_id s = elim (env.parse_uuid flow_id) [
    | none ↦ (ok (delete_not_found (problem_404 (codes "flow not found"))), s)
    | some id ↦ elim timerange [
      | none ↦ (
        ok (
            delete_bad_request (
              problem_400 (codes "invalid-timerange")
                (codes "timerange query parameter is required"))),
        s,
      )
      | some text ↦ delete_parsed env id object_id (parse text) s
    ]
  ]

-- What HEAD answers, by what GET does. The answers of GET that HEAD turns into an internal error are
-- those for a flow that is not there, and for a cursor that cannot be read.
pub head_of : Result ReadError GetResponse → Result ReadError HeadResponse
head_of (ok (listed body headers)) = ok (head_listed headers)
head_of (ok (get_not_found p)) = err (service_failed ServiceError.not_found)
head_of (ok (get_bad_request p)) =
    if bytes_eq p.type (problem_type (codes "invalid-cursor"))
    then err (service_failed (ServiceError.of_store StoreError.invalid_cursor))
    else ok head_bad_request
head_of (err e) = err e

failed-head : (env : Env) (e : ServiceError) → head_failed e ≡ head_of (list_failed env e)
unfolding head_failed list_failed head_of problem_400 problem_404 problem_type bytes_eq
failed-head env ServiceError.not_found = refl
failed-head env ServiceError.read_only = refl
failed-head env ServiceError.invalid_request = refl
failed-head env ServiceError.index_panic = refl
failed-head env ServiceError.invalid_timerange = refl
failed-head env (ServiceError.of_store StoreError.flow_not_found) = refl
failed-head env (ServiceError.of_store StoreError.flow_read_only) = refl
failed-head env (ServiceError.of_store StoreError.bad_input) = refl
failed-head env (ServiceError.of_store StoreError.segment_overlap) = refl
failed-head env (ServiceError.of_store StoreError.segment_object_reaping) = refl
failed-head env (ServiceError.of_store StoreError.controlled_storage_not_configured) = refl
failed-head env (ServiceError.of_store StoreError.invalid_object_timerange) = refl
failed-head env (ServiceError.of_store StoreError.invalid_cursor) = refl
failed-head env (ServiceError.of_store StoreError.bad_stored_text) = refl
failed-head env (ServiceError.of_store StoreError.database) = refl
failed-head env (ServiceError.of_store StoreError.nil_dereference) = refl
failed-head env (ServiceError.of_store (StoreError.bad_range x)) = refl

converted-head :
    (e : ConversionError) (text : Bytes)
    → ok head_bad_request
      ≡ head_of (ok (get_bad_request (problem_400 (list_params_error_type e) text)))
unfolding list_params_error_type head_of problem_400 problem_type bytes_eq
converted-head (ConversionError.bad_field x) text = refl
converted-head (ConversionError.in_segment f x) text = refl
converted-head (ConversionError.bad_query_timerange x) text = refl
converted-head ConversionError.bad_body text = refl
converted-head ConversionError.bad_limit text = refl

page-head :
    (download : Download) (presigned : Option Bool) (reverse : Bool) (page : Page)
    → head_page reverse page ≡ head_of (get_page download presigned reverse page)
unfolding head_page get_page head_of
page-head download presigned reverse page =
    elim (Option-cases (range_text (page_timerange page.timerange))) [
      | inl e ↦ rw (head_page, get_page, e) refl
      | inr (text, e) ↦ rw (head_page, get_page, e) refl
    ]

listed-head :
    (env : Env) (download : Download) (p : ListParams) (r : Result ServiceError Page)
    → head_listed_page p r ≡ head_of (get_listed env download p r)
unfolding head_listed_page get_listed
listed-head env download p (ok page) = page-head download p.presigned p.reverse_order page
listed-head env download p (err e) = failed-head env e

-- HEAD answers as GET does, with the same headers where GET lists segments and with a 400 where GET
-- has one, but for two cases: where GET answers 404 for a flow that is not there, and where it
-- answers 400 for a cursor that cannot be read, HEAD returns an internal error.
pub head-get :
    {S : Type 0} (list_segments : ListQuery → S → Result StoreError Page) (env : Env)
    (download : Download) (flow_id : Bytes) (params : GetFlowSegmentsParams) (s : S)
    → head_flow_segments list_segments env flow_id params s
      ≡ head_of (get_flow_segments list_segments env download flow_id params s)
unfolding head_flow_segments get_flow_segments
head-get list_segments env download flow_id params s =
    elim (Option-cases (env.parse_uuid flow_id)) [
      | inl e ↦
          rw (head_flow_segments, get_flow_segments, e)
            (unfold head_of problem_400 problem_type bytes_eq in refl)
      | inr (id, e) ↦ elim (Result-cases (list_params_from_api params)) [
        | inr (x, q) ↦
            rw (head_flow_segments, get_flow_segments, e, q)
              (converted-head x (env.conversion_text x))
        | inl (p, q) ↦
            rw (head_flow_segments, get_flow_segments, e, q)
              (listed-head env download p (list list_segments (list_query id p) s))
      ]
    ]
