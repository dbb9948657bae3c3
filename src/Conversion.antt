-- ===== src/Conversion.antt =====
-- internal/httpx/conversion/segment.go and segment_params.go: between the generated API structs and
-- the values of internal/domain. A generated struct is a record of the fields that the code
-- reads or sets, a pointer an Option.
-- The union type of the request body is what its two generated accessors answer. The error values
-- keep the field and the cause; their English text is left out.
pub mod Params
pub mod Faithful
pub mod Readable
mod Examples
use open_tams.Prelude.Int.{ℤ}
use open_tams.Segments.{Segment, GetUrl}
use open_tams.Timerange.Text.{ParseError, parse, parse_timestamp}
use open_tams.Prelude.Result.{Result, err, ok, ◌>>=◌}
use open_tams.Prelude.Bytes.{Bytes, codes, is_nil}
use open_tams.Prelude.{
  List, Option, [], false, if◌then◌else◌, none, some, suc, zero, ℕ, ◌%◌, ◌++◌, ◌+◌, ◌/◌, ◌==◌, ◌∷◌,
  ltb, Bool,
}

-- `api.FlowSegmentPost`: what a client sends.
pub record PostUrl : Type 0 where
  pub url : Bytes
  pub label : Bytes

pub record FlowSegmentPost : Type 0 where
  pub object_id : Bytes
  pub timerange : Bytes
  pub ts_offset : Option Bytes
  pub object_timerange : Option Bytes
  pub last_duration : Option Bytes
  pub key_frame_count : Option ℤ
  pub sample_offset : Option ℤ
  pub sample_count : Option ℤ
  pub get_urls : Option (List PostUrl)

-- `api.FlowSegment`: what the server answers.
pub record ApiUrl : Type 0 where
  pub url : Bytes
  pub label : Option Bytes
  pub controlled : Option Bool

pub record FlowSegment : Type 0 where
  pub object_id : Bytes
  pub timerange : Bytes
  pub ts_offset : Option Bytes
  pub object_timerange : Option Bytes
  pub last_duration : Option Bytes
  pub key_frame_count : Option ℤ
  pub sample_offset : Option ℤ
  pub sample_count : Option ℤ
  pub get_urls : Option (List ApiUrl)

pub data FieldError : Type 0 where
  bad_timerange bad_ts_offset bad_object_timerange bad_last_duration : ParseError → FieldError

pub data ConversionError : Type 0 where
  bad_field : FieldError → ConversionError
  in_segment : Bytes → FieldError → ConversionError
  bad_query_timerange : ParseError → ConversionError
  bad_body bad_limit : ConversionError

unfoldable pub named {ℓ} :
    {A : Type ℓ} → (ParseError → FieldError) → Result ParseError A → Result FieldError A
named f (ok a) = ok a
named f (err e) = err (f e)

-- A pointer to a text: the parsed value and the text, neither where the pointer is nil.
unfoldable pub optional {ℓ} :
    {A : Type ℓ}
    → (ParseError → FieldError)
    → (Bytes → Result ParseError A)
    → Option Bytes
    → Result FieldError (Option A × Bytes)
unfolding named
optional f parser none = ok (none, [])
optional f parser (some text) = do a ← named f (parser text); ok (some a, text)

-- `setTimeFields` on the segment that has only its object so far, with the other fields that the
-- callers set afterwards.
pub record Rest : Type 0 where
  pub object_id : Bytes
  pub key_frame_count : Option ℤ
  pub sample_offset : Option ℤ
  pub sample_count : Option ℤ
  pub get_urls : List GetUrl

unfoldable pub set_time_fields :
    Rest → Bytes → Option Bytes → Option Bytes → Option Bytes → Result FieldError Segment
unfolding named optional
set_time_fields rest tr ts_offset object_timerange last_duration = do
  parsed ← named bad_timerange (parse tr)
  offset ← optional bad_ts_offset parse_timestamp ts_offset
  object_range ← optional bad_object_timerange parse object_timerange
  duration ← optional bad_last_duration parse_timestamp last_duration
  ok (record {
    object_id = rest.object_id;
    timerange = parsed;
    ts_offset = offset.0;
    object_timerange = object_range.0;
    last_duration = duration.0;
    key_frame_count = rest.key_frame_count;
    get_urls = rest.get_urls;
    timerange_raw = tr;
    ts_offset_raw = offset.1;
    object_timerange_raw = object_range.1;
    last_duration_raw = duration.1;
    sample_offset = rest.sample_offset;
    sample_count = rest.sample_count;
  })

-- The URLs of a client, all of them uncontrolled.
pub uncontrolled : List PostUrl → List GetUrl
uncontrolled [] = []
uncontrolled (u ∷ us) =
    record { url = u.url; label = u.label; controlled = false } ∷ uncontrolled us

unfoldable pub posted_urls : Option (List PostUrl) → List GetUrl
unfolding uncontrolled
posted_urls none = []
posted_urls (some us) = uncontrolled us

unfoldable pub post_to_segment : FlowSegmentPost → Result FieldError Segment
post_to_segment p =
    set_time_fields
      (record {
        object_id = p.object_id;
        key_frame_count = p.key_frame_count;
        sample_offset = p.sample_offset;
        sample_count = p.sample_count;
        get_urls = posted_urls p.get_urls;
      })
      p.timerange p.ts_offset p.object_timerange p.last_duration

-- The loop of `itoa` over its buffer of 20 bytes, and `fieldIdx`.
itoa_loop : ℕ → ℕ → Bytes → Bytes
itoa_loop zero i out = out
itoa_loop (suc room) i out =
    let rest = itoa_loop room (i / 10) ((b'0' + i % 10) ∷ out) in if ltb 0 i then rest else out

pub itoa : ℕ → Bytes
unfolding itoa_loop
itoa i = if i == 0 then b'0' ∷ [] else itoa_loop 20 i []

pub field_idx : Bytes → ℕ → Bytes
unfolding itoa
field_idx field i = field ++ b'[' ∷ (itoa i ++ b']' ∷ [])

unfoldable pub at_index : ℕ → Result FieldError Segment → Result ConversionError Segment
at_index i (ok seg) = ok seg
at_index i (err e) = err (in_segment (field_idx (codes "segments") i) e)

-- The loop of `registerParamsFromPostArray`.
unfoldable pub register_params_from_post_array :
    ℕ → List FlowSegmentPost → Result ConversionError (List Segment)
unfolding at_index
register_params_from_post_array i [] = ok []
register_params_from_post_array i (p ∷ ps) = do
  seg ← at_index i (post_to_segment p)
  segs ← register_params_from_post_array (i + 1) ps
  ok (seg ∷ segs)

-- What `AsFlowSegmentPostBody1` and `AsFlowSegmentPost` answer; `none` is an error.
pub record Body : Type 0 where
  pub as_array : Option (List FlowSegmentPost)
  pub as_single : Option FlowSegmentPost

unfoldable pub from_single : Option FlowSegmentPost → Result ConversionError (List Segment)
from_single none = err bad_body
from_single (some p) =
    if is_nil p.object_id then err bad_body else register_params_from_post_array 0 (p ∷ [])

unfoldable pub from_array :
    Option (List FlowSegmentPost) → Option FlowSegmentPost → Result ConversionError (List Segment)
from_array (some (p ∷ ps)) single = register_params_from_post_array 0 (p ∷ ps)
from_array (some []) single = from_single single
from_array none single = from_single single

unfoldable pub register_params_from_api : Body → Result ConversionError (List Segment)
unfolding from_array from_single
register_params_from_api body = from_array body.as_array body.as_single

-- `optionalRaw`.
unfoldable pub optional_raw : Bytes → Option Bytes
optional_raw raw = if is_nil raw then none else some raw

api_urls : List GetUrl → List ApiUrl
api_urls [] = []
api_urls (g ∷ gs) =
    record { url = g.url; label = some g.label; controlled = some g.controlled } ∷ api_urls gs

answered_urls : List GetUrl → Option (List ApiUrl)
unfolding api_urls
answered_urls urls = if is_nil urls then none else some (api_urls urls)

unfoldable pub segment_to_api : Segment → FlowSegment
unfolding optional_raw answered_urls
segment_to_api s = record {
  object_id = s.object_id;
  timerange = s.timerange_raw;
  ts_offset = optional_raw s.ts_offset_raw;
  object_timerange = optional_raw s.object_timerange_raw;
  last_duration = optional_raw s.last_duration_raw;
  key_frame_count = s.key_frame_count;
  sample_offset = s.sample_offset;
  sample_count = s.sample_count;
  get_urls = answered_urls s.get_urls;
}

-- `SegmentFromAPI` leaves the URLs unset.
unfoldable pub from_fields : Result FieldError Segment → Result ConversionError Segment
from_fields (ok seg) = ok seg
from_fields (err e) = err (bad_field e)

unfoldable pub segment_from_api : FlowSegment → Result ConversionError Segment
unfolding from_fields
segment_from_api a = from_fields (
    set_time_fields
      (record {
        object_id = a.object_id;
        key_frame_count = a.key_frame_count;
        sample_offset = a.sample_offset;
        sample_count = a.sample_count;
        get_urls = [];
      })
      a.timerange a.ts_offset a.object_timerange a.last_duration)

-- `RegisterAcceptedToAPI`, which `SegmentPageToAPI` applies to the items of a page.
pub register_accepted_to_api : List Segment → List FlowSegment
register_accepted_to_api [] = []
register_accepted_to_api (s ∷ ss) = segment_to_api s ∷ register_accepted_to_api ss
