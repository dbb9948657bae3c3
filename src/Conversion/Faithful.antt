-- ===== src/Conversion/Faithful.antt =====
-- The texts of a segment, from the request through the store to the answer: conversion/segment.go and
-- conversion/segment_params.go of internal/httpx, and the columns of internal/metastore/segments.go.
use open_tams.Prelude.Int.{ℤ}
use open_tams.Segments.Insert.{new_row, null_if_empty}
use open_tams.Prelude.Sort.{All}
use open_tams.Timerange.Text.{ParseError, parse, parse_timestamp}
use open_tams.Segments.Listing.{or_empty, parse_stored, scan_row}
use open_tams.Segments.{Segment}
use open_tams.Prelude.Result.{err, ok, Result, Returns, Returns-bind, Returns-ok}
use open_tams.Prelude.Bytes.{Bytes, is_nil}
use open_tams.Conversion.{
  at_index, named, optional, register_params_from_api, register_params_from_post_array,
  set_time_fields, post_to_segment, Rest, Body, FieldError, FlowSegmentPost, from_single,
  bad_timerange, bad_ts_offset, bad_object_timerange, from_array, bad_last_duration,
  segment_from_api, optional_raw, segment_to_api,
}
use open_tams.Timerange.{TimeRange, Timestamp}
use open_tams.Prelude.{
  List, [], inl, inr, none, refl, some, ◌+◌, ◌∷◌, ◌≡◌, ℕ, Option, arith, Bool-cases,
}

-- A parsed field and its text: both are absent, or the text is what was parsed.
abbrev pub Agrees : {A : Type 0} → (Bytes → Result ParseError A) → Option A → Bytes → Type 0
Agrees parser none text = text ≡ []
Agrees parser (some a) text = parser text ≡ ok a

pub record IsParsed (seg : Segment) : Type 0 where
  pub timerange : parse seg.timerange_raw ≡ ok seg.timerange
  pub ts_offset : Agrees parse_timestamp seg.ts_offset seg.ts_offset_raw
  pub object_timerange : Agrees parse seg.object_timerange seg.object_timerange_raw
  pub last_duration : Agrees parse_timestamp seg.last_duration seg.last_duration_raw

named-ok {ℓ} :
    {A : Type ℓ} (f : ParseError → FieldError) (r : Result ParseError A) (a : A)
    → named f r ≡ ok a
    → r ≡ ok a
unfolding named
named-ok f (ok b) a e = ground arith
named-ok f (err x) a e = absurd (cc)

optional-Agrees :
    {A : Type 0} (f : ParseError → FieldError) (parser : Bytes → Result ParseError A)
    (o : Option Bytes)
    → Returns (λ p. Agrees parser p.0 p.1) (optional f parser o)
unfolding optional
optional-Agrees f parser none = refl
optional-Agrees f parser (some text) =
    Returns-bind _ (named f (parser text)) _ λ a e. named-ok f (parser text) a e

set_time_fields-IsParsed :
    (rest : Rest) (tr : Bytes) (tso otr ld : Option Bytes)
    → Returns IsParsed (set_time_fields rest tr tso otr ld)
unfolding set_time_fields
set_time_fields-IsParsed rest tr tso otr ld =
    Returns-bind _ (named bad_timerange (parse tr)) _ λ parsed e.
      Returns-bind _ (optional bad_ts_offset parse_timestamp tso) _ λ offset f.
        Returns-bind _ (optional bad_object_timerange parse otr) _ λ range g.
          Returns-bind _ (optional bad_last_duration parse_timestamp ld) _ λ duration h. record {
            timerange = named-ok bad_timerange (parse tr) parsed e;
            ts_offset =
                Returns-ok (λ p. Agrees parse_timestamp p.0 p.1) _ offset
                  (optional-Agrees bad_ts_offset parse_timestamp tso) f;
            object_timerange =
                Returns-ok (λ p. Agrees parse p.0 p.1) _ range
                  (optional-Agrees bad_object_timerange parse otr) g;
            last_duration =
                Returns-ok (λ p. Agrees parse_timestamp p.0 p.1) _ duration
                  (optional-Agrees bad_last_duration parse_timestamp ld) h;
          }

-- The same of a list.
abbrev pub AllParsed : List Segment → Type 0
AllParsed segs = All IsParsed segs

at_index-Returns :
    (P : Segment → Type 0) (i : ℕ) (r : Result FieldError Segment)
    → Returns P r
    → Returns P (at_index i r)
unfolding at_index
at_index-Returns P i (ok seg) h = h
at_index-Returns P i (err e) h = tt

post_array-AllParsed :
    (i : ℕ) (ps : List FlowSegmentPost) → Returns AllParsed (register_params_from_post_array i ps)
unfolding register_params_from_post_array post_to_segment
post_array-AllParsed i [] = tt
post_array-AllParsed i (p ∷ ps) = Returns-bind _ (at_index i (post_to_segment p)) _ λ seg e.
    Returns-bind _ (register_params_from_post_array (i + 1) ps) _ λ segs f. (
      Returns-ok IsParsed _ seg
          (at_index-Returns IsParsed i (post_to_segment p)
            (set_time_fields-IsParsed _ p.timerange p.ts_offset p.object_timerange p.last_duration))
          e,
      Returns-ok AllParsed _ segs (post_array-AllParsed (i + 1) ps) f,
    )

register_params-Returns : (body : Body) → Returns AllParsed (register_params_from_api body)
unfolding register_params_from_api
register_params-Returns body = array body.as_array body.as_single
  where
    single : (o : Option FlowSegmentPost) → Returns AllParsed (from_single o)
    single none = tt
    single (some p) = elim (Bool-cases (is_nil p.object_id)) [
      | inl e ↦ rw e tt
      | inr e ↦ rw e (post_array-AllParsed 0 (p ∷ []))
    ]

    array :
        (o : Option (List FlowSegmentPost)) (s : Option FlowSegmentPost)
        → Returns AllParsed (from_array o s)
    array (some (p ∷ ps)) s = post_array-AllParsed 0 (p ∷ ps)
    array (some []) s = single s
    array none s = single s

-- Every segment of a converted request keeps the texts that its fields were parsed from: an absent
-- field has an empty text, and the text of any other parses to the field.
pub register_params-AllParsed :
    (body : Body) (segs : List Segment) → register_params_from_api body ≡ ok segs → AllParsed segs
register_params-AllParsed body segs e = Returns-ok AllParsed _ segs (register_params-Returns body) e

-- Reading a row back.
nonempty_timestamp : (ts : Timestamp) → parse_timestamp [] ≡ ok ts → ⊥
nonempty_timestamp ts e = absurd (unfold parse_timestamp in ground arith)

nonempty_range : (tr : TimeRange) → parse [] ≡ ok tr → ⊥
nonempty_range tr e = absurd (unfold parse in cc)

parse_stored-Agrees :
    {A : Type 0} (parser : Bytes → Result ParseError A) (o : Option A) (text : Bytes)
    → ((a : A) → parser [] ≡ ok a → ⊥)
    → Agrees parser o text
    → parse_stored parser (null_if_empty text) ≡ ok o
unfolding parse_stored null_if_empty
parse_stored-Agrees parser none text bad h = rw h
parse_stored-Agrees parser (some a) [] bad h = absurd (bad a h)
parse_stored-Agrees parser (some a) (c ∷ s) bad h = rw h

or_empty-null : (text : Bytes) → or_empty (null_if_empty text) ≡ text
unfolding or_empty null_if_empty
or_empty-null [] = refl
or_empty-null (c ∷ s) = refl

-- A segment that keeps its texts comes back from its row in the table as it was: with the parsed
-- fields and, byte for byte, the texts, and with the bounds of the row.
pub scan_row-new_row :
    (id : ℕ) (flow_id : Bytes) (now : ℕ) (seg : Segment) (lower upper : ℤ)
    → IsParsed seg
    → scan_row (new_row id flow_id now seg lower upper)
      ≡ ok (record {
        seg = seg;
        flow_id = flow_id;
        created_at = now;
        lower_ns = lower;
        upper_ns = upper;
        seg_id = id;
      })
unfolding scan_row new_row
scan_row-new_row id flow_id now seg lower upper p =
    rw
      (
        p.timerange,
        parse_stored-Agrees parse_timestamp seg.ts_offset seg.ts_offset_raw nonempty_timestamp
            p.ts_offset,
        parse_stored-Agrees parse seg.object_timerange seg.object_timerange_raw nonempty_range
            p.object_timerange,
        parse_stored-Agrees parse_timestamp seg.last_duration seg.last_duration_raw
            nonempty_timestamp p.last_duration,
        or_empty-null seg.object_timerange_raw,
        or_empty-null seg.last_duration_raw,
      )
      refl

optional-optional_raw :
    {A : Type 0} (f : ParseError → FieldError) (parser : Bytes → Result ParseError A) (o : Option A)
    (text : Bytes)
    → ((a : A) → parser [] ≡ ok a → ⊥)
    → Agrees parser o text
    → optional f parser (optional_raw text) ≡ ok (o, text)
unfolding optional optional_raw named
optional-optional_raw f parser none text bad h = rw h
optional-optional_raw f parser (some a) [] bad h = absurd (bad a h)
optional-optional_raw f parser (some a) (c ∷ s) bad h = rw h

-- SegmentFromAPI reads what SegmentToAPI makes of a segment that keeps its texts as that segment,
-- but for its URLs, which are not read.
pub segment_from_api-segment_to_api :
    (seg : Segment)
    → IsParsed seg
    → segment_from_api (segment_to_api seg) ≡ ok (record seg { get_urls = [] })
unfolding segment_from_api segment_to_api set_time_fields
segment_from_api-segment_to_api seg p =
    rw
      (
        p.timerange,
        optional-optional_raw bad_ts_offset parse_timestamp seg.ts_offset seg.ts_offset_raw
            nonempty_timestamp p.ts_offset,
        optional-optional_raw bad_object_timerange parse seg.object_timerange
            seg.object_timerange_raw nonempty_range p.object_timerange,
        optional-optional_raw bad_last_duration parse_timestamp seg.last_duration
            seg.last_duration_raw nonempty_timestamp p.last_duration,
      )
      refl
