-- ===== src/Segments/Listing.antt =====
-- internal/metastore/segments.go, `ListSegments` and what it calls, with the cursor of
-- internal/metastore/store.go. The fields of `ListQuery` that the store does not read are left out.
-- `encoding/json` and `encoding/base64` are a parameter of the model.
use open_tams.Segments.Insert.{lower_param, null_if_empty, upper_param}
use open_tams.Timerange.Nanos.{ns_bounds}
use open_tams.Timerange.Text.{ParseError, parse, parse_timestamp}
use open_tams.Prelude.Sort.{take, sort, select, last?}
use open_tams.Segments.Write.{join_span}
use open_tams.Prelude.Int.{ℤ, ltb_ℤ, pos, eqb_ℤ, negsuc, FitsInt64}
use open_tams.Timerange.{TimeRange, is_empty}
use open_tams.Segments.{
  Faults, Segment, SegmentRow, StoreError, Store, FlowRow, invalid_cursor, flow_not_found,
  bad_stored_text, nil_dereference, of_ns, call, query, read_flow, find_flow,
}
use open_tams.Prelude.Result.{Result, err, ok, ◌>>=◌}
use open_tams.Prelude.{
  Bool, List, Option, [], false, if◌then◌else◌, none, some, true, ℕ, ◌&&◌, ◌+◌, ◌==◌, ◌||◌, ◌∷◌,
  ◌≡◌, ltb,
}
use open_tams.Prelude.Bytes.{Bytes, length, bytes_eq, is_nil}

-- The library functions on the pair that a cursor holds: `json.Marshal` and `json.Unmarshal` of the
-- struct of two int64 values, and the two directions of `base64.RawURLEncoding`.
pub record Codec : Type 0 where
  pub marshal : ℤ → ℤ → Bytes
  pub unmarshal : Bytes → Option (ℤ × ℤ)
  pub encode_to_string : Bytes → Bytes
  pub decode_string : Bytes → Option Bytes

-- What these libraries document: decoding undoes encoding, and a JSON object is not an empty text,
-- nor is its encoding.
pub record IsCodec (c : Codec) : Type 0 where
  pub unmarshal-marshal :
      (a b : ℤ) → FitsInt64 a → FitsInt64 b → c.unmarshal (c.marshal a b) ≡ some (a, b)
  pub decode-encode : (s : Bytes) → c.decode_string (c.encode_to_string s) ≡ some s
  pub marshal-nonempty : (a b : ℤ) → is_nil (c.marshal a b) ≡ false
  pub encode-nonempty : (s : Bytes) → is_nil s ≡ false → is_nil (c.encode_to_string s) ≡ false

unfoldable pub encode_seg_cursor : Codec → ℤ → ℤ → Bytes
encode_seg_cursor c lower_ns seg_id = c.encode_to_string (c.marshal lower_ns seg_id)

unfoldable pub decode_seg_cursor : Codec → Bytes → Option (ℤ × ℤ)
decode_seg_cursor c s = elim (c.decode_string s) [ none ↦ none | some b ↦ c.unmarshal b ]

pub record ListQuery : Type 0 where
  pub flow_id : Bytes
  pub timerange : Option TimeRange
  pub object_id : Option Bytes
  pub reverse_order : Bool
  pub page : Bytes
  pub limit : ℤ

-- The struct `segmentRow`, with the flow and the creation time of its segment.
pub record Item : Type 0 where
  pub seg : Segment
  pub flow_id : Bytes
  pub created_at : ℕ
  pub lower_ns : ℤ
  pub upper_ns : ℤ
  pub seg_id : ℕ

pub record Page : Type 0 where
  pub items : List Item
  pub next_cursor : Bytes
  pub effective_limit : ℕ
  pub timerange : Option TimeRange
  pub count : ℕ

abbrev pub hard_limit : ℕ
hard_limit = 1000

unfoldable pub clamp_limit : ℤ → ℕ
clamp_limit (negsuc n) = hard_limit
clamp_limit (pos n) = if n == 0 || ltb hard_limit n then hard_limit else n

-- `overlapCond` on the parameters of the query: a NULL lets every row pass.
unfoldable pub overlap_cond : Option ℤ → Option ℤ → SegmentRow → Bool
overlap_cond lo hi r =
    elim hi [ none ↦ true | some h ↦ ltb_ℤ r.lower_ns h ]
    && elim lo [ none ↦ true | some l ↦ ltb_ℤ l r.upper_ns ]

-- `queryBounds`; `none` is the range that matches nothing.
unfoldable pub query_bounds : TimeRange → Result StoreError (Option (Option ℤ × Option ℤ))
query_bounds tr =
    if is_empty tr
    then ok none
    else do b ← of_ns (ns_bounds tr); ok (some (lower_param b, upper_param b))

-- The bounds of the query, without any where it names no range.
unfoldable pub wanted_bounds : Option TimeRange → Result StoreError (Option (Option ℤ × Option ℤ))
wanted_bounds none = ok (some (none, none))
wanted_bounds (some tr) = query_bounds tr

-- The `WHERE` before the cursor.
unfoldable pub matches : Bytes → Option Bytes → Option ℤ × Option ℤ → SegmentRow → Bool
matches flow_id object bounds r =
    bytes_eq r.flow_id flow_id
    && overlap_cond bounds.0 bounds.1 r
    && elim object [ none ↦ true | some o ↦ bytes_eq r.segment_object o ]

-- `(a, i) < (b, j)` on the columns lower_ns and id.
abbrev pub key_lt : ℤ → ℤ → ℤ → ℤ → Bool
key_lt a i b j = ltb_ℤ a b || (eqb_ℤ a b && ltb_ℤ i j)

-- The order of the rows, and the rows behind a cursor.
unfoldable pub precedes : Bool → SegmentRow → SegmentRow → Bool
precedes reverse q r =
    if reverse
    then key_lt r.lower_ns (pos r.id) q.lower_ns (pos q.id)
    else key_lt q.lower_ns (pos q.id) r.lower_ns (pos r.id)

unfoldable pub beyond : Bool → ℤ × ℤ → SegmentRow → Bool
beyond reverse k r =
    if reverse then key_lt r.lower_ns (pos r.id) k.0 k.1 else key_lt k.0 k.1 r.lower_ns (pos r.id)

unfoldable pub decode_page : Codec → Bytes → Result StoreError (Option (ℤ × ℤ))
decode_page c page =
    if is_nil page
    then ok none
    else elim (decode_seg_cursor c page) [ none ↦ err invalid_cursor | some k ↦ ok (some k) ]

unfoldable pub is_behind : Bool → Option (ℤ × ℤ) → SegmentRow → Bool
is_behind reverse none r = true
is_behind reverse (some k) r = beyond reverse k r

-- `SELECT … WHERE … ORDER BY … LIMIT …`.
unfoldable pub query_rows : Bool → (SegmentRow → Bool) → ℕ → List SegmentRow → List SegmentRow
query_rows reverse passes n rows = take n (sort (precedes reverse) (select passes rows))

-- One row of the result, whose texts are parsed again.
unfoldable pub of_text {ℓ} : {A : Type ℓ} → Result ParseError A → Result StoreError A
of_text (ok a) = ok a
of_text (err e) = err bad_stored_text

unfoldable pub parse_stored {ℓ} :
    {A : Type ℓ} → (Bytes → Result ParseError A) → Option Bytes → Result StoreError (Option A)
unfolding of_text
parse_stored p none = ok none
parse_stored p (some text) = do a ← of_text (p text); ok (some a)

unfoldable pub or_empty : Option Bytes → Bytes
or_empty none = []
or_empty (some s) = s

unfoldable pub scan_row : SegmentRow → Result StoreError Item
unfolding of_text
scan_row r = do
  tr ← of_text (parse r.stored_timerange)
  offset ← parse_stored parse_timestamp (null_if_empty r.stored_ts_offset)
  object_range ← parse_stored parse r.stored_object_timerange
  duration ← parse_stored parse_timestamp r.stored_last_duration
  ok (record {
    seg = record {
      object_id = r.segment_object;
      timerange = tr;
      ts_offset = offset;
      object_timerange = object_range;
      last_duration = duration;
      key_frame_count = r.stored_key_frames;
      get_urls = r.stored_urls;
      timerange_raw = r.stored_timerange;
      ts_offset_raw = r.stored_ts_offset;
      object_timerange_raw = or_empty r.stored_object_timerange;
      last_duration_raw = or_empty r.stored_last_duration;
      sample_offset = r.stored_sample_offset;
      sample_count = r.stored_sample_count;
    };
    flow_id = r.flow_id;
    created_at = r.created_at;
    lower_ns = r.lower_ns;
    upper_ns = r.upper_ns;
    seg_id = r.id;
  })

unfoldable pub scan_all : List SegmentRow → Result StoreError (List Item)
scan_all [] = ok []
scan_all (r ∷ rs) = do i ← scan_row r; is ← scan_all rs; ok (i ∷ is)

-- The two indices of `pageSpan`, which moves only to a strictly better item.
unfoldable pub earliest_item : Item → List Item → Item
earliest_item first [] = first
earliest_item first (i ∷ is) =
    earliest_item (if ltb_ℤ i.lower_ns first.lower_ns then i else first) is

unfoldable pub latest_item : Item → List Item → Item
latest_item last [] = last
latest_item last (i ∷ is) = latest_item (if ltb_ℤ last.upper_ns i.upper_ns then i else last) is

unfoldable pub page_span : List Item → Option TimeRange
unfolding earliest_item latest_item
page_span [] = none
page_span (i ∷ is) =
    some (join_span (earliest_item i (i ∷ is)).seg.timerange (latest_item i (i ∷ is)).seg.timerange)

unfoldable pub page_of : ℕ → Bytes → List Item → Page
page_of limit cursor items = record {
  items = items;
  next_cursor = cursor;
  effective_limit = limit;
  timerange = page_span items;
  count = length items;
}

-- `items[limit-1]` stands in the cursor if there are more than `limit` items.
unfoldable pub make_page : Codec → ℕ → List Item → Result StoreError Page
make_page c limit items =
    if ltb limit (length items)
    then elim (last? (take limit items)) [
      | none ↦ err nil_dereference
      | some last ↦
          ok
            (page_of limit (encode_seg_cursor c last.lower_ns (pos last.seg_id)) (take limit items))
    ]
    else ok (page_of limit [] items)

-- `GetFlowForSegmentRead` and the test on its result.
unfoldable pub check_exists : Option FlowRow → Result StoreError (Unit {0})
check_exists none = err flow_not_found
check_exists (some f) = ok tt

unfoldable pub read_page :
    Codec → Faults → ListQuery → Option ℤ × Option ℤ → List SegmentRow → Result StoreError Page
read_page c faults q bounds rows = do
  cursor ← decode_page c q.page
  _ ← call faults query
  items ← scan_all (
      query_rows q.reverse_order
        (λ r. matches q.flow_id q.object_id bounds r && is_behind q.reverse_order cursor r)
        (clamp_limit q.limit + 1) rows)
  make_page c (clamp_limit q.limit) items

unfoldable pub list_segments : Codec → Faults → ListQuery → Store → Result StoreError Page
list_segments c faults q s = do
  _ ← call faults read_flow
  _ ← check_exists (find_flow q.flow_id s.flows)
  wanted ← wanted_bounds q.timerange
  elim wanted [
    | none ↦ ok (page_of (clamp_limit q.limit) [] [])
    | some bounds ↦ read_page c faults q bounds s.segments
  ]
