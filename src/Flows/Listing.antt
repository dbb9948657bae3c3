-- ===== src/Flows/Listing.antt =====
-- internal/metastore/flows.go, `ListFlows`, and internal/metastore/sources.go, `ListSources`. The maps
-- of tag filters are lists. `frame` is what PostgreSQL reads of `essence_parameters->>…` as an integer;
-- a value that is none is a call that fails.
use open_tams.Prelude.Result.{Result, err, ok, ◌>>=◌}
use open_tams.Prelude.{
  Bool, Option, [], false, if◌then◌else◌, none, refl, some, suc, true, ℕ, ◌&&◌, ◌<◌, ◌==◌, ◌∷◌, ◌≡◌,
  List, arith, not, map,
}
use open_tams.Prelude.Bytes.{Bytes, length, codes, bytes_eq}
use open_tams.Prelude.Int.{negsuc, pos, ℤ, eqb_ℤ}
use open_tams.Flows.{
  Db, Failing, Flow, FlowEntry, FlowError, Source, SourceRow, TagRow, calls, in_flow, is_tag,
  read_flow, read_source, scan_flow_base, scan_source, tags_of, invalid_json, bad_timerange,
}
use open_tams.Flows.Keyset.{Cursor, CursorCodec, IsCursorCodec, Unique, cut_page, fetch, ordered}
use open_tams.Flows.Follow.{decoded, follow, follow-every, sent}
use open_tams.Flows.Guards.{none_failing}
use open_tams.Prelude.Table.{exists}
use open_tams.Segments.Listing.{overlap_cond, query_bounds}
use open_tams.Segments.{SegmentRow, StoreError}
use open_tams.Timerange.{TimeRange, is_eternity}

pub record ListSourcesParams : Type 0 where
  pub limit : ℤ
  pub page_from : Option Bytes
  pub label : Option Bytes
  pub format : Option Bytes
  pub tag_exists : List Bytes
  pub tag_values : List (Bytes × Bytes)

pub record ListFlowsParams : Type 0 where
  pub source_id : Option Bytes
  pub format : Option Bytes
  pub label : Option Bytes
  pub codec : Option Bytes
  pub frame_width : Option ℤ
  pub frame_height : Option ℤ
  pub timerange : Option TimeRange
  pub tag_exists : List Bytes
  pub tag_values : List (Bytes × Bytes)
  pub limit : ℤ
  pub page_from : Option Bytes

unfoldable pub page_limit : ℤ → ℕ
page_limit (negsuc n) = 100
page_limit (pos n) = if n == 0 then 100 else n

-- `column = $n`, where the filter is given; a NULL is equal to nothing.
unfoldable pub is_wanted : Option Bytes → Option Bytes → Bool
is_wanted none column = true
is_wanted (some v) none = false
is_wanted (some v) (some c) = bytes_eq c v

unfoldable pub is_wanted_int : Option ℤ → Option ℤ → Bool
is_wanted_int none column = true
is_wanted_int (some v) none = false
is_wanted_int (some v) (some c) = eqb_ℤ c v

-- The loops on the tag filters.
unfoldable pub has_tags : Bytes → List TagRow → List Bytes → Bool
has_tags id tags [] = true
has_tags id tags (name ∷ names) = exists (is_tag id name) tags && has_tags id tags names

unfoldable pub has_tag_values : Bytes → List TagRow → List (Bytes × Bytes) → Bool
has_tag_values id tags [] = true
has_tag_values id tags (p ∷ ps) =
    exists (λ t. is_tag id p.0 t && bytes_eq t.value p.1) tags && has_tag_values id tags ps

-- The condition on the segments: none, that there are none, or that one overlaps the bounds.
unfoldable pub of_bounds {ℓ} : {A : Type ℓ} → Result StoreError A → Result FlowError (Option A)
of_bounds (ok a) = ok (some a)
of_bounds (err e) = err bad_timerange

unfoldable pub range_condition :
    Option TimeRange → Result FlowError (Option (Option (Option ℤ × Option ℤ)))
range_condition none = ok none
range_condition (some tr) = if is_eternity tr then ok none else of_bounds (query_bounds tr)

unfoldable pub in_range : Option (Option (Option ℤ × Option ℤ)) → Bytes → List SegmentRow → Bool
in_range none id segments = true
in_range (some none) id segments = not (exists (in_flow id) segments)
in_range (some (some b)) id segments = exists (λ r. in_flow id r && overlap_cond b.0 b.1 r) segments

unfoldable pub matches_flow :
    (Bytes → Option Bytes → Option ℤ)
    → ListFlowsParams
    → Option (Option (Option ℤ × Option ℤ))
    → Db
    → FlowEntry
    → Bool
matches_flow frame p range db f =
    is_wanted p.source_id (some f.source_id)
    && is_wanted p.format (some f.format)
    && is_wanted p.label f.label
    && is_wanted p.codec f.codec
    && is_wanted_int p.frame_width (frame (codes "frame_width") f.essence_parameters)
    && is_wanted_int p.frame_height (frame (codes "frame_height") f.essence_parameters)
    && in_range range f.core.id db.segments
    && has_tags f.core.id db.flow_tags p.tag_exists
    && has_tag_values f.core.id db.flow_tags p.tag_values

unfoldable pub matches_source : ListSourcesParams → Db → SourceRow → Bool
matches_source p db s =
    is_wanted p.label s.label
    && is_wanted p.format (some s.format)
    && has_tags s.id db.source_tags p.tag_exists
    && has_tag_values s.id db.source_tags p.tag_values

unfoldable pub page_cursor : CursorCodec → Option Bytes → Result FlowError (Option Cursor)
page_cursor codec token = elim (decoded codec token) [ none ↦ err invalid_json | some k ↦ ok k ]

abbrev pub flow_key : FlowEntry → Cursor
flow_key f = (f.created, f.core.id)

abbrev pub source_key : SourceRow → Cursor
source_key s = (s.created, s.id)

abbrev pub scan_flow : Db → FlowEntry → Flow
scan_flow db f = scan_flow_base (tags_of f.core.id db.flow_tags) f

abbrev pub scan_listed : Db → SourceRow → Source
scan_listed db s = scan_source (tags_of s.id db.source_tags) s

-- A `FlowPage` is its items and its cursor.
unfoldable pub list_flows :
    CursorCodec
    → (Bytes → Option Bytes → Option ℤ)
    → Failing
    → ListFlowsParams
    → Db
    → Result FlowError (List Flow × Option Bytes)
list_flows codec frame failing p db = do
  range ← range_condition p.timerange
  cursor ← page_cursor codec p.page_from
  _ ← calls failing read_flow
  ok (
      sent codec (scan_flow db) (
        cut_page flow_key (page_limit p.limit) (
          fetch flow_key (matches_flow frame p range db) cursor (suc (page_limit p.limit))
            db.flows)))

unfoldable pub list_sources :
    CursorCodec → Failing → ListSourcesParams → Db → Result FlowError (List Source × Option Bytes)
list_sources codec failing p db = do
  cursor ← page_cursor codec p.page_from
  _ ← calls failing read_source
  ok (
      sent codec (scan_listed db) (
        cut_page source_key (page_limit p.limit)
          (fetch source_key (matches_source p db) cursor (suc (page_limit p.limit)) db.sources)))

page_limit-pos : (l : ℤ) → 0 < page_limit l
unfolding page_limit
page_limit-pos (pos n) = ground arith
page_limit-pos (negsuc n) = ground arith

-- A client that follows the cursors of ListFlows from the first page on gets, where no call of the
-- database fails and no two flows share an id, every flow that the filters match, each once, ordered
-- by the time of creation and then by id, whatever the limit of a page is; it needs fuel for
-- one call more than there are such flows.
pub list_flows-every :
    (codec : CursorCodec) (frame : Bytes → Option Bytes → Option ℤ) (p : ListFlowsParams) (db : Db)
    (range : Option (Option (Option ℤ × Option ℤ))) (fuel : ℕ)
    → IsCursorCodec codec
    → Unique flow_key db.flows
    → range_condition p.timerange ≡ ok range
    → length (ordered flow_key (matches_flow frame p range db) db.flows) < fuel
    → follow
        (λ token. list_flows codec frame none_failing (record p { page_from = token }) db)
        fuel
        none
      ≡ ok (map (scan_flow db) (ordered flow_key (matches_flow frame p range db) db.flows))
unfolding list_flows page_cursor matches_flow
list_flows-every codec frame p db range fuel lawful unique r f =
    follow-every flow_key (scan_flow db) codec lawful (matches_flow frame p range db) db.flows
      unique (page_limit p.limit) (page_limit-pos p.limit)
      (λ token. list_flows codec frame none_failing (record p { page_from = token }) db)
      (λ token cursor d. rw (list_flows, r, page_cursor, d) refl) fuel f

-- A client that follows the cursors of ListSources from the first page on gets, where no call of the
-- database fails and no two sources share an id, every source that the filters match, each once,
-- ordered by the time of creation and then by id, whatever the limit of a page is; it needs fuel for
-- one call more than there are such sources.
pub list_sources-every :
    (codec : CursorCodec) (p : ListSourcesParams) (db : Db) (fuel : ℕ)
    → IsCursorCodec codec
    → Unique source_key db.sources
    → length (ordered source_key (matches_source p db) db.sources) < fuel
    → follow
        (λ token. list_sources codec none_failing (record p { page_from = token }) db)
        fuel
        none
      ≡ ok (map (scan_listed db) (ordered source_key (matches_source p db) db.sources))
unfolding list_sources page_cursor matches_source
list_sources-every codec p db fuel lawful unique f =
    follow-every source_key (scan_listed db) codec lawful (matches_source p db) db.sources unique
      (page_limit p.limit) (page_limit-pos p.limit)
      (λ token. list_sources codec none_failing (record p { page_from = token }) db)
      (λ token cursor d. rw (list_sources, page_cursor, d) refl) fuel f
