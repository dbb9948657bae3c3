-- ===== src/Handlers/Filters.antt =====
-- internal/httpx/handlers/flows.go: which flows GET /flows lists, by the filters of the request that
-- are read.
use open_tams.Prelude.Sort.{select}
use open_tams.Prelude.Members.{mem-sort, mem-select}
use open_tams.Flows.Wanted.{
  IsAsked, IsTimely, IsAsked-is_wanted, is_wanted-IsAsked, IsAsked-is_wanted_int, IsTimely-in_range,
  is_wanted_int-IsAsked, in_range-IsTimely,
}
use open_tams.Flows.Listing.{range_condition, flow_key, matches_flow, has_tags, has_tag_values}
use open_tams.Flows.{Db, FlowEntry}
use open_tams.Timerange.{TimeRange}
use open_tams.Handlers.Listings.{GetFlowsParams, parsed_source, flows_filter}
use open_tams.Handlers.FlowBodies.{FlowEnv}
use open_tams.Prelude.Int.{ℤ}
use open_tams.Prelude.Bytes.{Bytes, codes}
use open_tams.Flows.Keyset.{ordered, row_lt}
use open_tams.Prelude.Result.{ok}
use open_tams.Prelude.{refl, some, true, ◌↔◌, ◌≡◌, Option, arith}
use mathlib.Core.List.{Mem}

-- The filters on the source, where it is the text of an id, the format, the label, the codec, the
-- width and height of a frame and the time range.
pub record IsListed (frame : Bytes → Option Bytes → Option ℤ) (env : FlowEnv)
    (params : GetFlowsParams) (range : Option TimeRange) (db : Db) (f : FlowEntry) : Type 0 where
  pub source : IsAsked (parsed_source env params.source_id) (some f.source_id)
  pub format : IsAsked params.format (some f.format)
  pub label : IsAsked params.label f.label
  pub codec : IsAsked params.codec f.codec
  pub width : IsAsked params.frame_width (frame (codes "frame_width") f.essence_parameters)
  pub height : IsAsked params.frame_height (frame (codes "frame_height") f.essence_parameters)
  pub timely : IsTimely f.core.id db.segments range

module _ (frame : Bytes → Option Bytes → Option ℤ) (env : FlowEnv) (params : GetFlowsParams)
    (range : Option TimeRange) (db : Db) (f : FlowEntry)
    (condition : Option (Option (Option ℤ × Option ℤ)))
    (q : range_condition range ≡ ok condition) where
  matches_flow-IsListed :
      matches_flow frame (flows_filter env params range) condition db f ≡ true
      → IsListed frame env params range db f
  unfolding matches_flow flows_filter has_tags has_tag_values
  matches_flow-IsListed h = record {
    source = is_wanted-IsAsked _ _ (ground arith);
    format = is_wanted-IsAsked _ _ (ground arith);
    label = is_wanted-IsAsked _ _ (ground arith);
    codec = is_wanted-IsAsked _ _ (ground arith);
    width = is_wanted_int-IsAsked _ _ (ground arith);
    height = is_wanted_int-IsAsked _ _ (ground arith);
    timely = in_range-IsTimely f.core.id db.segments range condition q (ground arith);
  }

  IsListed-matches_flow :
      IsListed frame env params range db f
      → matches_flow frame (flows_filter env params range) condition db f ≡ true
  unfolding matches_flow flows_filter has_tags has_tag_values
  IsListed-matches_flow h =
      rw
        (
          IsAsked-is_wanted _ _ h.source,
          IsAsked-is_wanted _ _ h.format,
          IsAsked-is_wanted _ _ h.label,
          IsAsked-is_wanted _ _ h.codec,
          IsAsked-is_wanted_int _ _ h.width,
          IsAsked-is_wanted_int _ _ h.height,
          IsTimely-in_range f.core.id db.segments condition q h.timely,
        )
        refl

-- The members of the listing.
pub mem-IsListed :
    (frame : Bytes → Option Bytes → Option ℤ) (env : FlowEnv) (params : GetFlowsParams)
    (range : Option TimeRange) (db : Db) (condition : Option (Option (Option ℤ × Option ℤ)))
    → range_condition range ≡ ok condition
    → (f : FlowEntry)
    → Mem f (
        ordered flow_key (matches_flow frame (flows_filter env params range) condition db) db.flows)
      ↔ (Mem f db.flows × IsListed frame env params range db f)
unfolding ordered
mem-IsListed frame env params range db condition q f =
    let passes = matches_flow frame (flows_filter env params range) condition db in
    let sorted = mem-sort (row_lt flow_key) (select passes db.flows) in
    let chosen = mem-select passes db.flows in
    (
      λ m.
          let (there, h) = chosen.0 (sorted.0 m) in
          (there, matches_flow-IsListed frame env params range db f condition q h),
      λ m.
          sorted.1
            (chosen.1 (m.0, IsListed-matches_flow frame env params range db f condition q m.1)),
    )
