-- ===== src/Flows/Wanted.antt =====
-- internal/metastore/flows.go: which flows the `WHERE` of `ListFlows` lets pass.
use open_tams.Prelude.Members.{exists_iff}
use mathlib.Core.List.{Mem}
use open_tams.Flows.{in_flow}
use open_tams.Timerange.{TimeRange, is_eternity, is_empty}
use open_tams.Prelude.Sort.{All}
use open_tams.Segments.Insert.{lower_param, upper_param}
use open_tams.Segments.{SegmentRow, of_ns}
use open_tams.Prelude.Result.{ok, Result-cases}
use open_tams.Timerange.Nanos.{NsBounds, ns_bounds}
use open_tams.Prelude.Bytes.{Bytes, bytes_eq_refl, bytes_eq_iff}
use open_tams.Prelude.Int.{◌<ℤ◌, ℤ}
use open_tams.Flows.Listing.{is_wanted, is_wanted_int, in_range, range_condition, of_bounds}
use open_tams.Segments.Listing.{overlap_cond, query_bounds}
use open_tams.Prelude.Table.{exists}
use open_tams.Prelude.{
  Option, [], false, inl, inr, none, refl, some, true, ◌↔◌, ◌∷◌, ◌≡◌, ◌≢◌, ◌⊎◌, List, ap, arith,
  ◌&&◌, sym, Bool-cases,
}

-- A filter that is not given, or a column that has its value.
abbrev pub IsAsked : {A : Type 0} → Option A → Option A → Type 0
IsAsked {A} wanted column = (wanted ≡ none) ⊎ ((v : A) × (wanted ≡ some v) × (column ≡ some v))

-- A row that shares a nanosecond with the bounds.
abbrev pub Meets : NsBounds → SegmentRow → Type 0
Meets b r =
    ((b.lower_unbounded ≡ true) ⊎ (b.lower <ℤ r.upper_ns))
    × ((b.upper_unbounded ≡ true) ⊎ (r.lower_ns <ℤ b.upper))

-- The filter on the time range: none and the range of all time let every flow pass, an empty range the
-- flows without a segment, and any other those of which a segment meets its bounds.
pub data IsTimely (id : Bytes) (segments : List SegmentRow) : Option TimeRange → Type 0 where
  absent : IsTimely id segments none
  eternal : (t : TimeRange) → is_eternity t ≡ true → IsTimely id segments (some t)
  vacant :
      (t : TimeRange)
      → is_eternity t ≡ false
      → is_empty t ≡ true
      → All (λ r. r.flow_id ≢ id) segments
      → IsTimely id segments (some t)
  met :
      (t : TimeRange) (b : NsBounds) (r : SegmentRow)
      → is_eternity t ≡ false
      → is_empty t ≡ false
      → ns_bounds t ≡ ok b
      → Mem r segments
      → r.flow_id ≡ id
      → Meets b r
      → IsTimely id segments (some t)

pub is_wanted-IsAsked : (w c : Option Bytes) → is_wanted w c ≡ true → IsAsked w c
unfolding is_wanted
is_wanted-IsAsked none c h = inl refl
is_wanted-IsAsked (some v) none h = absurd (cc)
is_wanted-IsAsked (some v) (some c) h = inr (v, refl, ap some ((bytes_eq_iff c v).0 h))

pub IsAsked-is_wanted : (w c : Option Bytes) → IsAsked w c → is_wanted w c ≡ true
unfolding is_wanted
IsAsked-is_wanted w c (inl e) = rw e refl
IsAsked-is_wanted w c (inr (v, e, f)) = rw (e, f) (bytes_eq_refl v)

pub is_wanted_int-IsAsked : (w c : Option ℤ) → is_wanted_int w c ≡ true → IsAsked w c
unfolding is_wanted_int
is_wanted_int-IsAsked none c h = inl refl
is_wanted_int-IsAsked (some v) none h = absurd (cc)
is_wanted_int-IsAsked (some v) (some c) h =
    let same : c ≡ v = ground arith in inr (v, refl, ap some same)

pub IsAsked-is_wanted_int : (w c : Option ℤ) → IsAsked w c → is_wanted_int w c ≡ true
unfolding is_wanted_int
IsAsked-is_wanted_int w c (inl e) = rw e refl
IsAsked-is_wanted_int w c (inr (v, e, f)) = rw (e, f) (ground arith)

no_row :
    (id : Bytes) (segments : List SegmentRow)
    → exists (in_flow id) segments ≡ false
    → All (λ r. r.flow_id ≢ id) segments
unfolding exists
no_row id [] h = tt
no_row id (r ∷ rs) h = (ground (arith, bytes_eq_iff r.flow_id id), no_row id rs (ground arith))

no_row-exists :
    (id : Bytes) (segments : List SegmentRow)
    → All (λ r. r.flow_id ≢ id) segments
    → exists (in_flow id) segments ≡ false
unfolding exists
no_row-exists id [] h = refl
no_row-exists id (r ∷ rs) h =
    let rest = no_row-exists id rs h.1 in let n = h.0 in ground (arith, bytes_eq_iff r.flow_id id)

overlap_cond-Meets :
    (b : NsBounds) (r : SegmentRow)
    → (overlap_cond (lower_param b) (upper_param b) r ≡ true) ↔ Meets b r
unfolding overlap_cond lower_param upper_param
overlap_cond-Meets b r = (λ h. ground arith, λ h. ground arith)

in_range-some :
    (b : NsBounds) (id : Bytes) (segments : List SegmentRow)
    → (in_range (some (some (lower_param b, upper_param b))) id segments ≡ true)
      ↔ ((r : SegmentRow) × Mem r segments × (r.flow_id ≡ id) × Meets b r)
unfolding in_range
in_range-some b id segments =
    let rows =
      exists_iff (λ r. in_flow id r && overlap_cond (lower_param b) (upper_param b) r) segments in
    (
      λ h.
          let (r, m, k) = rows.0 h in
          (
            r,
            m,
            ground (arith, bytes_eq_iff r.flow_id id),
            (overlap_cond-Meets b r).0 (ground arith),
          ),
      λ h.
          let (r, m, same, meets) = h in
          let both : (in_flow id r && overlap_cond (lower_param b) (upper_param b) r) ≡ true =
            ground (arith, bytes_eq_iff r.flow_id id, (overlap_cond-Meets b r).1 meets) in
          rows.1 (r, m, both),
    )

query_bounds-ok :
    (t : TimeRange) (range : Option (Option (Option ℤ × Option ℤ)))
    → is_eternity t ≡ false
    → is_empty t ≡ false
    → range_condition (some t) ≡ ok range
    → (b : NsBounds) × (ns_bounds t ≡ ok b) × (range ≡ some (some (lower_param b, upper_param b)))
unfolding range_condition query_bounds of_bounds of_ns
query_bounds-ok t range e f q = elim (Result-cases (ns_bounds t)) [
  | inl (b, n) ↦ (b, n, ground arith)
  | inr (x, n) ↦ absurd (ground arith)
]

range_condition-eternal :
    (t : TimeRange) (range : Option (Option (Option ℤ × Option ℤ)))
    → is_eternity t ≡ true
    → range_condition (some t) ≡ ok range
    → range ≡ none
unfolding range_condition
range_condition-eternal t range e q = ground arith

range_condition-empty :
    (t : TimeRange) (range : Option (Option (Option ℤ × Option ℤ)))
    → is_eternity t ≡ false
    → is_empty t ≡ true
    → range_condition (some t) ≡ ok range
    → range ≡ some none
unfolding range_condition query_bounds of_bounds
range_condition-empty t range e f q = ground arith

module _ (id : Bytes) (segments : List SegmentRow) where
  pub in_range-IsTimely :
      (o : Option TimeRange) (range : Option (Option (Option ℤ × Option ℤ)))
      → range_condition o ≡ ok range
      → in_range range id segments ≡ true
      → IsTimely id segments o
  in_range-IsTimely none range q h = absent
  in_range-IsTimely (some t) range q h = elim (Bool-cases (is_eternity t)) [
    | inl e ↦ eternal t e
    | inr e ↦ elim (Bool-cases (is_empty t)) [
      | inl f ↦
          let same = range_condition-empty t range e f q in
          vacant t e f (no_row id segments (unfold in_range in ground arith))
      | inr f ↦
          let (b, n, same) = query_bounds-ok t range e f q in
          let (r, m, owned, meets) = (in_range-some b id segments).0 (rw same at h) in
          met t b r e f n m owned meets
    ]
  ]

  pub IsTimely-in_range :
      {o : Option TimeRange} (range : Option (Option (Option ℤ × Option ℤ)))
      → range_condition o ≡ ok range
      → IsTimely id segments o
      → in_range range id segments ≡ true
  IsTimely-in_range range q absent =
      let same : range ≡ none = unfold range_condition in cc in rw same (unfold in_range in refl)
  IsTimely-in_range range q (eternal t e) =
      rw (range_condition-eternal t range e q) (unfold in_range in refl)
  IsTimely-in_range range q (vacant t e f n) =
      rw (range_condition-empty t range e f q)
        (unfold in_range in rw (no_row-exists id segments n) refl)
  IsTimely-in_range range q (met t b r e f n m owned meets) =
      let (c, k, same) = query_bounds-ok t range e f q in
      let bounds : b ≡ c = cc in
      rw (same, sym bounds) ((in_range-some b id segments).1 (r, m, owned, meets))
