-- ===== src/Segments/Refresh.antt =====
-- internal/metastore/segments.go, `refreshFlowTimerange` and `flowSpan`: what is written to the flows,
-- told from the rows and without the functions that compute it.
use mathlib.Core.Path.{subst}
use mathlib.Core.Path.{subst}
use open_tams.Timerange.Text.{parse, range_text}
use open_tams.Segments.Span.{
  Picked, pick-holds, StartsBy, first_row-StartsBy, pick-cases, pick-none,
}
use open_tams.Timerange.{TimeRange}
use open_tams.Prelude.Sort.{All, All-map}
use open_tams.Segments.{SegmentRow, FlowRow, Faults, find_span, set_flow}
use open_tams.Prelude.Bytes.{Bytes, bytes_eq, bytes_eq_iff}
use open_tams.Segments.Write.{
  set_span, first_row, starts_before, span_text, refresh_flow_timerange, last_row, flow_span,
  join_span, starts_behind,
}
use open_tams.Prelude.Result.{ok, Result-cases, Returns}
use open_tams.Prelude.Int.{◌≤ℤ◌}
use open_tams.Prelude.{
  [], false, inl, inr, none, some, ◌∷◌, ◌≡◌, ◌≢◌, ◌⊎◌, List, ℕ, Option, Bool-cases, arith, refl,
  Option-cases,
}
use mathlib.Core.List.{Mem, mem-cons_self, mem-cons_of_mem}

-- The flows before and after: the flow of an id gets a time range and a time of its segments'
-- update, and nothing else of it and nothing of any other flow is changed.
pub data Rewritten (now : ℕ) (flow_id : Bytes) (span : Option Bytes)
    : List FlowRow → List FlowRow → Type 0 where
  nil : Rewritten now flow_id span [] []
  written :
      (f : FlowRow) (fs gs : List FlowRow)
      → f.id ≡ flow_id
      → Rewritten now flow_id span fs gs
      → Rewritten now flow_id span
          (f ∷ fs)
          (record f { flow_timerange = span; segments_updated = some now } ∷ gs)
  other :
      (f : FlowRow) (fs gs : List FlowRow)
      → f.id ≢ flow_id
      → Rewritten now flow_id span fs gs
      → Rewritten now flow_id span (f ∷ fs) (f ∷ gs)

set_span-Rewritten :
    (now : ℕ) (flow_id : Bytes) (span : Option Bytes) (flows : List FlowRow)
    → Rewritten now flow_id span flows (set_span now flow_id span flows)
unfolding set_span
set_span-Rewritten now flow_id span [] = nil
set_span-Rewritten now flow_id span (f ∷ fs) = elim (Bool-cases (bytes_eq f.id flow_id)) [
  | inl e ↦ rw e (
      Rewritten.written f fs _ (ground (arith, bytes_eq_iff f.id flow_id))
        (set_span-Rewritten now flow_id span fs))
  | inr e ↦ rw e (
      other f fs _ (ground (arith, bytes_eq_iff f.id flow_id))
        (set_span-Rewritten now flow_id span fs))
]

-- A row of the flow before which none of the flow's rows starts, and one behind whose start none does.
abbrev pub IsFirst : Bytes → List SegmentRow → SegmentRow → Type 0
IsFirst flow_id rows q =
    Mem q rows
    × (q.flow_id ≡ flow_id)
    × All (λ r. (r.flow_id ≢ flow_id) ⊎ (q.lower_ns ≤ℤ r.lower_ns)) rows

abbrev pub IsLast : Bytes → List SegmentRow → SegmentRow → Type 0
IsLast flow_id rows q =
    Mem q rows
    × (q.flow_id ≡ flow_id)
    × All (λ r. (r.flow_id ≢ flow_id) ⊎ (r.lower_ns ≤ℤ q.lower_ns)) rows

-- The text of a flow's time range: none where the flow has no row, else that of the range from the
-- start of a first row to the end of a last one, as the texts that the two rows store say it.
pub data IsSpan (flow_id : Bytes) (rows : List SegmentRow) : Option Bytes → Type 0 where
  vacant : All (λ r. r.flow_id ≢ flow_id) rows → IsSpan flow_id rows none
  joined :
      (a b : SegmentRow) (first last : TimeRange) (text : Bytes)
      → IsFirst flow_id rows a
      → IsLast flow_id rows b
      → parse a.stored_timerange ≡ ok first
      → parse b.stored_timerange ≡ ok last
      → range_text (record {
        start = first.start;
        start_type = first.start_type;
        end = last.end;
        end_type = last.end_type;
      })
        ≡ some text
      → IsSpan flow_id rows (some text)

All-Mem : (rows : List SegmentRow) → All (λ r. Mem r rows) rows
All-Mem [] = tt
All-Mem (r ∷ rs) = (mem-cons_self, All-map _ _ rs (λ x m. mem-cons_of_mem r m) (All-Mem rs))

All-other :
    (flow_id : Bytes) (rows : List SegmentRow)
    → All (λ r. bytes_eq r.flow_id flow_id ≡ false) rows
    → All (λ r. r.flow_id ≢ flow_id) rows
All-other flow_id rows = All-map _ _ rows (λ r e. ground (arith, bytes_eq_iff r.flow_id flow_id))

first_row-IsFirst :
    (flow_id : Bytes) (rows : List SegmentRow) (q : SegmentRow)
    → first_row flow_id rows ≡ some q
    → IsFirst flow_id rows q
first_row-IsFirst flow_id rows q e =
    let (m, same) =
      pick-holds starts_before flow_id (λ r. Mem r rows) rows q (All-Mem rows)
        (unfold first_row in e) in
    (
      m,
      same,
      All-map (StartsBy flow_id q) _ rows (λ r h. ground (arith, h, bytes_eq_iff r.flow_id flow_id))
          (first_row-StartsBy flow_id rows q e),
    )

abbrev StartsLate : Bytes → SegmentRow → SegmentRow → Type 0
StartsLate flow_id q r = (r.flow_id ≢ flow_id) ⊎ (r.lower_ns ≤ℤ q.lower_ns)

last_row-StartsLate :
    (flow_id : Bytes) (rows : List SegmentRow) (q : SegmentRow)
    → last_row flow_id rows ≡ some q
    → All (StartsLate flow_id q) rows
unfolding last_row
last_row-StartsLate flow_id [] q e = tt
last_row-StartsLate flow_id (r ∷ rs) q e = elim (pick-cases starts_behind flow_id r rs q e) [
  | Picked.other n x ↦
      (inl (ground (arith, bytes_eq_iff r.flow_id flow_id)), last_row-StartsLate flow_id rs q x)
  | Picked.only m x y ↦ (
    inr (rw y (omega arith)),
    All-map _ (StartsLate flow_id q) rs (λ p n. inl n)
        (All-other flow_id rs (pick-none starts_behind flow_id rs x)),
  )
  | Picked.kept m x y ↦ (inr (ground arith), last_row-StartsLate flow_id rs q x)
  | Picked.newer t m x y z ↦
      subst (λ w. All (StartsLate flow_id w) (r ∷ rs)) z
        (
          inr (omega arith),
          All-map (StartsLate flow_id t) (StartsLate flow_id r) rs (λ p h. ground (arith, h))
              (last_row-StartsLate flow_id rs t x),
        )
]

last_row-IsLast :
    (flow_id : Bytes) (rows : List SegmentRow) (q : SegmentRow)
    → last_row flow_id rows ≡ some q
    → IsLast flow_id rows q
last_row-IsLast flow_id rows q e =
    let (m, same) =
      pick-holds starts_behind flow_id (λ r. Mem r rows) rows q (All-Mem rows)
        (unfold last_row in e) in
    (m, same, last_row-StartsLate flow_id rows q e)

-- The text of two rows, where there is one.
span_text-joined :
    (a b : SegmentRow) (span : Option Bytes)
    → span_text (some a) (some b) ≡ ok span
    → (first last : TimeRange) × (text : Bytes) × (parse a.stored_timerange ≡ ok first)
      × (parse b.stored_timerange ≡ ok last)
      × (range_text (join_span first last) ≡ some text)
      × (span ≡ some text)
unfolding span_text
span_text-joined a b span e = elim (Result-cases (parse a.stored_timerange)) [
  | inr (x, p) ↦ absurd (ground arith)
  | inl (first, p) ↦ elim (Result-cases (parse b.stored_timerange)) [
    | inr (x, q) ↦ absurd (ground arith)
    | inl (last, q) ↦ elim (Option-cases (range_text (join_span first last))) [
      | inl r ↦ absurd (ground arith)
      | inr (text, r) ↦ (first, last, text, p, q, r, ground arith)
    ]
  ]
]

span_text-IsSpan :
    (flow_id : Bytes) (rows : List SegmentRow) (span : Option Bytes)
    → span_text (first_row flow_id rows) (last_row flow_id rows) ≡ ok span
    → IsSpan flow_id rows span
span_text-IsSpan flow_id rows span e = elim (Option-cases (first_row flow_id rows)) [
  | inl f ↦
      let h : span ≡ none = unfold span_text in ground arith in
      rw h (
        vacant
          (All-other flow_id rows (pick-none starts_before flow_id rows (unfold first_row in f))))
  | inr (a, f) ↦ elim (Option-cases (last_row flow_id rows)) [
    | inl l ↦
        let h : span ≡ none = unfold span_text in ground arith in
        rw h (
          vacant
            (All-other flow_id rows (pick-none starts_behind flow_id rows (unfold last_row in l))))
    | inr (b, l) ↦
        let (first, last, text, p, q, r, s) = span_text-joined a b span (rw (f, l) at e) in
        rw s (
          joined a b first last text (first_row-IsFirst flow_id rows a f)
            (last_row-IsLast flow_id rows b l) p q (unfold join_span in r))
  ]
]

-- The flows afterwards: the written one has the span of its rows, and no other changes.
pub record IsRefreshed (now : ℕ) (flow_id : Bytes) (rows : List SegmentRow)
    (flows flows' : List FlowRow) : Type 0 where
  pub span : Option Bytes
  pub covering : IsSpan flow_id rows span
  pub rewritten : Rewritten now flow_id span flows flows'
  pub written : flows' ≡ set_span now flow_id span flows

pub refresh-IsRefreshed :
    (faults : Faults) (now : ℕ) (flow_id : Bytes) (rows : List SegmentRow) (flows : List FlowRow)
    → Returns
        (IsRefreshed now flow_id rows flows)
        (refresh_flow_timerange faults now flow_id rows flows)
unfolding refresh_flow_timerange flow_span
refresh-IsRefreshed faults now flow_id rows flows = elim (Bool-cases (faults find_span)) [
  | inl e ↦ rw e tt
  | inr e ↦ elim (Result-cases (span_text (first_row flow_id rows) (last_row flow_id rows))) [
    | inr (x, p) ↦ rw (e, p) tt
    | inl (span, p) ↦ elim (Bool-cases (faults set_flow)) [
      | inl f ↦ rw (e, p, f) tt
      | inr f ↦
          rw (e, p, f)
            (record {
              span = span;
              covering = span_text-IsSpan flow_id rows span p;
              rewritten = set_span-Rewritten now flow_id span flows;
              written = refl;
            })
    ]
  ]
]
