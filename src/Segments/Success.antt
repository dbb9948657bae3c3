-- ===== src/Segments/Success.antt =====
-- internal/metastore/segments.go: when `DeleteSegmentsByTimerange` succeeds.
use open_tams.Segments.Insert.{lower_param, upper_param}
use open_tams.Timerange.Text.Joined.{joined-text}
use open_tams.Segments.Deletion.{Deletion, delete_segments-Deletion}
use open_tams.Timerange.Nanos.{NsBounds, ns_bounds}
use open_tams.Segments.Span.{pick-holds}
use open_tams.Timerange.Instants.{IsInterval}
use open_tams.Segments.Pages.{no_faults}
use open_tams.Timerange.Text.{parse}
use open_tams.Prelude.Sort.{All}
use open_tams.Timerange.{TimeRange, is_empty}
use open_tams.Segments.{
  SegmentRow, ObjectRow, Store, FlowRow, lock_writable_flow, find_flow, check_guard, of_ns,
}
use open_tams.Prelude.Bytes.{Bytes}
use open_tams.Segments.Write.{
  decrement_all, delete_segments, remaining, finish, delete_transaction, span_text, delete_covered,
  subtract, first_row, last_row, refresh_flow_timerange, flow_span, starts_before, starts_behind,
  is_covered, join_span, group_counts, deleted, total_deleted,
}
use open_tams.Prelude.Result.{ok}
use open_tams.Prelude.{
  [], false, inl, inr, none, refl, some, true, ℕ, ◌+◌, ◌∷◌, ◌≡◌, ◌⊎◌, Bool, List, Option,
  Bool-cases, Option-cases, arith,
}

-- A row whose text is read as a range that is not the special empty one.
abbrev pub HasText : SegmentRow → Type 0
HasText r = (range : TimeRange) × (parse r.stored_timerange ≡ ok range) × IsInterval range

All-remaining-HasText :
    (p : SegmentRow → Bool) (rows : List SegmentRow)
    → All HasText rows
    → All HasText (remaining p rows)
unfolding remaining
All-remaining-HasText p [] h = tt
All-remaining-HasText p (r ∷ rs) h = elim (Bool-cases (p r)) [
  | inl e ↦ rw e (All-remaining-HasText p rs h.1)
  | inr e ↦ rw e (h.0, All-remaining-HasText p rs h.1)
]

-- The span of such rows can be computed.
span_text-HasText :
    (flow_id : Bytes) (rows : List SegmentRow)
    → All HasText rows
    → (span : Option Bytes) × (span_text (first_row flow_id rows) (last_row flow_id rows) ≡ ok span)
span_text-HasText flow_id rows h = elim (Option-cases (first_row flow_id rows)) [
  | inl f ↦ (none, rw f (unfold span_text in refl))
  | inr (a, f) ↦ elim (Option-cases (last_row flow_id rows)) [
    | inl l ↦ (none, rw (f, l) (unfold span_text in refl))
    | inr (b, l) ↦
        let (first, p, fine) =
          (pick-holds starts_before flow_id HasText rows a h (unfold first_row in f)).0 in
        let (last, q, fine') =
          (pick-holds starts_behind flow_id HasText rows b h (unfold last_row in l)).0 in
        let (text, t) = joined-text first last fine fine' in
        (some text, rw (f, l) (unfold span_text join_span in rw (p, q, t) refl))
  ]
]

decrement_all-succeeds :
    (i : ℕ) (gs : List (Bytes × ℕ)) (objects : List ObjectRow)
    → (objects' : List ObjectRow) × (decrement_all no_faults i gs objects ≡ ok objects')
unfolding decrement_all
decrement_all-succeeds i [] objects = (objects, refl)
decrement_all-succeeds i (g ∷ gs) objects =
    decrement_all-succeeds (i + 1) gs (subtract g.0 g.1 objects)

returns_count :
    (now : ℕ) (flow_id : Bytes) (range : TimeRange) (object : Option Bytes) (s : Store)
    (f : FlowRow)
    → find_flow flow_id s.flows ≡ some f
    → f.read_only ≡ false
    → All HasText s.segments
    → (is_empty range ≡ true) ⊎ ((b : NsBounds) × (ns_bounds range ≡ ok b))
    → (count : ℕ) × ((delete_segments no_faults now flow_id range object s).0 ≡ ok count)
unfolding delete_segments finish delete_transaction delete_covered lock_writable_flow check_guard
    of_ns refresh_flow_timerange flow_span
returns_count now flow_id range object s f found writable texts bounded =
    elim (Bool-cases (is_empty range)) [
      | inl e ↦ (0, rw (found, writable, e) refl)
      | inr e ↦ elim bounded [
        | inl x ↦ absurd (ground arith)
        | inr (b, q) ↦
            let taken = is_covered flow_id (lower_param b) (upper_param b) object in
            let (objects, d) =
              decrement_all-succeeds 0 (group_counts (deleted taken s.segments)) s.objects in
            let (span, t) =
              span_text-HasText flow_id (remaining taken s.segments)
                (All-remaining-HasText taken s.segments texts) in
            (
              total_deleted (group_counts (deleted taken s.segments)),
              rw (found, writable, e, q, d, t) refl,
            )
      ]
    ]

-- Where no call of the database fails, the flow is there and is not read-only, the text of every stored
-- row is read as a range other than the special empty one, and the range of the call is empty or
-- NsBounds gives its bounds, DeleteSegmentsByTimerange succeeds: it returns a count, and with this
-- count the store afterwards is that of a deletion, which for an empty range changes nothing, and
-- for any other takes, and counts, exactly the rows of the flow within the bounds, and of the object
-- where one is named, and gives the flow the span of the rows that are left.
pub delete_segments-succeeds :
    (now : ℕ) (flow_id : Bytes) (range : TimeRange) (object : Option Bytes) (s : Store)
    (f : FlowRow)
    → find_flow flow_id s.flows ≡ some f
    → f.read_only ≡ false
    → All HasText s.segments
    → (is_empty range ≡ true) ⊎ ((b : NsBounds) × (ns_bounds range ≡ ok b))
    → (count : ℕ) × ((delete_segments no_faults now flow_id range object s).0 ≡ ok count)
      × Deletion now flow_id range object s count
          (delete_segments no_faults now flow_id range object s).1
delete_segments-succeeds now flow_id range object s f found writable texts bounded =
    let (count, e) = returns_count now flow_id range object s f found writable texts bounded in
    (count, e, (delete_segments-Deletion no_faults now flow_id range object s count e).1)
