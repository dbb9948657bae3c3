-- ===== src/Timerange/Membership.antt =====
-- `Contains` and `IsEmpty` against the set of instants that a range denotes.
use open_tams.Prelude.{
  ℕ, ◌≡◌, ◌↔◌, true, false, ◌&&◌, Option, none, some, arith, Bool-cases, inl, inr, refl, sym,
}
use open_tams.Timerange.{
  Timestamp, TimeRange, BoundType, inclusive, exclusive, unbounded, is_empty, is_eternity,
  passes_start, passes_end, contains, same_bound, is_empty_of,
}
use open_tams.Timerange.Order.{IsValid, rank}
use open_tams.Timerange.Instants.{
  IsBound, IsInterval, Above, Below, Within, passes_start_iff, passes_end_iff, empty_between_sound,
  empty_between_complete, first_instant,
}

is_empty_of_sound :
    (s : Option Timestamp) (t : BoundType) (e : Option Timestamp) (u : BoundType) (r : ℕ)
    → IsBound s t
    → IsBound e u
    → is_empty_of s t e u ≡ true
    → Above s t r
    → Below e u r
    → ⊥
unfolding is_empty_of
is_empty_of_sound none unbounded none unbounded r vs ve h a b = cc
is_empty_of_sound none inclusive e u r vs ve h a b = absurd vs
is_empty_of_sound none exclusive e u r vs ve h a b = absurd vs
is_empty_of_sound none unbounded none inclusive r vs ve h a b = absurd ve
is_empty_of_sound none unbounded none exclusive r vs ve h a b = absurd ve
is_empty_of_sound none unbounded (some e) u r vs ve h a b = cc
is_empty_of_sound (some s) t none u r vs ve h a b = cc
is_empty_of_sound (some s) t (some e) u r vs ve h a b = empty_between_sound s t e u r vs ve h a b

pub is_empty_sound : (tr : TimeRange) (r : ℕ) → IsInterval tr → is_empty tr ≡ true → ¬ (Within tr r)
unfolding is_empty
is_empty_sound tr r v h w =
    is_empty_of_sound tr.start tr.start_type tr.end tr.end_type r v.0 v.1 h w.0 w.1

eternity_passes :
    (s : Option Timestamp) (t : BoundType) (e : Option Timestamp) (u : BoundType) (ts : Timestamp)
    → IsBound s t
    → IsBound e u
    → (same_bound t unbounded && same_bound u unbounded) ≡ true
    → (passes_start s t ts && passes_end e u ts) ≡ true
unfolding passes_start
eternity_passes none unbounded none unbounded ts vs ve h = unfold passes_end in refl
eternity_passes _ inclusive e u ts vs ve h = unfold same_bound in cc
eternity_passes _ exclusive e u ts vs ve h = unfold same_bound in cc
eternity_passes _ unbounded e inclusive ts vs ve h = unfold same_bound in cc
eternity_passes _ unbounded e exclusive ts vs ve h = unfold same_bound in cc
eternity_passes (some s) unbounded e u ts vs ve h = absurd vs
eternity_passes _ _ (some e) unbounded ts vs ve h = absurd ve

-- No timestamp passes both bound checks of an empty range.
pub empty_passes :
    (tr : TimeRange) (ts : Timestamp)
    → IsInterval tr
    → IsValid ts
    → is_empty tr ≡ true
    → (passes_start tr.start tr.start_type ts && passes_end tr.end tr.end_type ts) ≡ false
empty_passes tr ts v vt h = ground (
  arith,
  is_empty_sound tr (rank ts) v h,
  passes_start_iff tr.start tr.start_type ts v.0 vt,
  passes_end_iff tr.end tr.end_type ts v.1 vt,
)

-- On an interval, `Contains` is its two bound checks: the early returns change nothing.
pub contains-eq :
    (tr : TimeRange) (ts : Timestamp)
    → IsInterval tr
    → IsValid ts
    → contains tr ts ≡ (passes_start tr.start tr.start_type ts && passes_end tr.end tr.end_type ts)
unfolding contains is_eternity
contains-eq tr ts v vt = elim (Bool-cases (is_empty tr)) [
  | inl e ↦ rw e (sym (empty_passes tr ts v vt e))
  | inr n ↦
      rw n (ground (arith, eternity_passes tr.start tr.start_type tr.end tr.end_type ts v.0 v.1))
]

-- A valid timestamp is contained in an interval exactly when its rank lies between the bounds.
pub contains_iff :
    (tr : TimeRange) (ts : Timestamp)
    → IsInterval tr
    → IsValid ts
    → (contains tr ts ≡ true) ↔ Within tr (rank ts)
contains_iff tr ts v vt = (
  (λ h. ground (
    arith,
    contains-eq tr ts v vt,
    passes_start_iff tr.start tr.start_type ts v.0 vt,
    passes_end_iff tr.end tr.end_type ts v.1 vt,
  )),
  (λ h. ground (
    arith,
    contains-eq tr ts v vt,
    passes_start_iff tr.start tr.start_type ts v.0 vt,
    passes_end_iff tr.end tr.end_type ts v.1 vt,
  )),
)

-- A range with both bounds.
abbrev pub bounded : Timestamp → BoundType → Timestamp → BoundType → TimeRange
bounded s t e u = record { start = some s; start_type = t; end = some e; end_type = u }

-- A range with two valid bounds that is not empty contains the first instant behind its start.
pub contains-first_instant :
    (s : Timestamp) (t : BoundType) (e : Timestamp) (u : BoundType)
    → IsInterval (bounded s t e u)
    → is_empty (bounded s t e u) ≡ false
    → IsValid (first_instant s t) × (contains (bounded s t e u) (first_instant s t) ≡ true)
unfolding is_empty
contains-first_instant s t e u v h =
    let (valid, above, below) = empty_between_complete s t e u v.0 v.1 h in
    (valid, (contains_iff (bounded s t e u) _ v valid).1 (above, below))

-- A range with two valid bounds is empty exactly when no valid timestamp lies between them.
pub is_empty_iff :
    (s : Timestamp) (t : BoundType) (e : Timestamp) (u : BoundType)
    → IsInterval (bounded s t e u)
    → (is_empty (bounded s t e u) ≡ true)
      ↔ ((ts : Timestamp) → IsValid ts → ¬ (Within (bounded s t e u) (rank ts)))
is_empty_iff s t e u v = (
  (λ h ts vt w. is_empty_sound (bounded s t e u) (rank ts) v h w),
  (λ none_in. elim (Bool-cases (is_empty (bounded s t e u))) [
    | inl h ↦ h
    | inr h ↦
        let (valid, inside) = contains-first_instant s t e u v h in
        absurd
          (none_in (first_instant s t) valid ((contains_iff (bounded s t e u) _ v valid).0 inside))
  ]),
)
