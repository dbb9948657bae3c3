-- ===== src/Timerange/Intersection.antt =====
-- `Intersect` and `Overlaps` as operations on sets of instants.
use open_tams.Prelude.{
  true, if◌then◌else◌, ◌⊎◌, ◌≡◌, false, ◌&&◌, ◌&&◌, Option, none, some, arith, Bool-cases, inl, inr,
  refl,
}
use open_tams.Timerange.{
  earlier_end, intersect, later_start, choose, is_eternity, Timestamp, TimeRange, BoundType, Bound,
  equal, is_empty, passes_start, passes_end, contains, empty_range, is_empty_of, narrow,
  start_bound, end_bound, empty_if_disjoint,
}
use open_tams.Prelude.Maybe.{◌>>=◌}
use open_tams.Timerange.Instants.{IsBound, IsWellFormed, IsInterval}
use open_tams.Timerange.Order.{IsValid}
use open_tams.Timerange.Bounds.{choose_end, choose_start, Meets}
use open_tams.Timerange.Membership.{contains-eq, empty_passes}

abbrev range_of : Bound → Bound → TimeRange
range_of c d = record { start = c.at; start_type = c.kind; end = d.at; end_type = d.kind }

-- The checks behind the emptiness test of `result` find nothing that the test let through.
empty_if_disjoint-eq :
    (o : Option Timestamp) (t : BoundType) (o' : Option Timestamp) (t' : BoundType)
    → is_empty_of o t o' t' ≡ false
    → empty_if_disjoint o o' (record { start = o; start_type = t; end = o'; end_type = t' })
      ≡ record { start = o; start_type = t; end = o'; end_type = t' }
unfolding empty_if_disjoint is_empty_of equal
empty_if_disjoint-eq none t o' t' h = refl
empty_if_disjoint-eq (some s) t none t' h = refl
empty_if_disjoint-eq (some s) t (some e) t' h = ground arith

-- The special empty range contains nothing.
contains-empty_range : (ts : Timestamp) → contains empty_range ts ≡ false
unfolding contains is_empty
contains-empty_range ts = refl

narrow-eq :
    (c d : Bound) → narrow c d ≡ (if is_empty (range_of c d) then empty_range else range_of c d)
unfolding narrow is_empty
narrow-eq c d = ground (arith, empty_if_disjoint-eq c.at c.kind d.at d.kind)

-- The result of `Intersect` for two intervals, of which neither is the special empty range.
narrow-contains :
    (a b : TimeRange) (c d : Bound) (ts : Timestamp)
    → IsInterval a
    → IsInterval b
    → IsValid ts
    → Meets passes_start (start_bound a) (start_bound b) c
    → Meets passes_end (end_bound a) (end_bound b) d
    → contains (narrow c d) ts ≡ (contains a ts && contains b ts)
unfolding start_bound end_bound
narrow-contains a b c d ts va vb w ms me = elim (Bool-cases (is_empty (range_of c d))) [
  | inl h ↦ ground (
    arith,
    narrow-eq c d,
    empty_passes (range_of c d) ts (ms.valid, me.valid) w h,
    ms.both ts w,
    me.both ts w,
    contains-eq a ts va w,
    contains-eq b ts vb w,
    contains-empty_range ts,
  )
  | inr h ↦ ground (
    arith,
    narrow-eq c d,
    contains-eq (range_of c d) ts (ms.valid, me.valid) w,
    ms.both ts w,
    me.both ts w,
    contains-eq a ts va w,
    contains-eq b ts vb w,
  )
]

pub contains_of_empty :
    (tr : TimeRange) (ts : Timestamp) → is_empty tr ≡ true → contains tr ts ≡ false
unfolding contains
contains_of_empty tr ts h = rw h

contains_of_eternity :
    (tr : TimeRange) (ts : Timestamp)
    → is_empty tr ≡ false
    → is_eternity tr ≡ true
    → contains tr ts ≡ true
unfolding contains
contains_of_eternity tr ts n h = rw (n, h)

-- A well-formed range is empty, or an interval that is not.
pub IsWellFormed-cases :
    (tr : TimeRange)
    → IsWellFormed tr
    → (is_empty tr ≡ true) ⊎ ((is_empty tr ≡ false) × IsInterval tr)
unfolding is_empty
IsWellFormed-cases tr (inl e) = inl (rw e)
IsWellFormed-cases tr (inr v) = elim (Bool-cases (is_empty tr)) [
  | inl h ↦ inl h
  | inr h ↦ inr (h, v)
]

-- The range that `Intersect` returns, and what it contains.
abbrev pub IsIntersection : TimeRange → TimeRange → Option TimeRange → Type 0
IsIntersection a b none = ⊥
IsIntersection a b (some c) =
    IsWellFormed c
    × ((ts : Timestamp) → IsValid ts → contains c ts ≡ (contains a ts && contains b ts))

narrow-IsWellFormed :
    (c d : Bound) → IsBound c.at c.kind → IsBound d.at d.kind → IsWellFormed (narrow c d)
narrow-IsWellFormed c d v w = elim (Bool-cases (is_empty (range_of c d))) [
  | inl h ↦ inl (rw (narrow-eq c d, h))
  | inr h ↦ rw (narrow-eq c d, h) (inr (v, w))
]

-- `Intersect` for two intervals of which neither is empty or eternity.
intersect_proper :
    (a b : TimeRange)
    → IsInterval a
    → IsInterval b
    → IsIntersection a b (do
      c ← choose later_start (start_bound a) (start_bound b)
      d ← choose earlier_end (end_bound a) (end_bound b)
      some (narrow c d))
unfolding start_bound end_bound
intersect_proper a b va vb =
    let (c, pc, mc) = choose_start (start_bound a) (start_bound b) va.0 vb.0 in
    let (d, pd, md) = choose_end (end_bound a) (end_bound b) va.1 vb.1 in
    rw (pc, pd)
      (narrow-IsWellFormed c d mc.valid md.valid, λ ts w. narrow-contains a b c d ts va vb w mc md)

-- The intersection of two well-formed ranges is there, so that no nil pointer was dereferenced,
-- it is well-formed, and it contains exactly the instants that both ranges contain.
pub intersect-IsIntersection :
    (a b : TimeRange) → IsWellFormed a → IsWellFormed b → IsIntersection a b (intersect a b)
intersect-IsIntersection a b wa wb = elim (IsWellFormed-cases a wa) [
  | inl ea ↦
      unfold intersect in
      rw ea (inl refl, λ ts w. ground (arith, contains_of_empty a ts ea, contains-empty_range ts))
  | inr (na, va) ↦ elim (IsWellFormed-cases b wb) [
    | inl eb ↦
        unfold intersect in
        rw (na, eb)
          (inl refl, λ ts w. ground (arith, contains_of_empty b ts eb, contains-empty_range ts))
    | inr (nb, vb) ↦ elim (Bool-cases (is_eternity a)) [
      | inl ta ↦
          unfold intersect in
          rw (na, nb, ta) (wb, λ ts w. ground (arith, contains_of_eternity a ts na ta))
      | inr fa ↦ elim (Bool-cases (is_eternity b)) [
        | inl tb ↦
            unfold intersect in
            rw (na, nb, fa, tb) (wa, λ ts w. ground (arith, contains_of_eternity b ts nb tb))
        | inr fb ↦ unfold intersect in rw (na, nb, fa, fb) (intersect_proper a b va vb)
      ]
    ]
  ]
]
