-- ===== src/Timerange/Nanos/Meaning.antt =====
-- The bounds of `NsBounds` hold the same instants as the range.
use open_tams.Prelude.{
  ◌+◌, ◌*◌, ◌^◌, ◌≡◌, ◌↔◌, ◌⊎◌, Bool, true, false, ◌&&◌, Option, none, some, if◌then◌else◌, arith,
  refl, Bool-cases, inl, inr,
}
use open_tams.Prelude.Int.{
  ℤ, pos, negsuc, pos_part, neg_part, ◌+ℤ◌, ◌*ℤ◌, int64, int64-eq, FitsInt64, +ℤ_parts, ◌≤ℤ◌, ◌<ℤ◌,
}
use open_tams.Prelude.Result.{Result-cases, ok, err}
use open_tams.Timerange.{
  Timestamp, TimeRange, BoundType, inclusive, exclusive, unbounded, ns_per_sec, is_empty, contains,
  same_bound,
}
use open_tams.Timerange.Order.{IsValid, rank}
use open_tams.Timerange.Instants.{IsBound, IsInterval, Above, Below}
use open_tams.Timerange.Membership.{contains_iff}
use open_tams.Timerange.Nanos.{
  NsBounds, NsError, bound_nanos, bump, side_nanos, ns_bounds, out_of_range,
}
use open_tams.Timerange.Nanos.Exact.{total, nanos-eq, fits_int64}

-- Ranks and totals differ by the nanoseconds of the first int64 second.
pub total-rank :
    (ts : Timestamp)
    → IsValid ts
    → pos_part (total ts) + 2 ^ 63 * ns_per_sec ≡ rank ts + neg_part (total ts)
unfolding total rank ◌*ℤ◌ ◌+ℤ◌
total-rank ts v = ground arith

fits→FitsInt64 : (z : ℤ) → fits_int64 z ≡ true → FitsInt64 z
fits→FitsInt64 z h = ground arith

-- A bound that is moved by a nanosecond, with nothing wrapped around.
bound_nanos-ok :
    (ts : Timestamp) (add_one : Bool) (v : ℤ)
    → IsValid ts
    → bound_nanos ts add_one ≡ ok v
    → v ≡ (if add_one then total ts +ℤ pos 1 else total ts)
unfolding bound_nanos
bound_nanos-ok ts add_one v h e =
    ground (arith, nanos-eq ts h, int64-eq (total ts +ℤ pos 1), +ℤ_parts (total ts) (pos 1))

-- The nanoseconds that the bounds hold.
abbrev pub InBounds : NsBounds → ℤ → Type 0
InBounds b z =
    ((b.lower_unbounded ≡ true) ⊎ (b.lower ≤ℤ z)) × ((b.upper_unbounded ≡ true) ⊎ (z <ℤ b.upper))

side_nanos-some :
    (s : Timestamp) (add_one : Bool) (p : ℤ × Bool)
    → side_nanos (some s) add_one ≡ ok p
    → (bound_nanos s add_one ≡ ok p.0) × (p.1 ≡ false)
unfolding side_nanos
side_nanos-some s add_one p e = elim (Result-cases (bound_nanos s add_one)) [
  | inl (v, q) ↦ (ground arith, ground arith)
  | inr (x, q) ↦ absurd (ground arith)
]

-- A start: its side of the result holds the totals that the range's bound lets pass.
start_side_iff :
    (o : Option Timestamp) (t : BoundType) (p : ℤ × Bool) (ts : Timestamp)
    → IsBound o t
    → IsValid ts
    → side_nanos o (same_bound t exclusive) ≡ ok p
    → Above o t (rank ts) ↔ ((p.1 ≡ true) ⊎ (p.0 ≤ℤ total ts))
unfolding side_nanos same_bound
start_side_iff none unbounded p ts h v e = ((λ _. inl (ground arith)), (λ _. tt))
start_side_iff none inclusive p ts h v e = absurd h
start_side_iff none exclusive p ts h v e = absurd h
start_side_iff (some s) unbounded p ts h v e = absurd h
start_side_iff (some s) inclusive p ts h v e =
    let (q, b) = side_nanos-some s false p e in
    let w = bound_nanos-ok s false p.0 h q in
    (
      (λ le. inr (rw w (omega (arith, total-rank s h, total-rank ts v)))),
      elim [
        | inl x ↦ absurd (cc)
        | inr le ↦ omega (arith, total-rank s h, total-rank ts v, rw w at le)
      ],
    )
start_side_iff (some s) exclusive p ts h v e =
    let (q, b) = side_nanos-some s true p e in
    let w = bound_nanos-ok s true p.0 h q in
    (
      (λ le.
          inr (rw w (omega (arith, total-rank s h, total-rank ts v, +ℤ_parts (total s) (pos 1))))),
      elim [
        | inl x ↦ absurd (cc)
        | inr le ↦
            omega (arith, total-rank s h, total-rank ts v, +ℤ_parts (total s) (pos 1), rw w at le)
      ],
    )

end_side_iff :
    (o : Option Timestamp) (t : BoundType) (p : ℤ × Bool) (ts : Timestamp)
    → IsBound o t
    → IsValid ts
    → side_nanos o (same_bound t inclusive) ≡ ok p
    → Below o t (rank ts) ↔ ((p.1 ≡ true) ⊎ (total ts <ℤ p.0))
unfolding side_nanos same_bound
end_side_iff none unbounded p ts h v e = ((λ _. inl (ground arith)), (λ _. tt))
end_side_iff none inclusive p ts h v e = absurd h
end_side_iff none exclusive p ts h v e = absurd h
end_side_iff (some s) unbounded p ts h v e = absurd h
end_side_iff (some s) exclusive p ts h v e =
    let (q, b) = side_nanos-some s false p e in
    let w = bound_nanos-ok s false p.0 h q in
    (
      (λ le. inr (rw w (omega (arith, total-rank s h, total-rank ts v)))),
      elim [
        | inl x ↦ absurd (cc)
        | inr le ↦ omega (arith, total-rank s h, total-rank ts v, rw w at le)
      ],
    )
end_side_iff (some s) inclusive p ts h v e =
    let (q, b) = side_nanos-some s true p e in
    let w = bound_nanos-ok s true p.0 h q in
    (
      (λ le.
          inr (rw w (omega (arith, total-rank s h, total-rank ts v, +ℤ_parts (total s) (pos 1))))),
      elim [
        | inl x ↦ absurd (cc)
        | inr le ↦
            omega (arith, total-rank s h, total-rank ts v, +ℤ_parts (total s) (pos 1), rw w at le)
      ],
    )

-- The two sides of which a result is made.
pub ns_bounds-sides :
    (tr : TimeRange) (b : NsBounds)
    → ns_bounds tr ≡ ok b
    → (is_empty tr ≡ false)
      × (side_nanos tr.start (same_bound tr.start_type exclusive) ≡ ok (b.lower, b.lower_unbounded))
      × (side_nanos tr.end (same_bound tr.end_type inclusive) ≡ ok (b.upper, b.upper_unbounded))
unfolding ns_bounds
ns_bounds-sides tr b e = elim (Bool-cases (is_empty tr)) [
  | inl h ↦ absurd (ground arith)
  | inr h ↦ elim (Result-cases (side_nanos tr.start (same_bound tr.start_type exclusive))) [
    | inr (x, p) ↦ absurd (ground arith)
    | inl (lo, p) ↦ elim (Result-cases (side_nanos tr.end (same_bound tr.end_type inclusive))) [
      | inr (x, q) ↦ absurd (ground arith)
      | inl (hi, q) ↦ (h, ground arith, ground arith)
    ]
  ]
]

-- Where `NsBounds` succeeds, a valid timestamp is contained in the range exactly when its value in
-- nanoseconds, whether or not an int64 holds that, lies in the half-open bounds.
pub contains-ns_bounds :
    (tr : TimeRange) (b : NsBounds) (ts : Timestamp)
    → IsInterval tr
    → ns_bounds tr ≡ ok b
    → IsValid ts
    → (contains tr ts ≡ true) ↔ InBounds b (total ts)
contains-ns_bounds tr b ts v e vt =
    let (h, lo, hi) = ns_bounds-sides tr b e in
    let starts = start_side_iff tr.start tr.start_type (b.lower, b.lower_unbounded) ts v.0 vt lo in
    let ends = end_side_iff tr.end tr.end_type (b.upper, b.upper_unbounded) ts v.1 vt hi in
    let inside = contains_iff tr ts v vt in
    (
      (λ c. (starts.0 (inside.0 c).0, ends.0 (inside.0 c).1)),
      (λ w. inside.1 (starts.1 w.0, ends.1 w.1)),
    )

-- The value of a bound in nanoseconds, moved by one where the half-open form moves it.
abbrev pub moved : Timestamp → Bool → ℤ
moved ts add_one = if add_one then total ts +ℤ pos 1 else total ts

-- Whether `NsBounds` can represent a bound: its value fits in an int64, and so does the moved value.
abbrev pub side_fits : Option Timestamp → Bool → Bool
side_fits none add_one = true
side_fits (some ts) add_one = fits_int64 (total ts) && fits_int64 (moved ts add_one)

abbrev pub side_value : Option Timestamp → Bool → ℤ
side_value none add_one = pos 0
side_value (some ts) add_one = moved ts add_one

abbrev pub is_open : Option Timestamp → Bool
is_open none = true
is_open (some ts) = false

bump-eq :
    (v : ℤ) (add_one : Bool)
    → FitsInt64 v
    → bump add_one v ≡ (
        if fits_int64 (if add_one then v +ℤ pos 1 else v)
        then ok (if add_one then v +ℤ pos 1 else v)
        else err out_of_range)
unfolding bump ◌+ℤ◌ int64
bump-eq (pos n) true h = ground arith
bump-eq (negsuc n) true h = ground arith
bump-eq v false h = ground arith

side_nanos-eq :
    (o : Option Timestamp) (t : BoundType) (add_one : Bool)
    → IsBound o t
    → side_nanos o add_one
      ≡ (if side_fits o add_one then ok (side_value o add_one, is_open o) else err out_of_range)
unfolding side_nanos bound_nanos
side_nanos-eq none t a v = refl
side_nanos-eq (some s) unbounded a v = absurd v
side_nanos-eq (some s) t a v = elim (Bool-cases (fits_int64 (total s))) [
  | inr h ↦ rw (bound_nanos, nanos-eq s v, h) refl
  | inl h ↦ ground (arith, nanos-eq s v, bump-eq (total s) a (fits→FitsInt64 (total s) h))
]

-- `NsBounds` on each branch: an empty range is refused as empty, a range with a bound that does not
-- fit as out of range, and any other has the bounds whose values are written out here.
pub ns_bounds-eq :
    (tr : TimeRange)
    → IsInterval tr
    → ns_bounds tr ≡ (
        if is_empty tr
        then err NsError.empty_range
        else if side_fits tr.start (same_bound tr.start_type exclusive)
            && side_fits tr.end (same_bound tr.end_type inclusive)
        then ok (record {
          lower = side_value tr.start (same_bound tr.start_type exclusive);
          upper = side_value tr.end (same_bound tr.end_type inclusive);
          lower_unbounded = is_open tr.start;
          upper_unbounded = is_open tr.end;
        })
        else err out_of_range)
unfolding ns_bounds
ns_bounds-eq tr v =
    rw
      (
        side_nanos-eq tr.start tr.start_type (same_bound tr.start_type exclusive) v.0,
        side_nanos-eq tr.end tr.end_type (same_bound tr.end_type inclusive) v.1,
      )
      (ground arith)
