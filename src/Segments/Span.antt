-- ===== src/Segments/Span.antt =====
-- The time range of a flow: the two rows that `flowSpan` of internal/metastore/segments.go reads.
use mathlib.Core.Path.{subst}
use open_tams.Segments.Consistent.{Disjoint, Nonempty, HasPoints, Separate}
use open_tams.Prelude.Sort.{All, All-at, All-map}
use open_tams.Segments.{SegmentRow}
use open_tams.Prelude.Int.{◌≤ℤ◌}
use open_tams.Prelude.Bytes.{Bytes, bytes_eq, bytes_eq_iff}
use open_tams.Prelude.{
  [], false, inl, inr, none, some, true, ◌∙◌, ◌++◌, ◌∷◌, ◌≡◌, ◌⊎◌, Bool, List, Bool-cases, arith,
  Option-cases, sym,
}
use open_tams.Segments.Write.{first_row, last_row, pick, starts_behind, starts_before}

-- The cases in which a row is read.
pub data Picked (better : SegmentRow → SegmentRow → Bool) (flow_id : Bytes) (r : SegmentRow)
    (rs : List SegmentRow) (q : SegmentRow) : Type 0 where
  other :
      bytes_eq r.flow_id flow_id ≡ false
      → pick better flow_id rs ≡ some q
      → Picked better flow_id r rs q
  only : r.flow_id ≡ flow_id → pick better flow_id rs ≡ none → r ≡ q → Picked better flow_id r rs q
  kept :
      r.flow_id ≡ flow_id
      → pick better flow_id rs ≡ some q
      → better q r ≡ true
      → Picked better flow_id r rs q
  newer :
      (t : SegmentRow)
      → r.flow_id ≡ flow_id
      → pick better flow_id rs ≡ some t
      → better t r ≡ false
      → r ≡ q
      → Picked better flow_id r rs q

module _ (better : SegmentRow → SegmentRow → Bool) (flow_id : Bytes) where
  pub pick-cases :
      (r : SegmentRow) (rs : List SegmentRow) (q : SegmentRow)
      → pick better flow_id (r ∷ rs) ≡ some q
      → Picked better flow_id r rs q
  unfolding pick
  pick-cases r rs q e = elim (Bool-cases (bytes_eq r.flow_id flow_id)) [
    | inr n ↦ other n (rw n at e)
    | inl m ↦
        let same = (bytes_eq_iff r.flow_id flow_id).0 m in
        elim (Option-cases (pick better flow_id rs)) [
          | inl x ↦ only same x (some-eq (rw (m, x) at e))
          | inr (t, x) ↦ elim (Bool-cases (better t r)) [
            | inl y ↦
                kept same (x ∙ (rw (m, x, y) at e))
                  (subst (λ z. better z r ≡ true) (some-eq (rw (m, x, y) at e)) y)
            | inr y ↦ newer t same x y (some-eq (rw (m, x, y) at e))
          ]
        ]
  ]
    where
      some-eq : {a b : SegmentRow} → some a ≡ some b → a ≡ b
      some-eq h = cc

  -- What holds of all rows holds of the row that is read, which is one of the flow.
  pub pick-holds :
      (P : SegmentRow → Type 0) (rows : List SegmentRow) (q : SegmentRow)
      → All P rows
      → pick better flow_id rows ≡ some q
      → P q × (q.flow_id ≡ flow_id)
  pick-holds P [] q h e = absurd (unfold pick in cc)
  pick-holds P (r ∷ rs) q h e = elim (pick-cases r rs q e) [
    | other n x ↦ pick-holds P rs q h.1 x
    | only m x y ↦ subst (λ z. P z × (z.flow_id ≡ flow_id)) y (h.0, m)
    | kept m x y ↦ pick-holds P rs q h.1 x
    | newer t m x y z ↦ subst (λ z. P z × (z.flow_id ≡ flow_id)) z (h.0, m)
  ]

  -- Where no row is read, the flow has none.
  pub pick-none :
      (rows : List SegmentRow)
      → pick better flow_id rows ≡ none
      → All (λ r. bytes_eq r.flow_id flow_id ≡ false) rows
  unfolding pick
  pick-none [] e = tt
  pick-none (r ∷ rs) e = elim (Bool-cases (bytes_eq r.flow_id flow_id)) [
    | inl m ↦ absurd (ground arith)
    | inr n ↦ (n, pick-none rs (rw n at e))
  ]

-- The rows of a flow from a row on, and those up to a row.
abbrev pub StartsBy : Bytes → SegmentRow → SegmentRow → Type 0
StartsBy flow_id q r = r.flow_id ≡ flow_id → q.lower_ns ≤ℤ r.lower_ns

abbrev pub EndsBy : Bytes → SegmentRow → SegmentRow → Type 0
EndsBy flow_id q r = r.flow_id ≡ flow_id → r.upper_ns ≤ℤ q.upper_ns

none-StartsBy :
    (flow_id : Bytes) (q : SegmentRow) (rs : List SegmentRow)
    → pick starts_before flow_id rs ≡ none
    → All (StartsBy flow_id q) rs
none-StartsBy flow_id q rs e =
    All-map (λ r. bytes_eq r.flow_id flow_id ≡ false) (StartsBy flow_id q) rs
      (λ r n m. absurd (ground (arith, bytes_eq_iff r.flow_id flow_id)))
      (pick-none starts_before flow_id rs e)

none-EndsBy :
    (flow_id : Bytes) (q : SegmentRow) (rs : List SegmentRow)
    → pick starts_behind flow_id rs ≡ none
    → All (EndsBy flow_id q) rs
none-EndsBy flow_id q rs e =
    All-map (λ r. bytes_eq r.flow_id flow_id ≡ false) (EndsBy flow_id q) rs
      (λ r n m. absurd (ground (arith, bytes_eq_iff r.flow_id flow_id)))
      (pick-none starts_behind flow_id rs e)

-- No row of the flow starts before the first one.
pub first_row-StartsBy :
    (flow_id : Bytes) (rows : List SegmentRow) (q : SegmentRow)
    → first_row flow_id rows ≡ some q
    → All (StartsBy flow_id q) rows
unfolding first_row
first_row-StartsBy flow_id [] q e = tt
first_row-StartsBy flow_id (r ∷ rs) q e = elim (pick-cases starts_before flow_id r rs q e) [
  | other n x ↦ (
    (λ m. absurd (ground (arith, bytes_eq_iff r.flow_id flow_id))),
    first_row-StartsBy flow_id rs q x,
  )
  | only m x y ↦
      subst (λ z. All (StartsBy flow_id z) (r ∷ rs)) y
        ((λ _. omega arith), none-StartsBy flow_id r rs x)
  | kept m x y ↦ ((λ _. ground arith), first_row-StartsBy flow_id rs q x)
  | newer t m x y z ↦
      subst (λ w. All (StartsBy flow_id w) (r ∷ rs)) z
        (
          (λ _. omega arith),
          All-map (StartsBy flow_id t) (StartsBy flow_id r) rs (λ p h g. ground (arith, h g))
              (first_row-StartsBy flow_id rs t x),
        )
]

-- No row of the flow ends behind the last one, although the last one is found by its start: the rows
-- hold points and lie apart.
pub last_row-EndsBy :
    (flow_id : Bytes) (rows : List SegmentRow) (q : SegmentRow)
    → Disjoint rows
    → Nonempty rows
    → last_row flow_id rows ≡ some q
    → All (EndsBy flow_id q) rows
unfolding last_row
last_row-EndsBy flow_id [] q d n e = tt
last_row-EndsBy flow_id (r ∷ rs) q d n e = elim (pick-cases starts_behind flow_id r rs q e) [
  | other o x ↦ (
    (λ m. absurd (ground (arith, bytes_eq_iff r.flow_id flow_id))),
    last_row-EndsBy flow_id rs q d.1 n.1 x,
  )
  | only m x y ↦
      subst (λ z. All (EndsBy flow_id z) (r ∷ rs)) y
        ((λ _. omega arith), none-EndsBy flow_id r rs x)
  | kept m x y ↦
      let (apart, mq) = pick-holds starts_behind flow_id (Separate r) rs q d.0 x in
      let (points, _) = pick-holds starts_behind flow_id HasPoints rs q n.1 x in
      ((λ _. ends r q n.0 points (apart (m ∙ sym mq)) y), last_row-EndsBy flow_id rs q d.1 n.1 x)
  | newer t m x y z ↦
      let (apart, mt) = pick-holds starts_behind flow_id (Separate r) rs t d.0 x in
      let le = ends_newer r t n.0 (apart (m ∙ sym mt)) y in
      subst (λ w. All (EndsBy flow_id w) (r ∷ rs)) z
        (
          (λ _. omega arith),
          All-map (EndsBy flow_id t) (EndsBy flow_id r) rs (λ p h g. omega (arith, h g, le))
              (last_row-EndsBy flow_id rs t d.1 n.1 x),
        )
]
  where
    ends :
        (a b : SegmentRow)
        → HasPoints a
        → HasPoints b
        → (a.upper_ns ≤ℤ b.lower_ns) ⊎ (b.upper_ns ≤ℤ a.lower_ns)
        → starts_behind b a ≡ true
        → a.upper_ns ≤ℤ b.upper_ns
    ends a b h k s y = ground arith

    ends_newer :
        (a b : SegmentRow)
        → HasPoints a
        → (a.upper_ns ≤ℤ b.lower_ns) ⊎ (b.upper_ns ≤ℤ a.lower_ns)
        → starts_behind b a ≡ false
        → b.upper_ns ≤ℤ a.upper_ns
    ends_newer a b h s y = ground arith

-- In a store whose rows hold points and lie apart, every row of a flow lies between the start of
-- the row that flowSpan reads as the first and the end of the one that it reads as the last.
pub rows_span :
    (flow_id : Bytes) (xs : List SegmentRow) (r : SegmentRow) (ys : List SegmentRow)
    (first last : SegmentRow)
    → Disjoint (xs ++ r ∷ ys)
    → Nonempty (xs ++ r ∷ ys)
    → first_row flow_id (xs ++ r ∷ ys) ≡ some first
    → last_row flow_id (xs ++ r ∷ ys) ≡ some last
    → r.flow_id ≡ flow_id
    → (first.lower_ns ≤ℤ r.lower_ns) × (r.upper_ns ≤ℤ last.upper_ns)
rows_span flow_id xs r ys first last d n e f m = (
  All-at (StartsBy flow_id first) xs r ys (first_row-StartsBy flow_id _ first e) m,
  All-at (EndsBy flow_id last) xs r ys (last_row-EndsBy flow_id _ last d n f) m,
)
