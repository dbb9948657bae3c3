-- ===== src/Segments/Subrange.antt =====
-- `rangeContains` against the instants of both ranges.
use open_tams.Segments.Sides.{end_sound, eternity-Within, side_within-some, start_sound}
use open_tams.Timerange.Membership.{contains_iff, is_empty_sound}
use open_tams.Timerange.Order.{IsValid, rank}
use open_tams.Timerange.Instants.{IsInterval, Within}
use open_tams.Timerange.{TimeRange, is_eternity, Timestamp, contains, is_empty}
use open_tams.Segments.Containment.{
  range_contains, side_within, inner_end_greater, inner_start_less,
}
use open_tams.Prelude.{
  false, inl, inr, none, refl, some, true, ◌∙◌, ◌≡◌, ℕ, Bool, Bool-cases, ap, sym,
}

-- The instants of the inner range, by their ranks.
abbrev pub IsSubrange : TimeRange → TimeRange → Type 0
IsSubrange inner outer =
    (ts : Timestamp) → IsValid ts → contains inner ts ≡ true → contains outer ts ≡ true

pub Within-IsSubrange :
    (outer inner : TimeRange)
    → IsInterval outer
    → IsInterval inner
    → ((r : ℕ) → Within inner r → Within outer r)
    → IsSubrange inner outer
Within-IsSubrange outer inner vo vi f ts v h =
    (contains_iff outer ts vo v).1 (f (rank ts) ((contains_iff inner ts vi v).0 h))

sides_sound :
    (outer inner : TimeRange)
    → IsInterval outer
    → IsInterval inner
    → (b : Bool) × ((elim (side_within inner_start_less outer.start outer.start_type inner.start
          inner.start_type) [
            | none ↦ none
            | some false ↦ some false
            | some true ↦
                side_within inner_end_greater outer.end outer.end_type inner.end inner.end_type
          ])
        ≡ some b)
      × (b ≡ true → IsSubrange inner outer)
sides_sound outer inner vo vi =
    let (b, e) =
      side_within-some inner_start_less outer.start outer.start_type inner.start inner.start_type
        vo.0 vi.0 in
    let (d, f) =
      side_within-some inner_end_greater outer.end outer.end_type inner.end inner.end_type vo.1
        vi.1 in
    elim (Bool-cases b) [
      | inr x ↦ (false, rw (e, x) refl, λ h. absurd (cc))
      | inl x ↦ (
        d,
        rw (e, x) f,
        λ h. Within-IsSubrange outer inner vo vi (λ r w. (
          start_sound outer.start outer.start_type inner.start inner.start_type r vo.0 vi.0
              (e ∙ ap some x) w.0,
          end_sound outer.end outer.end_type inner.end inner.end_type r vo.1 vi.1 (f ∙ ap some h)
              w.1,
        )),
      )
    ]

-- The answer of `rangeContains`: no test dereferences nil, and true is given for subranges only.
range_contains-answers :
    (outer inner : TimeRange)
    → IsInterval outer
    → IsInterval inner
    → (b : Bool) × (range_contains outer inner ≡ some b) × (b ≡ true → IsSubrange inner outer)
unfolding range_contains
range_contains-answers outer inner vo vi = elim (Bool-cases (is_eternity outer)) [
  | inl e ↦ (
    true,
    rw e refl,
    λ _. Within-IsSubrange outer inner vo vi (λ r _. eternity-Within outer r vo e),
  )
  | inr e ↦ elim (Bool-cases (is_empty inner)) [
    | inl f ↦ (
      true,
      rw (e, f) refl,
      λ _. Within-IsSubrange outer inner vo vi (λ r w. absurd (is_empty_sound inner r vi f w)),
    )
    | inr f ↦ elim (Bool-cases (is_eternity inner)) [
      | inl g ↦ (false, rw (e, f, g) refl, λ h. absurd (cc))
      | inr g ↦ rw (e, f, g) (sides_sound outer inner vo vi)
    ]
  ]
]

-- `rangeContains` of two ranges that are not the special empty one dereferences no nil.
pub range_contains-some :
    (outer inner : TimeRange)
    → IsInterval outer
    → IsInterval inner
    → (b : Bool) × (range_contains outer inner ≡ some b)
range_contains-some outer inner vo vi =
    let (b, e, _) = range_contains-answers outer inner vo vi in (b, e)

-- Where rangeContains answers true of two ranges that are not the special empty one, every valid
-- timestamp that Contains finds in the inner range it finds in the outer range.
pub range_contains_sound :
    (outer inner : TimeRange) (ts : Timestamp)
    → IsInterval outer
    → IsInterval inner
    → range_contains outer inner ≡ some true
    → IsValid ts
    → contains inner ts ≡ true
    → contains outer ts ≡ true
range_contains_sound outer inner ts vo vi h v c =
    let (b, e, f) = range_contains-answers outer inner vo vi in f (some-eq b (sym e ∙ h)) ts v c
  where
    some-eq : (b : Bool) → some b ≡ some true → b ≡ true
    some-eq b p = cc
