-- ===== src/Segments/Consistent.antt =====
-- What a consistent store is: the segments of a flow hold points and lie apart, and the count of
-- an object is the number of the segments that refer to it, or exceeds it by a drift that is known.
use open_tams.Prelude.Sort.{All}
use open_tams.Prelude.Result.{Returns, Returns-bind, Returns-ok}
use open_tams.Timerange.Nanos.{NsBounds}
use open_tams.Segments.References.{refs, references}
use open_tams.Prelude.Bytes.{Bytes, bytes_eq, bytes_eq_iff}
use open_tams.Prelude.Int.{◌<ℤ◌, ◌≤ℤ◌, pos}
use open_tams.Segments.Added.{IsAdded, add_row-IsAdded}
use open_tams.Prelude.{
  List, inr, ◌+◌, [], ◌++◌, false, ◌≡◌, ◌∷◌, ◌⊎◌, Bool, inl, ◌&&◌, ℕ, Bool-cases, arith,
}
use open_tams.Segments.{
  SegmentRow, Store, existing_overlap, ranges_overlap, Faults, row_bounds, Segment, call, Step,
}
use open_tams.Segments.Write.{remaining}
use open_tams.Segments.Insert.{add_rows, add_row, new_row}

-- Two rows of one flow do not share a nanosecond.
abbrev pub Separate : SegmentRow → SegmentRow → Type 0
Separate q r = q.flow_id ≡ r.flow_id → (q.upper_ns ≤ℤ r.lower_ns) ⊎ (r.upper_ns ≤ℤ q.lower_ns)

abbrev pub Apart : SegmentRow → List SegmentRow → Type 0
Apart q rs = All (Separate q) rs

abbrev pub Disjoint : List SegmentRow → Type 0
Disjoint [] = Unit {0}
Disjoint (r ∷ rs) = Apart r rs × Disjoint rs

abbrev pub HasPoints : SegmentRow → Type 0
HasPoints r = r.lower_ns <ℤ r.upper_ns

abbrev pub Nonempty : List SegmentRow → Type 0
Nonempty rows = All HasPoints rows

pub record IsDrifted (drift : Bytes → ℕ) (s : Store) : Type 0 where
  pub disjoint : Disjoint s.segments
  pub nonempty : Nonempty s.segments
  pub counted :
      (object : Bytes) → refs object s.objects ≡ pos (drift object + references object s.segments)

abbrev pub IsConsistent : Store → Type 0
IsConsistent = IsDrifted (λ object. 0)

overlap-Separate :
    (q r : SegmentRow)
    → q.lower_ns <ℤ q.upper_ns
    → r.lower_ns <ℤ r.upper_ns
    → (bytes_eq q.flow_id r.flow_id && ranges_overlap (row_bounds q) (row_bounds r)) ≡ false
    → Separate q r
unfolding ranges_overlap row_bounds
overlap-Separate q r h k e same = ground (arith, bytes_eq_iff q.flow_id r.flow_id)

-- A row that the lookup of overlaps does not find lies apart from the rows that are there.
Apart-append :
    (q r : SegmentRow) (rs : List SegmentRow) → Apart q rs → Separate q r → Apart q (rs ++ r ∷ [])
Apart-append q r [] h s = (s, tt)
Apart-append q r (p ∷ rs) h s = (h.0, Apart-append q r rs h.1 s)

Disjoint-append :
    (r : SegmentRow) (rows : List SegmentRow)
    → Disjoint rows
    → Nonempty rows
    → r.lower_ns <ℤ r.upper_ns
    → existing_overlap r.flow_id (row_bounds r) rows ≡ false
    → Disjoint (rows ++ r ∷ [])
unfolding existing_overlap
Disjoint-append r [] d n h e = (tt, tt)
Disjoint-append r (q ∷ rows) d n h e =
    elim (Bool-cases
      (bytes_eq q.flow_id r.flow_id && ranges_overlap (row_bounds q) (row_bounds r))) [
        | inl o ↦ absurd (ground arith)
        | inr o ↦ (
          Apart-append q r rows d.0 (overlap-Separate q r n.0 h o),
          Disjoint-append r rows d.1 n.1 h (rw o at e),
        )
      ]

Nonempty-append :
    (r : SegmentRow) (rows : List SegmentRow)
    → Nonempty rows
    → r.lower_ns <ℤ r.upper_ns
    → Nonempty (rows ++ r ∷ [])
Nonempty-append r [] n h = (h, tt)
Nonempty-append r (q ∷ rows) n h = (n.0, Nonempty-append r rows n.1 h)

-- What one `INSERT` keeps.
pub IsAdded-keeps :
    (r : SegmentRow) (rows rows' : List SegmentRow)
    → IsAdded r rows rows'
    → Disjoint rows
    → Nonempty rows
    → Disjoint rows' × Nonempty rows'
IsAdded-keeps r rows rows' a d n =
    let h : r.lower_ns <ℤ r.upper_ns = unfold ranges_overlap in ground (arith, a.nonempty) in
    rw a.appended (Disjoint-append r rows d n h a.disjoint, Nonempty-append r rows n h)

pub add_rows-keeps :
    (faults : Faults) (ids : ℕ → ℕ) (flow_id : Bytes) (now i : ℕ) (segs : List Segment)
    (bs : List NsBounds) (rows : List SegmentRow)
    → Disjoint rows
    → Nonempty rows
    → Returns
        (λ rows'. Disjoint rows' × Nonempty rows')
        (add_rows faults ids flow_id now i segs bs rows)
unfolding add_rows
add_rows-keeps faults ids flow_id now i [] bs rows d n = (d, n)
add_rows-keeps faults ids flow_id now i (seg ∷ segs) [] rows d n = (d, n)
add_rows-keeps faults ids flow_id now i (seg ∷ segs) (b ∷ bs) rows d n =
    Returns-bind _ (call faults (Step.insert_row i)) _ λ _ _.
      Returns-bind _ (add_row (ids i) flow_id now seg b rows) _ λ rows' e.
        let row = new_row (ids i) flow_id now seg b.lower b.upper in
        let kept =
          IsAdded-keeps row rows rows'
            (Returns-ok (IsAdded row rows) _ rows' (add_row-IsAdded (ids i) flow_id now seg b rows)
              e)
            d n in
        add_rows-keeps faults ids flow_id now (i + 1) segs bs rows' kept.0 kept.1

-- A deletion keeps what holds of all rows and of all pairs.
Apart-remaining :
    (q : SegmentRow) (p : SegmentRow → Bool) (rows : List SegmentRow)
    → Apart q rows
    → Apart q (remaining p rows)
unfolding remaining
Apart-remaining q p [] h = tt
Apart-remaining q p (r ∷ rs) h = elim (Bool-cases (p r)) [
  | inl e ↦ rw e (Apart-remaining q p rs h.1)
  | inr e ↦ rw e (h.0, Apart-remaining q p rs h.1)
]

pub Disjoint-remaining :
    (p : SegmentRow → Bool) (rows : List SegmentRow) → Disjoint rows → Disjoint (remaining p rows)
unfolding remaining
Disjoint-remaining p [] h = tt
Disjoint-remaining p (r ∷ rs) h = elim (Bool-cases (p r)) [
  | inl e ↦ rw e (Disjoint-remaining p rs h.1)
  | inr e ↦ rw e (Apart-remaining r p rs h.0, Disjoint-remaining p rs h.1)
]

pub Nonempty-remaining :
    (p : SegmentRow → Bool) (rows : List SegmentRow) → Nonempty rows → Nonempty (remaining p rows)
unfolding remaining
Nonempty-remaining p [] h = tt
Nonempty-remaining p (r ∷ rs) h = elim (Bool-cases (p r)) [
  | inl e ↦ rw e (Nonempty-remaining p rs h.1)
  | inr e ↦ rw e (h.0, Nonempty-remaining p rs h.1)
]
