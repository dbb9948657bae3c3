-- ===== src/Segments/Batch.antt =====
-- internal/metastore/segments.go: the rows that an insertion adds for its batch.
-- The rows of a batch, with the bounds that `NsBounds` gave.
use mathlib.Core.Path.{subst}
use open_tams.Segments.Added.{IsAdded, add_row-IsAdded}
use mathlib.Core.List.{append-nil, append_assoc}
use open_tams.Timerange.Nanos.Meaning.{InBounds}
use open_tams.Prelude.Sort.{All}
use open_tams.Prelude.Int.{ℤ}
use open_tams.Prelude.Bytes.{Bytes}
use open_tams.Segments.Insert.{add_rows, new_row, add_row}
use open_tams.Timerange.Nanos.{NsBounds, ns_bounds}
use open_tams.Segments.{
  batch_overlaps, one_bound, overlaps_any, segment_bounds, Faults, of_ns, bounds_overlap, Segment,
  SegmentRow, call, Step,
}
use open_tams.Prelude.Result.{ok, Result-cases, Returns, Returns-bind, Returns-ok}
use open_tams.Prelude.{List, [], false, inl, inr, refl, ℕ, ◌++◌, ◌+◌, ◌∙◌, ◌∷◌, ◌≡◌, arith, sym, ap}

unfoldable pub batch_rows : (ℕ → ℕ) → Bytes → ℕ → ℕ → List Segment → List NsBounds → List SegmentRow
batch_rows ids flow_id now i (seg ∷ segs) (b ∷ bs) =
    new_row (ids i) flow_id now seg b.lower b.upper ∷ batch_rows ids flow_id now (i + 1) segs bs
batch_rows ids flow_id now i _ _ = []

pub add_rows-eq :
    (faults : Faults) (ids : ℕ → ℕ) (flow_id : Bytes) (now i : ℕ) (segs : List Segment)
    (bs : List NsBounds) (rows : List SegmentRow)
    → Returns
        (λ rows'. rows' ≡ rows ++ batch_rows ids flow_id now i segs bs)
        (add_rows faults ids flow_id now i segs bs rows)
unfolding add_rows batch_rows
add_rows-eq faults ids flow_id now i [] bs rows = sym (append-nil rows)
add_rows-eq faults ids flow_id now i (seg ∷ segs) [] rows = sym (append-nil rows)
add_rows-eq faults ids flow_id now i (seg ∷ segs) (b ∷ bs) rows =
    Returns-bind _ (call faults (Step.insert_row i)) _ λ _ _.
      Returns-bind _ (add_row (ids i) flow_id now seg b rows) _ λ rows' e.
        let row = new_row (ids i) flow_id now seg b.lower b.upper in
        let added =
          Returns-ok (IsAdded row rows) _ rows' (add_row-IsAdded (ids i) flow_id now seg b rows)
            e in
        subst (λ l. Returns (λ r. r ≡ l) (add_rows faults ids flow_id now (i + 1) segs bs rows'))
          (ap (λ l. l ++ batch_rows ids flow_id now (i + 1) segs bs) added.appended
            ∙ append_assoc rows (row ∷ []) (batch_rows ids flow_id now (i + 1) segs bs))
          (add_rows-eq faults ids flow_id now (i + 1) segs bs rows')

-- What the batch is after `NsBounds`: bounds of which no two hold a common nanosecond.
abbrev pub Parted : NsBounds → NsBounds → Type 0
Parted a b = (z : ℤ) → ¬ (InBounds a z × InBounds b z)

abbrev pub IsParted : List NsBounds → Type 0
IsParted [] = Unit {0}
IsParted (b ∷ bs) = All (Parted b) bs × IsParted bs

-- A row for each segment of a batch, in order: of the flow, with the segment's object and the text of
-- its time range, and with the bounds of that range.
pub data Inserted (flow_id : Bytes) : List Segment → List NsBounds → List SegmentRow → Type 0 where
  nil : Inserted flow_id [] [] []
  row :
      (seg : Segment) (b : NsBounds) (r : SegmentRow) (segs : List Segment) (bs : List NsBounds)
      (rs : List SegmentRow)
      → ns_bounds seg.timerange ≡ ok b
      → r.flow_id ≡ flow_id
      → r.segment_object ≡ seg.object_id
      → r.stored_timerange ≡ seg.timerange_raw
      → r.lower_ns ≡ b.lower
      → r.upper_ns ≡ b.upper
      → Inserted flow_id segs bs rs
      → Inserted flow_id (seg ∷ segs) (b ∷ bs) (r ∷ rs)

overlaps_any-Parted :
    (b : NsBounds) (bs : List NsBounds) → overlaps_any b bs ≡ false → All (Parted b) bs
unfolding overlaps_any bounds_overlap
overlaps_any-Parted b [] e = tt
overlaps_any-Parted b (c ∷ cs) e = (λ z h. ground arith, overlaps_any-Parted b cs (ground arith))

pub batch_overlaps-IsParted : (bs : List NsBounds) → batch_overlaps bs ≡ false → IsParted bs
unfolding batch_overlaps
batch_overlaps-IsParted [] e = tt
batch_overlaps-IsParted (b ∷ bs) e =
    (overlaps_any-Parted b bs (ground arith), batch_overlaps-IsParted bs (ground arith))

one_bound-ok :
    (seg : Segment) (b : NsBounds) → one_bound seg ≡ ok b → ns_bounds seg.timerange ≡ ok b
unfolding one_bound of_ns
one_bound-ok seg b e = elim (Result-cases (ns_bounds seg.timerange)) [
  | inl (c, q) ↦ ground arith
  | inr (x, q) ↦ absurd (ground arith)
]

pub batch_rows-Inserted :
    (ids : ℕ → ℕ) (flow_id : Bytes) (now i : ℕ) (batch : List Segment) (bounds : List NsBounds)
    → segment_bounds batch ≡ ok bounds
    → Inserted flow_id batch bounds (batch_rows ids flow_id now i batch bounds)
unfolding segment_bounds batch_rows new_row
batch_rows-Inserted ids flow_id now i [] bounds e = let same : bounds ≡ [] = cc in rw same nil
batch_rows-Inserted ids flow_id now i (seg ∷ segs) bounds e = elim (Result-cases (one_bound seg)) [
  | inr (x, q) ↦ absurd (ground arith)
  | inl (b, q) ↦ elim (Result-cases (segment_bounds segs)) [
    | inr (x, r) ↦ absurd (ground arith)
    | inl (bs, r) ↦
        let same : bounds ≡ b ∷ bs = ground arith in
        rw same (
          row seg b _ segs bs _ (one_bound-ok seg b q) refl refl refl refl refl
            (batch_rows-Inserted ids flow_id now (i + 1) segs bs r))
  ]
]
