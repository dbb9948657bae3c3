-- ===== src/Segments/References.antt =====
-- The counts of references: how the statements on objects and on segments change them.
use native.Mathlib.Nat.{add_assoc}
use open_tams.Prelude.{
  suc, ap, ℕ, ◌+◌, Bool, Option, none, some, List, [], ◌∷◌, ◌++◌, ◌≡◌, if◌then◌else◌, arith, refl,
  Bool-cases, Option-cases, inl, inr, sym, ◌∙◌,
}
use open_tams.Prelude.Bytes.{Bytes, bytes_eq, bytes_eq_iff, bytes_eq_refl, length}
use open_tams.Prelude.Int.{ℤ, pos, ◌+ℤ◌, ◌-ℤ◌}
use open_tams.Prelude.Result.{Returns-ok, ok, Returns, Returns-bind}
use open_tams.Timerange.Nanos.{NsBounds}
use open_tams.Segments.{
  Segment, SegmentRow, ObjectRow, Step, Faults, upsert, segment_bounds, one_bound, call,
}
use open_tams.Segments.Insert.{new_row, upsert_objects, storage_of, claim, add_row, add_rows}
use open_tams.Segments.Added.{IsAdded, add_row-IsAdded}
use open_tams.Segments.Write.{
  deleted, remaining, group_counts, add_to_group, subtract, decrement_all,
}

-- The recorded count of an object, zero if the object is not there.
unfoldable pub refs : Bytes → List ObjectRow → ℤ
refs id [] = pos 0
refs id (o ∷ os) = let rest = refs id os in if bytes_eq o.id id then o.ref_count else rest

-- The rows of segments that refer to an object, and the segments of a batch.
abbrev pub one_if : Bool → ℕ
one_if b = if b then 1 else 0

unfoldable pub references : Bytes → List SegmentRow → ℕ
references id [] = 0
references id (r ∷ rs) = one_if (bytes_eq r.segment_object id) + references id rs

pub batch_references : Bytes → List Segment → ℕ
batch_references id [] = 0
batch_references id (seg ∷ segs) = one_if (bytes_eq seg.object_id id) + batch_references id segs

pub refs-upsert :
    (j id : Bytes) (storage : Option Bytes) (objects objects' : List ObjectRow) (n : ℕ)
    → refs j objects ≡ pos n
    → upsert id storage objects ≡ some objects'
    → refs j objects' ≡ pos (n + one_if (bytes_eq id j))
unfolding refs upsert ◌+ℤ◌
refs-upsert j id storage [] objects' n h e = ground arith
refs-upsert j id storage (o ∷ os) objects' n h e = elim (Bool-cases (bytes_eq o.id id)) [
  | inl p ↦ ground (arith, bytes_eq_iff o.id id)
  | inr p ↦ elim (Option-cases (upsert id storage os)) [
    | inl q ↦ absurd (ground arith)
    | inr (os', q) ↦ ground (
      arith,
      refs-upsert j id storage os os' n,
      bytes_eq_iff id j,
      bytes_eq_iff o.id j,
      bytes_eq_refl j,
    )
  ]
]

pub references-append :
    (j : Bytes) (rs ts : List SegmentRow)
    → references j (rs ++ ts) ≡ references j rs + references j ts
unfolding references
references-append j [] ts = omega arith
references-append j (r ∷ rs) ts = rw (references-append j rs ts) (omega arith)

-- A deletion splits the references in two.
pub references-remaining :
    (j : Bytes) (p : SegmentRow → Bool) (rows : List SegmentRow)
    → references j (remaining p rows) + references j (deleted p rows) ≡ references j rows
unfolding references remaining deleted
references-remaining j p [] = refl
references-remaining j p (r ∷ rs) = ground (arith, references-remaining j p rs)

-- The sum of the groups of an object.
pub grouped : Bytes → List (Bytes × ℕ) → ℕ
grouped j [] = 0
grouped j (g ∷ gs) = (if bytes_eq g.0 j then g.1 else 0) + grouped j gs

grouped-add_to_group :
    (j object : Bytes) (gs : List (Bytes × ℕ))
    → grouped j (add_to_group object gs) ≡ one_if (bytes_eq object j) + grouped j gs
unfolding grouped add_to_group
grouped-add_to_group j object [] = refl
grouped-add_to_group j object (g ∷ gs) =
    ground (arith, grouped-add_to_group j object gs, bytes_eq_iff g.0 object)

pub grouped-group_counts :
    (j : Bytes) (rows : List SegmentRow) → grouped j (group_counts rows) ≡ references j rows
unfolding grouped group_counts references
grouped-group_counts j [] = refl
grouped-group_counts j (r ∷ rs) =
    grouped-add_to_group j r.segment_object (group_counts rs)
    ∙ (rw (grouped-group_counts j rs) refl)

refs-subtract :
    (j : Bytes) (object : Bytes) (n m : ℕ) (objects : List ObjectRow)
    → refs j objects ≡ pos ((if bytes_eq object j then n else 0) + m)
    → refs j (subtract object n objects) ≡ pos m
unfolding refs subtract ◌-ℤ◌
refs-subtract j object n m [] h = ground arith
refs-subtract j object n m (o ∷ os) h = elim (Bool-cases (bytes_eq o.id object)) [
  | inl p ↦ rw p (
      ground (
        arith,
        refs-subtract j object n m os,
        bytes_eq_iff o.id object,
        bytes_eq_iff o.id j,
        bytes_eq_iff object j,
      ))
  | inr p ↦ rw p (
      ground (
        arith,
        refs-subtract j object n m os,
        bytes_eq_iff o.id object,
        bytes_eq_iff o.id j,
        bytes_eq_iff object j,
      ))
]

-- The loops that make up the transactions.
pub refs-upsert_objects :
    (faults : Faults) (controlled : Bytes) (i : ℕ) (segs : List Segment) (objects : List ObjectRow)
    (j : Bytes) (n : ℕ)
    → refs j objects ≡ pos n
    → Returns
        (λ objects'. refs j objects' ≡ pos (n + batch_references j segs))
        (upsert_objects faults controlled i segs objects)
unfolding upsert_objects batch_references claim
refs-upsert_objects faults controlled i [] objects j n h = ground arith
refs-upsert_objects faults controlled i (seg ∷ segs) objects j n h =
    Returns-bind _ (storage_of controlled seg) _ λ storage _.
      Returns-bind _ (call faults (Step.upsert_object i)) _ λ _ _.
        Returns-bind _ (claim (upsert seg.object_id storage objects)) _ λ objects' e.
          rw (sym (add_assoc n (one_if (bytes_eq seg.object_id j)) (batch_references j segs))) (
            refs-upsert_objects faults controlled (i + 1) segs objects' j
              (n + one_if (bytes_eq seg.object_id j))
              (refs-upsert j seg.object_id storage objects objects' n h
                (claimed (upsert seg.object_id storage objects) objects' e)))
  where
    claimed : (o : Option (List ObjectRow)) (os : List ObjectRow) → claim o ≡ ok os → o ≡ some os
    claimed none os e = absurd (cc)
    claimed (some os') os e = ground arith

pub references-add_rows :
    (faults : Faults) (ids : ℕ → ℕ) (flow_id : Bytes) (now i : ℕ) (segs : List Segment)
    (bs : List NsBounds) (rows : List SegmentRow) (j : Bytes)
    → length bs ≡ length segs
    → Returns
        (λ rows'. references j rows' ≡ references j rows + batch_references j segs)
        (add_rows faults ids flow_id now i segs bs rows)
unfolding add_rows batch_references references new_row
references-add_rows faults ids flow_id now i [] bs rows j h = omega arith
references-add_rows faults ids flow_id now i (seg ∷ segs) [] rows j h = absurd (omega arith)
references-add_rows faults ids flow_id now i (seg ∷ segs) (b ∷ bs) rows j h =
    Returns-bind _ (call faults (Step.insert_row i)) _ λ _ _.
      Returns-bind _ (add_row (ids i) flow_id now seg b rows) _ λ rows' e.
        rw
          (added rows' (
            Returns-ok (IsAdded (new_row (ids i) flow_id now seg b.lower b.upper) rows) _ rows'
              (add_row-IsAdded (ids i) flow_id now seg b rows) e))
          (references-add_rows faults ids flow_id now (i + 1) segs bs rows' j (omega arith))
  where
    added :
        (rows' : List SegmentRow)
        → IsAdded (new_row (ids i) flow_id now seg b.lower b.upper) rows rows'
        → references j rows + (one_if (bytes_eq seg.object_id j) + batch_references j segs)
          ≡ references j rows' + batch_references j segs
    added rows' a =
        rw
          (
            a.appended,
            references-append j rows (new_row (ids i) flow_id now seg b.lower b.upper ∷ []),
          )
          (omega arith)

pub length-segment_bounds :
    (segs : List Segment) → Returns (λ bs. length bs ≡ length segs) (segment_bounds segs)
unfolding segment_bounds
length-segment_bounds [] = refl
length-segment_bounds (seg ∷ segs) = Returns-bind _ (one_bound seg) _ λ b _.
    Returns-bind _ (segment_bounds segs) _ λ bs e.
      ap suc (Returns-ok (λ bs. length bs ≡ length segs) _ bs (length-segment_bounds segs) e)

-- Each group is subtracted from the count of its object.
pub refs-decrement_all :
    (faults : Faults) (i : ℕ) (gs : List (Bytes × ℕ)) (objects : List ObjectRow) (j : Bytes) (m : ℕ)
    → refs j objects ≡ pos (grouped j gs + m)
    → Returns (λ objects'. refs j objects' ≡ pos m) (decrement_all faults i gs objects)
unfolding decrement_all grouped
refs-decrement_all faults i [] objects j m h = ground arith
refs-decrement_all faults i (g ∷ gs) objects j m h =
    Returns-bind _ (call faults (Step.decrement i)) _ λ _ _.
      refs-decrement_all faults (i + 1) gs (subtract g.0 g.1 objects) j m (
        refs-subtract j g.0 g.1 (grouped j gs + m) objects
          (rw (add_assoc (if bytes_eq g.0 j then g.1 else 0) (grouped j gs) m) at h))
