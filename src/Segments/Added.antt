-- ===== src/Segments/Added.antt =====
-- One `INSERT INTO segments` under the constraints of the table.
use open_tams.Prelude.{ℕ, true, false, List, [], ◌∷◌, ◌++◌, ◌≡◌, arith, refl, Bool-cases, inl, inr}
use open_tams.Prelude.Bytes.{Bytes}
use open_tams.Prelude.Int.{ℤ, ltb_ℤ}
use open_tams.Prelude.Result.{Returns, Returns-bind, ok, ensure}
use open_tams.Timerange.Nanos.{NsBounds}
use open_tams.Segments.{Segment, SegmentRow, existing_overlap, row_bounds, database}
use open_tams.Segments.Insert.{
  add_row, new_row, store_row, lower_param, upper_param, not_null, fits_int4,
}

-- What is known of a row that was inserted.
pub record IsAdded (row : SegmentRow) (rows rows' : List SegmentRow) : Type 0 where
  pub appended : rows' ≡ rows ++ row ∷ []
  pub disjoint : existing_overlap row.flow_id (row_bounds row) rows ≡ false
  pub nonempty : ltb_ℤ row.lower_ns row.upper_ns ≡ true

pub store_row-IsAdded :
    (row : SegmentRow) (rows : List SegmentRow) → Returns (IsAdded row rows) (store_row row rows)
unfolding store_row
store_row-IsAdded row rows = elim (Bool-cases (ltb_ℤ row.lower_ns row.upper_ns)) [
  | inr n ↦ rw n tt
  | inl n ↦ elim (Bool-cases (existing_overlap row.flow_id (row_bounds row) rows)) [
    | inl o ↦ rw (n, o) tt
    | inr o ↦ rw (n, o) (record { appended = refl; disjoint = o; nonempty = n })
  ]
]

not_null-lower : (b : NsBounds) (v : ℤ) → not_null (lower_param b) ≡ ok v → v ≡ b.lower
unfolding not_null lower_param
not_null-lower b v h = ground arith

not_null-upper : (b : NsBounds) (v : ℤ) → not_null (upper_param b) ≡ ok v → v ≡ b.upper
unfolding not_null upper_param
not_null-upper b v h = ground arith

pub add_row-IsAdded :
    (id : ℕ) (flow_id : Bytes) (now : ℕ) (seg : Segment) (b : NsBounds) (rows : List SegmentRow)
    → Returns
        (IsAdded (new_row id flow_id now seg b.lower b.upper) rows)
        (add_row id flow_id now seg b rows)
unfolding add_row
add_row-IsAdded id flow_id now seg b rows = Returns-bind _ (not_null (lower_param b)) _ λ lower e.
    Returns-bind _ (not_null (upper_param b)) _ λ upper e'.
      Returns-bind _ (ensure (fits_int4 seg.key_frame_count) database) _ λ _ _.
        rw (not_null-lower b lower e, not_null-upper b upper e')
          (store_row-IsAdded (new_row id flow_id now seg b.lower b.upper) rows)
