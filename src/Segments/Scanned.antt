-- ===== src/Segments/Scanned.antt =====
-- The items of a listing, read off the rows part by part.
use mathlib.Core.Path.{subst}
use open_tams.Prelude.Bytes.{length}
use open_tams.Segments.{SegmentRow}
use open_tams.Prelude.Result.{ok, Result-cases}
use open_tams.Prelude.Sort.{last?, drop, take, last?-cases, last?-more}
use open_tams.Segments.Listing.{scan_all, scan_row, Item}
use open_tams.Prelude.{[], inl, inr, none, refl, some, suc, zero, ◌∙◌, ◌∷◌, ◌≡◌, List, ℕ, ap, arith}

-- Scanning goes row by row.
scan_all-cons :
    (r : SegmentRow) (rs : List SegmentRow) (items : List Item)
    → scan_all (r ∷ rs) ≡ ok items
    → (i : Item) × (is : List Item) × (scan_row r ≡ ok i) × (scan_all rs ≡ ok is) × (items ≡ i ∷ is)
unfolding scan_all
scan_all-cons r rs items e = elim (Result-cases (scan_row r)) [
  | inr (x, p) ↦ absurd (ground arith)
  | inl (i, p) ↦ elim (Result-cases (scan_all rs)) [
    | inr (x, t) ↦ absurd (ground arith)
    | inl (is, t) ↦ (i, is, p, t, ground arith)
  ]
]

scan_all-nil : (items : List Item) → scan_all [] ≡ ok items → items ≡ []
unfolding scan_all
scan_all-nil items e = ground arith

pub scan_all-take :
    (n : ℕ) (rows : List SegmentRow) (items : List Item)
    → scan_all rows ≡ ok items
    → scan_all (take n rows) ≡ ok (take n items)
unfolding scan_all
scan_all-take zero rows items e = refl
scan_all-take (suc n) [] items e = rw (scan_all-nil items e)
scan_all-take (suc n) (r ∷ rs) items e =
    let (i, is, p, t, c) = scan_all-cons r rs items e in rw (p, c, scan_all-take n rs is t)

pub scan_all-drop :
    (n : ℕ) (rows : List SegmentRow) (items : List Item)
    → scan_all rows ≡ ok items
    → scan_all (drop n rows) ≡ ok (drop n items)
scan_all-drop zero rows items e = e
scan_all-drop (suc n) [] items e = rw (scan_all-nil items e) (unfold scan_all in refl)
scan_all-drop (suc n) (r ∷ rs) items e =
    let (i, is, p, t, c) = scan_all-cons r rs items e in rw c (scan_all-drop n rs is t)

pub length-scan_all :
    (rows : List SegmentRow) (items : List Item)
    → scan_all rows ≡ ok items
    → length items ≡ length rows
length-scan_all [] items e = rw (scan_all-nil items e)
length-scan_all (r ∷ rs) items e =
    let (i, is, p, t, c) = scan_all-cons r rs items e in rw c (ap suc (length-scan_all rs is t))

-- A scanned row keeps the columns of the cursor.
pub record HasKey (r : SegmentRow) (i : Item) : Type 0 where
  pub lower : i.lower_ns ≡ r.lower_ns
  pub id : i.seg_id ≡ r.id

scan_row-HasKey : (r : SegmentRow) (i : Item) → scan_row r ≡ ok i → HasKey r i
unfolding scan_row
scan_row-HasKey r i e = ground arith

last?-nil : (items : List Item) → last? items ≡ none → items ≡ []
last?-nil [] e = refl
last?-nil (i ∷ is) e = ground arith

-- The last items of both lists belong together.
pub last?-scan_all :
    (rows : List SegmentRow) (items : List Item) (r : SegmentRow)
    → scan_all rows ≡ ok items
    → last? rows ≡ some r
    → (i : Item) × (last? items ≡ some i) × HasKey r i
last?-scan_all [] items r e l = absurd (cc)
last?-scan_all (x ∷ []) items r e l =
    let (i, is, p, t, c) = scan_all-cons x [] items e in
    let first : x ≡ r = cc in
    (
      i,
      ap last? (c ∙ ap (λ l. i ∷ l) (scan_all-nil is t)),
      subst (λ z. HasKey z i) first (scan_row-HasKey x i p),
    )
last?-scan_all (x ∷ y ∷ rs) items r e l =
    let (i, is, p, t, c) = scan_all-cons x (y ∷ rs) items e in
    let (ys, z, w, m) = last?-cases y rs in
    let (j, f, k) = last?-scan_all (y ∷ rs) is r t (ground arith) in
    (j, ap last? c ∙ last?-more i is j f, k)
