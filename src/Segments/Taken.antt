-- ===== src/Segments/Taken.antt =====
-- internal/metastore/segments.go, the `DELETE` of `DeleteSegmentsByTimerange`: which rows it takes.
use open_tams.Segments.Conditions.{Fits}
use open_tams.Segments.{SegmentRow}
use open_tams.Timerange.Nanos.{NsBounds}
use open_tams.Segments.Insert.{lower_param, upper_param}
use open_tams.Segments.Write.{is_covered, remaining, deleted}
use open_tams.Prelude.Bytes.{Bytes, length, bytes_eq_iff}
use open_tams.Prelude.{
  [], inl, inr, none, some, suc, true, ◌∷◌, ◌≡◌, ◌⊎◌, Option, List, arith, ℕ, Bool-cases, ap, sym,
}

-- A row of the flow that lies within the bounds, and refers to the object where one is named.
abbrev pub IsChosen : Bytes → NsBounds → Option Bytes → SegmentRow → Type 0
IsChosen flow_id b object r =
    (r.flow_id ≡ flow_id) × Fits b r × ((object ≡ none) ⊎ (object ≡ some r.segment_object))

-- The rows before and after, and how many were taken: those that are chosen and no other.
pub data Thinned (flow_id : Bytes) (b : NsBounds) (object : Option Bytes)
    : List SegmentRow → List SegmentRow → ℕ → Type 0 where
  nil : Thinned flow_id b object [] [] 0
  taken :
      (r : SegmentRow) (rows rows' : List SegmentRow) (n : ℕ)
      → IsChosen flow_id b object r
      → Thinned flow_id b object rows rows' n
      → Thinned flow_id b object (r ∷ rows) rows' (suc n)
  left :
      (r : SegmentRow) (rows rows' : List SegmentRow) (n : ℕ)
      → ¬ (IsChosen flow_id b object r)
      → Thinned flow_id b object rows rows' n
      → Thinned flow_id b object (r ∷ rows) (r ∷ rows') n

is_covered-IsChosen :
    (flow_id : Bytes) (b : NsBounds) (object : Option Bytes) (r : SegmentRow)
    → is_covered flow_id (lower_param b) (upper_param b) object r ≡ true
    → IsChosen flow_id b object r
unfolding is_covered lower_param upper_param
is_covered-IsChosen flow_id b none r h = ground (arith, bytes_eq_iff r.flow_id flow_id)
is_covered-IsChosen flow_id b (some o) r h =
    let same : r.segment_object ≡ o = ground (arith, bytes_eq_iff r.segment_object o) in
    (ground (arith, bytes_eq_iff r.flow_id flow_id), ground arith, inr (ap some (sym same)))

IsChosen-is_covered :
    (flow_id : Bytes) (b : NsBounds) (object : Option Bytes) (r : SegmentRow)
    → IsChosen flow_id b object r
    → is_covered flow_id (lower_param b) (upper_param b) object r ≡ true
unfolding is_covered lower_param upper_param
IsChosen-is_covered flow_id b none r h = ground (arith, bytes_eq_iff r.flow_id flow_id)
IsChosen-is_covered flow_id b (some o) r h =
    ground (arith, bytes_eq_iff r.flow_id flow_id, bytes_eq_iff r.segment_object o)

pub remaining-Thinned :
    (flow_id : Bytes) (b : NsBounds) (object : Option Bytes) (rows : List SegmentRow)
    → Thinned flow_id b object rows
        (remaining (is_covered flow_id (lower_param b) (upper_param b) object) rows)
        (length (deleted (is_covered flow_id (lower_param b) (upper_param b) object) rows))
unfolding remaining deleted
remaining-Thinned flow_id b object [] = nil
remaining-Thinned flow_id b object (r ∷ rows) =
    elim (Bool-cases (is_covered flow_id (lower_param b) (upper_param b) object r)) [
      | inl e ↦ rw e (
          taken r rows _ _ (is_covered-IsChosen flow_id b object r e)
            (remaining-Thinned flow_id b object rows))
      | inr e ↦ rw e (
          left r rows _ _ (λ c. absurd (ground (arith, IsChosen-is_covered flow_id b object r c)))
            (remaining-Thinned flow_id b object rows))
    ]
