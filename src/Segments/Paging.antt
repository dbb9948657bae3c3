-- ===== src/Segments/Paging.antt =====
-- The sorted rows that a listing matches, and the part of them behind a cursor.
use open_tams.Segments.Consistent.{Disjoint, Nonempty, Separate, Apart}
use open_tams.Prelude.Bytes.{Bytes, bytes_eq_iff}
use open_tams.Segments.{SegmentRow}
use open_tams.Prelude.Sort.{
  select, IsStrictOrder, Strict, take, sort, sort-Strict, select_beyond, Distinct, Comparable, All,
  select-select, select-sort,
}
use open_tams.Segments.Listing.{ListQuery, beyond, is_behind, matches, precedes, query_rows}
use open_tams.Prelude.Int.{pos, ◌<ℤ◌, ℤ}
use open_tams.Prelude.{
  [], false, inl, inr, none, refl, some, true, ◌&&◌, ◌++◌, ◌∙◌, ◌∷◌, ◌≡◌, Bool, List, Option, ℕ, ap,
  arith, Bool-cases, sym,
}

pub precedes-IsStrictOrder : (reverse : Bool) → IsStrictOrder (precedes reverse)
unfolding precedes
precedes-IsStrictOrder true = record {
  asym = λ x y h. ground arith;
  trans = λ x y z h k. ground arith;
}
precedes-IsStrictOrder false = record {
  asym = λ x y h. ground arith;
  trans = λ x y z h k. ground arith;
}

beyond-precedes :
    (reverse : Bool) (r : SegmentRow)
    → (λ x. beyond reverse (r.lower_ns, pos r.id) x) ≡ precedes reverse r
unfolding beyond precedes
beyond-precedes true r = refl
beyond-precedes false r = refl

-- The rows of one flow differ in the column by which they are sorted.
Separate-Comparable :
    (reverse : Bool) (q r : SegmentRow)
    → q.lower_ns <ℤ q.upper_ns
    → r.lower_ns <ℤ r.upper_ns
    → Separate q r
    → q.flow_id ≡ r.flow_id
    → Comparable (precedes reverse) q r
unfolding precedes
Separate-Comparable true q r h k s e = elim (s e) [
  | inl a ↦ inr (ground arith)
  | inr a ↦ inl (ground arith)
]
Separate-Comparable false q r h k s e = elim (s e) [
  | inl a ↦ inl (ground arith)
  | inr a ↦ inr (ground arith)
]

Apart-Comparable :
    (reverse : Bool) (passes : SegmentRow → Bool) (flow_id : Bytes) (q : SegmentRow)
    (rs : List SegmentRow)
    → ((r : SegmentRow) → passes r ≡ true → r.flow_id ≡ flow_id)
    → q.flow_id ≡ flow_id
    → q.lower_ns <ℤ q.upper_ns
    → Nonempty rs
    → Apart q rs
    → All (Comparable (precedes reverse) q) (select passes rs)
unfolding select
Apart-Comparable reverse passes flow_id q [] w e h n a = tt
Apart-Comparable reverse passes flow_id q (r ∷ rs) w e h n a = elim (Bool-cases (passes r)) [
  | inl p ↦ rw p (
    Separate-Comparable reverse q r h n.0 a.0 (e ∙ sym (w r p)),
    Apart-Comparable reverse passes flow_id q rs w e h n.1 a.1,
  )
  | inr p ↦ rw p (Apart-Comparable reverse passes flow_id q rs w e h n.1 a.1)
]

select-Distinct :
    (reverse : Bool) (passes : SegmentRow → Bool) (flow_id : Bytes) (rows : List SegmentRow)
    → ((r : SegmentRow) → passes r ≡ true → r.flow_id ≡ flow_id)
    → Disjoint rows
    → Nonempty rows
    → Distinct (precedes reverse) (select passes rows)
unfolding select
select-Distinct reverse passes flow_id [] w d n = tt
select-Distinct reverse passes flow_id (r ∷ rs) w d n = elim (Bool-cases (passes r)) [
  | inl p ↦ rw p (
    Apart-Comparable reverse passes flow_id r rs w (w r p) n.0 n.1 d.0,
    select-Distinct reverse passes flow_id rs w d.1 n.1,
  )
  | inr p ↦ rw p (select-Distinct reverse passes flow_id rs w d.1 n.1)
]

matches-flow :
    (flow_id : Bytes) (object : Option Bytes) (bounds : Option ℤ × Option ℤ) (r : SegmentRow)
    → matches flow_id object bounds r ≡ true
    → r.flow_id ≡ flow_id
unfolding matches
matches-flow flow_id object bounds r h = ground (arith, bytes_eq_iff r.flow_id flow_id)

-- All rows that a query is about, in its order.
unfoldable pub matching : ListQuery → Option ℤ × Option ℤ → List SegmentRow → List SegmentRow
matching q bounds rows =
    sort (precedes q.reverse_order) (select (matches q.flow_id q.object_id bounds) rows)

matched-Distinct :
    (q : ListQuery) (bounds : Option ℤ × Option ℤ) (rows : List SegmentRow)
    → Disjoint rows
    → Nonempty rows
    → Distinct (precedes q.reverse_order) (select (matches q.flow_id q.object_id bounds) rows)
matched-Distinct q bounds rows d n =
    select-Distinct q.reverse_order (matches q.flow_id q.object_id bounds) q.flow_id rows
      (matches-flow q.flow_id q.object_id bounds) d n

pub matching-Strict :
    (q : ListQuery) (bounds : Option ℤ × Option ℤ) (rows : List SegmentRow)
    → Disjoint rows
    → Nonempty rows
    → Strict (precedes q.reverse_order) (matching q bounds rows)
unfolding matching
matching-Strict q bounds rows d n =
    sort-Strict (precedes q.reverse_order) (precedes-IsStrictOrder q.reverse_order) _
      (matched-Distinct q bounds rows d n)

-- The statement with the cursor reads a beginning of the matching rows behind the cursor.
pub query_rows-eq :
    (q : ListQuery) (bounds : Option ℤ × Option ℤ) (cursor : Option (ℤ × ℤ)) (n : ℕ)
    (rows : List SegmentRow)
    → Disjoint rows
    → Nonempty rows
    → query_rows q.reverse_order
        (λ r. matches q.flow_id q.object_id bounds r && is_behind q.reverse_order cursor r)
        n
        rows
      ≡ take n (select (is_behind q.reverse_order cursor) (matching q bounds rows))
unfolding query_rows matching
query_rows-eq q bounds cursor n rows d k = ap (take n) (
    ap (sort (precedes q.reverse_order)) (
      sym (
        select-select (is_behind q.reverse_order cursor) (matches q.flow_id q.object_id bounds)
          rows))
    ∙ sym (
        select-sort (precedes q.reverse_order) (precedes-IsStrictOrder q.reverse_order)
          (is_behind q.reverse_order cursor) _ (matched-Distinct q bounds rows d k)))

select_true :
    (reverse : Bool) (rows : List SegmentRow) → select (is_behind reverse none) rows ≡ rows
unfolding select is_behind
select_true reverse [] = refl
select_true reverse (r ∷ rs) = ap (λ l. r ∷ l) (select_true reverse rs)

-- What stands behind a cursor: everything behind none, and the rows behind the row that it was made of.
pub behind-none :
    (q : ListQuery) (bounds : Option ℤ × Option ℤ) (rows : List SegmentRow)
    → select (is_behind q.reverse_order none) (matching q bounds rows) ≡ matching q bounds rows
behind-none q bounds rows = select_true q.reverse_order (matching q bounds rows)

pub behind_row :
    (reverse : Bool) (xs : List SegmentRow) (r : SegmentRow) (ys all : List SegmentRow)
    → Strict (precedes reverse) all
    → all ≡ xs ++ r ∷ ys
    → select (is_behind reverse (some (r.lower_ns, pos r.id))) all ≡ ys
unfolding is_behind
behind_row reverse xs r ys all s e =
    rw (beyond-precedes reverse r, e)
      (select_beyond (precedes reverse) (precedes-IsStrictOrder reverse) xs r ys (rw e at s))
