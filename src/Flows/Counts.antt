-- ===== src/Flows/Counts.antt =====
-- internal/metastore/flows.go, what `DeleteFlow` does to the counts of references.
use open_tams.Flows.Finish.{finish-ok}
use open_tams.Segments.{SegmentRow, ObjectRow}
use open_tams.Prelude.Bytes.{Bytes, bytes_eq, bytes_eq_iff}
use open_tams.Prelude.Sort.{select}
use open_tams.Prelude.Int.{pos, ◌-ℤ◌, ℤ}
use open_tams.Prelude.{
  [], false, inl, inr, refl, true, ◌+◌, ◌-◌, ◌<◌, ◌∙◌, ◌∷◌, ◌≡◌, Bool, List, ℕ, arith, Bool-cases,
  ap,
}
use open_tams.Prelude.Result.{ok, Returns, Returns-bind, Returns-both, ensure}
use open_tams.Segments.References.{refs, references, one_if}
use open_tams.Segments.Consistent.{IsDrifted, Apart, Disjoint, Separate, HasPoints}
use open_tams.Flows.Write.{release_objects, uses_object, drop_flow, delete_flow, delete_transaction}
use open_tams.Flows.{
  Db, segment_store, in_flow, Failing, calls, begin, decrement, delete, is_flow, not_found, commit,
}
use open_tams.Prelude.Table.{exists, remove, All-remove}

-- The segments of a flow that refer to an object, beyond the first.
unfoldable pub surplus : Bytes → Bytes → List SegmentRow → ℕ
surplus id object rows = references object (select (in_flow id) rows) - 1

refs-release_objects :
    (id : Bytes) (rows : List SegmentRow) (j : Bytes) (m : ℕ) (objects : List ObjectRow)
    → refs j objects ≡ pos (one_if (exists (uses_object id j) rows) + m)
    → refs j (release_objects id rows objects) ≡ pos m
unfolding refs release_objects ◌-ℤ◌
refs-release_objects id rows j m [] h = ground arith
refs-release_objects id rows j m (o ∷ os) h = elim (Bool-cases (bytes_eq o.id j)) [
  | inl p ↦
      let used_object : (b : Bool)
          → exists (uses_object id o.id) rows ≡ b
          → exists (uses_object id j) rows ≡ b =
        λ b q. rw ((bytes_eq_iff o.id j).0 p) at q in
      elim (Bool-cases (exists (uses_object id o.id) rows)) [
        | inl q ↦ rw (q, p) (released o.ref_count (rw (p, used_object true q) at h))
        | inr q ↦ rw (q, p) ((rw (p, used_object false q) at h) ∙ ap pos (omega arith))
      ]
  | inr p ↦ elim (Bool-cases (exists (uses_object id o.id) rows)) [
    | inl q ↦ rw (q, p) (refs-release_objects id rows j m os (rw p at h))
    | inr q ↦ rw (q, p) (refs-release_objects id rows j m os (rw p at h))
  ]
]
  where
    released : (c : ℤ) → c ≡ pos (1 + m) → c -ℤ pos 1 ≡ pos m
    released c e = ground arith

-- The references of the rows that go and of those that stay.
references-remove :
    (j : Bytes) (p : SegmentRow → Bool) (rows : List SegmentRow)
    → references j (remove p rows) + references j (select p rows) ≡ references j rows
unfolding references remove select
references-remove j p [] = refl
references-remove j p (r ∷ rs) = elim (Bool-cases (p r)) [
  | inl e ↦ rw e (omega (arith, references-remove j p rs))
  | inr e ↦ rw e (omega (arith, references-remove j p rs))
]

-- `SELECT DISTINCT` finds an object exactly where some segment of the flow refers to it.
one_if-surplus :
    (id j : Bytes) (rows : List SegmentRow)
    → one_if (exists (uses_object id j) rows) + surplus id j rows
      ≡ references j (select (in_flow id) rows)
unfolding surplus exists references select uses_object
one_if-surplus id j rows = elim (Bool-cases (exists (uses_object id j) rows)) [
  | inl e ↦ rw e (omega (arith, used rows e))
  | inr e ↦ rw (e, unused rows e) refl
]
  where
    used :
        (rows : List SegmentRow)
        → exists (uses_object id j) rows ≡ true
        → 0 < references j (select (in_flow id) rows)
    used [] e = absurd (cc)
    used (r ∷ rs) e = ground (arith, used rs)

    unused :
        (rows : List SegmentRow)
        → exists (uses_object id j) rows ≡ false
        → references j (select (in_flow id) rows) ≡ 0
    unused [] e = refl
    unused (r ∷ rs) e = ground (arith, unused rs)

Apart-remove :
    (q : SegmentRow) (p : SegmentRow → Bool) (rows : List SegmentRow)
    → Apart q rows
    → Apart q (remove p rows)
Apart-remove q p rows h = All-remove (Separate q) p rows h

Disjoint-remove :
    (p : SegmentRow → Bool) (rows : List SegmentRow) → Disjoint rows → Disjoint (remove p rows)
unfolding remove
Disjoint-remove p [] h = tt
Disjoint-remove p (r ∷ rs) h = elim (Bool-cases (p r)) [
  | inl e ↦ rw e (Disjoint-remove p rs h.1)
  | inr e ↦ rw e (Apart-remove r p rs h.0, Disjoint-remove p rs h.1)
]

pub delete_transaction-IsDrifted :
    (drift : Bytes → ℕ) (failing : Failing) (id : Bytes) (db : Db)
    → IsDrifted drift (segment_store db)
    → Returns
        (λ p. IsDrifted (λ j. drift j + surplus id j db.segments) (segment_store p.1))
        (delete_transaction failing id db)
unfolding delete_transaction segment_store drop_flow
delete_transaction-IsDrifted drift failing id db c = Returns-bind _ (calls failing begin) _ λ _ _.
    Returns-bind _ (calls failing decrement) _ λ _ _. Returns-bind _ (calls failing delete) _ λ _ _.
      Returns-bind _ (ensure (exists (is_flow id) db.flows) not_found) _ λ _ _.
        Returns-bind _ (calls failing commit) _ λ _ _. record {
          disjoint = Disjoint-remove (in_flow id) db.segments c.disjoint;
          nonempty = All-remove HasPoints (in_flow id) db.segments c.nonempty;
          counted = λ j.
              refs-release_objects id db.segments j
                (drift j
                  + surplus id j db.segments
                  + references j (remove (in_flow id) db.segments))
                db.objects
                (c.counted j
                  ∙ ap pos (
                      omega (
                        arith,
                        references-remove j (in_flow id) db.segments,
                        one_if-surplus id j db.segments,
                      )));
        }

delete_transaction-segments :
    (failing : Failing) (id : Bytes) (db : Db)
    → Returns
        (λ p. p.1.segments ≡ remove (in_flow id) db.segments)
        (delete_transaction failing id db)
unfolding delete_transaction drop_flow
delete_transaction-segments failing id db = Returns-bind _ (calls failing begin) _ λ _ _.
    Returns-bind _ (calls failing decrement) _ λ _ _. Returns-bind _ (calls failing delete) _ λ _ _.
      Returns-bind _ (ensure (exists (is_flow id) db.flows) not_found) _
        λ _ _. Returns-bind _ (calls failing commit) _ λ _ _. refl

-- A call of DeleteFlow that succeeds takes every segment of the flow and no other, and lowers the
-- count of each object by at most one: where the counts exceeded the numbers of references by some
-- drift before, they exceed them afterwards by that drift and, for each object, by one less than the
-- number of the segments of the flow that referred to it.
pub delete_flow-counts :
    (drift : Bytes → ℕ) (failing : Failing) (id : Bytes) (db : Db)
    → IsDrifted drift (segment_store db)
    → (delete_flow failing id db).0 ≡ ok tt
    → ((delete_flow failing id db).1.segments ≡ remove (in_flow id) db.segments)
      × IsDrifted
          (λ j. drift j + surplus id j db.segments)
          (segment_store (delete_flow failing id db).1)
unfolding delete_flow
delete_flow-counts drift failing id db c =
    finish-ok
      (λ _ db'.
        (db'.segments ≡ remove (in_flow id) db.segments)
        × IsDrifted (λ j. drift j + surplus id j db.segments) (segment_store db'))
      db (delete_transaction failing id db) tt
      (Returns-both _ _ (delete_transaction failing id db)
        (delete_transaction-segments failing id db)
        (delete_transaction-IsDrifted drift failing id db c))
