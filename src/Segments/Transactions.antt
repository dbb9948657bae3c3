-- ===== src/Segments/Transactions.antt =====
-- The two transactions of internal/metastore/segments.go and the counts of references.
use open_tams.Prelude.Int.{pos}
use open_tams.Segments.References.{
  refs, references, length-segment_bounds, refs-decrement_all, batch_references,
  refs-upsert_objects, references-remaining, references-add_rows, grouped-group_counts,
}
use open_tams.Segments.Insert.{
  lower_param, upper_param, check_existing, upsert_objects, check_object_timeranges, add_rows,
}
use open_tams.Timerange.Nanos.{NsBounds, ns_bounds}
use open_tams.Timerange.{TimeRange, is_empty}
use open_tams.Prelude.Bytes.{Bytes, length}
use open_tams.Segments.Consistent.{
  IsConsistent, IsDrifted, Disjoint-remaining, Disjoint, Nonempty-remaining, Nonempty,
  add_rows-keeps,
}
use open_tams.Segments.{
  Faults, Store, Segment, StoreError, call, segment_bounds, begin, lock_writable_flow,
  batch_overlaps, segment_overlap, of_ns, delete, commit,
}
use open_tams.Prelude.Result.{err, ok, Returns, Result, Returns-bind, ensure, Returns-ok}
use open_tams.Segments.Write.{
  delete_segments, delete_transaction, finish, insert_segments, insert_transaction, delete_covered,
  is_covered, group_counts, deleted, decrement_all, refresh_flow_timerange, remaining,
}
use open_tams.Prelude.{List, inl, inr, ◌+◌, ◌∙◌, ◌≡◌, ℕ, Option, not, Bool-cases, ap, arith, refl}

-- What holds of the tables before a transaction and of those that it commits holds afterwards.
finish-keeps :
    {A : Type 0} (P : Store → Type 0) (s : Store) (r : Result StoreError (A × Store))
    → P s
    → Returns (λ p. P p.1) r
    → P (finish s r).1
unfolding finish
finish-keeps P s (ok p) h k = k
finish-keeps P s (err e) h k = h

pub finish-err :
    {A : Type 0} (s : Store) (r : Result StoreError (A × Store)) (e : StoreError)
    → (finish s r).0 ≡ err e
    → (finish s r).1 ≡ s
unfolding finish
finish-err s (ok p) e h = absurd (cc)
finish-err s (err x) e h = refl

insert_transaction-keeps :
    (drift : Bytes → ℕ) (faults : Faults) (ids : ℕ → ℕ) (now : ℕ) (flow_id controlled : Bytes)
    (batch : List Segment) (s : Store)
    → IsDrifted drift s
    → Returns
        (λ p. IsDrifted drift p.1)
        (insert_transaction faults ids now flow_id controlled batch s)
unfolding insert_transaction
insert_transaction-keeps drift faults ids now flow_id controlled batch s c =
    Returns-bind _ (segment_bounds batch) _ λ bounds eb.
      Returns-bind _ (ensure (not (batch_overlaps bounds)) segment_overlap) _ λ _ _.
        Returns-bind _ (call faults begin) _ λ _ _.
          Returns-bind _ (lock_writable_flow faults flow_id s) _ λ _ _.
            Returns-bind _ (check_existing faults flow_id 0 bounds s.segments) _ λ _ _.
              Returns-bind _ (upsert_objects faults controlled 0 batch s.objects) _ λ objects eo.
                Returns-bind _ (check_object_timeranges faults 0 batch s.segments) _ λ _ _.
                  Returns-bind _ (add_rows faults ids flow_id now 0 batch bounds s.segments) _
                    λ rows er.
                      Returns-bind _ (refresh_flow_timerange faults now flow_id rows s.flows) _
                        λ flows _. Returns-bind _ (call faults commit) _ λ _ _.
                          let kept =
                            Returns-ok (λ rows'. Disjoint rows' × Nonempty rows') _ rows
                              (add_rows-keeps faults ids flow_id now 0 batch bounds s.segments
                                c.disjoint c.nonempty)
                              er in
                          let same =
                            Returns-ok (λ bs. length bs ≡ length batch) _ bounds
                              (length-segment_bounds batch) eb in
                          record {
                            disjoint = kept.0;
                            nonempty = kept.1;
                            counted = λ object.
                                Returns-ok
                                  (λ os.
                                    refs object os
                                    ≡ pos (
                                        drift object
                                        + references object s.segments
                                        + batch_references object batch))
                                  _ objects
                                  (refs-upsert_objects faults controlled 0 batch s.objects object
                                    (drift object + references object s.segments)
                                    (c.counted object))
                                  eo
                                ∙ ap pos (
                                    omega (
                                      arith,
                                      Returns-ok
                                          (λ rows'.
                                            references object rows'
                                            ≡ references object s.segments
                                              + batch_references object batch)
                                          _ rows
                                          (references-add_rows faults ids flow_id now 0 batch bounds
                                            s.segments object same)
                                          er,
                                    ));
                          }

-- `InsertSegments` keeps the segments apart and the drift of the counts, with any faults.
pub insert_segments-IsDrifted :
    (drift : Bytes → ℕ) (faults : Faults) (ids : ℕ → ℕ) (now : ℕ) (flow_id controlled : Bytes)
    (batch : List Segment) (s : Store)
    → IsDrifted drift s
    → IsDrifted drift (insert_segments faults ids now flow_id controlled batch s).1
unfolding insert_segments
insert_segments-IsDrifted drift faults ids now flow_id controlled batch s c =
    finish-keeps (IsDrifted drift) s _ c
      (insert_transaction-keeps drift faults ids now flow_id controlled batch s c)

delete_covered-keeps :
    (drift : Bytes → ℕ) (faults : Faults) (now : ℕ) (flow_id : Bytes) (object : Option Bytes)
    (b : NsBounds) (s : Store)
    → IsDrifted drift s
    → Returns (λ p. IsDrifted drift p.1) (delete_covered faults now flow_id object b s)
unfolding delete_covered
delete_covered-keeps drift faults now flow_id object b s c =
    let taken = is_covered flow_id (lower_param b) (upper_param b) object in
    let groups = group_counts (deleted taken s.segments) in
    Returns-bind _ (call faults delete) _ λ _ _.
      Returns-bind _ (decrement_all faults 0 groups s.objects) _ λ objects eo.
        Returns-bind _
          (refresh_flow_timerange faults now flow_id (remaining taken s.segments) s.flows) _
          λ flows _. Returns-bind _ (call faults commit) _ λ _ _. record {
            disjoint = Disjoint-remaining taken s.segments c.disjoint;
            nonempty = Nonempty-remaining taken s.segments c.nonempty;
            counted = λ j.
                Returns-ok
                  (λ os. refs j os ≡ pos (drift j + references j (remaining taken s.segments))) _
                  objects
                  (refs-decrement_all faults 0 groups s.objects j
                    (drift j + references j (remaining taken s.segments))
                    (c.counted j
                      ∙ ap pos (
                          omega (
                            arith,
                            references-remaining j taken s.segments,
                            grouped-group_counts j (deleted taken s.segments),
                          ))))
                  eo;
          }

delete_transaction-keeps :
    (drift : Bytes → ℕ) (faults : Faults) (now : ℕ) (flow_id : Bytes) (range : TimeRange)
    (object : Option Bytes) (s : Store)
    → IsDrifted drift s
    → Returns (λ p. IsDrifted drift p.1) (delete_transaction faults now flow_id range object s)
unfolding delete_transaction
delete_transaction-keeps drift faults now flow_id range object s c =
    Returns-bind _ (call faults begin) _ λ _ _.
      Returns-bind _ (lock_writable_flow faults flow_id s) _ λ _ _.
        elim (Bool-cases (is_empty range)) [
          | inl e ↦ rw e c
          | inr e ↦ rw e (
              Returns-bind _ (of_ns (ns_bounds range)) _
                λ b _. delete_covered-keeps drift faults now flow_id object b s c)
        ]

pub delete_segments-IsDrifted :
    (drift : Bytes → ℕ) (faults : Faults) (now : ℕ) (flow_id : Bytes) (range : TimeRange)
    (object : Option Bytes) (s : Store)
    → IsDrifted drift s
    → IsDrifted drift (delete_segments faults now flow_id range object s).1
unfolding delete_segments
delete_segments-IsDrifted drift faults now flow_id range object s c =
    finish-keeps (IsDrifted drift) s _ c
      (delete_transaction-keeps drift faults now flow_id range object s c)

-- Both, on a store whose counts are right.
pub insert_segments-IsConsistent :
    (faults : Faults) (ids : ℕ → ℕ) (now : ℕ) (flow_id controlled : Bytes) (batch : List Segment)
    (s : Store)
    → IsConsistent s
    → IsConsistent (insert_segments faults ids now flow_id controlled batch s).1
insert_segments-IsConsistent = insert_segments-IsDrifted (λ object. 0)

pub delete_segments-IsConsistent :
    (faults : Faults) (now : ℕ) (flow_id : Bytes) (range : TimeRange) (object : Option Bytes)
    (s : Store)
    → IsConsistent s
    → IsConsistent (delete_segments faults now flow_id range object s).1
delete_segments-IsConsistent = delete_segments-IsDrifted (λ object. 0)
