-- ===== src/Service/Policy.antt =====
-- The service of internal/service/segment/segment.go over the store of internal/metastore: its policy on
-- segment time ranges against the columns of the table, and what it relies on in the store.
use open_tams.Timerange.Nanos.Exact.{total}
use open_tams.Timerange.Membership.{contains_iff}
use open_tams.Timerange.Nanos.Meaning.{InBounds, ns_bounds-sides, contains-ns_bounds}
use open_tams.Segments.Write.{insert_segments}
use open_tams.Timerange.Instants.{
  IsBound, Above, Below, empty_between_complete, first_instant, IsInterval,
}
use open_tams.Segments.Effects.{insert_segments-IsInserted}
use open_tams.Service.Register.{AcceptsAll}
use open_tams.Segments.{Segment, Store, Faults, StoreError}
use open_tams.Prelude.Bytes.{Bytes, is_none}
use open_tams.Timerange.Order.{rank, IsValid}
use open_tams.Service.{
  segment_timerange_violation, InsertResult, register_batch, register_sorted, sort_batch, place,
  answer, assemble, pick_accepted, not_accepted, is_member, failed_entry, both, Reason, refusal,
  stamped, index_panic,
}
use open_tams.Prelude.Int.{◌<ℤ◌, ℤ}
use open_tams.Prelude.{
  false, inl, inr, none, some, ◌≡◌, Option, ℕ, List, Bool, arith, ◌∷◌, refl, [], ◌∙◌, true,
}
use open_tams.Timerange.{
  inclusive, is_empty_of, TimeRange, Timestamp, is_empty, BoundType, same_bound, exclusive,
  unbounded,
}
use open_tams.Timerange.Nanos.{NsBounds, side_nanos, ns_bounds, bound_nanos}
use open_tams.Prelude.Result.{Result, err, ok, Result-cases}

-- `InsertSegments` as the service calls it.
unfoldable pub insert_result : Result StoreError (List ℕ) → Result StoreError InsertResult
insert_result (ok accepted) = ok (record { accepted_indices = accepted })
insert_result (err e) = err e

unfoldable pub store_insert :
    Faults
    → (ℕ → ℕ)
    → ℕ
    → Bytes
    → Bytes
    → List Segment
    → Store
    → Result StoreError InsertResult × Store
unfolding insert_result
store_insert faults ids now flow_id controlled batch s =
    let r = insert_segments faults ids now flow_id controlled batch s in (insert_result r.0, r.1)

insert_result-ok :
    (r : Result StoreError (List ℕ)) (x : InsertResult)
    → insert_result r ≡ ok x
    → r ≡ ok x.accepted_indices
unfolding insert_result
insert_result-ok (ok a) x e = ground arith
insert_result-ok (err y) x e = absurd (cc)

-- `InsertSegments` accepts all segments of a batch or none, whichever calls of the database fail.
pub store_insert-AcceptsAll :
    (faults : Faults) (ids : ℕ → ℕ) (now : ℕ) (flow_id controlled : Bytes)
    → AcceptsAll (store_insert faults ids now flow_id controlled)
unfolding store_insert
store_insert-AcceptsAll faults ids now flow_id controlled segs s r e =
    (insert_segments-IsInserted faults ids now flow_id controlled segs s r.accepted_indices
      (insert_result-ok (insert_segments faults ids now flow_id controlled segs s).0 r e)).0

-- An instant of a range that is not empty and has a start.
instant_within :
    (s : Option Timestamp) (t : BoundType) (e : Option Timestamp) (u : BoundType)
    → IsBound s t
    → IsBound e u
    → is_none s ≡ false
    → is_none e ≡ false
    → is_empty_of s t e u ≡ false
    → (ts : Timestamp) × IsValid ts × Above s t (rank ts) × Below e u (rank ts)
unfolding is_empty_of
instant_within none t e u vs ve a b h = absurd (cc)
instant_within (some s) t none u vs ve a b h = absurd (cc)
instant_within (some s) t (some e) u vs ve a b h =
    let c = empty_between_complete s t e u vs ve h in (first_instant s t, c.0, c.1, c.2)

-- What the columns of a segment ask for: both bounds, in order.
pub record IsStorable (b : NsBounds) : Type 0 where
  pub has_lower : b.lower_unbounded ≡ false
  pub has_upper : b.upper_unbounded ≡ false
  pub nonempty : b.lower <ℤ b.upper

side_nanos-open :
    (o : Option Timestamp) (add_one : Bool) (p : ℤ × Bool)
    → side_nanos o add_one ≡ ok p
    → p.1 ≡ is_none o
unfolding side_nanos
side_nanos-open none a p e = ground arith
side_nanos-open (some ts) a p e = elim (Result-cases (bound_nanos ts a)) [
  | inl (v, q) ↦ ground arith
  | inr (x, q) ↦ absurd (ground arith)
]

inclusive-eq : (t : BoundType) → same_bound t inclusive ≡ true → t ≡ inclusive
unfolding same_bound
inclusive-eq inclusive h = refl
inclusive-eq exclusive h = absurd (cc)
inclusive-eq unbounded h = absurd (cc)

-- The facts that a range without a violation has passed.
no_violation_facts :
    (tr : TimeRange)
    → segment_timerange_violation tr ≡ none
    → (is_empty tr ≡ false)
      × (is_none tr.start ≡ false)
      × (is_none tr.end ≡ false)
      × (tr.start_type ≡ inclusive)
      × ((b : NsBounds) × (ns_bounds tr ≡ ok b))
unfolding segment_timerange_violation
no_violation_facts tr h = elim (Result-cases (ns_bounds tr)) [
  | inr (e, q) ↦ absurd (ground arith)
  | inl (b, q) ↦
      (ground arith, ground arith, ground arith, inclusive-eq tr.start_type (ground arith), (b, q))
]

-- A well-formed range that breaks no rule of the policy has bounds that fit the columns of a
-- segment: both are there, and the lower one is below the upper one.
pub no_violation-IsStorable :
    (tr : TimeRange)
    → IsInterval tr
    → segment_timerange_violation tr ≡ none
    → (b : NsBounds) × (ns_bounds tr ≡ ok b) × IsStorable b
no_violation-IsStorable tr v h =
    let (nonempty, starts, ends, kind, (b, q)) = no_violation_facts tr h in
    let (_, lo, hi) = ns_bounds-sides tr b q in
    let no_lower = side_nanos-open tr.start _ _ lo ∙ starts in
    let no_upper = side_nanos-open tr.end _ _ hi ∙ ends in
    let (ts, vt, above, below) =
      instant_within tr.start tr.start_type tr.end tr.end_type v.0 v.1 starts ends
        (unfold is_empty in nonempty) in
    let inside =
      (contains-ns_bounds tr b ts v q vt).0 ((contains_iff tr ts v vt).1 (above, below)) in
    (
      b,
      q,
      record {
        has_lower = no_lower;
        has_upper = no_upper;
        nonempty = between b (total ts) no_lower no_upper inside;
      },
    )
  where
    between :
        (b : NsBounds) (z : ℤ)
        → b.lower_unbounded ≡ false
        → b.upper_unbounded ≡ false
        → InBounds b z
        → b.lower <ℤ b.upper
    between b z l u i = ground arith

-- A store that accepts no segment of a batch of which the first segment is refused by the service
-- and the second is not makes registerBatch use an index out of range.
pub rejection_panics :
    {S : Type 0} (insert : List Segment → S → Result StoreError InsertResult × S)
    (bad good : Segment) (reason : Reason) (s : S)
    → refusal (stamped bad) ≡ some reason
    → refusal (stamped good) ≡ none
    → (insert (stamped good ∷ []) s).0 ≡ ok (record { accepted_indices = [] })
    → (register_batch insert (bad ∷ good ∷ []) s).0 ≡ err index_panic
unfolding register_batch register_sorted sort_batch place answer assemble pick_accepted not_accepted
    is_member failed_entry both
rejection_panics insert bad good reason s b g e = rw (b, g, e) refl
