-- ===== src/Handlers/Effects.antt =====
-- internal/httpx/handlers/segments.go: which answers leave the store as it was.
use open_tams.Segments.Write.{insert_segments}
use open_tams.Segments.Invariant.{failure, apply, insert_batch, errors_change_nothing}
use open_tams.Service.Policy.{insert_result, store_insert}
use open_tams.Prelude.{inl, inr, refl, ◌≡◌, ◌⊎◌, List, Bool-cases, ℕ, arith}
use open_tams.Prelude.Result.{Result, err, ok, Result-cases}
use open_tams.Prelude.Bytes.{Bytes, is_nil}
use open_tams.Handlers.{Env, FailureEntry}
use open_tams.Handlers.Post.{
  Answer, Conditions, Request, Prepared, Server, post_flow_segments, post_prepared, acquired_answer,
  register, prepare, disposal, created, failures, outcome_disposal,
}
use open_tams.Handlers.Retry.{dispose-answer, answer_of, with_failures-answer}
use open_tams.Idempotency.{
  Status, acquired, conflict, in_flight, cached, StoreError as IdemError, Table, acquire,
}
use open_tams.Service.{ServiceError, RegisterResult, InsertResult, Outcome, register_batch}
use open_tams.Service.Register.{AcceptsAll, register_batch_lem, registered, kept}
use open_tams.Segments.{Faults, Segment, StoreError}

-- The promise of the store: an error changes nothing.
abbrev pub ErrorsKeep : {S A : Type 0} → (S → Result StoreError A × S) → Type 0
ErrorsKeep {S} f = (s : S) (e : StoreError) → (f s).0 ≡ err e → (f s).1 ≡ s

-- The answers that tell of segments that were stored, or of none at all.
abbrev pub TellsOutcome : Answer → Type 0
TellsOutcome a = (a ≡ ok created) ⊎ ((fs : List FailureEntry) × (a ≡ ok (failures fs)))

outcome-Tells :
    (env : Env) (res : RegisterResult) (o : Outcome)
    → TellsOutcome (answer_of (outcome_disposal env res o))
unfolding outcome_disposal
outcome-Tells env res Outcome.all_accepted = inl refl
outcome-Tells env res Outcome.partial = inr (_, with_failures-answer env _)
outcome-Tells env res Outcome.all_rejected = inr (_, with_failures-answer env _)

registered-err :
    (segs : List Segment) (r : Result StoreError InsertResult) (e : ServiceError)
    → registered segs r ≡ err e
    → (x : StoreError) × (r ≡ err x)
unfolding registered
registered-err segs (ok r) e h = absurd (cc)
registered-err segs (err x) e h = (x, refl)

module _ {S : Type 0} (insert : Bytes → List Segment → S → Result StoreError InsertResult × S)
    (accepts : (id : Bytes) → AcceptsAll (insert id))
    (keeps : (id : Bytes) (segs : List Segment) → ErrorsKeep (insert id segs)) where
  register_batch-keeps :
      (id : Bytes) (segs : List Segment) (s : S) (e : ServiceError)
      → (register_batch (insert id) segs s).0 ≡ err e
      → (register_batch (insert id) segs s).1 ≡ s
  register_batch-keeps id segs s e h =
      let l = register_batch_lem (insert id) (accepts id) segs s in
      elim (Bool-cases (is_nil segs)) [
        | inl n ↦ rw (l, n) refl
        | inr n ↦ elim (Bool-cases (is_nil (kept segs))) [
          | inl k ↦ rw (l, n, k) refl
          | inr k ↦
              let (x, d) = registered-err segs (insert id (kept segs) s).0 e (rw (l, n, k) at h) in
              rw (l, n, k) (keeps id (kept segs) s x d)
        ]
      ]

  register-cases :
      (env : Env) (c : Conditions) (p : Prepared) (keys : Table) (s : S)
      → TellsOutcome (register insert env c p keys s).0
        ⊎ ((register insert env c p keys s).1.store ≡ s)
  unfolding register disposal
  register-cases env c p keys s =
      elim (Result-cases (register_batch (insert p.flow_id) p.segments s).0) [
        | inr (e, q) ↦ inr (register_batch-keeps p.flow_id p.segments s e q)
        | inl (res, q) ↦ inl (
            rw
              (
                dispose-answer c p.key
                    (disposal env (register_batch (insert p.flow_id) p.segments s).0) keys,
                q,
              )
              (outcome-Tells env res res.outcome))
      ]

  answer-cases :
      (env : Env) (c : Conditions) (p : Prepared) (r : Result IdemError Status) (keys : Table)
      (s : S)
      → TellsOutcome (acquired_answer insert env c p r keys s).0
        ⊎ ((acquired_answer insert env c p r keys s).1.store ≡ s)
  unfolding acquired_answer
  answer-cases env c p (err e) keys s = inr refl
  answer-cases env c p (ok conflict) keys s = inr refl
  answer-cases env c p (ok in_flight) keys s = inr refl
  answer-cases env c p (ok (cached x)) keys s = inr refl
  answer-cases env c p (ok acquired) keys s = register-cases env c p keys s

  -- Over a store that accepts all segments of a batch or none, and that an error leaves unchanged, a
  -- call of PostFlowSegments that changes the store answers 201, or 200 with the list of failures:
  -- every other answer and every error leaves the store as it was.
  pub post-cases :
      (env : Env) (c : Conditions) (req : Request) (st : Server S)
      → TellsOutcome (post_flow_segments insert env c req st).0
        ⊎ ((post_flow_segments insert env c req st).1.store ≡ st.store)
  unfolding post_flow_segments post_prepared
  post-cases env c req st = elim (Result-cases (prepare env req)) [
    | inr (a, e) ↦ rw (post_flow_segments, e) (inr refl)
    | inl (p, e) ↦
        rw (post_flow_segments, e, post_prepared)
          (answer-cases env c p
            (acquire c.acquire_faults c.db_now c.app_now p.key p.body_hash c.ttl st.keys).0
            (acquire c.acquire_faults c.db_now c.app_now p.key p.body_hash c.ttl st.keys).1
            st.store)
  ]

insert_result-err :
    (r : Result StoreError (List ℕ)) (e : StoreError) → insert_result r ≡ err e → r ≡ err e
unfolding insert_result
insert_result-err (ok a) e h = absurd (cc)
insert_result-err (err x) e h = ground arith

-- `InsertSegments` keeps this promise.
pub store_insert-ErrorsKeep :
    (faults : Faults) (ids : ℕ → ℕ) (now : ℕ) (flow_id controlled : Bytes) (segs : List Segment)
    → ErrorsKeep (store_insert faults ids now flow_id controlled segs)
unfolding store_insert failure apply
store_insert-ErrorsKeep faults ids now flow_id controlled segs s e h =
    let w = insert_batch faults ids now flow_id controlled segs in
    let failed =
      insert_result-err (insert_segments faults ids now flow_id controlled segs s).0 e h in
    errors_change_nothing w s e (rw failed refl)
