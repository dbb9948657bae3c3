-- ===== src/Handlers/Post.antt =====
-- internal/httpx/handlers/segments.go, `PostFlowSegments`, over the table of idempotency keys and a
-- store behind the segment service. Logging is left out.
use open_tams.Prelude.Bytes.{Bytes, is_nil, codes, length}
use open_tams.Prelude.Result.{Result, err, ok, ◌>>=◌, ensure}
use open_tams.Prelude.{Bool, List, Option, [], if◌then◌else◌, none, some, ℕ, ◌==◌, not, ltb}
use open_tams.Handlers.{
  Env, Problem, FailureEntry, problem_404, register_failure_to_api, problem_400, problem_409,
  problem_403, problem_422,
}
use open_tams.Conversion.{Body, register_params_from_api, ConversionError}
use open_tams.Idempotency.{
  Table, Status, CachedResponse, acquire, complete, release, StoreError as IdemError,
  Faults as IdemFaults,
}
use open_tams.Service.{ServiceError, RegisterResult, InsertResult, Outcome, register_batch}
use open_tams.Segments.{Segment, StoreError}

-- The generated request; `raw` is what `MarshalJSON` answers of the body.
pub record RequestBody : Type 0 where
  pub body : Body
  pub raw : Option Bytes

pub record Request : Type 0 where
  pub flow_id : Bytes
  pub body : Option RequestBody
  pub key : Bytes

pub data PostResponse : Type 0 where
  created : PostResponse
  failures : List FailureEntry → PostResponse
  bad_request forbidden not_found conflict unprocessable : Problem → PostResponse

-- The errors that the handler returns, which become a 5xx; a panic is one of the service's errors.
pub data HandlerError : Type 0 where
  marshal_failed : HandlerError
  of_idempotency : IdemError → HandlerError
  of_service : ServiceError → HandlerError

abbrev pub Answer : Type 0
Answer = Result HandlerError PostResponse

pub record Prepared : Type 0 where
  pub flow_id : Bytes
  pub key : Bytes
  pub segments : List Segment
  pub body_hash : Bytes

abbrev pub max_segments_batch : ℕ
max_segments_batch = 1000

-- The tests before the key is acquired; an error is the answer of the handler.
unfoldable pub refuse_if : Bool → PostResponse → Result Answer (Unit {0})
refuse_if b r = ensure (not b) (ok r)

unfoldable pub parsed_id : Option Bytes → Result Answer Bytes
parsed_id none = err (ok (not_found (problem_404 (codes "flow not found"))))
parsed_id (some id) = ok id

unfoldable pub required_body : Option RequestBody → Result Answer RequestBody
required_body none =
    err (ok (bad_request (problem_400 (codes "invalid-json") (codes "request body required"))))
required_body (some b) = ok b

unfoldable pub converted :
    Env → Result ConversionError (List Segment) → Result Answer (List Segment)
converted env (ok segs) = ok segs
converted env (err e) =
    err (ok (bad_request (problem_400 (codes "schema-validation") (env.conversion_text e))))

unfoldable pub marshalled : Option Bytes → Result Answer Bytes
marshalled none = err (err marshal_failed)
marshalled (some raw) = ok raw

unfoldable pub prepare : Env → Request → Result Answer Prepared
prepare env req = do
  id ← parsed_id (env.parse_uuid req.flow_id)
  b ← required_body req.body
  _ ← refuse_if (is_nil req.key) (
      bad_request
        (problem_400 (codes "missing-idempotency-key") (codes "X-Idempotency-Key header required")))
  segs ← converted env (register_params_from_api b.body)
  _ ← refuse_if (ltb max_segments_batch (length segs)) (
      bad_request
        (problem_400 (codes "batch-too-large") (codes "batch exceeds maximum of 1000 segments")))
  raw ← marshalled b.raw
  ok (record { flow_id = id; key = req.key; segments = segs; body_hash = env.hash raw })

-- `postSegmentsCachedConflict`.
unfoldable pub cached_conflict : Bytes → PostResponse
cached_conflict detail = conflict (problem_409 (codes "idempotency-conflict") detail)

-- A cached body that is there and can be read, or else what the code makes up.
unfoldable pub cached_body {ℓ} : {A : Type ℓ} → (Bytes → Option A) → Bytes → A → A
cached_body unmarshal body other =
    if is_nil body then other else elim (unmarshal body) [ none ↦ other | some a ↦ a ]

-- `cachedPostResponse`, where the pointer is not nil.
unfoldable pub cached_post_response : Env → CachedResponse → PostResponse
cached_post_response env c =
    if c.status == 200
    then (if is_nil c.body
        then created
        else elim (env.unmarshal_failures c.body) [ none ↦ created | some fs ↦ failures fs ])
    else if c.status == 201
    then created
    else if c.status == 400
    then bad_request
        (cached_body env.unmarshal_problem c.body (problem_400 (codes "schema-validation") []))
    else if c.status == 403
    then forbidden (cached_body env.unmarshal_problem c.body (problem_403 []))
    else if c.status == 404
    then not_found (cached_body env.unmarshal_problem c.body (problem_404 []))
    else if c.status == 409
    then conflict
        (cached_body env.unmarshal_problem c.body (problem_409 (codes "object-reaping") []))
    else if c.status == 422
    then unprocessable (
        cached_body env.unmarshal_problem c.body
          (problem_422 (codes "segment-overlap") (codes "Segment Overlap") []))
    else created

-- What is done with the key: a response is recorded with its status, the key is released at once,
-- or it is left to the deferred call.
pub data Disposal : Type 0 where
  finalise : ℕ → Bytes → PostResponse → Disposal
  give_up : HandlerError → Disposal
  leave : Answer → Disposal

-- `completeWithBody`, which finalises without a body if there is no JSON.
unfoldable pub with_body : Env → ℕ → Problem → PostResponse → Disposal
with_body env status p resp = elim (env.marshal_problem p) [
  | none ↦ finalise status [] resp
  | some raw ↦ finalise status raw resp
]

-- The answer to a batch of which not every segment was accepted.
unfoldable pub with_failures : Env → List FailureEntry → Disposal
with_failures env entries = elim (env.marshal_failures entries) [
  | none ↦ leave (ok (failures entries))
  | some raw ↦ finalise 200 raw (failures entries)
]

-- The switch on the error of `RegisterBatch`. A panic skips it, and runs the deferred call.
unfoldable pub rejected : Env → ServiceError → Disposal
rejected env ServiceError.not_found =
    let p = problem_404 (codes "flow not found") in with_body env 404 p (not_found p)
rejected env ServiceError.read_only =
    let p = problem_403 (codes "flow is read-only") in with_body env 403 p (forbidden p)
rejected env ServiceError.invalid_request =
    let p =
      problem_400 (codes "schema-validation") (env.service_text ServiceError.invalid_request) in
    with_body env 400 p (bad_request p)
rejected env (ServiceError.of_store StoreError.segment_overlap) =
    let p =
      problem_422 (codes "segment-overlap") (codes "Segment Overlap")
        (env.service_text (ServiceError.of_store StoreError.segment_overlap)) in
    with_body env 422 p (unprocessable p)
rejected env (ServiceError.of_store StoreError.segment_object_reaping) =
    let p =
      problem_409 (codes "object-reaping")
        (env.service_text (ServiceError.of_store StoreError.segment_object_reaping)) in
    with_body env 409 p (conflict p)
rejected env ServiceError.index_panic = leave (err (of_service ServiceError.index_panic))
rejected env e = give_up (of_service e)

-- The switch on the outcome; its default has no outcome left.
unfoldable pub outcome_disposal : Env → RegisterResult → Outcome → Disposal
outcome_disposal env res Outcome.all_accepted = finalise 201 [] created
outcome_disposal env res Outcome.partial = with_failures env (register_failure_to_api res.failed)
outcome_disposal env res Outcome.all_rejected =
    with_failures env (register_failure_to_api res.failed)

unfoldable pub disposal : Env → Result ServiceError RegisterResult → Disposal
disposal env (err e) = rejected env e
disposal env (ok res) = outcome_disposal env res res.outcome

-- The calls of one request that fail, and the clocks that it reads.
pub record Conditions : Type 0 where
  pub acquire_faults : IdemFaults
  pub complete_fails : Bool
  pub release_fails : Bool
  pub deferred_fails : Bool
  pub db_now : ℕ
  pub app_now : ℕ
  pub ttl : ℕ

-- The deferred call, where the key was not finalised.
unfoldable pub deferred : Conditions → Bytes → Result IdemError (Unit {0}) × Table → Table
deferred c key (ok _, t) = t
deferred c key (err e, t) = (release c.deferred_fails key t).1

unfoldable pub dispose : Conditions → Bytes → Disposal → Table → Answer × Table
dispose c key (finalise status body resp) t =
    (ok resp, deferred c key (complete c.complete_fails key status body t))
dispose c key (give_up e) t = (err e, deferred c key (release c.release_fails key t))
dispose c key (leave a) t = (a, (release c.deferred_fails key t).1)

pub record Server (S : Type 0) : Type 0 where
  pub keys : Table
  pub store : S

module _ {S : Type 0} (insert : Bytes → List Segment → S → Result StoreError InsertResult × S) where
  -- The part behind `Acquire`, on the table that it leaves.
  unfoldable pub register : Env → Conditions → Prepared → Table → S → Answer × Server S
  register env c p keys s =
      let (res, s') = register_batch (insert p.flow_id) p.segments s in
      let (a, keys') = dispose c p.key (disposal env res) keys in
      (a, record { keys = keys'; store = s' })

  unfoldable pub acquired_answer :
      Env → Conditions → Prepared → Result IdemError Status → Table → S → Answer × Server S
  acquired_answer env c p (err e) keys s =
      (err (of_idempotency e), record { keys = keys; store = s })
  acquired_answer env c p (ok Status.conflict) keys s = (
    ok (cached_conflict (codes "idempotency key reused with a different request body")),
    record { keys = keys; store = s },
  )
  acquired_answer env c p (ok Status.in_flight) keys s = (
    ok (cached_conflict (codes "idempotency key is already in-flight")),
    record { keys = keys; store = s },
  )
  acquired_answer env c p (ok (Status.cached r)) keys s =
      (ok (cached_post_response env r), record { keys = keys; store = s })
  acquired_answer env c p (ok Status.acquired) keys s = register env c p keys s

  unfoldable pub post_prepared : Env → Conditions → Prepared → Server S → Answer × Server S
  post_prepared env c p st =
      let (r, keys) = acquire c.acquire_faults c.db_now c.app_now p.key p.body_hash c.ttl st.keys in
      acquired_answer env c p r keys st.store

  unfoldable pub post_flow_segments : Env → Conditions → Request → Server S → Answer × Server S
  post_flow_segments env c req st = elim (prepare env req) [
    | err a ↦ (a, st)
    | ok p ↦ post_prepared env c p st
  ]
