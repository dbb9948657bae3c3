-- ===== src/Handlers/Retry.antt =====
-- internal/httpx/handlers/segments.go: a retry of a request whose response was recorded.
use mathlib.Core.Path.{subst}
use open_tams.Prelude.Bytes.{Bytes, is_nil}
use open_tams.Prelude.Result.{err, ok, Result}
use open_tams.Prelude.{
  List, Option, false, inl, inr, refl, some, ℕ, ◌≡◌, Option-cases, ◌∙◌, sym, [], arith,
}
use open_tams.Handlers.{Env, Problem, FailureEntry}
use open_tams.Handlers.Post.{
  Answer, Conditions, Disposal, finalise, give_up, leave, PostResponse, created, failures,
  bad_request, forbidden, not_found, conflict, unprocessable, cached_post_response, disposal,
  dispose, rejected, with_body, with_failures, outcome_disposal, cached_body,
}
use open_tams.Idempotency.{Table}
use open_tams.Service.{ServiceError, RegisterResult, Outcome}
use open_tams.Segments.{StoreError}

-- A JSON text is there, and is read back as what it was made of.
abbrev pub Reads {ℓ} : {A : Type ℓ} → (A → Option Bytes) → (Bytes → Option A) → A → Type ℓ
Reads marshal unmarshal a =
    (raw : Bytes) × (marshal a ≡ some raw) × (is_nil raw ≡ false) × (unmarshal raw ≡ some a)

-- The body of a response survives `json.Marshal` and `json.Unmarshal`, which they document of texts
-- in UTF-8.
abbrev pub Survives : Env → PostResponse → Type 0
Survives env created = Unit {0}
Survives env (failures fs) = Reads env.marshal_failures env.unmarshal_failures fs
Survives env (bad_request p) = Reads env.marshal_problem env.unmarshal_problem p
Survives env (forbidden p) = Reads env.marshal_problem env.unmarshal_problem p
Survives env (not_found p) = Reads env.marshal_problem env.unmarshal_problem p
Survives env (conflict p) = Reads env.marshal_problem env.unmarshal_problem p
Survives env (unprocessable p) = Reads env.marshal_problem env.unmarshal_problem p

abbrev answered : PostResponse → Answer
answered r = ok r

ok_eq : {r r' : PostResponse} → answered r ≡ answered r' → r ≡ r'
ok_eq e = ground arith

abbrev pub answer_of : Disposal → Answer
answer_of (finalise status body resp) = ok resp
answer_of (give_up e) = err e
answer_of (leave a) = a

pub dispose-answer :
    (c : Conditions) (key : Bytes) (d : Disposal) (t : Table) → (dispose c key d t).0 ≡ answer_of d
unfolding dispose
dispose-answer c key (finalise status body resp) t = refl
dispose-answer c key (give_up e) t = refl
dispose-answer c key (leave a) t = refl

-- A response that is recorded and replays as itself.
abbrev pub Replays : Env → Disposal → PostResponse → Type 0
Replays env d resp =
    (status : ℕ) × (body : Bytes) × (d ≡ finalise status body resp)
    × (cached_post_response env (record { status = status; body = body }) ≡ resp)

pub with_failures-answer :
    (env : Env) (fs : List FailureEntry) → answer_of (with_failures env fs) ≡ ok (failures fs)
unfolding with_failures
with_failures-answer env fs = elim (Option-cases (env.marshal_failures fs)) [
  | inl e ↦ rw (answer_of, with_failures, e) refl
  | inr (raw, e) ↦ rw (answer_of, with_failures, e) refl
]

with_body-answer :
    (env : Env) (status : ℕ) (p : Problem) (r : PostResponse)
    → answer_of (with_body env status p r) ≡ ok r
unfolding with_body
with_body-answer env status p r = elim (Option-cases (env.marshal_problem p)) [
  | inl e ↦ rw (answer_of, with_body, e) refl
  | inr (raw, e) ↦ rw (answer_of, with_body, e) refl
]

with_failures-Replays :
    (env : Env) (fs : List FailureEntry) (resp : PostResponse)
    → answer_of (with_failures env fs) ≡ ok resp
    → Survives env resp
    → Replays env (with_failures env fs) resp
unfolding with_failures cached_post_response
with_failures-Replays env fs resp h s =
    let same : failures fs ≡ resp = ok_eq (sym (with_failures-answer env fs) ∙ h) in
    let (raw, m, n, u) = subst (Survives env) (sym same) s in
    subst (Replays env (with_failures env fs)) same
      (200, raw, rw (with_failures, m) refl, rw (n, u) refl)

with_body-Replays :
    (env : Env) (status : ℕ) (p : Problem) (r resp : PostResponse)
    → (Survives env r → Reads env.marshal_problem env.unmarshal_problem p)
    → ((raw : Bytes)
        → is_nil raw ≡ false
        → env.unmarshal_problem raw ≡ some p
        → cached_post_response env (record { status = status; body = raw }) ≡ r)
    → answer_of (with_body env status p r) ≡ ok resp
    → Survives env resp
    → Replays env (with_body env status p r) resp
unfolding with_body
with_body-Replays env status p r resp f g h s =
    let same : r ≡ resp = ok_eq (sym (with_body-answer env status p r) ∙ h) in
    let (raw, m, n, u) = f (subst (Survives env) (sym same) s) in
    subst (Replays env (with_body env status p r)) same
      (status, raw, rw (with_body, m) refl, g raw n u)

rejected-Replays :
    (env : Env) (e : ServiceError) (resp : PostResponse)
    → answer_of (rejected env e) ≡ ok resp
    → Survives env resp
    → Replays env (rejected env e) resp
unfolding rejected cached_post_response cached_body
rejected-Replays env ServiceError.not_found resp h s =
    with_body-Replays env 404 _ _ resp (λ x. x) (λ raw n u. rw (n, u) refl) h s
rejected-Replays env ServiceError.read_only resp h s =
    with_body-Replays env 403 _ _ resp (λ x. x) (λ raw n u. rw (n, u) refl) h s
rejected-Replays env ServiceError.invalid_request resp h s =
    with_body-Replays env 400 _ _ resp (λ x. x) (λ raw n u. rw (n, u) refl) h s
rejected-Replays env (ServiceError.of_store StoreError.segment_overlap) resp h s =
    with_body-Replays env 422 _ _ resp (λ x. x) (λ raw n u. rw (n, u) refl) h s
rejected-Replays env (ServiceError.of_store StoreError.segment_object_reaping) resp h s =
    with_body-Replays env 409 _ _ resp (λ x. x) (λ raw n u. rw (n, u) refl) h s
rejected-Replays env ServiceError.index_panic resp h s = absurd (cc)
rejected-Replays env ServiceError.invalid_timerange resp h s = absurd (cc)
rejected-Replays env (ServiceError.of_store StoreError.flow_not_found) resp h s = absurd (cc)
rejected-Replays env (ServiceError.of_store StoreError.flow_read_only) resp h s = absurd (cc)
rejected-Replays env (ServiceError.of_store StoreError.bad_input) resp h s = absurd (cc)
rejected-Replays env (ServiceError.of_store StoreError.controlled_storage_not_configured) resp h s =
    absurd (cc)
rejected-Replays env (ServiceError.of_store StoreError.invalid_object_timerange) resp h s =
    absurd (cc)
rejected-Replays env (ServiceError.of_store StoreError.invalid_cursor) resp h s = absurd (cc)
rejected-Replays env (ServiceError.of_store StoreError.bad_stored_text) resp h s = absurd (cc)
rejected-Replays env (ServiceError.of_store StoreError.database) resp h s = absurd (cc)
rejected-Replays env (ServiceError.of_store StoreError.nil_dereference) resp h s = absurd (cc)
rejected-Replays env (ServiceError.of_store (StoreError.bad_range x)) resp h s = absurd (cc)

outcome-Replays :
    (env : Env) (res : RegisterResult) (o : Outcome) (resp : PostResponse)
    → answer_of (outcome_disposal env res o) ≡ ok resp
    → Survives env resp
    → Replays env (outcome_disposal env res o) resp
unfolding outcome_disposal cached_post_response
outcome-Replays env res Outcome.all_accepted resp h s =
    let same : created ≡ resp = ok_eq (h) in
    subst (Replays env (finalise 201 [] created)) same (201, [], refl, refl)
outcome-Replays env res Outcome.partial resp h s = with_failures-Replays env _ resp h s
outcome-Replays env res Outcome.all_rejected resp h s = with_failures-Replays env _ resp h s

-- Every response of the handler is recorded, and replays as itself.
pub disposal-Replays :
    (env : Env) (r : Result ServiceError RegisterResult) (resp : PostResponse)
    → answer_of (disposal env r) ≡ ok resp
    → Survives env resp
    → Replays env (disposal env r) resp
unfolding disposal
disposal-Replays env (err e) resp h s = rejected-Replays env e resp h s
disposal-Replays env (ok res) resp h s = outcome-Replays env res res.outcome resp h s
