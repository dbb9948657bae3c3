-- ===== src/Handlers/Replay.antt =====
-- internal/httpx/handlers/segments.go, `PostFlowSegments`: what a client gets that sends a request
-- again.
use open_tams.Idempotency.Acquire.{acquire-unchanged}
use open_tams.Idempotency.Rows.{IsKeyed, answered}
use open_tams.Idempotency.Calls.{Call, apply_all, AllSpare, acquire-IsKeyed}
use open_tams.Idempotency.Ownership.{acquired_valid, replay, retry_after_release}
use open_tams.Prelude.Result.{err, ok, Result}
use open_tams.Prelude.Bytes.{Bytes, codes, bytes_eq}
use open_tams.Prelude.{
  false, refl, ◌∙◌, ◌≡◌, ℕ, List, ap, ◌+◌, [], ◌<◌, Bool, true, if◌then◌else◌, sym,
}
use open_tams.Handlers.{Env}
use open_tams.Handlers.Post.{
  Answer, Conditions, Request, Prepared, Server, post_flow_segments, post_prepared, acquired_answer,
  register, prepare, cached_conflict, cached_post_response, disposal, dispose, deferred, finalise,
  PostResponse, HandlerError, Disposal, give_up, leave,
}
use open_tams.Handlers.Retry.{Survives, dispose-answer, disposal-Replays, answer_of}
use open_tams.Idempotency.{
  no_faults, acquired, cached, complete, StoreError as IdemError, execute, Table, acquire,
  validate_key, Row, Status, fresh_row, release, database,
}
use open_tams.Service.{ServiceError, RegisterResult, InsertResult, register_batch}
use open_tams.Segments.{Segment, StoreError}

complete-ok :
    (key : Bytes) (status : ℕ) (body : Bytes) (t : Table)
    → validate_key key ≡ ok tt
    → (complete false key status body t).0 ≡ ok tt
unfolding complete execute
complete-ok key status body t v = rw (complete, execute, v) refl

deferred-ok :
    (c : Conditions) (key : Bytes) (r : Result IdemError (Unit {0}) × Table)
    → r.0 ≡ ok tt
    → deferred c key r ≡ r.1
unfolding deferred
deferred-ok c key (ok u, t) e = refl
deferred-ok c key (err x, t) e = absurd (cc)

-- A call that finds a recorded response, or a conflict.
again :
    {S : Type 0} (insert : Bytes → List Segment → S → Result StoreError InsertResult × S)
    (env : Env) (c : Conditions) (req : Request) (p : Prepared) (st : Server S)
    → prepare env req ≡ ok p
    → (b : Bool) (status : ℕ) (body : Bytes) (resp : PostResponse) → c.acquire_faults ≡ no_faults
    → cached_post_response env (record { status = status; body = body }) ≡ resp
    → (acquire no_faults c.db_now c.app_now p.key p.body_hash c.ttl st.keys).0
      ≡ ok (if b then cached (record { status = status; body = body }) else Status.conflict)
    → post_flow_segments insert env c req st ≡ (
      ok (
          if b
          then resp
          else cached_conflict (codes "idempotency key reused with a different request body")),
      st,
    )
unfolding post_flow_segments post_prepared acquired_answer
again insert env c req p st ready true status body resp calm r a =
    let keys =
      acquire-unchanged no_faults c.db_now c.app_now p.key p.body_hash c.ttl st.keys
        (λ q. absurd (cc)) in
    rw (post_flow_segments, ready, post_prepared, calm, a, keys) (rw r refl)
again insert env c req p st ready false status body resp calm r a =
    let keys =
      acquire-unchanged no_faults c.db_now c.app_now p.key p.body_hash c.ttl st.keys
        (λ q. absurd (cc)) in
    rw (post_flow_segments, ready, post_prepared, calm, a, keys) refl

module _ {S : Type 0} (insert : Bytes → List Segment → S → Result StoreError InsertResult × S)
    (env : Env) (c : Conditions) (req : Request) (p : Prepared) (st : Server S)
    (ready : prepare env req ≡ ok p)
    (claim : (acquire c.acquire_faults c.db_now c.app_now p.key p.body_hash c.ttl st.keys).0
      ≡ ok acquired) where
  abbrev claimed : Table
  claimed = (acquire c.acquire_faults c.db_now c.app_now p.key p.body_hash c.ttl st.keys).1

  -- The row of the key with a response.
  abbrev pub answered_row : ℕ → Bytes → Row
  answered_row status body =
      answered status body (fresh_row p.key p.body_hash c.db_now (c.app_now + c.ttl))

  abbrev outcome : Result ServiceError RegisterResult × S
  outcome = register_batch (insert p.flow_id) p.segments st.store

  abbrev first : Answer × Server S
  first = post_flow_segments insert env c req st

  -- A request that claims its key is registered, and its key is disposed of.
  pub post_claimed : first ≡ (
    (dispose c p.key (disposal env outcome.0) claimed).0,
    record { keys = (dispose c p.key (disposal env outcome.0) claimed).1; store = outcome.1 },
  )
  unfolding post_flow_segments post_prepared acquired_answer register
  post_claimed = rw (post_flow_segments, ready, post_prepared, claim) refl

  recorded :
      (status : ℕ) (body : Bytes) (resp : PostResponse)
      → c.complete_fails ≡ false
      → disposal env outcome.0 ≡ finalise status body resp
      → first.1.keys ≡ (complete false p.key status body claimed).1
  unfolding dispose deferred
  recorded status body resp k d =
      ap (λ f. f.1.keys) post_claimed
      ∙ ap (λ x. (dispose c p.key x claimed).1) d
      ∙ (rw k (
          deferred-ok c p.key (complete false p.key status body claimed) (
            complete-ok p.key status body claimed (
              acquired_valid c.acquire_faults c.db_now c.app_now p.key p.body_hash c.ttl st.keys
                claim))))

  -- What stands in the table behind a response that was recorded, once other calls have come.
  held :
      (status : ℕ) (body : Bytes) (resp : PostResponse) (ds : List Call) (db_now app_now ttl : ℕ)
      (body_hash : Bytes)
      → IsKeyed st.keys
      → c.complete_fails ≡ false
      → disposal env outcome.0 ≡ finalise status body resp
      → AllSpare p.key (answered_row status body) ds
      → db_now < c.app_now + c.ttl
      → (acquire no_faults db_now app_now p.key body_hash ttl (apply_all ds first.1.keys)).0
        ≡ ok (
            if bytes_eq p.body_hash body_hash
            then cached (record { status = status; body = body })
            else Status.conflict)
  unfolding apply_all
  held status body resp ds db_now app_now ttl body_hash keyed k d s lt =
      rw (recorded status body resp k d) (
        replay c.acquire_faults c.db_now c.app_now p.key p.body_hash c.ttl st.keys keyed claim [] ds
          status body db_now app_now body_hash ttl tt s lt)

  -- A client that sends a request again. Where the first call claimed the key, its response was
  -- recorded, and this survives the JSON of the table, a second call with the same key before the time
  -- to live runs out, whatever calls on other keys or sweeps came between and whatever the
  -- store holds by then, gets the same response if its body has the same hash, and the conflict of
  -- a reused key otherwise; it changes neither the keys nor the store.
  pub post-retry :
      (c' : Conditions) (req' : Request) (p' : Prepared) (resp : PostResponse) (ds : List Call)
      (store' : S)
      → IsKeyed st.keys
      → c.complete_fails ≡ false
      → first.0 ≡ ok resp
      → Survives env resp
      → ((status : ℕ) (body : Bytes) → AllSpare p.key (answered_row status body) ds)
      → prepare env req' ≡ ok p'
      → p'.key ≡ p.key
      → c'.acquire_faults ≡ no_faults
      → c'.db_now < c.app_now + c.ttl
      → post_flow_segments insert env c' req'
          (record { keys = apply_all ds first.1.keys; store = store' })
        ≡ (
          ok (
              if bytes_eq p.body_hash p'.body_hash
              then resp
              else cached_conflict (codes "idempotency key reused with a different request body")),
          record { keys = apply_all ds first.1.keys; store = store' },
        )
  post-retry c' req' p' resp ds store' keyed k h s spare ready' same calm lt =
      let kept =
        sym (dispose-answer c p.key (disposal env outcome.0) claimed)
        ∙ sym (ap (λ f. f.0) post_claimed)
        ∙ h in
      let (status, body, d, r) = disposal-Replays env outcome.0 resp kept s in
      again insert env c' req' p' (record { keys = apply_all ds first.1.keys; store = store' })
        ready' (bytes_eq p.body_hash p'.body_hash) status body resp calm r
        (rw same (
          held status body resp ds c'.db_now c'.app_now c'.ttl p'.body_hash keyed k d
            (spare status body) lt))

  release_fails :
      (t : Table) → validate_key p.key ≡ ok tt → release true p.key t ≡ (err database, t)
  unfolding release
  release_fails t v = rw (release, execute, v) refl

  release_anyway :
      (fails : Bool) (t : Table)
      → validate_key p.key ≡ ok tt
      → c.deferred_fails ≡ false
      → deferred c p.key (release fails p.key t) ≡ (release false p.key t).1
  unfolding deferred release
  release_anyway true t v d =
      ap (deferred c p.key) (release_fails t v) ∙ ap (λ b. (release b p.key t).1) d
  release_anyway false t v d =
      deferred-ok c p.key (release false p.key t) (rw (release, execute, v) refl)

  -- What the disposal of a failure leaves.
  failed_keys :
      (d : Disposal) (e : HandlerError) (t : Table)
      → answer_of d ≡ err e
      → validate_key p.key ≡ ok tt
      → c.deferred_fails ≡ false
      → (dispose c p.key d t).1 ≡ (release false p.key t).1
  unfolding dispose
  failed_keys (finalise status body resp) e t h v d = absurd (cc)
  failed_keys (give_up x) e t h v d = release_anyway c.release_fails t v d
  failed_keys (leave a) e t h v d = ap (λ b. (release b p.key t).1) d

  -- A request that claimed its key and ends in an internal error leaves the key free, whether its own
  -- release fails or not, as long as the deferred one does not: the next call of Acquire with the
  -- key claims it, whatever the body and the time are.
  pub post-released :
      (e : HandlerError) (db_now app_now ttl : ℕ) (body_hash : Bytes)
      → IsKeyed st.keys
      → first.0 ≡ err e
      → c.deferred_fails ≡ false
      → (acquire no_faults db_now app_now p.key body_hash ttl first.1.keys).0 ≡ ok acquired
  post-released e db_now app_now ttl body_hash keyed h d =
      let valid =
        acquired_valid c.acquire_faults c.db_now c.app_now p.key p.body_hash c.ttl st.keys claim in
      let kept =
        sym (dispose-answer c p.key (disposal env outcome.0) claimed)
        ∙ sym (ap (λ f. f.0) post_claimed)
        ∙ h in
      rw
        (ap (λ f. f.1.keys) post_claimed
          ∙ failed_keys (disposal env outcome.0) e claimed kept valid d)
        (retry_after_release p.key claimed db_now app_now body_hash ttl
          (acquire-IsKeyed c.acquire_faults c.db_now c.app_now p.key p.body_hash c.ttl st.keys
            keyed)
          valid)
