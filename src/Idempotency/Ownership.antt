-- ===== src/Idempotency/Ownership.antt =====
-- What a client may rely on between `Acquire` and the end of the time to live.
use open_tams.Prelude.{
  ap, ◌-◌, ◌∙◌, ℕ, ◌+◌, ◌<◌, Bool, false, Option, none, some, List, [], ◌∷◌, ◌≡◌, if◌then◌else◌,
  leb, arith, refl,
}
use open_tams.Prelude.Bytes.{Bytes, bytes_eq, bytes_eq_refl, length}
use open_tams.Prelude.Result.{ok}
use open_tams.Idempotency.{
  count_rows, Row, Table, Status, Faults, no_faults, select_row, delete_rows, acquire, complete,
  release, prune, reap_stale, execute, validate_key, answer, acquired, cached, is_expired, is_stale,
  fresh_row,
}
use open_tams.Idempotency.Acquire.{acquire_answer}
use open_tams.Idempotency.Calls.{
  release_call, Call, acquire_call, complete_call, apply-IsKeyed, apply, apply_all,
  apply_all-IsKeyed, apply_all-Spares, AllSpare,
}
use open_tams.Idempotency.Rows.{
  select_row-delete_rows, select_row-key, IsKeyed, keep_if, select_row-update_rows, answered,
}

-- A row that is not expired decides the answer of a later `Acquire` of its key.
acquire_held :
    (k : Bytes) (r : Row) (cs : List Call) (t : Table) (db_now app_now : ℕ) (body_hash : Bytes)
    (ttl : ℕ)
    → IsKeyed t
    → validate_key k ≡ ok tt
    → select_row k t ≡ some r
    → AllSpare k r cs
    → db_now < r.expires_at
    → (acquire no_faults db_now app_now k body_hash ttl (apply_all cs t)).0
      ≡ ok (answer body_hash r)
acquire_held k r cs t db_now app_now body_hash ttl h v e s lt =
    (acquire_answer db_now app_now k body_hash ttl (apply_all cs t) v (apply_all-IsKeyed cs t h)).0
    ∙ (rw (apply_all-Spares k r cs t h e s, not_yet r lt) refl)
  where
    not_yet : (r : Row) → db_now < r.expires_at → leb r.expires_at db_now ≡ false
    not_yet r p = ground arith

acquired_row :
    (faults : Faults) (db_now app_now : ℕ) (k body_hash : Bytes) (ttl : ℕ) (t : Table)
    → (acquire faults db_now app_now k body_hash ttl t).0 ≡ ok acquired
    → select_row k (acquire faults db_now app_now k body_hash ttl t).1
      ≡ some (fresh_row k body_hash db_now (app_now + ttl))
unfolding acquire select_row answer
acquired_row faults db_now app_now k body_hash ttl t h = ground (arith, bytes_eq_refl k)

pub acquired_valid :
    (faults : Faults) (db_now app_now : ℕ) (k body_hash : Bytes) (ttl : ℕ) (t : Table)
    → (acquire faults db_now app_now k body_hash ttl t).0 ≡ ok acquired
    → validate_key k ≡ ok tt
unfolding acquire validate_key
acquired_valid faults db_now app_now k body_hash ttl t h = ground arith

-- `Complete` records its response in the row of its key.
completed :
    (k : Bytes) (status : ℕ) (body : Bytes) (t : Table) (r : Row)
    → validate_key k ≡ ok tt
    → select_row k t ≡ some r
    → select_row k (complete false k status body t).1 ≡ some (answered status body r)
unfolding complete
completed k status body t r v e =
    rw (complete, execute, v, select_row-update_rows k k status body t, e, bytes_eq_refl k) refl

-- `Release` leaves no row of its key.
released :
    (k : Bytes) (t : Table)
    → IsKeyed t
    → validate_key k ≡ ok tt
    → select_row k (release false k t).1 ≡ none
unfolding release
released k t h v =
    rw (release, execute, v, select_row-delete_rows k (λ r. bytes_eq r.key k) t h)
      (gone (select_row k t) refl)
  where
    gone : (o : Option Row) → select_row k t ≡ o → keep_if (λ r. bytes_eq r.key k) o ≡ none
    gone none e = refl
    gone (some r) e = ground (arith, select_row-key k t r e, bytes_eq_refl k)

-- A claim by the first caller, at `db_now` and `app_now`.
module _ (faults : Faults) (db_now app_now : ℕ) (k body_hash : Bytes) (ttl : ℕ) (t : Table)
    (keyed : IsKeyed t)
    (claim : (acquire faults db_now app_now k body_hash ttl t).0 ≡ ok acquired) where
  abbrev claimed : Table
  claimed = (acquire faults db_now app_now k body_hash ttl t).1

  claimed-IsKeyed : IsKeyed claimed
  claimed-IsKeyed =
      unfold apply in apply-IsKeyed (acquire_call faults db_now app_now k body_hash ttl) t keyed

  -- One owner: a caller that has claimed a key is the only one until the claim ends. Whatever calls
  -- come between that do not end it, a second `Acquire` of the key before the time to live runs out
  -- claims nothing: it answers in flight for the same body hash, and conflict for another.
  pub one_owner :
      (cs : List Call) (db_later app_later : ℕ) (other_hash : Bytes) (other_ttl : ℕ)
      → AllSpare k (fresh_row k body_hash db_now (app_now + ttl)) cs
      → db_later < app_now + ttl
      → (acquire no_faults db_later app_later k other_hash other_ttl (apply_all cs claimed)).0
        ≡ ok (if bytes_eq body_hash other_hash then Status.in_flight else Status.conflict)
  unfolding answer
  one_owner cs db_later app_later other_hash other_ttl s lt =
      acquire_held k (fresh_row k body_hash db_now (app_now + ttl)) cs claimed db_later app_later
        other_hash other_ttl claimed-IsKeyed
        (acquired_valid faults db_now app_now k body_hash ttl t claim)
        (acquired_row faults db_now app_now k body_hash ttl t claim) s lt

  -- Replay: once the owner has recorded a response with `Complete`, a retry before the time to live
  -- runs out gets that response, status and body, if its body hash is the owner's, and a conflict
  -- otherwise, whatever calls that end nothing came before and after the response.
  pub replay :
      (cs ds : List Call) (status : ℕ) (body : Bytes) (db_later app_later : ℕ) (other_hash : Bytes)
      (other_ttl : ℕ)
      → AllSpare k (fresh_row k body_hash db_now (app_now + ttl)) cs
      → AllSpare k (answered status body (fresh_row k body_hash db_now (app_now + ttl))) ds
      → db_later < app_now + ttl
      → (acquire no_faults db_later app_later k other_hash other_ttl
          (apply_all ds (complete false k status body (apply_all cs claimed)).1)).0
        ≡ ok (
            if bytes_eq body_hash other_hash
            then cached (record { status = status; body = body })
            else Status.conflict)
  unfolding answer
  replay cs ds status body db_later app_later other_hash other_ttl s s' lt =
      let row = fresh_row k body_hash db_now (app_now + ttl) in
      let valid = acquired_valid faults db_now app_now k body_hash ttl t claim in
      let held =
        apply_all-Spares k row cs claimed claimed-IsKeyed
          (acquired_row faults db_now app_now k body_hash ttl t claim) s in
      acquire_held k (answered status body row) ds
        (complete false k status body (apply_all cs claimed)).1 db_later app_later other_hash
        other_ttl
        (unfold apply in
          apply-IsKeyed (complete_call false k status body) (apply_all cs claimed)
            (apply_all-IsKeyed cs claimed claimed-IsKeyed))
        valid (completed k status body (apply_all cs claimed) row valid held) s' lt

-- A sweep takes exactly the rows that its condition names, and counts them.
length-delete_rows :
    (p : Row → Bool) (t : Table) → count_rows p t + length (delete_rows p t) ≡ length t
unfolding count_rows delete_rows
length-delete_rows p [] = refl
length-delete_rows p (r ∷ t) = ground (arith, length-delete_rows p t)

-- `Prune` and `ReapStale`, where the statement does not fail: the count that is returned is the
-- number of rows that went, and a key has the row that it had, unless the row is expired for
-- `Prune`, or in flight since at least the threshold for `ReapStale`.
pub sweeps_exactly :
    (now threshold : ℕ) (t : Table) (k : Bytes)
    → IsKeyed t
    → (select_row k (prune false now t).1 ≡ keep_if (is_expired now) (select_row k t))
      × ((prune false now t).0 ≡ ok (length t - length (prune false now t).1))
      × (select_row k (reap_stale false now threshold t).1
          ≡ keep_if (is_stale now threshold) (select_row k t))
      × ((reap_stale false now threshold t).0
          ≡ ok (length t - length (reap_stale false now threshold t).1))
unfolding prune reap_stale
sweeps_exactly now threshold t k h = (
  select_row-delete_rows k (is_expired now) t h,
  ap ok (omega (arith, length-delete_rows (is_expired now) t)),
  select_row-delete_rows k (is_stale now threshold) t h,
  ap ok (omega (arith, length-delete_rows (is_stale now threshold) t)),
)

-- After `Release` the next `Acquire` of the key claims it, whatever its body hash.
pub retry_after_release :
    (k : Bytes) (t : Table) (db_now app_now : ℕ) (body_hash : Bytes) (ttl : ℕ)
    → IsKeyed t
    → validate_key k ≡ ok tt
    → (acquire no_faults db_now app_now k body_hash ttl (release false k t).1).0 ≡ ok acquired
retry_after_release k t db_now app_now body_hash ttl h v =
    (acquire_answer db_now app_now k body_hash ttl (release false k t).1 v
      (unfold apply in apply-IsKeyed (release_call false k) t h)).0
    ∙ (rw (released k t h v) refl)
