-- ===== src/Idempotency/Acquire.antt =====
-- `Acquire` on every branch.
use open_tams.Prelude.{
  ◌∙◌, ℕ, ◌+◌, Bool, true, false, ◌&&◌, Option, none, some, ◌∷◌, ◌≡◌, ◌≢◌, ◌⊎◌, if◌then◌else◌,
  arith, refl, Option-cases, inl, inr, Bool-cases, [], ◌≤◌, ◌<◌,
}
use open_tams.Prelude.Bytes.{Bytes, bytes_eq, bytes_eq_iff, bytes_eq_refl}
use open_tams.Prelude.Result.{ok}
use open_tams.Idempotency.{
  Row, Table, Status, Faults, no_faults, select_row, delete_rows, acquire, transaction,
  validate_key, answer, acquired, is_expired, fresh_row, in_flight, cached, conflict,
}
use open_tams.Idempotency.Rows.{
  IsKeyed, keep_if, select_row-delete_rows, select_row-key, delete_rows-IsKeyed,
}

-- `Acquire` changes the table only where it claims the key: with any error, and with any answer
-- about a row that is there, the table is as it was, whichever calls of the database fail.
pub acquire-unchanged :
    (faults : Faults) (db_now app_now : ℕ) (key body_hash : Bytes) (ttl : ℕ) (t : Table)
    → (acquire faults db_now app_now key body_hash ttl t).0 ≢ ok acquired
    → (acquire faults db_now app_now key body_hash ttl t).1 ≡ t
unfolding acquire
acquire-unchanged faults db_now app_now key body_hash ttl t h = ground arith

-- The row of a key that is not expired.
abbrev pub live_row : ℕ → Bytes → Table → Option Row
live_row now k t = keep_if (is_expired now) (select_row k t)

abbrev pub is_none : Option Row → Bool
is_none none = true
is_none (some r) = false

-- The answer that the contract of `Acquire` promises.
abbrev pub promised : Bytes → Option Row → Status
promised body_hash none = acquired
promised body_hash (some r) = answer body_hash r

-- The expired row of the key, and nothing else, is deleted before the row is looked up.
pub purged : ℕ → Bytes → Table → Table
purged now k t = delete_rows (λ r. bytes_eq r.key k && is_expired now r) t

-- The table after a call, whatever fails in it: what it was, or a fresh row on the purged table.
pub acquire_table :
    (faults : Faults) (db_now app_now : ℕ) (key body_hash : Bytes) (ttl : ℕ) (t : Table)
    → ((acquire faults db_now app_now key body_hash ttl t).1 ≡ t)
      ⊎ (((acquire faults db_now app_now key body_hash ttl t).1
            ≡ fresh_row key body_hash db_now (app_now + ttl) ∷ purged db_now key t)
          × (select_row key (purged db_now key t) ≡ none))
unfolding acquire purged
acquire_table faults db_now app_now key body_hash ttl t = ground arith

pub purged-IsKeyed : (now : ℕ) (k : Bytes) (t : Table) → IsKeyed t → IsKeyed (purged now k t)
unfolding purged
purged-IsKeyed now k t h = delete_rows-IsKeyed (λ r. bytes_eq r.key k && is_expired now r) t h

pub select_row-purged :
    (now : ℕ) (j k : Bytes) (t : Table)
    → IsKeyed t
    → select_row j (purged now k t) ≡ (if bytes_eq k j then live_row now k t else select_row j t)
unfolding purged
select_row-purged now j k t h = elim (Option-cases (select_row j t)) [
  | inl e ↦ ground (
    arith,
    select_row-delete_rows j (λ r. bytes_eq r.key k && is_expired now r) t h,
    bytes_eq_iff k j,
  )
  | inr (r, e) ↦ ground (
    arith,
    select_row-delete_rows j (λ r. bytes_eq r.key k && is_expired now r) t h,
    bytes_eq_iff k j,
    select_row-key j t r e,
    bytes_eq_iff r.key k,
  )
]

select_row-purged_self :
    (now : ℕ) (k : Bytes) (t : Table) → IsKeyed t → select_row k (purged now k t) ≡ live_row now k t
select_row-purged_self now k t h = rw (select_row-purged now k k t h, bytes_eq_refl k) refl

-- The transaction of a valid key in which nothing fails.
module _ (db_now app_now : ℕ) (key body_hash : Bytes) (ttl : ℕ) (t : Table)
    (valid : validate_key key ≡ ok tt) where
  acquire_found :
      (r : Row)
      → select_row key (purged db_now key t) ≡ some r
      → acquire no_faults db_now app_now key body_hash ttl t ≡ (ok (answer body_hash r), t)
  unfolding acquire purged
  acquire_found r e = rw (acquire, transaction, valid, e) refl

  acquire_free :
      select_row key (purged db_now key t) ≡ none
      → acquire no_faults db_now app_now key body_hash ttl t
        ≡ (ok acquired, fresh_row key body_hash db_now (app_now + ttl) ∷ purged db_now key t)
  unfolding acquire purged
  acquire_free e = rw (acquire, transaction, valid, e) refl

  -- The answer and the row of every key, by the row of the key that is not expired.
  pub acquire_answer :
      IsKeyed t
      → ((acquire no_faults db_now app_now key body_hash ttl t).0
          ≡ ok (promised body_hash (live_row db_now key t)))
        × ((j : Bytes)
            → select_row j (acquire no_faults db_now app_now key body_hash ttl t).1 ≡ (
                if bytes_eq key j && is_none (live_row db_now key t)
                then some (fresh_row key body_hash db_now (app_now + ttl))
                else select_row j t))
  acquire_answer h = elim (Option-cases (live_row db_now key t)) [
    | inr (r, e) ↦
        let found = acquire_found r (select_row-purged_self db_now key t h ∙ e) in
        (rw (found, e) refl, λ j. rw (found, e) (ground arith))
    | inl e ↦
        let free = acquire_free (select_row-purged_self db_now key t h ∙ e) in
        (rw (free, e) refl, λ j. rw (free, e) (claimed j e))
  ]
    where
      claimed :
          (j : Bytes)
          → live_row db_now key t ≡ none
          → select_row j (fresh_row key body_hash db_now (app_now + ttl) ∷ purged db_now key t) ≡ (
              if bytes_eq key j && true
              then some (fresh_row key body_hash db_now (app_now + ttl))
              else select_row j t)
      claimed j e = unfold select_row in ground (arith, select_row-purged db_now j key t h)

-- What the table holds for a key: nothing or an expired row, or a row that is not expired.
abbrev pub IsFree : ℕ → Bytes → Table → Type 0
IsFree now k t =
    (select_row k t ≡ none) ⊎ ((r : Row) × (select_row k t ≡ some r) × (r.expires_at ≤ now))

abbrev pub Holds : ℕ → Bytes → Table → Row → Type 0
Holds now k t r = (select_row k t ≡ some r) × (now < r.expires_at)

-- What a caller with a body's hash is told about a row.
abbrev pub Demands : Bytes → Row → Status → Type 0
Demands body_hash r status =
    ((r.body_hash ≡ body_hash) × (r.in_flight ≡ true) × (status ≡ in_flight))
    ⊎ ((r.body_hash ≡ body_hash)
        × (r.in_flight ≡ false)
        × (status ≡ cached (record { status = r.response_status; body = r.response_body })))
    ⊎ ((r.body_hash ≢ body_hash) × (status ≡ conflict))

-- The row of a claim.
abbrev pub IsClaim : Bytes → Bytes → ℕ → ℕ → Row → Type 0
IsClaim key body_hash db_now expires_at r =
    (r.key ≡ key)
    × (r.body_hash ≡ body_hash)
    × (r.in_flight ≡ true)
    × (r.response_status ≡ 0)
    × (r.response_body ≡ [])
    × (r.acquired_at ≡ db_now)
    × (r.expires_at ≡ expires_at)

live_row-cases :
    (now : ℕ) (k : Bytes) (t : Table)
    → ((live_row now k t ≡ none) × IsFree now k t)
      ⊎ ((r : Row) × (live_row now k t ≡ some r) × Holds now k t r)
live_row-cases now k t = elim (Option-cases (select_row k t)) [
  | inl e ↦ inl (rw e refl, inl e)
  | inr (r, e) ↦ elim (Bool-cases (is_expired now r)) [
    | inl x ↦ inl (rw (e, x) refl, inr (r, e, ground arith))
    | inr x ↦ inr (r, rw (e, x) refl, (e, ground arith))
  ]
]

answer-Demands : (body_hash : Bytes) (r : Row) → Demands body_hash r (answer body_hash r)
unfolding answer
answer-Demands body_hash r = ground (arith, bytes_eq_iff r.body_hash body_hash)

-- Where nothing fails, and the table holds at most one row for a key, a valid key with no row or an
-- expired one is acquired: it then has a row of the body's hash that is in flight, with no
-- response, acquired at the database's time and expiring the time to live after the process's time,
-- and every other key has the row that it had. A key with a row that is not expired is answered,
-- and the table stays as it was: for the row's own hash with in_flight while the row is in flight
-- and with the row's status and body when it is not, for any other hash with a conflict.
pub acquire_lem :
    (db_now app_now : ℕ) (key body_hash : Bytes) (ttl : ℕ) (t : Table)
    → validate_key key ≡ ok tt
    → IsKeyed t
    → (status : Status) × ((acquire no_faults db_now app_now key body_hash ttl t).0 ≡ ok status)
      × ((IsFree db_now key t
            × (status ≡ acquired)
            × ((row : Row) × IsClaim key body_hash db_now (app_now + ttl) row
                × ((j : Bytes)
                    → select_row j (acquire no_faults db_now app_now key body_hash ttl t).1
                      ≡ (if bytes_eq key j then some row else select_row j t))))
          ⊎ ((r : Row) × Holds db_now key t r
              × Demands body_hash r status
              × ((acquire no_faults db_now app_now key body_hash ttl t).1 ≡ t)))
acquire_lem db_now app_now key body_hash ttl t valid h = elim (live_row-cases db_now key t) [
  | inr (r, e, held) ↦
      let found =
        acquire_found db_now app_now key body_hash ttl t valid r
          (select_row-purged_self db_now key t h ∙ e) in
      (answer body_hash r, rw found refl, inr (r, held, answer-Demands body_hash r, rw found refl))
  | inl (e, free) ↦
      let (answered, rows) = acquire_answer db_now app_now key body_hash ttl t valid h in
      (
        acquired,
        rw (answered, e) refl,
        inl (
          free,
          refl,
          (
            fresh_row key body_hash db_now (app_now + ttl),
            (refl, refl, refl, refl, refl, refl, refl),
            λ j. rw (rows j, e) (ground arith),
          ),
        ),
      )
]
