-- ===== src/Idempotency.antt =====
-- internal/idempotency/idempotency.go, over the table of migrations/000002 and 000004. Times are
-- numbers on one scale. The database's `now()` and the process's `time.Now()` are two clocks. Each
-- call of the database may fail: `Faults` says which do, and a transaction that is not committed
-- leaves the table as it was.
pub mod Rows
mod Examples
pub mod Acquire
pub mod Calls
pub mod Ownership
use open_tams.Prelude.{
  ℕ, ◌+◌, ◌-◌, Bool, true, false, ◌&&◌, Option, none, some, List, [], ◌∷◌, if◌then◌else◌, ltb, leb,
  ◌==◌,
}
use open_tams.Prelude.Bytes.{Bytes, bytes_eq, length, is_nil}
use open_tams.Prelude.Result.{Result, ok, err, ◌>>=◌, ◌>>◌, ensure}

-- A row of idempotency_keys.
pub record Row : Type 0 where
  pub key : Bytes
  pub body_hash : Bytes
  pub in_flight : Bool
  pub response_status : ℕ
  pub response_body : Bytes
  pub acquired_at : ℕ
  pub expires_at : ℕ

abbrev pub Table : Type 0
Table = List Row

pub record CachedResponse : Type 0 where
  pub status : ℕ
  pub body : Bytes

-- `AcquireResult`, whose pointer is set exactly in the case of `StatusCached`.
pub data Status : Type 0 where
  acquired in_flight conflict : Status
  cached : CachedResponse → Status

pub data StoreError : Type 0 where
  empty_key key_too_long database : StoreError

-- The calls of `Acquire` that fail.
pub record Faults : Type 0 where
  pub begin : Bool
  pub delete : Bool
  pub select : Bool
  pub insert : Bool
  pub commit : Bool

abbrev pub no_faults : Faults
no_faults = record { begin = false; delete = false; select = false; insert = false; commit = false }

pub validate_key : Bytes → Result StoreError (Unit {0})
validate_key key =
    if is_nil key then err empty_key else if ltb 255 (length key) then err key_too_long else ok tt

-- `DELETE FROM idempotency_keys WHERE …`, and the count of the rows that it takes.
unfoldable pub delete_rows : (Row → Bool) → Table → Table
delete_rows p [] = []
delete_rows p (r ∷ t) = let rest = delete_rows p t in if p r then rest else r ∷ rest

pub count_rows : (Row → Bool) → Table → ℕ
count_rows p [] = 0
count_rows p (r ∷ t) = (if p r then 1 else 0) + count_rows p t

-- `SELECT … WHERE key = $1`.
unfoldable pub select_row : Bytes → Table → Option Row
select_row k [] = none
select_row k (r ∷ t) = if bytes_eq r.key k then some r else select_row k t

-- `UPDATE idempotency_keys SET in_flight = false, … WHERE key = $1`.
pub update_rows : Bytes → ℕ → Bytes → Table → Table
update_rows k status body [] = []
update_rows k status body (r ∷ t) =
    (if bytes_eq r.key k
      then record r { in_flight = false; response_status = status; response_body = body }
      else r)
    ∷ update_rows k status body t

abbrev pub is_expired : ℕ → Row → Bool
is_expired now r = leb r.expires_at now

abbrev pub fresh_row : Bytes → Bytes → ℕ → ℕ → Row
fresh_row key body_hash db_now expires_at = record {
  key = key;
  body_hash = body_hash;
  in_flight = true;
  response_status = 0;
  response_body = [];
  acquired_at = db_now;
  expires_at = expires_at;
}

-- What `Acquire` answers for a row that it finds; the transaction is rolled back.
pub answer : Bytes → Row → Status
answer body_hash r =
    if bytes_eq r.body_hash body_hash
    then (if r.in_flight
        then in_flight
        else cached (record { status = r.response_status; body = r.response_body }))
    else conflict

-- The body of the transaction of `Acquire`: `some` is the table to commit.
transaction : Faults → ℕ → ℕ → Bytes → Bytes → ℕ → Table → Result StoreError (Status × Option Table)
unfolding answer
transaction faults db_now app_now key body_hash ttl t =
    if faults.begin
    then err database
    else if faults.delete
    then err database
    else let t' = delete_rows (λ r. bytes_eq r.key key && is_expired db_now r) t in
      if faults.select then err database else elim (select_row key t') [
        | some r ↦ ok (answer body_hash r, none)
        | none ↦
            if faults.insert
            then err database
            else if faults.commit
            then err database
            else ok (acquired, some (fresh_row key body_hash db_now (app_now + ttl) ∷ t'))
      ]

-- The table after the transaction: the committed one, or the one before.
settle : Table → Result StoreError (Status × Option Table) → Result StoreError Status × Table
settle t (err e) = (err e, t)
settle t (ok (s, none)) = (ok s, t)
settle t (ok (s, some t')) = (ok s, t')

unfoldable pub acquire :
    Faults → ℕ → ℕ → Bytes → Bytes → ℕ → Table → Result StoreError Status × Table
unfolding validate_key transaction settle
acquire faults db_now app_now key body_hash ttl t =
    settle t (validate_key key >> transaction faults db_now app_now key body_hash ttl t)

-- A statement outside a transaction, which fails or is done.
unfoldable pub execute : Bool → Bytes → Table → Table → Result StoreError (Unit {0}) × Table
unfolding validate_key
execute fails key t t' = elim (validate_key key) [
  | err e ↦ (err e, t)
  | ok _ ↦ if fails then (err database, t) else (ok tt, t')
]

unfoldable pub complete : Bool → Bytes → ℕ → Bytes → Table → Result StoreError (Unit {0}) × Table
unfolding execute
complete fails key status body t = execute fails key t (update_rows key status body t)

unfoldable pub release : Bool → Bytes → Table → Result StoreError (Unit {0}) × Table
unfolding execute
release fails key t = execute fails key t (delete_rows (λ r. bytes_eq r.key key) t)

-- `DELETE … WHERE …` with its count of rows.
sweep : Bool → (Row → Bool) → Table → Result StoreError ℕ × Table
sweep fails p t = if fails then (err database, t) else (ok (count_rows p t), delete_rows p t)

pub prune : Bool → ℕ → Table → Result StoreError ℕ × Table
unfolding sweep
prune fails db_now t = sweep fails (is_expired db_now) t

abbrev pub is_stale : ℕ → ℕ → Row → Bool
is_stale db_now threshold r = r.in_flight && leb (r.acquired_at + threshold) db_now

pub reap_stale : Bool → ℕ → ℕ → Table → Result StoreError ℕ × Table
unfolding sweep
reap_stale fails db_now threshold t = sweep fails (is_stale db_now threshold) t
