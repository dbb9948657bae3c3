-- ===== src/Idempotency/Calls.antt =====
-- Sequences of calls of the store, in the order in which the database commits them.
use open_tams.Prelude.{
  ℕ, ◌+◌, ◌<◌, Bool, true, false, some, List, [], ◌∷◌, ◌≡◌, ◌⊎◌, arith, refl, inl, inr,
}
use open_tams.Prelude.Bytes.{Bytes, bytes_eq, bytes_eq_iff, bytes_eq_refl}
use open_tams.Idempotency.{
  Row, Table, Faults, select_row, delete_rows, update_rows, acquire, complete, release, prune,
  reap_stale, execute, is_expired, is_stale,
}
use open_tams.Idempotency.Acquire.{acquire_table, purged, purged-IsKeyed, select_row-purged}
use open_tams.Idempotency.Rows.{
  update_rows-IsKeyed, IsKeyed, select_row-delete_rows, select_row-update_rows, select_row-key,
  Lacks-select_row, delete_rows-IsKeyed,
}

-- A call with its arguments, the clocks that it reads and the statements that fail.
pub data Call : Type 0 where
  acquire_call : Faults → ℕ → ℕ → Bytes → Bytes → ℕ → Call
  complete_call : Bool → Bytes → ℕ → Bytes → Call
  release_call : Bool → Bytes → Call
  prune_call : Bool → ℕ → Call
  reap_call : Bool → ℕ → ℕ → Call

unfoldable pub apply : Call → Table → Table
apply (acquire_call faults db_now app_now key body_hash ttl) t =
    (acquire faults db_now app_now key body_hash ttl t).1
apply (complete_call fails key status body) t = (complete fails key status body t).1
apply (release_call fails key) t = (release fails key t).1
apply (prune_call fails db_now) t = (prune fails db_now t).1
apply (reap_call fails db_now threshold) t = (reap_stale fails db_now threshold t).1

unfoldable pub apply_all : List Call → Table → Table
apply_all [] t = t
apply_all (c ∷ cs) t = apply_all cs (apply c t)

pub acquire-IsKeyed :
    (faults : Faults) (db_now app_now : ℕ) (key body_hash : Bytes) (ttl : ℕ) (t : Table)
    → IsKeyed t
    → IsKeyed (acquire faults db_now app_now key body_hash ttl t).1
acquire-IsKeyed faults db_now app_now key body_hash ttl t h =
    elim (acquire_table faults db_now app_now key body_hash ttl t) [
      | inl e ↦ rw e h
      | inr (e, free) ↦
          rw e (Lacks-select_row key (purged db_now key t) free, purged-IsKeyed db_now key t h)
    ]

-- The table after a statement: what it was, or what the statement makes.
execute_table :
    (fails : Bool) (key : Bytes) (t t' : Table)
    → ((execute fails key t t').1 ≡ t) ⊎ ((execute fails key t t').1 ≡ t')
unfolding execute
execute_table fails key t t' = ground arith

execute-IsKeyed :
    (fails : Bool) (key : Bytes) (t t' : Table)
    → IsKeyed t
    → IsKeyed t'
    → IsKeyed (execute fails key t t').1
execute-IsKeyed fails key t t' h h' = elim (execute_table fails key t t') [
  | inl e ↦ rw e h
  | inr e ↦ rw e h'
]

-- Every call keeps the keys distinct.
pub apply-IsKeyed : (c : Call) (t : Table) → IsKeyed t → IsKeyed (apply c t)
unfolding apply complete release prune reap_stale
apply-IsKeyed (acquire_call faults db_now app_now key body_hash ttl) t h =
    acquire-IsKeyed faults db_now app_now key body_hash ttl t h
apply-IsKeyed (complete_call fails key status body) t h =
    execute-IsKeyed fails key t (update_rows key status body t) h
      (update_rows-IsKeyed key status body t h)
apply-IsKeyed (release_call fails key) t h =
    execute-IsKeyed fails key t (delete_rows (λ r. bytes_eq r.key key) t) h
      (delete_rows-IsKeyed (λ r. bytes_eq r.key key) t h)
apply-IsKeyed (prune_call true db_now) t h = h
apply-IsKeyed (prune_call false db_now) t h = delete_rows-IsKeyed (is_expired db_now) t h
apply-IsKeyed (reap_call true db_now threshold) t h = h
apply-IsKeyed (reap_call false db_now threshold) t h =
    delete_rows-IsKeyed (is_stale db_now threshold) t h

-- Every sequence of calls, failing ones included, keeps the keys of the table distinct.
pub apply_all-IsKeyed : (cs : List Call) (t : Table) → IsKeyed t → IsKeyed (apply_all cs t)
unfolding apply_all
apply_all-IsKeyed [] t h = h
apply_all-IsKeyed (c ∷ cs) t h = apply_all-IsKeyed cs (apply c t) (apply-IsKeyed c t h)

-- A call that leaves the row `r` of the key `k` alone: it is about another key, or it comes while
-- the row is neither expired nor, if it is in flight, stale.
abbrev pub Spares : Bytes → Row → Call → Type 0
Spares k r (acquire_call faults db_now app_now key body_hash ttl) =
    (bytes_eq key k ≡ false) ⊎ (db_now < r.expires_at)
Spares k r (complete_call fails key status body) = bytes_eq key k ≡ false
Spares k r (release_call fails key) = bytes_eq key k ≡ false
Spares k r (prune_call fails db_now) = db_now < r.expires_at
Spares k r (reap_call fails db_now threshold) =
    (r.in_flight ≡ false) ⊎ (db_now < r.acquired_at + threshold)

abbrev pub AllSpare : Bytes → Row → List Call → Type 0
AllSpare k r [] = Unit {0}
AllSpare k r (c ∷ cs) = Spares k r c × AllSpare k r cs

acquire-Spares :
    (k : Bytes) (r : Row) (faults : Faults) (db_now app_now : ℕ) (key body_hash : Bytes) (ttl : ℕ)
    (t : Table)
    → IsKeyed t
    → select_row k t ≡ some r
    → (bytes_eq key k ≡ false) ⊎ (db_now < r.expires_at)
    → select_row k (acquire faults db_now app_now key body_hash ttl t).1 ≡ some r
acquire-Spares k r faults db_now app_now key body_hash ttl t h e s =
    elim (acquire_table faults db_now app_now key body_hash ttl t) [
      | inl q ↦ rw q e
      | inr (q, free) ↦ rw q (
          unfold select_row in
          ground (
            arith,
            select_row-purged db_now k key t h,
            select_row-purged db_now key key t h,
            bytes_eq_iff key k,
            bytes_eq_refl key,
          ))
    ]

-- A deletion that does not take the row.
delete-Spares :
    (k : Bytes) (r : Row) (p : Row → Bool) (t : Table)
    → IsKeyed t
    → select_row k t ≡ some r
    → p r ≡ false
    → select_row k (delete_rows p t) ≡ some r
delete-Spares k r p t h e s = rw (select_row-delete_rows k p t h, e, s) refl

execute-Spares :
    (k : Bytes) (r : Row) (fails : Bool) (key : Bytes) (t t' : Table)
    → select_row k t ≡ some r
    → select_row k t' ≡ some r
    → select_row k (execute fails key t t').1 ≡ some r
execute-Spares k r fails key t t' e e' = elim (execute_table fails key t t') [
  | inl q ↦ rw q e
  | inr q ↦ rw q e'
]

apply-Spares :
    (k : Bytes) (r : Row) (c : Call) (t : Table)
    → IsKeyed t
    → select_row k t ≡ some r
    → Spares k r c
    → select_row k (apply c t) ≡ some r
unfolding apply complete release prune reap_stale
apply-Spares k r (acquire_call faults db_now app_now key body_hash ttl) t h e s =
    acquire-Spares k r faults db_now app_now key body_hash ttl t h e s
apply-Spares k r (complete_call fails key status body) t h e s =
    execute-Spares k r fails key t (update_rows key status body t) e
      (rw (select_row-update_rows k key status body t, e, s) refl)
apply-Spares k r (release_call fails key) t h e s =
    execute-Spares k r fails key t (delete_rows (λ x. bytes_eq x.key key) t) e (
      delete-Spares k r (λ x. bytes_eq x.key key) t h e
        (ground (arith, select_row-key k t r e, bytes_eq_iff key k, bytes_eq_iff r.key key)))
apply-Spares k r (prune_call true db_now) t h e s = e
apply-Spares k r (prune_call false db_now) t h e s =
    delete-Spares k r (is_expired db_now) t h e (ground arith)
apply-Spares k r (reap_call true db_now threshold) t h e s = e
apply-Spares k r (reap_call false db_now threshold) t h e s =
    delete-Spares k r (is_stale db_now threshold) t h e (ground arith)

-- A row outlives every sequence of calls that spare it.
pub apply_all-Spares :
    (k : Bytes) (r : Row) (cs : List Call) (t : Table)
    → IsKeyed t
    → select_row k t ≡ some r
    → AllSpare k r cs
    → select_row k (apply_all cs t) ≡ some r
unfolding apply_all
apply_all-Spares k r [] t h e s = e
apply_all-Spares k r (c ∷ cs) t h e s =
    apply_all-Spares k r cs (apply c t) (apply-IsKeyed c t h) (apply-Spares k r c t h e s.0) s.1
