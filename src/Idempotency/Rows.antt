-- ===== src/Idempotency/Rows.antt =====
-- The table of idempotency keys as a map: one row for a key, and what the statements do to it.
use open_tams.Prelude.{
  ℕ, Bool, false, Option, none, some, [], ◌∷◌, ◌≡◌, if◌then◌else◌, arith, refl, Bool-cases, inl,
  inr,
}
use open_tams.Prelude.Bytes.{Bytes, bytes_eq, bytes_eq_iff}
use open_tams.Idempotency.{Row, Table, select_row, delete_rows, update_rows}

-- No row of the table has the key.
abbrev pub Lacks : Bytes → Table → Type 0
Lacks k [] = Unit {0}
Lacks k (r ∷ t) = (bytes_eq r.key k ≡ false) × Lacks k t

-- The primary key: no two rows share one.
abbrev pub IsKeyed : Table → Type 0
IsKeyed [] = Unit {0}
IsKeyed (r ∷ t) = Lacks r.key t × IsKeyed t

pub select_row-Lacks : (k : Bytes) (t : Table) → Lacks k t → select_row k t ≡ none
unfolding select_row
select_row-Lacks k [] h = refl
select_row-Lacks k (r ∷ t) h = ground (arith, select_row-Lacks k t h.1)

pub Lacks-select_row : (k : Bytes) (t : Table) → select_row k t ≡ none → Lacks k t
unfolding select_row
Lacks-select_row k [] h = tt
Lacks-select_row k (r ∷ t) h = elim (Bool-cases (bytes_eq r.key k)) [
  | inl e ↦ absurd (ground arith)
  | inr e ↦ (e, Lacks-select_row k t (rw e at h))
]

Lacks-delete_rows : (k : Bytes) (p : Row → Bool) (t : Table) → Lacks k t → Lacks k (delete_rows p t)
unfolding delete_rows
Lacks-delete_rows k p [] h = tt
Lacks-delete_rows k p (r ∷ t) h = elim (Bool-cases (p r)) [
  | inl e ↦ rw e (Lacks-delete_rows k p t h.1)
  | inr e ↦ rw e (h.0, Lacks-delete_rows k p t h.1)
]

pub delete_rows-IsKeyed : (p : Row → Bool) (t : Table) → IsKeyed t → IsKeyed (delete_rows p t)
unfolding delete_rows
delete_rows-IsKeyed p [] h = tt
delete_rows-IsKeyed p (r ∷ t) h = elim (Bool-cases (p r)) [
  | inl e ↦ rw e (delete_rows-IsKeyed p t h.1)
  | inr e ↦ rw e (Lacks-delete_rows r.key p t h.0, delete_rows-IsKeyed p t h.1)
]

Lacks-update_rows :
    (j k : Bytes) (status : ℕ) (body : Bytes) (t : Table)
    → Lacks j t
    → Lacks j (update_rows k status body t)
unfolding update_rows
Lacks-update_rows j k status body [] h = tt
Lacks-update_rows j k status body (r ∷ t) h = elim (Bool-cases (bytes_eq r.key k)) [
  | inl e ↦ rw e (h.0, Lacks-update_rows j k status body t h.1)
  | inr e ↦ rw e (h.0, Lacks-update_rows j k status body t h.1)
]

pub update_rows-IsKeyed :
    (k : Bytes) (status : ℕ) (body : Bytes) (t : Table)
    → IsKeyed t
    → IsKeyed (update_rows k status body t)
unfolding update_rows
update_rows-IsKeyed k status body [] h = tt
update_rows-IsKeyed k status body (r ∷ t) h = elim (Bool-cases (bytes_eq r.key k)) [
  | inl e ↦
      rw e (Lacks-update_rows r.key k status body t h.0, update_rows-IsKeyed k status body t h.1)
  | inr e ↦
      rw e (Lacks-update_rows r.key k status body t h.0, update_rows-IsKeyed k status body t h.1)
]

-- A row, unless it is one that a statement takes.
abbrev pub keep_if : (Row → Bool) → Option Row → Option Row
keep_if p none = none
keep_if p (some r) = if p r then none else some r

-- A lookup behind a deletion.
pub select_row-delete_rows :
    (k : Bytes) (p : Row → Bool) (t : Table)
    → IsKeyed t
    → select_row k (delete_rows p t) ≡ keep_if p (select_row k t)
unfolding select_row delete_rows
select_row-delete_rows k p [] h = refl
select_row-delete_rows k p (r ∷ t) h = elim (Bool-cases (bytes_eq r.key k)) [
  | inr n ↦ ground (arith, select_row-delete_rows k p t h.1)
  | inl e ↦ ground (
    arith,
    select_row-delete_rows k p t h.1,
    select_row-Lacks k t (rw ((bytes_eq_iff r.key k).0 e) at h.0),
  )
]

abbrev pub answered : ℕ → Bytes → Row → Row
answered status body r = record r {
  in_flight = false;
  response_status = status;
  response_body = body;
}

abbrev pub answer_if : Bool → ℕ → Bytes → Option Row → Option Row
answer_if b status body none = none
answer_if b status body (some r) = if b then some (answered status body r) else some r

-- A lookup behind an update.
pub select_row-update_rows :
    (j k : Bytes) (status : ℕ) (body : Bytes) (t : Table)
    → select_row j (update_rows k status body t)
      ≡ answer_if (bytes_eq k j) status body (select_row j t)
unfolding select_row update_rows
select_row-update_rows j k status body [] = refl
select_row-update_rows j k status body (r ∷ t) = ground (
  arith,
  select_row-update_rows j k status body t,
  bytes_eq_iff r.key k,
  bytes_eq_iff r.key j,
  bytes_eq_iff k j,
)

pub select_row-key : (k : Bytes) (t : Table) (r : Row) → select_row k t ≡ some r → r.key ≡ k
unfolding select_row
select_row-key k [] r h = absurd (cc)
select_row-key k (s ∷ t) r h = ground (arith, select_row-key k t r, bytes_eq_iff s.key k)
