-- ===== src/Idempotency/Examples.antt =====
-- Runs of the idempotency store, and its theorems applied to them.
use open_tams.Prelude.{◌≡◌, true, false, some, [], ◌∷◌, if◌then◌else◌, refl, arith, ◌⊎◌}
use open_tams.Prelude.Bytes.{Bytes, codes, bytes_eq}
use open_tams.Prelude.Result.{ok, err}
use open_tams.Idempotency.{
  delete_rows, Table, Status, database, Faults, no_faults, select_row, acquire, complete, acquired,
  cached, fresh_row, validate_key, Row,
}
use open_tams.Idempotency.Acquire.{acquire_lem, IsFree, IsClaim, Holds, Demands}
use open_tams.Idempotency.Calls.{prune_call, apply_all}
use open_tams.Idempotency.Ownership.{one_owner, replay}

abbrev k1 : Bytes
k1 = codes "k1"

abbrev h1 : Bytes
h1 = codes "hash"

abbrev h2 : Bytes
h2 = codes "other"

claim : (acquire no_faults 100 100 k1 h1 60 []).0 ≡ ok acquired
unfolding acquire select_row delete_rows
claim = refl

abbrev broken : Faults
broken = record { begin = false; delete = false; select = true; insert = false; commit = false }

broken_run : (acquire broken 100 100 k1 h1 60 []).0 ≡ err database
unfolding acquire
broken_run = refl

abbrev held : Table
held = fresh_row k1 h1 100 160 ∷ []

acquire_lem_example :
    (status : Status) × ((acquire no_faults 130 130 k1 h2 60 held).0 ≡ ok status)
    × ((IsFree 130 k1 held
          × (status ≡ acquired)
          × ((row : Row) × IsClaim k1 h2 130 190 row
              × ((j : Bytes)
                  → select_row j (acquire no_faults 130 130 k1 h2 60 held).1
                    ≡ (if bytes_eq k1 j then some row else select_row j held))))
        ⊎ ((r : Row) × Holds 130 k1 held r
            × Demands h2 r status
            × ((acquire no_faults 130 130 k1 h2 60 held).1 ≡ held)))
unfolding validate_key
acquire_lem_example = acquire_lem 130 130 k1 h2 60 held refl (tt, tt)

one_owner_example :
    (acquire no_faults 130 130 k1 h2 60
      (apply_all (prune_call false 120 ∷ []) (acquire no_faults 100 100 k1 h1 60 []).1)).0
    ≡ ok (if bytes_eq h1 h2 then Status.in_flight else Status.conflict)
one_owner_example =
    one_owner no_faults 100 100 k1 h1 60 [] tt claim (prune_call false 120 ∷ []) 130 130 h2 60
      (omega arith) (omega arith)

replay_example :
    (acquire no_faults 130 130 k1 h1 60 (
      apply_all
        (prune_call false 125 ∷ [])
        (complete false k1 201 h2 (apply_all [] (acquire no_faults 100 100 k1 h1 60 []).1)).1)).0
    ≡ ok (if bytes_eq h1 h1 then cached (record { status = 201; body = h2 }) else Status.conflict)
replay_example =
    replay no_faults 100 100 k1 h1 60 [] tt claim [] (prune_call false 125 ∷ []) 201 h2 130 130 h1
      60 tt (omega arith) (omega arith)

abbrev one_row : Table
one_row = fresh_row k1 h1 100 160 ∷ []
