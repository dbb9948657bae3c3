-- ===== src/Segments/Invariant.antt =====
-- Sequences of the two transactions of internal/metastore/segments.go, and their failures.
use open_tams.Segments.Transactions.{
  delete_segments-IsConsistent, finish-err, insert_segments-IsConsistent,
}
use open_tams.Timerange.{TimeRange}
use open_tams.Prelude.Bytes.{Bytes}
use open_tams.Segments.Consistent.{IsConsistent}
use open_tams.Segments.{Faults, Store, Segment, StoreError}
use open_tams.Prelude.Result.{err, ok, Result}
use open_tams.Segments.Write.{delete_segments, insert_segments}
use open_tams.Prelude.{none, some, List, [], ◌∷◌, ◌≡◌, ℕ, Option, arith}

-- A call of the store that changes it.
pub data Write : Type 0 where
  insert_batch : Faults → (ℕ → ℕ) → ℕ → Bytes → Bytes → List Segment → Write
  delete_range : Faults → ℕ → Bytes → TimeRange → Option Bytes → Write

unfoldable pub apply : Write → Store → Store
apply (insert_batch faults ids now flow_id controlled batch) s =
    (insert_segments faults ids now flow_id controlled batch s).1
apply (delete_range faults now flow_id range object) s =
    (delete_segments faults now flow_id range object s).1

unfoldable pub apply_all : List Write → Store → Store
apply_all [] s = s
apply_all (w ∷ ws) s = apply_all ws (apply w s)

-- Every sequence of inserts and deletes, with any faults of the database, keeps the store
-- consistent: the segments of a flow hold points and do not overlap, and the count of each object
-- is the number of the segments that refer to it.
pub apply_all-IsConsistent :
    (ws : List Write) (s : Store) → IsConsistent s → IsConsistent (apply_all ws s)
unfolding apply_all apply
apply_all-IsConsistent [] s c = c
apply_all-IsConsistent (insert_batch faults ids now flow_id controlled batch ∷ ws) s c =
    apply_all-IsConsistent ws _
      (insert_segments-IsConsistent faults ids now flow_id controlled batch s c)
apply_all-IsConsistent (delete_range faults now flow_id range object ∷ ws) s c =
    apply_all-IsConsistent ws _ (delete_segments-IsConsistent faults now flow_id range object s c)

-- The error of a call, if it returns one.
error_of : {A : Type 0} → Result StoreError A → Option StoreError
error_of (ok a) = none
error_of (err e) = some e

unfoldable pub failure : Write → Store → Option StoreError
unfolding error_of
failure (insert_batch faults ids now flow_id controlled batch) s =
    error_of (insert_segments faults ids now flow_id controlled batch s).0
failure (delete_range faults now flow_id range object) s =
    error_of (delete_segments faults now flow_id range object s).0

error_of-some :
    {A : Type 0} (r : Result StoreError A) (e : StoreError) → error_of r ≡ some e → r ≡ err e
unfolding error_of
error_of-some (ok a) e h = absurd (cc)
error_of-some (err x) e h = ground arith

pub insert_segments-err :
    (faults : Faults) (ids : ℕ → ℕ) (now : ℕ) (flow_id controlled : Bytes) (batch : List Segment)
    (s : Store) (e : StoreError)
    → (insert_segments faults ids now flow_id controlled batch s).0 ≡ err e
    → (insert_segments faults ids now flow_id controlled batch s).1 ≡ s
unfolding insert_segments
insert_segments-err faults ids now flow_id controlled batch s e h = finish-err s _ e h

pub delete_segments-err :
    (faults : Faults) (now : ℕ) (flow_id : Bytes) (range : TimeRange) (object : Option Bytes)
    (s : Store) (e : StoreError)
    → (delete_segments faults now flow_id range object s).0 ≡ err e
    → (delete_segments faults now flow_id range object s).1 ≡ s
unfolding delete_segments
delete_segments-err faults now flow_id range object s e h = finish-err s _ e h

-- A call of InsertSegments or DeleteSegmentsByTimerange that returns an error, whichever it is,
-- leaves every table as it was.
pub errors_change_nothing :
    (w : Write) (s : Store) (e : StoreError) → failure w s ≡ some e → apply w s ≡ s
unfolding failure apply
errors_change_nothing (insert_batch faults ids now flow_id controlled batch) s e h =
    insert_segments-err faults ids now flow_id controlled batch s e (error_of-some _ e h)
errors_change_nothing (delete_range faults now flow_id range object) s e h =
    delete_segments-err faults now flow_id range object s e (error_of-some _ e h)
