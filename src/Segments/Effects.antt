-- ===== src/Segments/Effects.antt =====
-- What an insertion does to the tables when it succeeds.
use open_tams.Segments.Batch.{
  IsParted, batch_rows-Inserted, batch_rows, batch_overlaps-IsParted, add_rows-eq, Inserted,
}
use open_tams.Segments.Refresh.{IsRefreshed, refresh-IsRefreshed}
use open_tams.Timerange.Nanos.{NsBounds}
use mathlib.Core.Path.{subst}
use open_tams.Prelude.Bytes.{Bytes}
use open_tams.Segments.Write.{
  finish, insert_segments, insert_transaction, refresh_flow_timerange, indices,
}
use open_tams.Prelude.Result.{err, ok, Returns, Result, ensure, Returns-bind, Returns-ok}
use open_tams.Segments.{
  lock_writable_flow, StoreError, Faults, Store, check_guard, Segment, FlowRow, find_flow, call,
  segment_bounds, batch_overlaps, lock_flow, segment_overlap, begin, commit, flow_read_only,
}
use open_tams.Segments.Insert.{add_rows, check_existing, upsert_objects, check_object_timeranges}
use open_tams.Prelude.{
  Bool, false, refl, some, true, ℕ, ◌++◌, ◌≡◌, List, Option, not, none, if◌then◌else◌,
}

-- A flow that may be written.
abbrev pub IsWritable : Bytes → List FlowRow → Type 0
IsWritable flow_id flows =
    (f : FlowRow) × (find_flow flow_id flows ≡ some f) × (f.read_only ≡ false)

guard-IsWritable :
    (b : Bool) (f : FlowRow)
    → f.read_only ≡ b
    → Returns {A = Unit {0}}
        (λ _. (g : FlowRow) × (some f ≡ some g) × (g.read_only ≡ false))
        (if b then err flow_read_only else ok tt)
guard-IsWritable true f e = tt
guard-IsWritable false f e = (f, refl, e)

check_guard-IsWritable :
    (o : Option FlowRow)
    → Returns {A = Unit {0}}
        (λ _. (g : FlowRow) × (o ≡ some g) × (g.read_only ≡ false))
        (check_guard o)
unfolding check_guard
check_guard-IsWritable none = tt
check_guard-IsWritable (some f) = guard-IsWritable f.read_only f refl

pub lock-IsWritable :
    (faults : Faults) (flow_id : Bytes) (s : Store)
    → Returns (λ _. IsWritable flow_id s.flows) (lock_writable_flow faults flow_id s)
unfolding lock_writable_flow
lock-IsWritable faults flow_id s =
    Returns-bind _ (call faults lock_flow) _
      λ _ _. check_guard-IsWritable (find_flow flow_id s.flows)

pub record IsInserted (ids : ℕ → ℕ) (now : ℕ) (flow_id : Bytes) (batch : List Segment)
    (s s' : Store) : Type 0 where
  pub bounds : List NsBounds
  pub converted : segment_bounds batch ≡ ok bounds
  pub parted : IsParted bounds
  pub writable : IsWritable flow_id s.flows
  pub appended : s'.segments ≡ s.segments ++ batch_rows ids flow_id now 0 batch bounds
  pub inserted : Inserted flow_id batch bounds (batch_rows ids flow_id now 0 batch bounds)
  pub refreshed : IsRefreshed now flow_id s'.segments s.flows s'.flows

ensure-not : (b : Bool) (e : StoreError) → Returns (λ _. b ≡ false) (ensure (not b) e)
ensure-not true e = tt
ensure-not false e = refl

insert_transaction-IsInserted :
    (faults : Faults) (ids : ℕ → ℕ) (now : ℕ) (flow_id controlled : Bytes) (batch : List Segment)
    (s : Store)
    → Returns
        (λ p. (p.0 ≡ indices 0 batch) × IsInserted ids now flow_id batch s p.1)
        (insert_transaction faults ids now flow_id controlled batch s)
unfolding insert_transaction
insert_transaction-IsInserted faults ids now flow_id controlled batch s =
    Returns-bind _ (segment_bounds batch) _ λ bounds eb.
      Returns-bind _ (ensure (not (batch_overlaps bounds)) segment_overlap) _ λ u eo.
        Returns-bind _ (call faults begin) _ λ _ _.
          Returns-bind _ (lock_writable_flow faults flow_id s) _ λ v el.
            Returns-bind _ (check_existing faults flow_id 0 bounds s.segments) _ λ _ _.
              Returns-bind _ (upsert_objects faults controlled 0 batch s.objects) _ λ objects _.
                Returns-bind _ (check_object_timeranges faults 0 batch s.segments) _ λ _ _.
                  Returns-bind _ (add_rows faults ids flow_id now 0 batch bounds s.segments) _
                    λ rows er.
                      Returns-bind _ (refresh_flow_timerange faults now flow_id rows s.flows) _
                        λ flows ef. Returns-bind _ (call faults commit) _ λ _ _. (
                          refl,
                          record {
                            bounds = bounds;
                            converted = eb;
                            inserted = batch_rows-Inserted ids flow_id now 0 batch bounds eb;
                            parted = batch_overlaps-IsParted bounds (
                                Returns-ok (λ _. batch_overlaps bounds ≡ false) _ u
                                  (ensure-not (batch_overlaps bounds) segment_overlap) eo);
                            writable =
                                Returns-ok (λ _. IsWritable flow_id s.flows) _ v
                                  (lock-IsWritable faults flow_id s) el;
                            appended =
                                Returns-ok
                                  (λ r. r ≡ s.segments ++ batch_rows ids flow_id now 0 batch bounds)
                                  _ rows
                                  (add_rows-eq faults ids flow_id now 0 batch bounds s.segments) er;
                            refreshed =
                                Returns-ok (IsRefreshed now flow_id rows s.flows) _ flows
                                  (refresh-IsRefreshed faults now flow_id rows s.flows) ef;
                          },
                        )

pub finish-ok :
    {A : Type 0} (P : A → Store → Type 0) (s : Store) (r : Result StoreError (A × Store)) (a : A)
    → Returns (λ p. P p.0 p.1) r
    → (finish s r).0 ≡ ok a
    → P a (finish s r).1
unfolding finish
finish-ok P s (ok p) a h e = let same : p.0 ≡ a = cc in subst (λ x. P x p.1) same h
finish-ok P s (err x) a h e = absurd (cc)

-- A call of InsertSegments that succeeds has accepted every index of the batch and found the flow
-- writable. Behind the rows that were there it has added one row for each segment, in the batch's
-- order, of the flow and with the segment's object and text, and with the bounds that NsBounds gives of
-- the segment's time range; no two of these bounds hold a common nanosecond. Of the flows, the one with
-- the id gets the time of the call as its segments_updated and a new time range, and nothing else
-- changes: the range is absent where the flow has no row, and else the text of the range from the
-- start of a row before which none of the flow's starts to the end of a row behind whose start
-- none of them starts, as the texts of the two rows are parsed.
pub insert_segments-IsInserted :
    (faults : Faults) (ids : ℕ → ℕ) (now : ℕ) (flow_id controlled : Bytes) (batch : List Segment)
    (s : Store) (accepted : List ℕ)
    → (insert_segments faults ids now flow_id controlled batch s).0 ≡ ok accepted
    → (accepted ≡ indices 0 batch)
      × IsInserted ids now flow_id batch s
          (insert_segments faults ids now flow_id controlled batch s).1
unfolding insert_segments
insert_segments-IsInserted faults ids now flow_id controlled batch s accepted =
    finish-ok (λ a s'. (a ≡ indices 0 batch) × IsInserted ids now flow_id batch s s') s _ accepted
      (insert_transaction-IsInserted faults ids now flow_id controlled batch s)
