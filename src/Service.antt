-- ===== src/Service.antt =====
-- internal/service/segment/segment.go: `registerBatch`, `list` and `delete`, over a store that is a
-- parameter: `insert`, `list_segments` and `delete_segments` stand for the three methods that it calls.
-- Logging and metrics are left out.
pub mod Register
pub mod Policy
mod Examples
use open_tams.Timerange.Nanos.{ns_bounds, NsError}
use open_tams.Prelude.Bytes.{Bytes, get_elem?, is_nil, is_none}
use open_tams.Segments.{Segment, GetUrl, StoreError}
use open_tams.Timerange.{TimeRange, inclusive, same_bound, is_empty}
use open_tams.Segments.Listing.{ListQuery}
use open_tams.Prelude.{
  List, Option, [], false, if◌then◌else◌, none, some, true, ℕ, ◌&&◌, ◌++◌, ◌+◌, ◌==◌, ◌||◌, ◌∷◌,
  Bool, not,
}
use open_tams.Prelude.Result.{Result, err, ok, ◌>>=◌}

-- `segmentTimerangeViolation`.
pub data Violation : Type 0 where
  range_empty range_open start_exclusive bounds_too_large : Violation

unfoldable pub segment_timerange_violation : TimeRange → Option Violation
unfolding same_bound
segment_timerange_violation tr =
    if is_empty tr
    then some range_empty
    else if is_none tr.start || is_none tr.end
    then some range_open
    else if not (same_bound tr.start_type inclusive)
    then some start_exclusive
    else elim (ns_bounds tr) [ err _ ↦ some bounds_too_large | ok _ ↦ none ]

-- Why a segment was not registered: the reason, and with it the problem type of the answer.
pub data Reason : Type 0 where
  object_missing rejected_by_store : Reason
  violates : Violation → Reason

pub record FailedSegment : Type 0 where
  pub segment : Segment
  pub reason : Reason
  pub status : ℕ

pub data Outcome : Type 0 where
  all_accepted partial all_rejected : Outcome

pub record RegisterResult : Type 0 where
  pub outcome : Outcome
  pub accepted : List Segment
  pub failed : List FailedSegment

pub data ServiceError : Type 0 where
  invalid_request not_found read_only index_panic : ServiceError
  of_store : StoreError → ServiceError
  invalid_timerange : ServiceError

-- The safety net on the URLs.
uncontrolled : List GetUrl → List GetUrl
uncontrolled [] = []
uncontrolled (u ∷ us) = record u { controlled = false } ∷ uncontrolled us

unfoldable pub stamped : Segment → Segment
unfolding uncontrolled
stamped seg = record seg { get_urls = uncontrolled seg.get_urls }

-- The first loop for one segment: `none` lets it survive.
unfoldable pub refusal : Segment → Option Reason
refusal seg =
    if is_nil seg.object_id
    then some object_missing
    else elim (segment_timerange_violation seg.timerange) [
      | none ↦ none
      | some v ↦ some (violates v)
    ]

-- The three lists of the first loop.
pub record Sorted : Type 0 where
  pub failed : List FailedSegment
  pub survivors : List Segment
  pub survivor_idx : List ℕ

unfoldable pub place : Option Reason → Segment → ℕ → Sorted → Sorted
place (some reason) seg i rest = record rest {
  failed = record { segment = seg; reason = reason; status = 400 } ∷ rest.failed;
}
place none seg i rest = record rest {
  survivors = seg ∷ rest.survivors;
  survivor_idx = i ∷ rest.survivor_idx;
}

unfoldable pub sort_batch : ℕ → List Segment → Sorted
sort_batch i [] = record { failed = []; survivors = []; survivor_idx = [] }
sort_batch i (seg ∷ segs) = place (refusal (stamped seg)) (stamped seg) i (sort_batch (i + 1) segs)

-- `InsertResult`, without the reasons of the rejected, which no store gives.
pub record InsertResult : Type 0 where
  pub accepted_indices : List ℕ

-- A loop that appends one more element; `none` is an index out of range.
unfoldable pub both : {A : Type 0} → Option A → Option (List A) → Option (List A)
both none xs = none
both (some x) none = none
both (some x) (some xs) = some (x ∷ xs)

-- The loop on `AcceptedIndices`.
unfoldable pub pick_accepted : List Segment → List ℕ → Option (List Segment)
pick_accepted survivors [] = some []
pick_accepted survivors (i ∷ is) = both (get_elem? survivors i) (pick_accepted survivors is)

unfoldable pub is_member : ℕ → List ℕ → Bool
is_member k [] = false
is_member k (i ∷ is) = let rest = is_member k is in if k == i then true else rest

unfoldable pub failed_entry : Option Segment → Option FailedSegment
failed_entry none = none
failed_entry (some seg) = some (record { segment = seg; reason = rejected_by_store; status = 400 })

-- The loop on `survivorIdx`, where `k` is the place in it: the entry is looked up at the index that is
-- stored there, in `survivors`.
unfoldable pub not_accepted : List Segment → List ℕ → ℕ → List ℕ → Option (List FailedSegment)
not_accepted survivors accepted k [] = some []
not_accepted survivors accepted k (local_idx ∷ rest) =
    let failed = not_accepted survivors accepted (k + 1) rest in
    let with_entry = both (failed_entry (get_elem? survivors local_idx)) failed in
    if is_member k accepted then failed else with_entry

unfoldable pub outcome_of : List Segment → List FailedSegment → Outcome
outcome_of accepted failed =
    if is_nil failed && not (is_nil accepted)
    then all_accepted
    else if is_nil accepted && not (is_nil failed)
    then all_rejected
    else partial

unfoldable pub assemble :
    Sorted
    → Option (List Segment)
    → Option (List FailedSegment)
    → Result ServiceError RegisterResult
assemble b none fs = err index_panic
assemble b (some accepted) none = err index_panic
assemble b (some accepted) (some fs) = ok (record {
  outcome = outcome_of accepted (b.failed ++ fs);
  accepted = accepted;
  failed = b.failed ++ fs;
})

-- The translation of the store's errors.
unfoldable pub translate : StoreError → ServiceError
translate StoreError.flow_not_found = not_found
translate StoreError.flow_read_only = ServiceError.read_only
translate e = of_store e

unfoldable pub answer : Sorted → Result StoreError InsertResult → Result ServiceError RegisterResult
answer b (err e) = err (translate e)
answer b (ok r) =
    assemble b (pick_accepted b.survivors r.accepted_indices)
      (not_accepted b.survivors r.accepted_indices 0 b.survivor_idx)

module _ {S : Type 0} (insert : List Segment → S → Result StoreError InsertResult × S) where
  unfoldable pub register_sorted : Sorted → S → Result ServiceError RegisterResult × S
  register_sorted b s =
      if is_nil b.survivors
      then (ok (record { outcome = all_rejected; accepted = []; failed = b.failed }), s)
      else (answer b (insert b.survivors s).0, (insert b.survivors s).1)

  unfoldable pub register_batch : List Segment → S → Result ServiceError RegisterResult × S
  register_batch segments s =
      if is_nil segments
      then (err invalid_request, s)
      else register_sorted (sort_batch 0 segments) s

-- `checkQueryTimerange`: only bounds that do not fit are refused.
unfoldable pub check_query_timerange : TimeRange → Result ServiceError (Unit {0})
check_query_timerange tr = elim (ns_bounds tr) [
  | ok _ ↦ ok tt
  | err NsError.out_of_range ↦ err invalid_timerange
  | err NsError.empty_range ↦ ok tt
]

unfoldable pub check_optional : Option TimeRange → Result ServiceError (Unit {0})
check_optional none = ok tt
check_optional (some tr) = check_query_timerange tr

unfoldable pub translated : {A : Type 0} → Result StoreError A → Result ServiceError A
translated (ok a) = ok a
translated (err e) = err (translate e)

module _ {S : Type 0} {P : Type 0} (list_segments : ListQuery → S → Result StoreError P) where
  unfoldable pub list : ListQuery → S → Result ServiceError P
  list q s = do _ ← check_optional q.timerange; translated (list_segments q s)

module _ {S : Type 0}
    (delete_segments : TimeRange → Option Bytes → S → Result StoreError ℕ × S) where
  unfoldable pub delete : TimeRange → Option Bytes → S → Result ServiceError ℕ × S
  delete tr object s = elim (check_query_timerange tr) [
    | err e ↦ (err e, s)
    | ok _ ↦ (translated (delete_segments tr object s).0, (delete_segments tr object s).1)
  ]
