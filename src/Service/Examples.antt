-- ===== src/Service/Examples.antt =====
-- The service on the store of two segments, and the theorems about it applied to it.
use open_tams.Segments.Write.{indices}
use open_tams.Timerange.{is_empty, before, equal}
use open_tams.Timerange.Nanos.{NsBounds, ns_bounds, bound_nanos, nanos, checked_nanos}
use open_tams.Prelude.{◌≡◌, none, some, [], ◌∷◌, refl, if◌then◌else◌, List}
use open_tams.Prelude.Bytes.{is_nil, codes}
use open_tams.Prelude.Result.{err, ok, Result}
use open_tams.Segments.{Segment, Store, StoreError}
use open_tams.Segments.Pages.{no_faults}
use open_tams.Segments.Samples.{seg1, seg2, f1, ids, no_segments, seconds_range, valid0, valid1}
use open_tams.Service.{
  register_batch, invalid_request, all_rejected, object_missing, InsertResult, refusal, stamped,
  segment_timerange_violation, register_sorted, RegisterResult, partial, sort_batch, place, answer,
  pick_accepted, both, not_accepted, is_member, assemble, outcome_of,
}
use open_tams.Service.Register.{register_batch_lem, kept, refused, registered, AcceptsAll}
use open_tams.Service.Policy.{
  store_insert, store_insert-AcceptsAll, no_violation-IsStorable, IsStorable,
}

-- A segment without an object.
abbrev nameless : Segment
nameless = record seg2 { object_id = [] }

abbrev insert_two : List Segment → Store → Result StoreError InsertResult × Store
insert_two = store_insert no_faults ids 7 f1 (codes "s3")

register_batch_lem_example : register_batch insert_two (nameless ∷ seg1 ∷ []) no_segments ≡ (
    if is_nil (nameless ∷ seg1 ∷ [])
    then (err invalid_request, no_segments)
    else if is_nil (kept (nameless ∷ seg1 ∷ []))
    then (
      ok (record {
        outcome = all_rejected;
        accepted = [];
        failed = refused (nameless ∷ seg1 ∷ []);
      }),
      no_segments,
    )
    else (
      registered (nameless ∷ seg1 ∷ []) (insert_two (kept (nameless ∷ seg1 ∷ [])) no_segments).0,
      (insert_two (kept (nameless ∷ seg1 ∷ [])) no_segments).1,
    ))
register_batch_lem_example =
    register_batch_lem insert_two (store_insert-AcceptsAll no_faults ids 7 f1 (codes "s3"))
      (nameless ∷ seg1 ∷ []) no_segments

abbrev registered_one : RegisterResult
registered_one = record {
  outcome = partial;
  accepted = seg1 ∷ [];
  failed = record { segment = nameless; reason = object_missing; status = 400 } ∷ [];
}

-- A store that keeps nothing and accepts everything.
accept_all : List Segment → Store → Result StoreError InsertResult × Store
accept_all segs s = (ok (record { accepted_indices = indices 0 segs }), s)

accept_all-AcceptsAll : AcceptsAll accept_all
unfolding accept_all
accept_all-AcceptsAll segs s r e = cc

registers : (register_batch accept_all (nameless ∷ seg1 ∷ []) no_segments).0 ≡ ok registered_one
unfolding register_batch register_sorted sort_batch place refusal stamped
    segment_timerange_violation is_empty before equal ns_bounds bound_nanos nanos checked_nanos
    answer accept_all indices pick_accepted both not_accepted is_member assemble outcome_of
registers = refl

lawful : segment_timerange_violation (seconds_range 0 1) ≡ none
unfolding segment_timerange_violation is_empty before equal ns_bounds bound_nanos nanos
    checked_nanos
lawful = refl

no_violation-IsStorable_example :
    (b : NsBounds) × (ns_bounds (seconds_range 0 1) ≡ ok b) × IsStorable b
no_violation-IsStorable_example =
    no_violation-IsStorable (seconds_range 0 1) (valid0, valid1) lawful

-- A store that refuses every segment.
refuse_all : List Segment → Store → Result StoreError InsertResult × Store
refuse_all segs s = (ok (record { accepted_indices = [] }), s)

nameless-refusal : refusal (stamped nameless) ≡ some object_missing
unfolding refusal stamped
nameless-refusal = refl

seg1-refusal : refusal (stamped seg1) ≡ none
unfolding refusal stamped segment_timerange_violation is_empty before equal ns_bounds bound_nanos
    nanos checked_nanos
seg1-refusal = refl
