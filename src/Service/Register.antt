-- ===== src/Service/Register.antt =====
-- `registerBatch` against a description of what it answers, over every store that accepts all segments
-- of a batch or none.
use mathlib.Core.List.{append_assoc, append-nil}
use open_tams.Prelude.Bytes.{get_elem?, length, is_nil}
use open_tams.Segments.Write.{indices}
use open_tams.Segments.{Segment, StoreError}
use open_tams.Prelude.Result.{err, ok, Result}
use open_tams.Service.{
  answer, is_member, not_accepted, pick_accepted, sort_batch, assemble, refusal, FailedSegment,
  both, outcome_of, stamped, InsertResult, register_batch, ServiceError, register_sorted,
  RegisterResult, invalid_request, translate, all_rejected, all_accepted, partial, place, Reason,
}
use open_tams.Prelude.{
  List, [], false, if◌then◌else◌, inl, inr, none, refl, some, suc, true, ◌++◌, ◌+◌, ◌<◌, ◌∷◌, ◌≡◌,
  ◌≤◌, ℕ, arith, Option-cases, Bool-cases, Option, ap, ◌∙◌,
}

-- The promise of the store: `AcceptedIndices` names the whole batch.
abbrev pub AcceptsAll :
    {S : Type 0} → (List Segment → S → Result StoreError InsertResult × S) → Type 0
AcceptsAll {S} insert =
    (segs : List Segment) (s : S) (r : InsertResult)
    → (insert segs s).0 ≡ ok r
    → r.accepted_indices ≡ indices 0 segs

-- The segments that break no rule, as they go to the store, and the entries of the others.
kept_if : Option Reason → Segment → List Segment → List Segment
kept_if none seg rest = seg ∷ rest
kept_if (some r) seg rest = rest

refused_if : Option Reason → Segment → List FailedSegment → List FailedSegment
refused_if none seg rest = rest
refused_if (some r) seg rest = record { segment = seg; reason = r; status = 400 } ∷ rest

pub kept : List Segment → List Segment
unfolding kept_if
kept [] = []
kept (seg ∷ segs) = kept_if (refusal (stamped seg)) (stamped seg) (kept segs)

pub refused : List Segment → List FailedSegment
unfolding refused_if
refused [] = []
refused (seg ∷ segs) = refused_if (refusal (stamped seg)) (stamped seg) (refused segs)

-- The first loop makes these lists.
sort_batch-eq :
    (i : ℕ) (segs : List Segment)
    → ((sort_batch i segs).survivors ≡ kept segs)
      × ((sort_batch i segs).failed ≡ refused segs)
      × (length (sort_batch i segs).survivor_idx ≡ length (kept segs))
unfolding sort_batch place kept refused
sort_batch-eq i [] = (refl, refl, refl)
sort_batch-eq i (seg ∷ segs) =
    let (a, b, c) = sort_batch-eq (i + 1) segs in
    elim (Option-cases (refusal (stamped seg))) [
      | inl e ↦ rw e (ap (λ l. stamped seg ∷ l) a, b, ap suc c)
      | inr (r, e) ↦
          rw e (a, ap (λ l. record { segment = stamped seg; reason = r; status = 400 } ∷ l) b, c)
    ]

get_elem?-append :
    (xs : List Segment) (y : Segment) (ys : List Segment)
    → get_elem? (xs ++ y ∷ ys) (length xs) ≡ some y
get_elem?-append [] y ys = refl
get_elem?-append (x ∷ xs) y ys = get_elem?-append xs y ys

pick-indices : (xs ys : List Segment) → pick_accepted (xs ++ ys) (indices (length xs) ys) ≡ some ys
unfolding pick_accepted indices both
pick-indices xs [] = refl
pick-indices xs (y ∷ ys) =
    let more =
      rw (append_assoc xs (y ∷ []) ys, length-snoc xs y) at (pick-indices (xs ++ y ∷ []) ys) in
    rw (get_elem?-append xs y ys, more) refl
  where
    length-snoc : (xs : List Segment) (y : Segment) → length (xs ++ y ∷ []) ≡ length xs + 1
    length-snoc [] y = omega arith
    length-snoc (x ∷ xs) y = omega (arith, length-snoc xs y)

is_member-indices :
    (k i : ℕ) (ys : List Segment) → i ≤ k → k < i + length ys → is_member k (indices i ys) ≡ true
unfolding is_member indices
is_member-indices k i [] h l = absurd (omega arith)
is_member-indices k i (y ∷ ys) h l = ground (arith, is_member-indices k (i + 1) ys)

all-accepted :
    (survivors : List Segment) (k : ℕ) (idx : List ℕ)
    → k + length idx ≤ length survivors
    → not_accepted survivors (indices 0 survivors) k idx ≡ some []
unfolding not_accepted
all-accepted survivors k [] h = refl
all-accepted survivors k (i ∷ idx) h =
    rw (is_member-indices k 0 survivors (omega arith) (omega arith))
      (all-accepted survivors (k + 1) idx (omega arith))

-- The answer to a batch of which some segments go to the store.
unfoldable pub registered :
    List Segment → Result StoreError InsertResult → Result ServiceError RegisterResult
registered segs (err e) = err (translate e)
registered segs (ok r) = ok (record {
  outcome = if is_nil (refused segs) then all_accepted else partial;
  accepted = kept segs;
  failed = refused segs;
})

answer-registered :
    (segs : List Segment) (r : Result StoreError InsertResult)
    → is_nil (kept segs) ≡ false
    → ((x : InsertResult) → r ≡ ok x → x.accepted_indices ≡ indices 0 (kept segs))
    → answer (sort_batch 0 segs) r ≡ registered segs r
unfolding answer registered assemble outcome_of
answer-registered segs (err e) h a = refl
answer-registered segs (ok x) h a =
    let (sv, fl, ln) = sort_batch-eq 0 segs in
    rw
      (
        sv,
        a x refl,
        pick-indices [] (kept segs),
        all-accepted (kept segs) 0 (sort_batch 0 segs).survivor_idx (omega (arith, ln)),
        fl,
        append-nil (refused segs),
        h,
      )
      (ground arith)

length-kept-refused :
    (segs : List Segment) → length (kept segs) + length (refused segs) ≡ length segs
unfolding kept refused
length-kept-refused [] = refl
length-kept-refused (seg ∷ segs) = elim (Option-cases (refusal (stamped seg))) [
  | inl e ↦ rw e (omega (arith, length-kept-refused segs))
  | inr (r, e) ↦ rw e (omega (arith, length-kept-refused segs))
]

nil_length : (xs : List Segment) → is_nil xs ≡ true → length xs ≡ 0
nil_length [] h = refl
nil_length (x ∷ xs) h = absurd (cc)

registered-total :
    (segs : List Segment) (r : Result StoreError InsertResult) (res : RegisterResult)
    → registered segs r ≡ ok res
    → length res.accepted + length res.failed ≡ length segs
unfolding registered
registered-total segs (err e) res h = absurd (cc)
registered-total segs (ok r) res h =
    let same : length res.accepted ≡ length (kept segs) = cc in
    let others : length res.failed ≡ length (refused segs) = cc in
    omega (arith, same, others, length-kept-refused segs)

module _ {S : Type 0} (insert : List Segment → S → Result StoreError InsertResult × S)
    (law : AcceptsAll insert) where
  -- Over a store that accepts all segments of a batch or none, registerBatch refuses an empty
  -- batch. Of any other it gives the store the segments that break no rule, if there are any,
  -- accepts exactly these where the store does not fail, and lists every other one with its reason;
  -- an error of the store is passed on, and no index is out of range.
  pub register_batch_lem :
      (segs : List Segment) (s : S)
      → register_batch insert segs s ≡ (
          if is_nil segs
          then (err invalid_request, s)
          else if is_nil (kept segs)
          then (ok (record { outcome = all_rejected; accepted = []; failed = refused segs }), s)
          else (registered segs (insert (kept segs) s).0, (insert (kept segs) s).1))
  unfolding register_batch register_sorted
  register_batch_lem segs s =
      let (sv, fl, ln) = sort_batch-eq 0 segs in
      let b = sort_batch 0 segs in
      elim (Bool-cases (is_nil (kept segs))) [
        | inl e ↦ rw (ap is_nil sv, e, fl) refl
        | inr e ↦
            rw (ap is_nil sv, e)
              (ap (λ p. if is_nil segs then (err invalid_request, s) else p)
                (ap (λ l. (answer b (insert l s).0, (insert l s).1)) sv
                  ∙ ap (λ r. (r, (insert (kept segs) s).1))
                      (answer-registered segs (insert (kept segs) s).0 e
                        (λ x h. law (kept segs) s x h))))
      ]

  -- Over a store that accepts all segments of a batch or none, where registerBatch answers, the
  -- segments that it accepted and those that it lists as failed are together as many as the batch
  -- has.
  pub register_batch-total :
      (segs : List Segment) (s : S) (res : RegisterResult)
      → (register_batch insert segs s).0 ≡ ok res
      → length res.accepted + length res.failed ≡ length segs
  register_batch-total segs s res h = elim (Bool-cases (is_nil segs)) [
    | inl e ↦ let refused_all = rw (register_batch_lem segs s, e) at h in absurd (cc)
    | inr e ↦ elim (Bool-cases (is_nil (kept segs))) [
      | inl f ↦
          let answer_is = rw (register_batch_lem segs s, e, f) at h in
          let none_kept = nil_length (kept segs) f in
          let accepted_none : length res.accepted ≡ 0 = cc in
          let failed_all : length res.failed ≡ length (refused segs) = cc in
          omega (arith, accepted_none, failed_all, none_kept, length-kept-refused segs)
      | inr f ↦
          registered-total segs (insert (kept segs) s).0 res
            (rw (register_batch_lem segs s, e, f) at h)
    ]
  ]
