-- ===== src/Segments/Outcome.antt =====
-- What a transaction of internal/metastore/segments.go leaves, whichever it is.
use open_tams.Segments.Batch.{batch_rows}
use open_tams.Segments.Transactions.{insert_segments-IsDrifted, delete_segments-IsDrifted}
use open_tams.Timerange.Nanos.{NsBounds}
use open_tams.Segments.Deletion.{delete_segments-Deletion}
use open_tams.Prelude.Sort.{All, All-append}
use open_tams.Timerange.{TimeRange}
use open_tams.Segments.Consistent.{IsDrifted}
use open_tams.Prelude.Bytes.{Bytes}
use open_tams.Segments.Effects.{IsWritable, insert_segments-IsInserted}
use open_tams.Segments.Invariant.{
  insert_batch, delete_range, apply, Write, insert_segments-err, delete_segments-err,
}
use open_tams.Prelude.Result.{ok, Result-cases}
use open_tams.Segments.{Faults, SegmentRow, Store, Segment}
use open_tams.Prelude.{[], inl, inr, refl, ◌+◌, ◌∷◌, ◌≡◌, ◌⊎◌, ℕ, Bool, Option, List, Bool-cases}
use open_tams.Segments.Write.{insert_segments, delete_segments, remaining, set_span, is_covered}
use open_tams.Segments.Insert.{lower_param, upper_param, new_row}

-- A change of the tables by a transaction on one flow: its rows are added or taken away, and the
-- flow gets a span.
pub record IsWrite (s s' : Store) : Type 1 where
  pub flow_id : Bytes
  pub now : ℕ
  pub span : Option Bytes
  pub writable : IsWritable flow_id s.flows
  pub spanned : s'.flows ≡ set_span now flow_id span s.flows
  pub owned :
      (P : SegmentRow → Type 0)
      → ((r : SegmentRow) → r.flow_id ≡ flow_id → P r)
      → All P s.segments
      → All P s'.segments

batch_rows-owned :
    (P : SegmentRow → Type 0) (ids : ℕ → ℕ) (flow_id : Bytes) (now i : ℕ) (segs : List Segment)
    (bs : List NsBounds)
    → ((r : SegmentRow) → r.flow_id ≡ flow_id → P r)
    → All P (batch_rows ids flow_id now i segs bs)
unfolding batch_rows
batch_rows-owned P ids flow_id now i [] bs h = tt
batch_rows-owned P ids flow_id now i (seg ∷ segs) [] h = tt
batch_rows-owned P ids flow_id now i (seg ∷ segs) (b ∷ bs) h = (
  unfold new_row in h (new_row (ids i) flow_id now seg b.lower b.upper) refl,
  batch_rows-owned P ids flow_id now (i + 1) segs bs h,
)

All-remaining :
    (P : SegmentRow → Type 0) (p : SegmentRow → Bool) (rows : List SegmentRow)
    → All P rows
    → All P (remaining p rows)
unfolding remaining
All-remaining P p [] h = tt
All-remaining P p (r ∷ rs) h = elim (Bool-cases (p r)) [
  | inl e ↦ rw e (All-remaining P p rs h.1)
  | inr e ↦ rw e (h.0, All-remaining P p rs h.1)
]

insert_segments-IsWrite :
    (faults : Faults) (ids : ℕ → ℕ) (now : ℕ) (flow_id controlled : Bytes) (batch : List Segment)
    (s : Store) (accepted : List ℕ)
    → (insert_segments faults ids now flow_id controlled batch s).0 ≡ ok accepted
    → IsWrite s (insert_segments faults ids now flow_id controlled batch s).1
insert_segments-IsWrite faults ids now flow_id controlled batch s accepted e =
    let i = (insert_segments-IsInserted faults ids now flow_id controlled batch s accepted e).1 in
    record {
      flow_id = flow_id;
      now = now;
      span = i.refreshed.span;
      writable = i.writable;
      spanned = i.refreshed.written;
      owned = λ P h a.
          rw i.appended
            (All-append P s.segments _ a (batch_rows-owned P ids flow_id now 0 batch i.bounds h));
    }

delete_segments-IsWrite :
    (faults : Faults) (now : ℕ) (flow_id : Bytes) (range : TimeRange) (object : Option Bytes)
    (s : Store) (count : ℕ)
    → (delete_segments faults now flow_id range object s).0 ≡ ok count
    → ((delete_segments faults now flow_id range object s).1 ≡ s)
      ⊎ IsWrite s (delete_segments faults now flow_id range object s).1
delete_segments-IsWrite faults now flow_id range object s count e =
    let (w, d) = delete_segments-Deletion faults now flow_id range object s count e in
    elim d [
      | inl u ↦ inl u.2
      | inr (b, u, i) ↦ inr (record {
        flow_id = flow_id;
        now = now;
        span = i.refreshed.span;
        writable = w;
        spanned = i.refreshed.written;
        owned = λ P h a. rw i.kept (
            All-remaining P (is_covered flow_id (lower_param b) (upper_param b) object) s.segments
              a);
      })
    ]

-- A transaction leaves the tables as they were, or it is such a change.
pub apply-IsWrite : (w : Write) (s : Store) → (apply w s ≡ s) ⊎ IsWrite s (apply w s)
unfolding apply
apply-IsWrite (insert_batch faults ids now flow_id controlled batch) s =
    elim (Result-cases (insert_segments faults ids now flow_id controlled batch s).0) [
      | inl (a, e) ↦ inr (insert_segments-IsWrite faults ids now flow_id controlled batch s a e)
      | inr (x, e) ↦ inl (insert_segments-err faults ids now flow_id controlled batch s x e)
    ]
apply-IsWrite (delete_range faults now flow_id range object) s =
    elim (Result-cases (delete_segments faults now flow_id range object s).0) [
      | inl (a, e) ↦ delete_segments-IsWrite faults now flow_id range object s a e
      | inr (x, e) ↦ inl (delete_segments-err faults now flow_id range object s x e)
    ]

pub apply-IsDrifted :
    (drift : Bytes → ℕ) (w : Write) (s : Store) → IsDrifted drift s → IsDrifted drift (apply w s)
unfolding apply
apply-IsDrifted drift (insert_batch faults ids now flow_id controlled batch) s =
    insert_segments-IsDrifted drift faults ids now flow_id controlled batch s
apply-IsDrifted drift (delete_range faults now flow_id range object) s =
    delete_segments-IsDrifted drift faults now flow_id range object s
