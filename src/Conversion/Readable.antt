-- ===== src/Conversion/Readable.antt =====
-- The rows that converted requests put into the table of segments, and their reading by `ListSegments`.
use open_tams.Segments.Batch.{batch_rows}
use open_tams.Timerange.Nanos.{NsBounds}
use open_tams.Segments.Deletion.{delete_segments-Deletion}
use open_tams.Timerange.{TimeRange}
use open_tams.Prelude.Bytes.{Bytes}
use open_tams.Segments.{Faults}
use open_tams.Segments.Write.{remaining, delete_segments, insert_segments}
use open_tams.Segments.{SegmentRow, Segment, Store}
use open_tams.Prelude.{[], inl, inr, refl, ◌++◌, ◌+◌, ◌∷◌, ◌≡◌, List, ℕ, Bool, Bool-cases, Option}
use open_tams.Prelude.Result.{ok, Result-cases}
use open_tams.Prelude.Sort.{All}
use open_tams.Segments.Listing.{scan_row, scan_all, Item}
use open_tams.Segments.Invariant.{
  Write, insert_batch, delete_range, apply, apply_all, delete_segments-err, insert_segments-err,
}
use open_tams.Segments.Effects.{insert_segments-IsInserted}
use open_tams.Conversion.Faithful.{AllParsed, scan_row-new_row}

-- A row that can be read, and a table of such rows.
abbrev pub CanScan : SegmentRow → Type 0
CanScan r = (i : Item) × (scan_row r ≡ ok i)

abbrev pub Readable : List SegmentRow → Type 0
Readable rows = All CanScan rows

pub scan_all-Readable :
    (rows : List SegmentRow) → Readable rows → (items : List Item) × (scan_all rows ≡ ok items)
unfolding scan_all
scan_all-Readable [] h = ([], refl)
scan_all-Readable (r ∷ rows) h =
    let (i, e) = h.0 in let (items, f) = scan_all-Readable rows h.1 in (i ∷ items, rw (e, f) refl)

append-Readable : (xs ys : List SegmentRow) → Readable xs → Readable ys → Readable (xs ++ ys)
append-Readable [] ys h k = k
append-Readable (x ∷ xs) ys h k = (h.0, append-Readable xs ys h.1 k)

batch_rows-Readable :
    (ids : ℕ → ℕ) (flow_id : Bytes) (now i : ℕ) (batch : List Segment) (bs : List NsBounds)
    → AllParsed batch
    → Readable (batch_rows ids flow_id now i batch bs)
unfolding batch_rows
batch_rows-Readable ids flow_id now i [] bs h = tt
batch_rows-Readable ids flow_id now i (seg ∷ segs) [] h = tt
batch_rows-Readable ids flow_id now i (seg ∷ segs) (b ∷ bs) h = (
  (_, scan_row-new_row (ids i) flow_id now seg b.lower b.upper h.0),
  batch_rows-Readable ids flow_id now (i + 1) segs bs h.1,
)

remaining-Readable :
    (p : SegmentRow → Bool) (rows : List SegmentRow) → Readable rows → Readable (remaining p rows)
unfolding remaining
remaining-Readable p [] h = tt
remaining-Readable p (r ∷ rows) h = elim (Bool-cases (p r)) [
  | inl e ↦ rw e (remaining-Readable p rows h.1)
  | inr e ↦ rw e (h.0, remaining-Readable p rows h.1)
]

insert_segments-Readable :
    (faults : Faults) (ids : ℕ → ℕ) (now : ℕ) (flow_id controlled : Bytes) (batch : List Segment)
    (s : Store)
    → AllParsed batch
    → Readable s.segments
    → Readable (insert_segments faults ids now flow_id controlled batch s).1.segments
insert_segments-Readable faults ids now flow_id controlled batch s p h =
    elim (Result-cases (insert_segments faults ids now flow_id controlled batch s).0) [
      | inr (e, q) ↦ rw (insert_segments-err faults ids now flow_id controlled batch s e q) h
      | inl (accepted, q) ↦
          let done =
            (insert_segments-IsInserted faults ids now flow_id controlled batch s accepted q).1 in
          rw done.appended (
            append-Readable s.segments _ h
              (batch_rows-Readable ids flow_id now 0 batch done.bounds p))
    ]

delete_segments-Readable :
    (faults : Faults) (now : ℕ) (flow_id : Bytes) (range : TimeRange) (object : Option Bytes)
    (s : Store)
    → Readable s.segments
    → Readable (delete_segments faults now flow_id range object s).1.segments
delete_segments-Readable faults now flow_id range object s h =
    elim (Result-cases (delete_segments faults now flow_id range object s).0) [
      | inr (e, q) ↦ rw (delete_segments-err faults now flow_id range object s e q) h
      | inl (count, q) ↦
          elim (delete_segments-Deletion faults now flow_id range object s count q).1 [
            | inl (x, y, same) ↦ rw same h
            | inr (b, f, done) ↦ rw done.kept (remaining-Readable _ s.segments h)
          ]
    ]

-- A call that writes segments which keep their texts, as those of a request do.
abbrev pub WritesParsed : Write → Type 0
WritesParsed (insert_batch faults ids now flow_id controlled batch) = AllParsed batch
WritesParsed (delete_range faults now flow_id range object) = Unit {0}

-- However segments that keep their texts are inserted and deleted, and whichever calls of the
-- database fail, ListSegments can read every row of the table, if it could at the start.
pub apply_all-Readable :
    (ws : List Write) (s : Store)
    → All WritesParsed ws
    → Readable s.segments
    → Readable (apply_all ws s).segments
unfolding apply_all apply
apply_all-Readable [] s p h = h
apply_all-Readable (insert_batch faults ids now flow_id controlled batch ∷ ws) s p h =
    apply_all-Readable ws _ p.1
      (insert_segments-Readable faults ids now flow_id controlled batch s p.0 h)
apply_all-Readable (delete_range faults now flow_id range object ∷ ws) s p h =
    apply_all-Readable ws _ p.1 (delete_segments-Readable faults now flow_id range object s h)
