-- ===== src/Timerange/Text/Joined.antt =====
-- internal/timerange/timerange.go: `String` of a range whose two sides come from two other ranges.
use open_tams.Timerange.Instants.{IsInterval, IsBound}
use open_tams.Prelude.Bytes.{Bytes}
use open_tams.Timerange.Text.{
  is_malformed, range_text, same_instant, start_text, end_text, timestamp_text,
}
use open_tams.Prelude.{
  false, inl, inr, none, refl, some, ◌≡◌, Option, Bool-cases, Option-cases, ◌∷◌, ◌++◌, [],
}
use open_tams.Timerange.{
  TimeRange, exclusive, inclusive, unbounded, Timestamp, is_empty, BoundType, is_eternity,
}

IsBound-fine : (o : Option Timestamp) (t : BoundType) → IsBound o t → is_malformed o t ≡ false
unfolding is_malformed
IsBound-fine none unbounded h = refl
IsBound-fine none inclusive h = absurd h
IsBound-fine none exclusive h = absurd h
IsBound-fine (some ts) inclusive h = refl
IsBound-fine (some ts) exclusive h = refl
IsBound-fine (some ts) unbounded h = absurd h

fine-text :
    (range : TimeRange)
    → is_malformed range.start range.start_type ≡ false
    → is_malformed range.end range.end_type ≡ false
    → (text : Bytes) × (range_text range ≡ some text)
unfolding range_text
fine-text range s e = elim (Bool-cases (is_empty range)) [
  | inl a ↦ (b'(' ∷ b')' ∷ [], rw a refl)
  | inr a ↦ elim (Bool-cases (is_eternity range)) [
    | inl b ↦ (b'_' ∷ [], rw (a, b) refl)
    | inr b ↦ elim (Option-cases (same_instant range.start range.end)) [
      | inl c ↦ (
        start_text range.start range.start_type ++ b'_' ∷ end_text range.end range.end_type,
        rw (a, b, s, e, c) refl,
      )
      | inr (ts, c) ↦ (b'[' ∷ (timestamp_text ts ++ b']' ∷ []), rw (a, b, s, e, c) refl)
    ]
  ]
]

-- The start of one range that is not the special empty one and the end of another can be printed.
pub joined-text :
    (first last : TimeRange)
    → IsInterval first
    → IsInterval last
    → (text : Bytes) × (range_text (record {
      start = first.start;
      start_type = first.start_type;
      end = last.end;
      end_type = last.end_type;
    })
        ≡ some text)
joined-text first last h k =
    fine-text _ (IsBound-fine first.start first.start_type h.0)
      (IsBound-fine last.end last.end_type k.1)
