-- ===== src/Timerange/Text/Frame.antt =====
-- How `Parse` takes the markers off what `TimeRange.String` prints.
use open_tams.Prelude.{ℕ, ◌≡◌, Bool, none, some, [], ◌∷◌, ◌++◌, refl, if◌then◌else◌}
use open_tams.Prelude.Bytes.{Bytes, cut-append, cut-Lacks, split_last-append, Lacks}
use open_tams.Prelude.Result.{ok}
use open_tams.Timerange.{Timestamp, BoundType, inclusive, exclusive, unbounded}
use open_tams.Timerange.Order.{IsValid}
use open_tams.Timerange.Text.{
  parse, parse_body, start_marker, end_marker, side, separated, instantaneous, timestamp_text,
}
use open_tams.Timerange.Text.Instant.{timestamp_text-IsPlain, parse_timestamp-timestamp_text}

-- The marker that `String` writes for a bound type.
abbrev pub open_mark : BoundType → ℕ
open_mark exclusive = b'('
open_mark _ = b'['

abbrev pub close_mark : BoundType → ℕ
close_mark exclusive = b')'
close_mark _ = b']'

start_marker-mark : (t : BoundType) (s : Bytes) → start_marker (open_mark t ∷ s) ≡ (open_mark t, s)
unfolding start_marker
start_marker-mark exclusive s = refl
start_marker-mark _ s = refl

end_marker-mark :
    (t : BoundType) (s : Bytes) → end_marker (s ++ close_mark t ∷ []) ≡ (s, close_mark t)
unfolding end_marker
end_marker-mark exclusive s = rw (end_marker, split_last-append s b')') refl
end_marker-mark inclusive s = rw (end_marker, split_last-append s b']') refl
end_marker-mark unbounded s = rw (end_marker, split_last-append s b']') refl

end_marker-underscore : (s : Bytes) → end_marker (s ++ b'_' ∷ []) ≡ (s ++ b'_' ∷ [], 0)
unfolding end_marker
end_marker-underscore s = rw (end_marker, split_last-append s b'_') refl

pub parse_both_marks :
    (t u : BoundType) (s : Bytes)
    → parse (open_mark t ∷ (s ++ close_mark u ∷ [])) ≡ parse_body (open_mark t) (s, close_mark u)
unfolding parse
parse_both_marks t u s = rw (start_marker-mark t, end_marker-mark u s) refl

pub parse-open_mark :
    (t : BoundType) (s : Bytes)
    → parse (open_mark t ∷ (s ++ b'_' ∷ [])) ≡ parse_body (open_mark t) (s ++ b'_' ∷ [], 0)
unfolding parse
parse-open_mark t s = rw (start_marker-mark t, end_marker-underscore s) refl

pub parse-close_mark :
    (u : BoundType) (s : Bytes)
    → parse (b'_' ∷ (s ++ close_mark u ∷ [])) ≡ parse_body 0 (b'_' ∷ s, close_mark u)
unfolding parse start_marker
parse-close_mark u s = rw (end_marker-mark u (b'_' ∷ s)) refl

-- A body with a separator behind a start that holds no underscore.
pub parse_body-separated :
    (m n : ℕ) (s t : Bytes) → Lacks b'_' s → parse_body m (s ++ b'_' ∷ t, n) ≡ separated m n s t
unfolding parse_body
parse_body-separated m n s t h = rw (parse_body, cut-append b'_' s t h) refl

pub parse_body-instantaneous :
    (m n : ℕ) (s : Bytes) → Lacks b'_' s → parse_body m (s, n) ≡ instantaneous m n s
unfolding parse_body
parse_body-instantaneous m n s h = rw (parse_body, cut-Lacks b'_' s h) refl

-- The text of a valid timestamp beside a marker is read as that bound.
pub side-timestamp_text :
    (ts : Timestamp) (x : Bool)
    → IsValid ts
    → side (timestamp_text ts) x ≡ ok (some ts, (if x then exclusive else inclusive))
unfolding side
side-timestamp_text ts x v =
    rw ((timestamp_text-IsPlain ts v).some_byte, parse_timestamp-timestamp_text ts v) refl

pub side-nil : (x : Bool) → side [] x ≡ ok (none, unbounded)
unfolding side
side-nil x = refl

pub instantaneous-timestamp_text :
    (ts : Timestamp)
    → IsValid ts
    → instantaneous b'[' b']' (timestamp_text ts)
      ≡ ok (record { start = some ts; start_type = inclusive; end = some ts; end_type = inclusive })
unfolding instantaneous
instantaneous-timestamp_text ts v =
    rw ((timestamp_text-IsPlain ts v).some_byte, parse_timestamp-timestamp_text ts v) refl
