-- ===== src/Timerange/Text/RoundTrip.antt =====
-- A range that `TimeRange.String` prints is read back by `Parse`.
use mathlib.Core.List.{append_assoc}
use open_tams.Prelude.{
  ◌≡◌, true, false, Option, none, some, [], ◌∷◌, ◌++◌, arith, refl, ◌==◌, if◌then◌else◌, Bool-cases,
  inl, inr, ◌∙◌,
}
use open_tams.Prelude.Bytes.{Bytes, Lacks}
use open_tams.Prelude.Result.{ok}
use open_tams.Timerange.{
  Timestamp, TimeRange, BoundType, inclusive, exclusive, unbounded, empty_range, is_empty,
  is_eternity, equal, is_empty_of,
}
use open_tams.Timerange.Order.{IsValid}
use open_tams.Timerange.Instants.{IsBound, IsWellFormed}
use open_tams.Timerange.Intersection.{IsWellFormed-cases}
use open_tams.Timerange.Text.{
  parse, separated, side, timestamp_text, range_text, start_text, end_text,
}
use open_tams.Timerange.Text.Instant.{timestamp_text-IsPlain}
use open_tams.Timerange.Text.Frame.{
  open_mark, close_mark, parse_both_marks, parse-open_mark, parse-close_mark, parse_body-separated,
  parse_body-instantaneous, side-timestamp_text, side-nil, instantaneous-timestamp_text,
}

abbrev range_of : Option Timestamp → BoundType → Option Timestamp → BoundType → TimeRange
range_of o t p u = record { start = o; start_type = t; end = p; end_type = u }

-- The text is there, and `Parse` reads it as `tr`.
abbrev pub ReadsAs : TimeRange → Option Bytes → Type 0
ReadsAs tr none = ⊥
ReadsAs tr (some text) = parse text ≡ ok tr

start_side :
    (s : Timestamp) (t : BoundType)
    → IsBound (some s) t
    → side (timestamp_text s) (open_mark t == b'(') ≡ ok (some s, t)
start_side s inclusive v = side-timestamp_text s false v
start_side s exclusive v = side-timestamp_text s true v
start_side s unbounded v = absurd v

end_side :
    (e : Timestamp) (u : BoundType)
    → IsBound (some e) u
    → side (timestamp_text e) (close_mark u == b')') ≡ ok (some e, u)
end_side e inclusive v = side-timestamp_text e false v
end_side e exclusive v = side-timestamp_text e true v
end_side e unbounded v = absurd v

plain : (s : Timestamp) (t : BoundType) → IsBound (some s) t → Lacks b'_' (timestamp_text s)
plain s inclusive v = (timestamp_text-IsPlain s v).no_underscore
plain s exclusive v = (timestamp_text-IsPlain s v).no_underscore
plain s unbounded v = absurd v

open_end :
    (s : Timestamp) (t : BoundType)
    → IsBound (some s) t
    → parse (open_mark t ∷ (timestamp_text s ++ b'_' ∷ []))
      ≡ ok (range_of (some s) t none unbounded)
unfolding separated
open_end s t v =
    rw
      (
        parse-open_mark t,
        parse_body-separated (open_mark t) 0 (timestamp_text s) [] (plain s t v),
        start_side s t v,
        side-nil,
      )
      refl

open_start :
    (e : Timestamp) (u : BoundType)
    → IsBound (some e) u
    → parse (b'_' ∷ (timestamp_text e ++ close_mark u ∷ []))
      ≡ ok (range_of none unbounded (some e) u)
unfolding separated
open_start e u v =
    rw
      (
        parse-close_mark u,
        parse_body-separated 0 (close_mark u) [] (timestamp_text e) tt,
        side-nil,
        end_side e u v,
      )
      refl

both_bounds :
    (s : Timestamp) (t : BoundType) (e : Timestamp) (u : BoundType)
    → IsBound (some s) t
    → IsBound (some e) u
    → parse (open_mark t ∷ (timestamp_text s ++ b'_' ∷ (timestamp_text e ++ close_mark u ∷ [])))
      ≡ ok (range_of (some s) t (some e) u)
unfolding separated
both_bounds s t e u v w =
    rw
      (
        ← append_assoc (timestamp_text s) (b'_' ∷ timestamp_text e) (close_mark u ∷ []),
        parse_both_marks t u,
        parse_body-separated (open_mark t) (close_mark u) (timestamp_text s) (timestamp_text e)
            (plain s t v),
        start_side s t v,
        end_side e u w,
      )
      refl

one_instant :
    (s : Timestamp)
    → IsValid s
    → parse (b'[' ∷ (timestamp_text s ++ b']' ∷ []))
      ≡ ok (range_of (some s) inclusive (some s) inclusive)
one_instant s v =
    rw
      (
        parse_both_marks inclusive inclusive,
        parse_body-instantaneous b'[' b']' (timestamp_text s)
            (timestamp_text-IsPlain s v).no_underscore,
        instantaneous-timestamp_text s v,
      )
      refl

start_text-mark :
    (s : Timestamp) (t : BoundType) → start_text (some s) t ≡ open_mark t ∷ timestamp_text s
unfolding start_text
start_text-mark s inclusive = refl
start_text-mark s exclusive = refl
start_text-mark s unbounded = refl

end_text-mark :
    (e : Timestamp) (u : BoundType) → end_text (some e) u ≡ timestamp_text e ++ close_mark u ∷ []
unfolding end_text
end_text-mark e inclusive = refl
end_text-mark e exclusive = refl
end_text-mark e unbounded = refl

equal-eq : (s e : Timestamp) → equal s e ≡ true → s ≡ e
unfolding equal
equal-eq s e h = ground arith

-- A range that is not empty and has equal bounds is one instant.
equal_bounds :
    (s : Timestamp) (t : BoundType) (e : Timestamp) (u : BoundType)
    → IsBound (some s) t
    → IsBound (some e) u
    → is_empty_of (some s) t (some e) u ≡ false
    → equal s e ≡ true
    → (t ≡ inclusive) × (u ≡ inclusive)
unfolding is_empty_of
equal_bounds s inclusive e inclusive v w h q = (refl, refl)
equal_bounds s unbounded e u v w h q = absurd v
equal_bounds s t e unbounded v w h q = absurd w
equal_bounds s t e u v w h q = absurd (ground arith)

-- `String` on two bounds, with its tests decided.
range_text_bounds :
    (s : Timestamp) (t : BoundType) (e : Timestamp) (u : BoundType)
    → IsBound (some s) t
    → IsBound (some e) u
    → is_empty_of (some s) t (some e) u ≡ false
    → range_text (range_of (some s) t (some e) u) ≡ (
        if equal s e
        then some (b'[' ∷ (timestamp_text s ++ b']' ∷ []))
        else some
            (open_mark t ∷ (timestamp_text s ++ b'_' ∷ (timestamp_text e ++ close_mark u ∷ []))))
unfolding range_text is_empty is_eternity
range_text_bounds s unbounded e u v w h = absurd v
range_text_bounds s t e unbounded v w h = absurd w
range_text_bounds s t e u v w h = ground arith

IsBound-IsValid : (s : Timestamp) (t : BoundType) → IsBound (some s) t → IsValid s
IsBound-IsValid s inclusive v = v
IsBound-IsValid s exclusive v = v
IsBound-IsValid s unbounded v = absurd v

ReadsAs-bounds :
    (s : Timestamp) (t : BoundType) (e : Timestamp) (u : BoundType)
    → IsBound (some s) t
    → IsBound (some e) u
    → is_empty_of (some s) t (some e) u ≡ false
    → ReadsAs (range_of (some s) t (some e) u) (range_text (range_of (some s) t (some e) u))
ReadsAs-bounds s t e u v w h = elim (Bool-cases (equal s e)) [
  | inl q ↦
      let (pt, pu) = equal_bounds s t e u v w h q in
      rw (range_text_bounds s t e u v w h, q)
        (one_instant s (IsBound-IsValid s t v) ∙ (cc (pt, pu, equal-eq s e q)))
  | inr q ↦ rw (range_text_bounds s t e u v w h, q) (both_bounds s t e u v w)
]

-- Ranges by their four fields.
ReadsAs-fields :
    (o : Option Timestamp) (t : BoundType) (p : Option Timestamp) (u : BoundType)
    → IsBound o t
    → IsBound p u
    → is_empty (range_of o t p u) ≡ false
    → ReadsAs (range_of o t p u) (range_text (range_of o t p u))
unfolding range_text is_empty is_eternity
ReadsAs-fields none inclusive p u v w h = absurd v
ReadsAs-fields none exclusive p u v w h = absurd v
ReadsAs-fields none unbounded none inclusive v w h = absurd w
ReadsAs-fields none unbounded none exclusive v w h = absurd w
ReadsAs-fields none unbounded none unbounded v w h = unfold parse side separated in refl
ReadsAs-fields none unbounded (some e) inclusive v w h = open_start e inclusive w
ReadsAs-fields none unbounded (some e) exclusive v w h = open_start e exclusive w
ReadsAs-fields none unbounded (some e) unbounded v w h = absurd w
ReadsAs-fields (some s) unbounded p u v w h = absurd v
ReadsAs-fields (some s) t none inclusive v w h = absurd w
ReadsAs-fields (some s) t none exclusive v w h = absurd w
ReadsAs-fields (some s) inclusive none unbounded v w h = open_end s inclusive v
ReadsAs-fields (some s) exclusive none unbounded v w h = open_end s exclusive v
ReadsAs-fields (some s) t (some e) u v w h = ReadsAs-bounds s t e u v w h

-- A well-formed range that is not empty has a text, and `Parse` reads that text as the same range.
-- An empty range has the text "()", which is read as the special empty range.
pub parse-range_text :
    (tr : TimeRange)
    → IsWellFormed tr
    → ReadsAs (if is_empty tr then empty_range else tr) (range_text tr)
parse-range_text tr w = elim (IsWellFormed-cases tr w) [
  | inl h ↦ unfold range_text parse in rw h refl
  | inr (h, v) ↦ rw h (ReadsAs-fields tr.start tr.start_type tr.end tr.end_type v.0 v.1 h)
]
