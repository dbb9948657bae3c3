-- ===== src/Timerange/Text.antt =====
-- The text forms of internal/timerange/timerange.go: `ParseTimestamp`, `Timestamp.String`, `Parse`,
-- `TimeRange.String`, and the checks `validInt` and `validNano`. A string is the list of its bytes;
-- a marker byte that is absent is 0, Go's zero value.
mod Examples
pub mod Checks
pub mod Instant
pub mod Joined
pub mod Sound
pub mod Frame
pub mod RoundTrip
use open_tams.Prelude.{
  ℕ, ◌+◌, ◌-◌, ◌%◌, ◌^◌, Bool, true, false, not, ◌&&◌, ◌||◌, Option, none, some, List, [], ◌∷◌,
  ◌++◌, if◌then◌else◌, ltb, leb, ◌==◌,
}
use open_tams.Prelude.Int.{ℤ, pos, negsuc, ltb_ℤ, eqb_ℤ, ◌+ℤ◌, ◌-ℤ◌, int64, max_int64}
use open_tams.Prelude.Bytes.{Bytes, cut, split_last, length, is_nil}
use open_tams.Prelude.Decimal.{parse_uint, format_uint, is_digit}
use open_tams.Prelude.Result.{Result, ok, err, ◌>>=◌}
use open_tams.Timerange.{
  Timestamp, TimeRange, BoundType, inclusive, exclusive, unbounded, ns_per_sec, equal, same_bound,
  is_empty, is_eternity, empty_range,
}

-- The errors of the two parsers.
pub data ParseError : Type 0 where
  no_separator bad_seconds bad_nanoseconds out_of_range empty_string exclusive_instant : ParseError

all_digits : Bytes → Bool
all_digits [] = true
all_digits (c ∷ s) = if ltb c b'0' || ltb b'9' c then false else all_digits s

is_zero_text : Bytes → Bool
is_zero_text (c ∷ []) = c == b'0'
is_zero_text _ = false

unfoldable pub valid_int : Bytes → Bool
unfolding all_digits is_zero_text
valid_int [] = false
valid_int (c ∷ s) =
    if is_zero_text (c ∷ s) then true else if ltb c b'1' || ltb b'9' c then false else all_digits s

unfoldable pub valid_nano : Bytes → Bool
unfolding all_digits is_zero_text
valid_nano [] = false
valid_nano (c ∷ s) =
    if is_zero_text (c ∷ s)
    then true
    else if ltb c b'1' || ltb b'9' c
    then false
    else if ltb 9 (length (c ∷ s))
    then false
    else all_digits s

-- The `switch` of `ParseTimestamp`.
pub signed_timestamp : Bool → ℕ → ℕ → Result ParseError Timestamp
signed_timestamp neg mag ns =
    if not neg || (mag == 0 && ns == 0)
    then (if ltb max_int64 mag
        then err out_of_range
        else ok (record { seconds = int64 (pos mag); nanoseconds = pos ns }))
    else if ns == 0
    then (if ltb (max_int64 + 1) mag
        then err out_of_range
        else ok (record {
          seconds = int64 (pos 0 -ℤ int64 (pos ((mag + 2 ^ 64 - 1) % 2 ^ 64)) -ℤ pos 1);
          nanoseconds = pos 0;
        }))
    else if ltb max_int64 mag
    then err out_of_range
    else ok (record {
      seconds = int64 (pos 0 -ℤ int64 (pos mag) -ℤ pos 1);
      nanoseconds = pos ns_per_sec -ℤ pos ns;
    })

-- `ParseInt` on the nanoseconds ignores its error, and has none on what `validNano` accepts.
or_zero : Option ℕ → ℕ
or_zero none = 0
or_zero (some n) = n

pub timestamp_parts : Bool → Bytes → Bytes → Result ParseError Timestamp
unfolding signed_timestamp or_zero
timestamp_parts neg sec_str ns_str =
    if not (valid_int sec_str)
    then err bad_seconds
    else if not (valid_nano ns_str)
    then err bad_nanoseconds
    else elim (parse_uint sec_str) [
      | none ↦ err out_of_range
      | some mag ↦ signed_timestamp neg mag (or_zero (parse_uint ns_str))
    ]

unfoldable pub unsigned_text : Bool → Bytes → Result ParseError Timestamp
unfolding timestamp_parts cut
unsigned_text neg s = elim (cut b':' s) [
  | none ↦ err no_separator
  | some p ↦ timestamp_parts neg p.0 p.1
]

unfoldable pub parse_timestamp : Bytes → Result ParseError Timestamp
unfolding unsigned_text
parse_timestamp [] = unsigned_text false []
parse_timestamp (c ∷ s) = if c == b'-' then unsigned_text true s else unsigned_text false (c ∷ s)

-- `%d` of a signed number.
format_int : ℤ → Bytes
format_int (pos n) = format_uint n
format_int (negsuc n) = b'-' ∷ format_uint (n + 1)

-- The two's complement of an int64 as a uint64, where the number is not negative.
magnitude : ℤ → ℕ
magnitude (pos n) = n
magnitude (negsuc n) = 2 ^ 64 - 1 - n

unfoldable pub timestamp_text : Timestamp → Bytes
unfolding format_int magnitude
timestamp_text ts =
    if not (ltb_ℤ ts.seconds (pos 0))
    then format_int ts.seconds ++ b':' ∷ format_int ts.nanoseconds
    else let mag_sec = magnitude (int64 (pos 0 -ℤ int64 (ts.seconds +ℤ pos 1))) in
      let mag_ns = pos ns_per_sec -ℤ ts.nanoseconds in
      if eqb_ℤ ts.nanoseconds (pos 0)
      then b'-' ∷ (format_uint ((mag_sec + 1) % 2 ^ 64) ++ b':' ∷ format_int (pos 0))
      else b'-' ∷ (format_uint mag_sec ++ b':' ∷ format_int mag_ns)

-- The marker byte at the front, or 0, and what is left.
unfoldable pub start_marker : Bytes → ℕ × Bytes
start_marker [] = (0, [])
start_marker (c ∷ s) = if c == b'[' || c == b'(' then (c, s) else (0, c ∷ s)

unfoldable pub end_marker : Bytes → Bytes × ℕ
unfolding split_last
end_marker body = elim (split_last body) [
  | none ↦ (body, 0)
  | some p ↦ if p.1 == b']' || p.1 == b')' then (p.0, p.1) else (body, 0)
]

-- A string with no separator.
pub instantaneous : ℕ → ℕ → Bytes → Result ParseError TimeRange
instantaneous start_mark end_mark body =
    if is_nil body
    then ok empty_range
    else if start_mark == b'(' || end_mark == b')'
    then err exclusive_instant
    else do
      ts ← parse_timestamp body
      ok (record { start = some ts; start_type = inclusive; end = some ts; end_type = inclusive })

-- One side of a string with a separator: the bound, given the marker that makes it exclusive.
unfoldable pub side : Bytes → Bool → Result ParseError (Option Timestamp × BoundType)
side text is_exclusive =
    if is_nil text
    then ok (none, unbounded)
    else do ts ← parse_timestamp text; ok (some ts, (if is_exclusive then exclusive else inclusive))

unfoldable pub separated : ℕ → ℕ → Bytes → Bytes → Result ParseError TimeRange
separated start_mark end_mark start_str end_str = do
  start ← side start_str (start_mark == b'(')
  end ← side end_str (end_mark == b')')
  ok (record { start = start.0; start_type = start.1; end = end.0; end_type = end.1 })

unfoldable pub parse_body : ℕ → Bytes × ℕ → Result ParseError TimeRange
unfolding instantaneous separated cut
parse_body start_mark p = elim (cut b'_' p.0) [
  | none ↦ instantaneous start_mark p.1 p.0
  | some q ↦ separated start_mark p.1 q.0 q.1
]

unfoldable pub parse : Bytes → Result ParseError TimeRange
unfolding start_marker end_marker parse_body
parse [] = err empty_string
parse (c ∷ s) = let m = start_marker (c ∷ s) in parse_body m.0 (end_marker m.1)

pub start_text : Option Timestamp → BoundType → Bytes
unfolding same_bound
start_text none t = []
start_text (some ts) t = (if same_bound t exclusive then b'(' else b'[') ∷ timestamp_text ts

pub end_text : Option Timestamp → BoundType → Bytes
unfolding same_bound
end_text none t = []
end_text (some ts) t = timestamp_text ts ++ (if same_bound t exclusive then b')' else b']') ∷ []

-- The explicit panic's test: a bound is nil exactly if it is unbounded.
pub is_malformed : Option Timestamp → BoundType → Bool
unfolding same_bound
is_malformed none t = not (same_bound t unbounded)
is_malformed (some ts) t = same_bound t unbounded

-- The case of `String` for a range with two equal bounds.
pub same_instant : Option Timestamp → Option Timestamp → Option Timestamp
same_instant (some s) (some e) = if equal s e then some s else none
same_instant _ _ = none

-- `none` is the panic of `String`.
unfoldable pub range_text : TimeRange → Option Bytes
unfolding start_text end_text is_malformed same_instant
range_text tr =
    if is_empty tr
    then some (b'(' ∷ b')' ∷ [])
    else if is_eternity tr
    then some (b'_' ∷ [])
    else if is_malformed tr.start tr.start_type || is_malformed tr.end tr.end_type
    then none
    else elim (same_instant tr.start tr.end) [
      | some s ↦ some (b'[' ∷ (timestamp_text s ++ b']' ∷ []))
      | none ↦ some (start_text tr.start tr.start_type ++ b'_' ∷ end_text tr.end tr.end_type)
    ]
