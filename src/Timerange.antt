-- ===== src/Timerange.antt =====
-- internal/timerange/timerange.go: timestamps, time ranges and their set operations. A pointer
-- `*Timestamp` is an `Option`, since the code never writes through one. A dereference of nil, or the
-- explicit panic of `String`, is the result `none` of the functions that can reach one.
pub mod Text
pub mod Nanos
pub mod Order
mod Examples
pub mod Instants
pub mod Membership
pub mod Bounds
pub mod Intersection
use open_tams.Prelude.{
  ℕ, ◌+◌, ◌-◌, Bool, true, false, ◌&&◌, ◌||◌, not, Option, none, some, if◌then◌else◌,
}
use open_tams.Prelude.Maybe.{◌>>=◌}
use open_tams.Prelude.Int.{ℤ, pos, negsuc, ltb_ℤ, eqb_ℤ, ◌+ℤ◌, int64, FitsInt64, pos_part, neg_part}

abbrev pub ns_per_sec : ℕ
ns_per_sec = 1_000_000_000

-- `Timestamp`: int64 seconds and int32 nanoseconds.
pub record Timestamp : Type 0 where
  pub seconds : ℤ
  pub nanoseconds : ℤ

pub data BoundType : Type 0 where
  inclusive exclusive unbounded : BoundType

pub record TimeRange : Type 0 where
  pub start : Option Timestamp
  pub start_type : BoundType
  pub end : Option Timestamp
  pub end_type : BoundType

-- Go's `==` on the constants of `BoundType`.
unfoldable pub same_bound : BoundType → BoundType → Bool
same_bound inclusive inclusive = true
same_bound exclusive exclusive = true
same_bound unbounded unbounded = true
same_bound _ _ = false

unfoldable pub before : Timestamp → Timestamp → Bool
before ts other =
    if not (eqb_ℤ ts.seconds other.seconds)
    then ltb_ℤ ts.seconds other.seconds
    else ltb_ℤ ts.nanoseconds other.nanoseconds

pub next : Timestamp → Timestamp
next ts =
    if ltb_ℤ ts.nanoseconds (pos (ns_per_sec - 1))
    then record { seconds = ts.seconds; nanoseconds = ts.nanoseconds +ℤ pos 1 }
    else record { seconds = int64 (ts.seconds +ℤ pos 1); nanoseconds = pos 0 }

unfoldable pub equal : Timestamp → Timestamp → Bool
equal ts other = eqb_ℤ ts.seconds other.seconds && eqb_ℤ ts.nanoseconds other.nanoseconds

-- The cases of `IsEmpty` in which both bounds are there.
pub empty_between : Timestamp → BoundType → Timestamp → BoundType → Bool
unfolding same_bound
empty_between start start_type end end_type =
    if before end start
    then true
    else if equal start end
    then same_bound start_type exclusive || same_bound end_type exclusive
    else if same_bound start_type exclusive && same_bound end_type exclusive
    then equal end (next start)
    else false

unfoldable pub is_empty_of : Option Timestamp → BoundType → Option Timestamp → BoundType → Bool
unfolding same_bound empty_between
is_empty_of none start_type none end_type =
    not (same_bound start_type unbounded) || not (same_bound end_type unbounded)
is_empty_of none start_type (some end) end_type = false
is_empty_of (some start) start_type none end_type = false
is_empty_of (some start) start_type (some end) end_type =
    empty_between start start_type end end_type

unfoldable pub is_empty : TimeRange → Bool
unfolding is_empty_of
is_empty tr = is_empty_of tr.start tr.start_type tr.end tr.end_type

unfoldable pub is_eternity : TimeRange → Bool
unfolding same_bound
is_eternity tr = same_bound tr.start_type unbounded && same_bound tr.end_type unbounded

-- The two `if … != nil` blocks of `Contains`: whether they let `ts` pass.
unfoldable pub passes_start : Option Timestamp → BoundType → Timestamp → Bool
passes_start none start_type ts = true
passes_start (some start) inclusive ts = not (before ts start)
passes_start (some start) exclusive ts = not (before ts start || equal ts start)
passes_start (some start) unbounded ts = true

unfoldable pub passes_end : Option Timestamp → BoundType → Timestamp → Bool
passes_end none end_type ts = true
passes_end (some end) inclusive ts = not (before end ts)
passes_end (some end) exclusive ts = not (before end ts || equal end ts)
passes_end (some end) unbounded ts = true

unfoldable pub contains : TimeRange → Timestamp → Bool
unfolding passes_start passes_end
contains tr ts =
    if is_empty tr
    then false
    else if is_eternity tr
    then true
    else passes_start tr.start tr.start_type ts && passes_end tr.end tr.end_type ts

-- `TimeRange{StartType: Exclusive, EndType: Exclusive}`, the range that "()" stands for.
abbrev pub empty_range : TimeRange
empty_range = record { start = none; start_type = exclusive; end = none; end_type = exclusive }

-- One end of a range: its pointer and its type.
pub record Bound : Type 0 where
  pub at : Option Timestamp
  pub kind : BoundType

tighter : BoundType → BoundType → BoundType
unfolding same_bound
tighter t u = if same_bound t exclusive || same_bound u exclusive then exclusive else inclusive

-- The three last cases of each `switch` of `Intersect`, with the pointers dereferenced.
pub later_start : Timestamp → BoundType → Timestamp → BoundType → Bound
unfolding tighter
later_start s t s' t' =
    if before s s'
    then record { at = some s'; kind = t' }
    else if before s' s
    then record { at = some s; kind = t }
    else record { at = some s; kind = tighter t t' }

pub earlier_end : Timestamp → BoundType → Timestamp → BoundType → Bound
unfolding tighter
earlier_end e t e' t' =
    if before e' e
    then record { at = some e'; kind = t' }
    else if before e e'
    then record { at = some e; kind = t }
    else record { at = some e; kind = tighter t t' }

pub choose : (Timestamp → BoundType → Timestamp → BoundType → Bound) → Bound → Bound → Option Bound
unfolding same_bound
choose pick a b =
    if same_bound a.kind unbounded
    then some b
    else if same_bound b.kind unbounded
    then some a
    else do s ← a.at; s' ← b.at; some (pick s a.kind s' b.kind)

-- The checks on `result` at the end of `Intersect`.
empty_if_disjoint : Option Timestamp → Option Timestamp → TimeRange → TimeRange
unfolding same_bound
empty_if_disjoint (some start) (some end) result =
    if before end start
    then empty_range
    else if equal end start
        && (same_bound result.start_type exclusive || same_bound result.end_type exclusive)
    then empty_range
    else result
empty_if_disjoint _ _ result = result

pub narrow : Bound → Bound → TimeRange
unfolding empty_if_disjoint
narrow start end =
    let result : TimeRange = record {
      start = start.at;
      start_type = start.kind;
      end = end.at;
      end_type = end.kind;
    } in
    if is_empty result then empty_range else empty_if_disjoint result.start result.end result

pub start_bound : TimeRange → Bound
start_bound tr = record { at = tr.start; kind = tr.start_type }

pub end_bound : TimeRange → Bound
end_bound tr = record { at = tr.end; kind = tr.end_type }

pub intersect : TimeRange → TimeRange → Option TimeRange
unfolding later_start earlier_end choose narrow start_bound end_bound
intersect a b =
    if is_empty a || is_empty b
    then some empty_range
    else if is_eternity a
    then some b
    else if is_eternity b
    then some a
    else do
      start ← choose later_start (start_bound a) (start_bound b)
      end ← choose earlier_end (end_bound a) (end_bound b)
      some (narrow start end)

pub overlaps : TimeRange → TimeRange → Option Bool
overlaps tr other = do result ← intersect tr other; some (not (is_empty result))
