-- ===== src/Timerange/Instants.antt =====
-- Which instants a range contains: `Contains`, `IsEmpty` and `Intersect` as operations on sets of
-- timestamps.
use open_tams.Prelude.{ℕ, ◌<◌, ◌≤◌, ◌≡◌, ◌↔◌, ◌⊎◌, true, false, Option, none, some, arith, refl}
use open_tams.Timerange.{
  Timestamp, TimeRange, BoundType, inclusive, exclusive, unbounded, next, empty_between,
  passes_start, passes_end, empty_range,
}
use open_tams.Timerange.Order.{
  IsValid, rank, rank_bound, before-rank, equal-rank, next-IsValid, rank-next,
}

-- A bound is absent and open, or a valid timestamp with a marker.
abbrev pub IsBound : Option Timestamp → BoundType → Type 0
IsBound none unbounded = Unit {0}
IsBound none inclusive = ⊥
IsBound none exclusive = ⊥
IsBound (some ts) inclusive = IsValid ts
IsBound (some ts) exclusive = IsValid ts
IsBound (some ts) unbounded = ⊥

-- The ranges that are not the special empty one.
abbrev pub IsInterval : TimeRange → Type 0
IsInterval tr = IsBound tr.start tr.start_type × IsBound tr.end tr.end_type

abbrev pub IsWellFormed : TimeRange → Type 0
IsWellFormed tr = (tr ≡ empty_range) ⊎ IsInterval tr

-- The ranks on the right side of a bound.
abbrev pub Above : Option Timestamp → BoundType → ℕ → Type 0
Above none t r = Unit {0}
Above (some s) inclusive r = rank s ≤ r
Above (some s) exclusive r = rank s < r
Above (some s) unbounded r = Unit {0}

abbrev pub Below : Option Timestamp → BoundType → ℕ → Type 0
Below none t r = Unit {0}
Below (some s) inclusive r = r ≤ rank s
Below (some s) exclusive r = r < rank s
Below (some s) unbounded r = Unit {0}

pub passes_start_iff :
    (o : Option Timestamp) (b : BoundType) (ts : Timestamp)
    → IsBound o b
    → IsValid ts
    → (passes_start o b ts ≡ true) ↔ Above o b (rank ts)
unfolding passes_start
passes_start_iff none b ts h v = ((λ _. tt), (λ _. refl))
passes_start_iff (some s) inclusive ts h v = ground (arith, before-rank ts s v h)
passes_start_iff (some s) exclusive ts h v =
    ground (arith, before-rank ts s v h, equal-rank ts s v h)
passes_start_iff (some s) unbounded ts h v = absurd h

pub passes_end_iff :
    (o : Option Timestamp) (b : BoundType) (ts : Timestamp)
    → IsBound o b
    → IsValid ts
    → (passes_end o b ts ≡ true) ↔ Below o b (rank ts)
unfolding passes_end
passes_end_iff none b ts h v = ((λ _. tt), (λ _. refl))
passes_end_iff (some s) inclusive ts h v = ground (arith, before-rank s ts h v)
passes_end_iff (some s) exclusive ts h v = ground (arith, before-rank s ts h v, equal-rank s ts h v)
passes_end_iff (some s) unbounded ts h v = absurd h

-- The ranks of a range that is an interval.
abbrev pub Within : TimeRange → ℕ → Type 0
Within tr r = Above tr.start tr.start_type r × Below tr.end tr.end_type r

-- No rank lies between the bounds of an empty range.
pub empty_between_sound :
    (s : Timestamp) (t : BoundType) (e : Timestamp) (u : BoundType) (r : ℕ)
    → IsBound (some s) t
    → IsBound (some e) u
    → empty_between s t e u ≡ true
    → Above (some s) t r
    → Below (some e) u r
    → ⊥
unfolding empty_between
empty_between_sound s inclusive e inclusive r vs ve h a b =
    ground (arith, before-rank e s, equal-rank s e)
empty_between_sound s inclusive e exclusive r vs ve h a b =
    ground (arith, before-rank e s, equal-rank s e)
empty_between_sound s exclusive e inclusive r vs ve h a b =
    ground (arith, before-rank e s, equal-rank s e)
empty_between_sound s exclusive e exclusive r vs ve h a b = ground (
  arith,
  before-rank e s ve vs,
  equal-rank s e vs ve,
  next-IsValid s vs,
  rank-next s vs,
  equal-rank e (next s) ve,
  rank_bound e ve,
)
empty_between_sound s unbounded e u r vs ve h a b = absurd vs
empty_between_sound s t e unbounded r vs ve h a b = absurd ve

-- The first timestamp behind the start of a range with both bounds.
abbrev pub first_instant : Timestamp → BoundType → Timestamp
first_instant s exclusive = next s
first_instant s _ = s

pub empty_between_complete :
    (s : Timestamp) (t : BoundType) (e : Timestamp) (u : BoundType)
    → IsBound (some s) t
    → IsBound (some e) u
    → empty_between s t e u ≡ false
    → IsValid (first_instant s t)
      × Above (some s) t (rank (first_instant s t))
      × Below (some e) u (rank (first_instant s t))
unfolding empty_between
empty_between_complete s inclusive e inclusive vs ve h =
    ground (arith, before-rank e s, equal-rank s e)
empty_between_complete s inclusive e exclusive vs ve h =
    ground (arith, before-rank e s, equal-rank s e)
empty_between_complete s exclusive e inclusive vs ve h =
    ground
      (arith, before-rank e s, equal-rank s e, next-IsValid s vs, rank-next s vs, rank_bound e ve)
empty_between_complete s exclusive e exclusive vs ve h = ground (
  arith,
  before-rank e s ve vs,
  equal-rank s e vs ve,
  next-IsValid s vs,
  rank-next s vs,
  equal-rank e (next s) ve,
  rank_bound e ve,
)
empty_between_complete s unbounded e u vs ve h = absurd vs
empty_between_complete s t e unbounded vs ve h = absurd ve
