-- ===== src/Timerange/Examples.antt =====
-- Timestamps and ranges at concrete values, and the theorems of this part applied to them.
use open_tams.Prelude.{none, some, refl, arith, inr}
use open_tams.Prelude.Int.{pos, negsuc}
use open_tams.Timerange.{Timestamp, TimeRange, inclusive, exclusive, unbounded, intersect}
use open_tams.Timerange.Order.{IsValid}
use open_tams.Timerange.Membership.{bounded}
use open_tams.Timerange.Intersection.{IsIntersection, intersect-IsIntersection}

-- -0.5 s and 2 s.
abbrev pub early : Timestamp
early = record { seconds = negsuc 0; nanoseconds = pos 500_000_000 }

abbrev pub late : Timestamp
late = record { seconds = pos 2; nanoseconds = pos 0 }

pub early-IsValid : IsValid early
early-IsValid = record { fits = omega arith; nonneg = refl; below = omega arith }

pub late-IsValid : IsValid late
late-IsValid = record { fits = omega arith; nonneg = refl; below = omega arith }

-- [-0:500000000_2:0)
abbrev pub span : TimeRange
span = bounded early inclusive late exclusive

-- (_ from -0.5 s on.
abbrev pub tail_range : TimeRange
tail_range = record { start = some early; start_type = exclusive; end = none; end_type = unbounded }

intersect-IsIntersection_example : IsIntersection span tail_range (intersect span tail_range)
intersect-IsIntersection_example =
    intersect-IsIntersection span tail_range (inr (early-IsValid, late-IsValid))
      (inr (early-IsValid, tt))
