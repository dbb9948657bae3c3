-- ===== src/Timerange/Nanos/Examples.antt =====
-- Ranges in nanoseconds, and the theorems about them applied to concrete values.
use open_tams.Prelude.{◌≡◌, ◌↔◌, true, false, refl}
use open_tams.Prelude.Int.{◌+ℤ◌, ◌-ℤ◌, ◌*ℤ◌, int64, pos, negsuc}
use open_tams.Prelude.Result.{ok}
use open_tams.Timerange.{equal, before, contains, is_empty}
use open_tams.Timerange.Nanos.{bound_nanos, checked_nanos, NsBounds, nanos, ns_bounds}
use open_tams.Timerange.Nanos.Exact.{total}
use open_tams.Timerange.Nanos.Meaning.{InBounds, contains-ns_bounds}
use open_tams.Timerange.Examples.{late, early-IsValid, late-IsValid, span}

abbrev span_bounds : NsBounds
span_bounds = record {
  lower = negsuc 499_999_999;
  upper = pos 2_000_000_000;
  lower_unbounded = false;
  upper_unbounded = false;
}

span-ns_bounds : ns_bounds span ≡ ok span_bounds
unfolding ns_bounds is_empty total nanos checked_nanos ◌+ℤ◌ ◌-ℤ◌ ◌*ℤ◌ int64 before equal bound_nanos
span-ns_bounds = refl

contains-ns_bounds_example : (contains span late ≡ true) ↔ InBounds span_bounds (total late)
contains-ns_bounds_example =
    contains-ns_bounds span span_bounds late (early-IsValid, late-IsValid) span-ns_bounds
      late-IsValid
