-- ===== src/Segments/Conditions.antt =====
-- The conditions of `ListSegments` and `DeleteSegmentsByTimerange` on the rows, against the nanoseconds
-- of a row and of the range.
use open_tams.Prelude.{none, suc, true, zero, ◌≡◌, ◌⊎◌, arith, ◌&&◌, inl, inr, ◌↔◌, Bool-cases, not}
use open_tams.Prelude.Int.{negsuc, pos, ℤ, ◌<ℤ◌, ◌≤ℤ◌, ltb_ℤ}
use open_tams.Segments.{SegmentRow}
use open_tams.Timerange.Nanos.{NsBounds}
use open_tams.Timerange.Nanos.Meaning.{InBounds}
use open_tams.Segments.Consistent.{HasPoints}
use open_tams.Segments.Insert.{lower_param, upper_param}
use open_tams.Segments.Listing.{overlap_cond}
use open_tams.Segments.Write.{is_covered}
use open_tams.Prelude.Bytes.{Bytes, bytes_eq_iff}

-- The nanoseconds of a row.
abbrev pub Covers : SegmentRow → ℤ → Type 0
Covers r z = (r.lower_ns ≤ℤ z) × (z <ℤ r.upper_ns)

-- The one before an integer.
last_ns : ℤ → ℤ
last_ns (pos zero) = negsuc 0
last_ns (pos (suc n)) = pos n
last_ns (negsuc n) = negsuc (suc n)

abbrev pub Fits : NsBounds → SegmentRow → Type 0
Fits b r =
    ((b.lower_unbounded ≡ true) ⊎ (b.lower ≤ℤ r.lower_ns))
    × ((b.upper_unbounded ≡ true) ⊎ (r.upper_ns ≤ℤ b.upper))

is_covered-Fits :
    (flow_id : Bytes) (b : NsBounds) (r : SegmentRow)
    → is_covered flow_id (lower_param b) (upper_param b) none r ≡ true
    → (r.flow_id ≡ flow_id) × Fits b r
unfolding is_covered lower_param upper_param
is_covered-Fits flow_id b r h = ground (arith, bytes_eq_iff r.flow_id flow_id)

Fits-is_covered :
    (flow_id : Bytes) (b : NsBounds) (r : SegmentRow)
    → r.flow_id ≡ flow_id
    → Fits b r
    → is_covered flow_id (lower_param b) (upper_param b) none r ≡ true
unfolding is_covered lower_param upper_param
Fits-is_covered flow_id b r e h = ground (arith, bytes_eq_iff r.flow_id flow_id)

last_ns-below : (u : ℤ) → last_ns u <ℤ u
unfolding last_ns
last_ns-below (pos zero) = omega arith
last_ns-below (pos (suc n)) = omega arith
last_ns-below (negsuc n) = omega arith

last_ns-above : (a u : ℤ) → a <ℤ u → a ≤ℤ last_ns u
unfolding last_ns
last_ns-above a (pos zero) h = omega arith
last_ns-above a (pos (suc n)) h = omega arith
last_ns-above a (negsuc n) h = omega arith

last_ns-next : (u c : ℤ) → last_ns u <ℤ c → u ≤ℤ c
unfolding last_ns
last_ns-next (pos zero) c h = omega arith
last_ns-next (pos (suc n)) c h = omega arith
last_ns-next (negsuc n) c h = omega arith

-- All nanoseconds of a row lie within the bounds.
abbrev pub Contained : NsBounds → SegmentRow → Type 0
Contained b r = (z : ℤ) → Covers r z → InBounds b z

Fits-Contained : (b : NsBounds) (r : SegmentRow) → Fits b r → Contained b r
Fits-Contained b r h z k = ground arith

Contained-Fits : (b : NsBounds) (r : SegmentRow) → HasPoints r → Contained b r → Fits b r
Contained-Fits b r points c =
    let first = c r.lower_ns (omega arith, points) in
    let last =
      c (last_ns r.upper_ns)
        (last_ns-above r.lower_ns r.upper_ns points, last_ns-below r.upper_ns) in
    (first.0, upper last.1)
  where
    upper :
        (b.upper_unbounded ≡ true) ⊎ (last_ns r.upper_ns <ℤ b.upper)
        → (b.upper_unbounded ≡ true) ⊎ (r.upper_ns ≤ℤ b.upper)
    upper (inl e) = inl e
    upper (inr l) = inr (last_ns-next r.upper_ns b.upper l)

-- `DeleteSegmentsByTimerange` without an object takes a row that holds points exactly if it is one of
-- the flow and every nanosecond of it lies within the bounds of the range.
pub is_covered_iff :
    (flow_id : Bytes) (b : NsBounds) (r : SegmentRow)
    → HasPoints r
    → (is_covered flow_id (lower_param b) (upper_param b) none r ≡ true)
      ↔ ((r.flow_id ≡ flow_id) × Contained b r)
is_covered_iff flow_id b r points = (
  (λ h. let (same, fits) = is_covered-Fits flow_id b r h in (same, Fits-Contained b r fits)),
  (λ h. Fits-is_covered flow_id b r h.0 (Contained-Fits b r points h.1)),
)

-- Bounds between which there is a nanosecond.
abbrev pub IsNonempty : NsBounds → Type 0
IsNonempty b = (b.lower_unbounded ≡ true) ⊎ ((b.upper_unbounded ≡ true) ⊎ (b.lower <ℤ b.upper))

overlap_cond-shared :
    (b : NsBounds) (r : SegmentRow)
    → HasPoints r
    → IsNonempty b
    → overlap_cond (lower_param b) (upper_param b) r ≡ true
    → (z : ℤ) × Covers r z × InBounds b z
unfolding overlap_cond lower_param upper_param
overlap_cond-shared b r points n h =
    elim (Bool-cases (not b.lower_unbounded && ltb_ℤ r.lower_ns b.lower)) [
      | inl e ↦ (b.lower, ground arith, ground arith)
      | inr e ↦ (r.lower_ns, ground arith, ground arith)
    ]

shared-overlap_cond :
    (b : NsBounds) (r : SegmentRow) (z : ℤ)
    → Covers r z
    → InBounds b z
    → overlap_cond (lower_param b) (upper_param b) r ≡ true
unfolding overlap_cond lower_param upper_param
shared-overlap_cond b r z h k = ground arith

-- `ListSegments` lets a row that holds points pass its condition on the time range, for bounds between
-- which there is a nanosecond, exactly if a nanosecond of the row lies within the bounds.
pub overlap_cond_iff :
    (b : NsBounds) (r : SegmentRow)
    → HasPoints r
    → IsNonempty b
    → (overlap_cond (lower_param b) (upper_param b) r ≡ true)
      ↔ ((z : ℤ) × Covers r z × InBounds b z)
overlap_cond_iff b r points n =
    (overlap_cond-shared b r points n, λ s. let (z, h, k) = s in shared-overlap_cond b r z h k)
