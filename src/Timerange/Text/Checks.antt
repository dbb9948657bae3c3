-- ===== src/Timerange/Text/Checks.antt =====
-- What `String` prints passes the checks of `ParseTimestamp`.
use open_tams.Prelude.{ℕ, ◌≤◌, ◌<◌, ◌≡◌, Bool, true, [], ◌∷◌, arith, refl, inl, inr}
use open_tams.Prelude.Bytes.{Bytes, length}
use open_tams.Prelude.Decimal.{
  format_uint, format_uint-shape, length-format_uint, AllDigits, LeadsNonzero,
  parse_uint-format_uint, max_uint64,
}
use open_tams.Timerange.{ns_per_sec}
use open_tams.Timerange.Text.{valid_int, valid_nano, all_digits, timestamp_parts, signed_timestamp}

all_digits-AllDigits : (s : Bytes) → AllDigits s → all_digits s ≡ true
unfolding all_digits
all_digits-AllDigits [] h = refl
all_digits-AllDigits (c ∷ s) (lo, hi, rest) = ground (arith, all_digits-AllDigits s rest)

valid_int-LeadsNonzero : (s : Bytes) → LeadsNonzero s → valid_int s ≡ true
unfolding valid_int
valid_int-LeadsNonzero [] h = absurd h
valid_int-LeadsNonzero (c ∷ s) (lo, hi, rest) = ground (arith, all_digits-AllDigits s rest)

valid_nano-LeadsNonzero : (s : Bytes) → LeadsNonzero s → length s ≤ 9 → valid_nano s ≡ true
unfolding valid_nano
valid_nano-LeadsNonzero [] h n = absurd h
valid_nano-LeadsNonzero (c ∷ s) (lo, hi, rest) n = ground (arith, all_digits-AllDigits s rest)

pub valid_int-format_uint : (n : ℕ) → valid_int (format_uint n) ≡ true
valid_int-format_uint n = elim (format_uint-shape n) [
  | inl (z, e) ↦ rw e (unfold valid_int in refl)
  | inr (p, lead) ↦ valid_int-LeadsNonzero (format_uint n) lead
]

pub valid_nano-format_uint : (n : ℕ) → n < ns_per_sec → valid_nano (format_uint n) ≡ true
valid_nano-format_uint n h = elim (format_uint-shape n) [
  | inl (z, e) ↦ rw e (unfold valid_nano in refl)
  | inr (p, lead) ↦ valid_nano-LeadsNonzero (format_uint n) lead (length-format_uint 8 n h)
]

-- Printed seconds and nanoseconds are read back as numbers.
pub timestamp_parts-format_uint :
    (neg : Bool) (mag ns : ℕ)
    → mag ≤ max_uint64
    → ns < ns_per_sec
    → timestamp_parts neg (format_uint mag) (format_uint ns) ≡ signed_timestamp neg mag ns
unfolding timestamp_parts
timestamp_parts-format_uint neg mag ns hm hn =
    rw
      (
        valid_int-format_uint mag,
        valid_nano-format_uint ns hn,
        parse_uint-format_uint mag hm,
        parse_uint-format_uint ns (omega arith),
      )
      refl
