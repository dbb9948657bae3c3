-- ===== src/Prelude/Decimal.antt =====
-- Decimal numbers: `%d` of Go's `fmt`, and `strconv.ParseUint(s, 10, 64)`.
use Prim.Native.Nat.{ℕ, zero, suc, ◌+◌, ◌-◌, ◌*◌, ◌/◌, ◌%◌, ◌^◌, ◌≤◌, ◌<◌}
use mathlib.Core.Bool.{Bool, true, false, ◌&&◌}
use mathlib.Core.Option.{Option, none, some}
use mathlib.Core.Path.{sym, ap, ◌≡◌, refl}
use mathlib.Core.Logic.{inl, inr, ◌⊎◌, ite, dite}
use mathlib.Core.List.{[], ◌∷◌}
use mathlib.Core.WellFounded.{Acc, Acc-prop, WellFounded, induction}
use native.Mathlib.Omega.{arith}
use native.Mathlib.Decide.{dec_lt}
use native.Mathlib.Nat.{pow-suc}
use open_tams.Prelude.Tests.{◌==◌, ltb, leb, if◌then◌else◌}
use open_tams.Prelude.Bytes.{Lacks, Bytes, length}

abbrev pub max_uint64 : ℕ
max_uint64 = 2 ^ 64 - 1

abbrev pub is_digit : ℕ → Bool
is_digit c = leb b'0' c && leb c b'9'

-- One digit after the other, with the range checked at each.
scan : Bytes → ℕ → Option ℕ
scan [] n = some n
scan (c ∷ s) n =
    let m = n * 10 + (c - b'0') in
    let rest = scan s m in if is_digit c then (if ltb max_uint64 m then none else rest) else none

unfoldable pub parse_uint : Bytes → Option ℕ
unfolding scan
parse_uint [] = none
parse_uint (c ∷ s) = scan (c ∷ s) 0

below_Acc : (bound n : ℕ) → n < bound → Acc ◌<◌ n
below_Acc zero n h = absurd (omega arith)
below_Acc (suc b) n h = Acc.intro n (λ m lt. below_Acc b m (omega arith))

every_Acc : WellFounded ◌<◌
unfolding below_Acc
every_Acc = record { apply = λ n. below_Acc (suc n) n (omega arith) }

-- The digits of a positive number, put in front of a text.
push_digits : (n : ℕ) → Acc ◌<◌ n → Bytes → Bytes
push_digits n (Acc.intro _ smaller) out =
    dite (dec_lt 0 n)
      (λ h. push_digits (n / 10) (smaller (n / 10) (omega arith)) ((b'0' + n % 10) ∷ out))
      (λ _. out)

digits : ℕ → Bytes → Bytes
unfolding push_digits every_Acc dec_lt
digits n out = push_digits n (every_Acc.apply n) out

unfoldable pub format_uint : ℕ → Bytes
unfolding digits
format_uint n = if n == 0 then b'0' ∷ [] else digits n []

push_digits-eq :
    (n : ℕ) (w : Acc ◌<◌ n) (w' : Acc ◌<◌ (n / 10)) (out : Bytes)
    → push_digits n w out ≡ ite (dec_lt 0 n) (push_digits (n / 10) w' ((b'0' + n % 10) ∷ out)) out
unfolding push_digits
push_digits-eq n (Acc.intro _ smaller) w' out = λ i.
    dite (dec_lt 0 n)
      (λ h.
        push_digits (n / 10) (Acc-prop (smaller (n / 10) (omega arith)) w' i)
          ((b'0' + n % 10) ∷ out))
      (λ _. out)

digits-eq :
    (n : ℕ) (out : Bytes)
    → digits n out ≡ ite (dec_lt 0 n) (digits (n / 10) ((b'0' + n % 10) ∷ out)) out
unfolding digits
digits-eq n out = push_digits-eq n (every_Acc.apply n) (every_Acc.apply (n / 10)) out

scan-digits : (n : ℕ) (out : Bytes) → n ≤ max_uint64 → scan (digits n out) 0 ≡ scan out n
scan-digits n =
    induction every_Acc
      {C = λ m. (out : Bytes) → m ≤ max_uint64 → scan (digits m out) 0 ≡ scan out m} n
      λ m ih out fits. grind (arith, digits-eq m out, scan_back m out fits, ih (m / 10))
  where
    scan_back :
        (m : ℕ) (out : Bytes) → m ≤ max_uint64 → scan ((b'0' + m % 10) ∷ out) (m / 10) ≡ scan out m
    scan_back m out fits = unfold scan in ground arith

-- A text of digits of which the first is not 0.
abbrev pub AllDigits : Bytes → Type 0
AllDigits [] = Unit {0}
AllDigits (c ∷ s) = (b'0' ≤ c) × (c ≤ b'9') × AllDigits s

abbrev pub LeadsNonzero : Bytes → Type 0
LeadsNonzero [] = ⊥
LeadsNonzero (c ∷ s) = (b'1' ≤ c) × (c ≤ b'9') × AllDigits s

digits_below_ten : (n : ℕ) (out : Bytes) → 0 < n → n < 10 → digits n out ≡ (b'0' + n) ∷ out
digits_below_ten n out p q =
    ground (arith, digits-eq n out, digits-eq (n / 10) ((b'0' + n % 10) ∷ out))

digits_from_ten :
    (n : ℕ) (out : Bytes) → 10 ≤ n → digits n out ≡ digits (n / 10) ((b'0' + n % 10) ∷ out)
digits_from_ten n out p = ground (arith, digits-eq n out)

digits-LeadsNonzero : (n : ℕ) (out : Bytes) → 0 < n → AllDigits out → LeadsNonzero (digits n out)
digits-LeadsNonzero n =
    induction every_Acc
      {C = λ m. (out : Bytes) → 0 < m → AllDigits out → LeadsNonzero (digits m out)} n
      λ m ih out p all. elim (dec_lt m 10) [
        | yes small ↦ rw (digits_below_ten m out p small) (omega arith, omega arith, all)
        | no large ↦ rw (digits_from_ten m out (omega arith)) (
            ih (m / 10) (omega arith) ((b'0' + m % 10) ∷ out) (omega arith)
              (omega arith, omega arith, all))
      ]

length-digits :
    (k n : ℕ) (out : Bytes) → n < 10 ^ suc k → 0 < n → length (digits n out) ≤ suc k + length out
length-digits zero n out h p = rw (digits_below_ten n out p (omega arith)) (omega arith)
length-digits (suc k) n out h p = elim (dec_lt n 10) [
  | yes small ↦ rw (digits_below_ten n out p small) (omega arith)
  | no large ↦
      rw (digits_from_ten n out (omega arith)) (
        omega (arith, length-digits k (n / 10) ((b'0' + n % 10) ∷ out) (tenth k n h) (omega arith)))
]
  where
    tenth : (j m : ℕ) → m < 10 ^ suc (suc j) → m / 10 < 10 ^ suc j
    tenth j m q = omega (arith, pow-suc 10 (suc j))

-- What `%d` prints: 0, or digits of which the first is not 0.
pub format_uint-shape :
    (n : ℕ) → ((n ≡ 0) × (format_uint n ≡ b'0' ∷ [])) ⊎ ((0 < n) × LeadsNonzero (format_uint n))
unfolding format_uint
format_uint-shape n = elim (dec_lt 0 n) [
  | yes p ↦ inr (p, rw (positive n p) (digits-LeadsNonzero n [] p tt))
  | no z ↦ inl (omega arith, rw (zero_is n (omega arith)) refl)
]
  where
    positive : (m : ℕ) → 0 < m → (m == 0) ≡ false
    positive m p = ground arith

    zero_is : (m : ℕ) → m ≡ 0 → (m == 0) ≡ true
    zero_is m p = ground arith

pub length-format_uint : (k n : ℕ) → n < 10 ^ suc k → length (format_uint n) ≤ suc k
unfolding format_uint
length-format_uint k n h = ground (arith, length-digits k n [] h)

parse_uint-eq-scan : (s : Bytes) → LeadsNonzero s → parse_uint s ≡ scan s 0
unfolding parse_uint
parse_uint-eq-scan [] h = absurd h
parse_uint-eq-scan (c ∷ s) h = refl

format_uint_pos : (n : ℕ) → 0 < n → format_uint n ≡ digits n []
unfolding format_uint
format_uint_pos n p = ground arith

-- Every uint64 is read back from its decimal form.
pub parse_uint-format_uint : (n : ℕ) → n ≤ max_uint64 → parse_uint (format_uint n) ≡ some n
parse_uint-format_uint n h = elim (format_uint-shape n) [
  | inl (z, e) ↦ rw e (unfold parse_uint in ap some (sym z))
  | inr (p, lead) ↦
      rw (parse_uint-eq-scan (format_uint n) lead, format_uint_pos n p, scan-digits n [] h)
        (unfold scan in refl)
]

scan-le : (s : Bytes) (n m : ℕ) → n ≤ max_uint64 → scan s n ≡ some m → m ≤ max_uint64
unfolding scan
scan-le [] n m h e = ground arith
scan-le (c ∷ s) n m h e = ground (arith, scan-le s (n * 10 + (c - b'0')) m)

-- What is read fits in 64 bits.
pub parse_uint-le : (s : Bytes) (n : ℕ) → parse_uint s ≡ some n → n ≤ max_uint64
unfolding parse_uint
parse_uint-le [] n e = cc
parse_uint-le (c ∷ s) n e = scan-le (c ∷ s) 0 n (omega arith) e

pub AllDigits-Lacks :
    (sep : ℕ) (s : Bytes) → AllDigits s → (sep < b'0') ⊎ (b'9' < sep) → Lacks sep s
AllDigits-Lacks sep [] h p = tt
AllDigits-Lacks sep (c ∷ s) (lo, hi, rest) p = (omega arith, AllDigits-Lacks sep s rest p)

pub LeadsNonzero-AllDigits : (s : Bytes) → LeadsNonzero s → AllDigits s
LeadsNonzero-AllDigits [] h = absurd h
LeadsNonzero-AllDigits (c ∷ s) (lo, hi, rest) = (omega arith, hi, rest)

pub format_uint-AllDigits : (n : ℕ) → AllDigits (format_uint n)
format_uint-AllDigits n = elim (format_uint-shape n) [
  | inl (z, e) ↦ rw e (omega arith)
  | inr (p, lead) ↦ LeadsNonzero-AllDigits (format_uint n) lead
]

-- The number that `k` nines spell behind `n`: no `k` digits behind `n` spell a larger one.
abbrev nines : ℕ → ℕ → ℕ
nines zero n = n
nines (suc k) n = nines k (n * 10 + 9)

le-nines : (k n : ℕ) → n ≤ nines k n
le-nines zero n = omega arith
le-nines (suc k) n = omega (arith, le-nines k (n * 10 + 9))

scan-le-nines :
    (s : Bytes) (k n n' m : ℕ) → length s ≤ k → n ≤ n' → scan s n ≡ some m → m ≤ nines k n'
unfolding scan
scan-le-nines [] k n n' m h le e = ground (arith, le-nines k n')
scan-le-nines (c ∷ s) zero n n' m h le e = absurd (omega arith)
scan-le-nines (c ∷ s) (suc k) n n' m h le e =
    ground (arith, scan-le-nines s k (n * 10 + (c - b'0')) (n' * 10 + 9) m)

-- At most nine digits spell a number below 10 ^ 9.
pub parse_uint_nine_digits : (s : Bytes) (m : ℕ) → length s ≤ 9 → parse_uint s ≡ some m → m < 10 ^ 9
unfolding parse_uint
parse_uint_nine_digits [] m h e = cc
parse_uint_nine_digits (c ∷ s) m h e =
    omega (arith, scan-le-nines (c ∷ s) 9 0 0 m h (omega arith) e)
