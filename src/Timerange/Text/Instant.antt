-- ===== src/Timerange/Text/Instant.antt =====
-- Timestamps survive printing and reading, and what is read is a valid timestamp.
use open_tams.Prelude.{
  ◌∙◌, ℕ, ◌+◌, ◌-◌, ◌≤◌, ◌<◌, ◌^◌, ◌≡◌, Bool, true, false, [], ◌∷◌, ◌++◌, arith, refl, inl, inr,
  zero, suc, ◌∙◌,
}
use open_tams.Prelude.Int.{ℤ, pos, negsuc, max_int64, int64, int64-eq, ◌+ℤ◌, ◌-ℤ◌}
use open_tams.Prelude.Bytes.{is_nil, Bytes, cut-append, Lacks}
use open_tams.Prelude.Decimal.{format_uint, format_uint-AllDigits, AllDigits-Lacks, max_uint64}
use open_tams.Prelude.Result.{ok}
use open_tams.Timerange.{ns_per_sec, Timestamp}
use open_tams.Timerange.Order.{IsValid}
use open_tams.Timerange.Text.{unsigned_text, signed_timestamp, timestamp_text, parse_timestamp}
use open_tams.Timerange.Text.Checks.{timestamp_parts-format_uint}

-- The text of a timestamp with sign `neg`.
abbrev signed_text : Bool → ℕ → ℕ → Bytes
signed_text true mag ns = b'-' ∷ (format_uint mag ++ b':' ∷ format_uint ns)
signed_text false mag ns = format_uint mag ++ b':' ∷ format_uint ns

unsigned_text-format_uint :
    (neg : Bool) (mag ns : ℕ)
    → mag ≤ max_uint64
    → ns < ns_per_sec
    → unsigned_text neg (format_uint mag ++ b':' ∷ format_uint ns) ≡ signed_timestamp neg mag ns
unfolding unsigned_text
unsigned_text-format_uint neg mag ns hm hn =
    rw
      (
        unsigned_text,
        cut-append b':' (format_uint mag) (format_uint ns) (
            AllDigits-Lacks b':' (format_uint mag) (format_uint-AllDigits mag) (inr (omega arith))),
      )
      (timestamp_parts-format_uint neg mag ns hm hn)

-- A text that starts with no minus sign is read as unsigned.
parse_unsigned :
    (s : Bytes)
    → Lacks b'-' s
    → (t : Bytes) → parse_timestamp (s ++ b':' ∷ t) ≡ unsigned_text false (s ++ b':' ∷ t)
unfolding parse_timestamp
parse_unsigned [] h t = refl
parse_unsigned (c ∷ s) h t = ground arith

parse_signed :
    (neg : Bool) (mag ns : ℕ)
    → mag ≤ max_uint64
    → ns < ns_per_sec
    → parse_timestamp (signed_text neg mag ns) ≡ signed_timestamp neg mag ns
parse_signed true mag ns hm hn =
    unfold parse_timestamp in unsigned_text-format_uint true mag ns hm hn
parse_signed false mag ns hm hn =
    parse_unsigned (format_uint mag)
      (AllDigits-Lacks b'-' (format_uint mag) (format_uint-AllDigits mag) (inl (omega arith)))
      (format_uint ns)
    ∙ unsigned_text-format_uint false mag ns hm hn

-- What `String` prints for a timestamp, and `ParseTimestamp` makes of it: a sign, a magnitude in
-- seconds and nanoseconds. A negative value with nanoseconds counts back from the next second.
record Prints (ts : Timestamp) : Type 0 where
  neg : Bool
  mag : ℕ
  ns : ℕ
  mag_fits : mag ≤ max_uint64
  ns_fits : ns < ns_per_sec
  text : timestamp_text ts ≡ signed_text neg mag ns
  value : signed_timestamp neg mag ns ≡ ok ts

unsigned_value :
    (n k : ℕ)
    → n ≤ max_int64
    → signed_timestamp false n k ≡ ok (record { seconds = pos n; nanoseconds = pos k })
unfolding signed_timestamp
unsigned_value n k h = ground (arith, int64-eq (pos n))

whole_negative :
    (n : ℕ)
    → n < 2 ^ 63
    → signed_timestamp true (n + 1) 0 ≡ ok (record { seconds = negsuc n; nanoseconds = pos 0 })
unfolding signed_timestamp int64 ◌-ℤ◌
whole_negative n h = ground arith

pub neg_seconds : (n : ℕ) → n ≤ max_int64 → int64 (pos 0 -ℤ int64 (pos n) -ℤ pos 1) ≡ negsuc n
unfolding int64 ◌-ℤ◌
neg_seconds n h = ground arith

complement_nanos :
    (k : ℕ) → k + 1 < ns_per_sec → pos ns_per_sec -ℤ pos (ns_per_sec - (k + 1)) ≡ pos (suc k)
unfolding ◌-ℤ◌
complement_nanos k h = ground arith

broken_negative :
    (n k : ℕ)
    → n ≤ max_int64
    → k + 1 < ns_per_sec
    → signed_timestamp true n (ns_per_sec - (k + 1))
      ≡ ok (record { seconds = negsuc n; nanoseconds = pos (suc k) })
unfolding signed_timestamp
broken_negative n k h hk = ground (arith, neg_seconds n h, complement_nanos k hk)

IsValid-Prints :
    (s ns : ℤ)
    → IsValid (record { seconds = s; nanoseconds = ns })
    → Prints (record { seconds = s; nanoseconds = ns })
unfolding timestamp_text int64 ◌+ℤ◌ ◌-ℤ◌
IsValid-Prints s (negsuc k) v = absurd (omega arith)
IsValid-Prints (pos n) (pos k) v = record {
  neg = false;
  mag = n;
  ns = k;
  mag_fits = omega arith;
  ns_fits = omega arith;
  text = ground arith;
  value = unsigned_value n k (omega arith);
}
IsValid-Prints (negsuc n) (pos zero) v = record {
  neg = true;
  mag = n + 1;
  ns = 0;
  mag_fits = omega arith;
  ns_fits = omega arith;
  text = ground arith;
  value = whole_negative n (omega arith);
}
IsValid-Prints (negsuc n) (pos (suc k)) v = record {
  neg = true;
  mag = n;
  ns = ns_per_sec - (k + 1);
  mag_fits = omega arith;
  ns_fits = omega arith;
  text = ground arith;
  value = broken_negative n k (omega arith) (omega arith);
}

-- A valid timestamp is read back from its text.
pub parse_timestamp-timestamp_text :
    (ts : Timestamp) → IsValid ts → parse_timestamp (timestamp_text ts) ≡ ok ts
parse_timestamp-timestamp_text ts v =
    let p = IsValid-Prints ts.seconds ts.nanoseconds v in
    rw (p.text) (parse_signed p.neg p.mag p.ns p.mag_fits p.ns_fits ∙ p.value)

-- The text of a valid timestamp holds no underscore, and is not empty.
pub record IsPlain (s : Bytes) : Type 0 where
  pub no_underscore : Lacks b'_' s
  pub some_byte : is_nil s ≡ false

Lacks-append : (sep : ℕ) (s t : Bytes) → Lacks sep s → Lacks sep t → Lacks sep (s ++ t)
Lacks-append sep [] t h k = k
Lacks-append sep (c ∷ s) t (h, hs) k = (h, Lacks-append sep s t hs k)

decimal-Lacks : (n : ℕ) → Lacks b'_' (format_uint n)
decimal-Lacks n = AllDigits-Lacks b'_' (format_uint n) (format_uint-AllDigits n) (inr (omega arith))

pair-Lacks : (m n : ℕ) → Lacks b'_' (format_uint m ++ b':' ∷ format_uint n)
pair-Lacks m n =
    Lacks-append b'_' (format_uint m) (b':' ∷ format_uint n) (decimal-Lacks m)
      (omega arith, decimal-Lacks n)

is_nil-append : (s : Bytes) (c : ℕ) (t : Bytes) → is_nil (s ++ c ∷ t) ≡ false
is_nil-append [] c t = refl
is_nil-append (d ∷ s) c t = refl

signed_text-IsPlain : (neg : Bool) (m n : ℕ) → IsPlain (signed_text neg m n)
signed_text-IsPlain true m n = record {
  no_underscore = (omega arith, pair-Lacks m n);
  some_byte = refl;
}
signed_text-IsPlain false m n = record {
  no_underscore = pair-Lacks m n;
  some_byte = is_nil-append (format_uint m) b':' (format_uint n);
}

pub timestamp_text-IsPlain : (ts : Timestamp) → IsValid ts → IsPlain (timestamp_text ts)
timestamp_text-IsPlain ts v =
    let p = IsValid-Prints ts.seconds ts.nanoseconds v in
    rw (p.text) (signed_text-IsPlain p.neg p.mag p.ns)
