-- ===== src/Timerange/Text/Sound.antt =====
-- Whatever the parsers accept is a valid timestamp, or a well-formed range.
use open_tams.Prelude.{
  ℕ, ◌+◌, ◌-◌, ◌≤◌, ◌<◌, ◌^◌, ◌%◌, ◌≡◌, Bool, true, false, Option, some, [], ◌∷◌, arith, refl, inl,
  inr, ltb, ◌==◌, Bool-cases, Option-cases, not, ◌&&◌, ◌||◌, if◌then◌else◌, ◌⊎◌,
}
use open_tams.Prelude.Int.{pos, FitsInt64, max_int64, int64, int64-eq, pos_part, neg_part, ◌-ℤ◌}
use open_tams.Prelude.Bytes.{Bytes, length, cut}
use open_tams.Prelude.Decimal.{parse_uint, parse_uint_nine_digits}
use open_tams.Prelude.Result.{Returns, Result, ok, err, ◌>>=◌}
use open_tams.Timerange.{ns_per_sec, Timestamp, BoundType, inclusive, exclusive}
use open_tams.Timerange.Order.{IsValid}
use open_tams.Timerange.Instants.{IsWellFormed, IsBound}
use open_tams.Timerange.Text.{
  is_zero_text, ParseError, valid_int, valid_nano, or_zero, unsigned_text, side, separated,
  instantaneous, start_marker, end_marker, parse_body, timestamp_parts, signed_timestamp,
  parse_timestamp, parse,
}
use open_tams.Timerange.Text.Instant.{neg_seconds}

valid_nano-length : (s : Bytes) → valid_nano s ≡ true → length s ≤ 9
unfolding valid_nano is_zero_text
valid_nano-length [] h = cc
valid_nano-length (c ∷ []) h = omega arith
valid_nano-length (c ∷ d ∷ s) h = ground arith

or_zero-lt : (s : Bytes) → valid_nano s ≡ true → or_zero (parse_uint s) < ns_per_sec
unfolding or_zero
or_zero-lt s h = elim (Option-cases (parse_uint s)) [
  | inl e ↦ rw e (omega arith)
  | inr (n, e) ↦ rw e (omega (arith, parse_uint_nine_digits s n (valid_nano-length s h) e))
]

predecessor : (mag : ℕ) → 0 < mag → mag ≤ max_int64 + 1 → (mag + 2 ^ 64 - 1) % 2 ^ 64 ≡ mag - 1
predecessor mag p h = omega arith

neg_seconds-fits : (n : ℕ) → n ≤ max_int64 → FitsInt64 (int64 (pos 0 -ℤ int64 (pos n) -ℤ pos 1))
neg_seconds-fits n h = rw (neg_seconds n h) (omega arith)

nanos_below :
    (ns : ℕ)
    → 0 < ns
    → ns < ns_per_sec
    → (neg_part (pos ns_per_sec -ℤ pos ns) ≡ 0) × (pos_part (pos ns_per_sec -ℤ pos ns) < ns_per_sec)
unfolding ◌-ℤ◌
nanos_below ns p h = ground arith

int64-fits : (n : ℕ) → ltb max_int64 n ≡ false → FitsInt64 (int64 (pos n))
int64-fits n h = rw (int64-eq (pos n) (ground arith, omega arith)) (ground arith, omega arith)

whole_negative-fits :
    (mag : ℕ)
    → 0 < mag
    → ltb (max_int64 + 1) mag ≡ false
    → FitsInt64 (int64 (pos 0 -ℤ int64 (pos ((mag + 2 ^ 64 - 1) % 2 ^ 64)) -ℤ pos 1))
whole_negative-fits mag p h =
    rw (predecessor mag p (ground arith)) (neg_seconds-fits (mag - 1) (ground arith))

signed_timestamp-IsValid :
    (neg : Bool) (mag ns : ℕ) → ns < ns_per_sec → Returns IsValid (signed_timestamp neg mag ns)
unfolding signed_timestamp
signed_timestamp-IsValid neg mag ns h = elim (Bool-cases (not neg || ((mag == 0) && (ns == 0)))) [
  | inl a ↦ elim (Bool-cases (ltb max_int64 mag)) [
    | inl big ↦ rw (a, big) tt
    | inr small ↦ rw (a, small) (record { fits = int64-fits mag small; nonneg = refl; below = h })
  ]
  | inr a ↦ elim (Bool-cases (ns == 0)) [
    | inl z ↦ elim (Bool-cases (ltb (max_int64 + 1) mag)) [
      | inl big ↦ rw (a, z, big) tt
      | inr small ↦
          rw (a, z, small)
            (record {
              fits = whole_negative-fits mag (ground arith) small;
              nonneg = refl;
              below = omega arith;
            })
    ]
    | inr p ↦ elim (Bool-cases (ltb max_int64 mag)) [
      | inl big ↦ rw (a, p, big) tt
      | inr small ↦
          let (nn, bb) = nanos_below ns (ground arith) h in
          rw (a, p, small)
            (record { fits = neg_seconds-fits mag (ground arith); nonneg = nn; below = bb })
    ]
  ]
]

timestamp_parts-IsValid : (neg : Bool) (s t : Bytes) → Returns IsValid (timestamp_parts neg s t)
unfolding timestamp_parts
timestamp_parts-IsValid neg s t = elim (Bool-cases (valid_int s)) [
  | inr bad ↦ rw bad tt
  | inl good ↦ elim (Bool-cases (valid_nano t)) [
    | inr bad ↦ rw (good, bad) tt
    | inl nano ↦ elim (Option-cases (parse_uint s)) [
      | inl e ↦ rw (good, nano, e) tt
      | inr (mag, e) ↦
          rw (good, nano, e)
            (signed_timestamp-IsValid neg mag (or_zero (parse_uint t)) (or_zero-lt t nano))
    ]
  ]
]

unsigned_text-IsValid : (neg : Bool) (s : Bytes) → Returns IsValid (unsigned_text neg s)
unfolding unsigned_text
unsigned_text-IsValid neg s = elim (Option-cases (cut b':' s)) [
  | inl e ↦ rw (unsigned_text, e) tt
  | inr (p, e) ↦ rw (unsigned_text, e) (timestamp_parts-IsValid neg p.0 p.1)
]

-- Every timestamp that `ParseTimestamp` returns is floor-normalised and fits in its fields.
pub parse_timestamp-IsValid : (s : Bytes) → Returns IsValid (parse_timestamp s)
unfolding parse_timestamp
parse_timestamp-IsValid [] = unsigned_text-IsValid false []
parse_timestamp-IsValid (c ∷ s) = elim (Bool-cases (c == b'-')) [
  | inl e ↦ rw e (unsigned_text-IsValid true s)
  | inr e ↦ rw e (unsigned_text-IsValid false (c ∷ s))
]

Result-cases :
    (r : Result ParseError Timestamp)
    → ((ts : Timestamp) × (r ≡ ok ts)) ⊎ ((e : ParseError) × (r ≡ err e))
Result-cases (ok ts) = inl (ts, refl)
Result-cases (err e) = inr (e, refl)

side-IsBound :
    (text : Bytes) (is_exclusive : Bool) → Returns (λ p. IsBound p.0 p.1) (side text is_exclusive)
unfolding side
side-IsBound [] x = tt
side-IsBound (c ∷ s) x = elim (Result-cases (parse_timestamp (c ∷ s))) [
  | inr (e, p) ↦ rw p tt
  | inl (ts, p) ↦ rw p (chosen ts x (rw p at (parse_timestamp-IsValid (c ∷ s))))
]
  where
    chosen :
        (ts : Timestamp) (x : Bool)
        → IsValid ts
        → IsBound (some ts) (if x then exclusive else inclusive)
    chosen ts true v = v
    chosen ts false v = v

separated-IsWellFormed :
    (start_mark end_mark : ℕ) (s t : Bytes)
    → Returns IsWellFormed (separated start_mark end_mark s t)
unfolding separated
separated-IsWellFormed m n s t =
    both (side s (m == b'(')) (side t (n == b')')) (side-IsBound s (m == b'('))
      (side-IsBound t (n == b')'))
  where
    both :
        (a b : Result ParseError (Option Timestamp × BoundType))
        → Returns (λ p. IsBound p.0 p.1) a
        → Returns (λ p. IsBound p.0 p.1) b
        → Returns IsWellFormed (do
          start ← a
          end ← b
          ok (record { start = start.0; start_type = start.1; end = end.0; end_type = end.1 }))
    both (err e) b v w = tt
    both (ok p) (err e) v w = tt
    both (ok p) (ok q) v w = inr (v, w)

instantaneous-IsWellFormed :
    (start_mark end_mark : ℕ) (s : Bytes)
    → Returns IsWellFormed (instantaneous start_mark end_mark s)
unfolding instantaneous
instantaneous-IsWellFormed m n [] = inl refl
instantaneous-IsWellFormed m n (c ∷ s) = elim (Bool-cases ((m == b'(') || (n == b')'))) [
  | inl e ↦ rw e tt
  | inr e ↦ elim (Result-cases (parse_timestamp (c ∷ s))) [
    | inr (x, p) ↦ rw (e, p) tt
    | inl (ts, p) ↦
        let v : IsValid ts = rw p at (parse_timestamp-IsValid (c ∷ s)) in rw (e, p) (inr (v, v))
  ]
]

-- Every range that `Parse` returns is well-formed: each bound is absent and unbounded, or a valid
-- timestamp with a marker, or the range is the special empty one.
pub parse-IsWellFormed : (s : Bytes) → Returns IsWellFormed (parse s)
unfolding parse parse_body
parse-IsWellFormed [] = tt
parse-IsWellFormed (c ∷ s) = body (start_marker (c ∷ s)).0 (end_marker (start_marker (c ∷ s)).1)
  where
    body : (m : ℕ) (p : Bytes × ℕ) → Returns IsWellFormed (parse_body m p)
    body m p = elim (Option-cases (cut b'_' p.0)) [
      | inl e ↦ rw (parse_body, e) (instantaneous-IsWellFormed m p.1 p.0)
      | inr (q, e) ↦ rw (parse_body, e) (separated-IsWellFormed m p.1 q.0 q.1)
    ]
