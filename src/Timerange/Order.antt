-- ===== src/Timerange/Order.antt =====
-- The order of timestamps: each valid one has a rank, its distance in nanoseconds from the first
-- int64 second, and `before`, `equal` and `next` are those of the ranks.
use open_tams.Prelude.{ℕ, ◌+◌, ◌-◌, ◌*◌, ◌^◌, ◌<◌, ◌≤◌, ◌≡◌, arith, ltb, ◌==◌}
use open_tams.Prelude.Int.{ℤ, FitsInt64, pos_part, neg_part, int64, ◌+ℤ◌}
use open_tams.Timerange.{Timestamp, ns_per_sec, before, next, equal}

-- Seconds fit in an int64, nanoseconds lie in [0, 999_999_999].
pub record IsValid (ts : Timestamp) : Type 0 where
  pub fits : FitsInt64 ts.seconds
  pub nonneg : neg_part ts.nanoseconds ≡ 0
  pub below : pos_part ts.nanoseconds < ns_per_sec

-- The seconds counted from the first int64.
abbrev pub offset : ℤ → ℕ
offset z = 2 ^ 63 + pos_part z - neg_part z

unfoldable pub rank : Timestamp → ℕ
rank ts = offset ts.seconds * ns_per_sec + pos_part ts.nanoseconds

abbrev pub top_rank : ℕ
top_rank = 2 ^ 64 * ns_per_sec - 1

pub before-rank : (a b : Timestamp) → IsValid a → IsValid b → before a b ≡ ltb (rank a) (rank b)
unfolding before rank
before-rank a b va vb = ground arith

pub equal-rank : (a b : Timestamp) → IsValid a → IsValid b → equal a b ≡ (rank a == rank b)
unfolding equal rank
equal-rank a b va vb = ground arith

pub rank_bound : (a : Timestamp) → IsValid a → rank a ≤ top_rank
unfolding rank
rank_bound a va = omega arith

pub next-IsValid : (a : Timestamp) → IsValid a → rank a < top_rank → IsValid (next a)
unfolding next rank int64 ◌+ℤ◌
next-IsValid a va h = ground arith

pub rank-next : (a : Timestamp) → IsValid a → rank a < top_rank → rank (next a) ≡ rank a + 1
unfolding next rank int64 ◌+ℤ◌
rank-next a va h = ground arith
