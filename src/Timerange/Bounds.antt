-- ===== src/Timerange/Bounds.antt =====
-- The bounds that `Intersect` chooses: the later start and the earlier end.
use open_tams.Prelude.{ltb, ◌==◌, ◌≡◌, Bool, true, ◌&&◌, ◌&&◌, Option, none, some, arith, refl}
use open_tams.Timerange.{
  Timestamp, BoundType, inclusive, exclusive, unbounded, Bound, before, equal, passes_start,
  passes_end, same_bound, later_start, earlier_end, choose,
}
use open_tams.Timerange.Order.{IsValid, rank, before-rank, equal-rank}
use open_tams.Timerange.Instants.{IsBound}

-- A bound that lets pass what two others let pass.
pub record Meets (passes : Option Timestamp → BoundType → Timestamp → Bool) (a b c : Bound)
    : Type 0 where
  pub valid : IsBound c.at c.kind
  pub both :
      (ts : Timestamp)
      → IsValid ts
      → passes c.at c.kind ts ≡ (passes a.at a.kind ts && passes b.at b.kind ts)

-- `before` and `equal` on three timestamps, by their ranks.
module _ (s s' ts : Timestamp) (v : IsValid s) (v' : IsValid s') (w : IsValid ts) where
  start_ranks :
      (before s s' ≡ ltb (rank s) (rank s'))
      × (before s' s ≡ ltb (rank s') (rank s))
      × (before ts s ≡ ltb (rank ts) (rank s))
      × (before ts s' ≡ ltb (rank ts) (rank s'))
      × (before s ts ≡ ltb (rank s) (rank ts))
      × (before s' ts ≡ ltb (rank s') (rank ts))
      × (equal ts s ≡ (rank ts == rank s))
      × (equal ts s' ≡ (rank ts == rank s'))
      × (equal s ts ≡ (rank s == rank ts))
      × (equal s' ts ≡ (rank s' == rank ts))
  start_ranks = (
    before-rank s s' v v',
    before-rank s' s v' v,
    before-rank ts s w v,
    before-rank ts s' w v',
    before-rank s ts v w,
    before-rank s' ts v' w,
    equal-rank ts s w v,
    equal-rank ts s' w v',
    equal-rank s ts v w,
    equal-rank s' ts v' w,
  )

later_start-valid :
    (s : Timestamp) (t : BoundType) (s' : Timestamp) (t' : BoundType)
    → IsBound (some s) t
    → IsBound (some s') t'
    → IsBound (later_start s t s' t').at (later_start s t s' t').kind
unfolding later_start
later_start-valid s unbounded s' _ v v' = absurd v
later_start-valid s _ s' unbounded v v' = absurd v'
later_start-valid s t s' t' v v' = ground arith

earlier_end-valid :
    (s : Timestamp) (t : BoundType) (s' : Timestamp) (t' : BoundType)
    → IsBound (some s) t
    → IsBound (some s') t'
    → IsBound (earlier_end s t s' t').at (earlier_end s t s' t').kind
unfolding earlier_end
earlier_end-valid s unbounded s' _ v v' = absurd v
earlier_end-valid s _ s' unbounded v v' = absurd v'
earlier_end-valid s t s' t' v v' = ground arith

later_start-both :
    (s : Timestamp) (t : BoundType) (s' : Timestamp) (t' : BoundType) (ts : Timestamp)
    → IsBound (some s) t
    → IsBound (some s') t'
    → IsValid ts
    → passes_start (later_start s t s' t').at (later_start s t s' t').kind ts
      ≡ (passes_start (some s) t ts && passes_start (some s') t' ts)
unfolding later_start passes_start
later_start-both s unbounded s' _ ts v v' w = absurd v
later_start-both s _ s' unbounded ts v v' w = absurd v'
later_start-both s t s' t' ts v v' w = ground (arith, start_ranks s s' ts v v' w)

earlier_end-both :
    (s : Timestamp) (t : BoundType) (s' : Timestamp) (t' : BoundType) (ts : Timestamp)
    → IsBound (some s) t
    → IsBound (some s') t'
    → IsValid ts
    → passes_end (earlier_end s t s' t').at (earlier_end s t s' t').kind ts
      ≡ (passes_end (some s) t ts && passes_end (some s') t' ts)
unfolding earlier_end passes_end
earlier_end-both s unbounded s' _ ts v v' w = absurd v
earlier_end-both s _ s' unbounded ts v v' w = absurd v'
earlier_end-both s t s' t' ts v v' w = ground (arith, start_ranks s s' ts v v' w)

-- What the two cases of `Intersect` have in common, over the bound check and the pick of the case.
module _ (passes : Option Timestamp → BoundType → Timestamp → Bool)
    (pick : Timestamp → BoundType → Timestamp → BoundType → Bound)
    (open_passes : (ts : Timestamp) → passes none unbounded ts ≡ true)
    (pick-valid : (s : Timestamp) (t : BoundType) (s' : Timestamp) (t' : BoundType)
      → IsBound (some s) t
      → IsBound (some s') t'
      → IsBound (pick s t s' t').at (pick s t s' t').kind)
    (pick-both : (s : Timestamp) (t : BoundType) (s' : Timestamp) (t' : BoundType) (ts : Timestamp)
      → IsBound (some s) t
      → IsBound (some s') t'
      → IsValid ts
      → passes (pick s t s' t').at (pick s t s' t').kind ts
        ≡ (passes (some s) t ts && passes (some s') t' ts)) where
  -- No nil pointer of a well-formed bound is dereferenced.
  choose-Meets :
      (o : Option Timestamp) (t : BoundType) (o' : Option Timestamp) (t' : BoundType)
      → IsBound o t
      → IsBound o' t'
      → (c : Bound) × (choose pick (record { at = o; kind = t }) (record { at = o'; kind = t' })
          ≡ some c)
        × Meets passes (record { at = o; kind = t }) (record { at = o'; kind = t' }) c
  unfolding choose same_bound
  choose-Meets none inclusive o' t' v v' = absurd v
  choose-Meets none exclusive o' t' v v' = absurd v
  choose-Meets none unbounded o' t' v v' = (
    record { at = o'; kind = t' },
    refl,
    record { valid = v'; both = λ ts w. ground (arith, open_passes ts) },
  )
  choose-Meets (some s) unbounded o' t' v v' = absurd v
  choose-Meets (some s) t none inclusive v v' = absurd v'
  choose-Meets (some s) t none exclusive v v' = absurd v'
  choose-Meets (some s) t none unbounded v v' = (
    record { at = some s; kind = t },
    refl,
    record { valid = v; both = λ ts w. ground (arith, open_passes ts) },
  )
  choose-Meets (some s) t (some s') unbounded v v' = absurd v'
  choose-Meets (some s) t (some s') t' v v' = (
    pick s t s' t',
    refl,
    record { valid = pick-valid s t s' t' v v'; both = λ ts w. pick-both s t s' t' ts v v' w },
  )

pub choose_start :
    (a b : Bound)
    → IsBound a.at a.kind
    → IsBound b.at b.kind
    → (c : Bound) × (choose later_start a b ≡ some c) × Meets passes_start a b c
unfolding passes_start
choose_start a b =
    choose-Meets passes_start later_start (λ ts. refl) later_start-valid later_start-both a.at
      a.kind b.at b.kind

pub choose_end :
    (a b : Bound)
    → IsBound a.at a.kind
    → IsBound b.at b.kind
    → (c : Bound) × (choose earlier_end a b ≡ some c) × Meets passes_end a b c
unfolding passes_end
choose_end a b =
    choose-Meets passes_end earlier_end (λ ts. refl) earlier_end-valid earlier_end-both a.at a.kind
      b.at b.kind
