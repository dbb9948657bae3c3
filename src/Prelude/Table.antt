-- ===== src/Prelude/Table.antt =====
-- Tables as lists of rows: the SQL statements that the stores make, by a test on a row.
use open_tams.Prelude.Tests.{if◌then◌else◌, Bool-cases}
use open_tams.Prelude.Sort.{All}
use mathlib.Core.Path.{◌≡◌, refl, ap, subst}
use mathlib.Core.Logic.{◌⊎◌, inl, inr}
use mathlib.Core.Bool.{Bool, true, false}
use mathlib.Core.List.{List, [], ◌∷◌, ◌++◌}
use mathlib.Core.Option.{Option, none, some}
use native.Mathlib.Omega.{arith}

module _ {ℓ} {A : Type ℓ} where
  -- `SELECT … WHERE …` of one row.
  unfoldable pub find : (A → Bool) → List A → Option A
  find p [] = none
  find p (x ∷ xs) = if p x then some x else find p xs

  -- `SELECT EXISTS(SELECT 1 … WHERE …)`.
  unfoldable pub exists : (A → Bool) → List A → Bool
  exists p [] = false
  exists p (x ∷ xs) = if p x then true else exists p xs

  -- `UPDATE … SET … WHERE …` and `DELETE … WHERE …`.
  unfoldable pub update : (A → Bool) → (A → A) → List A → List A
  update p f [] = []
  update p f (x ∷ xs) = (if p x then f x else x) ∷ update p f xs

  unfoldable pub remove : (A → Bool) → List A → List A
  remove p [] = []
  remove p (x ∷ xs) = let rest = remove p xs in if p x then rest else x ∷ rest

  -- `INSERT … ON CONFLICT … DO UPDATE`: the row that conflicts is changed, or the new one added.
  unfoldable pub upsert : (A → Bool) → (A → A) → A → List A → List A
  upsert p f new [] = new ∷ []
  upsert p f new (x ∷ xs) = let rest = upsert p f new xs in if p x then f x ∷ xs else x ∷ rest

  pub All-remove {κ} :
      (P : A → Type κ) (p : A → Bool) (xs : List A) → All P xs → All P (remove p xs)
  unfolding remove
  All-remove P p [] h = tt
  All-remove P p (x ∷ xs) h = elim (Bool-cases (p x)) [
    | inl e ↦ rw e (All-remove P p xs h.1)
    | inr e ↦ rw e (h.0, All-remove P p xs h.1)
  ]

  -- The rows that stay also do not pass the test.
  pub All-remove_others {κ μ} :
      (P : A → Type κ) (Q : A → Type μ) (p : A → Bool) (xs : List A)
      → ((x : A) → p x ≡ false → P x → Q x)
      → All P xs
      → All Q (remove p xs)
  unfolding remove
  All-remove_others P Q p [] f h = tt
  All-remove_others P Q p (x ∷ xs) f h = elim (Bool-cases (p x)) [
    | inl e ↦ rw e (All-remove_others P Q p xs f h.1)
    | inr e ↦ rw e (f x e h.0, All-remove_others P Q p xs f h.1)
  ]

  pub All-update {κ} :
      (P : A → Type κ) (p : A → Bool) (f : A → A) (xs : List A)
      → ((x : A) → P x → P (f x))
      → All P xs
      → All P (update p f xs)
  unfolding update
  All-update P p f [] g h = tt
  All-update P p f (x ∷ xs) g h = elim (Bool-cases (p x)) [
    | inl e ↦ rw e (g x h.0, All-update P p f xs g h.1)
    | inr e ↦ rw e (h.0, All-update P p f xs g h.1)
  ]

  pub All-upsert {κ} :
      (P : A → Type κ) (p : A → Bool) (f : A → A) (new : A) (xs : List A)
      → ((x : A) → P x → P (f x))
      → P new
      → All P xs
      → All P (upsert p f new xs)
  unfolding upsert
  All-upsert P p f new [] g n h = (n, tt)
  All-upsert P p f new (x ∷ xs) g n h = elim (Bool-cases (p x)) [
    | inl e ↦ rw e (g x h.0, h.1)
    | inr e ↦ rw e (h.0, All-upsert P p f new xs g n h.1)
  ]

  pub find-update_same :
      (p : A → Bool) (f : A → A) (xs : List A) (x : A)
      → ((y : A) → p y ≡ true → p (f y) ≡ true)
      → find p xs ≡ some x
      → find p (update p f xs) ≡ some (f x)
  unfolding find update
  find-update_same p f [] x k e = absurd (cc)
  find-update_same p f (y ∷ ys) x k e = elim (Bool-cases (p y)) [
    | inl t ↦ rw (t, k y t) (ground arith)
    | inr t ↦ rw (t, t) (find-update_same p f ys x k (rw t at e))
  ]

  -- An update of rows that another test does not see, and keeps out of its sight, changes nothing for it.
  pub find-update_other :
      (q p : A → Bool) (f : A → A) (xs : List A)
      → ((y : A) → p y ≡ true → q y ≡ false)
      → ((y : A) → q y ≡ false → q (f y) ≡ false)
      → find q (update p f xs) ≡ find q xs
  unfolding find update
  find-update_other q p f [] d k = refl
  find-update_other q p f (y ∷ ys) d k = elim (Bool-cases (p y)) [
    | inl t ↦ rw (t, k y (d y t), d y t) (find-update_other q p f ys d k)
    | inr t ↦ rw (t, find-update_other q p f ys d k) refl
  ]

  pub find-remove_other :
      (q p : A → Bool) (xs : List A)
      → ((y : A) → p y ≡ true → q y ≡ false)
      → find q (remove p xs) ≡ find q xs
  unfolding find remove
  find-remove_other q p [] d = refl
  find-remove_other q p (y ∷ ys) d = elim (Bool-cases (p y)) [
    | inl t ↦ rw (t, d y t) (find-remove_other q p ys d)
    | inr t ↦ rw (t, find-remove_other q p ys d) refl
  ]

  pub find-remove_same : (p : A → Bool) (xs : List A) → find p (remove p xs) ≡ none
  unfolding find remove
  find-remove_same p [] = refl
  find-remove_same p (y ∷ ys) = elim (Bool-cases (p y)) [
    | inl t ↦ rw t (find-remove_same p ys)
    | inr t ↦ rw (t, t) (find-remove_same p ys)
  ]

  pub exists-find : (p : A → Bool) (xs : List A) (x : A) → find p xs ≡ some x → exists p xs ≡ true
  unfolding find exists
  exists-find p [] x e = absurd (cc)
  exists-find p (y ∷ ys) x e = elim (Bool-cases (p y)) [
    | inl t ↦ rw t
    | inr t ↦ rw t (exists-find p ys x (rw t at e))
  ]

  pub exists-find-none : (p : A → Bool) (xs : List A) → find p xs ≡ none → exists p xs ≡ false
  unfolding find exists
  exists-find-none p [] e = refl
  exists-find-none p (y ∷ ys) e = elim (Bool-cases (p y)) [
    | inl t ↦ absurd (ground arith)
    | inr t ↦ rw t (exists-find-none p ys (rw t at e))
  ]

  pub exists-update :
      (q p : A → Bool) (f : A → A) (xs : List A)
      → ((y : A) → q (f y) ≡ q y)
      → exists q (update p f xs) ≡ exists q xs
  unfolding exists update
  exists-update q p f [] k = refl
  exists-update q p f (y ∷ ys) k = elim (Bool-cases (p y)) [
    | inl t ↦ rw (t, k y, exists-update q p f ys k) refl
    | inr t ↦ rw (t, exists-update q p f ys k) refl
  ]

  pub exists-append :
      (q : A → Bool) (xs ys : List A) → exists q xs ≡ true → exists q (xs ++ ys) ≡ true
  unfolding exists
  exists-append q [] ys e = absurd (cc)
  exists-append q (x ∷ xs) ys e = elim (Bool-cases (q x)) [
    | inl t ↦ rw t
    | inr t ↦ rw t (exists-append q xs ys (rw t at e))
  ]

  pub exists-remove_other :
      (q p : A → Bool) (xs : List A)
      → ((y : A) → p y ≡ true → q y ≡ false)
      → exists q (remove p xs) ≡ exists q xs
  unfolding exists remove
  exists-remove_other q p [] d = refl
  exists-remove_other q p (y ∷ ys) d = elim (Bool-cases (p y)) [
    | inl t ↦ rw (t, d y t) (exists-remove_other q p ys d)
    | inr t ↦ rw (t, exists-remove_other q p ys d) refl
  ]

  pub find-append :
      (q : A → Bool) (xs ys : List A) (x : A) → find q xs ≡ some x → find q (xs ++ ys) ≡ some x
  unfolding find
  find-append q [] ys x e = absurd (cc)
  find-append q (y ∷ xs) ys x e = elim (Bool-cases (q y)) [
    | inl t ↦ rw t (rw t at e)
    | inr t ↦ rw t (find-append q xs ys x (rw t at e))
  ]

  pub find-append_none :
      (q : A → Bool) (xs ys : List A) → find q xs ≡ none → find q (xs ++ ys) ≡ find q ys
  unfolding find
  find-append_none q [] ys e = refl
  find-append_none q (y ∷ xs) ys e = elim (Bool-cases (q y)) [
    | inl t ↦ absurd (ground arith)
    | inr t ↦ rw t (find-append_none q xs ys (rw t at e))
  ]

  -- What is found passes the test, and holds what all rows do.
  pub find-passes : (q : A → Bool) (xs : List A) (x : A) → find q xs ≡ some x → q x ≡ true
  unfolding find
  find-passes q [] x e = absurd (cc)
  find-passes q (y ∷ xs) x e = elim (Bool-cases (q y)) [
    | inl t ↦ ground arith
    | inr t ↦ find-passes q xs x (rw t at e)
  ]

  pub All-find {κ} :
      (P : A → Type κ) (q : A → Bool) (xs : List A) (x : A) → find q xs ≡ some x → All P xs → P x
  unfolding find
  All-find P q [] x e h = absurd (cc)
  All-find P q (y ∷ xs) x e h = elim (Bool-cases (q y)) [
    | inl t ↦ let same : y ≡ x = ground arith in subst P same h.0
    | inr t ↦ All-find P q xs x (rw t at e) h.1
  ]

  pub exists-cases :
      (q : A → Bool) (xs : List A) → exists q xs ≡ true → (x : A) × (find q xs ≡ some x)
  unfolding find exists
  exists-cases q [] e = absurd (cc)
  exists-cases q (y ∷ ys) e = elim (Bool-cases (q y)) [
    | inl t ↦ (y, rw t)
    | inr t ↦ let (x, k) = exists-cases q ys (rw t at e) in (x, rw t k)
  ]

  -- A change that the test does not see keeps what is found, changed or not.
  pub find-update_each :
      (q p : A → Bool) (f : A → A) (xs : List A) (x : A)
      → ((y : A) → q (f y) ≡ q y)
      → find q xs ≡ some x
      → (z : A) × (find q (update p f xs) ≡ some z) × ((z ≡ x) ⊎ (z ≡ f x))
  unfolding find update
  find-update_each q p f [] x k e = absurd (cc)
  find-update_each q p f (y ∷ ys) x k e = elim (Bool-cases (q y)) [
    | inr t ↦
        let (z, g, o) = find-update_each q p f ys x k (rw t at e) in
        elim (Bool-cases (p y)) [ inl u ↦ (z, rw (u, k y, t) g, o) | inr u ↦ (z, rw (u, t) g, o) ]
    | inl t ↦
        let same : y ≡ x = ground arith in
        elim (Bool-cases (p y)) [
          | inl u ↦ (f y, rw (u, k y, t) refl, inr (ap f same))
          | inr u ↦ (y, rw (u, t) refl, inl same)
        ]
  ]
