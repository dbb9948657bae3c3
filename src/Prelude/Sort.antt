-- ===== src/Prelude/Sort.antt =====
-- Sorting by a strict order, as `ORDER BY` does, and the part of a sorted list behind an element.
use open_tams.Prelude.Tests.{if◌then◌else◌, Bool-cases}
use open_tams.Prelude.Bytes.{length}
use Prim.Native.Nat.{ℕ, zero, suc, ◌-◌, ◌≤◌, ◌<◌}
use mathlib.Core.Path.{◌≡◌, refl, ap, ◌∙◌}
use mathlib.Core.Logic.{◌⊎◌, inl, inr}
use mathlib.Core.Bool.{Bool, true, false, ◌&&◌}
use mathlib.Core.List.{List, [], ◌∷◌, ◌++◌}
use mathlib.Core.Option.{Option, none, some}
use native.Mathlib.Omega.{arith}

module _ {ℓ} {A : Type ℓ} where
  -- The rows that a `WHERE` lets pass.
  unfoldable pub select : (A → Bool) → List A → List A
  select p [] = []
  select p (x ∷ xs) = let rest = select p xs in if p x then x ∷ rest else rest

  abbrev pub take : ℕ → List A → List A
  take zero xs = []
  take (suc n) [] = []
  take (suc n) (x ∷ xs) = x ∷ take n xs

  abbrev pub drop : ℕ → List A → List A
  drop zero xs = xs
  drop (suc n) [] = []
  drop (suc n) (x ∷ xs) = drop n xs

  abbrev pub last? : List A → Option A
  last? [] = none
  last? (x ∷ xs) = elim (last? xs) [ none ↦ some x | some y ↦ some y ]

  abbrev pub All {κ} : (A → Type κ) → List A → Type κ
  All P [] = Unit
  All P (x ∷ xs) = P x × All P xs

  pub All-select {κ} :
      (P : A → Type κ) (p : A → Bool) (xs : List A) → All P xs → All P (select p xs)
  unfolding select
  All-select P p [] h = tt
  All-select P p (x ∷ xs) h = elim (Bool-cases (p x)) [
    | inl e ↦ rw e (h.0, All-select P p xs h.1)
    | inr e ↦ rw e (All-select P p xs h.1)
  ]

  pub All-map {κ μ} :
      (P : A → Type κ) (Q : A → Type μ) (xs : List A) → ((x : A) → P x → Q x) → All P xs → All Q xs
  All-map P Q [] f h = tt
  All-map P Q (x ∷ xs) f h = (f x h.0, All-map P Q xs f h.1)

  pub All-append {κ} : (P : A → Type κ) (xs ys : List A) → All P xs → All P ys → All P (xs ++ ys)
  All-append P [] ys h k = k
  All-append P (x ∷ xs) ys h k = (h.0, All-append P xs ys h.1 k)

  pub select-select :
      (p q : A → Bool) (xs : List A) → select p (select q xs) ≡ select (λ x. q x && p x) xs
  unfolding select
  select-select p q [] = refl
  select-select p q (x ∷ xs) = elim (Bool-cases (q x)) [
    | inl e ↦ elim (Bool-cases (p x)) [
      | inl d ↦ rw (e, d) (ap (λ l. x ∷ l) (select-select p q xs))
      | inr d ↦ rw (e, d) (select-select p q xs)
    ]
    | inr e ↦ rw e (select-select p q xs)
  ]

  pub take-drop : (n : ℕ) (xs : List A) → take n xs ++ drop n xs ≡ xs
  take-drop zero xs = refl
  take-drop (suc n) [] = refl
  take-drop (suc n) (x ∷ xs) = ap (λ l. x ∷ l) (take-drop n xs)

  pub take_all : (n : ℕ) (xs : List A) → length xs ≤ n → take n xs ≡ xs
  take_all zero [] h = refl
  take_all zero (x ∷ xs) h = absurd (omega arith)
  take_all (suc n) [] h = refl
  take_all (suc n) (x ∷ xs) h = ap (λ l. x ∷ l) (take_all n xs (omega arith))

  -- One row more than the page holds is read, to see whether there is another page.
  pub length-take-suc : (n : ℕ) (xs : List A) → n < length xs → length (take (suc n) xs) ≡ suc n
  length-take-suc zero [] h = absurd (omega arith)
  length-take-suc zero (x ∷ xs) h = refl
  length-take-suc (suc n) [] h = absurd (omega arith)
  length-take-suc (suc n) (x ∷ xs) h = ap suc (length-take-suc n xs (omega arith))

  pub take-take-suc : (n : ℕ) (xs : List A) → take n (take (suc n) xs) ≡ take n xs
  take-take-suc zero xs = refl
  take-take-suc (suc n) [] = refl
  take-take-suc (suc n) (x ∷ xs) = ap (λ l. x ∷ l) (take-take-suc n xs)

  pub length-drop_lt :
      (n : ℕ) (xs : List A) → 0 < n → n < length xs → length (drop n xs) < length xs
  length-drop_lt zero xs h k = absurd (omega arith)
  length-drop_lt (suc n) [] h k = absurd (omega arith)
  length-drop_lt (suc zero) (x ∷ xs) h k = omega arith
  length-drop_lt (suc (suc n)) (x ∷ xs) h k =
      omega (arith, length-drop_lt (suc n) xs (omega arith) (omega arith))

  pub last?-more : (x : A) (xs : List A) (y : A) → last? xs ≡ some y → last? (x ∷ xs) ≡ some y
  last?-more x xs y e = rw e

  -- A nonempty beginning has a last element.
  pub last?-cases :
      (x : A) (xs : List A)
      → (ys : List A) × (y : A) × (x ∷ xs ≡ ys ++ y ∷ []) × (last? (x ∷ xs) ≡ some y)
  last?-cases x [] = ([], x, refl, refl)
  last?-cases x (z ∷ zs) =
      let (ys, y, e, l) = last?-cases z zs in (x ∷ ys, y, ap (λ l. x ∷ l) e, rw l)

module _ {ℓ} {A : Type ℓ} (lt : A → A → Bool) where
  unfoldable pub insert : A → List A → List A
  insert x [] = x ∷ []
  insert x (y ∷ ys) = let rest = insert x ys in if lt y x then y ∷ rest else x ∷ y ∷ ys

  unfoldable pub sort : List A → List A
  unfolding insert
  sort [] = []
  sort (x ∷ xs) = insert x (sort xs)

  abbrev pub Comparable : A → A → Type 0
  Comparable x y = (lt x y ≡ true) ⊎ (lt y x ≡ true)

  -- Every two elements differ in the order.
  abbrev pub Distinct : List A → Type 0
  Distinct [] = Unit {0}
  Distinct (x ∷ xs) = All (Comparable x) xs × Distinct xs

  abbrev pub Strict : List A → Type 0
  Strict [] = Unit {0}
  Strict (x ∷ xs) = All (λ y. lt x y ≡ true) xs × Strict xs

pub record IsStrictOrder {ℓ} {A : Type ℓ} (lt : A → A → Bool) : Type ℓ where
  pub asym : (x y : A) → lt x y ≡ true → lt y x ≡ false
  pub trans : (x y z : A) → lt x y ≡ true → lt y z ≡ true → lt x z ≡ true

module _ {ℓ} {A : Type ℓ} (lt : A → A → Bool) (o : IsStrictOrder lt) where
  All-insert {κ} : (P : A → Type κ) (x : A) (ys : List A) → P x → All P ys → All P (insert lt x ys)
  unfolding insert
  All-insert P x [] h k = (h, tt)
  All-insert P x (y ∷ ys) h k = elim (Bool-cases (lt y x)) [
    | inl e ↦ rw e (k.0, All-insert P x ys h k.1)
    | inr e ↦ rw e (h, k)
  ]

  pub All-sort {κ} : (P : A → Type κ) (xs : List A) → All P xs → All P (sort lt xs)
  unfolding sort
  All-sort P [] h = tt
  All-sort P (x ∷ xs) h = All-insert P x (sort lt xs) h.0 (All-sort P xs h.1)

  insert-Strict :
      (x : A) (ys : List A) → All (Comparable lt x) ys → Strict lt ys → Strict lt (insert lt x ys)
  unfolding insert
  insert-Strict x [] c s = (tt, tt)
  insert-Strict x (y ∷ ys) c s = elim (Bool-cases (lt y x)) [
    | inl e ↦ rw e (All-insert (λ z. lt y z ≡ true) x ys e s.0, insert-Strict x ys c.1 s.1)
    | inr e ↦
        let h : lt x y ≡ true = elim c.0 [ inl h ↦ h | inr h ↦ absurd (ground arith) ] in
        rw e ((h, All-map _ _ ys (λ z k. o.trans x y z h k) s.0), s)
  ]

  pub sort-Strict : (xs : List A) → Distinct lt xs → Strict lt (sort lt xs)
  unfolding sort
  sort-Strict [] d = tt
  sort-Strict (x ∷ xs) d =
      insert-Strict x (sort lt xs) (All-sort (Comparable lt x) xs d.0) (sort-Strict xs d.1)

  pub Distinct-select : (p : A → Bool) (xs : List A) → Distinct lt xs → Distinct lt (select p xs)
  unfolding select
  Distinct-select p [] d = tt
  Distinct-select p (x ∷ xs) d = elim (Bool-cases (p x)) [
    | inl e ↦ rw e (All-select (Comparable lt x) p xs d.0, Distinct-select p xs d.1)
    | inr e ↦ rw e (Distinct-select p xs d.1)
  ]

  insert_least : (x : A) (ys : List A) → All (λ y. lt x y ≡ true) ys → insert lt x ys ≡ x ∷ ys
  unfolding insert
  insert_least x [] h = refl
  insert_least x (y ∷ ys) h = rw (o.asym x y h.0)

  select-insert :
      (p : A → Bool) (x : A) (ys : List A)
      → All (Comparable lt x) ys
      → Strict lt ys
      → select p (insert lt x ys) ≡ (if p x then insert lt x (select p ys) else select p ys)
  unfolding select insert
  select-insert p x [] c s = refl
  select-insert p x (y ∷ ys) c s = elim (Bool-cases (lt y x)) [
    | inl e ↦ ground (arith, select-insert p x ys c.1 s.1)
    | inr e ↦
        let h : lt x y ≡ true = elim c.0 [ inl h ↦ h | inr h ↦ absurd (ground arith) ] in
        let least =
          insert_least x (select p ys) (
            All-select (λ z. lt x z ≡ true) p ys (All-map _ _ ys (λ z k. o.trans x y z h k) s.0)) in
        ground (arith, least)
  ]

  -- Selecting and sorting commute.
  pub select-sort :
      (p : A → Bool) (xs : List A) → Distinct lt xs → select p (sort lt xs) ≡ sort lt (select p xs)
  unfolding select sort
  select-sort p [] d = refl
  select-sort p (x ∷ xs) d =
      select-insert p x (sort lt xs) (All-sort (Comparable lt x) xs d.0) (sort-Strict xs d.1)
      ∙ elim (Bool-cases (p x)) [
        | inl e ↦ rw (e, select-sort p xs d.1) refl
        | inr e ↦ rw (e, select-sort p xs d.1) refl
      ]

  select_every : (r : A) (ys : List A) → All (λ y. lt r y ≡ true) ys → select (lt r) ys ≡ ys
  unfolding select
  select_every r [] h = refl
  select_every r (y ∷ ys) h = rw (h.0, select_every r ys h.1)

  pub Strict-at :
      (x : A) (xs : List A) (r : A) (ys : List A)
      → All (λ y. lt x y ≡ true) (xs ++ r ∷ ys)
      → lt x r ≡ true
  Strict-at x [] r ys h = h.0
  Strict-at x (z ∷ xs) r ys h = Strict-at x xs r ys h.1

  -- What stands behind an element of a sorted list.
  pub select_beyond :
      (xs : List A) (r : A) (ys : List A)
      → Strict lt (xs ++ r ∷ ys)
      → select (lt r) (xs ++ r ∷ ys) ≡ ys
  unfolding select
  select_beyond [] r ys s = rw (irreflexive r) (select_every r ys s.0)
    where
      irreflexive : (r : A) → lt r r ≡ false
      irreflexive r = elim (Bool-cases (lt r r)) [ inl e ↦ o.asym r r e | inr e ↦ e ]
  select_beyond (x ∷ xs) r ys s =
      rw (o.asym x r (Strict-at x xs r ys s.0)) (select_beyond xs r ys s.1)

  pub Strict-suffix : (xs ys : List A) → Strict lt (xs ++ ys) → Strict lt ys
  Strict-suffix [] ys s = s
  Strict-suffix (x ∷ xs) ys s = Strict-suffix xs ys s.1

pub All-at {ℓ κ} :
    {A : Type ℓ} (P : A → Type κ) (xs : List A) (r : A) (ys : List A) → All P (xs ++ r ∷ ys) → P r
All-at P [] r ys h = h.0
All-at P (x ∷ xs) r ys h = All-at P xs r ys h.1

pub length-drop {ℓ} : {A : Type ℓ} (n : ℕ) (xs : List A) → length (drop n xs) ≡ length xs - n
length-drop zero xs = omega arith
length-drop (suc n) [] = omega arith
length-drop (suc n) (x ∷ xs) = omega (arith, length-drop n xs)
