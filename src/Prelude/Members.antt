-- ===== src/Prelude/Members.antt =====
-- The members of a list that is selected from and sorted.
use mathlib.Core.List.{Mem, Mem-prop, Perm, mem-cons, mem-cons_self, mem-cons_of_mem, not-mem-nil}
use mathlib.Core.List.Perm
use mathlib.Core.Logic.Or
use mathlib.Core.Bool.{Bool-set}
use open_tams.Prelude.Table.{exists}
use open_tams.Prelude.{
  ap, ◌∙◌, ◌≡◌, ◌↔◌, ◌∷◌, [], true, false, Bool, List, Bool-cases, inl, inr, refl, sym,
}
use open_tams.Prelude.Sort.{select, insert, sort}

module _ {ℓ} {A : Type ℓ} where
  select-Mem : (p : A → Bool) (xs : List A) {a : A} → Mem a (select p xs) → Mem a xs
  unfolding select
  select-Mem p [] m = m
  select-Mem p (x ∷ xs) m = elim (Bool-cases (p x)) [
    | inr e ↦ mem-cons_of_mem x (select-Mem p xs (rw e at m))
    | inl e ↦
        Or.elim Mem-prop (mem-cons.0 (rw e at m)) (λ q. rw q mem-cons_self)
          (λ k. mem-cons_of_mem x (select-Mem p xs k))
  ]

  select-passes : (p : A → Bool) (xs : List A) {a : A} → Mem a (select p xs) → p a ≡ true
  unfolding select
  select-passes p [] m = absurd (not-mem-nil m)
  select-passes p (x ∷ xs) m = elim (Bool-cases (p x)) [
    | inr e ↦ select-passes p xs (rw e at m)
    | inl e ↦
        Or.elim (Bool-set _ _) (mem-cons.0 (rw e at m)) (λ q. rw q e) (λ k. select-passes p xs k)
  ]

  Mem-select : (p : A → Bool) (xs : List A) {a : A} → Mem a xs → p a ≡ true → Mem a (select p xs)
  unfolding select
  Mem-select p [] m h = m
  Mem-select p (x ∷ xs) m h = elim (Bool-cases (p x)) [
    | inl e ↦ rw e (
        Or.elim Mem-prop (mem-cons.0 m) (λ q. rw q mem-cons_self)
          (λ k. mem-cons_of_mem x (Mem-select p xs k h)))
    | inr e ↦ rw e (
        Or.elim Mem-prop (mem-cons.0 m)
          (λ q. let t : true ≡ false = sym h ∙ ap p q ∙ e in absurd (cc))
          (λ k. Mem-select p xs k h))
  ]

  -- A `WHERE` keeps the members that it lets pass.
  pub mem-select :
      (p : A → Bool) (xs : List A) {a : A} → Mem a (select p xs) ↔ (Mem a xs × (p a ≡ true))
  mem-select p xs =
      ((λ m. (select-Mem p xs m, select-passes p xs m)), (λ h. Mem-select p xs h.0 h.1))

  -- The test on the rows of a subquery.
  exists-Mem : (p : A → Bool) (xs : List A) → exists p xs ≡ true → (x : A) × Mem x xs × (p x ≡ true)
  unfolding exists
  exists-Mem p [] h = absurd (cc)
  exists-Mem p (x ∷ xs) h = elim (Bool-cases (p x)) [
    | inl e ↦ (x, mem-cons_self, e)
    | inr e ↦ let (y, m, k) = exists-Mem p xs (rw e at h) in (y, mem-cons_of_mem x m, k)
  ]

  Mem-exists : (p : A → Bool) (xs : List A) (y : A) → Mem y xs → p y ≡ true → exists p xs ≡ true
  unfolding exists
  Mem-exists p [] y m h = absurd (not-mem-nil m)
  Mem-exists p (x ∷ xs) y m h = elim (Bool-cases (p x)) [
    | inl e ↦ rw e refl
    | inr e ↦ rw e (
        Or.elim (Bool-set _ _) (mem-cons.0 m)
          (λ q. let t : true ≡ false = sym h ∙ ap p q ∙ e in absurd (cc))
          (λ k. Mem-exists p xs y k h))
  ]

  pub exists_iff :
      (p : A → Bool) (xs : List A) → (exists p xs ≡ true) ↔ ((x : A) × Mem x xs × (p x ≡ true))
  exists_iff p xs = (exists-Mem p xs, λ h. Mem-exists p xs h.0 h.1 h.2)

  insert-perm : (lt : A → A → Bool) (x : A) (ys : List A) → Perm (insert lt x ys) (x ∷ ys)
  unfolding insert
  insert-perm lt x [] = Perm.refl (x ∷ [])
  insert-perm lt x (y ∷ ys) = elim (Bool-cases (lt y x)) [
    | inl e ↦ rw e (Perm.trans (Perm.cons y (insert-perm lt x ys)) (Perm.swap x y ys))
    | inr e ↦ rw e (Perm.refl (x ∷ y ∷ ys))
  ]

  -- An `ORDER BY` only moves the rows.
  pub sort-perm : (lt : A → A → Bool) (xs : List A) → Perm (sort lt xs) xs
  unfolding sort
  sort-perm lt [] = Perm.refl []
  sort-perm lt (x ∷ xs) = Perm.trans (insert-perm lt x (sort lt xs)) (Perm.cons x (sort-perm lt xs))

  pub mem-sort : (lt : A → A → Bool) (xs : List A) {a : A} → Mem a (sort lt xs) ↔ Mem a xs
  mem-sort lt xs = Perm.mem_iff (sort-perm lt xs)
