-- ===== src/Base/Sorting.antt =====
-- slices.SortStableFunc and slices.Compact of Go's standard library. A stable sort has one result,
-- which insertion from the back computes; slices.Sort on strings and integers gives the same.
use mathlib.Core.Path.{◌≡◌, refl, subst, sym}
use mathlib.Core.Logic.{◌⊎◌, inl, inr}
use mathlib.Core.Bool.{Bool, true, false}
use mathlib.Core.List.{List, [], ◌∷◌, Memᴰ}
use flareway.Base.Tests.{if◌then◌else◌, Bool-cases}
use flareway.Base.Classes.{Eq, ◌==◌}

module _ {ℓ} {A : Type ℓ} where
  -- `le a b` holds where the comparison of a with b is not positive.
  unfoldable pub insert : (A → A → Bool) → A → List A → List A
  insert le x [] = x ∷ []
  insert le x (y ∷ ys) = if le x y then x ∷ y ∷ ys else y ∷ insert le x ys

  unfoldable pub sort : (A → A → Bool) → List A → List A
  sort le [] = []
  sort le (x ∷ xs) = insert le x (sort le xs)

  -- Each element comes before all that follow it.
  abbrev pub IsSorted : (A → A → Bool) → List A → Type ℓ
  IsSorted le [] = Unit
  IsSorted le (x ∷ xs) = ((y : A) → Memᴰ y xs → le x y ≡ true) × IsSorted le xs

  insert_member :
      (le : A → A → Bool) (x y : A) (xs : List A) → Memᴰ y (insert le x xs) → (y ≡ x) ⊎ Memᴰ y xs
  unfolding insert
  insert_member le x y [] (Memᴰ.head e) = inl e
  insert_member le x y [] (Memᴰ.tail m) = elim m [ ]
  insert_member le x y (z ∷ zs) m = elim (Bool-cases (le x z)) [
    | inl e ↦ elim (rw (e, insert) at m) [ Memᴰ.head q ↦ inl q | Memᴰ.tail n ↦ inr n ]
    | inr e ↦ elim (rw (e, insert) at m) [
      | Memᴰ.head q ↦ inr (Memᴰ.head q)
      | Memᴰ.tail n ↦ elim (insert_member le x y zs n) [ inl q ↦ inl q | inr k ↦ inr (Memᴰ.tail k) ]
    ]
  ]

  insert_new : (le : A → A → Bool) (x : A) (xs : List A) → Memᴰ x (insert le x xs)
  unfolding insert
  insert_new le x [] = Memᴰ.head refl
  insert_new le x (z ∷ zs) = elim (Bool-cases (le x z)) [
    | inl e ↦ rw (e, insert) (Memᴰ.head refl)
    | inr e ↦ rw (e, insert) (Memᴰ.tail (insert_new le x zs))
  ]

  insert_old : (le : A → A → Bool) (x y : A) (xs : List A) → Memᴰ y xs → Memᴰ y (insert le x xs)
  unfolding insert
  insert_old le x y [] m = elim m [ ]
  insert_old le x y (z ∷ zs) m = elim (Bool-cases (le x z)) [
    | inl e ↦ rw (e, insert) (Memᴰ.tail m)
    | inr e ↦ rw (e, insert) (later m (insert_old le x y zs))
  ]
    where
      later : Memᴰ y (z ∷ zs) → (Memᴰ y zs → Memᴰ y (insert le x zs)) → Memᴰ y (z ∷ insert le x zs)
      later (Memᴰ.head q) f = Memᴰ.head q
      later (Memᴰ.tail n) f = Memᴰ.tail (f n)

  pub sort_member : (le : A → A → Bool) (y : A) (xs : List A) → Memᴰ y (sort le xs) → Memᴰ y xs
  unfolding sort
  sort_member le y [] m = m
  sort_member le y (x ∷ xs) m = elim (insert_member le x y (sort le xs) m) [
    | inl e ↦ Memᴰ.head e
    | inr n ↦ Memᴰ.tail (sort_member le y xs n)
  ]

  pub sort_complete : (le : A → A → Bool) (y : A) (xs : List A) → Memᴰ y xs → Memᴰ y (sort le xs)
  unfolding sort
  sort_complete le y [] m = m
  sort_complete le y (x ∷ xs) (Memᴰ.head e) =
      subst (λ z. Memᴰ z (insert le x (sort le xs))) (sym e) (insert_new le x (sort le xs))
  sort_complete le y (x ∷ xs) (Memᴰ.tail m) =
      insert_old le x y (sort le xs) (sort_complete le y xs m)

  module _ (le : A → A → Bool) (total : (a b : A) → le a b ≡ false → le b a ≡ true)
      (trans : (a b c : A) → le a b ≡ true → le b c ≡ true → le a c ≡ true) where
    insert-IsSorted : (x : A) (xs : List A) → IsSorted le xs → IsSorted le (insert le x xs)
    unfolding insert
    insert-IsSorted x [] s = (λ y m. elim m [ ], tt)
    insert-IsSorted x (z ∷ zs) s = elim (Bool-cases (le x z)) [
      | inl e ↦ rw (e, insert) (λ y m. above y e m, s)
      | inr e ↦
          rw (e, insert)
            (λ y m. below y (total x z e) (insert_member le x y zs m), insert-IsSorted x zs s.1)
    ]
      where
        above : (y : A) → le x z ≡ true → Memᴰ y (z ∷ zs) → le x y ≡ true
        above y l (Memᴰ.head e) = rw e l
        above y l (Memᴰ.tail n) = trans x z y l (s.0 y n)

        below : (y : A) → le z x ≡ true → (y ≡ x) ⊎ Memᴰ y zs → le z y ≡ true
        below y l (inl e) = rw e l
        below y l (inr n) = s.0 y n

    pub sort-IsSorted : (xs : List A) → IsSorted le (sort le xs)
    unfolding sort
    sort-IsSorted [] = tt
    sort-IsSorted (x ∷ xs) = insert-IsSorted x (sort le xs) (sort-IsSorted xs)

-- slices.Compact: a run of equal elements becomes its first.
module _ {ℓ} {A : Type ℓ} ⦃e : Eq A⦄ where
  unfoldable pub compact : List A → List A
  compact [] = []
  compact (x ∷ []) = x ∷ []
  compact (x ∷ y ∷ ys) = let rest = compact (y ∷ ys) in if x == y then rest else x ∷ rest
