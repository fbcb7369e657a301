-- ===== src/Base/Maps.antt =====
-- Go maps as association lists, read and written through an `Eq` on the keys. `range` visits the
-- keys and reads each again, so what a loop finds is what a lookup finds.
use mathlib.Core.Path.{◌≡◌, refl}
use mathlib.Core.Bool.{Bool, true, false, ◌&&◌, ◌||◌}
use mathlib.Core.Option.{Option, none, some}
use mathlib.Core.List.{List, [], ◌∷◌}
use native.Mathlib.Omega.{arith}
use mathlib.Core.Logic.{inl, inr}
use flareway.Base.Tests.{if◌then◌else◌, Bool-cases, Option-cases}
use flareway.Base.Classes.{Eq, ◌==◌}

abbrev pub Map {ℓ κ} : Type ℓ → Type κ → Type (ℓ ⊔ κ)
Map K V = List (K × V)

module _ {ℓ κ} {K : Type ℓ} {V : Type κ} ⦃e : Eq K⦄ where
  unfoldable pub get : K → Map K V → Option V
  get k [] = none
  get k ((j, v) ∷ m) = if j == k then some v else get k m

  unfoldable pub put : K → V → Map K V → Map K V
  put k v [] = (k, v) ∷ []
  put k v ((j, w) ∷ m) = if j == k then (k, v) ∷ m else (j, w) ∷ put k v m

  unfoldable pub delete : K → Map K V → Map K V
  delete k [] = []
  delete k ((j, w) ∷ m) = if j == k then delete k m else (j, w) ∷ delete k m

  pub get-put :
      (k j : K) (v : V) (m : Map K V) → get j (put k v m) ≡ (if k == j then some v else get j m)
  unfolding get put
  get-put k j v [] = refl
  get-put k j v ((i, w) ∷ m) =
      ground (arith, e.equal_iff k j, e.equal_iff i k, e.equal_iff i j, get-put k j v m)

  pub get-delete : (k j : K) (m : Map K V) → get j (delete k m) ≡ (if k == j then none else get j m)
  unfolding get delete
  get-delete k j [] = ground arith
  get-delete k j ((i, w) ∷ m) =
      ground (arith, e.equal_iff k j, e.equal_iff i k, e.equal_iff i j, get-delete k j m)

  visit : (K → V → Bool) → K → Option V → Bool
  visit p k none = true
  visit p k (some v) = p k v

  -- The loop `for k, v := range m` over the entries of `within`, all of which must pass.
  every_in : (K → V → Bool) → Map K V → Map K V → Bool
  unfolding visit
  every_in p within [] = true
  every_in p within ((k, _) ∷ m) = visit p k (get k within) && every_in p within m

  unfoldable pub every : (K → V → Bool) → Map K V → Bool
  unfolding every_in
  every p m = every_in p m m

  every_in_sound :
      (p : K → V → Bool) (within m : Map K V) (k : K) (v w : V)
      → every_in p within m ≡ true
      → get k m ≡ some w
      → get k within ≡ some v
      → p k v ≡ true
  unfolding every_in get
  every_in_sound p within [] k v w h g r = ground arith
  every_in_sound p within ((j, u) ∷ m) k v w h g r = elim (Bool-cases (j == k)) [
    | inl same ↦ ground (arith, e.equal_iff j k)
    | inr other ↦ every_in_sound p within m k v w (ground arith) (ground arith) r
  ]

  pub every_sound :
      (p : K → V → Bool) (m : Map K V) (k : K) (v : V)
      → every p m ≡ true
      → get k m ≡ some v
      → p k v ≡ true
  unfolding every
  every_sound p m k v h g = every_in_sound p m m k v v h g g

  every_in_complete :
      (p : K → V → Bool) (within m : Map K V)
      → ((k : K) (v : V) → get k within ≡ some v → p k v ≡ true)
      → every_in p within m ≡ true
  unfolding every_in
  every_in_complete p within [] h = refl
  every_in_complete p within ((k, u) ∷ m) h = elim (Option-cases (get k within)) [
    | inl e ↦ ground (arith, every_in_complete p within m h)
    | inr (v, e) ↦ ground (arith, h k v e, every_in_complete p within m h)
  ]

  pub every_complete :
      (p : K → V → Bool) (m : Map K V)
      → ((k : K) (v : V) → get k m ≡ some v → p k v ≡ true)
      → every p m ≡ true
  unfolding every
  every_complete p m h = every_in_complete p m m h

  meets : (K → V → Bool) → K → Option V → Bool
  meets p k none = false
  meets p k (some v) = p k v

  exists_in : (K → V → Bool) → Map K V → Map K V → Bool
  unfolding meets
  exists_in p within [] = false
  exists_in p within ((k, _) ∷ m) = meets p k (get k within) || exists_in p within m

  -- The loop `for k, v := range m` that returns at the first entry that passes.
  unfoldable pub exists : (K → V → Bool) → Map K V → Bool
  unfolding exists_in
  exists p m = exists_in p m m

  exists_in_sound :
      (p : K → V → Bool) (within m : Map K V)
      → exists_in p within m ≡ true
      → (k : K) × (v : V) × (get k within ≡ some v) × (p k v ≡ true)
  unfolding exists_in
  exists_in_sound p within [] h = ground arith
  exists_in_sound p within ((k, u) ∷ m) h = elim (Option-cases (get k within)) [
    | inl e ↦ exists_in_sound p within m (rw e at h)
    | inr (v, e) ↦ elim (Bool-cases (p k v)) [
      | inl q ↦ (k, v, e, q)
      | inr q ↦ exists_in_sound p within m (rw q at (rw e at h))
    ]
  ]

  pub exists_sound :
      (p : K → V → Bool) (m : Map K V)
      → exists p m ≡ true
      → (k : K) × (v : V) × (get k m ≡ some v) × (p k v ≡ true)
  unfolding exists
  exists_sound p m h = exists_in_sound p m m h

  exists_in_complete :
      (p : K → V → Bool) (within m : Map K V) (k : K) (v w : V)
      → get k m ≡ some w
      → get k within ≡ some v
      → p k v ≡ true
      → exists_in p within m ≡ true
  unfolding exists_in get
  exists_in_complete p within [] k v w g r h = ground arith
  exists_in_complete p within ((j, u) ∷ m) k v w g r h = elim (Bool-cases (j == k)) [
    | inl same ↦ ground (arith, e.equal_iff j k)
    | inr other ↦ ground (arith, exists_in_complete p within m k v w (ground arith) r h)
  ]

  pub exists_complete :
      (p : K → V → Bool) (m : Map K V) (k : K) (v : V)
      → get k m ≡ some v
      → p k v ≡ true
      → exists p m ≡ true
  unfolding exists
  exists_complete p m k v g h = exists_in_complete p m m k v v g g h
