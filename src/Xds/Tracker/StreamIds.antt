-- ===== src/Xds/Tracker/StreamIds.antt =====
-- That internal/xds/server/tracker.go keeps the numbers of streams sorted.
use mathlib.Core.List.{Memᴰ}
use flareway.Base.{
  ℕ, ◌<◌, ◌≡◌, ◌⊎◌, inl, inr, refl, List, [], ◌∷◌, arith, nat_beq, nat_beq_iff, ltb, Bool-cases,
}
use flareway.Base.Classes.{string_eq, nat_eq, option_eq}
use flareway.Xds.Tracker.Details.{insert_id}

-- Ascending, each number once.
abbrev pub Sorted : List ℕ → Type 0
Sorted [] = Unit
Sorted (x ∷ xs) = ((y : ℕ) → Memᴰ y xs → x < y) × Sorted xs

pub insert_member : (x y : ℕ) (xs : List ℕ) → Memᴰ y (insert_id x xs) → (y ≡ x) ⊎ Memᴰ y xs
unfolding insert_id
insert_member x y [] (Memᴰ.head e) = inl e
insert_member x y [] (Memᴰ.tail m) = elim m [ ]
insert_member x y (z ∷ zs) m = elim (Bool-cases (ltb x z)) [
  | inl a ↦ elim (rw a at m) [ Memᴰ.head e ↦ inl e | Memᴰ.tail n ↦ inr n ]
  | inr a ↦ elim (Bool-cases (nat_beq x z)) [
    | inl b ↦ inr (rw (a, b) at m)
    | inr b ↦ elim (rw (a, b) at m) [
      | Memᴰ.head e ↦ inr (Memᴰ.head e)
      | Memᴰ.tail n ↦ elim (insert_member x y zs n) [ inl e ↦ inl e | inr k ↦ inr (Memᴰ.tail k) ]
    ]
  ]
]

pub insert_self : (x : ℕ) (xs : List ℕ) → Memᴰ x (insert_id x xs)
unfolding insert_id
insert_self x [] = Memᴰ.head refl
insert_self x (z ∷ zs) = elim (Bool-cases (ltb x z)) [
  | inl a ↦ rw a (Memᴰ.head refl)
  | inr a ↦ elim (Bool-cases (nat_beq x z)) [
    | inl b ↦ rw (a, b) (Memᴰ.head ((nat_beq_iff x z).0 b))
    | inr b ↦ rw (a, b) (Memᴰ.tail (insert_self x zs))
  ]
]

pub insert_keeps : (x y : ℕ) (xs : List ℕ) → Memᴰ y xs → Memᴰ y (insert_id x xs)
unfolding insert_id
insert_keeps x y [] m = elim m [ ]
insert_keeps x y (z ∷ zs) m = elim (Bool-cases (ltb x z)) [
  | inl a ↦ rw a (Memᴰ.tail m)
  | inr a ↦ elim (Bool-cases (nat_beq x z)) [
    | inl b ↦ rw (a, b) m
    | inr b ↦
        rw (a, b)
          (elim m [ Memᴰ.head e ↦ Memᴰ.head e | Memᴰ.tail n ↦ Memᴰ.tail (insert_keeps x y zs n) ])
  ]
]

pub insert-Sorted : (x : ℕ) (xs : List ℕ) → Sorted xs → Sorted (insert_id x xs)
unfolding insert_id
insert-Sorted x [] s = (λ y m. elim m [ ], tt)
insert-Sorted x (z ∷ zs) s = elim (Bool-cases (ltb x z)) [
  | inl a ↦ rw a (λ y m. above y (ground arith) m, s)
  | inr a ↦ elim (Bool-cases (nat_beq x z)) [
    | inl b ↦ rw (a, b) s
    | inr b ↦
        rw (a, b) (λ y m. below y (ground arith) (insert_member x y zs m), insert-Sorted x zs s.1)
  ]
]
  where
    above : (y : ℕ) → x < z → Memᴰ y (z ∷ zs) → x < y
    above y l (Memᴰ.head e) = omega arith
    above y l (Memᴰ.tail n) = omega (arith, s.0 y n)

    below : (y : ℕ) → z < x → (y ≡ x) ⊎ Memᴰ y zs → z < y
    below y l (inl e) = omega arith
    below y l (inr n) = s.0 y n
