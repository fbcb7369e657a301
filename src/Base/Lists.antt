-- ===== src/Base/Lists.antt =====
-- Lists measured by native numbers, and Boolean searches over them.
use Prim.Native.Nat.{ℕ, suc, ◌+◌}
use mathlib.Core.Path.{◌≡◌, refl, ap, sym, ◌∙◌}
use mathlib.Core.Logic.{inl, inr, ◌⊎◌}
use mathlib.Core.Bool.{Bool, true, false, ◌&&◌, ◌||◌}
use mathlib.Core.List.{List, [], ◌∷◌, ◌++◌, Memᴰ}
use native.Mathlib.Omega.{arith}
use flareway.Base.Tests.{Bool-cases}

module _ {ℓ} {A : Type ℓ} where
  abbrev pub length : List A → ℕ
  length [] = 0
  length (x ∷ xs) = suc (length xs)

  pub length-append : (xs ys : List A) → length (xs ++ ys) ≡ length xs + length ys
  length-append [] ys = omega arith
  length-append (x ∷ xs) ys = omega (arith, length-append xs ys)

  abbrev pub any : (A → Bool) → List A → Bool
  any p [] = false
  any p (x ∷ xs) = p x || any p xs

  abbrev pub all : (A → Bool) → List A → Bool
  all p [] = true
  all p (x ∷ xs) = p x && all p xs

  abbrev pub keep : (A → Bool) → List A → List A
  keep p [] = []
  keep p (x ∷ xs) = let rest = keep p xs in elim (p x) [ true ↦ x ∷ rest | false ↦ rest ]

  pub any_sound :
      (p : A → Bool) (xs : List A) → any p xs ≡ true → (x : A) × Memᴰ x xs × (p x ≡ true)
  any_sound p [] h = ground arith
  any_sound p (x ∷ xs) h = elim (Bool-cases (p x)) [
    | inl e ↦ (x, Memᴰ.head refl, e)
    | inr e ↦ let (y, m, q) = any_sound p xs (ground arith) in (y, Memᴰ.tail m, q)
  ]

  pub any_complete : (p : A → Bool) (x : A) (xs : List A) → Memᴰ x xs → p x ≡ true → any p xs ≡ true
  any_complete p x [] m h = elim m [ ]
  any_complete p x (y ∷ ys) (Memᴰ.head e) h = ground arith
  any_complete p x (y ∷ ys) (Memᴰ.tail m) h = ground (arith, any_complete p x ys m h)

  pub keep_sound :
      (p : A → Bool) (x : A) (xs : List A) → Memᴰ x (keep p xs) → Memᴰ x xs × (p x ≡ true)
  keep_sound p x [] m = elim m [ ]
  keep_sound p x (y ∷ ys) m = elim (Bool-cases (p y)) [
    | inl e ↦ elim (rw (e, keep) at m) [
      | Memᴰ.head q ↦ (Memᴰ.head q, ap p q ∙ e)
      | Memᴰ.tail n ↦ let (k, h) = keep_sound p x ys n in (Memᴰ.tail k, h)
    ]
    | inr e ↦ let (n, q) = keep_sound p x ys (rw (e, keep) at m) in (Memᴰ.tail n, q)
  ]

  pub keep_complete :
      (p : A → Bool) (x : A) (xs : List A) → Memᴰ x xs → p x ≡ true → Memᴰ x (keep p xs)
  keep_complete p x [] m h = elim m [ ]
  keep_complete p x (y ∷ ys) (Memᴰ.head e) h = rw (ap p (sym e) ∙ h, keep) (Memᴰ.head e)
  keep_complete p x (y ∷ ys) (Memᴰ.tail m) h = elim (Bool-cases (p y)) [
    | inl e ↦ rw (e, keep) (Memᴰ.tail (keep_complete p x ys m h))
    | inr e ↦ rw (e, keep) (keep_complete p x ys m h)
  ]

  pub append_member : {x : A} (xs ys : List A) → Memᴰ x (xs ++ ys) → Memᴰ x xs ⊎ Memᴰ x ys
  append_member [] ys m = inr m
  append_member (y ∷ xs) ys (Memᴰ.head e) = inl (Memᴰ.head e)
  append_member (y ∷ xs) ys (Memᴰ.tail m) = elim (append_member xs ys m) [
    | inl k ↦ inl (Memᴰ.tail k)
    | inr k ↦ inr k
  ]

  pub append_left : {x : A} (xs ys : List A) → Memᴰ x xs → Memᴰ x (xs ++ ys)
  append_left [] ys m = elim m [ ]
  append_left (y ∷ xs) ys (Memᴰ.head e) = Memᴰ.head e
  append_left (y ∷ xs) ys (Memᴰ.tail m) = Memᴰ.tail (append_left xs ys m)

  pub append_right : {x : A} (xs ys : List A) → Memᴰ x ys → Memᴰ x (xs ++ ys)
  append_right [] ys m = m
  append_right (y ∷ xs) ys m = Memᴰ.tail (append_right xs ys m)
