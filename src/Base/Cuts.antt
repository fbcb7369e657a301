-- ===== src/Base/Cuts.antt =====
-- strings.Cut and strings.Index at one code point.
use flareway.Base.Bytes.{Text, contains_code}
use mathlib.Core.Path.{◌≡◌, refl, sym, ap, subst, ◌∙◌}
use mathlib.Core.Logic.{inl, inr}
use mathlib.Core.Bool.{true, false}
use mathlib.Core.Option.{Option, none, some}
use mathlib.Core.List.{List, [], ◌∷◌, ◌++◌, reverse}
use Prim.Native.Nat.{ℕ}
use native.Mathlib.Omega.{arith}
use flareway.Base.Tests.{if◌then◌else◌, nat_beq, Bool-cases, if_true, if_false}

-- What stands before and after the first separator of one code point.
unfoldable pub cut_code : ℕ → Text → Option (Text × Text)
cut_code c [] = none
cut_code c (d ∷ s) =
    if nat_beq d c
    then some ([], s)
    else elim (cut_code c s) [ none ↦ none | some (before, after) ↦ some (d ∷ before, after) ]

cut_after :
    (c d : ℕ) (s a b : Text) (r : Option (Text × Text))
    → ((p q : Text) → r ≡ some (p, q) → (s ≡ p ++ (c ∷ q)) × (contains_code p c ≡ false))
    → nat_beq d c ≡ false
    → ◌≡◌ {A = Option (Text × Text)}
        (elim r [ none ↦ none | some (before, after) ↦ some (d ∷ before, after) ])
        (some (a, b))
    → ((d ∷ s) ≡ a ++ (c ∷ b)) × (contains_code a c ≡ false)
unfolding contains_code
cut_after c d s a b none ih e h = absurd cc
cut_after c d s a b (some (p, q)) ih e h =
    let (u, v) = ih p q refl in
    let a≡ : (d ∷ p) ≡ a = cc in
    let b≡ : q ≡ b = cc in
    subst (λ y. ((d ∷ s) ≡ y ++ (c ∷ b)) × (contains_code y c ≡ false)) a≡
      (subst (λ y. ((d ∷ s) ≡ (d ∷ p) ++ (c ∷ y)) × (contains_code (d ∷ p) c ≡ false)) b≡
        (ap (λ y. d ∷ y) u, ground (arith, e, v)))

cut_here :
    (c d : ℕ) (s a b : Text)
    → nat_beq d c ≡ true
    → ◌≡◌ {A = Option (Text × Text)} (some ([], s)) (some (a, b))
    → ((d ∷ s) ≡ a ++ (c ∷ b)) × (contains_code a c ≡ false)
unfolding contains_code
cut_here c d s [] b e h = (let d≡c : d ≡ c = ground arith in let s≡b : s ≡ b = cc in cc, refl)
cut_here c d s (x ∷ a) b e h = absurd cc

pub cut_code_sound :
    (c : ℕ) (s a b : Text)
    → cut_code c s ≡ some (a, b)
    → (s ≡ a ++ (c ∷ b)) × (contains_code a c ≡ false)
unfolding cut_code
cut_code_sound c [] a b h = absurd cc
cut_code_sound c (d ∷ s) a b h = elim (Bool-cases (nat_beq d c)) [
  | inl e ↦ cut_here c d s a b e (sym (if_true _ _ e) ∙ h)
  | inr e ↦ cut_after c d s a b (cut_code c s) (cut_code_sound c s) e (sym (if_false _ _ e) ∙ h)
]

pub cut_code_complete :
    (c : ℕ) (a b : Text) → contains_code a c ≡ false → cut_code c (a ++ (c ∷ b)) ≡ some (a, b)
unfolding cut_code contains_code
cut_code_complete c [] b h = ground arith
cut_code_complete c (d ∷ a) b h = ground (arith, cut_code_complete c a b)

-- The same at the last occurrence.
unfoldable pub cut_last : ℕ → Text → Option (Text × Text)
cut_last c s = elim (cut_code c (reverse s)) [
  | none ↦ none
  | some (after, before) ↦ some (reverse before, reverse after)
]

-- A code point before the first part.
unfoldable pub extend : ℕ → List Text → List Text
extend d [] = (d ∷ []) ∷ []
extend d (part ∷ parts) = (d ∷ part) ∷ parts

-- strings.Split at one code point: the parts are one more than the separators.
unfoldable pub split_on : ℕ → Text → List Text
split_on c [] = [] ∷ []
split_on c (d ∷ s) = if nat_beq d c then [] ∷ split_on c s else extend d (split_on c s)
