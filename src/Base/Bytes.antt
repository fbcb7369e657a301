-- ===== src/Base/Bytes.antt =====
-- Go strings whose characters the program walks, as lists of code points, with the functions of
-- package strings that the source calls. The lower case of a code point is a parameter, the table of
-- package unicode; the white space is that of unicode.IsSpace.
use Prim.Native.Nat.{ℕ, ◌+◌}
use Prim.Native.Char.{code}
use Prim.Native.String.{String}
use mathlib.Core.Path.{◌≡◌, refl, sym, ap, ◌∙◌}
use mathlib.Core.Bool.{Bool, true, false, not, ◌&&◌, ◌||◌}
use mathlib.Core.Option.{Option, none, some}
use mathlib.Core.List.{List, [], ◌∷◌, ◌++◌, reverse}
use native.Mathlib.Omega.{arith}
use mathlib.Core.Logic.{inl, inr, ◌≢◌}
use mathlib.Core.List.{reverse-append, reverse-reverse}
use flareway.Base.Tests.{Option-cases, if◌then◌else◌, leb, ltb, nat_beq}
use flareway.Base.Lists.{any}

abbrev pub Text : Type 0
Text = List ℕ

-- A literal's code points.
abbrev pub codes : String → Text
codes String.[] = []
codes (String.◌∷◌ c s) = code c ∷ codes s

abbrev pub is_empty : Text → Bool
is_empty [] = true
is_empty (c ∷ s) = false

-- strings.CutPrefix: what follows the prefix, if it is there.
unfoldable pub cut_prefix : Text → Text → Option Text
cut_prefix s [] = some s
cut_prefix [] (p ∷ ps) = none
cut_prefix (c ∷ s) (p ∷ ps) = if nat_beq c p then cut_prefix s ps else none

unfoldable pub has_prefix : Text → Text → Bool
has_prefix s p = elim (cut_prefix s p) [ none ↦ false | some r ↦ true ]

unfoldable pub trim_prefix : Text → Text → Text
trim_prefix s p = elim (cut_prefix s p) [ none ↦ s | some r ↦ r ]

unfoldable pub cut_suffix : Text → Text → Option Text
cut_suffix s p = elim (cut_prefix (reverse s) (reverse p)) [
  | none ↦ none
  | some r ↦ some (reverse r)
]

unfoldable pub has_suffix : Text → Text → Bool
has_suffix s p = elim (cut_suffix s p) [ none ↦ false | some r ↦ true ]

unfoldable pub trim_suffix : Text → Text → Text
trim_suffix s p = elim (cut_suffix s p) [ none ↦ s | some r ↦ r ]

unfoldable pub contains_code : Text → ℕ → Bool
contains_code s c = any (λ d. nat_beq d c) s

-- The order of Go strings: UTF-8 keeps that of the code points.
unfoldable pub text_lt : Text → Text → Bool
text_lt [] [] = false
text_lt [] (d ∷ t) = true
text_lt (c ∷ s) [] = false
text_lt (c ∷ s) (d ∷ t) = ltb c d || (nat_beq c d && text_lt s t)

unfoldable pub is_space : ℕ → Bool
is_space c =
    (leb 9 c && leb c 13)
    || (any (nat_beq c) (32 ∷ 133 ∷ 160 ∷ 5760 ∷ 8232 ∷ 8233 ∷ 8239 ∷ 8287 ∷ 12288 ∷ [])
        || (leb 8192 c && leb c 8202))

unfoldable pub drop_while : (ℕ → Bool) → Text → Text
drop_while p [] = []
drop_while p (c ∷ s) = if p c then drop_while p s else c ∷ s

unfoldable pub drop_spaces : Text → Text
drop_spaces [] = []
drop_spaces (c ∷ s) = if is_space c then drop_spaces s else c ∷ s

unfoldable pub trim_space : Text → Text
trim_space s = reverse (drop_spaces (reverse (drop_spaces s)))

pub cut_prefix_sound : (s p r : Text) → cut_prefix s p ≡ some r → s ≡ p ++ r
unfolding cut_prefix
cut_prefix_sound s [] r h = ground arith
cut_prefix_sound [] (p ∷ ps) r h = ground arith
cut_prefix_sound (c ∷ s) (p ∷ ps) r h = ground (arith, cut_prefix_sound s ps r)

pub cut_prefix_complete : (p r : Text) → cut_prefix (p ++ r) p ≡ some r
unfolding cut_prefix
cut_prefix_complete [] r = refl
cut_prefix_complete (p ∷ ps) r = ground (arith, cut_prefix_complete ps r)

some_inj : {a b : Text} → some a ≡ some b → a ≡ b
some_inj h = cc

pub cut_suffix_sound : (s p r : Text) → cut_suffix s p ≡ some r → s ≡ r ++ p
unfolding cut_suffix
cut_suffix_sound s p r h = elim (Option-cases (cut_prefix (reverse s) (reverse p))) [
  | inl e ↦ absurd (cc (rw (e, cut_suffix) at h))
  | inr (q, e) ↦
      sym (reverse-reverse s)
      ∙ ap reverse (cut_prefix_sound (reverse s) (reverse p) q e)
      ∙ reverse-append (reverse p) q
      ∙ ap (λ x. reverse q ++ x) (reverse-reverse p)
      ∙ ap (λ x. x ++ p) (some_inj (rw (e, cut_suffix) at h))
]

pub cut_suffix_complete : (r p : Text) → cut_suffix (r ++ p) p ≡ some r
unfolding cut_suffix
cut_suffix_complete r p =
    rw (reverse-append r p, cut_prefix_complete (reverse p) (reverse r), cut_suffix)
      (ap some (reverse-reverse r))

-- strings.HasSuffix, then strings.TrimSuffix.
pub has_suffix_sound : (s p : Text) → has_suffix s p ≡ true → s ≡ trim_suffix s p ++ p
unfolding has_suffix trim_suffix
has_suffix_sound s p h = elim (Option-cases (cut_suffix s p)) [
  | inl e ↦ absurd (cc (rw (e, has_suffix) at h))
  | inr (r, e) ↦ rw (e, trim_suffix) (cut_suffix_sound s p r e)
]

pub has_suffix_complete :
    (r p : Text) → (has_suffix (r ++ p) p ≡ true) × (trim_suffix (r ++ p) p ≡ r)
unfolding has_suffix trim_suffix
has_suffix_complete r p =
    (rw (cut_suffix_complete r p, has_suffix), rw (cut_suffix_complete r p, trim_suffix))

nothing_below : (s : Text) → text_lt s [] ≡ true → ⊥
unfolding text_lt
nothing_below [] h = cc
nothing_below (c ∷ s) h = cc

pub text_lt_trans : (s t u : Text) → text_lt s t ≡ true → text_lt t u ≡ true → text_lt s u ≡ true
unfolding text_lt
text_lt_trans s t [] h k = absurd (nothing_below t k)
text_lt_trans s [] (e ∷ u) h k = absurd (nothing_below s h)
text_lt_trans [] (d ∷ t) (e ∷ u) h k = refl
text_lt_trans (c ∷ s) (d ∷ t) (e ∷ u) h k = ground (arith, text_lt_trans s t u)

-- One of two different texts is below the other.
pub text_lt_total : (s t : Text) → s ≢ t → text_lt s t ≡ false → text_lt t s ≡ true
unfolding text_lt
text_lt_total [] [] n h = absurd (n refl)
text_lt_total [] (d ∷ t) n h = absurd cc
text_lt_total (c ∷ s) [] n h = refl
text_lt_total (c ∷ s) (d ∷ t) n h = ground (arith, text_lt_total s t)

-- strings.Compare is not positive.
unfoldable pub text_le : Text → Text → Bool
text_le s t = not (text_lt t s)

-- The bytes of a code point in UTF-8, and `len` of a string.
unfoldable pub width : ℕ → ℕ
width c = if ltb c 128 then 1 else if ltb c 2048 then 2 else if ltb c 65536 then 3 else 4

unfoldable pub byte_length : Text → ℕ
byte_length [] = 0
byte_length (c ∷ s) = width c + byte_length s

-- strings.TrimRight with a cutset of one code point.
unfoldable pub trim_right : ℕ → Text → Text
trim_right c s = reverse (drop_while (nat_beq c) (reverse s))

pub text_lt_irrefl : (s : Text) → text_lt s s ≡ false
unfolding text_lt
text_lt_irrefl [] = refl
text_lt_irrefl (c ∷ s) = ground (arith, text_lt_irrefl s)

pub byte_length-append : (s t : Text) → byte_length (s ++ t) ≡ byte_length s + byte_length t
unfolding byte_length
byte_length-append [] t = omega arith
byte_length-append (c ∷ s) t = omega (arith, byte_length-append s t)
