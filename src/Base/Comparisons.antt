-- ===== src/Base/Comparisons.antt =====
-- strings.Compare and time.Time.Compare, and an order by several texts and numbers in turn.
use mathlib.Core.Path.{◌≡◌, refl, sym, subst, ◌∙◌}
use mathlib.Core.Logic.{◌≢◌, inl, inr}
use mathlib.Core.Bool.{Bool, true, false, not}
use native.Mathlib.Omega.{arith}
use Prim.Native.Nat.{ℕ}
use flareway.Base.Durations.{ℤ, pos, negsuc, le_ℤ, sub_ℕ, int_eq}
use flareway.Base.Tests.{leb, ltb, nat_beq, if◌then◌else◌, Bool-cases}
use flareway.Base.Classes.{◌==◌, nat_eq, list_eq, ==_iff}
use flareway.Base.Bytes.{Text, text_lt, text_lt_trans, text_lt_total, text_lt_irrefl}

-- strings.Compare.
unfoldable pub compare_text : Text → Text → ℤ
compare_text a b = if text_lt a b then negsuc 0 else if a == b then pos 0 else pos 1

-- time.Time.Compare.
unfoldable pub compare_times : ℕ → ℕ → ℤ
compare_times s t = if ltb s t then negsuc 0 else if nat_beq s t then pos 0 else pos 1

pub text_lt_asym : (a b : Text) → text_lt a b ≡ true → text_lt b a ≡ false
text_lt_asym a b h = ground (arith, text_lt_trans a b a, text_lt_irrefl a)

pub text_lt_connex : (a b : Text) → text_lt a b ≡ false → text_lt b a ≡ false → a ≡ b
text_lt_connex a b h k = elim (Bool-cases (a == b)) [
  | inl q ↦ (==_iff a b).0 q
  | inr q ↦ absurd (cc (text_lt_total a b (λ p. cc ((==_iff a b).1 p)) h))
]

pub no_lt_trans : (a b c : Text) → text_lt b a ≡ false → text_lt c b ≡ false → text_lt c a ≡ false
no_lt_trans a b c h k = elim (Bool-cases (text_lt c a)) [
  | inl e ↦ elim (Bool-cases (text_lt a b)) [
    | inl f ↦ ground (arith, text_lt_trans c a b)
    | inr f ↦ rw (text_lt_connex a b f h) k
  ]
  | inr e ↦ e
]

pub text_order : (a b : Text) → le_ℤ (compare_text a b) (pos 0) ≡ not (text_lt b a)
unfolding compare_text
text_order a b = elim (Bool-cases (text_lt a b)) [
  | inl e ↦ rw e (rw (not_above e) refl)
  | inr e ↦ elim (Bool-cases (a == b)) [
    | inl q ↦ rw (e, q) (rw (same q) refl)
    | inr q ↦ rw (e, q) (rw (text_lt_total a b (λ p. cc ((==_iff a b).1 p)) e) refl)
  ]
]
  where
    not_above : text_lt a b ≡ true → text_lt b a ≡ false
    not_above e = ground (arith, text_lt_trans b a b, text_lt_irrefl b)

    same : (a == b) ≡ true → text_lt b a ≡ false
    same q = rw (sym ((==_iff a b).0 q)) (text_lt_irrefl a)

-- One level of an order: by one number, then as the rest says.
unfoldable pub step : ℕ → ℕ → Bool → Bool
step m n rest = if not (nat_beq m n) then ltb m n else rest

pub step_total :
    (m n : ℕ) (s t : Bool) → (s ≡ false → t ≡ true) → step m n s ≡ false → step n m t ≡ true
unfolding step
step_total m n s t f h = ground arith

pub step_trans :
    (l m n : ℕ) (s t u : Bool)
    → (s ≡ true → t ≡ true → u ≡ true)
    → step l m s ≡ true
    → step m n t ≡ true
    → step l n u ≡ true
unfolding step
step_trans l m n s t u f h k = ground arith

-- The same from the larger number on.
pub step_trans_down :
    (l m n : ℕ) (s t u : Bool)
    → (s ≡ true → t ≡ true → u ≡ true)
    → step m l s ≡ true
    → step n m t ≡ true
    → step n l u ≡ true
unfolding step
step_trans_down l m n s t u f h k = ground arith

-- One level of an order: by one text, then as the rest says.
unfoldable pub level : Text → Text → Bool → Bool
level a b rest = if not (a == b) then text_lt a b else rest

pub level_total :
    (a b : Text) (s t : Bool) → (s ≡ false → t ≡ true) → level a b s ≡ false → level b a t ≡ true
unfolding level
level_total a b s t f h = elim (Bool-cases (a == b)) [
  | inl e ↦ rw ((==_iff b a).1 (sym ((==_iff a b).0 e))) (f (rw e at h))
  | inr e ↦
      let n : a ≢ b = λ q. cc ((==_iff a b).1 q) in
      let l = text_lt_total a b n (rw e at h) in ground (arith, ==_iff b a, ==_iff a b)
]

level_lt : (a b : Text) (s : Bool) → text_lt a b ≡ true → level a b s ≡ true
unfolding level
level_lt a b s h = elim (Bool-cases (a == b)) [
  | inl e ↦ let q = (==_iff a b).0 e in let r = text_lt_irrefl a in absurd (cc)
  | inr e ↦ rw e h
]

pub level_trans :
    (a b c : Text) (s t u : Bool)
    → (s ≡ true → t ≡ true → u ≡ true)
    → level a b s ≡ true
    → level b c t ≡ true
    → level a c u ≡ true
unfolding level
level_trans a b c s t u f h k = elim (Bool-cases (a == b)) [
  | inl e ↦ elim (Bool-cases (b == c)) [
    | inl g ↦ rw ((==_iff a c).1 ((==_iff a b).0 e ∙ (==_iff b c).0 g)) (f (rw e at h) (rw g at k))
    | inr g ↦ level_lt a c u (subst (λ x. text_lt x c ≡ true) (sym ((==_iff a b).0 e)) (rw g at k))
  ]
  | inr e ↦ elim (Bool-cases (b == c)) [
    | inl g ↦ level_lt a c u (subst (λ x. text_lt a x ≡ true) ((==_iff b c).0 g) (rw e at h))
    | inr g ↦ level_lt a c u (text_lt_trans a b c (rw e at h) (rw g at k))
  ]
]

-- A comparison is not positive.
unfoldable pub below : ℤ → Bool
below z = le_ℤ z (pos 0)

pub chosen_time :
    (s t : ℕ) (z : ℤ)
    → below (if not (compare_times s t == pos 0) then compare_times s t else z) ≡ step s t (below z)
unfolding compare_times step below
chosen_time s t z = elim (Bool-cases (ltb s t)) [
  | inl e ↦ rw e (ground arith)
  | inr e ↦ elim (Bool-cases (nat_beq s t)) [ inl f ↦ rw (e, f) refl | inr f ↦ rw (e, f) refl ]
]

pub chosen_text :
    (s t : Text) (z : ℤ)
    → below (if not (compare_text s t == pos 0) then compare_text s t else z) ≡ level s t (below z)
unfolding compare_text level below
chosen_text s t z = elim (Bool-cases (text_lt s t)) [
  | inl e ↦ elim (Bool-cases (s == t)) [
    | inl f ↦ let q = (==_iff s t).0 f in let r = text_lt_asym s t e in absurd (cc)
    | inr f ↦ rw (e, f) refl
  ]
  | inr e ↦ elim (Bool-cases (s == t)) [ inl f ↦ rw (e, f) refl | inr f ↦ rw (e, f) refl ]
]

pub chosen_number :
    (m n : ℕ) (z : ℤ) → below (if not (nat_beq m n) then sub_ℕ m n else z) ≡ step m n (below z)
unfolding step below
chosen_number m n z = ground arith

pub last_number : (m n : ℕ) → below (sub_ℕ m n) ≡ leb m n
unfolding below
last_number m n = ground arith

pub swapped :
    (m n : ℕ) (z : ℤ) → below (if not (nat_beq m n) then sub_ℕ n m else z) ≡ step n m (below z)
unfolding step below
swapped m n z = ground arith
