-- ===== src/Base/Decimal.antt =====
-- Decimal numerals: the verb %d of package fmt, and strconv.ParseUint in base ten.
use Prim.Native.Nat.{ℕ, zero, suc, ◌+◌, ◌-◌, ◌*◌, ◌/◌, ◌%◌, ◌≤◌, ◌<◌}
use mathlib.Core.Path.{◌≡◌, refl, ◌∙◌, ap}
use mathlib.Core.Logic.{◌≢◌, inl, inr}
use mathlib.Core.Bool.{◌||◌}
use mathlib.Core.Option.{Option, none, some}
use mathlib.Core.List.{[], ◌∷◌}
use native.Mathlib.Omega.{arith}
use flareway.Base.Tests.{if◌then◌else◌, ltb, ltb→lt, Bool-cases}
use flareway.Base.Bytes.{Text}

-- The digits of a number before those already written; the fuel bounds their count.
digits : ℕ → ℕ → Text → Text
digits zero n out = out
digits (suc fuel) n out =
    let rest = digits fuel (n / 10) ((b'0' + n % 10) ∷ out) in
    if ltb n 10 then (b'0' + n) ∷ out else rest

unfoldable pub decimal : ℕ → Text
unfolding digits
decimal n = digits (suc n) n []

-- A digit that takes the number past the largest is an error, as is any other character.
scan : ℕ → Text → ℕ → Option ℕ
scan largest [] n = some n
scan largest (c ∷ s) n =
    let next = n * 10 + (c - b'0') in
    let rest = scan largest s next in
    if ltb c b'0' || ltb b'9' c then none else if ltb largest next then none else rest

unfoldable pub parse_uint : ℕ → Text → Option ℕ
unfolding scan
parse_uint largest [] = none
parse_uint largest (c ∷ s) = scan largest (c ∷ s) 0

scan_digit :
    (largest d n m : ℕ) (out : Text)
    → d < 10
    → m ≡ n * 10 + d
    → m ≤ largest
    → scan largest ((b'0' + d) ∷ out) n ≡ scan largest out m
unfolding scan
scan_digit largest d n m out h e k = ground (arith, ap (scan largest out) step)
  where
    step : n * 10 + (b'0' + d - b'0') ≡ m
    step = omega arith

scan-digits :
    (largest fuel n : ℕ) (out : Text)
    → n < fuel
    → n ≤ largest
    → scan largest (digits fuel n out) 0 ≡ scan largest out n
unfolding digits
scan-digits largest zero n out h k = absurd (omega arith)
scan-digits largest (suc fuel) n out h k = elim (Bool-cases (ltb n 10)) [
  | inl e ↦ rw e (scan_digit largest n 0 n out (ltb→lt n 10 e) (omega arith) k)
  | inr e ↦ rw e (
      scan-digits largest fuel (n / 10) _ (ground arith) (omega arith)
      ∙ scan_digit largest (n % 10) (n / 10) n out (omega arith) (omega arith) k)
]

digits-ne-nil : (fuel n : ℕ) (out : Text) → out ≢ [] → digits fuel n out ≢ []
unfolding digits
digits-ne-nil zero n out h = h
digits-ne-nil (suc fuel) n out h = elim (Bool-cases (ltb n 10)) [
  | inl e ↦ rw e (λ q. cc)
  | inr e ↦ rw e (digits-ne-nil fuel (n / 10) _ (λ q. cc))
]

some_digits : (n : ℕ) → decimal n ≢ []
unfolding decimal
some_digits n = elim (Bool-cases (ltb n 10)) [
  | inl e ↦ rw (e, digits) (λ q. cc)
  | inr e ↦ rw (e, digits) (digits-ne-nil n (n / 10) _ (λ q. cc))
]

parse_uint-scan : (largest : ℕ) (s : Text) → s ≢ [] → parse_uint largest s ≡ scan largest s 0
unfolding parse_uint
parse_uint-scan largest [] h = absurd (h refl)
parse_uint-scan largest (c ∷ s) h = refl

-- What the fuel gives is the number's numeral.
pub parse_uint-decimal : (largest n : ℕ) → n ≤ largest → parse_uint largest (decimal n) ≡ some n
unfolding decimal scan
parse_uint-decimal largest n h =
    parse_uint-scan largest _ (some_digits n) ∙ scan-digits largest (suc n) n [] (omega arith) h
