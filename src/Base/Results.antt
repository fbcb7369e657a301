-- ===== src/Base/Results.antt =====
-- Go's pair of a value and an error: one of the two is there.
use mathlib.Core.Path.{◌≡◌, refl}
use mathlib.Core.Bool.{Bool, true, false}

pub data Result {ℓ κ} (E : Type ℓ) (A : Type κ) : Type (ℓ ⊔ κ) where
  ok : A → Result E A
  err : E → Result E A

infixl 5 ◌>>=◌ ◌>>◌
abbrev pub ◌>>=◌ {ℓ κ μ} :
    {E : Type ℓ} {A : Type κ} {B : Type μ} → Result E A → (A → Result E B) → Result E B
◌>>=◌ (err failure) next = err failure
◌>>=◌ (ok value) next = next value

abbrev pub ◌>>◌ {ℓ κ} : {E : Type ℓ} {B : Type κ} → Result E (Unit {0}) → Result E B → Result E B
check >> next = check >>= λ _. next

-- What a chain that succeeds has passed through.
pub passed {ℓ κ μ} :
    {E : Type ℓ} {A : Type κ} {B : Type μ} (first : Result E A) (next : A → Result E B) {result : B}
    → (first >>= next) ≡ ok result
    → (value : A) × (first ≡ ok value) × (next value ≡ ok result)
passed (err failure) next h = cc
passed (ok value) next h = (value, refl, h)

-- An early return with an error.
abbrev pub refuse_if {ℓ} : {E : Type ℓ} → Bool → E → Result E (Unit {0})
refuse_if true e = err e
refuse_if false e = ok tt

pub refuse_if-eq-ok {ℓ} :
    {E : Type ℓ} (b : Bool) (e : E) {u : Unit {0}} → refuse_if b e ≡ ok u → b ≡ false
refuse_if-eq-ok true e h = cc
refuse_if-eq-ok false e h = refl

module _ {ℓ κ μ ν} {E : Type ℓ} {A : Type κ} {B : Type μ} {C : Type ν} where
  pub >>=_assoc :
      (m : Result E A) (f : A → Result E B) (g : B → Result E C)
      → (m >>= λ a. f a >>= g) ≡ (m >>= f >>= g)
  >>=_assoc (ok a) f g = refl
  >>=_assoc (err e) f g = refl

pub >>=_cong {ℓ κ μ} :
    {E : Type ℓ} {A : Type κ} {B : Type μ} (m : Result E A) (f g : A → Result E B)
    → ((a : A) → f a ≡ g a)
    → (m >>= f) ≡ (m >>= g)
>>=_cong (ok a) f g h = h a
>>=_cong (err e) f g h = refl

pub ok-inj {ℓ κ} : {E : Type ℓ} {A : Type κ} {a b : A} → ◌≡◌ {A = Result E A} (ok a) (ok b) → a ≡ b
ok-inj h = cc
