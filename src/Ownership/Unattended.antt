-- ===== src/Ownership/Unattended.antt =====
-- What a call of GetOrCreateKey does on a Secret that nobody else changes.
use flareway.Base.{
  suc, ◌≡◌, ◌≢◌, ◌↔◌, inl, inr, refl, ap, true, false, Option, none, some, arith, length, nat_beq,
  Bool-cases,
}
use flareway.Base.Bytes.{Text}
use flareway.Base.Results.{Result, ok, err}
use flareway.Ownership.Key.{
  is_valid, Secret, Phase, Weather, KeyError, read_key, reread_key, create_key, repair_key,
  write_key, get_or_create_key, started, repairing, creating, rereading, returned,
}

-- Requests reach the API server, its replies are heard, and rand.Read gives 32 bytes.
pub record IsFair (w : Weather) : Type 0 where
  pub reachable : w.reachable ≡ true
  pub heard : w.heard ≡ true
  pub drawn : Text
  pub random : w.random ≡ some drawn
  pub full : length drawn ≡ 32

-- A key is returned, of 32 bytes and that of the Secret, which a valid key has left as it was.
pub record IsKept (before after : Option Secret) (r : Result KeyError Text) : Type 0 where
  pub material : Text
  pub gives : r ≡ ok material
  pub full : length material ≡ 32
  pub held : Secret
  pub stored : after ≡ some held
  pub same : held.material ≡ material
  pub kept : (s : Secret) → before ≡ some s → length s.material ≡ 32 → after ≡ before
  pub versioned : (s : Secret) → before ≡ some s → after ≢ before → held.version ≡ suc s.version

-- A key that is returned has 32 bytes.
abbrev pub IsFull : Phase → Type 0
IsFull started = Unit
IsFull (repairing v) = Unit
IsFull creating = Unit
IsFull rereading = Unit
IsFull (returned (ok m)) = length m ≡ 32
IsFull (returned (err e)) = Unit

valid_iff : (m : Text) → (is_valid m ≡ true) ↔ (length m ≡ 32)
unfolding is_valid
valid_iff m = (λ h. ground arith, λ h. ground arith)

read_key-IsFull : (store : Option Secret) → IsFull (read_key store)
unfolding read_key
read_key-IsFull none = tt
read_key-IsFull (some s) = elim (Bool-cases (is_valid s.material)) [
  | inl e ↦ rw e ((valid_iff s.material).0 e)
  | inr e ↦ rw e tt
]

reread_key-IsFull : (store : Option Secret) → IsFull (reread_key store)
unfolding reread_key
reread_key-IsFull none = tt
reread_key-IsFull (some s) = elim (Bool-cases (is_valid s.material)) [
  | inl e ↦ rw e ((valid_iff s.material).0 e)
  | inr e ↦ rw e tt
]

pub step-IsFull :
    (w : Weather) (p : Phase) (store : Option Secret)
    → IsFair w
    → IsFull p
    → IsFull (get_or_create_key w p store).0
unfolding get_or_create_key write_key create_key repair_key
step-IsFull w started store f h = rw f.reachable (read_key-IsFull store)
step-IsFull w (repairing v) none f h = rw (f.reachable, f.heard, f.random) tt
step-IsFull w (repairing v) (some s) f h =
    rw (f.reachable, f.heard, f.random)
      (elim (Bool-cases (nat_beq v s.version)) [ inl e ↦ rw e f.full | inr e ↦ rw e tt ])
step-IsFull w creating none f h = rw (f.reachable, f.heard, f.random) f.full
step-IsFull w creating (some s) f h = rw (f.reachable, f.heard, f.random) tt
step-IsFull w rereading store f h = rw f.reachable (reread_key-IsFull store)
step-IsFull w (returned r) store f h = h

pub first_read :
    (w : Weather) (a : Option Secret) → IsFair w → get_or_create_key w started a ≡ (read_key a, a)
unfolding get_or_create_key
first_read w a f = rw f.reachable refl

pub stays :
    (w : Weather) (p : Phase) (c : Option Secret) (q r : Result KeyError Text)
    → p ≡ returned q
    → (get_or_create_key w p c).0 ≡ returned r
    → q ≡ r
unfolding get_or_create_key
stays w p c q r e h = same q r (rw e at h)
  where
    same : (x y : Result KeyError Text) → returned x ≡ returned y → x ≡ y
    same x y k = cc

-- The second step, on a Secret that nobody has changed since the first.
pub alone-IsKept :
    (v : Weather) (a : Option Secret)
    → IsFair v
    → let second = get_or_create_key v (read_key a) a in
      (r : Result KeyError Text) × (second.0 ≡ returned r) × IsKept a second.1 r
unfolding get_or_create_key read_key write_key create_key repair_key
alone-IsKept v none f =
    rw (f.reachable, f.heard, f.random)
      (
        ok f.drawn,
        refl,
        record {
          material = f.drawn;
          gives = refl;
          full = f.full;
          held = record { version = 1; material = f.drawn };
          stored = refl;
          same = refl;
          kept = λ s e q. absurd (cc);
          versioned = λ s e q. absurd (cc);
        },
      )
alone-IsKept v (some s) f = elim (Bool-cases (is_valid s.material)) [
  | inl e ↦ rw e (
    ok s.material,
    refl,
    record {
      material = s.material;
      gives = refl;
      full = (valid_iff s.material).0 e;
      held = s;
      stored = refl;
      same = refl;
      kept = λ t q n. refl;
      versioned = λ t q n. absurd (n refl);
    },
  )
  | inr e ↦ rw e (
      rw (f.reachable, f.heard, f.random)
        (rw same_version (
          ok f.drawn,
          refl,
          record {
            material = f.drawn;
            gives = refl;
            full = f.full;
            held = record { version = suc s.version; material = f.drawn };
            stored = refl;
            same = refl;
            kept = λ t q n. absurd (invalid t e q n);
            versioned = λ t q n. ap suc (version_of t q);
          },
        )))
]
  where
    same_version : nat_beq s.version s.version ≡ true
    same_version = ground arith

    invalid :
        (t : Secret) → is_valid s.material ≡ false → some s ≡ some t → length t.material ≡ 32 → ⊥
    invalid t e q n = let r : s ≡ t = cc in cc ((valid_iff s.material).1 (rw r n), e)

    version_of : (t : Secret) → some s ≡ some t → s.version ≡ t.version
    version_of t q = cc
