-- ===== src/Ownership/Converge.antt =====
-- That concurrent calls of GetOrCreateKey return one key.
use flareway.Base.{
  ℕ, suc, ◌≤◌, ◌≡◌, ◌⊎◌, inl, inr, refl, sym, ap, subst, Bool, true, false, Option, none, some,
  List, [], ◌∷◌, if◌then◌else◌, nat_beq, nat_beq_iff, Bool-cases, arith,
}
use flareway.Base.Bytes.{Text}
use flareway.Base.Results.{ok, err}
use flareway.Ownership.Key.{
  Secret, Phase, Weather, World, KeyError, is_valid, read_key, reread_key, create_key, repair_key,
  write_key, get_or_create_key, set_call, advance, run_calls, all_started, started, repairing,
  creating, rereading, returned,
}

-- What a phase says of the Secret: a key that was returned is its key, and one that was read without
-- a valid key has none at the version that was read.
Agrees : Option Secret → Phase → Type 0
Agrees none (repairing version) = ⊥
Agrees none (returned (ok key)) = ⊥
Agrees (some s) (repairing version) =
    (version ≤ s.version) × ((version ≡ s.version) → is_valid s.material ≡ false)
Agrees (some s) (returned (ok key)) = (s.material ≡ key) × (is_valid key ≡ true)
Agrees store phase = Unit

-- The Secret after a step: the same, or it had no valid key and has another version with one.
Follows : Option Secret → Option Secret → Type 0
Follows none none = Unit
Follows none (some t) = Unit
Follows (some s) none = ⊥
Follows (some s) (some t) = (t ≡ s) ⊎ ((is_valid s.material ≡ false) × (suc s.version ≤ t.version))

-- The bytes that are drawn fill the key.
abbrev pub Fills : Option Text → Type 0
Fills none = Unit
Fills (some material) = is_valid material ≡ true

Agrees-later : (old new : Option Secret) (p : Phase) → Follows old new → Agrees old p → Agrees new p
unfolding Agrees Follows
Agrees-later old none started f a = tt
Agrees-later old (some t) started f a = tt
Agrees-later old none creating f a = tt
Agrees-later old (some t) creating f a = tt
Agrees-later old none rereading f a = tt
Agrees-later old (some t) rereading f a = tt
Agrees-later old none (returned (err e)) f a = tt
Agrees-later old (some t) (returned (err e)) f a = tt
Agrees-later none new (repairing v) f a = absurd a
Agrees-later (some s) none (repairing v) f a = absurd f
Agrees-later (some s) (some t) (repairing v) (inl e) a =
    subst (λ x. Agrees (some x) (repairing v)) (sym e) a
Agrees-later (some s) (some t) (repairing v) (inr (i, l)) a =
    (omega (arith, a.0), λ q. absurd (omega (arith, a.0)))
Agrees-later none new (returned (ok k)) f a = absurd a
Agrees-later (some s) none (returned (ok k)) f a = absurd f
Agrees-later (some s) (some t) (returned (ok k)) (inl e) a =
    subst (λ x. Agrees (some x) (returned (ok k))) (sym e) a
Agrees-later (some s) (some t) (returned (ok k)) (inr (i, l)) a = absurd (cc (ap is_valid a.0))

Follows-self : (store : Option Secret) → Follows store store
unfolding Follows
Follows-self none = tt
Follows-self (some s) = inl refl

read_key-Agrees : (store : Option Secret) → Agrees store (read_key store)
unfolding Agrees read_key
read_key-Agrees none = tt
read_key-Agrees (some s) = elim (Bool-cases (is_valid s.material)) [
  | inl e ↦ rw e (refl, e)
  | inr e ↦ rw e (omega arith, λ q. e)
]

reread_key-Agrees : (store : Option Secret) → Agrees store (reread_key store)
unfolding Agrees reread_key
reread_key-Agrees none = tt
reread_key-Agrees (some s) = elim (Bool-cases (is_valid s.material)) [
  | inl e ↦ rw e (refl, e)
  | inr e ↦ rw e tt
]

repair_key-Agrees :
    (version : ℕ) (material : Text) (store : Option Secret)
    → is_valid material ≡ true
    → Agrees store (repairing version)
    → let out = repair_key version material store in Follows store out.1 × Agrees out.1 out.0
unfolding Agrees Follows repair_key
repair_key-Agrees version material none f a = absurd a
repair_key-Agrees version material (some s) f a = elim (Bool-cases (nat_beq version s.version)) [
  | inl e ↦ rw e (inr (a.1 ((nat_beq_iff _ _).0 e), omega arith), (refl, f))
  | inr e ↦ rw e (inl refl, tt)
]

create_key-Agrees :
    (material : Text) (store : Option Secret)
    → is_valid material ≡ true
    → let out = create_key material store in Follows store out.1 × Agrees out.1 out.0
unfolding Agrees Follows create_key
create_key-Agrees material none f = (tt, (refl, f))
create_key-Agrees material (some s) f = (inl refl, tt)

failed : (store : Option Secret) (e : KeyError) → Agrees store (returned (err e))
unfolding Agrees
failed none e = tt
failed (some s) e = tt

reached :
    (reachable : Bool) (store : Option Secret) (p : Phase)
    → Agrees store p
    → Agrees store (if reachable then p else returned (err KeyError.unavailable))
reached true store p a = a
reached false store p a = failed store _

write_key-Agrees :
    (reachable heard : Bool) (random : Option Text)
    (write : Text → Option Secret → Phase × Option Secret) (store : Option Secret)
    → Fills random
    → ((material : Text)
        → is_valid material ≡ true
        → Follows store (write material store).1
          × Agrees (write material store).1 (write material store).0)
    → let out = write_key reachable heard random write store in
      Follows store out.1 × Agrees out.1 out.0
unfolding write_key
write_key-Agrees reachable heard none write store f h = (Follows-self store, failed store _)
write_key-Agrees true heard (some material) write store f h =
    let (follows, agrees) = h material f in (follows, reached heard _ _ agrees)
write_key-Agrees false heard (some material) write store f h = (Follows-self store, failed store _)

get_or_create_key-Agrees :
    (w : Weather) (p : Phase) (store : Option Secret)
    → Fills w.random
    → Agrees store p
    → let out = get_or_create_key w p store in Follows store out.1 × Agrees out.1 out.0
unfolding get_or_create_key
get_or_create_key-Agrees w started store f a =
    (Follows-self store, reached w.reachable store _ (read_key-Agrees store))
get_or_create_key-Agrees w (repairing v) store f a =
    write_key-Agrees w.reachable w.heard w.random (repair_key v) store f
      (λ m h. repair_key-Agrees v m store h a)
get_or_create_key-Agrees w creating store f a =
    write_key-Agrees w.reachable w.heard w.random create_key store f
      (λ m h. create_key-Agrees m store h)
get_or_create_key-Agrees w rereading store f a =
    (Follows-self store, reached w.reachable store _ (reread_key-Agrees store))
get_or_create_key-Agrees w (returned r) store f a = (Follows-self store, a)

-- Every call agrees with the Secret.
Consistent : World → Type 0
Consistent world = (n : ℕ) → Agrees world.store (world.calls n)

advance-Consistent :
    (n : ℕ) (w : Weather) (world : World)
    → Fills w.random
    → Consistent world
    → Consistent (advance (n, w) world)
unfolding advance Consistent set_call
advance-Consistent n w world f h k = elim (Bool-cases (nat_beq k n)) [
  | inl e ↦ rw e (get_or_create_key-Agrees w (world.calls n) world.store f (h n)).1
  | inr e ↦ rw e (
      Agrees-later world.store _ (world.calls k)
        (get_or_create_key-Agrees w (world.calls n) world.store f (h n)).0 (h k))
]

unfoldable pub AllFill : List (ℕ × Weather) → Type 0
AllFill [] = Unit
AllFill ((n, w) ∷ steps) = Fills w.random × AllFill steps

run-Consistent :
    (steps : List (ℕ × Weather)) (world : World)
    → AllFill steps
    → Consistent world
    → Consistent (run_calls steps world)
unfolding run_calls AllFill
run-Consistent [] world f h = h
run-Consistent ((n, w) ∷ steps) world f h =
    run-Consistent steps (advance (n, w) world) f.1 (advance-Consistent n w world f.0 h)

started-Agrees : (store : Option Secret) → Agrees store started
unfolding Agrees
started-Agrees none = tt
started-Agrees (some s) = tt

returned_key :
    (store : Option Secret) (k : Text)
    → Agrees store (returned (ok k))
    → (s : Secret) × (store ≡ some s) × (s.material ≡ k) × (is_valid k ≡ true)
unfolding Agrees
returned_key none k a = absurd a
returned_key (some s) k a = (s, refl, a.0, a.1)

-- If every random key that is drawn has its 32 bytes, then from any Secret or none, and for any
-- steps of any number of concurrent calls of GetOrCreateKey, which alone change the Secret, all
-- calls that return a key return the same valid one, and the Secret holds it.
pub run_calls_converge :
    (store : Option Secret) (steps : List (ℕ × Weather)) (m n : ℕ) (a b : Text)
    → AllFill steps
    → (run_calls steps (all_started store)).calls m ≡ returned (ok a)
    → (run_calls steps (all_started store)).calls n ≡ returned (ok b)
    → (a ≡ b)
      × (s : Secret) × ((run_calls steps (all_started store)).store ≡ some s)
      × (s.material ≡ a)
      × (is_valid a ≡ true)
unfolding Consistent all_started
run_calls_converge store steps m n a b f p q =
    let h = run-Consistent steps (all_started store) f (λ k. started-Agrees store) in
    let world = run_calls steps (all_started store) in
    let (s, e, u, v) = returned_key world.store a (subst (Agrees world.store) p (h m)) in
    let (t, g, x, y) = returned_key world.store b (subst (Agrees world.store) q (h n)) in
    (cc, s, e, u, v)
