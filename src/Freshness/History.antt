-- ===== src/Freshness/History.antt =====
-- Sequences of calls on the latch of internal/freshness/latch.go, by any number of goroutines.
use flareway.Base.{
  ℕ, ◌≡◌, ◌≢◌, inl, inr, refl, ap, ◌∙◌, subst, Bool, true, false, ◌&&◌, Option, none, some, String,
  if◌then◌else◌, List, [], ◌∷◌, arith, Bool-cases,
}
use flareway.Base.Classes.{◌==◌, string_eq, pair_eq}
use text.Mathlib.TextEquality.{eq_iff}
use flareway.Freshness.Latch.{
  LatchKey, Verification, Baseline, Latch, new_latch, invalidate, is_invalidated, clear, forget,
  remove, mark_verified, verified_at, set_baseline, baseline_of, confirm, confirmed_at, recorded_at,
  supersedes, still, same_key, same_key_iff,
}

-- A call on the record of one object. `confirms` is the write half of ConfirmContent, for any hash
-- that an earlier read half returned.
pub data Call (Observed : Type 0) : Type 0 where
  invalidates : String → Call Observed
  clears forgets removes : Call Observed
  verifies : String → ℕ → Call Observed
  baselines : String → Option (Observed → Bool) → Call Observed
  confirms : String → ℕ → Call Observed

module _ {Observed : Type 0} where
  unfoldable pub step : Option (Latch Observed) → LatchKey × Call Observed → Option (Latch Observed)
  step l (k, invalidates reason) = invalidate l k reason
  step l (k, clears) = clear l k
  step l (k, forgets) = forget l k
  step l (k, removes) = remove l k
  step l (k, verifies hash at) = mark_verified l k hash at
  step l (k, baselines hash m) = set_baseline l k hash m
  step l (k, confirms hash at) = confirm l k hash at

  unfoldable pub run :
      Option (Latch Observed) → List (LatchKey × Call Observed) → Option (Latch Observed)
  run l [] = l
  run l (c ∷ cs) = run (step l c) cs

  -- A confirmation stands only beside the baseline that it confirms, and no hash is empty.
  abbrev pub Backed : Option Verification → Option (Baseline Observed) → Type 0
  Backed none none = Unit
  Backed none (some b) = b.hash ≢ ""
  Backed (some v) none = ⊥
  Backed (some v) (some b) = (b.hash ≡ v.hash) × (v.hash ≢ "")

  unfoldable pub confirmation_of : Option (Latch Observed) → LatchKey → Option Verification
  confirmation_of none j = none
  confirmation_of (some l) j = l.confirmed j

  abbrev pub IsConsistent : Option (Latch Observed) → Type 0
  IsConsistent l = (j : LatchKey) → Backed (confirmation_of l j) (baseline_of l j)

  still_sound :
      (b : Option (Baseline Observed)) (hash : String)
      → still b hash ≡ true
      → (x : Baseline Observed) × (b ≡ some x) × (x.hash ≡ hash)
  unfolding still
  still_sound none hash h = ground arith
  still_sound (some x) hash h = (x, refl, (eq_iff x.hash hash).0 h)

  backs_commit :
      (c : Option Verification) (b : Option (Baseline Observed)) (hash : String) (at : ℕ)
      → Backed c b
      → still b hash ≡ true
      → Backed (some (record { hash = hash; at = at })) b
  backs_commit c none hash at h e = ground (arith, still_sound none hash e)
  backs_commit none (some b) hash at h e = ground (arith, still_sound (some b) hash e)
  backs_commit (some v) (some b) hash at h e = ground (arith, still_sound (some b) hash e)

  step-IsConsistent :
      (l : Option (Latch Observed)) (c : LatchKey × Call Observed)
      → IsConsistent l
      → IsConsistent (step l c)
  unfolding step invalidate clear forget remove mark_verified set_baseline confirm confirmation_of
      baseline_of
  step-IsConsistent none (k, invalidates reason) h j = tt
  step-IsConsistent none (k, clears) h j = tt
  step-IsConsistent none (k, forgets) h j = tt
  step-IsConsistent none (k, removes) h j = tt
  step-IsConsistent none (k, verifies hash at) h j = tt
  step-IsConsistent none (k, baselines hash m) h j = tt
  step-IsConsistent none (k, confirms hash at) h j = tt
  step-IsConsistent (some l) (k, invalidates reason) h j = ground (arith, h j)
  step-IsConsistent (some l) (k, clears) h j = h j
  step-IsConsistent (some l) (k, forgets) h j = ground (arith, h j)
  step-IsConsistent (some l) (k, removes) h j = ground (arith, h j)
  step-IsConsistent (some l) (k, verifies hash at) h j = ground (arith, h j)
  step-IsConsistent (some l) (k, baselines hash none) h j = ground (arith, h j)
  step-IsConsistent (some l) (k, baselines hash (some m)) h j = ground (arith, h j, eq_iff hash "")
  step-IsConsistent (some l) (k, confirms hash at) h j =
      elim (Bool-cases (still (l.baselines k) hash && supersedes (l.confirmed k) hash at)) [
        | inr e ↦ rw e (h j)
        | inl e ↦ rw e (elim (Bool-cases (same_key k j)) [
          | inr d ↦ rw d (h j)
          | inl d ↦ rw d (
              subst (λ x. Backed (some (record { hash = hash; at = at })) (l.baselines x))
                ((same_key_iff k j).0 d)
                (backs_commit (l.confirmed k) (l.baselines k) hash at (h k) (ground arith)))
        ])
      ]

  run-IsConsistent :
      (l : Option (Latch Observed)) (cs : List (LatchKey × Call Observed))
      → IsConsistent l
      → IsConsistent (run l cs)
  unfolding run
  run-IsConsistent l [] h = h
  run-IsConsistent l (c ∷ cs) h = run-IsConsistent (step l c) cs (step-IsConsistent l c h)

  -- After any sequence of calls on a new latch, the two halves of ConfirmContent taken apart, every
  -- recorded confirmation is of the hash of the object's current baseline, and neither hash is
  -- empty.
  pub run-new-IsConsistent :
      (cs : List (LatchKey × Call Observed)) → IsConsistent (run new_latch cs)
  unfolding new_latch confirmation_of baseline_of
  run-new-IsConsistent cs = run-IsConsistent new_latch cs fresh
    where
      fresh : IsConsistent new_latch
      fresh j = tt

-- What a call may do to an object's invalidation.
abbrev pub releases : {Observed : Type 0} → Call Observed → Bool
releases clears = true
releases removes = true
releases _ = false

-- What a call on the object does to its verification.
abbrev pub after_call :
    {Observed : Type 0} → Option Verification → Call Observed → Option Verification
after_call v (invalidates reason) = none
after_call v clears = v
after_call v forgets = none
after_call v removes = none
after_call v (verifies hash at) = if hash == "" then v else some (record { hash = hash; at = at })
after_call v (baselines hash m) = v
after_call v (confirms hash at) = v

module _ {Observed : Type 0} where
  -- No Clear or Remove of the object among the calls.
  abbrev pub NeverReleased : LatchKey → List (LatchKey × Call Observed) → Type 0
  NeverReleased k [] = Unit
  NeverReleased k ((j, c) ∷ cs) = ((same_key j k && releases c) ≡ false) × NeverReleased k cs

  step_invalidated :
      (l : Option (Latch Observed)) (k j : LatchKey) (c : Call Observed)
      → (same_key j k && releases c) ≡ false
      → is_invalidated l k ≡ true
      → is_invalidated (step l (j, c)) k ≡ true
  unfolding step is_invalidated invalidate clear forget remove mark_verified set_baseline confirm
  step_invalidated l k j (invalidates reason) n h = ground arith
  step_invalidated l k j clears n h = ground arith
  step_invalidated l k j forgets n h = ground arith
  step_invalidated l k j removes n h = ground arith
  step_invalidated l k j (verifies hash at) n h = ground arith
  step_invalidated l k j (baselines hash m) n h = ground arith
  step_invalidated l k j (confirms hash at) n h = ground arith

  -- An invalidated object stays invalidated under any calls on the latch other than a Clear or a
  -- Remove of that object.
  pub run_invalidated :
      (l : Option (Latch Observed)) (k : LatchKey) (cs : List (LatchKey × Call Observed))
      → is_invalidated l k ≡ true
      → NeverReleased k cs
      → is_invalidated (run l cs) k ≡ true
  unfolding run
  run_invalidated l k [] h n = h
  run_invalidated l k ((j, c) ∷ cs) h n =
      run_invalidated (step l (j, c)) k cs (step_invalidated l k j c n.0 h) n.1

  -- The verify time that the calls on one object leave behind, read from the calls alone: `now` is
  -- the record before them.
  abbrev pub verify_after :
      LatchKey → Option Verification → List (LatchKey × Call Observed) → Option Verification
  verify_after k now [] = now
  verify_after k now ((j, c) ∷ cs) =
      verify_after k (if same_key j k then after_call now c else now) cs

  unfoldable pub verification_of : Option (Latch Observed) → LatchKey → Option Verification
  verification_of none k = none
  verification_of (some l) k = l.verified k

  if_some :
      (b : Bool) (x y : Latch Observed)
      → (m : Latch Observed) × ((if b then some x else some y) ≡ some m)
  if_some true x y = (x, refl)
  if_some false x y = (y, refl)

  step-some :
      (l : Latch Observed) (c : LatchKey × Call Observed)
      → (m : Latch Observed) × (step (some l) c ≡ some m)
  unfolding step invalidate clear forget remove mark_verified set_baseline confirm
  step-some l (k, invalidates reason) = (_, refl)
  step-some l (k, clears) = (_, refl)
  step-some l (k, forgets) = (_, refl)
  step-some l (k, removes) = (_, refl)
  step-some l (k, verifies hash at) = if_some _ _ _
  step-some l (k, baselines hash none) = (_, refl)
  step-some l (k, baselines hash (some m)) = if_some _ _ _
  step-some l (k, confirms hash at) = if_some _ _ _

  step_verified :
      (l : Latch Observed) (k j : LatchKey) (c : Call Observed)
      → verification_of (step (some l) (j, c)) k
        ≡ (if same_key j k then after_call (l.verified k) c else l.verified k)
  unfolding step invalidate clear forget remove mark_verified set_baseline confirm verification_of
  step_verified l k j (invalidates reason) = refl
  step_verified l k j clears = ground arith
  step_verified l k j forgets = refl
  step_verified l k j removes = refl
  step_verified l k j (verifies hash at) = ground arith
  step_verified l k j (baselines hash none) = ground arith
  step_verified l k j (baselines hash (some m)) = ground arith
  step_verified l k j (confirms hash at) = ground arith

  run_verified :
      (l : Latch Observed) (k : LatchKey) (cs : List (LatchKey × Call Observed))
      → verification_of (run (some l) cs) k ≡ verify_after k (l.verified k) cs
  unfolding run verification_of
  run_verified l k [] = refl
  run_verified l k ((j, c) ∷ cs) =
      let (m, e) = step-some l (j, c) in
      rw e (run_verified m k cs ∙ ap (λ v. verify_after k v cs) (rw e at (step_verified l k j c)))

  pub verified_at_lem :
      (l : Option (Latch Observed)) (k : LatchKey) (hash : String)
      → verified_at l k hash ≡ (if hash == "" then none else recorded_at (verification_of l k) hash)
  unfolding verified_at verification_of recorded_at
  verified_at_lem none k hash = ground arith
  verified_at_lem (some l) k hash = refl

  pub confirmed_at_lem :
      (l : Option (Latch Observed)) (k : LatchKey) (hash : String)
      → confirmed_at l k hash
        ≡ (if hash == "" then none else recorded_at (confirmation_of l k) hash)
  unfolding confirmed_at confirmation_of recorded_at
  confirmed_at_lem none k hash = ground arith
  confirmed_at_lem (some l) k hash = refl

  pub verified_at-run :
      (k : LatchKey) (hash : String) (cs : List (LatchKey × Call Observed))
      → verified_at (run new_latch cs) k hash
        ≡ (if hash == "" then none else recorded_at (verify_after k none cs) hash)
  unfolding new_latch
  verified_at-run k hash cs =
      verified_at_lem (run new_latch cs) k hash
      ∙ ap (λ v. if hash == "" then none else recorded_at v hash) (run_verified _ k cs)
