-- ===== src/Controller/FreshnessGate/Cycle.antt =====
-- The gate of internal/controller/freshness_gate.go over time: what a closed gate forgets, what an
-- invalidation holds shut, and what a converged pass opens again.
use flareway.Base.{
  ℕ, ◌≡◌, inl, inr, refl, Bool, true, false, ◌&&◌, Option, none, some, String, if◌then◌else◌, arith,
  List, [], ◌∷◌, get_or, Option-cases, Bool-cases,
}
use flareway.Base.Classes.{◌==◌, string_eq}
use flareway.Freshness.Policy.{
  Grade, Policy, Gate, evaluate, evaluate_sweep_confirmed, is_not_gated,
}
use flareway.Freshness.Latch.{
  LatchKey, Latch, Baseline, supersedes, same_key_iff, is_invalidated, verified_at, confirmed_at,
  recorded_at, forget, invalidate, confirm, baseline_of, same_key, same_key_refl, still,
}
use flareway.Freshness.History.{
  Call, invalidates, clears, forgets, removes, verifies, baselines, confirms, step, run,
  NeverReleased, run_invalidated, verification_of, confirmation_of, verified_at_lem,
  confirmed_at_lem,
}
use flareway.Controller.FreshnessGate.{latest_verify, better_gate, judge, evaluate_gate_with_hash}

evaluate_invalidated :
    (p : Policy) (g : Grade) (a d : String) (at now : ℕ)
    → (evaluate p g a d at now true).is_open ≡ false
unfolding evaluate
evaluate_invalidated p g a d at now = ground arith

evaluate_sweep_confirmed_invalidated :
    (p : Policy) (g : Grade) (a d : String) (at now : ℕ)
    → (evaluate_sweep_confirmed p g a d at now true).is_open ≡ false
unfolding evaluate_sweep_confirmed
evaluate_sweep_confirmed_invalidated p g a d at now = ground arith

better_gate_closed :
    (gate swept : Gate)
    → gate.is_open ≡ false
    → swept.is_open ≡ false
    → (better_gate gate swept).is_open ≡ false
unfolding better_gate
better_gate_closed gate swept h k = ground arith

nothing : (hash : String) → (if hash == "" then none else recorded_at none hash) ≡ none
unfolding recorded_at
nothing hash = ground arith

module _ {Observed : Type 0} where
  pub judge_invalidated :
      (p : Policy) (l : Option (Latch Observed)) (g : Grade) (k : LatchKey) (a d : String)
      (at : Option ℕ) (now : ℕ)
      → is_invalidated l k ≡ true
      → (judge p l g k a d at now).is_open ≡ false
  unfolding judge
  judge_invalidated p l g k a d at now h = elim (Option-cases (confirmed_at l k d)) [
    | inl e ↦ rw (e, judge) (rw h (evaluate_invalidated p g a d _ now))
    | inr (t, e) ↦
        rw (e, judge)
          (rw h (
            better_gate_closed _ _ (evaluate_invalidated p g a d _ now)
              (evaluate_sweep_confirmed_invalidated p g a d t now)))
  ]

  invalidated :
      (l : Latch Observed) (k : LatchKey) (reason : String)
      → is_invalidated (invalidate (some l) k reason) k ≡ true
  unfolding is_invalidated invalidate
  invalidated l k reason = rw (same_key_refl k)

  -- Once an object is invalidated, no calls on the latch other than a Clear or a Remove of that
  -- object let its gate open, for any policy, hashes and times.
  pub invalidate_holds :
      (p : Policy) (l : Latch Observed) (g : Grade) (k : LatchKey) (reason : String)
      (cs : List (LatchKey × Call Observed)) (a d : String) (at : Option ℕ) (now : ℕ)
      → NeverReleased k cs
      → (evaluate_gate_with_hash p
          (run (invalidate (some l) k reason) cs)
          g
          k
          a
          d
          at
          now).decision.gate.is_open
        ≡ false
  unfolding evaluate_gate_with_hash
  invalidate_holds p l g k reason cs a d at now n =
      judge_invalidated p _ g k a d at now (run_invalidated _ k cs (invalidated l k reason) n)

  -- Nothing in memory speaks for the object.
  record Forgotten (l : Option (Latch Observed)) (k : LatchKey) : Type 0 where
    verified : verification_of l k ≡ none
    confirmed : confirmation_of l k ≡ none
    baseline : baseline_of l k ≡ none

  forget-Forgotten : (l : Option (Latch Observed)) (k : LatchKey) → Forgotten (forget l k) k
  unfolding forget verification_of confirmation_of baseline_of
  forget-Forgotten none k = record { verified = refl; confirmed = refl; baseline = refl }
  forget-Forgotten (some l) k = record {
    verified = rw (same_key_refl k);
    confirmed = rw (same_key_refl k);
    baseline = rw (same_key_refl k);
  }

  -- The calls that the drift sweep makes.
  abbrev pub sweeps : Call Observed → Bool
  sweeps (invalidates reason) = true
  sweeps (confirms hash at) = true
  sweeps _ = false

  abbrev pub SweepOnly : List (LatchKey × Call Observed) → Type 0
  SweepOnly [] = Unit
  SweepOnly ((j, c) ∷ cs) = (sweeps c ≡ true) × SweepOnly cs

  no_commit :
      (b : Option (Baseline Observed)) (newer : Bool) (hash : String)
      → b ≡ none
      → (still b hash && newer) ≡ true
      → ⊥
  unfolding still
  no_commit b newer hash e h = ground arith

  step-Forgotten :
      (l : Option (Latch Observed)) (k j : LatchKey) (c : Call Observed)
      → sweeps c ≡ true
      → Forgotten l k
      → Forgotten (step l (j, c)) k
  unfolding step invalidate confirm verification_of confirmation_of baseline_of
  step-Forgotten none k j (invalidates reason) q f = f
  step-Forgotten none k j (confirms hash at) q f = f
  step-Forgotten (some l) k j (invalidates reason) q f = ground arith
  step-Forgotten (some l) k j (confirms hash at) q f =
      elim (Bool-cases (still (l.baselines j) hash && supersedes (l.confirmed j) hash at)) [
        | inr e ↦ rw e f
        | inl e ↦ elim (Bool-cases (same_key j k)) [
          | inr d ↦ rw e (record {
            verified = f.verified;
            confirmed = rw d f.confirmed;
            baseline = f.baseline;
          })
          | inl d ↦ absurd (
              no_commit (l.baselines j) (supersedes (l.confirmed j) hash at) hash
                (rw (← (same_key_iff j k).0 d) at f.baseline) e)
        ]
      ]
  step-Forgotten l k j clears q f = absurd (cc)
  step-Forgotten l k j forgets q f = absurd (cc)
  step-Forgotten l k j removes q f = absurd (cc)
  step-Forgotten l k j (verifies hash at) q f = absurd (cc)
  step-Forgotten l k j (baselines hash m) q f = absurd (cc)

  run-Forgotten :
      (l : Option (Latch Observed)) (k : LatchKey) (cs : List (LatchKey × Call Observed))
      → SweepOnly cs
      → Forgotten l k
      → Forgotten (run l cs) k
  unfolding run
  run-Forgotten l k [] q f = f
  run-Forgotten l k ((j, c) ∷ cs) q f =
      run-Forgotten (step l (j, c)) k cs q.1 (step-Forgotten l k j c q.0 f)

  judge-Forgotten :
      (p : Policy) (l : Option (Latch Observed)) (g : Grade) (k : LatchKey) (a d : String)
      (at : Option ℕ) (now : ℕ)
      → Forgotten l k
      → judge p l g k a d at now ≡ evaluate p g a d (get_or at 0) now (is_invalidated l k)
  unfolding judge latest_verify
  judge-Forgotten p l g k a d at now f = rw (no_confirmation, no_verification, judge, latest_verify)
    where
      no_confirmation : confirmed_at l k d ≡ none
      no_confirmation = rw (confirmed_at_lem l k d) (rw f.confirmed (nothing d))

      no_verification : verified_at l k d ≡ none
      no_verification = rw (verified_at_lem l k d) (rw f.verified (nothing d))

  -- After a gate closes for a gated grade, and as long as only the sweep's calls follow, the next
  -- verdict, for any hashes and times, is Evaluate's on the persisted apply time alone.
  pub closed_gate_forgets :
      (p : Policy) (l : Option (Latch Observed)) (g : Grade) (k : LatchKey) (a d : String)
      (at : Option ℕ) (now : ℕ) (cs : List (LatchKey × Call Observed)) (a' d' : String)
      (at' : Option ℕ) (now' : ℕ)
      → let o = evaluate_gate_with_hash p l g k a d at now in
        o.decision.gate.is_open ≡ false
        → is_not_gated o.decision.gate.decision ≡ false
        → SweepOnly cs
        → (evaluate_gate_with_hash p (run o.latch cs) g k a' d' at' now').decision.gate
          ≡ evaluate p g a' d' (get_or at' 0) now' (is_invalidated (run o.latch cs) k)
  unfolding evaluate_gate_with_hash
  closed_gate_forgets p l g k a d at now cs a' d' at' now' h n q =
      rw (h, n)
        (judge-Forgotten p _ g k a' d' at' now' (run-Forgotten _ k cs q (forget-Forgotten l k)))
