-- ===== src/Controller/FreshnessGate/Soundness.antt =====
-- Why an open gate of internal/controller/freshness_gate.go may be trusted.
use flareway.Base.{
  ℕ, ◌≡◌, ◌⊎◌, inl, inr, refl, true, Option, none, some, String, arith, get_or, ltb, Option-cases,
  Bool-cases,
}
use flareway.Base.Classes.{string_eq}
use flareway.Base.Durations.{double}
use flareway.Freshness.Policy.{Grade, Policy, Gate, ttl, validate, evaluate}
use flareway.Freshness.Evaluation.{IsRepresentable, IsFresh, evaluate-IsFresh}
use flareway.Freshness.Expiry.{evaluate_sweep_confirmed-IsFresh}
use flareway.Freshness.Latch.{LatchKey, Latch, is_invalidated, verified_at, confirmed_at}
use flareway.Controller.FreshnessGate.{latest_verify, better_gate, judge, evaluate_gate_with_hash}

latest_verify_cases :
    (applied_at verified : Option ℕ) (P : ℕ → Type 0)
    → (P 0 → ⊥)
    → P (latest_verify (get_or applied_at 0) verified)
    → (t : ℕ) × ((applied_at ≡ some t) ⊎ (verified ≡ some t)) × P t
unfolding latest_verify
latest_verify_cases none none P z h = absurd (z h)
latest_verify_cases (some t) none P z h = (t, inl refl, h)
latest_verify_cases none (some v) P z h = elim (Bool-cases (ltb 0 v)) [
  | inl e ↦ (v, inr refl, rw e at h)
  | inr e ↦ absurd (z (rw e at h))
]
latest_verify_cases (some t) (some v) P z h = elim (Bool-cases (ltb t v)) [
  | inl e ↦ (v, inr refl, rw e at h)
  | inr e ↦ (t, inl refl, rw e at h)
]

better_gate_open :
    (gate swept : Gate)
    → (better_gate gate swept).is_open ≡ true
    → (gate.is_open ≡ true) ⊎ (swept.is_open ≡ true)
unfolding better_gate
better_gate_open gate swept h = ground arith

module _ {Observed : Type 0} (p : Policy) (l : Option (Latch Observed)) (g : Grade) (k : LatchKey)
    (applied desired : String) (applied_at : Option ℕ) (now : ℕ) where
  -- A verify of the desired hash within the TTL, persisted or remembered, or a sweep's confirmation
  -- of it within twice the TTL.
  abbrev pub Evidence : Type 0
  Evidence =
      ((t : ℕ) × ((applied_at ≡ some t) ⊎ (verified_at l k desired ≡ some t))
        × IsFresh (ttl p g) g applied desired t now (is_invalidated l k))
      ⊎ ((t : ℕ) × (confirmed_at l k desired ≡ some t)
          × IsFresh (double (ttl p g)) g applied desired t now (is_invalidated l k))

  plain :
      IsRepresentable p
      → (evaluate p g applied desired
          (latest_verify (get_or applied_at 0) (verified_at l k desired))
          now
          (is_invalidated l k)).is_open
        ≡ true
      → Evidence
  plain r h = inl (
      latest_verify_cases applied_at (verified_at l k desired)
        (λ t. IsFresh (ttl p g) g applied desired t now (is_invalidated l k))
        (λ f. absurd (omega (arith, f.stamped)))
        ((evaluate-IsFresh p g applied desired _ now (is_invalidated l k) r).0 h))

  judge-Evidence :
      IsRepresentable p
      → validate p ≡ none
      → (judge p l g k applied desired applied_at now).is_open ≡ true
      → Evidence
  unfolding judge
  judge-Evidence r v h = elim (Option-cases (confirmed_at l k desired)) [
    | inl e ↦ plain r (rw (e, judge) at h)
    | inr (t, e) ↦ elim (better_gate_open _ _ (rw (e, judge) at h)) [
      | inl o ↦ plain r o
      | inr o ↦ inr (
        t,
        e,
        (evaluate_sweep_confirmed-IsFresh p g applied desired t now (is_invalidated l k) r v o).0,
      )
    ]
  ]

  -- Under a policy of int64 durations that Validate accepts, the gate of a reconciler opens only on
  -- evidence for the desired hash: a verify of it, persisted or remembered, less than the TTL ago,
  -- or a confirmation of it by the sweep less than twice the TTL ago, with the object not
  -- invalidated and the applied hash equal to the desired one.
  pub evaluate_gate_with_hash-Evidence :
      IsRepresentable p
      → validate p ≡ none
      → (evaluate_gate_with_hash p l g k applied desired applied_at now).decision.gate.is_open
        ≡ true
      → Evidence
  unfolding evaluate_gate_with_hash
  evaluate_gate_with_hash-Evidence r v h = judge-Evidence r v h
