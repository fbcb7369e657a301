-- ===== src/Controller/FreshnessGate.antt =====
-- internal/controller/freshness_gate.go: the desired-hash gate that every gated reconciler calls.
-- A call returns the latch that it leaves behind and the decision that it counts in the metric.
pub mod Soundness
pub mod Cycle
pub mod Convergence
pub mod Stamp
pub mod Persisted
pub mod Patches
pub mod Failures
mod Examples
use flareway.Base.{
  ℕ, ◌≡◌, Bool, true, false, ◌||◌, ◌&&◌, not, Option, none, some, String, if◌then◌else◌, ltb,
  is_some, get_or,
}
use flareway.Base.Classes.{◌==◌, string_eq}
use flareway.Base.Durations.{ℤ, pos, lt_ℤ}
use flareway.Freshness.Policy.{
  Grade, Policy, ttl, Decision, Gate, unset, closed, closed_hash, is_not_gated, evaluate,
  evaluate_sweep_confirmed,
}
use flareway.Freshness.Latch.{
  LatchKey, Latch, is_invalidated, verified_at, confirmed_at, forget, clear, remove, mark_verified,
  set_baseline,
}

pub record GateInput (Spec : Type 0) : Type 0 where
  pub kind : String
  pub namespace : String
  pub name : String
  pub uid : String
  pub remote_id : String
  pub account_id : String
  pub cluster_id : String
  pub spec : Spec

pub record GateDecision : Type 0 where
  pub gate : Gate
  pub desired_hash : String

abbrev pub no_decision : GateDecision
no_decision = record { gate = closed unset; desired_hash = "" }

pub record GateStamp (Observed : Type 0) : Type 0 where
  pub hash : String
  pub at : ℕ
  pub content : Option (Observed → Bool)

-- `verified.After(applied)` replaces the persisted time, whose nil is the zero Time.
unfoldable pub latest_verify : ℕ → Option ℕ → ℕ
latest_verify applied none = applied
latest_verify applied (some verified) = if ltb applied verified then verified else applied

-- `swept.Open && (!gate.Open || swept.Requeue > gate.Requeue)`
unfoldable pub better_gate : Gate → Gate → Gate
better_gate gate swept =
    if swept.is_open && (not gate.is_open || lt_ℤ gate.requeue swept.requeue) then swept else gate

pub record GateOutcome (Observed : Type 0) : Type 0 where
  pub decision : GateDecision
  pub latch : Option (Latch Observed)
  pub observed : Option Decision

module _ {Observed : Type 0} where
  -- The verdict, before the latch forgets and the metric counts.
  unfoldable pub judge :
      Policy → Option (Latch Observed) → Grade → LatchKey → String → String → Option ℕ → ℕ → Gate
  judge policy latch grade key applied_hash desired_hash applied_at now =
      let invalidated = is_invalidated latch key in
      let applied = latest_verify (get_or applied_at 0) (verified_at latch key desired_hash) in
      let gate = evaluate policy grade applied_hash desired_hash applied now invalidated in
      elim (confirmed_at latch key desired_hash) [
        | none ↦ gate
        | some confirmed ↦ better_gate gate (
            evaluate_sweep_confirmed policy grade applied_hash desired_hash confirmed now
              invalidated)
      ]

  unfoldable pub evaluate_gate_with_hash :
      Policy
      → Option (Latch Observed)
      → Grade
      → LatchKey
      → String
      → String
      → Option ℕ
      → ℕ
      → GateOutcome Observed
  evaluate_gate_with_hash policy latch grade key applied_hash desired_hash applied_at now =
      let gate = judge policy latch grade key applied_hash desired_hash applied_at now in
      record {
        decision = record { gate = gate; desired_hash = desired_hash };
        latch =
            if not gate.is_open && not (is_not_gated gate.decision)
            then forget latch key
            else latch;
        observed = if is_not_gated gate.decision then none else some gate.decision;
      }

  -- DesiredHash serialises and digests the input; `none` is its error.
  unfoldable pub evaluate_gate :
      {Spec : Type 0}
      → (GateInput Spec → Option String)
      → Policy
      → Option (Latch Observed)
      → Grade
      → GateInput Spec
      → String
      → Option ℕ
      → ℕ
      → GateOutcome Observed
  evaluate_gate hash policy latch grade input applied_hash applied_at now =
      let refused : GateOutcome Observed = record {
        decision = no_decision;
        latch = latch;
        observed = some closed_hash;
      } in
      elim (hash input) [
        | none ↦ refused
        | some desired ↦
            if desired == ""
            then refused
            else evaluate_gate_with_hash policy latch grade
                (input.kind, (input.namespace, input.name)) applied_hash desired applied_at now
      ]

  unfoldable pub clear_gate : Option (Latch Observed) → LatchKey → Option (Latch Observed)
  clear_gate latch key = clear latch key

  -- The result of the initial Get: `none` is success, `some true` a NotFound, `some false` another error.
  unfoldable pub release_gone_object :
      Option (Latch Observed) → LatchKey → Option Bool → Option (Latch Observed) × Option Bool
  release_gone_object latch key none = (latch, none)
  release_gone_object latch key (some true) = (remove latch key, none)
  release_gone_object latch key (some false) = (latch, some false)

  unfoldable pub record_gate_verification :
      Option (Latch Observed) → LatchKey → GateStamp Observed → Option (Latch Observed)
  record_gate_verification latch key stamp =
      set_baseline (mark_verified latch key stamp.hash stamp.at) key stamp.hash stamp.content

  unfoldable pub content_baseline : Option (Observed → Bool) → Observed → Option (Observed → Bool)
  content_baseline none verified = none
  content_baseline (some matches) verified = if matches verified then some matches else none

  unfoldable pub new_gate_stamp : String → ℕ → GateStamp Observed
  new_gate_stamp hash at = record { hash = hash; at = at; content = none }

  unfoldable pub with_content : GateStamp Observed → Option (Observed → Bool) → GateStamp Observed
  with_content stamp matches = record stamp { content = matches }

  -- The hash and time that status must hold, and whether they changed.
  unfoldable pub next_gate_stamp :
      String → Option ℕ → GateStamp Observed → String × (Option ℕ × Bool)
  next_gate_stamp stored_hash stored_at stamp =
      if stamp.hash == stored_hash && is_some stored_at
      then (stored_hash, (stored_at, false))
      else (stamp.hash, (some stamp.at, true))

unfoldable pub converged_requeue : Policy → Grade → ℤ → ℤ
converged_requeue policy grade fallback =
    let t = ttl policy grade in if lt_ℤ (pos 0) t then t else fallback
