-- ===== src/Controller/FreshnessGate/Persisted.antt =====
-- What persistGateStamp leaves in the status and the latch.
use flareway.Base.{
  ℕ, ◌-◌, ◌≤◌, ◌<◌, ◌≡◌, ◌≢◌, ◌⊎◌, inl, inr, refl, true, false, ◌&&◌, Option, none, some, String,
  arith, get_or, Bool-cases, is_some,
}
use flareway.Base.Classes.{◌==◌, string_eq}
use flareway.Base.Durations.{pos, ◌<ℤ◌}
use text.Mathlib.TextEquality.{eq_iff}
use flareway.Freshness.Policy.{Grade, always, Policy, ttl}
use flareway.Freshness.Evaluation.{IsRepresentable}
use flareway.Freshness.Latch.{LatchKey, Latch}
use flareway.Controller.FreshnessGate.{
  GateStamp, evaluate_gate_with_hash, record_gate_verification, clear_gate, next_gate_stamp,
}
use flareway.Controller.FreshnessGate.Convergence.{converged_opens}
use flareway.Controller.FreshnessGate.Stamp.{
  Applied, taken, whole_seconds, written, same_time, merge_patch, patch, PersistOutcome, outcome,
  record_patched, persist_read, persist_gate_stamp,
}

merged :
    (before : Applied) (hash : String) (at : ℕ)
    → let status = merge_patch before (record { hash = hash; at = some at }) before in
      (status.hash ≡ hash) × ((status.at ≡ before.at) ⊎ (status.at ≡ some (whole_seconds at)))
unfolding merge_patch written
merged before hash at = (
  ground (arith, eq_iff hash before.hash),
  elim (Bool-cases (same_time (some (whole_seconds at)) before.at)) [
    | inl e ↦ inl (rw e refl)
    | inr e ↦ inr (rw e refl)
  ],
)

whole_seconds_le : (t : ℕ) → whole_seconds t ≤ t
unfolding whole_seconds
whole_seconds_le t = omega arith

not_future :
    (status before : Option ℕ) (t now : ℕ)
    → (status ≡ before) ⊎ (status ≡ some (whole_seconds t))
    → get_or before 0 ≤ now
    → t ≤ now
    → get_or status 0 ≤ now
not_future status before t now (inl e) h k = rw e h
not_future status before t now (inr e) h k = rw e (omega (arith, whole_seconds_le t))

module _ {Observed : Type 0} where
  -- The latch and the status after a pass that was persisted.
  record Kept (o : PersistOutcome Observed) (l : Option (Latch Observed)) (k : LatchKey)
      (stamp : GateStamp Observed) (before status : Applied) : Type 0 where
    done : o.failure ≡ none
    recorded : o.latch ≡ record_gate_verification l k stamp
    stored : o.status ≡ some status
    hashed : status.hash ≡ stamp.hash
    timed : (status.at ≡ before.at) ⊎ (status.at ≡ some (whole_seconds stamp.at))

  read-Kept :
      (l : Option (Latch Observed)) (k : LatchKey) (stamp : GateStamp Observed) (before : Applied)
      → (status : Applied) × Kept
          (persist_read taken l k stamp before (some before))
          l
          k
          stamp
          before
          status
  unfolding persist_read next_gate_stamp patch record_patched outcome
  read-Kept l k stamp before = elim (Bool-cases (stamp.hash == before.hash && is_some before.at)) [
    | inl e ↦ (
      before,
      record {
        done = rw e refl;
        recorded = rw e refl;
        stored = rw e refl;
        hashed = ground (arith, eq_iff stamp.hash before.hash);
        timed = inl refl;
      },
    )
    | inr e ↦ (
      merge_patch before (record { hash = stamp.hash; at = some stamp.at }) before,
      record {
        done = rw e refl;
        recorded = rw e refl;
        stored = rw e refl;
        hashed = (merged before stamp.hash stamp.at).0;
        timed = (merged before stamp.hash stamp.at).1;
      },
    )
  ]

  persist-Kept :
      (l : Option (Latch Observed)) (k : LatchKey) (stamp : GateStamp Observed) (before : Applied)
      → stamp.hash ≢ ""
      → (status : Applied) × Kept
          (persist_gate_stamp true true
            (record { reads = true; patches = taken })
            (λ s. s)
            l
            k
            stamp
            (some before))
          l
          k
          stamp
          before
          status
  unfolding persist_gate_stamp
  persist-Kept l k stamp before h =
      let e : (stamp.hash == "") ≡ false = ground (arith, eq_iff stamp.hash "") in
      rw e (read-Kept l k stamp before)

  -- If the API server answers and nobody else writes the status meanwhile, persistGateStamp with a
  -- non-empty hash reports no error, the status then has the hash, and after clearGate the gate
  -- evaluated on that status is open for the hash from the time of the stamp until less than a TTL
  -- later, whatever the latch held before, for a gated grade, a policy of int64 durations and an
  -- apply time in the status before that is not in the future.
  pub persisted_opens :
      (p : Policy) (l : Latch Observed) (g : Grade) (k : LatchKey) (stamp : GateStamp Observed)
      (before : Applied) (now : ℕ)
      → IsRepresentable p
      → g ≢ always
      → stamp.hash ≢ ""
      → 0 < stamp.at
      → stamp.at ≤ now
      → pos (now - stamp.at) <ℤ ttl p g
      → get_or before.at 0 ≤ now
      → let o =
          persist_gate_stamp true true
            (record { reads = true; patches = taken })
            (λ s. s)
            (some l)
            k
            stamp
            (some before) in
        (o.failure ≡ none)
        × (status : Applied) × (o.status ≡ some status)
        × (status.hash ≡ stamp.hash)
        × ((evaluate_gate_with_hash p
              (clear_gate o.latch k)
              g
              k
              status.hash
              stamp.hash
              status.at
              now).decision.gate.is_open
            ≡ true)
  persisted_opens p l g k stamp before now r n h z q y w =
      let (status, kept) = persist-Kept (some l) k stamp before h in
      (
        kept.done,
        status,
        kept.stored,
        kept.hashed,
        rw (kept.recorded, kept.hashed)
            (converged_opens p l g k stamp status.at now r n h z q y
              (not_future status.at before.at stamp.at now kept.timed w q)),
      )
