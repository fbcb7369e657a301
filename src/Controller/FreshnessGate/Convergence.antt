-- ===== src/Controller/FreshnessGate/Convergence.antt =====
-- What a converged pass writes down, by internal/controller/freshness_gate.go.
use flareway.Base.{
  ℕ, ◌-◌, ◌≤◌, ◌<◌, ◌≡◌, ◌≢◌, inl, inr, refl, Bool, true, false, ◌&&◌, Option, none, some, String,
  arith, get_or, Bool-cases, is_some,
}
use flareway.Base.Classes.{◌==◌, string_eq}
use flareway.Base.Durations.{pos, ◌<ℤ◌}
use text.Mathlib.TextEquality.{eq_iff}
use flareway.Freshness.Policy.{Grade, always, Policy, Gate, ttl}
use flareway.Freshness.Evaluation.{IsRepresentable, evaluate-IsFresh}
use flareway.Freshness.Latch.{
  LatchKey, Latch, is_invalidated, verified_at, confirmed_at, recorded_at, same_key_refl,
  mark_verified, set_baseline, clear,
}
use flareway.Controller.FreshnessGate.{
  GateStamp, latest_verify, better_gate, judge, evaluate_gate_with_hash, record_gate_verification,
  clear_gate, next_gate_stamp,
}

string_refl : (s : String) → (s == s) ≡ true
string_refl s = (eq_iff s s).1 refl

better_gate_keeps :
    (gate swept : Gate) → gate.is_open ≡ true → (better_gate gate swept).is_open ≡ true
unfolding better_gate
better_gate_keeps gate swept h = ground arith

-- Both times lie in the past, and the newer one is as young as the stamp.
latest_young :
    (applied now at : ℕ)
    → applied ≤ now
    → at ≤ now
    → (at ≤ latest_verify applied (some at)) × (latest_verify applied (some at) ≤ now)
unfolding latest_verify
latest_young applied now at h k = ground arith

module _ {Observed : Type 0} where
  -- The latch after a converged pass.
  abbrev pub converged : Latch Observed → LatchKey → GateStamp Observed → Option (Latch Observed)
  converged l k stamp = clear_gate (record_gate_verification (some l) k stamp) k

  record Recorded (l : Option (Latch Observed)) (k : LatchKey) (hash : String) (at : ℕ)
      : Type 0 where
    verified : verified_at l k hash ≡ some at
    valid : is_invalidated l k ≡ false
    confirmed : confirmed_at l k hash ≡ none

  converged-Recorded :
      (l : Latch Observed) (k : LatchKey) (hash : String) (at : ℕ) (c : Option (Observed → Bool))
      → (hash == "") ≡ false
      → Recorded (converged l k (record { hash = hash; at = at; content = c })) k hash at
  unfolding clear_gate record_gate_verification clear set_baseline mark_verified verified_at
      is_invalidated confirmed_at recorded_at
  converged-Recorded l k hash at none e = record {
    verified = rw (e, mark_verified) (rw (e, same_key_refl k, string_refl hash));
    valid = rw (e, mark_verified) (rw (same_key_refl k));
    confirmed = rw (e, mark_verified) (rw (e, same_key_refl k));
  }
  converged-Recorded l k hash at (some m) e = record {
    verified =
        rw (e, mark_verified) (rw (e, set_baseline) (rw (e, same_key_refl k, string_refl hash)));
    valid = rw (e, mark_verified) (rw (e, set_baseline) (rw (same_key_refl k)));
    confirmed = rw (e, mark_verified) (rw (e, set_baseline) (rw (e, same_key_refl k)));
  }

  -- After a pass records a verification with a non-empty hash and clears the invalidation, the gate
  -- is open for that hash from the time of the stamp until less than a TTL later, whatever the
  -- latch held before, for a gated grade, a policy of int64 durations and a persisted apply time
  -- that is not in the future.
  pub converged_opens :
      (p : Policy) (l : Latch Observed) (g : Grade) (k : LatchKey) (stamp : GateStamp Observed)
      (applied_at : Option ℕ) (now : ℕ)
      → IsRepresentable p
      → g ≢ always
      → stamp.hash ≢ ""
      → 0 < stamp.at
      → stamp.at ≤ now
      → pos (now - stamp.at) <ℤ ttl p g
      → get_or applied_at 0 ≤ now
      → (evaluate_gate_with_hash p
          (converged l k stamp)
          g
          k
          stamp.hash
          stamp.hash
          applied_at
          now).decision.gate.is_open
        ≡ true
  unfolding evaluate_gate_with_hash judge
  converged_opens p l g k stamp applied_at now r n h z q y w =
      let t =
        converged-Recorded l k stamp.hash stamp.at stamp.content
          (ground (arith, eq_iff stamp.hash "")) in
      let (low, high) = latest_young (get_or applied_at 0) now stamp.at w q in
      rw (t.confirmed, t.verified, t.valid, judge)
        (rw (
          (evaluate-IsFresh p g stamp.hash stamp.hash
              (latest_verify (get_or applied_at 0) (some stamp.at)) now false r).1
            (record {
              gated = n;
              valid = refl;
              known = h;
              same = refl;
              stamped = omega arith;
              past = high;
              young = omega arith;
            })))

  -- The hash that nextGateStamp stores is the stamp's, and given what it stored, it reports no
  -- change for any further stamp of the same hash.
  next_gate_stamp_stable :
      (stored_hash : String) (stored_at : Option ℕ) (stamp again : GateStamp Observed)
      → again.hash ≡ stamp.hash
      → let (hash, (at, changed)) = next_gate_stamp stored_hash stored_at stamp in
        (hash ≡ stamp.hash) × (next_gate_stamp hash at again ≡ (hash, (at, false)))
  unfolding next_gate_stamp
  next_gate_stamp_stable stored_hash stored_at stamp again e =
      elim (Bool-cases (stamp.hash == stored_hash && is_some stored_at)) [
        | inl h ↦ rw h (ground (arith, eq_iff stamp.hash stored_hash), rw e (rw h))
        | inr h ↦ rw h (refl, rw e (rw (string_refl stamp.hash)))
      ]
