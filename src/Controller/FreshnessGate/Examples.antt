-- ===== src/Controller/FreshnessGate/Examples.antt =====
-- Runs of the desired-hash gate on concrete inputs.
use flareway.Base.{
  ◌↔◌, ◌≢◌, Option, ◌≡◌, refl, true, false, none, some, List, [], ◌∷◌, ℕ, arith, get_or,
}
use flareway.Base.Durations.{pos}
use flareway.Freshness.Policy.{
  authz, Policy, ttl, validate, evaluate, hash_mismatch, outside, open_for, is_always, is_not_gated,
}
use flareway.Freshness.Evaluation.{IsRepresentable}
use flareway.Freshness.Latch.{
  LatchKey, Latch, invalidate, is_invalidated, verified_at, confirmed_at, same_key, recorded_at,
}
use flareway.Freshness.History.{Call, invalidates, confirms, run}
use flareway.Controller.FreshnessGate.{
  clear_gate, next_gate_stamp, GateStamp, evaluate_gate_with_hash, judge, latest_verify,
}
use flareway.Controller.FreshnessGate.Soundness.{Evidence, evaluate_gate_with_hash-Evidence}
use flareway.Controller.FreshnessGate.Cycle.{invalidate_holds, closed_gate_forgets}
use flareway.Controller.FreshnessGate.Stamp.{
  Applied, Api, taken, lost, merge_patch, not_patched, patch, outcome, record_patched, persist_read,
  persist_gate_stamp,
}
use flareway.Controller.FreshnessGate.Persisted.{persisted_opens}
use flareway.Controller.FreshnessGate.Failures.{Fails, persist_gate_stamp-Fails}

abbrev short : Policy
short = record {
  authz_ttl = pos 60;
  traffic_ttl = pos 300;
  indirect_ttl = pos 1800;
  display_ttl = pos 0;
}

short-IsRepresentable : IsRepresentable short
short-IsRepresentable = record {
  authz_fits = omega arith;
  traffic_fits = omega arith;
  indirect_fits = omega arith;
  display_fits = omega arith;
}

short_valid : validate short ≡ none
unfolding validate
short_valid = refl

abbrev app : LatchKey
app = ("AccessApplication", ("default", "app"))

abbrev empty : Latch ℕ
empty = record {
  reasons = λ k. none;
  verified = λ k. none;
  baselines = λ k. none;
  confirmed = λ k. none;
}

open_now :
    (evaluate_gate_with_hash short
      (some empty)
      authz
      app
      "h"
      "h"
      (some 100)
      130).decision.gate.is_open
    ≡ true
unfolding evaluate_gate_with_hash judge latest_verify evaluate ttl hash_mismatch outside open_for
    is_always is_invalidated verified_at confirmed_at recorded_at
open_now = refl

evaluate_gate_with_hash-Evidence_example :
    Evidence short (some empty) authz app "h" "h" (some 100) 130
evaluate_gate_with_hash-Evidence_example =
    evaluate_gate_with_hash-Evidence short (some empty) authz app "h" "h" (some 100) 130
      short-IsRepresentable short_valid open_now

abbrev sweep : List (LatchKey × Call ℕ)
sweep = (app, confirms "h" 120) ∷ (app, invalidates "drifted again") ∷ []

invalidate_holds_example :
    (evaluate_gate_with_hash short
      (run (invalidate (some empty) app "drifted") sweep)
      authz
      app
      "h"
      "h"
      (some 100)
      130).decision.gate.is_open
    ≡ false
unfolding same_key
invalidate_holds_example =
    invalidate_holds short empty authz app "drifted" sweep "h" "h" (some 100) 130 (refl, (refl, tt))

closes :
    (evaluate_gate_with_hash short
      (some empty)
      authz
      app
      "old"
      "h"
      (some 100)
      130).decision.gate.is_open
    ≡ false
unfolding evaluate_gate_with_hash judge latest_verify evaluate ttl hash_mismatch outside open_for
    is_always is_invalidated verified_at confirmed_at recorded_at
closes = refl

is_gated :
    is_not_gated
      (evaluate_gate_with_hash short
        (some empty)
        authz
        app
        "old"
        "h"
        (some 100)
        130).decision.gate.decision
    ≡ false
unfolding evaluate_gate_with_hash judge latest_verify evaluate ttl hash_mismatch outside open_for
    is_always is_invalidated verified_at confirmed_at recorded_at
is_gated = refl

closed_gate_forgets_example :
    let o = evaluate_gate_with_hash short (some empty) authz app "old" "h" (some 100) 130 in
    (evaluate_gate_with_hash short
      (run o.latch sweep)
      authz
      app
      "h"
      "h"
      (some 100)
      140).decision.gate
    ≡ evaluate short authz "h" "h"
        (get_or (some 100) 0)
        140
        (is_invalidated (run o.latch sweep) app)
closed_gate_forgets_example =
    closed_gate_forgets short (some empty) authz app "old" "h" (some 100) 130 sweep "h" "h"
      (some 100) 140 closes is_gated (refl, (refl, tt))

abbrev stamp : GateStamp ℕ
stamp = record { hash = "h"; at = 200; content = none }

abbrev calm : Api
calm = record { reads = true; patches = taken }

-- The write is made, and its reply is lost.
abbrev unheard : Api
unheard = record { reads = true; patches = lost }

abbrev before : Applied
before = record { hash = "old"; at = some 100 }

persisted_opens_example :
    let o = persist_gate_stamp true true calm (λ s. s) (some empty) app stamp (some before) in
    (o.failure ≡ none)
    × (status : Applied) × (o.status ≡ some status)
    × (status.hash ≡ "h")
    × ((evaluate_gate_with_hash short
          (clear_gate o.latch app)
          authz
          app
          status.hash
          "h"
          status.at
          230).decision.gate.is_open
        ≡ true)
unfolding ttl
persisted_opens_example =
    persisted_opens short empty authz app stamp before 230 short-IsRepresentable (λ x. cc) (λ x. cc)
      (omega arith) (omega arith) (omega arith) (omega arith)

abbrev left_unheard : Option Applied
left_unheard = some (merge_patch before (record { hash = stamp.hash; at = some stamp.at }) before)

unheard_fails :
    (persist_gate_stamp true true unheard (λ s. s) (some empty) app stamp (some before)).failure
    ≡ some not_patched
unfolding persist_gate_stamp persist_read next_gate_stamp record_patched patch outcome
unheard_fails = refl

-- The status has the hash all the same.
unheard_written :
    (persist_gate_stamp true true unheard (λ s. s) (some empty) app stamp (some before)).status
    ≡ left_unheard
unfolding persist_gate_stamp persist_read next_gate_stamp record_patched patch outcome
unheard_written = refl

persist_gate_stamp-Fails_example :
    let o = persist_gate_stamp true true unheard (λ s. s) (some empty) app stamp (some before) in
    (((o.failure ≡ some not_patched) × (o.status ≡ left_unheard)) ↔ (
      (true ≡ true)
      × (stamp.hash ≢ "")
      × Fails true unheard (λ s. s) stamp (some before) not_patched left_unheard))
    × (o.failure ≡ some not_patched → o.latch ≡ some empty)
persist_gate_stamp-Fails_example =
    persist_gate_stamp-Fails true unheard (λ s. s) (some empty) app stamp true (some before)
      left_unheard not_patched
