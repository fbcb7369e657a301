-- ===== src/Xds/Tracker/Examples.antt =====
-- Runs of the tracker on concrete inputs.
use flareway.Base.{
  ◌≡◌, ◌↔◌, inl, inr, Bool-cases, refl, true, false, Option, none, some, String, List, [], ◌∷◌, ℕ,
}
use flareway.Base.Classes.{◌==◌, nat_eq, string_eq, option_eq, differ}
use flareway.Base.Maps.{Map, get, put, delete, every, exists}
use flareway.Xds.Tracker.State.{
  AckTracker, ExpectedSnapshot, PendingResponse, Request, Nack, new_ack_tracker, has, identify,
  subscribe, node_of, put_ack, put_nack, put_pending, forget_initial_fingerprint,
}
use flareway.Xds.Tracker.Requests.{
  accept_initial_versions, on_request, on_response, answer, on_ack, on_nack, ack_evidence,
}
use flareway.Xds.Tracker.Snapshots.{
  is_on, record_snapshot, on_stream_closed, expect_snapshot, already_expected,
}
use flareway.Xds.Tracker.Acked.{
  is_acked_for, has_stream, holds, proves, rejects, fingerprint_of, is_acked,
}
use flareway.Xds.Tracker.Details.{
  convergence_details, nothing, type_state, stale_ack, last_nack, stream_ids, unproved_state,
  has_ack, insert_id, ids_in, first_nack,
}
use flareway.Xds.Tracker.Runs.{Event, response, request, closed, expects, step, run}
use flareway.Xds.Tracker.Convergence.{OnNode, Converged, is_acked-Converged}
use flareway.Xds.Tracker.Blank.{IsBlank}
use flareway.Xds.Tracker.Invariant.{run_closed-IsBlank}
use flareway.Xds.Tracker.Proof.{republished_needs_proof}
use flareway.Xds.Tracker.Answers.{Answers}
use flareway.Xds.Tracker.Explained.{stale_unexplained}

-- The digest of a version map: its first version.
abbrev first_version : Map String String → Option String
first_version [] = none
first_version ((n, v) ∷ m) = some v

abbrev live : Map ℕ String
live = (1, "edge") ∷ (2, "edge") ∷ []

abbrev listeners : Map String String
listeners = ("listener", "fp2") ∷ []

abbrev expected_v2 : ExpectedSnapshot
expected_v2 = record { version = "v2"; required = "listener" ∷ [] }

abbrev sent_v2 : PendingResponse
sent_v2 = record { node = "edge"; version = "v2" }

-- Two streams of one node, of which the first has a response under way and the second has a proof of
-- the version before.
abbrev waiting : AckTracker
waiting = record {
  pending = λ s ty n. some sent_v2;
  nodes = live;
  subscriptions = λ s ty. true;
  expected = λ n. some expected_v2;
  fingerprints = λ n. listeners;
  acked = λ s ty. some (record { version = "v1"; fingerprint = "fp1" });
  nacks = λ s. none;
  initial_fingerprints = λ s ty. none;
}

abbrev proved : AckTracker
proved = record waiting { acked = λ s ty. some (record { version = "v2"; fingerprint = "fp2" }) }

abbrev refusal : Nack
refusal = record { version = "v2"; type_url = "listener"; detail = "bad listener" }

abbrev refused : AckTracker
refused = record waiting { nacks = λ s. some refusal }

abbrev ack : Request
ack = record {
  cluster = "";
  type_url = "listener";
  response_nonce = "7";
  error_detail = none;
  initial_versions = [];
}

abbrev nack : Request
nack = record {
  cluster = "";
  type_url = "listener";
  response_nonce = "7";
  error_detail = some "bad listener";
  initial_versions = [];
}

Answers-ack : Answers waiting 1 ack sent_v2
Answers-ack = record { nonce = λ h. cc; pending = refl }

Answers-nack : Answers waiting 1 nack sent_v2
Answers-nack = record { nonce = λ h. cc; pending = refl }

is_acked-Converged_example : (is_acked waiting "edge" "v2" ≡ true) ↔ Converged waiting "edge" "v2"
is_acked-Converged_example = is_acked-Converged waiting "edge" "v2"

abbrev session : List Event
session =
    request 1 (some (record ack { cluster = "edge"; response_nonce = "" }))
    ∷ expects "edge" "v2" listeners ("listener" ∷ [])
    ∷ response 1 (some ack)
        (some (record { nonce = "7"; type_url = "listener"; system_version = "v2" }))
    ∷ request 1 (some ack)
    ∷ closed 1
    ∷ []

gone : get 1 (run first_version new_ack_tracker session).nodes ≡ none
unfolding run step get put delete on_request on_response expect_snapshot record_snapshot
    already_expected on_stream_closed new_ack_tracker identify subscribe node_of
    forget_initial_fingerprint put_pending accept_initial_versions answer on_ack ack_evidence
    put_ack put_nack
gone = refl

run_closed-IsBlank_example : IsBlank (run first_version new_ack_tracker session) 1
run_closed-IsBlank_example = run_closed-IsBlank first_version session 1 gone

abbrev peers : List Event
peers = request 2 (some ack) ∷ closed 2 ∷ []

new_version : already_expected waiting "edge" "v3" (("listener", "fp3") ∷ []) ≡ false
unfolding already_expected
new_version = refl

republished_needs_proof_example :
    is_acked
      (run first_version
        (expect_snapshot waiting "edge" "v3" (("listener", "fp3") ∷ []) ("listener" ∷ []))
        peers)
      "edge"
      "v3"
    ≡ false
unfolding get has fingerprint_of
republished_needs_proof_example =
    republished_needs_proof waiting "edge" "v3" (("listener", "fp3") ∷ []) ("listener" ∷ []) 1
      "listener" "fp3" first_version peers new_version refl refl refl (differ "fp1" "fp3" refl)
      (λ h. cc) (λ h. cc, (λ h. cc, tt))

abbrev moved_on : AckTracker
moved_on = record waiting { expected = λ n. some (record expected_v2 { version = "v3" }) }

still_live : OnNode (on_request first_version waiting 1 (some nack)) "edge" 1
unfolding on_request identify subscribe forget_initial_fingerprint answer on_nack put_ack put_nack
    put_pending get
still_live = refl

last_found : last_nack refused "edge" ≡ some refusal
unfolding last_nack stream_ids ids_in insert_id first_nack rejects is_on get
last_found = refl

all_proved : is_acked proved "edge" "v2" ≡ true
unfolding is_acked is_acked_for has_stream every exists holds proves rejects has fingerprint_of get
all_proved = refl

edge_nothing :
    (r : ℕ) (y f : String)
    → get y listeners ≡ some f
    → type_state waiting expected_v2 r y f ≡ some stale_ack
unfolding get type_state fingerprint_of unproved_state has_ack
edge_nothing r y f g = elim (Bool-cases (◌==◌ {K = String} "listener" y)) [
  | inl q ↦ rw (← same (rw q at g)) refl
  | inr q ↦ absurd (cc (rw q at g))
]
  where
    same : some "fp2" ≡ some f → "fp2" ≡ f
    same h = cc

stale_unexplained_example :
    (is_acked waiting "edge" "v2" ≡ false) × (convergence_details waiting "edge" "v2" ≡ nothing)
unfolding get type_state fingerprint_of unproved_state has_ack rejects
stale_unexplained_example =
    stale_unexplained waiting "edge" "v2" expected_v2 1 "listener" "fp2" refl refl refl refl refl
      (λ r o. refl) (λ r o y f g. inr (edge_nothing r y f g))
