-- ===== src/Sweep/Examples.antt =====
-- Runs of a sweep's pass on concrete inputs.
use mathlib.Core.List.{Memᴰ}
use flareway.Base.{
  ◌-◌, ◌↔◌, ℕ, ◌≡◌, ◌≢◌, ◌⊎◌, refl, true, false, none, some, String, List, [], ◌∷◌, arith,
}
use flareway.Base.Classes.{string_eq, differ}
use flareway.Base.Maps.{get, put}
use flareway.Freshness.Policy.{authz, default_policy}
use flareway.Freshness.Latch.{LatchKey, Latch, is_invalidated, invalidate, same_key}
use flareway.Freshness.History.{forgets}
use flareway.Freshness.History.{run}
use flareway.Controller.FreshnessGate.{evaluate_gate_with_hash}
use flareway.Sweep.Classify.{
  LocalRef, Reason, DriftItem, ClassifyOptions, classify, classify_refs, classify_ref,
  classify_orphans, classify_orphan, is_claimed, remote_by_id, match_reason, name_reason,
  extra_reason, content_check,
}
use flareway.Sweep.Dispatch.{
  SweepState, run_target, run_target_once, handle_drift_results, handle_drift_result, dispatch,
  close_gate, emit_event,
}
use flareway.Sweep.Remotes.{IsDrift}
use flareway.Base.Cuts.{cut_code}
use flareway.Base.Bytes.{codes, cut_prefix, has_prefix}
use flareway.Sweep.Names.{
  IsName, access_remote_name_value, parse_access_remote_name, parse_access_remote_name_iff,
  parse_private_owner_comment, before_text, split_three, nonempty_parts,
}
use flareway.Base.Durations.{pos, ◌≤ℤ◌, ◌<ℤ◌}
use flareway.Freshness.Policy.{ttl, traffic, sweep_confirmation_window}
use flareway.Sweep.Pacing.{
  IsDraw, run_target_loop, run_target_loop_paced, initial_delay, jittered_interval, intervals,
  draw_below,
}
use flareway.Sweep.Passes.{complete_pass, missing_stays_closed, complete_pass-IsDrift}

-- A remote object is its ID and its name.
abbrev by_name : ClassifyOptions (String × String) ℕ
by_name = record {
  kind = "DNSRecord";
  id_of = λ r. r.0;
  listed = λ r. true;
  name_of = λ r. r.1;
  name_equal = none;
  extra = none;
  observe = none;
  orphan_of = none;
}

abbrev gone : LocalRef
gone = record {
  kind = "DNSRecord";
  key = ("team", "gone");
  uid = "u1";
  remote_id = "r1";
  expected_name = "gone.example.com";
  spec_name = "gone";
  scope = "zone";
}

abbrev kept : LocalRef
kept = record gone {
  key = ("team", "kept");
  uid = "u2";
  remote_id = "r2";
  expected_name = "kept.example.com";
}

abbrev refs : List LocalRef
refs = gone ∷ kept ∷ []

abbrev listing : List (String × String)
listing = ("r2", "kept.example.com") ∷ []

abbrev empty : Latch ℕ
empty = record {
  reasons = λ k. none;
  verified = λ k. none;
  baselines = λ k. none;
  confirmed = λ k. none;
}

abbrev text : Reason → String
text r = "drifted"

abbrev after : SweepState ℕ
after = complete_pass by_name 1 text 50 empty refs listing []

gone_closed : is_invalidated after.latch ("DNSRecord", ("team", "gone")) ≡ true
unfolding run_target run_target_once handle_drift_results handle_drift_result dispatch close_gate
    emit_event classify classify_refs classify_ref classify_orphans classify_orphan remote_by_id
    match_reason name_reason extra_reason content_check get put invalidate is_invalidated same_key
    is_claimed
gone_closed = refl

kept_open : is_invalidated after.latch ("DNSRecord", ("team", "kept")) ≡ false
unfolding run_target run_target_once handle_drift_results handle_drift_result dispatch close_gate
    emit_event classify classify_refs classify_ref classify_orphans classify_orphan remote_by_id
    match_reason name_reason extra_reason content_check get put invalidate is_invalidated same_key
    is_claimed
kept_open = refl

not_listed : (r : String × String) → Memᴰ r listing → r.0 ≢ "r1"
not_listed r (Memᴰ.head e) = rw e (differ "r2" "r1" refl)
not_listed r (Memᴰ.tail m) = elim m [ ]

missing_stays_closed_example :
    (evaluate_gate_with_hash default_policy
      (run after.latch ((("DNSRecord", ("team", "gone")), forgets) ∷ []))
      authz
      ("DNSRecord", ("team", "gone"))
      "h"
      "h"
      (some 10)
      20).decision.gate.is_open
    ≡ false
unfolding same_key
missing_stays_closed_example =
    missing_stays_closed by_name 1 text 50 empty refs listing [] gone
      ((("DNSRecord", ("team", "gone")), forgets) ∷ []) default_policy authz "h" "h" (some 10) 20
      (Memᴰ.head refl) (differ "r1" "" refl) refl not_listed (refl, tt)

complete_pass-IsDrift_example :
    (is_invalidated (some empty) ("DNSRecord", ("team", "gone")) ≡ true)
    ⊎ ((ref : LocalRef) × (item : DriftItem) × Memᴰ ref refs
        × (◌≡◌ {A = LatchKey} (ref.kind, ref.key) ("DNSRecord", ("team", "gone")))
        × IsDrift by_name 50 (some empty) listing ref item)
complete_pass-IsDrift_example =
    complete_pass-IsDrift by_name 1 text 50 empty refs listing [] ("DNSRecord", ("team", "gone"))
      gone_closed

parse_access_remote_name_iff_example :
    (parse_access_remote_name (codes "flareway/c1/web/team/app")
      ≡ some (codes "c1", (codes "web", codes "team/app")))
    ↔ ((codes "flareway/c1/web/team/app"
          ≡ access_remote_name_value (codes "c1") (codes "web") (codes "team/app"))
        × IsName (codes "c1") (codes "web") (codes "team/app"))
parse_access_remote_name_iff_example =
    parse_access_remote_name_iff (codes "flareway/c1/web/team/app") (codes "c1") (codes "web")
      (codes "team/app")

parse_name :
    parse_access_remote_name (codes "flareway/c1/web/team/app")
    ≡ some (codes "c1", (codes "web", codes "team/app"))
unfolding parse_access_remote_name split_three nonempty_parts cut_code cut_prefix
parse_name = refl

parse_comment :
    parse_private_owner_comment (codes "flareway c1/web/app | by hand")
    ≡ some (codes "c1", (codes "web", codes "app"))
unfolding parse_private_owner_comment before_text split_three nonempty_parts cut_code cut_prefix
    has_prefix
parse_comment = refl

signed_comment : parse_private_owner_comment (codes "flareway hmac:1/2/3") ≡ none
unfolding parse_private_owner_comment before_text split_three nonempty_parts cut_code cut_prefix
    has_prefix
signed_comment = refl

-- Every draw is the largest.
abbrev largest : ℕ → ℕ → ℕ
largest i n = n - 1

largest-IsDraw : (i : ℕ) → IsDraw (largest i)
unfolding IsDraw
largest-IsDraw i n h = ground arith

two_passes :
    run_target_loop (ttl default_policy traffic) (pos 0) largest 1
    ≡ (pos 59999999999 ∷ (pos 359999999999 ∷ []))
unfolding run_target_loop initial_delay draw_below jittered_interval intervals ttl default_policy
two_passes = refl

run_target_loop_paced_example :
    (ttl default_policy traffic ≤ℤ pos 359999999999)
    × (pos 359999999999 <ℤ sweep_confirmation_window default_policy traffic)
unfolding ttl default_policy
run_target_loop_paced_example =
    run_target_loop_paced default_policy traffic 300000000000 refl (omega arith) (omega arith)
      largest largest-IsDraw (pos 0) (pos 59999999999) (pos 359999999999 ∷ []) 1 two_passes
      (pos 359999999999) (Memᴰ.head refl)
