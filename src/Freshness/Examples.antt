-- ===== src/Freshness/Examples.antt =====
-- Runs of the freshness gate and the latch on concrete inputs.
use flareway.Base.{
  ◌≡◌, ◌↔◌, ◌⊎◌, refl, Bool, true, false, none, some, List, [], ◌∷◌, ℕ, arith, nat_beq,
}
use flareway.Base.Classes.{string_eq}
use flareway.Base.Durations.{pos, double, ◌-ℤ◌}
use flareway.Freshness.Policy.{
  authz, Policy, ttl, validate, evaluate, open_until, hash_mismatch, outside, open_for, is_always,
  evaluate_sweep_confirmed, sweep_confirmation_window,
}
use flareway.Freshness.Grades.{grade_for_kind}
use flareway.Freshness.Latch.{
  LatchKey, new_latch, invalidate, is_invalidated, verified_at, confirm_content_after, recorded_at,
  same_key,
}
use flareway.Freshness.Evaluation.{IsRepresentable, IsFresh, evaluate_open_iff}
use flareway.Freshness.Expiry.{evaluate_sweep_confirmed-IsFresh}
use flareway.Freshness.History.{
  Call, invalidates, verifies, baselines, confirms, run, confirmation_of, IsConsistent,
  run-new-IsConsistent, verified_at-run,
}
use flareway.Freshness.Confirmation.{IsJustified, confirm_content_after-IsJustified}

abbrev short : Policy
short = record {
  authz_ttl = pos 60;
  traffic_ttl = pos 300;
  indirect_ttl = pos 1800;
  display_ttl = pos 0;
}

short-IsRepresentable : IsRepresentable short
short-IsRepresentable = record {
  authz_fits = omega arith;
  traffic_fits = omega arith;
  indirect_fits = omega arith;
  display_fits = omega arith;
}

short_valid : validate short ≡ none
unfolding validate
short_valid = refl

short_opens : (evaluate short authz "h" "h" 100 130 false).is_open ≡ true
unfolding evaluate ttl hash_mismatch outside open_for is_always
short_opens = refl

authz_kind : grade_for_kind "AccessApplication" ≡ some authz
unfolding grade_for_kind
authz_kind = refl

evaluate_open_iff_example :
    ((evaluate short authz "h" "h" 100 130 false).is_open ≡ true)
    ↔ IsFresh (ttl short authz) authz "h" "h" 100 130 false
evaluate_open_iff_example =
    evaluate_open_iff short authz "h" "h" 100 130 false short-IsRepresentable

swept_opens : (evaluate_sweep_confirmed short authz "h" "h" 100 210 false).is_open ≡ true
unfolding evaluate_sweep_confirmed sweep_confirmation_window ttl hash_mismatch outside is_always
swept_opens = refl

evaluate_sweep_confirmed-IsFresh_example :
    IsFresh (double (ttl short authz)) authz "h" "h" 100 210 false
    × (evaluate_sweep_confirmed short authz "h" "h" 100 210 false
        ≡ open_until (double (ttl short authz) -ℤ pos 110))
evaluate_sweep_confirmed-IsFresh_example =
    evaluate_sweep_confirmed-IsFresh short authz "h" "h" 100 210 false short-IsRepresentable
      short_valid swept_opens

-- Matchers over numbers stand for those over what the list API returns.
abbrev record_a : LatchKey
record_a = ("DNSRecord", ("default", "a"))

abbrev record_b : LatchKey
record_b = ("DNSRecord", ("default", "b"))

abbrev is_one : ℕ → Bool
is_one n = nat_beq n 1

abbrev calls : List (LatchKey × Call ℕ)
calls =
    (record_a, verifies "h" 5)
    ∷ (record_a, baselines "h" (some is_one))
    ∷ (record_a, confirms "h" 8)
    ∷ (record_b, invalidates "drifted")
    ∷ []

run-new-IsConsistent_example : IsConsistent (run new_latch calls)
run-new-IsConsistent_example = run-new-IsConsistent calls

drifted : is_invalidated (invalidate (new_latch {Observed = ℕ}) record_b "drifted") record_b ≡ true
unfolding is_invalidated invalidate new_latch same_key
drifted = refl

verified : verified_at (run new_latch calls) record_a "h" ≡ some 5
unfolding recorded_at same_key
verified = verified_at-run record_a "h" calls

confirm_content_after-IsJustified_example :
    let l = run new_latch calls in
    let after = (confirm_content_after (λ x. run x calls) l record_a 1 9).0 in
    (confirmation_of after record_a ≡ confirmation_of (run l calls) record_a)
    ⊎ IsJustified l (run l calls) record_a 1 9 (confirmation_of after record_a)
confirm_content_after-IsJustified_example =
    confirm_content_after-IsJustified (run new_latch calls) calls record_a 1 9
