-- ===== src/Freshness/Evaluation.antt =====
-- What internal/freshness/evaluate.go and types.go guarantee of the gate.
use flareway.Base.{ℕ, ◌-◌, ◌≤◌, ◌<◌, ◌≡◌, ◌≢◌, ◌↔◌, Bool, true, false, String, arith}
use flareway.Base.Classes.{string_eq}
use flareway.Base.Durations.{ℤ, pos, negsuc, ◌<ℤ◌, IsInt64, time_sub, ◌-ℤ◌, le_ℤ, is_zero}
use text.Mathlib.TextEquality.{eq_iff}
use flareway.Freshness.Policy.{
  Grade, always, authz, traffic, indirect, display, unknown, Policy, ttl, evaluate, open_for,
  open_until, outside, hash_mismatch, is_always,
}

-- Every duration of the policy is one that Go's int64 holds.
pub record IsRepresentable (p : Policy) : Type 0 where
  pub authz_fits : IsInt64 p.authz_ttl
  pub traffic_fits : IsInt64 p.traffic_ttl
  pub indirect_fits : IsInt64 p.indirect_ttl
  pub display_fits : IsInt64 p.display_ttl

pub ttl_fits : (p : Policy) (g : Grade) → IsRepresentable p → IsInt64 (ttl p g)
unfolding ttl
ttl_fits p always r = omega arith
ttl_fits p authz r = r.authz_fits
ttl_fits p traffic r = r.traffic_fits
ttl_fits p indirect r = r.indirect_fits
ttl_fits p display r = r.display_fits
ttl_fits p (unknown z) r = omega arith

-- The evidence for skipping a read, over exact arithmetic: nothing of the code's order of checks.
pub record IsFresh (bound : ℤ) (g : Grade) (applied desired : String) (at now : ℕ)
    (invalidated : Bool) : Type 0 where
  pub gated : g ≢ always
  pub valid : invalidated ≡ false
  pub known : applied ≢ ""
  pub same : applied ≡ desired
  pub stamped : 0 < at
  pub past : at ≤ now
  pub young : pos (now - at) <ℤ bound

pub inside_sound :
    (b : ℤ) (at now : ℕ)
    → IsInt64 b
    → outside (time_sub now at) b ≡ false
    → (at ≤ now) × (pos (now - at) <ℤ b) × (time_sub now at ≡ pos (now - at))
unfolding outside
inside_sound (pos n) at now r h = ground arith
inside_sound (negsuc n) at now r h = ground arith

inside_complete :
    (b : ℤ) (at now : ℕ)
    → IsInt64 b
    → at ≤ now
    → pos (now - at) <ℤ b
    → outside (time_sub now at) b ≡ false
unfolding outside
inside_complete (pos n) at now r h l = ground arith
inside_complete (negsuc n) at now r h l = ground arith

-- The subtraction of step 7 does not wrap, and its guard never closes the gate.
pub open_for_inside :
    (b : ℤ) (d : ℕ) → IsInt64 b → pos d <ℤ b → open_for b (pos d) ≡ open_until (b -ℤ pos d)
unfolding open_for
open_for_inside (pos n) d r l = ground arith
open_for_inside (negsuc n) d r l = ground arith

hash_mismatch_sound : (a d : String) → hash_mismatch a d ≡ false → (a ≢ "") × (a ≡ d)
unfolding hash_mismatch
hash_mismatch_sound a d h = ground (arith, eq_iff a "", eq_iff d "", eq_iff a d)

hash_mismatch_complete : (a d : String) → a ≢ "" → a ≡ d → hash_mismatch a d ≡ false
unfolding hash_mismatch
hash_mismatch_complete a d n e = ground (arith, eq_iff a "", eq_iff d "", eq_iff a d)

is_always_iff : (g : Grade) → (is_always g ≡ false) ↔ (g ≢ always)
unfolding is_always
is_always_iff always = ground arith
is_always_iff _ = ground arith

-- The conditions, as the code tests them.
pub record Passes (bound : ℤ) (g : Grade) (applied desired : String) (at now : ℕ) (inv : Bool)
    : Type 0 where
  pub gated : is_always g ≡ false
  pub bounded : le_ℤ bound (pos 0) ≡ false
  pub valid : inv ≡ false
  pub matched : hash_mismatch applied desired ≡ false
  pub stamped : is_zero at ≡ false
  pub inside : outside (time_sub now at) bound ≡ false

module _ (bound : ℤ) (g : Grade) (applied desired : String) (at now : ℕ) (inv : Bool)
    (r : IsInt64 bound) where
  pub Passes-sound :
      Passes bound g applied desired at now inv → IsFresh bound g applied desired at now inv
  Passes-sound t = record {
    gated = (is_always_iff g).0 t.gated;
    valid = t.valid;
    known = (hash_mismatch_sound applied desired t.matched).0;
    same = (hash_mismatch_sound applied desired t.matched).1;
    stamped = ground (arith, t.stamped);
    past = (inside_sound bound at now r t.inside).0;
    young = (inside_sound bound at now r t.inside).1;
  }

  pub Passes-complete :
      IsFresh bound g applied desired at now inv → Passes bound g applied desired at now inv
  Passes-complete f = record {
    gated = (is_always_iff g).1 f.gated;
    bounded = positive bound f.young;
    valid = f.valid;
    matched = hash_mismatch_complete applied desired f.known f.same;
    stamped = ground (arith, f.stamped);
    inside = inside_complete bound at now r f.past f.young;
  }
    where
      positive : (b : ℤ) → pos (now - at) <ℤ b → le_ℤ b (pos 0) ≡ false
      positive (pos n) h = ground arith
      positive (negsuc n) h = absurd (omega arith)

-- Both directions, with the gate that results.
pub evaluate-IsFresh :
    (p : Policy) (g : Grade) (applied desired : String) (at now : ℕ) (inv : Bool)
    → IsRepresentable p
    → ((evaluate p g applied desired at now inv).is_open ≡ true
        → IsFresh (ttl p g) g applied desired at now inv)
      × (IsFresh (ttl p g) g applied desired at now inv
          → evaluate p g applied desired at now inv ≡ open_until (ttl p g -ℤ pos (now - at)))
unfolding evaluate
evaluate-IsFresh p g applied desired at now inv r = (
  λ h. Passes-sound (ttl p g) g applied desired at now inv (ttl_fits p g r) (ground arith),
  λ f. opens f (Passes-complete (ttl p g) g applied desired at now inv (ttl_fits p g r) f),
)
  where
    opens :
        IsFresh (ttl p g) g applied desired at now inv
        → Passes (ttl p g) g applied desired at now inv
        → evaluate p g applied desired at now inv ≡ open_until (ttl p g -ℤ pos (now - at))
    opens f t =
        rw (t.gated, t.bounded, t.valid, t.matched, t.stamped, t.inside, evaluate)
          (rw (inside_sound (ttl p g) at now (ttl_fits p g r) t.inside).2
            (open_for_inside (ttl p g) (now - at) (ttl_fits p g r) f.young))

-- Under a policy of int64 durations, Evaluate opens the gate exactly for a grade that is gated, an
-- object that is not invalidated, an applied hash that is not empty and equals the desired one, and
-- an apply time that is recorded, not in the future and less than the grade's TTL ago.
pub evaluate_open_iff :
    (p : Policy) (g : Grade) (applied desired : String) (at now : ℕ) (inv : Bool)
    → IsRepresentable p
    → ((evaluate p g applied desired at now inv).is_open ≡ true)
      ↔ IsFresh (ttl p g) g applied desired at now inv
evaluate_open_iff p g applied desired at now inv r =
    let (sound, complete) = evaluate-IsFresh p g applied desired at now inv r in
    (sound, λ f. rw (complete f))
