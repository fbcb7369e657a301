-- ===== src/Freshness/Expiry.antt =====
-- When an open gate of internal/freshness/evaluate.go closes by itself, and what a sweep
-- confirmation is worth.
use flareway.Base.{
  ℕ, ◌+◌, ◌-◌, ◌≤◌, ◌<◌, ◌≡◌, ◌↔◌, refl, ap, none, Bool, true, String, arith, ltb, eq-ltb,
}
use flareway.Base.Classes.{string_eq}
use flareway.Base.Durations.{
  ℤ, pos, negsuc, ◌<ℤ◌, ◌≤ℤ◌, IsInt64, double64, double, ◌-ℤ◌, sub64, pos_part,
}
use flareway.Freshness.Policy.{
  Grade, always, authz, traffic, indirect, display, unknown, Policy, ttl, validate, open_until,
  evaluate, evaluate_sweep_confirmed, sweep_confirmation_window,
}
use flareway.Freshness.Evaluation.{
  IsRepresentable, IsFresh, Passes, Passes-sound, ttl_fits, inside_sound, evaluate-IsFresh,
}
use flareway.Freshness.Ordering.{IsOrdered, validate-IsOrdered}

module _ (p : Policy) (g : Grade) (applied desired : String) (at now : ℕ) (inv : Bool)
    (r : IsRepresentable p) where
  later_young :
      (later : ℕ) (b : ℤ)
      → pos (now - at) <ℤ b
      → at ≤ now
      → now ≤ later
      → (pos (later - at) <ℤ b) ↔ (later < now + pos_part (b -ℤ pos (now - at)))
  later_young later (pos n) y q l = (λ h. ground arith, λ h. ground arith)
  later_young later (negsuc n) y q l = (λ h. ground arith, λ h. ground arith)

  aged :
      (later : ℕ)
      → IsFresh (ttl p g) g applied desired at now inv
      → at ≤ later
      → pos (later - at) <ℤ ttl p g
      → (evaluate p g applied desired at later inv).is_open ≡ true
  aged later f q y = rw (
      (evaluate-IsFresh p g applied desired at later inv r).1 (record {
        gated = f.gated;
        valid = f.valid;
        known = f.known;
        same = f.same;
        stamped = f.stamped;
        past = q;
        young = y;
      }))

  -- Under a policy of int64 durations, a gate that is open now is, with the same inputs at any
  -- later time, open exactly before now plus its requeue interval.
  evaluate_expiry :
      (later : ℕ)
      → (evaluate p g applied desired at now inv).is_open ≡ true
      → now ≤ later
      → (evaluate p g applied desired at later inv).is_open
        ≡ ltb later (now + pos_part (evaluate p g applied desired at now inv).requeue)
  evaluate_expiry later h l =
      let f = (evaluate-IsFresh p g applied desired at now inv r).0 h in
      let bound = later_young later (ttl p g) f.young f.past l in
      rw ((evaluate-IsFresh p g applied desired at now inv r).1 f) (
        eq-ltb _ _ _
          (λ e. bound.0 ((evaluate-IsFresh p g applied desired at later inv r).0 e).young)
          (λ e. aged later f (omega arith) (bound.1 e)))

-- Twice a TTL either is exact or wraps to a negative window, which never opens.
window_sound : (t : ℤ) (d : ℕ) → IsInt64 t → pos 0 ≤ℤ t → pos d <ℤ double64 t → pos d <ℤ double t
window_sound (pos n) d r q h = ground arith
window_sound (negsuc n) d r q h = ground arith

window_fits : (t : ℤ) → IsInt64 (double64 t)
window_fits (pos n) = ground arith
window_fits (negsuc n) = ground arith

window_left :
    (t : ℤ) (d : ℕ)
    → IsInt64 t
    → pos 0 ≤ℤ t
    → pos d <ℤ double64 t
    → sub64 (double64 t) (pos d) ≡ double t -ℤ pos d
window_left (pos n) d r q h = ground arith
window_left (negsuc n) d r q h = ground arith

window_lem : (p : Policy) (g : Grade) → sweep_confirmation_window p g ≡ double64 (ttl p g)
unfolding sweep_confirmation_window
window_lem p g = refl

ttl_nonneg : (p : Policy) (g : Grade) → IsOrdered p → pos 0 ≤ℤ ttl p g
unfolding ttl
ttl_nonneg p always o = omega arith
ttl_nonneg p authz o = o.authz_nonneg
ttl_nonneg p traffic o = o.traffic_nonneg
ttl_nonneg p indirect o = o.indirect_nonneg
ttl_nonneg p display o = o.display_nonneg
ttl_nonneg p (unknown z) o = omega arith

-- Under a policy of int64 durations that Validate accepts, EvaluateSweepConfirmed opens the gate
-- only for an object that is fresh over the exact doubled TTL, although the doubling may wrap, and
-- the gate then asks to be checked again when the age reaches it.
pub evaluate_sweep_confirmed-IsFresh :
    (p : Policy) (g : Grade) (applied desired : String) (at now : ℕ) (inv : Bool)
    → IsRepresentable p
    → validate p ≡ none
    → (evaluate_sweep_confirmed p g applied desired at now inv).is_open ≡ true
    → IsFresh (double (ttl p g)) g applied desired at now inv
      × (evaluate_sweep_confirmed p g applied desired at now inv
          ≡ open_until (double (ttl p g) -ℤ pos (now - at)))
unfolding evaluate_sweep_confirmed
evaluate_sweep_confirmed-IsFresh p g applied desired at now inv r v h = (
  record {
    gated = f.gated;
    valid = f.valid;
    known = f.known;
    same = f.same;
    stamped = f.stamped;
    past = f.past;
    young = window_sound (ttl p g) (now - at) (ttl_fits p g r) q y;
  },
  rw (t.gated, t.bounded, t.valid, t.matched, t.stamped, t.inside, evaluate_sweep_confirmed)
      (rw (inside_sound w at now w_fits t.inside).2 (
        rw (window_lem p g)
          (ap open_until (window_left (ttl p g) (now - at) (ttl_fits p g r) q y)))),
)
  where
    q : pos 0 ≤ℤ ttl p g
    q = ttl_nonneg p g ((validate-IsOrdered p).0 v)

    w : ℤ
    w = sweep_confirmation_window p g

    w_fits : IsInt64 (sweep_confirmation_window p g)
    w_fits = rw (window_lem p g) (window_fits (ttl p g))

    t : Passes (sweep_confirmation_window p g) g applied desired at now inv
    t = ground arith

    f : IsFresh (sweep_confirmation_window p g) g applied desired at now inv
    f = Passes-sound w g applied desired at now inv w_fits t

    y : pos (now - at) <ℤ double64 (ttl p g)
    y = rw (window_lem p g) at f.young
