-- ===== src/Freshness/Ordering.antt =====
-- What internal/freshness/types.go's Validate accepts, and what that means for the gates.
use flareway.Base.{ℕ, ◌≡◌, ◌≢◌, ◌↔◌, ◌⊎◌, inl, inr, Bool, true, none, String, arith}
use flareway.Base.Classes.{string_eq}
use flareway.Base.Durations.{ℤ, pos, ◌<ℤ◌, ◌≤ℤ◌}
use flareway.Freshness.Policy.{
  Grade, always, authz, traffic, indirect, Policy, ttl, validate, evaluate,
}
use flareway.Freshness.Evaluation.{IsRepresentable, evaluate-IsFresh}

-- In order, or not both enabled.
abbrev pub Ordered : ℤ → ℤ → Type 0
Ordered a b = (a ≤ℤ pos 0) ⊎ ((b ≤ℤ pos 0) ⊎ (a ≤ℤ b))

-- No negative duration, and enabled durations in the order of the grades.
pub record IsOrdered (p : Policy) : Type 0 where
  pub authz_nonneg : pos 0 ≤ℤ p.authz_ttl
  pub traffic_nonneg : pos 0 ≤ℤ p.traffic_ttl
  pub indirect_nonneg : pos 0 ≤ℤ p.indirect_ttl
  pub display_nonneg : pos 0 ≤ℤ p.display_ttl
  pub authz_traffic : Ordered p.authz_ttl p.traffic_ttl
  pub traffic_indirect : Ordered p.traffic_ttl p.indirect_ttl
  pub authz_indirect : Ordered p.authz_ttl p.indirect_ttl

-- Validate accepts exactly the policies without a negative duration in which any two of the authz,
-- traffic and indirect TTLs that are both positive are in that order.
pub validate-IsOrdered : (p : Policy) → (validate p ≡ none) ↔ IsOrdered p
unfolding validate
validate-IsOrdered p = (λ h. ground arith, λ o. ground arith)

module _ (p : Policy) (g h : Grade) (a d : String) (at now : ℕ) (inv : Bool) where
  looser :
      IsRepresentable p
      → h ≢ always
      → ttl p g ≤ℤ ttl p h
      → (evaluate p g a d at now inv).is_open ≡ true
      → (evaluate p h a d at now inv).is_open ≡ true
  looser r n l e =
      let f = (evaluate-IsFresh p g a d at now inv r).0 e in
      rw (
        (evaluate-IsFresh p h a d at now inv r).1 (record {
          gated = n;
          valid = f.valid;
          known = f.known;
          same = f.same;
          stamped = f.stamped;
          past = f.past;
          young = omega (arith, f.young);
        }))

  enabled : IsRepresentable p → (evaluate p g a d at now inv).is_open ≡ true → pos 0 <ℤ ttl p g
  enabled r e = omega (arith, ((evaluate-IsFresh p g a d at now inv r).0 e).young)

-- The pairs of grades that the code orders, the stricter one first.
pub data IsStricter : Grade → Grade → Type 0 where
  authz_traffic : IsStricter authz traffic
  traffic_indirect : IsStricter traffic indirect
  authz_indirect : IsStricter authz indirect

ordered_le : (a b : ℤ) → Ordered a b → pos 0 <ℤ a → pos 0 <ℤ b → a ≤ℤ b
ordered_le a b (inl h) x y = absurd (omega (arith, h, x))
ordered_le a b (inr (inl h)) x y = absurd (omega (arith, h, y))
ordered_le a b (inr (inr h)) x y = h

stricter_ttl :
    (p : Policy) (g h : Grade)
    → IsStricter g h
    → IsOrdered p
    → pos 0 <ℤ ttl p g
    → pos 0 <ℤ ttl p h
    → ttl p g ≤ℤ ttl p h
unfolding ttl
stricter_ttl p _ _ authz_traffic o x y = ordered_le p.authz_ttl p.traffic_ttl o.authz_traffic x y
stricter_ttl p _ _ traffic_indirect o x y =
    ordered_le p.traffic_ttl p.indirect_ttl o.traffic_indirect x y
stricter_ttl p _ _ authz_indirect o x y = ordered_le p.authz_ttl p.indirect_ttl o.authz_indirect x y

stricter_gated : (g h : Grade) → IsStricter g h → h ≢ always
stricter_gated _ _ authz_traffic x = cc
stricter_gated _ _ traffic_indirect x = cc
stricter_gated _ _ authz_indirect x = cc

-- Under a policy of int64 durations that Validate accepts, a gate open at the authz or traffic
-- grade is open, on the same inputs, at a looser one of the traffic and indirect grades whose TTL
-- is positive.
evaluate_looser :
    (p : Policy) (g h : Grade) (a d : String) (at now : ℕ) (inv : Bool)
    → IsRepresentable p
    → validate p ≡ none
    → IsStricter g h
    → pos 0 <ℤ ttl p h
    → (evaluate p g a d at now inv).is_open ≡ true
    → (evaluate p h a d at now inv).is_open ≡ true
evaluate_looser p g h a d at now inv r v s y e =
    looser p g h a d at now inv r (stricter_gated g h s)
      (stricter_ttl p g h s ((validate-IsOrdered p).0 v) (enabled p g h a d at now inv r e) y) e
