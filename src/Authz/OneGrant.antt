-- ===== src/Authz/OneGrant.antt =====
-- When one grant of internal/authz/evaluate.go permits a request.
use mathlib.Core.List.{Memᴰ}
use flareway.Base.{
  ℕ, ◌≡◌, ◌↔◌, ◌⊎◌, inl, inr, refl, sym, ap, Bool, true, false, ◌&&◌, not, Option, String, [], ◌∷◌,
  if◌then◌else◌, Bool-cases,
}
use flareway.Base.Classes.{◌==◌, string_eq}
use flareway.Base.Durations.{negsuc}
use text.Mathlib.TextEquality.{eq_iff}
use flareway.Base.Bytes.{Text, is_empty}
use flareway.Authz.Names.{matches_hostname_set, zone_matches}
use flareway.Authz.Grants.{
  Decision, Namespace, Request, Grant, denied, contains, is_allowed, private_route_gate,
  backend_gate, evaluate_grant,
}
use flareway.Authz.Permits.{CoveredBy, InZones, Permits}
use flareway.Authz.Gates.{
  contains_iff, hostname_set_iff, zone_set_iff, private_route_gate_iff, backend_gate_iff,
}

is_empty_iff : (s : Text) → (is_empty s ≡ true) ↔ (s ≡ [])
is_empty_iff [] = (λ h. refl, λ h. refl)
is_empty_iff (c ∷ s) = (λ h. absurd cc, λ h. absurd cc)

-- `a && !b` does not hold.
gate_iff :
    {P Q : Type 0} (a b : Bool)
    → (a ≡ false ↔ P)
    → (b ≡ true ↔ Q)
    → ((a && not b) ≡ false) ↔ (P ⊎ Q)
gate_iff true true p q = (λ h. inr (q.0 refl), λ h. refl)
gate_iff true false p q = (λ h. absurd cc, λ h. elim h [ inl x ↦ p.1 x | inr y ↦ sym (q.1 y) ])
gate_iff false b p q = (λ h. inl (p.0 refl), λ h. refl)

not_iff : {P : Type 0} (a : Bool) → ((a ≡ true) ↔ P) → ((not a) ≡ false) ↔ P
not_iff true p = (λ h. p.0 refl, λ h. refl)
not_iff false p = (λ h. absurd cc, λ h. absurd (cc (p.1 h)))

-- One step down the chain of a grant's gates.
peel :
    (c : Bool) (reason : String) (d : Decision)
    → (if c then denied reason else d).allowed ≡ true
    → (c ≡ false) × (d.allowed ≡ true)
unfolding denied
peel true reason d h = absurd cc
peel false reason d h = (refl, h)

peel_gate :
    (d e : Decision)
    → (if not d.allowed then d else e).allowed ≡ true
    → (d.allowed ≡ true) × (e.allowed ≡ true)
peel_gate d e h = elim (Bool-cases d.allowed) [
  | inl q ↦ (q, rw q at h)
  | inr q ↦ absurd (cc (rw q at h))
]

permission_gate :
    (b : Bool) (permission : String)
    → ((b && not (is_allowed permission)) ≡ false) ↔ ((b ≡ false) ⊎ (permission ≡ "Allowed"))
permission_gate b permission =
    gate_iff b (is_allowed permission) (λ x. x, λ x. x) (eq_iff permission "Allowed")

module _ {Labels Selector : Type 0} (lower : ℕ → ℕ)
    (selects : Selector → Labels → Option Bool) where
  module _ (g : Grant Labels Selector) (ns : Namespace Labels Selector)
      (r : Request Labels Selector) where
    hostname_gate :
        ((not (is_empty r.hostname) && not (matches_hostname_set lower g.hostnames r.hostname))
          ≡ false)
        ↔ ((r.hostname ≡ []) ⊎ CoveredBy lower selects g.hostnames r.hostname)
    hostname_gate =
        gate_iff _ _ (not_iff _ (is_empty_iff r.hostname))
          (hostname_set_iff lower selects g.hostnames r.hostname)

    zone_gate :
        ((not (is_empty r.zone) && not (zone_matches lower g.zones r.zone)) ≡ false)
        ↔ ((r.zone ≡ []) ⊎ InZones lower selects g.zones r.zone)
    zone_gate =
        gate_iff _ _ (not_iff _ (is_empty_iff r.zone)) (zone_set_iff lower selects g.zones r.zone)

    exposure_gate :
        ((not (r.exposure == "") && not (contains g.exposures r.exposure)) ≡ false)
        ↔ ((r.exposure ≡ "") ⊎ Memᴰ r.exposure g.exposures)
    exposure_gate =
        gate_iff _ _ (not_iff _ (eq_iff r.exposure "")) (contains_iff g.exposures r.exposure)

    unprotected_gate :
        ((r.unprotected && not (matches_hostname_set lower g.unprotected_hostnames r.hostname))
          ≡ false)
        ↔ ((r.unprotected ≡ false) ⊎ CoveredBy lower selects g.unprotected_hostnames r.hostname)
    unprotected_gate =
        gate_iff _ _ (λ x. x, λ x. x)
          (hostname_set_iff lower selects g.unprotected_hostnames r.hostname)

    -- The conditions, as the code tests them.
    record Passes : Type 0 where
      hostname :
          (not (is_empty r.hostname) && not (matches_hostname_set lower g.hostnames r.hostname))
          ≡ false
      zone : (not (is_empty r.zone) && not (zone_matches lower g.zones r.zone)) ≡ false
      exposure : (not (r.exposure == "") && not (contains g.exposures r.exposure)) ≡ false
      unprotected :
          (r.unprotected && not (matches_hostname_set lower g.unprotected_hostnames r.hostname))
          ≡ false
      policy : (r.access_policy_ref && not (is_allowed g.access_policy_refs)) ≡ false
      custom_page : (r.access_custom_page_ref && not (is_allowed g.access_custom_page_refs)) ≡ false
      posture :
          (r.device_posture_integration_ref && not (is_allowed g.device_posture_integration_refs))
          ≡ false
      platform : (r.platform_object && not (is_allowed g.platform_objects)) ≡ false
      route : (private_route_gate lower selects g r.private_route).allowed ≡ true
      backend : (backend_gate lower selects g ns r.backend).allowed ≡ true

    passes_all : (evaluate_grant lower selects g ns r).allowed ≡ true → Passes
    unfolding evaluate_grant
    passes_all h =
        let (a, i) = peel _ _ _ h in
        let (b, j) = peel _ _ _ i in
        let (c, k) = peel _ _ _ j in
        let (d, l) = peel _ _ _ k in
        let (e, m) = peel _ _ _ l in
        let (f, n) = peel _ _ _ m in
        let (p, o) = peel _ _ _ n in
        let (q, s) = peel _ _ _ o in
        let (t, u) = peel_gate _ _ s in
        let (v, w) = peel_gate _ _ u in
        record {
          hostname = a;
          zone = b;
          exposure = c;
          unprotected = d;
          policy = e;
          custom_page = f;
          posture = p;
          platform = q;
          route = t;
          backend = v;
        }

    grants_all :
        Passes
        → evaluate_grant lower selects g ns r
          ≡ record { allowed = true; reason = "Allowed"; grant_index = negsuc 0 }
    unfolding evaluate_grant
    grants_all t =
        rw
          (
            t.hostname, t.zone, t.exposure, t.unprotected, t.policy, t.custom_page, t.posture,
            t.platform, evaluate_grant,
          )
          (rw (t.route, t.backend))

    -- One grant permits a request exactly if each gate that the request activates is open.
    pub grant_iff :
        ((evaluate_grant lower selects g ns r).allowed ≡ true) ↔ Permits lower selects g ns r
    grant_iff = (
      λ h.
          let t = passes_all h in
          record {
            hostname = hostname_gate.0 t.hostname;
            zone = zone_gate.0 t.zone;
            exposure = exposure_gate.0 t.exposure;
            unprotected = unprotected_gate.0 t.unprotected;
            policy = (permission_gate r.access_policy_ref g.access_policy_refs).0 t.policy;
            custom_page =
                (permission_gate r.access_custom_page_ref g.access_custom_page_refs).0
                  t.custom_page;
            posture =
                (permission_gate r.device_posture_integration_ref
                    g.device_posture_integration_refs).0
                  t.posture;
            platform = (permission_gate r.platform_object g.platform_objects).0 t.platform;
            route = (private_route_gate_iff lower selects g r.private_route).0 t.route;
            backend = (backend_gate_iff lower selects g ns r.backend).0 t.backend;
          },
      λ k.
          ap (λ (d : Decision). d.allowed)
            (grants_all (record {
              hostname = hostname_gate.1 k.hostname;
              zone = zone_gate.1 k.zone;
              exposure = exposure_gate.1 k.exposure;
              unprotected = unprotected_gate.1 k.unprotected;
              policy = (permission_gate r.access_policy_ref g.access_policy_refs).1 k.policy;
              custom_page =
                  (permission_gate r.access_custom_page_ref g.access_custom_page_refs).1
                    k.custom_page;
              posture =
                  (permission_gate r.device_posture_integration_ref
                      g.device_posture_integration_refs).1
                    k.posture;
              platform = (permission_gate r.platform_object g.platform_objects).1 k.platform;
              route = (private_route_gate_iff lower selects g r.private_route).1 k.route;
              backend = (backend_gate_iff lower selects g ns r.backend).1 k.backend;
            })),
    )

    pub grant_value :
        (evaluate_grant lower selects g ns r).allowed ≡ true
        → evaluate_grant lower selects g ns r
          ≡ record { allowed = true; reason = "Allowed"; grant_index = negsuc 0 }
    grant_value h = grants_all (passes_all h)
