-- ===== src/Cloudflared/Guards.antt =====
-- What compileConfig forwards to, and what it refuses, for each virtual host.
use mathlib.Core.List.{Memᴰ}
use flareway.Base.{
  ℕ, suc, ◌+◌, ◌≡◌, ◌⊎◌, inl, inr, refl, sym, ap, subst, Bool, true, false, not, ◌&&◌, ◌||◌, Option,
  none, some, String, List, [], ◌∷◌, map, length, Bool-cases, append_member, arith,
}
use flareway.Base.Classes.{◌==◌, string_eq, nat_eq, list_eq}
use flareway.Base.Maps.{Map}
use flareway.Base.Bytes.{Text, is_empty, codes}
use flareway.Base.Sorting.{sort_member}
use flareway.Cloudflared.Origin.{
  WireOrigin, Access, IngressRule, ConfigBody, gateway_origin, clone_origin,
}
use flareway.Cloudflared.Ingress.{
  Gateway, Cloudflare, ProtectionDomain, VirtualHost, DomainRule, canonical_auds, no_audience,
  listener_exposure, is_private, is_refused, service_403, envoy_service, team_of, domain_origin,
  domain_paths, path_rules, host_rules, hosts_rules, domain_rules, domains_rules, rule_le,
  ingress_rule, catch_all, gateway_rules, compile_config,
}
use flareway.Cloudflared.FirstMatch.{dedupe_member}

-- The tokens that a rule's origin checks.
unfoldable pub checked : Option WireOrigin → Option Access
checked none = none
checked (some o) = o.access

-- A token of one of the domain's audiences is required.
unfoldable pub RequiresToken : ProtectionDomain → Option Access → Type 0
RequiresToken d none = ⊥
RequiresToken d (some a) =
    (a.required ≡ some true)
    × (a.aud_tag ≡ canonical_auds d.access)
    × (no_audience a.aud_tag ≡ false)
    × (a.team_name ≡ team_of d.access)

-- A rule that forwards to the domain's port, for a domain that is not refused: without a check of
-- tokens only where the domain is unprotected or leaves the check to Envoy.
pub record Forwards (teardown : Bool) (d : ProtectionDomain) (service : Text)
    (origin : Option WireOrigin) : Type 0 where
  pub target : service ≡ envoy_service d
  pub admitted : is_refused teardown d ≡ false
  pub token :
      RequiresToken d (checked origin)
      ⊎ ((checked origin ≡ none) × ((d.protected ≡ false) ⊎ (d.origin_jwt_disabled ≡ true)))

pub record Refuses (teardown : Bool) (d : ProtectionDomain) (service : Text)
    (origin : Option WireOrigin) : Type 0 where
  pub reply : service ≡ service_403
  pub refused : is_refused teardown d ≡ true
  pub unset : origin ≡ none

-- The virtual host that a rule is for.
pub record Serves (g : Gateway) (c : Cloudflare) (hostname : Text) (service : Text)
    (origin : Option WireOrigin) : Type 0 where
  pub domain : ProtectionDomain
  pub host : VirtualHost
  pub declared : Memᴰ domain g.domains
  pub exposed : is_private (listener_exposure g.listeners []) domain ≡ false
  pub virtual : Memᴰ host domain.virtual_hosts
  pub named : hostname ≡ host.hostname
  pub proper :
      (is_empty (VirtualHost.hostname host) || (VirtualHost.hostname host == codes "*")) ≡ false
  pub verdict : Forwards c.teardown domain service origin ⊎ Refuses c.teardown domain service origin

path_rules_lem :
    (origin : WireOrigin) (d : ProtectionDomain) (hostname : Text) (order : ℕ) (paths : List Text)
    (r : DomainRule)
    → Memᴰ r (path_rules origin d hostname order paths)
    → (r.hostname ≡ hostname)
      × (r.service ≡ envoy_service d)
      × (r.origin ≡ some (clone_origin origin))
unfolding path_rules
path_rules_lem origin d hostname order [] r m = elim m [ ]
path_rules_lem origin d hostname order (p ∷ ps) r (Memᴰ.head e) =
    (ap DomainRule.hostname e, ap DomainRule.service e, ap DomainRule.origin e)
path_rules_lem origin d hostname order (p ∷ ps) r (Memᴰ.tail n) =
    path_rules_lem origin d hostname (suc order) ps r n

left_to_envoy :
    (teardown blocked protected disabled empty : Bool)
    → (teardown || (blocked || (protected && (not disabled && empty)))) ≡ false
    → (protected && not empty) ≡ false
    → (protected ≡ false) ⊎ (disabled ≡ true)
left_to_envoy teardown blocked false disabled empty h e = inl refl
left_to_envoy teardown blocked true true empty h e = inr refl
left_to_envoy teardown blocked true false empty h e = absurd (ground arith)

token_lem :
    (teardown : Bool) (base : WireOrigin) (d : ProtectionDomain)
    → base.access ≡ none
    → is_refused teardown d ≡ false
    → let o = checked (some (clone_origin (domain_origin base d))) in
      RequiresToken d o ⊎ ((o ≡ none) × ((d.protected ≡ false) ⊎ (d.origin_jwt_disabled ≡ true)))
unfolding checked clone_origin domain_origin is_refused RequiresToken
token_lem teardown base d b h =
    elim (Bool-cases (d.protected && not (no_audience (canonical_auds d.access)))) [
      | inl e ↦ inl (rw e (refl, refl, ground arith, refl))
      | inr e ↦ inr (
          rw e (
            b,
            left_to_envoy teardown (d.guard == "Blocked") d.protected d.origin_jwt_disabled _ h e,
          ))
    ]

host_rules_lem :
    (teardown : Bool) (base : WireOrigin) (d : ProtectionDomain) (order : ℕ) (vh : VirtualHost)
    (r : DomainRule)
    → base.access ≡ none
    → Memᴰ r (host_rules teardown base d order vh)
    → (r.hostname ≡ vh.hostname)
      × ((is_empty vh.hostname || (vh.hostname == codes "*")) ≡ false)
      × (Forwards teardown d r.service r.origin ⊎ Refuses teardown d r.service r.origin)
unfolding host_rules
host_rules_lem teardown base d order vh r b m =
    elim (Bool-cases (is_empty vh.hostname || (vh.hostname == codes "*"))) [
      | inl e ↦ elim (rw (e, host_rules) at m) [ ]
      | inr e ↦ elim (Bool-cases (is_refused teardown d)) [
        | inl f ↦ elim (rw (e, f, host_rules) at m) [
          | Memᴰ.head q ↦ (
            ap DomainRule.hostname q,
            e,
            inr (record {
              reply = ap DomainRule.service q;
              refused = f;
              unset = ap DomainRule.origin q;
            }),
          )
          | Memᴰ.tail n ↦ elim n [ ]
        ]
        | inr f ↦
            let (p, q, o) =
              path_rules_lem (domain_origin base d) d vh.hostname order (domain_paths d vh) r
                (rw (e, f, host_rules) at m) in
            (
              p,
              e,
              inl (record {
                target = q;
                admitted = f;
                token =
                    subst
                      (λ v.
                        RequiresToken d (checked v)
                        ⊎ ((checked v ≡ none)
                            × ((d.protected ≡ false) ⊎ (d.origin_jwt_disabled ≡ true))))
                      (sym o) (token_lem teardown base d b f);
              }),
            )
      ]
    ]

hosts_rules_lem :
    (teardown : Bool) (base : WireOrigin) (d : ProtectionDomain) (order : ℕ)
    (vhs : List VirtualHost) (r : DomainRule)
    → Memᴰ r (hosts_rules teardown base d order vhs)
    → (vh : VirtualHost) × (n : ℕ) × Memᴰ vh vhs × Memᴰ r (host_rules teardown base d n vh)
unfolding hosts_rules
hosts_rules_lem teardown base d order [] r m = elim m [ ]
hosts_rules_lem teardown base d order (vh ∷ vhs) r m =
    elim (append_member (host_rules teardown base d order vh) _ m) [
      | inl k ↦ (vh, order, Memᴰ.head refl, k)
      | inr k ↦
          let next = order + length (host_rules teardown base d order vh) in
          let (v, n, q, w) = hosts_rules_lem teardown base d next vhs r k in (v, n, Memᴰ.tail q, w)
    ]

domains_rules_lem :
    (exposures : Map String String) (teardown : Bool) (base : WireOrigin) (order : ℕ)
    (ds : List ProtectionDomain) (r : DomainRule)
    → Memᴰ r (domains_rules exposures teardown base order ds)
    → (d : ProtectionDomain) × (n : ℕ) × Memᴰ d ds
      × (is_private exposures d ≡ false)
      × Memᴰ r (hosts_rules teardown base d n d.virtual_hosts)
unfolding domains_rules domain_rules
domains_rules_lem exposures teardown base order [] r m = elim m [ ]
domains_rules_lem exposures teardown base order (d ∷ ds) r m =
    elim (append_member (domain_rules exposures teardown base order d) _ m) [
      | inl k ↦ elim (Bool-cases (is_private exposures d)) [
        | inl e ↦ elim (rw (e, domain_rules) at k) [ ]
        | inr e ↦ (d, order, Memᴰ.head refl, e, rw (e, domain_rules) at k)
      ]
      | inr k ↦
          let next = order + length (domain_rules exposures teardown base order d) in
          let (v, n, q, e, w) = domains_rules_lem exposures teardown base next ds r k in
          (v, n, Memᴰ.tail q, e, w)
    ]

pub gateway_rules-Serves :
    (g : Gateway) (c : Cloudflare) (r : DomainRule)
    → Memᴰ r (gateway_rules g c)
    → Serves g c r.hostname r.service r.origin
unfolding gateway_rules gateway_origin
gateway_rules-Serves g c r m =
    let (d, n, q, e, w) = domains_rules_lem _ _ _ _ g.domains r m in
    let (vh, k, u, v) = hosts_rules_lem _ _ d n d.virtual_hosts r w in
    let (p, f, x) = host_rules_lem _ _ d k vh r refl v in
    record {
      domain = d;
      host = vh;
      declared = q;
      exposed = e;
      virtual = u;
      named = p;
      proper = f;
      verdict = x;
    }

ingress_rule_lem :
    (rules : List DomainRule) (i : IngressRule)
    → Memᴰ i (map ingress_rule rules)
    → (r : DomainRule) × Memᴰ r rules × (i ≡ ingress_rule r)
ingress_rule_lem [] i m = elim m [ ]
ingress_rule_lem (r ∷ rules) i (Memᴰ.head q) = (r, Memᴰ.head refl, q)
ingress_rule_lem (r ∷ rules) i (Memᴰ.tail n) =
    let (s, k, q) = ingress_rule_lem rules i n in (s, Memᴰ.tail k, q)

-- Every ingress rule that compileConfig writes is the final 404, or is for a named virtual host of
-- a domain whose listener is not private; it answers 403 if the domain is refused (teardown, a
-- blocked guard, or protection checked by cloudflared without an audience), and forwards to the
-- domain's port otherwise, then with a required token of exactly the domain's audiences, unless the
-- domain is unprotected or its origin check is disabled.
pub compile_config-Serves :
    (g : Gateway) (c : Cloudflare) (i : IngressRule)
    → Memᴰ i (ConfigBody.ingress (compile_config g c))
    → (i ≡ catch_all) ⊎ Serves g c i.hostname i.service i.origin_request
unfolding compile_config ingress_rule
compile_config-Serves g c i m = elim (append_member _ (catch_all ∷ []) m) [
  | inl k ↦
      let (r, n, q) = ingress_rule_lem _ i k in
      inr (
        subst
          (λ j.
            Serves g c (IngressRule.hostname j) (IngressRule.service j)
              (IngressRule.origin_request j))
          (sym q) (gateway_rules-Serves g c r (sort_member rule_le r _ (dedupe_member [] _ r n))))
  | inr (Memᴰ.head q) ↦ inl q
  | inr (Memᴰ.tail n) ↦ elim n [ ]
]
