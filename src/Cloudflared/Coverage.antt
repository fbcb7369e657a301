-- ===== src/Cloudflared/Coverage.antt =====
-- That compileConfig has a rule for all that it should serve, and each rule once.
use mathlib.Core.List.{Memᴰ}
use flareway.Base.{
  ℕ, suc, ◌+◌, ◌≡◌, inl, inr, refl, sym, ap, subst, ◌∙◌, Bool, false, ◌||◌, none, String, List, [],
  ◌∷◌, ◌++◌, map, any, length, if◌then◌else◌, Bool-cases, append_left, append_right,
}
use flareway.Base.Classes.{◌==◌, nat_eq, list_eq, ==_iff}
use flareway.Base.Maps.{Map}
use flareway.Base.Bytes.{Text, is_empty, codes}
use flareway.Base.Sorting.{sort, sort_member, sort_complete}
use flareway.Cloudflared.Origin.{WireOrigin, IngressRule, ConfigBody, gateway_origin}
use flareway.Cloudflared.Ingress.{
  Gateway, Cloudflare, ProtectionDomain, VirtualHost, DomainRule, listener_exposure, is_private,
  is_refused, service_403, envoy_service, domain_origin, domain_paths, path_rules, host_rules,
  hosts_rules, domain_rules, domains_rules, rule_le, rule_key, ingress_rule, dedupe, gateway_rules,
  compile_config,
}
use flareway.Cloudflared.FirstMatch.{IsClean, dedupe_member, same_parts}

-- A rule with the given hostname, path and service.
abbrev pub HasRule : Text → Text → Text → List DomainRule → Type 0
HasRule hostname path service rules =
    (r : DomainRule) × Memᴰ r rules
    × (r.hostname ≡ hostname)
    × (r.path ≡ path)
    × (r.service ≡ service)

HasRule-left :
    {hostname path service : Text} (xs ys : List DomainRule)
    → HasRule hostname path service xs
    → HasRule hostname path service (xs ++ ys)
HasRule-left xs ys (r, m, p, q, e) = (r, append_left xs ys m, p, q, e)

HasRule-right :
    {hostname path service : Text} (xs ys : List DomainRule)
    → HasRule hostname path service ys
    → HasRule hostname path service (xs ++ ys)
HasRule-right xs ys (r, m, p, q, e) = (r, append_right xs ys m, p, q, e)

path_rules-HasRule :
    (origin : WireOrigin) (d : ProtectionDomain) (hostname : Text) (order : ℕ) (paths : List Text)
    (path : Text)
    → Memᴰ path paths
    → HasRule hostname path (envoy_service d) (path_rules origin d hostname order paths)
unfolding path_rules
path_rules-HasRule origin d hostname order [] path m = elim m [ ]
path_rules-HasRule origin d hostname order (p ∷ ps) path (Memᴰ.head e) =
    (_, Memᴰ.head refl, refl, sym e, refl)
path_rules-HasRule origin d hostname order (p ∷ ps) path (Memᴰ.tail n) =
    let (r, k, e, f, g) = path_rules-HasRule origin d hostname (suc order) ps path n in
    (r, Memᴰ.tail k, e, f, g)

-- The paths and the service that a virtual host of the domain should have.
unfoldable pub wanted_paths : Bool → ProtectionDomain → VirtualHost → List Text
wanted_paths teardown d vh = if is_refused teardown d then [] ∷ [] else domain_paths d vh

unfoldable pub wanted_service : Bool → ProtectionDomain → Text
wanted_service teardown d = if is_refused teardown d then service_403 else envoy_service d

host_rules-HasRule :
    (teardown : Bool) (base : WireOrigin) (d : ProtectionDomain) (order : ℕ) (vh : VirtualHost)
    (path : Text)
    → (is_empty vh.hostname || (vh.hostname == codes "*")) ≡ false
    → Memᴰ path (wanted_paths teardown d vh)
    → HasRule vh.hostname path (wanted_service teardown d) (host_rules teardown base d order vh)
unfolding host_rules wanted_paths wanted_service
host_rules-HasRule teardown base d order vh path e m = elim (Bool-cases (is_refused teardown d)) [
  | inl f ↦ rw (e, f, host_rules, wanted_service) (refused (rw (f, wanted_paths) at m))
  | inr f ↦
      rw (e, f, host_rules, wanted_service)
        (path_rules-HasRule (domain_origin base d) d vh.hostname order (domain_paths d vh) path
          (rw (f, wanted_paths) at m))
]
  where
    refused :
        Memᴰ path ([] ∷ [])
        → HasRule vh.hostname path service_403 (
            record {
              category = 2;
              order = order;
              hostname = vh.hostname;
              path = [];
              service = service_403;
              origin = none;
            }
            ∷ [])
    refused (Memᴰ.head q) = (_, Memᴰ.head refl, refl, sym q, refl)
    refused (Memᴰ.tail n) = elim n [ ]

hosts_rules-HasRule :
    (teardown : Bool) (base : WireOrigin) (d : ProtectionDomain) (order : ℕ)
    (vhs : List VirtualHost) (vh : VirtualHost) (path : Text)
    → Memᴰ vh vhs
    → (is_empty vh.hostname || (vh.hostname == codes "*")) ≡ false
    → Memᴰ path (wanted_paths teardown d vh)
    → HasRule vh.hostname path (wanted_service teardown d) (hosts_rules teardown base d order vhs)
unfolding hosts_rules
hosts_rules-HasRule teardown base d order [] vh path m e k = elim m [ ]
hosts_rules-HasRule teardown base d order (v ∷ vhs) vh path (Memᴰ.head q) e k = HasRule-left _ _ (
    subst
      (λ w.
        HasRule vh.hostname path (wanted_service teardown d) (host_rules teardown base d order w))
      q (host_rules-HasRule teardown base d order vh path e k))
hosts_rules-HasRule teardown base d order (v ∷ vhs) vh path (Memᴰ.tail n) e k = HasRule-right _ _ (
    hosts_rules-HasRule teardown base d (order + length (host_rules teardown base d order v)) vhs vh
      path n e k)

domains_rules-HasRule :
    (exposures : Map String String) (teardown : Bool) (base : WireOrigin) (order : ℕ)
    (ds : List ProtectionDomain) (d : ProtectionDomain) (vh : VirtualHost) (path : Text)
    → Memᴰ d ds
    → is_private exposures d ≡ false
    → Memᴰ vh d.virtual_hosts
    → (is_empty vh.hostname || (vh.hostname == codes "*")) ≡ false
    → Memᴰ path (wanted_paths teardown d vh)
    → HasRule vh.hostname path
        (wanted_service teardown d)
        (domains_rules exposures teardown base order ds)
unfolding domains_rules domain_rules
domains_rules-HasRule exposures teardown base order [] d vh path m x v e k = elim m [ ]
domains_rules-HasRule exposures teardown base order (b ∷ ds) d vh path (Memᴰ.head q) x v e k =
    HasRule-left _ _ (
      subst
        (λ w.
          HasRule vh.hostname path (wanted_service teardown d)
            (domain_rules exposures teardown base order w))
        q
        (rw (x, domain_rules)
          (hosts_rules-HasRule teardown base d order d.virtual_hosts vh path v e k)))
domains_rules-HasRule exposures teardown base order (b ∷ ds) d vh path (Memᴰ.tail n) x v e k =
    HasRule-right _ _ (
      domains_rules-HasRule exposures teardown base
        (order + length (domain_rules exposures teardown base order b)) ds d vh path n x v e k)

dedupe_complete :
    (seen : List Text) (rules : List DomainRule) (r : DomainRule)
    → Memᴰ r rules
    → any (λ k. k == rule_key r) seen ≡ false
    → (f : DomainRule) × Memᴰ f (dedupe seen rules) × (rule_key f ≡ rule_key r)
unfolding dedupe
dedupe_complete seen [] r m n = elim m [ ]
dedupe_complete seen (x ∷ xs) r (Memᴰ.head q) n =
    let fresh = subst (λ z. any (λ k. k == rule_key z) seen ≡ false) q n in
    (x, rw (fresh, dedupe) (Memᴰ.head refl), ap rule_key (sym q))
dedupe_complete seen (x ∷ xs) r (Memᴰ.tail m) n =
    elim (Bool-cases (any (λ k. k == rule_key x) seen)) [
      | inl e ↦ let (f, k, p) = dedupe_complete seen xs r m n in (f, rw (e, dedupe) k, p)
      | inr e ↦ elim (Bool-cases (rule_key x == rule_key r)) [
        | inl q ↦ (x, rw (e, dedupe) (Memᴰ.head refl), (==_iff _ _).0 q)
        | inr q ↦
            let (f, k, p) = dedupe_complete (rule_key x ∷ seen) xs r m (rw q n) in
            (f, rw (e, dedupe) (Memᴰ.tail k), p)
      ]
    ]

pub mapped_rule :
    (r : DomainRule) (rules : List DomainRule)
    → Memᴰ r rules
    → Memᴰ (ingress_rule r) (map ingress_rule rules)
mapped_rule r [] m = elim m [ ]
mapped_rule r (x ∷ xs) (Memᴰ.head q) = Memᴰ.head (ap ingress_rule q)
mapped_rule r (x ∷ xs) (Memᴰ.tail n) = Memᴰ.tail (mapped_rule r xs n)

-- If no hostname or path has a NUL, every virtual host with a hostname, not the asterisk, of a
-- domain whose listener is not private has an ingress rule: for all paths the 403 if the domain is
-- refused, and otherwise one to the domain's port for each of its paths.
pub compile_config_covers :
    (g : Gateway) (c : Cloudflare) (d : ProtectionDomain) (vh : VirtualHost) (path : Text)
    → ((r : DomainRule) → Memᴰ r (gateway_rules g c) → IsClean r)
    → Memᴰ d g.domains
    → is_private (listener_exposure g.listeners []) d ≡ false
    → Memᴰ vh d.virtual_hosts
    → (is_empty vh.hostname || (vh.hostname == codes "*")) ≡ false
    → Memᴰ path (wanted_paths c.teardown d vh)
    → (i : IngressRule) × Memᴰ i (ConfigBody.ingress (compile_config g c))
      × (i.hostname ≡ vh.hostname)
      × (i.path ≡ path)
      × (i.service ≡ wanted_service c.teardown d)
unfolding compile_config gateway_rules ingress_rule
compile_config_covers g c d vh path clean m x v e k =
    let (r, n, p, q, s) =
      domains_rules-HasRule (listener_exposure g.listeners []) c.teardown
        (gateway_origin c.origin_request) 0 g.domains d vh path m x v e k in
    let (f, o, key) =
      dedupe_complete [] (sort rule_le (gateway_rules g c)) r (sort_complete rule_le r _ n) refl in
    let known = sort_member rule_le f _ (dedupe_member [] _ f o) in
    let (host, part, service) = same_parts f r (clean f known) (clean r n) key in
    (ingress_rule f, append_left _ _ (mapped_rule f _ o), host ∙ p, part ∙ q, service ∙ s)
