-- ===== src/Authz/Permits.antt =====
-- What one grant of internal/authz/evaluate.go permits, gate by gate.
use mathlib.Core.List.{Memᴰ}
use flareway.Base.{ℕ, ◌≡◌, ◌⊎◌, Bool, true, false, Option, none, some, List, []}
use flareway.Base.Classes.{string_eq, nat_eq, list_eq}
use flareway.Base.Bytes.{Text, codes}
use flareway.Authz.Names.{normalize_dns_name}
use flareway.Authz.Covers.{Covers}
use flareway.Authz.Grants.{
  Namespace, PrivateRouteRequest, BackendRequest, Request, PrivateRouteGrant, BackendGrant, Grant,
}

module _ {Labels Selector : Type 0} (lower : ℕ → ℕ)
    (selects : Selector → Labels → Option Bool) where
  abbrev pub CoveredBy : List Text → Text → Type 0
  CoveredBy patterns hostname =
      (pattern : Text) × Memᴰ pattern patterns
      × Covers (normalize_dns_name lower pattern) (normalize_dns_name lower hostname)

  -- A zone's own name or the asterisk, each normalized.
  abbrev pub InZones : List Text → Text → Type 0
  InZones patterns zone =
      (pattern : Text) × Memᴰ pattern patterns
      × ((normalize_dns_name lower pattern ≡ codes "*")
          ⊎ (normalize_dns_name lower pattern ≡ normalize_dns_name lower zone))

  -- A selector is there, valid, and selects the labels.
  abbrev pub Selected : Option Selector → Labels → Type 0
  Selected o labels = (s : Selector) × (o ≡ some s) × (selects s labels ≡ some true)

  abbrev pub RoutePermitted :
      Option (PrivateRouteGrant Labels Selector) → PrivateRouteRequest Labels Selector → Type 0
  RoutePermitted o q =
      (g : PrivateRouteGrant Labels Selector) × (o ≡ some g)
      × (((q.kind ≡ "NetworkRoute") × Selected g.network_route_selector q.labels)
          ⊎ ((q.kind ≡ "HostnameRoute") × Selected g.hostname_route_selector q.labels))

  abbrev pub NamespacePermitted :
      BackendGrant Labels Selector → Namespace Labels Selector → Namespace Labels Selector → Type 0
  NamespacePermitted g source target =
      (((g.namespaces ≡ "") ⊎ (g.namespaces ≡ "Same")) × (target.name ≡ source.name))
      ⊎ ((g.namespaces ≡ "Selector") × Selected g.selector target.labels)

  abbrev pub BackendPermitted :
      Option (BackendGrant Labels Selector)
      → Namespace Labels Selector
      → BackendRequest Labels Selector
      → Type 0
  BackendPermitted o source q =
      (g : BackendGrant Labels Selector) × (o ≡ some g)
      × (target : Namespace Labels Selector) × (q.namespace ≡ some target)
      × Memᴰ q.kind g.kinds
      × NamespacePermitted g source target

  -- Every gate that the request activates is open.
  pub record Permits (g : Grant Labels Selector) (namespace : Namespace Labels Selector)
      (r : Request Labels Selector) : Type 0 where
    pub hostname : (r.hostname ≡ []) ⊎ CoveredBy g.hostnames r.hostname
    pub zone : (r.zone ≡ []) ⊎ InZones g.zones r.zone
    pub exposure : (r.exposure ≡ "") ⊎ Memᴰ r.exposure g.exposures
    pub unprotected : (r.unprotected ≡ false) ⊎ CoveredBy g.unprotected_hostnames r.hostname
    pub policy : (r.access_policy_ref ≡ false) ⊎ (g.access_policy_refs ≡ "Allowed")
    pub custom_page : (r.access_custom_page_ref ≡ false) ⊎ (g.access_custom_page_refs ≡ "Allowed")
    pub posture :
        (r.device_posture_integration_ref ≡ false) ⊎ (g.device_posture_integration_refs ≡ "Allowed")
    pub platform : (r.platform_object ≡ false) ⊎ (g.platform_objects ≡ "Allowed")
    pub route :
        (r.private_route ≡ none)
        ⊎ ((q : PrivateRouteRequest Labels Selector) × (r.private_route ≡ some q)
            × RoutePermitted g.private_routes q)
    pub backend :
        (r.backend ≡ none)
        ⊎ ((q : BackendRequest Labels Selector) × (r.backend ≡ some q)
            × BackendPermitted g.backends namespace q)
