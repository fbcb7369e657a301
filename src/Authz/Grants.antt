-- ===== src/Authz/Grants.antt =====
-- internal/authz/evaluate.go: Evaluate and the gates of one grant. A message is left out of a
-- decision, and the account's and the namespace's fields that only messages use are too.
use flareway.Base.{
  ℕ, ◌+◌, Bool, true, false, ◌||◌, ◌&&◌, not, Option, none, some, String, List, [], ◌∷◌,
  if◌then◌else◌, any,
}
use flareway.Base.Classes.{◌==◌, string_eq}
use flareway.Base.Bytes.{Text, is_empty}
use flareway.Base.Durations.{ℤ, pos, negsuc}
use flareway.Authz.Names.{matches_hostname_set, zone_matches}

pub record Decision : Type 0 where
  pub allowed : Bool
  pub reason : String
  pub grant_index : ℤ

abbrev pub ref_not_permitted : String
ref_not_permitted = "RefNotPermitted"

abbrev pub unsupported_value : String
unsupported_value = "UnsupportedValue"

unfoldable pub denied : String → Decision
denied reason = record { allowed = false; reason = reason; grant_index = negsuc 0 }

-- `Decision{Allowed: true}`
abbrev pub permitted : Decision
permitted = record { allowed = true; reason = ""; grant_index = pos 0 }

-- Labels, and the selectors of apimachinery over them.
module _ (Labels Selector : Type 0) where
  pub record Namespace : Type 0 where
    pub name : String
    pub labels : Labels

  pub record PrivateRouteRequest : Type 0 where
    pub kind : String
    pub labels : Labels

  pub record BackendRequest : Type 0 where
    pub namespace : Option Namespace
    pub kind : String

  pub record Request : Type 0 where
    pub hostname : Text
    pub zone : Text
    pub exposure : String
    pub unprotected : Bool
    pub access_policy_ref : Bool
    pub access_custom_page_ref : Bool
    pub device_posture_integration_ref : Bool
    pub platform_object : Bool
    pub private_route : Option PrivateRouteRequest
    pub backend : Option BackendRequest

  pub record PrivateRouteGrant : Type 0 where
    pub network_route_selector : Option Selector
    pub hostname_route_selector : Option Selector

  pub record BackendGrant : Type 0 where
    pub namespaces : String
    pub selector : Option Selector
    pub kinds : List String

  -- The fields of a CloudflareAccountGrant that Evaluate reads.
  pub record Grant : Type 0 where
    pub namespace_selector : Selector
    pub hostnames : List Text
    pub zones : List Text
    pub exposures : List String
    pub unprotected_hostnames : List Text
    pub access_policy_refs : String
    pub access_custom_page_refs : String
    pub device_posture_integration_refs : String
    pub platform_objects : String
    pub private_routes : Option PrivateRouteGrant
    pub backends : Option BackendGrant

-- containsExposure and containsBackendKind.
unfoldable pub contains : List String → String → Bool
contains candidates value = any (λ c. c == value) candidates

-- `permission == GrantPermissionAllowed`
abbrev pub is_allowed : String → Bool
is_allowed permission = permission == "Allowed"

-- `lower` is unicode.ToLower; `selects` compiles a selector, `none` if it is invalid, and applies it.
module _ {Labels Selector : Type 0} (lower : ℕ → ℕ)
    (selects : Selector → Labels → Option Bool) where
  -- The last three branches of evaluatePrivateRoute.
  unfoldable pub decide_selector : Option Selector → Labels → Decision
  decide_selector none labels = denied ref_not_permitted
  decide_selector (some selector) labels = elim (selects selector labels) [
    | none ↦ denied ref_not_permitted
    | some matches ↦ if matches then permitted else denied ref_not_permitted
  ]

  unfoldable pub evaluate_private_route :
      Option (PrivateRouteGrant Labels Selector) → PrivateRouteRequest Labels Selector → Decision
  evaluate_private_route none request = denied ref_not_permitted
  evaluate_private_route (some grant) request =
      if request.kind == "NetworkRoute"
      then decide_selector grant.network_route_selector request.labels
      else if request.kind == "HostnameRoute"
      then decide_selector grant.hostname_route_selector request.labels
      else denied ref_not_permitted

  -- The switch of evaluateBackend over the grant's namespace mode.
  unfoldable pub decide_namespace :
      BackendGrant Labels Selector
      → Namespace Labels Selector
      → Namespace Labels Selector
      → Decision
  decide_namespace grant source namespace =
      if grant.namespaces == "" || grant.namespaces == "Same"
      then if namespace.name == source.name then permitted else denied ref_not_permitted
      else if grant.namespaces == "Selector"
      then decide_selector grant.selector namespace.labels
      else denied ref_not_permitted

  unfoldable pub evaluate_backend :
      Option (BackendGrant Labels Selector)
      → Namespace Labels Selector
      → BackendRequest Labels Selector
      → Decision
  evaluate_backend none source request = denied ref_not_permitted
  evaluate_backend (some grant) source request = elim request.namespace [
    | none ↦ denied ref_not_permitted
    | some namespace ↦
        if not (contains grant.kinds request.kind)
        then denied ref_not_permitted
        else decide_namespace grant source namespace
  ]

  unfoldable pub private_route_gate :
      Grant Labels Selector → Option (PrivateRouteRequest Labels Selector) → Decision
  private_route_gate grant none = permitted
  private_route_gate grant (some request) = evaluate_private_route grant.private_routes request

  unfoldable pub backend_gate :
      Grant Labels Selector
      → Namespace Labels Selector
      → Option (BackendRequest Labels Selector)
      → Decision
  backend_gate grant namespace none = permitted
  backend_gate grant namespace (some request) = evaluate_backend grant.backends namespace request

  unfoldable pub evaluate_grant :
      Grant Labels Selector → Namespace Labels Selector → Request Labels Selector → Decision
  evaluate_grant grant namespace request =
      if not (is_empty request.hostname)
        && not (matches_hostname_set lower grant.hostnames request.hostname)
      then denied unsupported_value
      else if not (is_empty request.zone) && not (zone_matches lower grant.zones request.zone)
      then denied unsupported_value
      else if not (request.exposure == "") && not (contains grant.exposures request.exposure)
      then denied unsupported_value
      else if request.unprotected
          && not (matches_hostname_set lower grant.unprotected_hostnames request.hostname)
      then denied ref_not_permitted
      else if request.access_policy_ref && not (is_allowed grant.access_policy_refs)
      then denied ref_not_permitted
      else if request.access_custom_page_ref && not (is_allowed grant.access_custom_page_refs)
      then denied ref_not_permitted
      else if request.device_posture_integration_ref
          && not (is_allowed grant.device_posture_integration_refs)
      then denied ref_not_permitted
      else if request.platform_object && not (is_allowed grant.platform_objects)
      then denied ref_not_permitted
      else if not (private_route_gate grant request.private_route).allowed
      then private_route_gate grant request.private_route
      else if not (backend_gate grant namespace request.backend).allowed
      then backend_gate grant namespace request.backend
      else record { allowed = true; reason = "Allowed"; grant_index = negsuc 0 }

  -- The loop of Evaluate from a grant on, with what it has found before.
  unfoldable pub evaluate_from :
      Namespace Labels Selector
      → Request Labels Selector
      → List (Grant Labels Selector)
      → ℕ
      → Bool
      → Decision
      → Decision
  evaluate_from namespace request [] index matched_namespace last_denial =
      if not matched_namespace then denied ref_not_permitted else last_denial
  evaluate_from namespace request (grant ∷ grants) index matched_namespace last_denial =
      elim (selects grant.namespace_selector namespace.labels) [
        | none ↦
            evaluate_from namespace request grants (index + 1) matched_namespace
              (denied ref_not_permitted)
        | some matches ↦
            if not matches
            then evaluate_from namespace request grants (index + 1) matched_namespace last_denial
            else let decision = record (evaluate_grant grant namespace request) {
              grant_index = pos index;
            } in
              if decision.allowed
              then decision
              else evaluate_from namespace request grants (index + 1) true decision
      ]

  -- Evaluate, for an account given by its grants; `none` is a nil pointer.
  unfoldable pub evaluate :
      Option (List (Grant Labels Selector))
      → Option (Namespace Labels Selector)
      → Request Labels Selector
      → Decision
  evaluate none namespace request = denied ref_not_permitted
  evaluate (some grants) none request = denied ref_not_permitted
  evaluate (some grants) (some namespace) request =
      evaluate_from namespace request grants 0 false (denied ref_not_permitted)
