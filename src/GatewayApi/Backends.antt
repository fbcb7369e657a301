-- ===== src/GatewayApi/Backends.antt =====
-- internal/gatewayapi/backends.go: compileBackendObjectRef and what it looks up, over the ReferenceGrants
-- and the grants of the account. strings.EqualFold and AppendCertsFromPEM are parameters; the message of
-- a reason is left out.
use flareway.Base.{
  ℕ, Bool, true, false, not, ◌&&◌, ◌||◌, Option, none, some, String, List, [], ◌∷◌, ◌++◌,
  if◌then◌else◌, nat_beq, get_or,
}
use flareway.Base.Classes.{◌==◌, nat_eq, list_eq, string_eq}
use flareway.Base.Bytes.{Text, codes, has_prefix, is_empty}
use flareway.Base.Decimal.{decimal}
use flareway.Base.Results.{ok, err}
use flareway.Authz.Grants.{Namespace, Request, Grant, evaluate}
use flareway.GatewayApi.RefGrant.{
  ReferenceSource, ReferenceTarget, ReferenceGrant, is_cross_namespace_reference_permitted,
}
use flareway.GatewayApi.TlsPolicies.{
  Service, ServicePort, BackendTlsPolicy, ConfigMap, winning_backend_tls_policy,
  backend_tls_policy_validation_error,
}
use flareway.GatewayApi.Filters.{BackendFilter, BackendFilters, compile_backend_filters}

pub data RouteReason : Type 0 where
  resolved_refs : RouteReason
  invalid_kind : RouteReason
  ref_not_permitted : RouteReason
  backend_not_found : RouteReason
  unsupported_protocol : RouteReason
  unsupported_value : RouteReason

pub record BackendObjectReference : Type 0 where
  pub group : Option String
  pub kind : Option String
  pub name : String
  pub namespace : Option String
  pub port : Option ℕ

-- A port and a weight, which the API keeps from being negative; an empty cluster_name is not set.
pub record BackendRef : Type 0 where
  pub name : String
  pub namespace : String
  pub cluster_name : Text
  pub port : ℕ
  pub weight : ℕ
  pub filters : BackendFilters
  pub invalid : Option RouteReason

abbrev pub no_filters : BackendFilters
no_filters = record { request_headers = none; response_headers = none; url_rewrite = none }

-- The inputs that are read here; `account` has the grants of the CloudflareAccount.
pub record Inputs (Labels Selector : Type 0) : Type 0 where
  pub reference_grants : List ReferenceGrant
  pub services : List Service
  pub account : Option (List (Grant Labels Selector))
  pub namespaces : List (Namespace Labels Selector)
  pub backend_tls_policies : List BackendTlsPolicy
  pub config_maps : List ConfigMap

unfoldable pub find_service : List Service → String → String → Option Service
find_service [] namespace name = none
find_service (s ∷ services) namespace name =
    let rest = find_service services namespace name in
    if (s.namespace == namespace) && (s.name == name) then some s else rest

unfoldable pub find_service_port : List ServicePort → ℕ → Option ServicePort
find_service_port [] port = none
find_service_port (p ∷ ports) port =
    let rest = find_service_port ports port in if nat_beq p.port port then some p else rest

unfoldable pub namespace_by_name :
    {Labels Selector : Type 0}
    → List (Namespace Labels Selector)
    → String
    → Option (Namespace Labels Selector)
namespace_by_name [] name = none
namespace_by_name (n ∷ namespaces) name =
    let rest = namespace_by_name namespaces name in if n.name == name then some n else rest

unfoldable pub cluster_name : Text → Text → ℕ → Text
cluster_name namespace service port =
    codes "k8s://" ++ (namespace ++ (b'/' ∷ (service ++ (b':' ∷ decimal port))))

unfoldable pub namespace_of : String → BackendObjectReference → String
namespace_of route_namespace ref = get_or ref.namespace route_namespace

unfoldable pub kind_of : Option String → String
kind_of none = "Service"
kind_of (some kind) = if kind == "" then "Service" else kind

abbrev pub route_source : String → ReferenceSource
route_source namespace = record {
  group = "gateway.networking.k8s.io";
  kind = "HTTPRoute";
  namespace = namespace;
}

abbrev pub service_target : String → String → ReferenceTarget
service_target namespace name = record {
  group = "";
  kind = "Service";
  namespace = namespace;
  name = name;
}

-- A request of the gate for backends alone.
abbrev pub backend_request :
    {Labels Selector : Type 0} → Option (Namespace Labels Selector) → Request Labels Selector
backend_request namespace = record {
  hostname = [];
  zone = [];
  exposure = "";
  unprotected = false;
  access_policy_ref = false;
  access_custom_page_ref = false;
  device_posture_integration_ref = false;
  platform_object = false;
  private_route = none;
  backend = some (record { namespace = namespace; kind = "Service" });
}

abbrev pub Backend : Type 0
Backend = BackendRef × RouteReason

unfoldable pub invalid_backend : BackendRef → RouteReason → Backend
invalid_backend backend reason = (record backend { invalid = some reason }, reason)

-- The end, with the cluster's name: an invalid filter makes the backend invalid for another reason.
unfoldable pub finish_backend : (ℕ → ℕ) → List BackendFilter → BackendRef → Backend
finish_backend lower filters backend = elim (compile_backend_filters lower filters no_filters) [
  | err e ↦ (record backend { invalid = some unsupported_value }, invalid_kind)
  | ok compiled ↦ (record backend { filters = compiled }, resolved_refs)
]

module _ (equal_fold : Text → Text → Bool) where
  unfoldable pub supported_app_protocol : Text → Bool
  supported_app_protocol protocol =
      is_empty protocol
      || (equal_fold protocol (codes "HTTP")
          || (equal_fold protocol (codes "HTTPS")
              || ((protocol == codes "kubernetes.io/h2c")
                  || has_prefix protocol (codes "kubernetes.io/ws"))))

  -- `servicePort.AppProtocol == nil` or supported.
  unfoldable pub is_protocol : Option Text → Bool
  is_protocol none = true
  is_protocol (some protocol) = supported_app_protocol protocol

module _ {Labels Selector : Type 0} (lower : ℕ → ℕ) (selects : Selector → Labels → Option Bool)
    (equal_fold : Text → Text → Bool) (is_pem : Text → Bool) (inputs : Inputs Labels Selector) where
  -- The winning policy, if any, is valid.
  unfoldable pub is_policy_valid : Service → ServicePort → Bool
  is_policy_valid service port =
      elim (winning_backend_tls_policy inputs.backend_tls_policies service port) [
        | none ↦ true
        | some policy ↦
            elim (backend_tls_policy_validation_error is_pem inputs.config_maps policy) [
              | none ↦ true
              | some e ↦ false
            ]
      ]

  unfoldable pub check_port : Service → List BackendFilter → BackendRef → Backend
  check_port service filters backend = elim (find_service_port service.ports backend.port) [
    | none ↦ invalid_backend backend backend_not_found
    | some port ↦
        if not (is_protocol equal_fold port.app_protocol)
        then invalid_backend backend unsupported_protocol
        else if not (is_policy_valid service port)
        then invalid_backend backend unsupported_protocol
        else finish_backend lower filters (record backend {
          cluster_name = cluster_name (codes backend.namespace) (codes backend.name) backend.port;
        })
  ]

  -- What the account's grants say, if there is an account.
  unfoldable pub is_granted : String → String → Bool
  is_granted route_namespace namespace = elim inputs.account [
    | none ↦ true
    | some grants ↦
        (evaluate lower selects (some grants) (namespace_by_name inputs.namespaces route_namespace)
          (backend_request (namespace_by_name inputs.namespaces namespace))).allowed
  ]

  unfoldable pub check_service : String → List BackendFilter → BackendRef → Backend
  check_service route_namespace filters backend =
      elim (find_service inputs.services backend.namespace backend.name) [
        | none ↦ invalid_backend backend backend_not_found
        | some service ↦
            if service.is_external_name
            then invalid_backend backend backend_not_found
            else if not (is_granted route_namespace backend.namespace)
            then invalid_backend backend ref_not_permitted
            else check_port service filters backend
      ]

  unfoldable pub is_reference_permitted : String → String → String → Bool
  is_reference_permitted route_namespace namespace name =
      (namespace == route_namespace)
      || is_cross_namespace_reference_permitted (route_source route_namespace)
          (service_target namespace name) inputs.reference_grants

  unfoldable pub compile_backend_object_ref :
      String → BackendObjectReference → Option ℕ → List BackendFilter → Backend
  compile_backend_object_ref route_namespace ref weight filters =
      let backend : BackendRef = record {
        name = ref.name;
        namespace = namespace_of route_namespace ref;
        cluster_name = [];
        port = get_or ref.port 0;
        weight = get_or weight 1;
        filters = no_filters;
        invalid = none;
      } in
      if not (get_or ref.group "" == "") || not (kind_of ref.kind == "Service")
      then invalid_backend backend invalid_kind
      else if not (is_reference_permitted route_namespace backend.namespace ref.name)
      then invalid_backend backend ref_not_permitted
      else check_service route_namespace filters backend
