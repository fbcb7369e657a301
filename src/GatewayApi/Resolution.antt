-- ===== src/GatewayApi/Resolution.antt =====
-- Which backends compileBackendObjectRef resolves.
use flareway.Base.{
  ℕ, ◌≡◌, ◌⊎◌, inl, inr, refl, Bool, true, false, not, Option, none, some, String, List,
  if◌then◌else◌, Bool-cases, Option-cases,
}
use flareway.Base.Classes.{string_eq}
use flareway.Base.Bytes.{Text, codes}
use flareway.Base.Results.{Result, ok, err}
use flareway.GatewayApi.TlsPolicies.{Service, ServicePort}
use flareway.GatewayApi.Filters.{BackendFilter, BackendFilters, compile_backend_filters}
use flareway.GatewayApi.Backends.{
  RouteReason, BackendRef, Backend, Inputs, no_filters, find_service, find_service_port,
  invalid_backend, finish_backend, is_protocol, is_policy_valid, check_port, is_granted,
  check_service, resolved_refs, ref_not_permitted, backend_not_found, cluster_name,
}

Result-cases : {E A : Type 0} (r : Result E A) → ((a : A) × (r ≡ ok a)) ⊎ ((e : E) × (r ≡ err e))
Result-cases (ok a) = inl (a, refl)
Result-cases (err e) = inr (e, refl)

-- Past two early returns.
pub guards :
    (x g : Bool) (b : BackendRef) (p q : RouteReason) (rest : Backend)
    → (if x then invalid_backend b p else if not g then invalid_backend b q else rest).0.invalid
      ≡ none
    → (x ≡ false) × (g ≡ true) × (rest.0.invalid ≡ none)
unfolding invalid_backend
guards true g b p q rest h = absurd (cc)
guards false false b p q rest h = absurd (cc)
guards false true b p q rest h = (refl, refl, h)

pub if_neither :
    (x g : Bool) (p q rest : Backend) (P : Backend → Type 0)
    → x ≡ false
    → g ≡ true
    → P rest
    → P (if x then p else if not g then q else rest)
if_neither x g p q rest P e f h = rw (e, f) h

module _ {Labels Selector : Type 0} (lower : ℕ → ℕ) (selects : Selector → Labels → Option Bool)
    (equal_fold : Text → Text → Bool) (is_pem : Text → Bool) (inputs : Inputs Labels Selector) where
  -- The backend as it was, with the name of its cluster and its filters compiled.
  unfoldable pub IsResolved : List BackendFilter → BackendRef → Backend → Type 0
  IsResolved filters backend result =
      (compiled : BackendFilters) × (compile_backend_filters lower filters no_filters ≡ ok compiled)
      × (result ≡ (
        record backend {
          cluster_name = cluster_name (codes backend.namespace) (codes backend.name) backend.port;
          filters = compiled;
        },
        resolved_refs,
      ))

  finish_sound :
      (fs : List BackendFilter) (b : BackendRef)
      → (finish_backend lower fs b).0.invalid ≡ none
      → (c : BackendFilters) × (compile_backend_filters lower fs no_filters ≡ ok c)
  unfolding finish_backend
  finish_sound fs b h = elim (Result-cases (compile_backend_filters lower fs no_filters)) [
    | inl (c, e) ↦ (c, e)
    | inr (x, e) ↦ absurd (cc (rw (e, finish_backend) at h))
  ]

  finish_complete :
      (fs : List BackendFilter) (b : BackendRef) (c : BackendFilters)
      → compile_backend_filters lower fs no_filters ≡ ok c
      → finish_backend lower fs b ≡ (record b { filters = c }, resolved_refs)
  unfolding finish_backend
  finish_complete fs b c e = rw (e, finish_backend) refl

  -- The port that the backend needs, and its filters.
  pub record HasPort (service : Service) (backend : BackendRef) (filters : List BackendFilter)
      : Type 0 where
    pub port : ServicePort
    pub port_found : find_service_port service.ports backend.port ≡ some port
    pub protocol : is_protocol equal_fold port.app_protocol ≡ true
    pub policy : is_policy_valid lower selects equal_fold is_pem inputs service port ≡ true
    pub compiled : BackendFilters
    pub filters_compile : compile_backend_filters lower filters no_filters ≡ ok compiled

  port_sound :
      (s : Service) (fs : List BackendFilter) (b : BackendRef)
      → (check_port lower selects equal_fold is_pem inputs s fs b).0.invalid ≡ none
      → HasPort s b fs
  unfolding check_port invalid_backend
  port_sound s fs b h = elim (Option-cases (find_service_port s.ports b.port)) [
    | inl f ↦ absurd (cc (rw (f, check_port) at h))
    | inr (p, f) ↦ elim (Bool-cases (is_protocol equal_fold p.app_protocol)) [
      | inr q ↦ absurd (cc (rw (f, q, check_port) at h))
      | inl q ↦ elim (Bool-cases (is_policy_valid lower selects equal_fold is_pem inputs s p)) [
        | inr r ↦ absurd (cc (rw (f, q, r, check_port) at h))
        | inl r ↦
            let (c, k) = finish_sound fs _ (rw (f, q, r, check_port) at h) in
            record {
              port = p;
              port_found = f;
              protocol = q;
              policy = r;
              compiled = c;
              filters_compile = k;
            }
      ]
    ]
  ]

  port_complete :
      (s : Service) (fs : List BackendFilter) (b : BackendRef)
      → HasPort s b fs
      → IsResolved fs b (check_port lower selects equal_fold is_pem inputs s fs b)
  unfolding check_port IsResolved
  port_complete s fs b h = (
    h.compiled,
    h.filters_compile,
    rw (h.port_found, check_port)
        (rw (h.protocol, h.policy) (finish_complete fs _ h.compiled h.filters_compile)),
  )

  -- The Service that the backend needs.
  pub record Serves (route_namespace : String) (backend : BackendRef) (filters : List BackendFilter)
      : Type 0 where
    pub service : Service
    pub found : find_service inputs.services backend.namespace backend.name ≡ some service
    pub internal : service.is_external_name ≡ false
    pub granted :
        is_granted lower selects equal_fold is_pem inputs route_namespace backend.namespace ≡ true
    pub has_port : HasPort service backend filters

  service_guards :
      (ns : String) (fs : List BackendFilter) (b : BackendRef) (s : Service)
      → (if s.is_external_name
          then invalid_backend b backend_not_found
          else if not (is_granted lower selects equal_fold is_pem inputs ns b.namespace)
          then invalid_backend b ref_not_permitted
          else check_port lower selects equal_fold is_pem inputs s fs b).0.invalid
        ≡ none
      → (s.is_external_name ≡ false)
        × (is_granted lower selects equal_fold is_pem inputs ns b.namespace ≡ true)
        × ((check_port lower selects equal_fold is_pem inputs s fs b).0.invalid ≡ none)
  unfolding invalid_backend
  service_guards ns fs b s h =
      guards s.is_external_name (is_granted lower selects equal_fold is_pem inputs ns b.namespace) b
        _ _ _ h

  pub service_sound :
      (ns : String) (fs : List BackendFilter) (b : BackendRef)
      → (check_service lower selects equal_fold is_pem inputs ns fs b).0.invalid ≡ none
      → Serves ns b fs
  unfolding check_service invalid_backend
  service_sound ns fs b h = elim (Option-cases (find_service inputs.services b.namespace b.name)) [
    | inl e ↦ absurd (cc (rw (e, check_service) at h))
    | inr (s, e) ↦
        let (x, g, k) = service_guards ns fs b s (rw (e, check_service) at h) in
        record { service = s; found = e; internal = x; granted = g; has_port = port_sound s fs b k }
  ]

  pub service_complete :
      (ns : String) (fs : List BackendFilter) (b : BackendRef)
      → Serves ns b fs
      → IsResolved fs b (check_service lower selects equal_fold is_pem inputs ns fs b)
  unfolding check_service
  service_complete ns fs b s =
      rw (s.found, check_service)
        (if_neither s.service.is_external_name
          (is_granted lower selects equal_fold is_pem inputs ns b.namespace) _ _ _ (IsResolved fs b)
          s.internal s.granted (port_complete s.service fs b s.has_port))
