-- ===== src/GatewayApi/BackendExamples.antt =====
-- A backend in another namespace that a ReferenceGrant and a grant of the account admit.
use mathlib.Core.List.{Memᴰ}
use flareway.Base.{
  ◌≡◌, ◌↔◌, ◌⊎◌, ap, List, refl, ℕ, Bool, false, Option, none, some, String, [], ◌∷◌, any_complete,
  nat_beq,
}
use flareway.Base.Classes.{◌==◌, nat_eq, list_eq, string_eq}
use flareway.Base.Bytes.{Text, codes}
use flareway.Authz.Grants.{
  Grant, evaluate, evaluate_from, evaluate_grant, private_route_gate, backend_gate, contains,
  decide_namespace, decide_selector, evaluate_backend,
}
use flareway.GatewayApi.RefGrant.{
  ReferenceGrant, is_cross_namespace_reference_permitted, grants_reference, is_from, is_to,
  names_target,
}
use flareway.GatewayApi.PolicyTargets.{Targets}
use flareway.GatewayApi.OldestPolicy.{Wins, AreSeparate, winning_backend_tls_policy-Wins}
use flareway.GatewayApi.TlsPolicies.{
  ServicePort, TargetRef, Service, BackendTlsPolicy, backend_tls_policy_validation_error,
  match_policies, match_targets, matching_backend_tls_policies, names_service, prefer_sections,
  winning_backend_tls_policy,
}
use flareway.GatewayApi.Backends.{
  BackendObjectReference, Inputs, backend_not_found, compile_backend_object_ref, kind_of,
  is_reference_permitted, namespace_of, check_service, find_service, is_granted, namespace_by_name,
  check_port, find_service_port, finish_backend, invalid_backend, is_policy_valid, is_protocol,
  supported_app_protocol,
}
use flareway.GatewayApi.Resolution.{IsResolved}
use flareway.GatewayApi.BackendRefs.{Resolves, started, compile_backend_object_ref_iff}
use flareway.GatewayApi.ClusterNames.{cluster_name_injective}
use flareway.Base.Sorting.{insert, sort}
use flareway.GatewayApi.Filters.{compile_backend_filters}

abbrev same : ℕ → ℕ
same c = c

abbrev selects : String → String → Option Bool
selects selector labels = some (selector == labels)

abbrev equal_text : Text → Text → Bool
equal_text a b = a == b

abbrev is_pem : Text → Bool
is_pem bundle = bundle == codes "PEM"

-- The port 80 of the Service api of the namespace data.
abbrev api : Service
api = record {
  namespace = "data";
  name = "api";
  is_external_name = false;
  ports = record { name = "http"; port = 80; app_protocol = some (codes "HTTP") } ∷ [];
}

-- HTTPRoutes of the namespace apps may refer to the Services of data.
abbrev reference_grant : ReferenceGrant
reference_grant = record {
  namespace = "data";
  from =
      record { group = "gateway.networking.k8s.io"; kind = "HTTPRoute"; namespace = "apps" } ∷ [];
  to = record { group = ""; kind = "Service"; name = none } ∷ [];
}

-- Routes of apps may use the Services of data.
abbrev grant : Grant String String
grant = record {
  namespace_selector = "apps";
  hostnames = [];
  zones = [];
  exposures = [];
  unprotected_hostnames = [];
  access_policy_refs = "";
  access_custom_page_refs = "";
  device_posture_integration_refs = "";
  platform_objects = "";
  private_routes = none;
  backends =
      some (record { namespaces = "Selector"; selector = some "data"; kinds = "Service" ∷ [] });
}

-- A policy for the section of that port, with the certificates of the system.
abbrev policy : BackendTlsPolicy
policy = record {
  namespace = "data";
  name = "tls";
  creation = 5;
  target_refs =
      record { group = ""; kind = "Service"; name = "api"; section_name = some "http" } ∷ [];
  well_known = some "System";
  ca_certificate_refs = [];
}

abbrev cluster : Inputs String String
cluster = record {
  reference_grants = reference_grant ∷ [];
  services = api ∷ [];
  account = some (grant ∷ []);
  namespaces =
      record { name = "apps"; labels = "apps" } ∷ record { name = "data"; labels = "data" } ∷ [];
  backend_tls_policies = policy ∷ [];
  config_maps = [];
}

abbrev ref : BackendObjectReference
ref = record { group = none; kind = none; name = "api"; namespace = some "data"; port = some 80 }

resolves :
    (compile_backend_object_ref same selects equal_text is_pem cluster "apps" ref none []).0.invalid
    ≡ none
unfolding compile_backend_object_ref kind_of is_reference_permitted namespace_of
    is_cross_namespace_reference_permitted grants_reference is_from is_to names_target check_service
    find_service is_granted evaluate namespace_by_name evaluate_from evaluate_grant
    private_route_gate backend_gate contains decide_namespace decide_selector evaluate_backend
    insert sort check_port find_service_port finish_backend invalid_backend is_policy_valid
    is_protocol supported_app_protocol compile_backend_filters backend_tls_policy_validation_error
    match_policies match_targets matching_backend_tls_policies names_service prefer_sections
    winning_backend_tls_policy
resolves = refl

not_found :
    (compile_backend_object_ref same selects equal_text is_pem
      (record cluster { services = [] })
      "apps"
      ref
      none
      []).1
    ≡ backend_not_found
unfolding compile_backend_object_ref kind_of is_reference_permitted namespace_of
    is_cross_namespace_reference_permitted grants_reference is_from is_to names_target check_service
    find_service invalid_backend
not_found = refl

compile_backend_object_ref_iff_example :
    let b = compile_backend_object_ref same selects equal_text is_pem cluster "apps" ref none [] in
    ((b.0.invalid ≡ none) ↔ Resolves same selects equal_text is_pem cluster "apps" ref none [])
    × (b.0.invalid ≡ none
        → IsResolved same selects equal_text is_pem cluster [] (started "apps" ref none) b)
compile_backend_object_ref_iff_example =
    compile_backend_object_ref_iff same selects equal_text is_pem cluster "apps" ref none []

no_slash : ¬ Memᴰ b'/' (codes "data")
no_slash m = let h = any_complete (nat_beq b'/') b'/' (codes "data") m refl in absurd cc

no_colon : ¬ Memᴰ b':' (codes "api")
no_colon m = let h = any_complete (nat_beq b':') b':' (codes "api") m refl in absurd cc

cluster_name_injective_example :
    (codes "data" ≡ codes "data") × (codes "api" ≡ codes "api") × ◌≡◌ {A = ℕ} 80 80
cluster_name_injective_example =
    cluster_name_injective (codes "data") (codes "api") 80 (codes "data") (codes "api") 80 no_slash
      no_slash no_colon no_colon refl

abbrev http : ServicePort
http = record { name = "http"; port = 80; app_protocol = some (codes "HTTP") }

-- An older policy of the whole Service.
abbrev whole_policy : BackendTlsPolicy
whole_policy = record {
  namespace = "data";
  name = "old";
  creation = 3;
  target_refs = record { group = ""; kind = "Service"; name = "api"; section_name = none } ∷ [];
  well_known = some "System";
  ca_certificate_refs = [];
}

abbrev policies : List BackendTlsPolicy
policies = whole_policy ∷ policy ∷ []

one_target :
    (p : BackendTlsPolicy) (x : TargetRef)
    → p.target_refs ≡ x ∷ []
    → ¬ (Targets api (some "http") p × Targets api none p)
one_target p x e (t, u) =
    let a = only t.target (rw e at t.listed) in
    let b = only u.target (rw e at u.listed) in absurd (cc (t.section_name, u.section_name))
  where
    only : (y : TargetRef) → Memᴰ y (x ∷ []) → y ≡ x
    only y (Memᴰ.head h) = h
    only y (Memᴰ.tail m) = elim m [ ]

policies_separate : AreSeparate policies api http
policies_separate p (Memᴰ.head e) = one_target p _ (ap (λ q. q.target_refs) e)
policies_separate p (Memᴰ.tail (Memᴰ.head e)) = one_target p _ (ap (λ q. q.target_refs) e)
policies_separate p (Memᴰ.tail (Memᴰ.tail m)) = elim m [ ]

section_first : winning_backend_tls_policy policies api http ≡ some policy
unfolding winning_backend_tls_policy matching_backend_tls_policies match_policies match_targets
    names_service prefer_sections sort insert
section_first = refl

winning_backend_tls_policy-Wins_example :
    ((w : BackendTlsPolicy) × (winning_backend_tls_policy policies api http ≡ some w)
      × Wins policies api http w)
    ⊎ ((winning_backend_tls_policy policies api http ≡ none)
        × ((p : BackendTlsPolicy)
            → Memᴰ p policies
            → (¬ Targets api (some "http") p) × (¬ Targets api none p)))
winning_backend_tls_policy-Wins_example =
    winning_backend_tls_policy-Wins policies api http policies_separate
