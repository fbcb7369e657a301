-- ===== src/GatewayApi/BackendRefs.antt =====
-- That a backend resolves only to a Service that the Route may refer to.
use mathlib.Core.List.{Memᴰ}
use flareway.Base.{
  ℕ, ◌≡◌, ◌↔◌, ◌⊎◌, inl, inr, refl, sym, Bool, true, false, not, ◌||◌, Option, none, some, String,
  List, [], Bool-cases, Option-cases, get_or, arith,
}
use flareway.Base.Classes.{◌==◌, string_eq, ==_iff}
use flareway.Base.Bytes.{Text}
use flareway.Authz.Grants.{Namespace, Request, Grant, denied, evaluate}
use flareway.Authz.Decisions.{Opens, evaluate_allowed_iff}
use flareway.GatewayApi.RefGrant.{ReferenceGrant, Grants, permitted_iff}
use flareway.GatewayApi.Filters.{BackendFilter}
use flareway.GatewayApi.Backends.{
  BackendObjectReference, BackendRef, Inputs, no_filters, kind_of, namespace_of, namespace_by_name,
  route_source, service_target, backend_request, invalid_kind, ref_not_permitted, check_service,
  is_granted, is_reference_permitted, compile_backend_object_ref,
}
use flareway.GatewayApi.Resolution.{
  IsResolved, Serves, guards, if_neither, service_sound, service_complete,
}

-- The backend of a reference before its checks.
abbrev pub started : String → BackendObjectReference → Option ℕ → BackendRef
started route_namespace ref weight = record {
  name = ref.name;
  namespace = namespace_of route_namespace ref;
  cluster_name = [];
  port = get_or ref.port 0;
  weight = get_or weight 1;
  filters = no_filters;
  invalid = none;
}

is_service_iff :
    (a b : String)
    → ((not (a == "") || not (b == "Service")) ≡ false) ↔ ((a ≡ "") × (b ≡ "Service"))
is_service_iff a b = (
  λ h. ((==_iff a "").0 (ground arith), (==_iff b "Service").0 (ground arith)),
  λ (p, q). rw ((==_iff a "").1 p, (==_iff b "Service").1 q) refl,
)

module _ {Labels Selector : Type 0} (lower : ℕ → ℕ) (selects : Selector → Labels → Option Bool)
    (equal_fold : Text → Text → Bool) (is_pem : Text → Bool) (inputs : Inputs Labels Selector) where
  -- The Route's own namespace, or a ReferenceGrant for its HTTPRoutes and this Service.
  abbrev pub MayRefer : String → String → String → Type 0
  MayRefer route_namespace namespace name =
      (namespace ≡ route_namespace)
      ⊎ ((g : ReferenceGrant) × Memᴰ g inputs.reference_grants
          × Grants (route_source route_namespace) (service_target namespace name) g)

  -- No account, or one of its grants opens the backend's namespace to the Route's.
  abbrev pub MayUse : String → String → Type 0
  MayUse route_namespace namespace =
      (inputs.account ≡ none)
      ⊎ ((grants : List (Grant Labels Selector)) × (inputs.account ≡ some grants)
          × (source : Namespace Labels Selector) × (namespace_by_name inputs.namespaces
                route_namespace
              ≡ some source)
          × (g : Grant Labels Selector) × Memᴰ g grants
          × Opens lower selects source
              (backend_request (namespace_by_name inputs.namespaces namespace)) g)

  is_reference_permitted_iff :
      (route_namespace namespace name : String)
      → (is_reference_permitted lower selects equal_fold is_pem inputs route_namespace namespace
            name
          ≡ true)
        ↔ MayRefer route_namespace namespace name
  unfolding is_reference_permitted
  is_reference_permitted_iff r n s =
      let granted = permitted_iff (route_source r) (service_target n s) inputs.reference_grants in
      (
        λ h. elim (Bool-cases (n == r)) [
          | inl e ↦ inl ((==_iff n r).0 e)
          | inr e ↦ elim (granted.0 (rw e at h)) [ inl e ↦ inl (sym e) | inr g ↦ inr g ]
        ],
        λ m. elim m [
          | inl e ↦ rw ((==_iff n r).1 e) refl
          | inr g ↦ ground (arith, granted.1 (inr g))
        ],
      )

  allowed_sound :
      (source : Option (Namespace Labels Selector)) (request : Request Labels Selector)
      (grants : List (Grant Labels Selector))
      → (evaluate lower selects (some grants) source request).allowed ≡ true
      → (ns : Namespace Labels Selector) × (source ≡ some ns)
        × (g : Grant Labels Selector) × Memᴰ g grants
        × Opens lower selects ns request g
  unfolding evaluate denied
  allowed_sound none request grants h = absurd (cc)
  allowed_sound (some ns) request grants h =
      let (g, m, o) = (evaluate_allowed_iff lower selects ns request grants).0 h in
      (ns, refl, g, m, o)

  is_granted_iff :
      (route_namespace namespace : String)
      → (is_granted lower selects equal_fold is_pem inputs route_namespace namespace ≡ true)
        ↔ MayUse route_namespace namespace
  unfolding is_granted
  is_granted_iff r n = (
    λ h. elim (Option-cases inputs.account) [
      | inl a ↦ inl a
      | inr (gs, a) ↦
          let (ns, f, g, m, o) = allowed_sound _ _ gs (rw (a, is_granted) at h) in
          inr (gs, a, ns, f, g, m, o)
    ],
    λ m. elim m [
      | inl a ↦ rw (a, is_granted) refl
      | inr (gs, a, ns, f, g, m, o) ↦
          rw (a, is_granted)
            (rw f (
              (evaluate_allowed_iff lower selects ns
                  (backend_request (namespace_by_name inputs.namespaces n)) gs).1
                (g, m, o)))
    ],
  )

  -- All that compileBackendObjectRef asks of a reference.
  pub record Resolves (route_namespace : String) (ref : BackendObjectReference) (weight : Option ℕ)
      (filters : List BackendFilter) : Type 0 where
    pub core : get_or ref.group "" ≡ ""
    pub kind : kind_of ref.kind ≡ "Service"
    pub may_refer : MayRefer route_namespace (namespace_of route_namespace ref) ref.name
    pub may_use : MayUse route_namespace (namespace_of route_namespace ref)
    pub serves :
        Serves lower selects equal_fold is_pem inputs route_namespace
          (started route_namespace ref weight)
          filters

  Resolves-sound :
      (r : String) (ref : BackendObjectReference) (w : Option ℕ) (fs : List BackendFilter)
      → (compile_backend_object_ref lower selects equal_fold is_pem inputs r ref w fs).0.invalid
        ≡ none
      → Resolves r ref w fs
  unfolding compile_backend_object_ref namespace_of
  Resolves-sound r ref w fs h =
      let b = started r ref w in
      let core = (is_service_iff (get_or ref.group "") (kind_of ref.kind)).0 in
      let (x, g, k) =
        guards _ _ b invalid_kind ref_not_permitted
          (check_service lower selects equal_fold is_pem inputs r fs b) h in
      let s = service_sound lower selects equal_fold is_pem inputs r fs b k in
      record {
        core = (core x).0;
        kind = (core x).1;
        may_refer = (is_reference_permitted_iff r b.namespace ref.name).0 g;
        may_use = (is_granted_iff r b.namespace).0 s.granted;
        serves = s;
      }

  Resolves-complete :
      (r : String) (ref : BackendObjectReference) (w : Option ℕ) (fs : List BackendFilter)
      → Resolves r ref w fs
      → IsResolved lower selects equal_fold is_pem inputs fs
          (started r ref w)
          (compile_backend_object_ref lower selects equal_fold is_pem inputs r ref w fs)
  unfolding compile_backend_object_ref namespace_of
  Resolves-complete r ref w fs p =
      let b = started r ref w in
      if_neither _ _ _ _ _ (IsResolved lower selects equal_fold is_pem inputs fs b)
        ((is_service_iff (get_or ref.group "") (kind_of ref.kind)).1 (p.core, p.kind))
        ((is_reference_permitted_iff r b.namespace ref.name).1 p.may_refer)
        (service_complete lower selects equal_fold is_pem inputs r fs b p.serves)

  -- compileBackendObjectRef leaves a backend valid exactly if the reference is to a core Service
  -- that is found and has the port, in the Route's namespace or one where a ReferenceGrant lists
  -- HTTPRoutes of the Route's namespace and this Service, the Service is not an ExternalName, a
  -- grant of the account, if there is one, opens its namespace to the Route's, the port's protocol
  -- and its winning BackendTLSPolicy are accepted, and the filters compile. The result then is the
  -- backend with the cluster's name and these filters, and the reason that references are resolved.
  pub compile_backend_object_ref_iff :
      (route_namespace : String) (ref : BackendObjectReference) (weight : Option ℕ)
      (filters : List BackendFilter)
      → let b =
          compile_backend_object_ref lower selects equal_fold is_pem inputs route_namespace ref
            weight filters in
        ((b.0.invalid ≡ none) ↔ Resolves route_namespace ref weight filters)
        × (b.0.invalid ≡ none
            → IsResolved lower selects equal_fold is_pem inputs filters
                (started route_namespace ref weight)
                b)
  unfolding IsResolved
  compile_backend_object_ref_iff r ref w fs = (
    (Resolves-sound r ref w fs, λ p. let (c, e, k) = Resolves-complete r ref w fs p in rw k refl),
    λ h. Resolves-complete r ref w fs (Resolves-sound r ref w fs h),
  )
