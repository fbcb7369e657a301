-- ===== src/Authz/Gates.antt =====
-- That the gates of internal/authz/evaluate.go test what a grant permits.
use mathlib.Core.List.{Memᴰ}
use flareway.Base.{
  ℕ, ◌≡◌, ◌↔◌, ◌⊎◌, inl, inr, refl, subst, Bool, true, false, ◌||◌, Option, none, some, String,
  List, arith, Bool-cases, Option-cases, any, any_sound, any_complete,
}
use flareway.Base.Classes.{◌==◌, string_eq, nat_eq, list_eq, ==_iff}
use text.Mathlib.TextEquality.{eq_iff}
use flareway.Base.Bytes.{Text, codes}
use flareway.Authz.Names.{
  normalize_dns_name, hostname_matches, matches_hostname_set, zone_equals, zone_matches,
}
use flareway.Authz.Covers.{hostname_matches-Covers}
use flareway.Authz.Grants.{
  Namespace, PrivateRouteRequest, BackendRequest, PrivateRouteGrant, BackendGrant, Grant, denied,
  contains, decide_selector, evaluate_private_route, decide_namespace, evaluate_backend,
  private_route_gate, backend_gate,
}
use flareway.Authz.Permits.{
  CoveredBy, InZones, Selected, RoutePermitted, NamespacePermitted, BackendPermitted,
}

any_iff {ℓ} :
    {A : Type ℓ} (p : A → Bool) (xs : List A)
    → (any p xs ≡ true) ↔ ((x : A) × Memᴰ x xs × (p x ≡ true))
any_iff p xs = (any_sound p xs, λ (x, m, e). any_complete p x xs m e)

pub contains_iff : (xs : List String) (x : String) → (contains xs x ≡ true) ↔ Memᴰ x xs
unfolding contains
contains_iff xs x = (
  λ h.
      let (y, m, e) = (any_iff (λ c. c == x) xs).0 h in subst (λ z. Memᴰ z xs) ((eq_iff y x).0 e) m,
  λ m. (any_iff (λ c. c == x) xs).1 (x, m, (eq_iff x x).1 refl),
)

same_grant : {A : Type 0} {a b : A} → some a ≡ some b → a ≡ b
same_grant e = cc

module _ {Labels Selector : Type 0} (lower : ℕ → ℕ)
    (selects : Selector → Labels → Option Bool) where
  pub hostname_set_iff :
      (patterns : List Text) (hostname : Text)
      → (matches_hostname_set lower patterns hostname ≡ true)
        ↔ CoveredBy lower selects patterns hostname
  unfolding matches_hostname_set
  hostname_set_iff patterns hostname = (
    λ h.
        let (p, m, e) = (any_iff (λ p. hostname_matches lower p hostname) patterns).0 h in
        (p, m, (hostname_matches-Covers lower p hostname).0 e),
    λ (p, m, c).
        (any_iff (λ p. hostname_matches lower p hostname) patterns).1
          (p, m, (hostname_matches-Covers lower p hostname).1 c),
  )

  zone_iff : (p z : Text) → (zone_equals lower p z ≡ true) ↔ ((p ≡ codes "*") ⊎ (p ≡ z))
  unfolding zone_equals
  zone_iff p z = ground (arith, ==_iff p (codes "*"), ==_iff p z)

  pub zone_set_iff :
      (patterns : List Text) (zone : Text)
      → (zone_matches lower patterns zone ≡ true) ↔ InZones lower selects patterns zone
  unfolding zone_matches
  zone_set_iff patterns zone = (
    λ h.
        let (p, m, e) =
          (any_iff
              (λ p. zone_equals lower (normalize_dns_name lower p) (normalize_dns_name lower zone))
              patterns).0
            h in
        (p, m, (zone_iff (normalize_dns_name lower p) (normalize_dns_name lower zone)).0 e),
    λ (p, m, c).
        (any_iff
            (λ p. zone_equals lower (normalize_dns_name lower p) (normalize_dns_name lower zone))
            patterns).1
          (p, m, (zone_iff (normalize_dns_name lower p) (normalize_dns_name lower zone)).1 c),
  )

  selector_iff :
      (o : Option Selector) (labels : Labels)
      → ((decide_selector lower selects o labels).allowed ≡ true) ↔ Selected lower selects o labels
  unfolding decide_selector denied
  selector_iff none labels = (λ h. absurd cc, λ (s, e, q). absurd cc)
  selector_iff (some s) labels = (sound, λ (x, e, q). rw (same e, q, decide_selector))
    where
      sound :
          (decide_selector lower selects (some s) labels).allowed ≡ true
          → Selected lower selects (some s) labels
      sound h = elim (Option-cases (selects s labels)) [
        | inl e ↦ absurd (cc (rw (e, decide_selector) at h))
        | inr (true, e) ↦ (s, refl, e)
        | inr (false, e) ↦ absurd (cc (rw (e, decide_selector) at h))
      ]

      same : {x : Selector} → some s ≡ some x → s ≡ x
      same e = cc

  route_iff :
      (o : Option (PrivateRouteGrant Labels Selector)) (q : PrivateRouteRequest Labels Selector)
      → ((evaluate_private_route lower selects o q).allowed ≡ true)
        ↔ RoutePermitted lower selects o q
  unfolding evaluate_private_route denied
  route_iff none q = (λ h. absurd cc, λ (g, e, k). absurd cc)
  route_iff (some g) q = (sound, complete)
    where
      sound :
          (evaluate_private_route lower selects (some g) q).allowed ≡ true
          → RoutePermitted lower selects (some g) q
      sound h = elim (Bool-cases (q.kind == "NetworkRoute")) [
        | inl e ↦ (
          g,
          refl,
          inl (
            (eq_iff q.kind "NetworkRoute").0 e,
            (selector_iff g.network_route_selector q.labels).0 (rw e at h),
          ),
        )
        | inr e ↦ elim (Bool-cases (q.kind == "HostnameRoute")) [
          | inl f ↦ (
            g,
            refl,
            inr (
              (eq_iff q.kind "HostnameRoute").0 f,
              (selector_iff g.hostname_route_selector q.labels).0 (rw (e, f) at h),
            ),
          )
          | inr f ↦ absurd (cc (rw (e, f) at h))
        ]
      ]

      complete :
          RoutePermitted lower selects (some g) q
          → (evaluate_private_route lower selects (some g) q).allowed ≡ true
      complete (x, e, inl (k, w)) =
          rw ((eq_iff q.kind "NetworkRoute").1 k)
            (rw (same_grant e) ((selector_iff x.network_route_selector q.labels).1 w))
      complete (x, e, inr (k, w)) =
          rw (k) (rw (same_grant e) ((selector_iff x.hostname_route_selector q.labels).1 w))

  namespace_iff :
      (g : BackendGrant Labels Selector) (source target : Namespace Labels Selector)
      → ((decide_namespace lower selects g source target).allowed ≡ true)
        ↔ NamespacePermitted lower selects g source target
  unfolding decide_namespace denied
  namespace_iff g source target = (sound, complete)
    where
      sound :
          (decide_namespace lower selects g source target).allowed ≡ true
          → NamespacePermitted lower selects g source target
      sound h = elim (Bool-cases (g.namespaces == "" || g.namespaces == "Same")) [
        | inl e ↦ inl (
          ground (arith, eq_iff g.namespaces "", eq_iff g.namespaces "Same"),
          ground (arith, eq_iff target.name source.name),
        )
        | inr e ↦ elim (Bool-cases (g.namespaces == "Selector")) [
          | inl f ↦ inr (
            (eq_iff g.namespaces "Selector").0 f,
            (selector_iff g.selector target.labels).0 (rw (e, f) at h),
          )
          | inr f ↦ absurd (cc (rw (e, f) at h))
        ]
      ]

      complete :
          NamespacePermitted lower selects g source target
          → (decide_namespace lower selects g source target).allowed ≡ true
      complete (inl (inl m, n)) = rw (m, n) (rw ((eq_iff source.name source.name).1 refl))
      complete (inl (inr m, n)) = rw (m, n) (rw ((eq_iff source.name source.name).1 refl))
      complete (inr (m, w)) = rw m ((selector_iff g.selector target.labels).1 w)

  backend_iff :
      (o : Option (BackendGrant Labels Selector)) (source : Namespace Labels Selector)
      (q : BackendRequest Labels Selector)
      → ((evaluate_backend lower selects o source q).allowed ≡ true)
        ↔ BackendPermitted lower selects o source q
  unfolding evaluate_backend denied
  backend_iff none source q = (λ h. absurd cc, λ (g, e, t, n, m, k). absurd cc)
  backend_iff (some g) source q = (sound, complete)
    where
      sound :
          (evaluate_backend lower selects (some g) source q).allowed ≡ true
          → BackendPermitted lower selects (some g) source q
      sound h = elim (Option-cases q.namespace) [
        | inl e ↦ absurd (cc (rw (e, evaluate_backend) at h))
        | inr (target, e) ↦ elim (Bool-cases (contains g.kinds q.kind)) [
          | inr f ↦ absurd (cc (rw f at (rw (e, evaluate_backend) at h)))
          | inl f ↦ (
            g,
            refl,
            target,
            e,
            (contains_iff g.kinds q.kind).0 f,
            (namespace_iff g source target).0 (rw f at (rw (e, evaluate_backend) at h)),
          )
        ]
      ]

      complete :
          BackendPermitted lower selects (some g) source q
          → (evaluate_backend lower selects (some g) source q).allowed ≡ true
      complete (x, e, target, n, m, w) = rw (same_grant e) (
          rw (n, evaluate_backend)
            (rw ((contains_iff x.kinds q.kind).1 m) ((namespace_iff x source target).1 w)))

  pub private_route_gate_iff :
      (g : Grant Labels Selector) (o : Option (PrivateRouteRequest Labels Selector))
      → ((private_route_gate lower selects g o).allowed ≡ true) ↔ (
          (o ≡ none)
          ⊎ ((q : PrivateRouteRequest Labels Selector) × (o ≡ some q)
              × RoutePermitted lower selects g.private_routes q))
  unfolding private_route_gate
  private_route_gate_iff g none = (λ h. inl refl, λ h. refl)
  private_route_gate_iff g (some q) =
      (λ h. inr (q, refl, (route_iff g.private_routes q).0 h), complete)
    where
      complete :
          (some q ≡ none)
            ⊎ ((x : PrivateRouteRequest Labels Selector) × (some q ≡ some x)
                × RoutePermitted lower selects g.private_routes x)
          → (private_route_gate lower selects g (some q)).allowed ≡ true
      complete (inl e) = absurd cc
      complete (inr (x, e, w)) = rw (same_grant e) ((route_iff g.private_routes x).1 w)

  pub backend_gate_iff :
      (g : Grant Labels Selector) (source : Namespace Labels Selector)
      (o : Option (BackendRequest Labels Selector))
      → ((backend_gate lower selects g source o).allowed ≡ true) ↔ (
          (o ≡ none)
          ⊎ ((q : BackendRequest Labels Selector) × (o ≡ some q)
              × BackendPermitted lower selects g.backends source q))
  unfolding backend_gate
  backend_gate_iff g source none = (λ h. inl refl, λ h. refl)
  backend_gate_iff g source (some q) =
      (λ h. inr (q, refl, (backend_iff g.backends source q).0 h), complete)
    where
      complete :
          (some q ≡ none)
            ⊎ ((x : BackendRequest Labels Selector) × (some q ≡ some x)
                × BackendPermitted lower selects g.backends source x)
          → (backend_gate lower selects g source (some q)).allowed ≡ true
      complete (inl e) = absurd cc
      complete (inr (x, e, w)) = rw (same_grant e) ((backend_iff g.backends source x).1 w)
