-- ===== src/GatewayApi/Listed.antt =====
-- That ComputeHosts of internal/gatewayapi/hostname.go lists an intersection.
use mathlib.Core.List.{Memᴰ}
use flareway.Base.{
  ◌↔◌, ◌⊎◌, inl, inr, refl, subst, not, Option, List, [], ◌∷◌, Bool-cases, get_or, any, any_sound,
  any_complete, keep_sound, keep_complete,
}
use flareway.Base.Classes.{◌==◌, nat_eq, list_eq, ==_iff}
use flareway.Base.Bytes.{Text}
use flareway.GatewayApi.Hostname.{
  add_route_hostname, add_route_hostnames, remove_claimed, compute_hosts,
}
use flareway.GatewayApi.Wildcards.{Denotes, IsConcrete, IsProper}
use flareway.GatewayApi.Intersection.{Admits, pair_sound, pair_keeps}
use flareway.GatewayApi.PairListed.{pair_complete}

-- A round for each hostname of the route.
routes_sound :
    (l : Text) (routes hosts : List Text) (h name : Text)
    → IsConcrete name
    → Denotes h name
    → Memᴰ h (add_route_hostnames l routes hosts)
    → (Admits l name × ((r : Text) × Memᴰ r routes × Denotes r name)) ⊎ Memᴰ h hosts
unfolding add_route_hostnames
routes_sound l [] hosts h name c d m = inr m
routes_sound l (r ∷ routes) hosts h name c d m =
    elim (routes_sound l routes (add_route_hostname l r hosts) h name c d m) [
      | inl (a, (q, n, k)) ↦ inl (a, (q, Memᴰ.tail n, k))
      | inr n ↦ elim (pair_sound l r hosts h n) [
        | inl b ↦ let (a, k) = b name c d in inl (a, (r, Memᴰ.head refl, k))
        | inr o ↦ inr o
      ]
    ]

routes_keep :
    (l : Text) (routes hosts : List Text) (h : Text)
    → Memᴰ h hosts
    → Memᴰ h (add_route_hostnames l routes hosts)
unfolding add_route_hostnames
routes_keep l [] hosts h m = m
routes_keep l (r ∷ routes) hosts h m =
    routes_keep l routes (add_route_hostname l r hosts) h (pair_keeps l r hosts h m)

routes_complete :
    (l : Text) (routes hosts : List Text) (r name : Text)
    → IsConcrete name
    → IsProper l
    → IsProper r
    → Admits l name
    → Memᴰ r routes
    → Denotes r name
    → (h : Text) × Memᴰ h (add_route_hostnames l routes hosts) × Denotes h name
unfolding add_route_hostnames
routes_complete l [] hosts r name c pl pr a m d = elim m [ ]
routes_complete l (q ∷ routes) hosts r name c pl pr a (Memᴰ.head e) d =
    let (h, m, k) =
      pair_complete l q name hosts c pl (subst IsProper e pr) a (subst (λ x. Denotes x name) e d) in
    (h, routes_keep l routes (add_route_hostname l q hosts) h m, k)
routes_complete l (q ∷ routes) hosts r name c pl pr a (Memᴰ.tail m) d =
    routes_complete l routes (add_route_hostname l q hosts) r name c pl pr a m d

module _ (route : Text) (routes : List Text) (listener : Option Text) where
  -- For a Route with hostnames, ComputeHosts returns exactly the hostnames that it returns when
  -- none is claimed by another listener, less those that are.
  compute_hosts_claimed :
      (claimed : List Text) (h : Text)
      → Memᴰ h (compute_hosts (route ∷ routes) listener claimed)
        ↔ (Memᴰ h (compute_hosts (route ∷ routes) listener []) × (Memᴰ h claimed → ⊥))
  unfolding compute_hosts remove_claimed
  compute_hosts_claimed claimed h = (sound, complete)
    where
      hosts : List Text
      hosts = add_route_hostnames (get_or listener []) (route ∷ routes) []

      sound :
          Memᴰ h (remove_claimed claimed hosts)
          → Memᴰ h (remove_claimed [] hosts) × (Memᴰ h claimed → ⊥)
      sound m =
          let (n, q) = keep_sound (λ h. not (any (λ c. c == h) claimed)) h hosts m in
          (
            keep_complete (λ h. not (any (λ c. c == h) [])) h hosts n refl,
            λ k. cc (any_complete (λ c. c == h) h claimed k ((==_iff h h).1 refl)),
          )

      complete :
          Memᴰ h (remove_claimed [] hosts) × (Memᴰ h claimed → ⊥)
          → Memᴰ h (remove_claimed claimed hosts)
      complete (m, n) =
          let (k, q) = keep_sound (λ h. not (any (λ c. c == h) [])) h hosts m in
          keep_complete (λ h. not (any (λ c. c == h) claimed)) h hosts k
            (elim (Bool-cases (any (λ c. c == h) claimed)) [
              | inr e ↦ rw e
              | inl e ↦
                  let (x, y, f) = any_sound (λ c. c == h) claimed e in
                  absurd (n (subst (λ z. Memᴰ z claimed) ((==_iff x h).0 f) y))
            ])

  -- For a Route with hostnames and no hostname claimed elsewhere, a concrete name is denoted by
  -- some hostname that ComputeHosts returns exactly if the listener hostname is empty or denotes
  -- it, and some hostname of the Route denotes it; every wildcard starts with an asterisk label.
  pub compute_hosts-Denotes :
      (name : Text)
      → IsConcrete name
      → IsProper (get_or listener [])
      → ((r : Text) → Memᴰ r (route ∷ routes) → IsProper r)
      → ((h : Text) × Memᴰ h (compute_hosts (route ∷ routes) listener []) × Denotes h name) ↔ (
          Admits (get_or listener []) name
          × ((r : Text) × Memᴰ r (route ∷ routes) × Denotes r name))
  unfolding compute_hosts remove_claimed
  compute_hosts-Denotes name c pl pr = (sound, λ (a, (r, m, d)). complete a r m d)
    where
      hosts : List Text
      hosts = add_route_hostnames (get_or listener []) (route ∷ routes) []

      sound :
          (h : Text) × Memᴰ h (remove_claimed [] hosts) × Denotes h name
          → Admits (get_or listener []) name
            × ((r : Text) × Memᴰ r (route ∷ routes) × Denotes r name)
      sound (h, m, d) =
          let (n, q) = keep_sound (λ h. not (any (λ c. c == h) [])) h hosts m in
          elim (routes_sound (get_or listener []) (route ∷ routes) [] h name c d n) [
            | inl k ↦ k
            | inr o ↦ elim o [ ]
          ]

      complete :
          Admits (get_or listener []) name
          → (r : Text) → Memᴰ r (route ∷ routes)
          → Denotes r name
          → (h : Text) × Memᴰ h (remove_claimed [] hosts) × Denotes h name
      complete a r m d =
          let (h, n, k) =
            routes_complete (get_or listener []) (route ∷ routes) [] r name c pl (pr r m) a m d in
          (h, keep_complete (λ h. not (any (λ c. c == h) [])) h hosts n refl, k)
