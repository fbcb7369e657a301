-- ===== src/GatewayApi/Intersection.antt =====
-- What one round of the loop of ComputeHosts in internal/gatewayapi/hostname.go adds.
use mathlib.Core.List.{Memᴰ}
use flareway.Base.{◌≡◌, ◌⊎◌, inl, inr, refl, sym, subst, true, List, [], ◌∷◌, Bool-cases}
use flareway.Base.Classes.{◌==◌, nat_eq, list_eq, ==_iff}
use flareway.Base.Bytes.{Text, is_empty, has_prefix}
use flareway.GatewayApi.Hostname.{
  wildcard_hostname_matches_hostname, add_wildcards, add_route_hostname,
}
use flareway.GatewayApi.Wildcards.{star, Denotes, IsConcrete}
use flareway.GatewayApi.Hosts.{host_member, host_keeps, if_member, if_keeps, if_self, contained}

-- An empty listener hostname admits every name.
abbrev pub Admits : Text → Text → Type 0
Admits listener name = (listener ≡ []) ⊎ Denotes listener name

is_empty_sound : (s : Text) → is_empty s ≡ true → s ≡ []
is_empty_sound [] h = refl
is_empty_sound (c ∷ s) h = absurd cc

module _ (l r : Text) (hosts : List Text) where
  -- A hostname that is added denotes names of both.
  abbrev pub Both : Text → Type 0
  Both h = (name : Text) → IsConcrete name → Denotes h name → Admits l name × Denotes r name

  from_listener :
      (h : Text)
      → has_prefix l star ≡ true
      → (wildcard_hostname_matches_hostname l r ≡ true) × (h ≡ r)
      → Both h
  from_listener h s (m, e) name c d =
      let k = subst (λ x. Denotes x name) e d in (inr (contained l r name s m c k), k)

  from_route :
      (h : Text)
      → has_prefix r star ≡ true
      → (wildcard_hostname_matches_hostname r l ≡ true) × (h ≡ l)
      → Both h
  from_route h s (m, e) name c d =
      let k = subst (λ x. Denotes x name) e d in (inr k, contained r l name s m c k)

  wildcards_sound : (h : Text) → Memᴰ h (add_wildcards l r hosts) → Both h ⊎ Memᴰ h hosts
  unfolding add_wildcards
  wildcards_sound h m = elim (Bool-cases (has_prefix l star)) [
    | inl a ↦ elim (Bool-cases (has_prefix r star)) [
      | inl b ↦ elim (if_member _ r h _ (rw (a, b) at m)) [
        | inl k ↦ inl (from_listener h a k)
        | inr n ↦ elim (if_member _ l h hosts n) [ inl k ↦ inl (from_route h b k) | inr o ↦ inr o ]
      ]
      | inr b ↦ elim (if_member _ r h hosts (rw (a, b) at m)) [
        | inl k ↦ inl (from_listener h a k)
        | inr o ↦ inr o
      ]
    ]
    | inr a ↦ elim (Bool-cases (has_prefix r star)) [
      | inl b ↦ elim (if_member _ l h hosts (rw (a, b) at m)) [
        | inl k ↦ inl (from_route h b k)
        | inr o ↦ inr o
      ]
      | inr b ↦ inr (rw (a, b) at m)
    ]
  ]

  pub pair_sound : (h : Text) → Memᴰ h (add_route_hostname l r hosts) → Both h ⊎ Memᴰ h hosts
  unfolding add_route_hostname
  pair_sound h m = elim (Bool-cases (is_empty l)) [
    | inl a ↦ elim (host_member r h hosts (rw a at m)) [
      | inl e ↦ inl (λ name c d. (inl (is_empty_sound l a), subst (λ x. Denotes x name) e d))
      | inr o ↦ inr o
    ]
    | inr a ↦ elim (Bool-cases (l == r)) [
      | inl b ↦ elim (host_member r h hosts (rw (a, b) at m)) [
        | inl e ↦ inl (λ name c d.
            let k = subst (λ x. Denotes x name) e d in
            (inr (subst (λ x. Denotes x name) (sym ((==_iff l r).0 b)) k), k))
        | inr o ↦ inr o
      ]
      | inr b ↦ wildcards_sound h (rw (a, b) at m)
    ]
  ]

  wildcards_keeps : (h : Text) → Memᴰ h hosts → Memᴰ h (add_wildcards l r hosts)
  unfolding add_wildcards
  wildcards_keeps h m = elim (Bool-cases (has_prefix l star)) [
    | inl a ↦ elim (Bool-cases (has_prefix r star)) [
      | inl b ↦ rw (a, b) (if_keeps _ r h _ (if_keeps _ l h hosts m))
      | inr b ↦ rw (a, b) (if_keeps _ r h hosts m)
    ]
    | inr a ↦ elim (Bool-cases (has_prefix r star)) [
      | inl b ↦ rw (a, b) (if_keeps _ l h hosts m)
      | inr b ↦ rw (a, b) m
    ]
  ]

  pub pair_keeps : (h : Text) → Memᴰ h hosts → Memᴰ h (add_route_hostname l r hosts)
  unfolding add_route_hostname
  pair_keeps h m = elim (Bool-cases (is_empty l)) [
    | inl a ↦ rw a (host_keeps r h hosts m)
    | inr a ↦ elim (Bool-cases (l == r)) [
      | inl b ↦ rw (a, b) (host_keeps r h hosts m)
      | inr b ↦ rw (a, b) (wildcards_keeps h m)
    ]
  ]

  -- Where one wildcard matches, the other hostname is added.
  pub added_route :
      has_prefix l star ≡ true
      → wildcard_hostname_matches_hostname l r ≡ true
      → Memᴰ r (add_wildcards l r hosts)
  unfolding add_wildcards
  added_route a m = elim (Bool-cases (has_prefix r star)) [
    | inl b ↦ rw (a, b) (if_self _ r _ m)
    | inr b ↦ rw (a, b) (if_self _ r hosts m)
  ]

  pub added_listener :
      has_prefix r star ≡ true
      → wildcard_hostname_matches_hostname r l ≡ true
      → Memᴰ l (add_wildcards l r hosts)
  unfolding add_wildcards
  added_listener b m = elim (Bool-cases (has_prefix l star)) [
    | inl a ↦ rw (a, b) (if_keeps _ r l _ (if_self _ l hosts m))
    | inr a ↦ rw (a, b) (if_self _ l hosts m)
  ]
