-- ===== src/GatewayApi/Ascending.antt =====
-- That ComputeHosts of internal/gatewayapi/hostname.go returns a sorted slice without duplicates.
use mathlib.Core.List.{Memᴰ}
use flareway.Base.{
  ◌≡◌, ◌⊎◌, inl, inr, Bool, true, false, ◌&&◌, not, Option, List, [], ◌∷◌, if◌then◌else◌,
  Bool-cases, get_or, keep, keep_sound,
}
use flareway.Base.Classes.{◌==◌, nat_eq, list_eq, ==_iff}
use flareway.Base.Bytes.{Text, codes, is_empty, has_prefix, text_lt, text_lt_trans, text_lt_total}
use flareway.GatewayApi.Hostname.{
  wildcard_hostname_matches_hostname, add_host, add_if, add_wildcards, add_route_hostname,
  add_route_hostnames, remove_claimed, compute_hosts,
}
use flareway.GatewayApi.Hosts.{host_member}

-- Each text is below all that follow it.
abbrev pub IsAscending : List Text → Type 0
IsAscending [] = Unit
IsAscending (x ∷ xs) = ((y : Text) → Memᴰ y xs → text_lt x y ≡ true) × IsAscending xs

add_host-IsAscending : (x : Text) (xs : List Text) → IsAscending xs → IsAscending (add_host x xs)
unfolding add_host
add_host-IsAscending x [] s = (λ y m. elim m [ ], tt)
add_host-IsAscending x (z ∷ zs) s = elim (Bool-cases (x == z)) [
  | inl a ↦ rw a s
  | inr a ↦ elim (Bool-cases (text_lt x z)) [
    | inl b ↦ rw (a, b) (λ y m. above y b m, s)
    | inr b ↦
        rw (a, b)
          (
            λ y m.
                below y (text_lt_total x z (λ e. cc ((==_iff x z).1 e)) b) (host_member x y zs m),
            add_host-IsAscending x zs s.1,
          )
  ]
]
  where
    above : (y : Text) → text_lt x z ≡ true → Memᴰ y (z ∷ zs) → text_lt x y ≡ true
    above y l (Memᴰ.head e) = rw e l
    above y l (Memᴰ.tail n) = text_lt_trans x z y l (s.0 y n)

    below : (y : Text) → text_lt z x ≡ true → (y ≡ x) ⊎ Memᴰ y zs → text_lt z y ≡ true
    below y l (inl e) = rw e l
    below y l (inr n) = s.0 y n

add_if-IsAscending :
    (b : Bool) (x : Text) (xs : List Text) → IsAscending xs → IsAscending (add_if b x xs)
unfolding add_if
add_if-IsAscending true x xs s = add_host-IsAscending x xs s
add_if-IsAscending false x xs s = s

either :
    (b : Bool) (xs ys : List Text)
    → IsAscending xs
    → IsAscending ys
    → IsAscending (if b then xs else ys)
either true xs ys s t = s
either false xs ys s t = t

round-IsAscending :
    (l r : Text) (hosts : List Text)
    → IsAscending hosts
    → IsAscending (add_route_hostname l r hosts)
unfolding add_route_hostname add_wildcards
round-IsAscending l r hosts s =
    let route = add_host-IsAscending r hosts s in
    let both =
      add_if-IsAscending _ r _
        (add_if-IsAscending (wildcard_hostname_matches_hostname r l) l hosts s) in
    either (is_empty l) _ _ route (
      either (l == r) _ _ route (
        either (has_prefix l (codes "*") && has_prefix r (codes "*")) _ _ both (
          either (has_prefix l (codes "*")) _ _ (add_if-IsAscending _ r hosts s)
            (either (has_prefix r (codes "*")) _ _ (add_if-IsAscending _ l hosts s) s))))

rounds-IsAscending :
    (l : Text) (routes hosts : List Text)
    → IsAscending hosts
    → IsAscending (add_route_hostnames l routes hosts)
unfolding add_route_hostnames
rounds-IsAscending l [] hosts s = s
rounds-IsAscending l (r ∷ routes) hosts s =
    rounds-IsAscending l routes (add_route_hostname l r hosts) (round-IsAscending l r hosts s)

keep-IsAscending : (p : Text → Bool) (xs : List Text) → IsAscending xs → IsAscending (keep p xs)
keep-IsAscending p [] s = tt
keep-IsAscending p (x ∷ xs) s = elim (Bool-cases (p x)) [
  | inl e ↦ rw (e, keep) (λ y m. s.0 y (keep_sound p y xs m).0, keep-IsAscending p xs s.1)
  | inr e ↦ rw (e, keep) (keep-IsAscending p xs s.1)
]

-- What ComputeHosts returns is in strictly ascending order, so that no hostname occurs twice.
compute_hosts-IsAscending :
    (routes : List Text) (listener : Option Text) (claimed : List Text)
    → IsAscending (compute_hosts routes listener claimed)
unfolding compute_hosts remove_claimed
compute_hosts-IsAscending [] listener claimed =
    either (not (is_empty (get_or listener []))) _ _ (λ y m. elim m [ ], tt) (λ y m. elim m [ ], tt)
compute_hosts-IsAscending (r ∷ routes) listener claimed =
    keep-IsAscending _ _ (rounds-IsAscending (get_or listener []) (r ∷ routes) [] tt)
