-- ===== src/GatewayApi/Examples.antt =====
-- Runs of the hostname and reference checks on concrete inputs.
use mathlib.Core.List.{Memᴰ}
use flareway.Base.{◌≡◌, ◌↔◌, inl, inr, refl, none, some, List, [], ◌∷◌}
use flareway.Base.Classes.{string_eq}
use flareway.Base.Bytes.{
  Text, codes, cut_prefix, has_prefix, trim_prefix, cut_suffix, has_suffix, trim_suffix, text_lt,
}
use flareway.GatewayApi.Hostname.{
  wildcard_hostname_matches_hostname, contains_wildcard, add_host, add_if, add_wildcards,
  add_route_hostname, add_route_hostnames, remove_claimed, compute_hosts,
}
use flareway.GatewayApi.Wildcards.{Denotes, IsConcrete, IsProper}
use flareway.GatewayApi.Intersection.{Admits}
use flareway.GatewayApi.Listed.{compute_hosts-Denotes}
use flareway.GatewayApi.RefGrant.{ReferenceSource, ReferenceTarget, ReferenceGrant}

abbrev listener : Text
listener = codes "*.example.com"

abbrev routes : List Text
routes = codes "a.example.com" ∷ codes "*.b.example.com" ∷ codes "other.org" ∷ []

listed :
    compute_hosts routes (some listener) [] ≡ codes "*.b.example.com" ∷ codes "a.example.com" ∷ []
unfolding compute_hosts remove_claimed add_route_hostnames add_route_hostname add_wildcards add_if
    add_host wildcard_hostname_matches_hostname contains_wildcard has_prefix trim_prefix cut_prefix
    has_suffix trim_suffix cut_suffix text_lt
listed = refl

proper : (r : Text) → Memᴰ r routes → IsProper r
unfolding has_prefix cut_prefix
proper r (Memᴰ.head e) = rw e (inl refl)
proper r (Memᴰ.tail (Memᴰ.head e)) = rw e (inr refl)
proper r (Memᴰ.tail (Memᴰ.tail (Memᴰ.head e))) = rw e (inl refl)
proper r (Memᴰ.tail (Memᴰ.tail (Memᴰ.tail m))) = elim m [ ]

concrete : IsConcrete (codes "x.b.example.com")
unfolding has_prefix cut_prefix
concrete = refl

IsProper-listener : IsProper listener
unfolding has_prefix cut_prefix
IsProper-listener = inr refl

compute_hosts-Denotes_example :
    ((h : Text) × Memᴰ h (compute_hosts routes (some listener) [])
      × Denotes h (codes "x.b.example.com"))
    ↔ (Admits listener (codes "x.b.example.com")
        × ((r : Text) × Memᴰ r routes × Denotes r (codes "x.b.example.com")))
compute_hosts-Denotes_example =
    compute_hosts-Denotes (codes "a.example.com") (codes "*.b.example.com" ∷ codes "other.org" ∷ [])
      (some listener) (codes "x.b.example.com") concrete IsProper-listener proper

abbrev from_route : ReferenceSource
from_route = record { group = "gateway.networking.k8s.io"; kind = "HTTPRoute"; namespace = "team" }

abbrev to_service : ReferenceTarget
to_service = record { group = ""; kind = "Service"; namespace = "shared"; name = "web" }

abbrev grant : ReferenceGrant
grant = record {
  namespace = "shared";
  from = from_route ∷ [];
  to = record { group = ""; kind = "Service"; name = none } ∷ [];
}
