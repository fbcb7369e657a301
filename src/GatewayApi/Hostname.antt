-- ===== src/GatewayApi/Hostname.antt =====
-- internal/gatewayapi/hostname.go.
use flareway.Base.{Bool, ◌&&◌, not, Option, List, [], ◌∷◌, if◌then◌else◌, any, keep, get_or}
use flareway.Base.Classes.{◌==◌, nat_eq, list_eq}
use flareway.Base.Bytes.{
  Text, codes, is_empty, has_prefix, trim_prefix, has_suffix, trim_suffix, text_lt,
}

-- The branch for a hostname that is a wildcard itself.
unfoldable pub contains_wildcard : Text → Text → Bool
contains_wildcard hostname_suffix wildcard_suffix =
    let remaining = trim_suffix hostname_suffix wildcard_suffix in
    has_suffix hostname_suffix wildcard_suffix
    && (not (is_empty remaining) && has_prefix remaining (codes "."))

unfoldable pub wildcard_hostname_matches_hostname : Text → Text → Bool
wildcard_hostname_matches_hostname wildcard_hostname hostname =
    let wildcard_suffix = trim_prefix wildcard_hostname (codes "*") in
    if not (has_prefix hostname (codes "*"))
    then has_suffix hostname wildcard_suffix
      && not (is_empty (trim_suffix hostname wildcard_suffix))
    else contains_wildcard (trim_prefix hostname (codes "*")) wildcard_suffix

-- A set of hostnames in ascending order, as the result lists it.
unfoldable pub add_host : Text → List Text → List Text
add_host x [] = x ∷ []
add_host x (y ∷ ys) =
    let rest = add_host x ys in
    if x == y then y ∷ ys else if text_lt x y then x ∷ y ∷ ys else y ∷ rest

-- `if matches { hostnames[host] = struct{}{} }`
unfoldable pub add_if : Bool → Text → List Text → List Text
add_if matches host hosts = if matches then add_host host hosts else hosts

-- The cases of the switch with a wildcard.
unfoldable pub add_wildcards : Text → Text → List Text → List Text
add_wildcards listener route hosts =
    if has_prefix listener (codes "*") && has_prefix route (codes "*")
    then add_if (wildcard_hostname_matches_hostname listener route) route
        (add_if (wildcard_hostname_matches_hostname route listener) listener hosts)
    else if has_prefix listener (codes "*")
    then add_if (wildcard_hostname_matches_hostname listener route) route hosts
    else if has_prefix route (codes "*")
    then add_if (wildcard_hostname_matches_hostname route listener) listener hosts
    else hosts

-- One round of the loop over the route's hostnames.
unfoldable pub add_route_hostname : Text → Text → List Text → List Text
add_route_hostname listener route hosts =
    if is_empty listener
    then add_host route hosts
    else if listener == route
    then add_host route hosts
    else add_wildcards listener route hosts

unfoldable pub add_route_hostnames : Text → List Text → List Text → List Text
add_route_hostnames listener [] hosts = hosts
add_route_hostnames listener (route ∷ routes) hosts =
    add_route_hostnames listener routes (add_route_hostname listener route hosts)

unfoldable pub remove_claimed : List Text → List Text → List Text
remove_claimed claimed hosts = keep (λ h. not (any (λ c. c == h) claimed)) hosts

-- A nil listener hostname reads as the empty one.
unfoldable pub compute_hosts : List Text → Option Text → List Text → List Text
compute_hosts [] listener claimed =
    let value = get_or listener [] in if not (is_empty value) then value ∷ [] else codes "*" ∷ []
compute_hosts (route ∷ routes) listener claimed =
    remove_claimed claimed (add_route_hostnames (get_or listener []) (route ∷ routes) [])
