-- ===== src/Authz/Names.antt =====
-- internal/authz/evaluate.go: HostnameMatches, ZoneMatches and normalizeDNSName.
use flareway.Base.{ℕ, Bool, false, ◌||◌, ◌&&◌, not, List, map, any, if◌then◌else◌}
use flareway.Base.Classes.{◌==◌, nat_eq, list_eq}
use flareway.Base.Bytes.{
  Text, codes, is_empty, has_prefix, trim_prefix, has_suffix, trim_suffix, contains_code,
  trim_space,
}

-- `prefix != "" && !strings.Contains(prefix, ".")`
unfoldable pub is_label : Text → Bool
is_label prefix = not (is_empty prefix) && not (contains_code prefix b'.')

unfoldable pub matches_suffix : Text → Text → Bool
matches_suffix hostname suffix =
    if not (has_suffix hostname suffix) then false else is_label (trim_suffix hostname suffix)

-- HostnameMatches on normalized names.
unfoldable pub matches_normalized : Text → Text → Bool
matches_normalized pattern hostname =
    if pattern == codes "*"
    then not (is_empty hostname)
    else if pattern == hostname
    then not (is_empty pattern)
    else if not (has_prefix pattern (codes "*.")) || has_prefix hostname (codes "*.")
    then false
    else matches_suffix hostname (trim_prefix pattern (codes "*"))

module _ (lower : ℕ → ℕ) where
  unfoldable pub normalize_dns_name : Text → Text
  normalize_dns_name value = trim_suffix (map lower (trim_space value)) (codes ".")

  unfoldable pub hostname_matches : Text → Text → Bool
  hostname_matches pattern hostname =
      matches_normalized (normalize_dns_name pattern) (normalize_dns_name hostname)

  unfoldable pub matches_hostname_set : List Text → Text → Bool
  matches_hostname_set patterns hostname =
      any (λ pattern. hostname_matches pattern hostname) patterns

  unfoldable pub zone_equals : Text → Text → Bool
  zone_equals pattern value = pattern == codes "*" || pattern == value

  unfoldable pub zone_matches : List Text → Text → Bool
  zone_matches patterns value =
      any (λ pattern. zone_equals (normalize_dns_name pattern) (normalize_dns_name value)) patterns
