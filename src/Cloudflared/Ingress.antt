-- ===== src/Cloudflared/Ingress.antt =====
-- internal/cloudflared/compile.go: compileConfig and compareIngressHostnames, for the part of
-- ir.Gateway that they read.
use flareway.Base.{
  ℕ, suc, ◌+◌, Bool, true, false, not, ◌&&◌, ◌||◌, Option, none, some, String, List, [], ◌∷◌, ◌++◌,
  map, any, length, if◌then◌else◌, nat_beq, get_or,
}
use flareway.Base.Classes.{◌==◌, string_eq, list_eq, nat_eq}
use flareway.Base.Maps.{Map, get, put}
use flareway.Base.Bytes.{Text, codes, is_empty, has_prefix, byte_length}
use flareway.Base.Sorting.{sort}
use flareway.Base.Decimal.{decimal}
use flareway.Base.Durations.{ℤ, pos, negsuc, sub_ℕ, le_ℤ, int_eq}
use flareway.Cloudflared.Origin.{
  GatewayOriginRequest, WireOrigin, IngressRule, ConfigBody, gateway_origin, clone_origin,
  canonical_strings,
}
use flareway.Cloudflared.Paths.{PathMatch, Route, forwarding_paths, forwarding_match_paths}
use flareway.Base.Comparisons.{compare_text}

pub record Listener : Type 0 where
  pub name : String
  pub exposure : String

pub record AccessGuard : Type 0 where
  pub auds : List Text
  pub team_name : Text

pub record VirtualHost : Type 0 where
  pub hostname : Text
  pub routes : List Route

pub record ProtectionDomain : Type 0 where
  pub listener_name : String
  pub envoy_port : ℤ
  pub protected : Bool
  pub origin_jwt_disabled : Bool
  pub access : Option AccessGuard
  pub guard : String
  pub ingress_paths : List PathMatch
  pub virtual_hosts : List VirtualHost

pub record Cloudflare : Type 0 where
  pub account_id : Text
  pub teardown : Bool
  pub warp_routing : Bool
  pub origin_request : GatewayOriginRequest

pub record Gateway : Type 0 where
  pub cloudflare : Option Cloudflare
  pub listeners : List Listener
  pub domains : List ProtectionDomain

pub record DomainRule : Type 0 where
  pub category : ℕ
  pub order : ℕ
  pub hostname : Text
  pub path : Text
  pub service : Text
  pub origin : Option WireOrigin

-- CanonicalAUDs of internal/ir/types.go, the nil guard included.
unfoldable pub canonical_auds : Option AccessGuard → List Text
canonical_auds none = []
canonical_auds (some g) = canonical_strings g.auds

abbrev pub no_audience : List Text → Bool
no_audience [] = true
no_audience (a ∷ audiences) = false

-- The exposure of each listener by its name: the last of a name counts.
unfoldable pub listener_exposure : List Listener → Map String String → Map String String
listener_exposure [] m = m
listener_exposure (l ∷ ls) m = listener_exposure ls (put l.name l.exposure m)

unfoldable pub warp_enabled : List Listener → Bool → Bool
warp_enabled [] enabled = enabled
warp_enabled (l ∷ ls) enabled = warp_enabled ls (enabled || (l.exposure == "Private"))

-- What `exposures[name] == ExposurePrivate` reads.
unfoldable pub is_private : Map String String → ProtectionDomain → Bool
is_private exposures d = get_or (get d.listener_name exposures) "" == "Private"

-- The domain fails closed: whatever it would serve is answered with 403.
unfoldable pub is_refused : Bool → ProtectionDomain → Bool
is_refused teardown d =
    teardown
    || ((d.guard == "Blocked")
        || (d.protected && (not d.origin_jwt_disabled && no_audience (canonical_auds d.access))))

unfoldable pub service_403 : Text
service_403 = codes "http_status:403"

unfoldable pub service_404 : Text
service_404 = codes "http_status:404"

unfoldable pub decimal_ℤ : ℤ → Text
decimal_ℤ (pos n) = decimal n
decimal_ℤ (negsuc n) = b'-' ∷ decimal (suc n)

unfoldable pub envoy_service : ProtectionDomain → Text
envoy_service d = codes "http://127.0.0.1:" ++ decimal_ℤ d.envoy_port

unfoldable pub team_of : Option AccessGuard → Text
team_of none = []
team_of (some g) = g.team_name

-- The origin of a domain's rules: a protected domain with audiences has its tokens checked.
unfoldable pub domain_origin : WireOrigin → ProtectionDomain → WireOrigin
domain_origin base d =
    if d.protected && not (no_audience (canonical_auds d.access))
    then record (clone_origin base) {
      access = some (record {
        aud_tag = canonical_auds d.access;
        team_name = team_of d.access;
        required = some true;
      });
    }
    else clone_origin base

abbrev pub has_paths : List PathMatch → Bool
has_paths [] = false
has_paths (m ∷ ms) = true

unfoldable pub domain_paths : ProtectionDomain → VirtualHost → List Text
domain_paths d vh =
    if has_paths d.ingress_paths
    then forwarding_match_paths d.ingress_paths
    else if d.protected
    then forwarding_paths vh.routes
    else [] ∷ []

unfoldable pub path_rules : WireOrigin → ProtectionDomain → Text → ℕ → List Text → List DomainRule
path_rules origin d hostname order [] = []
path_rules origin d hostname order (path ∷ paths) =
    record {
      category = if d.protected then 1 else 0;
      order = order;
      hostname = hostname;
      path = path;
      service = envoy_service d;
      origin = some (clone_origin origin);
    }
    ∷ path_rules origin d hostname (suc order) paths

-- One round of the inner loop, from the number of rules so far.
unfoldable pub host_rules : Bool → WireOrigin → ProtectionDomain → ℕ → VirtualHost → List DomainRule
host_rules teardown base d order vh =
    if is_empty vh.hostname || (vh.hostname == codes "*")
    then []
    else if is_refused teardown d
    then record {
      category = 2;
      order = order;
      hostname = vh.hostname;
      path = [];
      service = service_403;
      origin = none;
    }
      ∷ []
    else path_rules (domain_origin base d) d vh.hostname order (domain_paths d vh)

unfoldable pub hosts_rules :
    Bool → WireOrigin → ProtectionDomain → ℕ → List VirtualHost → List DomainRule
hosts_rules teardown base d order [] = []
hosts_rules teardown base d order (vh ∷ vhs) =
    let rules = host_rules teardown base d order vh in
    rules ++ hosts_rules teardown base d (order + length rules) vhs

unfoldable pub domain_rules :
    Map String String → Bool → WireOrigin → ℕ → ProtectionDomain → List DomainRule
domain_rules exposures teardown base order d =
    if is_private exposures d then [] else hosts_rules teardown base d order d.virtual_hosts

unfoldable pub domains_rules :
    Map String String → Bool → WireOrigin → ℕ → List ProtectionDomain → List DomainRule
domains_rules exposures teardown base order [] = []
domains_rules exposures teardown base order (d ∷ ds) =
    let rules = domain_rules exposures teardown base order d in
    rules ++ domains_rules exposures teardown base (order + length rules) ds

unfoldable pub is_wildcard : Text → Bool
is_wildcard h = has_prefix h (codes "*.")

-- A difference of lengths is far from the bounds of an int.
unfoldable pub compare_ingress_hostnames : Text → Text → ℤ
compare_ingress_hostnames left right =
    if is_wildcard left && not (is_wildcard right)
    then pos 1
    else if not (is_wildcard left) && is_wildcard right
    then negsuc 0
    else if not (nat_beq (byte_length left) (byte_length right))
    then sub_ℕ (byte_length right) (byte_length left)
    else compare_text left right

unfoldable pub compare_rules : DomainRule → DomainRule → ℤ
compare_rules a b =
    let compared = compare_ingress_hostnames a.hostname b.hostname in
    if not (compared == pos 0)
    then compared
    else if not (nat_beq a.category b.category)
    then sub_ℕ a.category b.category
    else if not (nat_beq (byte_length a.path) (byte_length b.path))
    then sub_ℕ (byte_length b.path) (byte_length a.path)
    else sub_ℕ a.order b.order

unfoldable pub rule_le : DomainRule → DomainRule → Bool
rule_le a b = le_ℤ (compare_rules a b) (pos 0)

-- strings.Join with a NUL between the parts.
unfoldable pub rule_key : DomainRule → Text
rule_key r = r.hostname ++ (0 ∷ (r.path ++ (0 ∷ r.service)))

unfoldable pub ingress_rule : DomainRule → IngressRule
ingress_rule r = record {
  hostname = r.hostname;
  path = r.path;
  service = r.service;
  origin_request = r.origin;
}

-- The loop that drops a rule whose key has been seen.
unfoldable pub dedupe : List Text → List DomainRule → List DomainRule
dedupe seen [] = []
dedupe seen (r ∷ rules) =
    let again = dedupe seen rules in
    let first = r ∷ dedupe (rule_key r ∷ seen) rules in
    if any (λ k. k == rule_key r) seen then again else first

unfoldable pub catch_all : IngressRule
catch_all = record { hostname = []; path = []; service = service_404; origin_request = none }

unfoldable pub gateway_rules : Gateway → Cloudflare → List DomainRule
gateway_rules g c =
    domains_rules (listener_exposure g.listeners []) c.teardown (gateway_origin c.origin_request) 0
      g.domains

unfoldable pub compile_config : Gateway → Cloudflare → ConfigBody
compile_config g c = record {
  ingress = map ingress_rule (dedupe [] (sort rule_le (gateway_rules g c))) ++ (catch_all ∷ []);
  origin_request = some (gateway_origin c.origin_request);
  warp_routing = some (record {
    enabled = some (warp_enabled g.listeners c.warp_routing);
    connect_timeout = none;
    tcp_keep_alive = none;
    max_active_flows = none;
  });
}
