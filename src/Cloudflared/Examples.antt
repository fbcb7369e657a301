-- ===== src/Cloudflared/Examples.antt =====
-- Configurations that compileConfig makes of a concrete Gateway.
use mathlib.Core.List.{Memᴰ}
use flareway.Base.{◌≡◌, ◌⊎◌, refl, Bool, true, false, none, some, List, [], ◌∷◌}
use flareway.Base.Bytes.{
  Text, codes, text_le, text_lt, trim_right, drop_while, contains_code, has_prefix, cut_prefix,
  byte_length, width,
}
use flareway.Base.Durations.{pos}
use flareway.Base.Results.{ok}
use flareway.Base.Maps.{put, get}
use flareway.Base.Sorting.{sort, insert, compact}
use flareway.Base.Decimal.{decimal}
use flareway.Cloudflared.Origin.{
  GatewayOriginRequest, IngressRule, ConfigBody, WireOrigin, gateway_origin,
  optional_duration_seconds, duration_seconds, clone_origin, wire_ip_rule, canonical_strings,
}
use flareway.Cloudflared.Paths.{
  forwarding_match_paths, forwarding_paths, forwarding_loop, path_step, prefix_path, exact_path,
  quote_meta, unique, unique_from,
}
use flareway.Cloudflared.Ingress.{
  ProtectionDomain, Cloudflare, Gateway, DomainRule, compile_config, gateway_rules, domains_rules,
  domain_rules, hosts_rules, host_rules, path_rules, listener_exposure, is_private, is_refused,
  canonical_auds, domain_origin, domain_paths, envoy_service, decimal_ℤ, team_of, service_403,
  rule_le, compare_rules, compare_ingress_hostnames, is_wildcard, dedupe, rule_key, ingress_rule,
  catch_all,
}
use flareway.Cloudflared.Order.{IsAhead}
use flareway.Cloudflared.FirstMatch.{IsClean, first_match, compile_config_most_specific}
use flareway.Cloudflared.PathOrder.{exact_behind_prefix}
use flareway.Cloudflared.Compile.{
  validate_gateway_origin_request, check_durations, check_count, is_whole_seconds,
}
use flareway.Base.Classes.{◌==◌, nat_eq, list_eq}
use flareway.Cloudflared.Guards.{Serves, compile_config-Serves}
use flareway.Cloudflared.Coverage.{wanted_paths, wanted_service, compile_config_covers}
use flareway.Base.Comparisons.{compare_text}

abbrev no_origin : GatewayOriginRequest
no_origin = record {
  connect_timeout = some (pos 5000000000);
  keep_alive_timeout = none;
  tcp_keep_alive = none;
  keep_alive_connections = none;
  no_happy_eyeballs = none;
  disable_chunked_encoding = none;
  http2_origin = none;
}

abbrev tunnel : Cloudflare
tunnel = record {
  account_id = codes "account";
  teardown = false;
  warp_routing = false;
  origin_request = no_origin;
}

-- A public part of an application whose other paths are protected.
abbrev carve_out : ProtectionDomain
carve_out = record {
  listener_name = "http";
  envoy_port = pos 18080;
  protected = false;
  origin_jwt_disabled = false;
  access = none;
  guard = "Unprotected";
  ingress_paths = record { kind = "PathPrefix"; value = codes "/v1" } ∷ [];
  virtual_hosts = record { hostname = codes "tools.example.com"; routes = [] } ∷ [];
}

abbrev remainder : ProtectionDomain
remainder = record {
  listener_name = "http";
  envoy_port = pos 18081;
  protected = true;
  origin_jwt_disabled = false;
  access =
      some
        (record { auds = codes "b" ∷ [] ∷ codes "a" ∷ codes "b" ∷ []; team_name = codes "team" });
  guard = "Forwarding";
  ingress_paths = record { kind = "PathPrefix"; value = codes "/" } ∷ [];
  virtual_hosts = record { hostname = codes "tools.example.com"; routes = [] } ∷ [];
}

-- No audience is left: the domain fails closed.
abbrev shut : ProtectionDomain
shut = record {
  listener_name = "http";
  envoy_port = pos 18082;
  protected = true;
  origin_jwt_disabled = false;
  access = some (record { auds = [] ∷ []; team_name = codes "team" });
  guard = "Forwarding";
  ingress_paths = [];
  virtual_hosts = record { hostname = codes "*.example.com"; routes = [] } ∷ [];
}

abbrev tools : Gateway
tools = record {
  cloudflare = some tunnel;
  listeners = record { name = "http"; exposure = "Public" } ∷ [];
  domains = shut ∷ remainder ∷ carve_out ∷ [];
}

abbrev base : WireOrigin
base = record {
  access = none;
  ca_pool = none;
  connect_timeout = some (pos 5);
  disable_chunked_encoding = none;
  http2_origin = none;
  http_host_header = none;
  keep_alive_connections = none;
  keep_alive_timeout = none;
  match_sni_to_host = none;
  no_happy_eyeballs = none;
  no_tls_verify = none;
  origin_server_name = none;
  proxy_type = none;
  tcp_keep_alive = none;
  tls_timeout = none;
  ip_rules = [];
}

abbrev shut_rule : DomainRule
shut_rule = record {
  category = 2;
  order = 0;
  hostname = codes "*.example.com";
  path = [];
  service = codes "http_status:403";
  origin = none;
}

-- The audiences are sorted, without the empty one and the second of a pair.
abbrev remainder_rule : DomainRule
remainder_rule = record {
  category = 1;
  order = 1;
  hostname = codes "tools.example.com";
  path = [];
  service = codes "http://127.0.0.1:18081";
  origin = some (record base {
    access = some (record {
      aud_tag = codes "a" ∷ codes "b" ∷ [];
      team_name = codes "team";
      required = some true;
    });
  });
}

abbrev carve_out_rule : DomainRule
carve_out_rule = record {
  category = 0;
  order = 2;
  hostname = codes "tools.example.com";
  path = codes "^/v1(/|$)";
  service = codes "http://127.0.0.1:18080";
  origin = some base;
}

tools_rules : gateway_rules tools tunnel ≡ (shut_rule ∷ remainder_rule ∷ carve_out_rule ∷ [])
unfolding gateway_rules domains_rules domain_rules hosts_rules host_rules path_rules
    listener_exposure is_private is_refused canonical_auds canonical_strings sort insert compact
    text_le text_lt gateway_origin optional_duration_seconds duration_seconds clone_origin
    wire_ip_rule domain_origin domain_paths forwarding_match_paths forwarding_paths forwarding_loop
    path_step prefix_path quote_meta trim_right drop_while contains_code unique unique_from
    envoy_service decimal_ℤ decimal team_of service_403 put get
tools_rules = refl

-- The carve-out comes before what encloses it, and an exact hostname before a wildcard.
abbrev tools_ingress : List IngressRule
tools_ingress =
    ingress_rule carve_out_rule
    ∷ ingress_rule remainder_rule
    ∷ ingress_rule shut_rule
    ∷ catch_all
    ∷ []

tools_compiled : ConfigBody.ingress (compile_config tools tunnel) ≡ tools_ingress
unfolding compile_config sort insert rule_le compare_rules compare_ingress_hostnames compare_text
    is_wildcard has_prefix cut_prefix text_lt byte_length width dedupe rule_key ingress_rule
    catch_all
tools_compiled = rw tools_rules refl

abbrev shut_ingress : IngressRule
shut_ingress = record {
  hostname = codes "*.example.com";
  path = [];
  service = codes "http_status:403";
  origin_request = none;
}

shut_listed : Memᴰ shut_ingress (ConfigBody.ingress (compile_config tools tunnel))
unfolding ingress_rule
shut_listed = rw tools_compiled (Memᴰ.tail (Memᴰ.tail (Memᴰ.head refl)))

compile_config-Serves_example :
    (shut_ingress ≡ catch_all)
    ⊎ Serves tools tunnel (codes "*.example.com") (codes "http_status:403") none
compile_config-Serves_example = compile_config-Serves tools tunnel shut_ingress shut_listed

tools-IsClean : (r : DomainRule) → Memᴰ r (gateway_rules tools tunnel) → IsClean r
unfolding contains_code
tools-IsClean r m = listed (rw tools_rules at m)
  where
    listed : Memᴰ r (shut_rule ∷ remainder_rule ∷ carve_out_rule ∷ []) → IsClean r
    listed (Memᴰ.head e) = rw e (refl, refl)
    listed (Memᴰ.tail (Memᴰ.head e)) = rw e (refl, refl)
    listed (Memᴰ.tail (Memᴰ.tail (Memᴰ.head e))) = rw e (refl, refl)
    listed (Memᴰ.tail (Memᴰ.tail (Memᴰ.tail n))) = elim n [ ]

shut_exposed : is_private (listener_exposure tools.listeners []) shut ≡ false
unfolding is_private listener_exposure put get
shut_exposed = refl

shut_path :
    Memᴰ [] (wanted_paths false shut (record { hostname = codes "*.example.com"; routes = [] }))
unfolding wanted_paths is_refused canonical_auds canonical_strings sort compact
shut_path = Memᴰ.head refl

accepted_origin : validate_gateway_origin_request no_origin ≡ ok tt
unfolding validate_gateway_origin_request check_durations check_count is_whole_seconds
accepted_origin = refl

-- A request for a path of the carve-out: any other rule of the hostname matches it too.
abbrev on_tools : Text → Text → Bool
on_tools hostname path = hostname == codes "tools.example.com"

compile_config_most_specific_example :
    (f : DomainRule) × Memᴰ f (gateway_rules tools tunnel)
    × (first_match on_tools (ConfigBody.ingress (compile_config tools tunnel))
        ≡ some (ingress_rule f))
    × (on_tools f.hostname f.path ≡ true)
    × ((z : DomainRule)
        → Memᴰ z (gateway_rules tools tunnel)
        → on_tools z.hostname z.path ≡ true
        → IsAhead f z)
compile_config_most_specific_example =
    compile_config_most_specific on_tools tools tunnel tools-IsClean remainder_rule
      (rw tools_rules (Memᴰ.tail (Memᴰ.head refl))) refl

on_carve_out :
    first_match on_tools (ConfigBody.ingress (compile_config tools tunnel))
    ≡ some (ingress_rule carve_out_rule)
unfolding first_match ingress_rule
on_carve_out = rw tools_compiled refl

compile_config_covers_example :
    (i : IngressRule) × Memᴰ i (ConfigBody.ingress (compile_config tools tunnel))
    × (i.hostname ≡ codes "*.example.com")
    × (i.path ≡ [])
    × (i.service ≡ wanted_service false shut)
compile_config_covers_example =
    compile_config_covers tools tunnel shut
      (record { hostname = codes "*.example.com"; routes = [] }) [] tools-IsClean (Memᴰ.head refl)
      shut_exposed (Memᴰ.head refl) refl shut_path

-- An exact path and the prefix of the same value, for one hostname and category.
abbrev exact_rule : DomainRule
exact_rule = record {
  category = 1;
  order = 0;
  hostname = codes "app.example.com";
  path = codes "^/admin$";
  service = codes "http://127.0.0.1:18081";
  origin = none;
}

abbrev prefix_rule : DomainRule
prefix_rule = record {
  category = 1;
  order = 1;
  hostname = codes "app.example.com";
  path = codes "^/admin(/|$)";
  service = codes "http://127.0.0.1:18080";
  origin = none;
}

exact_behind_prefix_example :
    (rule_le prefix_rule exact_rule ≡ true) × (rule_le exact_rule prefix_rule ≡ false)
unfolding exact_path prefix_path quote_meta trim_right drop_while contains_code
exact_behind_prefix_example =
    exact_behind_prefix exact_rule prefix_rule (codes "/admin") refl refl refl refl refl
