-- ===== src/Cloudflared/Origin.antt =====
-- internal/cloudflared/config.go, and the settings of internal/ir/types.go that it translates. A
-- pointer is an Option, and cloning it is the value itself.
use flareway.Base.{suc, ◌/◌, Bool, not, Option, none, some, String, List, [], map, keep}
use flareway.Base.Classes.{nat_eq, list_eq}
use flareway.Base.Bytes.{Text, is_empty, text_le}
use flareway.Base.Sorting.{sort, compact}
use flareway.Base.Durations.{ℤ, pos, negsuc, negative, le_ℤ, int_eq}

pub data OriginProxyType : Type 0 where
  regular : OriginProxyType
  socks5 : OriginProxyType
  unknown : String → OriginProxyType

pub record OriginIpRule : Type 0 where
  pub prefix : Text
  pub ports : List ℤ
  pub allow : Bool

pub record OriginAccess : Type 0 where
  pub aud_tags : List Text
  pub team_name : Text
  pub required : Option Bool

pub record OriginRequest : Type 0 where
  pub access : Option OriginAccess
  pub ca_pool : Option Text
  pub connect_timeout : Option ℤ
  pub disable_chunked_encoding : Option Bool
  pub http2_origin : Option Bool
  pub http_host_header : Option Text
  pub keep_alive_connections : Option ℤ
  pub keep_alive_timeout : Option ℤ
  pub match_sni_to_host : Option Bool
  pub no_happy_eyeballs : Option Bool
  pub no_tls_verify : Option Bool
  pub origin_server_name : Option Text
  pub proxy_type : Option OriginProxyType
  pub tcp_keep_alive : Option ℤ
  pub tls_timeout : Option ℤ
  pub ip_rules : List OriginIpRule

pub record GatewayOriginRequest : Type 0 where
  pub connect_timeout : Option ℤ
  pub keep_alive_timeout : Option ℤ
  pub tcp_keep_alive : Option ℤ
  pub keep_alive_connections : Option ℤ
  pub no_happy_eyeballs : Option Bool
  pub disable_chunked_encoding : Option Bool
  pub http2_origin : Option Bool

pub record WarpRouting : Type 0 where
  pub enabled : Option Bool
  pub connect_timeout : Option ℤ
  pub tcp_keep_alive : Option ℤ
  pub max_active_flows : Option ℤ

-- The wire form, which `json.Marshal` writes.
pub record Access : Type 0 where
  pub aud_tag : List Text
  pub team_name : Text
  pub required : Option Bool

pub record WireOrigin : Type 0 where
  pub access : Option Access
  pub ca_pool : Option Text
  pub connect_timeout : Option ℤ
  pub disable_chunked_encoding : Option Bool
  pub http2_origin : Option Bool
  pub http_host_header : Option Text
  pub keep_alive_connections : Option ℤ
  pub keep_alive_timeout : Option ℤ
  pub match_sni_to_host : Option Bool
  pub no_happy_eyeballs : Option Bool
  pub no_tls_verify : Option Bool
  pub origin_server_name : Option Text
  pub proxy_type : Option String
  pub tcp_keep_alive : Option ℤ
  pub tls_timeout : Option ℤ
  pub ip_rules : List OriginIpRule

pub record IngressRule : Type 0 where
  pub hostname : Text
  pub path : Text
  pub service : Text
  pub origin_request : Option WireOrigin

pub record ConfigBody : Type 0 where
  pub ingress : List IngressRule
  pub origin_request : Option WireOrigin
  pub warp_routing : Option WarpRouting

-- The quotient of a Duration by a second, which truncates toward zero.
unfoldable pub duration_seconds : ℤ → ℤ
duration_seconds (pos n) = pos (n / 1000000000)
duration_seconds (negsuc n) = negative (suc n / 1000000000)

unfoldable pub optional_duration_seconds : Option ℤ → Option ℤ
optional_duration_seconds none = none
optional_duration_seconds (some value) = some (duration_seconds value)

unfoldable pub canonical_strings : List Text → List Text
canonical_strings values = compact (sort text_le (keep (λ v. not (is_empty v)) values))

unfoldable pub canonical_ports : List ℤ → List ℤ
canonical_ports values = compact (sort le_ℤ values)

unfoldable pub wire_proxy_type : Option OriginProxyType → Option String
wire_proxy_type none = none
wire_proxy_type (some OriginProxyType.regular) = none
wire_proxy_type (some OriginProxyType.socks5) = some "socks"
wire_proxy_type (some (OriginProxyType.unknown name)) = some "socks"

unfoldable pub gateway_origin : GatewayOriginRequest → WireOrigin
gateway_origin r = record {
  access = none;
  ca_pool = none;
  connect_timeout = optional_duration_seconds r.connect_timeout;
  disable_chunked_encoding = r.disable_chunked_encoding;
  http2_origin = r.http2_origin;
  http_host_header = none;
  keep_alive_connections = r.keep_alive_connections;
  keep_alive_timeout = optional_duration_seconds r.keep_alive_timeout;
  match_sni_to_host = none;
  no_happy_eyeballs = r.no_happy_eyeballs;
  no_tls_verify = none;
  origin_server_name = none;
  proxy_type = none;
  tcp_keep_alive = optional_duration_seconds r.tcp_keep_alive;
  tls_timeout = none;
  ip_rules = [];
}

unfoldable pub wire_ip_rule : OriginIpRule → OriginIpRule
wire_ip_rule r = record r { ports = canonical_ports r.ports }

unfoldable pub wire_access : Option OriginAccess → Option Access
wire_access none = none
wire_access (some a) = some (record {
  aud_tag = canonical_strings a.aud_tags;
  team_name = a.team_name;
  required = a.required;
})

unfoldable pub direct_origin : Option OriginRequest → Option WireOrigin
direct_origin none = none
direct_origin (some r) = some (record {
  access = wire_access r.access;
  ca_pool = r.ca_pool;
  connect_timeout = r.connect_timeout;
  disable_chunked_encoding = r.disable_chunked_encoding;
  http2_origin = r.http2_origin;
  http_host_header = r.http_host_header;
  keep_alive_connections = r.keep_alive_connections;
  keep_alive_timeout = r.keep_alive_timeout;
  match_sni_to_host = r.match_sni_to_host;
  no_happy_eyeballs = r.no_happy_eyeballs;
  no_tls_verify = r.no_tls_verify;
  origin_server_name = r.origin_server_name;
  proxy_type = wire_proxy_type r.proxy_type;
  tcp_keep_alive = r.tcp_keep_alive;
  tls_timeout = r.tls_timeout;
  ip_rules = map wire_ip_rule r.ip_rules;
})

unfoldable pub direct_warp_routing : Option WarpRouting → Option WarpRouting
direct_warp_routing none = none
direct_warp_routing (some r) = some (record {
  enabled = r.enabled;
  connect_timeout = r.connect_timeout;
  tcp_keep_alive = r.tcp_keep_alive;
  max_active_flows = r.max_active_flows;
})

unfoldable pub clone_origin : WireOrigin → WireOrigin
clone_origin o = record o { ip_rules = map wire_ip_rule o.ip_rules }
