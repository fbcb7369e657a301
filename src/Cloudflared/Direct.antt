-- ===== src/Cloudflared/Direct.antt =====
-- internal/cloudflared/compile.go: compileDirectConfig, validateOriginRequest and
-- validateWARPRouting. What regexp.Compile and net.ParseCIDR accept is a parameter.
use flareway.Base.{
  ℕ, suc, Bool, true, false, not, ◌&&◌, ◌||◌, Option, none, some, String, List, [], ◌∷◌, all,
  is_some,
}
use flareway.Base.Results.{Result, ok, ◌>>=◌, ◌>>◌, refuse_if}
use flareway.Base.Durations.{ℤ, pos, lt_ℤ}
use flareway.Base.Bytes.{Text, is_empty}
use flareway.Cloudflared.Origin.{
  OriginProxyType, OriginRequest, OriginAccess, OriginIpRule, WarpRouting, IngressRule, ConfigBody,
  direct_origin, direct_warp_routing, canonical_strings,
}
use flareway.Cloudflared.Ingress.{no_audience}
use flareway.Cloudflared.Names.{validate_hostname}
use flareway.Cloudflared.Service.{
  TunnelIngressService, ServiceKind, compile_service, is_http_service,
}
use flareway.Cloudflared.Errors.{
  CompileError, negative_value, ingress_empty, not_catch_all, early_catch_all, bad_hostname,
  bad_path, bad_proxy_type, bad_prefix, bad_rule_port, bad_access, access_not_http,
  ip_rules_not_proxy,
}

pub record TunnelIngress : Type 0 where
  pub hostname : Text
  pub path : Text
  pub service : TunnelIngressService
  pub origin_request : Option OriginRequest

pub record TunnelConfiguration : Type 0 where
  pub ingress : List TunnelIngress
  pub origin_request : Option OriginRequest
  pub warp_routing : Option WarpRouting

-- The loop over the numeric fields, each with its name.
unfoldable pub check_fields : List (String × Option ℤ) → Result CompileError (Unit {0})
check_fields [] = ok tt
check_fields ((name, none) ∷ fields) = check_fields fields
check_fields ((name, some value) ∷ fields) =
    refuse_if (lt_ℤ value (pos 0)) (negative_value name) >> check_fields fields

unfoldable pub is_proxy_type : Option OriginProxyType → Bool
is_proxy_type (some (OriginProxyType.unknown name)) = false
is_proxy_type other = true

unfoldable pub is_socks : Option OriginProxyType → Bool
is_socks (some OriginProxyType.socks5) = true
is_socks other = false

unfoldable pub is_rule_port : ℤ → Bool
is_rule_port port = not (lt_ℤ port (pos 1) || lt_ℤ (pos 65535) port)

unfoldable pub check_access : Option OriginAccess → Result CompileError (Unit {0})
check_access none = ok tt
check_access (some a) =
    refuse_if (is_empty a.team_name || no_audience (canonical_strings a.aud_tags)) bad_access

unfoldable pub validate_warp_routing : Option WarpRouting → Result CompileError (Unit {0})
validate_warp_routing none = ok tt
validate_warp_routing (some r) = check_fields (
    ("connectTimeout", r.connect_timeout)
    ∷ ("tcpKeepAlive", r.tcp_keep_alive)
    ∷ ("maxActiveFlows", r.max_active_flows)
    ∷ [])

unfoldable pub has_access : Option OriginRequest → Bool
has_access none = false
has_access (some r) = is_some r.access

abbrev pub any_rule : List OriginIpRule → Bool
any_rule [] = false
any_rule (r ∷ rules) = true

-- There are IP rules, and the proxy type is not SOCKS5.
unfoldable pub rules_without_socks : Option OriginRequest → Bool
rules_without_socks none = false
rules_without_socks (some r) = any_rule r.ip_rules && not (is_socks r.proxy_type)

abbrev pub is_bastion : Option ServiceKind → Bool
is_bastion (some ServiceKind.bastion) = true
is_bastion other = false

unfoldable pub is_catch_all : TunnelIngress → Bool
is_catch_all r = is_empty r.hostname && is_empty r.path

abbrev pub is_last : List TunnelIngress → Bool
is_last [] = true
is_last (r ∷ rules) = false

module _ (parses_regexp parses_cidr : Text → Bool) where
  unfoldable pub check_ip_rules : List OriginIpRule → Result CompileError (Unit {0})
  check_ip_rules [] = ok tt
  check_ip_rules (r ∷ rules) =
      refuse_if (not (parses_cidr r.prefix)) bad_prefix
      >> (refuse_if (not (all is_rule_port r.ports)) bad_rule_port >> check_ip_rules rules)

  unfoldable pub validate_origin_request : Option OriginRequest → Result CompileError (Unit {0})
  validate_origin_request none = ok tt
  validate_origin_request (some r) =
      check_fields (
        ("connectTimeout", r.connect_timeout)
        ∷ ("tlsTimeout", r.tls_timeout)
        ∷ ("tcpKeepAlive", r.tcp_keep_alive)
        ∷ ("keepAliveConnections", r.keep_alive_connections)
        ∷ ("keepAliveTimeout", r.keep_alive_timeout)
        ∷ [])
      >> (refuse_if (not (is_proxy_type r.proxy_type)) bad_proxy_type
          >> (check_ip_rules r.ip_rules >> check_access r.access))

  -- The wire form of a rule, once its service is known.
  unfoldable pub finish_rule :
      TunnelIngress → Text × Option ServiceKind → Result CompileError IngressRule
  finish_rule r (service, kind) =
      validate_origin_request r.origin_request
      >> (refuse_if (has_access r.origin_request && not (is_http_service kind)) access_not_http
          >> (refuse_if (not (is_bastion kind) && rules_without_socks r.origin_request)
                ip_rules_not_proxy
              >> ok (record {
                hostname = r.hostname;
                path = r.path;
                service = service;
                origin_request = direct_origin r.origin_request;
              })))

  unfoldable pub compile_rule : ℕ → Bool → TunnelIngress → Result CompileError IngressRule
  compile_rule index last r =
      refuse_if (last && not (is_catch_all r)) (not_catch_all index)
      >> (refuse_if (not last && is_catch_all r) (early_catch_all index)
          >> (refuse_if (not (validate_hostname r.hostname)) bad_hostname
              >> (refuse_if (not (is_empty r.path) && not (parses_regexp r.path)) bad_path
                  >> (compile_service r.service >>= finish_rule r))))

  unfoldable pub compile_rules : ℕ → List TunnelIngress → Result CompileError (List IngressRule)
  compile_rules index [] = ok []
  compile_rules index (r ∷ rules) = compile_rule index (is_last rules) r >>= λ i.
      compile_rules (suc index) rules >>= λ is. ok (i ∷ is)

  unfoldable pub compile_direct_config : TunnelConfiguration → Result CompileError ConfigBody
  compile_direct_config c =
      refuse_if (is_last c.ingress) ingress_empty
      >> (validate_origin_request c.origin_request
          >> (validate_warp_routing c.warp_routing
              >> (compile_rules 0 c.ingress >>= λ ingress. ok (record {
                ingress = ingress;
                origin_request = direct_origin c.origin_request;
                warp_routing = direct_warp_routing c.warp_routing;
              }))))
