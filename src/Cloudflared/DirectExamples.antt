-- ===== src/Cloudflared/DirectExamples.antt =====
-- Tunnels that compileDirectConfig accepts and refuses.
use flareway.Base.{◌≡◌, ◌↔◌, refl, true, false, none, some, [], ◌∷◌}
use flareway.Base.Bytes.{
  codes, contains_code, has_prefix, cut_prefix, byte_length, width, trim_space, drop_spaces,
  is_space, trim_prefix, has_suffix, cut_suffix,
}
use flareway.Base.Cuts.{cut_code, cut_last, split_on, extend}
use flareway.Base.Decimal.{parse_uint, decimal}
use flareway.Base.Durations.{pos}
use flareway.Base.Results.{ok, err}
use flareway.Cloudflared.Origin.{ConfigBody, direct_origin, direct_warp_routing}
use flareway.Cloudflared.Ingress.{decimal_ℤ}
use flareway.Cloudflared.Errors.{CompileError}
use flareway.Cloudflared.Names.{validate_hostname, is_host_label, is_host_code}
use flareway.Cloudflared.Service.{
  ServiceKind, TunnelIngressService, compile_service, choose_all, choose, address_choices,
  address_choice, unix_choices, unix_choice, other_choices, builtin_choice, status_choice,
  one_selected, validate_address, validate_status, check_parts, split_host_port, split_at,
  plain_host, bracketed_host, check_port, is_http_service,
}
use flareway.Cloudflared.Direct.{
  TunnelConfiguration, compile_direct_config, compile_rules, compile_rule, finish_rule,
  validate_origin_request, validate_warp_routing, is_catch_all, has_access, rules_without_socks,
}
use flareway.Cloudflared.Accepted.{Translates, compile_direct_config_iff}

abbrev nothing : TunnelIngressService
nothing = record {
  http = none;
  https = none;
  tcp = none;
  ssh = none;
  rdp = none;
  smb = none;
  unix = none;
  unix_tls = none;
  hello_world = false;
  http_status = none;
  bastion = false;
}

an_address :
    compile_service (record nothing { http = some (codes "[::1]:8080") })
    ≡ ok (codes "http://[::1]:8080", some ServiceKind.http)
unfolding compile_service choose_all choose address_choices address_choice unix_choices unix_choice
    other_choices builtin_choice status_choice one_selected validate_address check_parts
    split_host_port cut_last cut_code split_at plain_host bracketed_host contains_code check_port
    parse_uint
an_address = refl

two_services :
    compile_service (record nothing { http_status = some (pos 404); bastion = true })
    ≡ err (CompileError.not_one_service 2)
unfolding compile_service choose_all choose address_choices address_choice unix_choices unix_choice
    other_choices builtin_choice status_choice one_selected validate_status
two_services = refl

port_zero : validate_address (codes "localhost:0") ≡ err CompileError.bad_port
unfolding validate_address check_parts split_host_port cut_last cut_code split_at plain_host
    bracketed_host contains_code check_port parse_uint
port_zero = refl

many_colons : validate_address (codes "::1:80") ≡ err CompileError.bad_address
unfolding validate_address check_parts split_host_port cut_last cut_code split_at plain_host
    bracketed_host contains_code check_port parse_uint
many_colons = refl

abbrev direct : TunnelConfiguration
direct = record {
  ingress =
      record {
        hostname = codes "*.example.com";
        path = codes "^/api";
        service = record nothing { http = some (codes "localhost:8080") };
        origin_request = none;
      }
      ∷ record {
        hostname = [];
        path = [];
        service = record nothing { http_status = some (pos 404) };
        origin_request = none;
      }
      ∷ [];
  origin_request = none;
  warp_routing = none;
}

abbrev direct_body : ConfigBody
direct_body = record {
  ingress =
      record {
        hostname = codes "*.example.com";
        path = codes "^/api";
        service = codes "http://localhost:8080";
        origin_request = none;
      }
      ∷ record {
        hostname = [];
        path = [];
        service = codes "http_status:404";
        origin_request = none;
      }
      ∷ [];
  origin_request = none;
  warp_routing = none;
}

direct_compiled : compile_direct_config (λ s. true) (λ s. true) direct ≡ ok direct_body
unfolding compile_direct_config compile_rules compile_rule finish_rule validate_origin_request
    validate_warp_routing direct_origin direct_warp_routing is_catch_all has_access
    rules_without_socks is_http_service decimal_ℤ decimal validate_status compile_service choose_all
    choose address_choices address_choice unix_choices unix_choice other_choices builtin_choice
    status_choice one_selected validate_address check_parts split_host_port cut_last cut_code
    split_at plain_host bracketed_host contains_code check_port parse_uint validate_hostname
    trim_space drop_spaces is_space trim_prefix cut_prefix split_on extend is_host_label byte_length
    width has_prefix has_suffix cut_suffix is_host_code
direct_compiled = refl

compile_direct_config_iff_example :
    (compile_direct_config (λ s. true) (λ s. true) direct ≡ ok direct_body) ↔ (
      Translates (λ s. true) (λ s. true) direct.ingress direct_body.ingress
      × (validate_origin_request (λ s. true) (λ s. true) none ≡ ok tt)
      × (validate_warp_routing none ≡ ok tt)
      × (none ≡ direct_origin none)
      × (none ≡ direct_warp_routing none))
compile_direct_config_iff_example =
    compile_direct_config_iff (λ s. true) (λ s. true) direct direct_body

bad_names :
    (validate_hostname (codes "a..b") ≡ false)
    × (validate_hostname (codes "-a.b") ≡ false)
    × (validate_hostname (codes "a.*.b") ≡ false)
    × (validate_hostname (codes " a.b") ≡ false)
    × (validate_hostname (codes "*.a-1.b") ≡ true)
unfolding validate_hostname trim_space drop_spaces is_space contains_code trim_prefix cut_prefix
    split_on extend is_host_label byte_length width has_prefix has_suffix cut_suffix is_host_code
bad_names = (refl, refl, refl, refl, refl)
