-- ===== src/Cloudflared/Compile.antt =====
-- internal/cloudflared/compile.go: Compile, CompileDirect, compileRequest and
-- validateGatewayOriginRequest. json.Marshal, the decoder and SHA-256 are parameters.
use flareway.Base.{suc, ◌%◌, Bool, not, Option, none, some, String, List, [], ◌∷◌, nat_beq}
use flareway.Base.Results.{Result, ok, err, ◌>>=◌, ◌>>◌, refuse_if}
use flareway.Base.Durations.{ℤ, pos, negsuc, lt_ℤ}
use flareway.Base.Bytes.{Text, is_empty}
use flareway.Cloudflared.Origin.{GatewayOriginRequest, ConfigBody}
use flareway.Cloudflared.Ingress.{Gateway, Cloudflare, compile_config}
use flareway.Cloudflared.Direct.{TunnelConfiguration, compile_direct_config}
use flareway.Cloudflared.Errors.{
  CompileError, gateway_nil, settings_absent, account_empty, negative_value, not_whole_seconds,
  marshal_failed, prepare_failed,
}

unfoldable pub is_whole_seconds : ℤ → Bool
is_whole_seconds (pos n) = nat_beq (n % 1000000000) 0
is_whole_seconds (negsuc n) = nat_beq (suc n % 1000000000) 0

unfoldable pub check_durations : List (String × Option ℤ) → Result CompileError (Unit {0})
check_durations [] = ok tt
check_durations ((name, none) ∷ fields) = check_durations fields
check_durations ((name, some value) ∷ fields) =
    refuse_if (lt_ℤ value (pos 0)) (negative_value name)
    >> (refuse_if (not (is_whole_seconds value)) (not_whole_seconds name) >> check_durations fields)

unfoldable pub check_count : Option ℤ → Result CompileError (Unit {0})
check_count none = ok tt
check_count (some value) = refuse_if (lt_ℤ value (pos 0)) (negative_value "keepAliveConnections")

unfoldable pub validate_gateway_origin_request :
    GatewayOriginRequest → Result CompileError (Unit {0})
validate_gateway_origin_request r =
    check_durations (
      ("connectTimeout", r.connect_timeout)
      ∷ ("keepAliveTimeout", r.keep_alive_timeout)
      ∷ ("tcpKeepAlive", r.tcp_keep_alive)
      ∷ [])
    >> check_count r.keep_alive_connections

pub record UpdateParams (Raw : Type 0) : Type 0 where
  pub account_id : Text
  pub config : Raw

module _ {Raw : Type 0} (marshal : ConfigBody → Option Text) (decode : Text → Option Raw)
    (digest : Text → Text) where
  unfoldable pub prepare : Text → Text → Option Raw → Result CompileError (UpdateParams Raw × Text)
  prepare account_id payload none = err prepare_failed
  prepare account_id payload (some raw) =
      ok (record { account_id = account_id; config = raw }, digest payload)

  unfoldable pub compile_payload :
      Text → Option Text → Result CompileError (UpdateParams Raw × Text)
  compile_payload account_id none = err marshal_failed
  compile_payload account_id (some payload) = prepare account_id payload (decode payload)

  unfoldable pub compile_request : Text → ConfigBody → Result CompileError (UpdateParams Raw × Text)
  compile_request account_id config = compile_payload account_id (marshal config)

  unfoldable pub compile_settings :
      Gateway → Option Cloudflare → Result CompileError (UpdateParams Raw × Text)
  compile_settings g none = err settings_absent
  compile_settings g (some c) =
      refuse_if (is_empty c.account_id) account_empty
      >> (validate_gateway_origin_request c.origin_request
          >> compile_request c.account_id (compile_config g c))

  unfoldable pub compile : Option Gateway → Result CompileError (UpdateParams Raw × Text)
  compile none = err gateway_nil
  compile (some g) = compile_settings g g.cloudflare

  unfoldable pub compile_direct :
      (Text → Bool)
      → (Text → Bool)
      → Text
      → TunnelConfiguration
      → Result CompileError (UpdateParams Raw × Text)
  compile_direct parses_regexp parses_cidr account_id configuration =
      refuse_if (is_empty account_id) account_empty
      >> (compile_direct_config parses_regexp parses_cidr configuration
          >>= compile_request account_id)
