-- ===== src/Cloudflared/Errors.antt =====
-- The errors of internal/cloudflared/compile.go, less the texts of their messages. A number is the
-- index of an ingress rule.
use flareway.Base.{ℕ, String}

pub data CompileError : Type 0 where
  gateway_nil : CompileError
  settings_absent : CompileError
  account_empty : CompileError
  negative_value : String → CompileError
  not_whole_seconds : String → CompileError
  ingress_empty : CompileError
  not_catch_all : ℕ → CompileError
  early_catch_all : ℕ → CompileError
  bad_hostname : CompileError
  bad_path : CompileError
  bad_address : CompileError
  bad_port : CompileError
  bad_unix_path : CompileError
  bad_status : CompileError
  not_one_service : ℕ → CompileError
  bad_proxy_type : CompileError
  bad_prefix : CompileError
  bad_rule_port : CompileError
  bad_access : CompileError
  access_not_http : CompileError
  ip_rules_not_proxy : CompileError
  marshal_failed : CompileError
  prepare_failed : CompileError
