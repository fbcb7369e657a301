-- ===== src/Cloudflared/Seconds.antt =====
-- That the durations that Compile accepts lose nothing where they become seconds.
use flareway.Base.{
  ◌*◌, ◌%◌, ◌≡◌, refl, not, Option, none, some, String, List, [], ◌∷◌, nat_beq, arith,
}
use flareway.Base.Results.{ok, refuse_if, passed, refuse_if-eq-ok}
use flareway.Base.Durations.{ℤ, pos, negsuc, lt_ℤ}
use flareway.Cloudflared.Origin.{
  GatewayOriginRequest, gateway_origin, duration_seconds, optional_duration_seconds,
}
use flareway.Cloudflared.Compile.{
  is_whole_seconds, check_durations, validate_gateway_origin_request,
}

-- A number of seconds in nanoseconds; a negative one is not accepted.
abbrev pub nanoseconds : Option ℤ → Option ℤ
nanoseconds none = none
nanoseconds (some (pos n)) = some (pos (n * 1000000000))
nanoseconds (some (negsuc n)) = some (negsuc n)

field_exact :
    (name : String) (value : Option ℤ) (rest : List (String × Option ℤ))
    → check_durations ((name, value) ∷ rest) ≡ ok tt
    → (value ≡ nanoseconds (optional_duration_seconds value)) × (check_durations rest ≡ ok tt)
unfolding check_durations optional_duration_seconds duration_seconds is_whole_seconds
field_exact name none rest h = (refl, h)
field_exact name (some (pos n)) rest h =
    let (_, _, g) = passed (refuse_if (lt_ℤ (pos n) (pos 0)) _) _ h in
    let (_, p, q) = passed (refuse_if (not (nat_beq (n % 1000000000) 0)) _) _ g in
    (ground (arith, refuse_if-eq-ok _ _ p), q)
field_exact name (some (negsuc n)) rest h =
    let (_, p, _) = passed (refuse_if (lt_ℤ (negsuc n) (pos 0)) _) _ h in
    absurd (ground (arith, refuse_if-eq-ok _ _ p))

-- If the origin settings of a Gateway are accepted, the seconds that gatewayOrigin writes for its
-- three durations are those durations again, in nanoseconds.
gateway_origin_exact :
    (r : GatewayOriginRequest)
    → validate_gateway_origin_request r ≡ ok tt
    → let o = gateway_origin r in
      (r.connect_timeout ≡ nanoseconds o.connect_timeout)
      × (r.keep_alive_timeout ≡ nanoseconds o.keep_alive_timeout)
      × (r.tcp_keep_alive ≡ nanoseconds o.tcp_keep_alive)
unfolding validate_gateway_origin_request gateway_origin
gateway_origin_exact r h =
    let (_, p, q) =
      passed
        (check_durations (
          ("connectTimeout", r.connect_timeout)
          ∷ ("keepAliveTimeout", r.keep_alive_timeout)
          ∷ ("tcpKeepAlive", r.tcp_keep_alive)
          ∷ []))
        _ h in
    let (a, s) = field_exact _ _ _ p in
    let (b, t) = field_exact _ _ _ s in (a, b, (field_exact _ _ _ t).0)
