-- ===== src/GatewayApi/Precedence.antt =====
-- compareCompiledRoutes of internal/gatewayapi/translate.go, and the sort of the routes of a host. Routes
-- that compare equal have one object, rule and match, so it does not matter that the sort is unstable.
use flareway.Base.{ℕ, Bool, not, ◌&&◌, List, if◌then◌else◌, nat_beq, is_some, length}
use flareway.Base.Classes.{◌==◌, nat_eq, list_eq}
use flareway.Base.Bytes.{Text, byte_length}
use flareway.Base.Durations.{ℤ, pos, negsuc, sub_ℕ, le_ℤ, int_eq}
use flareway.Base.Sorting.{sort}
use flareway.Base.Comparisons.{compare_text, compare_times}
use flareway.GatewayApi.Matches.{exact, path_prefix, regular_expression, CompiledMatch}

pub record CompiledRoute : Type 0 where
  pub match : CompiledMatch
  pub creation : ℕ
  pub object_key : Text
  pub rule_index : ℕ
  pub match_index : ℕ

unfoldable pub path_type_rank : Text → ℕ
path_type_rank kind = if kind == exact then 0 else if kind == regular_expression then 1 else 2

-- From the time of creation on.
unfoldable pub compare_identities : CompiledRoute → CompiledRoute → ℤ
compare_identities a b =
    let times = compare_times a.creation b.creation in
    let keys = compare_text a.object_key b.object_key in
    if not (times == pos 0)
    then times
    else if not (keys == pos 0)
    then keys
    else if not (nat_beq a.rule_index b.rule_index)
    then sub_ℕ a.rule_index b.rule_index
    else sub_ℕ a.match_index b.match_index

-- From the method on.
unfoldable pub compare_conditions : CompiledRoute → CompiledRoute → ℤ
compare_conditions a b =
    if is_some a.match.method && not (is_some b.match.method)
    then negsuc 0
    else if not (is_some a.match.method) && is_some b.match.method
    then pos 1
    else if not (nat_beq (length a.match.headers) (length b.match.headers))
    then sub_ℕ (length b.match.headers) (length a.match.headers)
    else if not (nat_beq (length a.match.query) (length b.match.query))
    then sub_ℕ (length b.match.query) (length a.match.query)
    else compare_identities a b

unfoldable pub compare_compiled_routes : CompiledRoute → CompiledRoute → ℤ
compare_compiled_routes a b =
    if not (a.match.path.kind == b.match.path.kind)
    then sub_ℕ (path_type_rank a.match.path.kind) (path_type_rank b.match.path.kind)
    else if (a.match.path.kind == path_prefix)
        && not (nat_beq (byte_length a.match.path.value) (byte_length b.match.path.value))
    then sub_ℕ (byte_length b.match.path.value) (byte_length a.match.path.value)
    else compare_conditions a b

unfoldable pub route_le : CompiledRoute → CompiledRoute → Bool
route_le a b = le_ℤ (compare_compiled_routes a b) (pos 0)

unfoldable pub routes_for_host : List CompiledRoute → List CompiledRoute
routes_for_host routes = sort route_le routes
