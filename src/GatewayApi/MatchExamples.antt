-- ===== src/GatewayApi/MatchExamples.antt =====
-- A match with a header that is given twice.
use flareway.Base.{ℕ, ◌≡◌, refl, none, some, [], ◌∷◌, map}
use flareway.Base.Bytes.{Text, codes, text_lt, text_le, trim_right, drop_while}
use flareway.Base.Results.{ok}
use flareway.Base.Sorting.{sort, insert}
use flareway.GatewayApi.Matches.{
  NamedMatch, HttpRouteMatch, CompiledMatch, exact, path_prefix, prefix_value, compile_path,
  type_of, is_supported, compile_named, entry_le, compile_match,
}
use flareway.GatewayApi.Compiled.{IsCompiled, compile_match-IsCompiled}

abbrev named : Text → Text → NamedMatch
named name value = record { name = name; kind = none; value = value }

abbrev api_match : HttpRouteMatch
api_match = record {
  path = some (record { kind = none; value = some (codes "/api/") });
  headers =
      named (codes "x-b") (codes "1")
      ∷ named (codes "x-a") (codes "2")
      ∷ named (codes "x-b") (codes "3")
      ∷ [];
  query_params = [];
  method = some (codes "GET");
}

abbrev api_compiled : CompiledMatch
api_compiled = record {
  path = record { kind = path_prefix; value = codes "/api" };
  headers =
      record { name = codes "x-a"; kind = exact; value = codes "2" }
      ∷ record { name = codes "x-b"; kind = exact; value = codes "1" }
      ∷ [];
  query = [];
  method = some (codes "GET");
}

abbrev same_code : ℕ → ℕ
same_code c = c

api_compiles : compile_match same_code api_match ≡ ok api_compiled
unfolding compile_match compile_path prefix_value trim_right drop_while compile_named is_supported
    type_of sort insert entry_le text_lt text_le
api_compiles = refl

compile_match-IsCompiled_example :
    (compile_path api_match.path ≡ ok api_compiled.path)
    × IsCompiled (map same_code) api_match.headers api_compiled.headers
    × IsCompiled (λ name. name) api_match.query_params api_compiled.query
    × (api_compiled.method ≡ api_match.method)
compile_match-IsCompiled_example =
    compile_match-IsCompiled same_code api_match api_compiled api_compiles
