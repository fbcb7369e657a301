-- ===== src/GatewayApi/RouteExamples.antt =====
-- The routes of one host: a long prefix, a short one and an exact path.
use flareway.Base.{none, List, [], ◌∷◌, Bool}
use flareway.Base.Bytes.{Text, codes, has_prefix}
use flareway.GatewayApi.Matches.{exact, path_prefix}
use flareway.GatewayApi.Precedence.{CompiledRoute}

abbrev route : Text → Text → CompiledRoute
route kind value = record {
  match = record {
    path = record { kind = kind; value = value };
    headers = [];
    query = [];
    method = none;
  };
  creation = 1;
  object_key = codes "apps/web";
  rule_index = 0;
  match_index = 0;
}

abbrev root : CompiledRoute
root = route path_prefix (codes "/")

abbrev api : CompiledRoute
api = route path_prefix (codes "/api")

abbrev login : CompiledRoute
login = route exact (codes "/login")

abbrev site : List CompiledRoute
site = root ∷ api ∷ login ∷ []

-- The routes that match the path /api.
abbrev for_api : CompiledRoute → Bool
for_api r = has_prefix (codes "/api") r.match.path.value
