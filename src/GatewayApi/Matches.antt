-- ===== src/GatewayApi/Matches.antt =====
-- compileMatch of internal/gatewayapi/rules.go. The lower case of a code point is a parameter.
use flareway.Base.{
  ℕ, Bool, not, ◌||◌, Option, none, some, List, [], ◌∷◌, if◌then◌else◌, any, map, get_or,
}
use flareway.Base.Classes.{◌==◌, nat_eq, list_eq}
use flareway.Base.Bytes.{Text, codes, is_empty, text_lt, text_le, trim_right}
use flareway.Base.Results.{Result, ok, err, ◌>>=◌}
use flareway.Base.Sorting.{sort}

abbrev pub exact : Text
exact = codes "Exact"

abbrev pub path_prefix : Text
path_prefix = codes "PathPrefix"

abbrev pub regular_expression : Text
regular_expression = codes "RegularExpression"

-- The match of one header or one query parameter, as the Route has it.
pub record NamedMatch : Type 0 where
  pub name : Text
  pub kind : Option Text
  pub value : Text

pub record HttpPathMatch : Type 0 where
  pub kind : Option Text
  pub value : Option Text

pub record HttpRouteMatch : Type 0 where
  pub path : Option HttpPathMatch
  pub headers : List NamedMatch
  pub query_params : List NamedMatch
  pub method : Option Text

pub record PathMatch : Type 0 where
  pub kind : Text
  pub value : Text

-- ir.HeaderMatch and ir.QueryMatch.
pub record Entry : Type 0 where
  pub name : Text
  pub kind : Text
  pub value : Text

pub record CompiledMatch : Type 0 where
  pub path : PathMatch
  pub headers : List Entry
  pub query : List Entry
  pub method : Option Text

-- The types that are not supported, of a path, a header and a query parameter.
pub data Unsupported : Type 0 where
  path_type : Text → Unsupported
  header_type : Text → Unsupported
  query_type : Text → Unsupported

unfoldable pub prefix_value : Text → Text
prefix_value value =
    let trimmed = trim_right b'/' value in
    if value == codes "/" then value else if is_empty trimmed then codes "/" else trimmed

unfoldable pub compile_path : Option HttpPathMatch → Result Unsupported PathMatch
compile_path none = ok (record { kind = path_prefix; value = codes "/" })
compile_path (some m) =
    let kind = get_or m.kind path_prefix in
    let value = get_or m.value (codes "/") in
    if kind == path_prefix
    then ok (record { kind = kind; value = prefix_value value })
    else if (kind == exact) || (kind == regular_expression)
    then ok (record { kind = kind; value = value })
    else err (path_type kind)

-- The type that a header or a query parameter is matched by, which is exact if none is given.
unfoldable pub type_of : NamedMatch → Text
type_of m = get_or m.kind exact

unfoldable pub is_supported : NamedMatch → Bool
is_supported m = (type_of m == exact) || (type_of m == regular_expression)

-- The loop over the headers or the query parameters, which passes over a name that it has seen.
unfoldable pub compile_named :
    (Text → Text)
    → (Text → Unsupported)
    → List Text
    → List NamedMatch
    → Result Unsupported (List Entry)
compile_named norm reason seen [] = ok []
compile_named norm reason seen (m ∷ ms) =
    let name = norm m.name in
    let passed = compile_named norm reason seen ms in
    let rest = compile_named norm reason (name ∷ seen) ms in
    if any (λ s. s == name) seen
    then passed
    else if is_supported m
    then (rest >>= λ es. ok (record { name = name; kind = type_of m; value = m.value } ∷ es))
    else err (reason (type_of m))

-- By name, then by type, then by value.
unfoldable pub entry_le : Entry → Entry → Bool
entry_le a b =
    if not (a.name == b.name)
    then text_lt a.name b.name
    else if not (a.kind == b.kind)
    then text_lt a.kind b.kind
    else text_le a.value b.value

unfoldable pub compile_match : (ℕ → ℕ) → HttpRouteMatch → Result Unsupported CompiledMatch
compile_match lower m = compile_path m.path >>= λ path.
    compile_named (map lower) header_type [] m.headers >>= λ headers.
    compile_named (λ name. name) query_type [] m.query_params >>= λ query. ok (record {
      path = path;
      headers = sort entry_le headers;
      query = sort entry_le query;
      method = m.method;
    })
