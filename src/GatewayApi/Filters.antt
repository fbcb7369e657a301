-- ===== src/GatewayApi/Filters.antt =====
-- internal/gatewayapi/rules.go: compileHeaderModifier, compileURLRewrite and compilePathModifier, and
-- compileBackendFilters of backends.go. The lower case of a code point is a parameter.
use flareway.Base.{
  ℕ, Bool, Option, none, some, String, List, [], ◌∷◌, if◌then◌else◌, map, get_or, not,
}
use flareway.Base.Classes.{◌==◌, nat_eq, list_eq, string_eq}
use flareway.Base.Bytes.{Text, text_lt, text_le}
use flareway.Base.Results.{Result, ok, err}
use flareway.Base.Sorting.{sort}

pub record HeaderValue : Type 0 where
  pub name : Text
  pub value : Text

-- As the Route has it, and compiled.
pub record HeaderModifier : Type 0 where
  pub set : List HeaderValue
  pub add : List HeaderValue
  pub remove : List Text

pub record HttpPathModifier : Type 0 where
  pub kind : String
  pub replace_full_path : Option Text
  pub replace_prefix_match : Option Text

pub record HttpUrlRewrite : Type 0 where
  pub hostname : Option Text
  pub path : Option HttpPathModifier

pub record PathModifier : Type 0 where
  pub kind : String
  pub replace : Text

pub record UrlRewrite : Type 0 where
  pub hostname : Text
  pub path : Option PathModifier

-- The fields that compileBackendFilters reads.
pub record BackendFilter : Type 0 where
  pub kind : String
  pub request_header_modifier : Option HeaderModifier
  pub response_header_modifier : Option HeaderModifier
  pub url_rewrite : Option HttpUrlRewrite

pub record BackendFilters : Type 0 where
  pub request_headers : Option HeaderModifier
  pub response_headers : Option HeaderModifier
  pub url_rewrite : Option UrlRewrite

pub data FilterError : Type 0 where
  no_configuration : String → FilterError
  unsupported_type : String → FilterError

unfoldable pub header_value_le : HeaderValue → HeaderValue → Bool
header_value_le a b =
    if not (a.name == b.name) then text_lt a.name b.name else text_le a.value b.value

unfoldable pub compile_path_modifier : HttpPathModifier → PathModifier
compile_path_modifier path = record {
  kind = path.kind;
  replace = get_or path.replace_prefix_match (get_or path.replace_full_path []);
}

unfoldable pub compile_url_rewrite : HttpUrlRewrite → UrlRewrite
compile_url_rewrite filter = record {
  hostname = get_or filter.hostname [];
  path = elim filter.path [ none ↦ none | some p ↦ some (compile_path_modifier p) ];
}

module _ (lower : ℕ → ℕ) where
  unfoldable pub lower_names : List HeaderValue → List HeaderValue
  lower_names headers = map (λ h. record { name = map lower h.name; value = h.value }) headers

  unfoldable pub compile_header_modifier : HeaderModifier → HeaderModifier
  compile_header_modifier filter = record {
    set = sort header_value_le (lower_names filter.set);
    add = sort header_value_le (lower_names filter.add);
    remove = sort text_le (map (map lower) filter.remove);
  }

  -- One filter, over what the filters before it have set.
  unfoldable pub add_backend_filter :
      BackendFilter → BackendFilters → Result FilterError BackendFilters
  add_backend_filter filter result =
      if filter.kind == "RequestHeaderModifier"
      then elim filter.request_header_modifier [
        | none ↦ err (no_configuration filter.kind)
        | some m ↦ ok (record result { request_headers = some (compile_header_modifier m) })
      ]
      else if filter.kind == "ResponseHeaderModifier"
      then elim filter.response_header_modifier [
        | none ↦ err (no_configuration filter.kind)
        | some m ↦ ok (record result { response_headers = some (compile_header_modifier m) })
      ]
      else if filter.kind == "URLRewrite"
      then elim filter.url_rewrite [
        | none ↦ err (no_configuration filter.kind)
        | some u ↦ ok (record result { url_rewrite = some (compile_url_rewrite u) })
      ]
      else err (unsupported_type filter.kind)

  unfoldable pub compile_backend_filters :
      List BackendFilter → BackendFilters → Result FilterError BackendFilters
  compile_backend_filters [] result = ok result
  compile_backend_filters (filter ∷ filters) result = elim (add_backend_filter filter result) [
    | err e ↦ err e
    | ok next ↦ compile_backend_filters filters next
  ]
