-- ===== src/Cloudflared/Paths.antt =====
-- internal/cloudflared/compile.go: forwardingMatchPaths, forwardingPaths and unique.
use flareway.Base.{Bool, true, false, ◌||◌, String, List, [], ◌∷◌, ◌++◌, map, any, if◌then◌else◌}
use flareway.Base.Classes.{◌==◌, string_eq, list_eq, nat_eq}
use flareway.Base.Bytes.{Text, codes, is_empty, contains_code, trim_right}

pub record PathMatch : Type 0 where
  pub kind : String
  pub value : Text

-- Of a route this package reads the path alone.
pub record Route : Type 0 where
  pub path_match : PathMatch

-- regexp.QuoteMeta.
unfoldable pub quote_meta : Text → Text
quote_meta [] = []
quote_meta (c ∷ s) =
    let rest = quote_meta s in
    if contains_code (codes "\\.+*?()|[]{}^$") c then b'\\' ∷ c ∷ rest else c ∷ rest

unfoldable pub unique_from : List Text → List Text → List Text
unique_from seen [] = []
unique_from seen (v ∷ values) =
    let again = unique_from seen values in
    let first = v ∷ unique_from (v ∷ seen) values in if any (λ s. s == v) seen then again else first

unfoldable pub unique : List Text → List Text
unique values = unique_from [] values

-- What one route adds.
pub data PathStep : Type 0 where
  everything : PathStep
  add : Text → PathStep
  skip : PathStep

unfoldable pub exact_path : Text → Text
exact_path value = b'^' ∷ (quote_meta value ++ codes "$")

unfoldable pub prefix_path : Text → Text
prefix_path value = b'^' ∷ (quote_meta (trim_right b'/' value) ++ codes "(/|$)")

unfoldable pub path_step : PathMatch → PathStep
path_step m =
    if m.kind == "Exact"
    then add (exact_path m.value)
    else if m.kind == "RegularExpression"
    then add m.value
    else if m.kind == "PathPrefix"
    then (if is_empty m.value || (m.value == codes "/")
        then everything
        else add (prefix_path m.value))
    else skip

abbrev pub none_yet : List Text → Bool
none_yet [] = true
none_yet (p ∷ paths) = false

-- The loop over the routes, with the paths so far.
unfoldable pub forwarding_loop : List Route → List Text → List Text
forwarding_loop [] paths = if none_yet paths then [] ∷ [] else unique paths
forwarding_loop (r ∷ routes) paths = elim (path_step r.path_match) [
  | everything ↦ [] ∷ []
  | add p ↦ forwarding_loop routes (paths ++ (p ∷ []))
  | skip ↦ forwarding_loop routes paths
]

unfoldable pub forwarding_paths : List Route → List Text
forwarding_paths [] = [] ∷ []
forwarding_paths (r ∷ routes) = forwarding_loop (r ∷ routes) []

unfoldable pub forwarding_match_paths : List PathMatch → List Text
forwarding_match_paths matches = forwarding_paths (map (λ m. record { path_match = m }) matches)
