-- ===== src/GatewayApi/Compiled.antt =====
-- What compileMatch makes of a match.
use mathlib.Core.List.{Memᴰ}
use flareway.Base.{ℕ, ◌≡◌, ◌↔◌, refl, sym, ap, subst, ◌∙◌, true, false, List, [], arith, map}
use flareway.Base.Classes.{nat_eq, list_eq}
use flareway.Base.Bytes.{Text, text_le}
use flareway.Base.Results.{Result, ok, passed}
use flareway.Base.Sorting.{sort, IsSorted, sort_member, sort_complete, sort-IsSorted}
use flareway.GatewayApi.Matches.{
  NamedMatch, HttpRouteMatch, PathMatch, Entry, CompiledMatch, Unsupported, header_type, query_type,
  compile_path, compile_named, entry_le, compile_match,
}
use flareway.Base.Comparisons.{level, level_total, level_trans, text_lt_asym, no_lt_trans}
use flareway.GatewayApi.FirstNamed.{is_seen, IsFirst, named_sound, named_complete, AllSupported}

value_total : (s t : Text) → text_le s t ≡ false → text_le t s ≡ true
unfolding text_le
value_total s t h = ground (arith, text_lt_asym t s)

value_trans : (s t u : Text) → text_le s t ≡ true → text_le t u ≡ true → text_le s u ≡ true
unfolding text_le
value_trans s t u h k = ground (arith, no_lt_trans s t u)

entry_le_total : (a b : Entry) → entry_le a b ≡ false → entry_le b a ≡ true
unfolding entry_le level
entry_le_total a b h =
    level_total a.name b.name _ _
      (λ p. level_total a.kind b.kind _ _ (λ q. value_total a.value b.value q) p) h

entry_le_trans : (a b c : Entry) → entry_le a b ≡ true → entry_le b c ≡ true → entry_le a c ≡ true
unfolding entry_le level
entry_le_trans a b c h k =
    level_trans a.name b.name c.name _ _ _
      (λ p q.
        level_trans a.kind b.kind c.kind _ _ _ (λ u v. value_trans a.value b.value c.value u v) p q)
      h k

-- The entries of one list, in order, and those of the first matches of their names.
abbrev pub IsCompiled : (Text → Text) → List NamedMatch → List Entry → Type 0
IsCompiled norm ms es = ((x : Entry) → Memᴰ x es ↔ IsFirst norm ms x) × IsSorted entry_le es

sorted-IsCompiled :
    (norm : Text → Text) (reason : Text → Unsupported) (ms : List NamedMatch) (es : List Entry)
    → compile_named norm reason [] ms ≡ ok es
    → IsCompiled norm ms (sort entry_le es)
unfolding is_seen
sorted-IsCompiled norm reason ms es h = (
  λ x. (
    λ m. (named_sound norm reason [] ms es x h (sort_member entry_le x es m)).1,
    λ f. sort_complete entry_le x es (named_complete norm reason [] ms es x h refl f),
  ),
  sort-IsSorted entry_le entry_le_total entry_le_trans es,
)

compiled_inj :
    {a b : CompiledMatch} → ◌≡◌ {A = Result Unsupported CompiledMatch} (ok a) (ok b) → a ≡ b
compiled_inj h = cc

-- Where compileMatch succeeds, the path is the compiled path, the method is the match's, and the
-- headers and the query parameters are each in ascending order and have exactly the entries of the
-- first header of each name, without regard to its case, and of the first query parameter of each
-- name.
pub compile_match-IsCompiled :
    (lower : ℕ → ℕ) (m : HttpRouteMatch) (c : CompiledMatch)
    → compile_match lower m ≡ ok c
    → (compile_path m.path ≡ ok c.path)
      × IsCompiled (map lower) m.headers c.headers
      × IsCompiled (λ name. name) m.query_params c.query
      × (c.method ≡ m.method)
unfolding compile_match
compile_match-IsCompiled lower m c h =
    let (path, e, h1) = passed (compile_path m.path) _ h in
    let (headers, f, h2) = passed (compile_named (map lower) header_type [] m.headers) _ h1 in
    let (query, g, h3) = passed (compile_named (λ name. name) query_type [] m.query_params) _ h2 in
    let q = compiled_inj h3 in
    (
      e ∙ ap (λ r. ok r.path) q,
      subst (λ r. IsCompiled (map lower) m.headers r.headers) q
          (sorted-IsCompiled (map lower) header_type m.headers headers f),
      subst (λ r. IsCompiled (λ name. name) m.query_params r.query) q
          (sorted-IsCompiled (λ name. name) query_type m.query_params query g),
      ap (λ r. r.method) (sym q),
    )

-- What compileMatch asks of a match.
abbrev pub IsSupported : (ℕ → ℕ) → HttpRouteMatch → Type 0
IsSupported lower m =
    ((p : PathMatch) × (compile_path m.path ≡ ok p))
    × AllSupported (map lower) header_type [] m.headers
    × AllSupported (λ name. name) query_type [] m.query_params
