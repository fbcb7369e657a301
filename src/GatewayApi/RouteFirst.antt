-- ===== src/GatewayApi/RouteFirst.antt =====
-- That the route of a host which a request meets first has precedence over all others that match it.
use mathlib.Core.List.{Memᴰ}
use flareway.Base.{
  ◌≤◌, ◌≡◌, inl, inr, sym, ap, subst, ◌∙◌, Bool, true, Option, none, some, List, [], ◌∷◌,
  if◌then◌else◌, length, Bool-cases,
}
use flareway.Base.Classes.{◌==◌, nat_eq, list_eq, ==_iff}
use flareway.Base.Durations.{int_eq}
use flareway.Base.Results.{Result, ok, ok-inj}
use flareway.Base.{get_or}
use flareway.GatewayApi.Matches.{
  HttpPathMatch, PathMatch, Unsupported, compile_path, exact, path_prefix, regular_expression,
}
use flareway.GatewayApi.Precedence.{CompiledRoute}
use flareway.GatewayApi.RouteOrder.{
  IsKnown, is_exact, is_prefix, is_regular, method_rank, prefix_length, type_rank, precedence_le,
}

-- What the precedence of the Gateway API says of two routes: by the type of the path, then by the length
-- of a prefix, then with a method first, then by the number of headers, then of query parameters.
pub record Precedes (a b : CompiledRoute) : Type 0 where
  pub by_type : type_rank a ≤ type_rank b
  pub by_length : type_rank a ≡ type_rank b → prefix_length b ≤ prefix_length a
  pub by_method :
      type_rank a ≡ type_rank b → prefix_length a ≡ prefix_length b → method_rank a ≤ method_rank b
  pub by_headers :
      type_rank a ≡ type_rank b
      → prefix_length a ≡ prefix_length b
      → method_rank a ≡ method_rank b
      → length b.match.headers ≤ length a.match.headers
  pub by_query :
      type_rank a ≡ type_rank b
      → prefix_length a ≡ prefix_length b
      → method_rank a ≡ method_rank b
      → length a.match.headers ≡ length b.match.headers
      → length b.match.query ≤ length a.match.query

-- The first route that a request matches.
unfoldable pub first_route : (CompiledRoute → Bool) → List CompiledRoute → Option CompiledRoute
first_route matches [] = none
first_route matches (r ∷ rs) =
    let rest = first_route matches rs in if matches r then some r else rest

-- The first match is there, and comes before all others.
abbrev IsFirstOf : (CompiledRoute → Bool) → List CompiledRoute → CompiledRoute → Type 0
IsFirstOf matches rs f =
    (first_route matches rs ≡ some f)
    × Memᴰ f rs
    × (matches f ≡ true)
    × ((s : CompiledRoute) → Memᴰ s rs → matches s ≡ true → precedence_le f s ≡ true)

path_inj : {a b : PathMatch} → ◌≡◌ {A = Result Unsupported PathMatch} (ok a) (ok b) → a ≡ b
path_inj h = ok-inj h

-- The routes of compileMatch are of these types.
compile_path-IsKnown :
    (m : Option HttpPathMatch) (p : PathMatch) → compile_path m ≡ ok p → IsKnown p.kind
unfolding compile_path
compile_path-IsKnown none p h = subst IsKnown (ap (λ r. r.kind) (path_inj h)) is_prefix
compile_path-IsKnown (some m) p h =
    let kind = get_or m.kind path_prefix in
    elim (Bool-cases (kind == path_prefix)) [
      | inl e ↦
          subst IsKnown
            (sym ((==_iff kind path_prefix).0 e)
              ∙ ap (λ r. r.kind) (path_inj (rw (e, compile_path) at h)))
            is_prefix
      | inr e ↦ elim (Bool-cases (kind == exact)) [
        | inl f ↦
            subst IsKnown
              (sym ((==_iff kind exact).0 f)
                ∙ ap (λ r. r.kind) (path_inj (rw (e, f, compile_path) at h)))
              is_exact
        | inr f ↦ elim (Bool-cases (kind == regular_expression)) [
          | inl g ↦
              subst IsKnown
                (sym ((==_iff kind regular_expression).0 g)
                  ∙ ap (λ r. r.kind) (path_inj (rw (e, f, g, compile_path) at h)))
                is_regular
          | inr g ↦ absurd (cc (rw (e, f, g, compile_path) at h))
        ]
      ]
    ]
