-- ===== src/GatewayApi/PairListed.antt =====
-- That a round of ComputeHosts lists what two hostnames have in common.
use mathlib.Core.List.{Memᴰ}
use flareway.Base.{
  ◌≡◌, ◌≢◌, inl, inr, refl, sym, ap, subst, ◌∙◌, true, List, [], ◌∷◌, ◌++◌, Bool-cases,
}
use flareway.Base.Classes.{◌==◌, nat_eq, list_eq, ==_iff}
use flareway.Base.Bytes.{Text, codes, is_empty, cut_prefix, has_prefix, trim_prefix}
use flareway.GatewayApi.Hostname.{
  wildcard_hostname_matches_hostname, add_wildcards, add_route_hostname,
}
use flareway.GatewayApi.Wildcards.{
  star, IsUnder, Denotes, IsConcrete, IsProper, has_prefix_sound, has_prefix_complete, concrete_iff,
  wildcard_iff,
}
use flareway.GatewayApi.Hosts.{host_self, append_split, star_none}
use flareway.GatewayApi.Intersection.{Admits, added_route, added_listener}

-- The suffix of a proper wildcard starts with a dot.
proper_dot : (p s : Text) → IsProper p → p ≡ star ++ s → (t : Text) × (s ≡ codes "." ++ t)
proper_dot p s (inl c) e = absurd (star_none s p c e)
proper_dot p s (inr h) e =
    (trim_prefix p (codes "*."), tail (sym e ∙ has_prefix_sound p (codes "*.") h))
  where
    tail :
        star ++ s ≡ codes "*." ++ trim_prefix p (codes "*.")
        → s ≡ codes "." ++ trim_prefix p (codes "*.")
    tail k = cc

dot_front : (t c l : Text) → codes "." ++ t ≡ c ++ l → c ≢ [] → has_prefix c (codes ".") ≡ true
unfolding has_prefix cut_prefix
dot_front t [] l e n = absurd (n refl)
dot_front t (d ∷ c) l e n = rw (← first) refl
  where
    first : 46 ≡ d
    first = cc

-- A wildcard contains another whose suffix ends in its own.
longer :
    (w p s r c : Text)
    → w ≡ star ++ s
    → p ≡ star ++ r
    → IsProper p
    → r ≡ c ++ s
    → c ≢ []
    → wildcard_hostname_matches_hostname w p ≡ true
longer w p s r c we pe q e n =
    let (t, d) = proper_dot p r q pe in
    let suffix = ap (λ x. trim_prefix x star) we ∙ (has_prefix_complete star s).1 in
    subst (λ x. wildcard_hostname_matches_hostname w x ≡ true) (sym pe)
      ((wildcard_iff w r).1 (c, e ∙ ap (λ x. c ++ x) (sym suffix), dot_front t c s (sym d ∙ e) n))

under_star : (w s : Text) → w ≡ star ++ s → has_prefix w star ≡ true
under_star w s e = ap (λ x. has_prefix x star) e ∙ (has_prefix_complete star s).0

under_matches :
    (w name : Text)
    → IsConcrete name
    → IsUnder w name
    → wildcard_hostname_matches_hostname w name ≡ true
under_matches w name c u = (concrete_iff w name c).1 (
  u.prefix,
  u.name_is
      ∙ ap (λ x. u.prefix ++ x)
          (sym (ap (λ x. trim_prefix x star) u.pattern_is ∙ (has_prefix_complete star u.suffix).1)),
  u.nonempty,
)

module _ (l r name : Text) (hosts : List Text) (c : IsConcrete name) where
  -- Some hostname of the set denotes the name.
  abbrev Listed : List Text → Type 0
  Listed hs = (h : Text) × Memᴰ h hs × Denotes h name

  nested :
      IsProper l
      → IsProper r
      → l ≢ r
      → (u : IsUnder l name) → (v : IsUnder r name) → Listed (add_wildcards l r hosts)
  nested pl pr n u v =
      elim (append_split u.prefix u.suffix v.prefix v.suffix (sym u.name_is ∙ v.name_is)) [
        | inl (d, p, e) ↦ (
          r,
          added_route l r hosts (under_star l u.suffix u.pattern_is) (
              longer l r u.suffix v.suffix d u.pattern_is v.pattern_is pr e (λ z. n (
                u.pattern_is
                ∙ ap (λ x. star ++ x) (sym (e ∙ ap (λ x. x ++ u.suffix) z))
                ∙ sym v.pattern_is))),
          inr v,
        )
        | inr (d, p, e) ↦ (
          l,
          added_listener l r hosts (under_star r v.suffix v.pattern_is) (
              longer r l v.suffix u.suffix d v.pattern_is u.pattern_is pl e (λ z. n (
                u.pattern_is
                ∙ ap (λ x. star ++ x) (e ∙ ap (λ x. x ++ v.suffix) z)
                ∙ sym v.pattern_is))),
          inr u,
        )
      ]

  distinct :
      IsProper l
      → IsProper r
      → l ≢ r
      → Denotes l name
      → Denotes r name
      → Listed (add_wildcards l r hosts)
  distinct pl pr n (inl e) (inl f) = absurd (n (e ∙ sym f))
  distinct pl pr n (inl e) (inr v) = (
    l,
    added_listener l r hosts (under_star r v.suffix v.pattern_is) (
        subst (λ x. wildcard_hostname_matches_hostname r x ≡ true) (sym e)
          (under_matches r name c v)),
    inl e,
  )
  distinct pl pr n (inr u) (inl f) = (
    r,
    added_route l r hosts (under_star l u.suffix u.pattern_is) (
        subst (λ x. wildcard_hostname_matches_hostname l x ≡ true) (sym f)
          (under_matches l name c u)),
    inl f,
  )
  distinct pl pr n (inr u) (inr v) = nested pl pr n u v

  pub pair_complete :
      IsProper l
      → IsProper r
      → Admits l name
      → Denotes r name
      → Listed (add_route_hostname l r hosts)
  unfolding add_route_hostname
  pair_complete pl pr a d = elim (Bool-cases (is_empty l)) [
    | inl e ↦ rw e (r, host_self r hosts, d)
    | inr e ↦ elim (Bool-cases (l == r)) [
      | inl f ↦ rw (e, f) (r, host_self r hosts, d)
      | inr f ↦
          rw (e, f)
            (distinct pl pr (λ z. cc ((==_iff l r).1 z))
              (elim a [ inl z ↦ absurd (cc (rw z at e)) | inr k ↦ k ]) d)
    ]
  ]
