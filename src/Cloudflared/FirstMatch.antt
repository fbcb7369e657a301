-- ===== src/Cloudflared/FirstMatch.antt =====
-- What a tunnel answers with the ingress of compileConfig. cloudflared takes the first rule whose
-- hostname and path match a request; which do is a parameter.
use mathlib.Core.List.{Memᴰ}
use flareway.Base.{
  ◌≡◌, inl, inr, refl, sym, ap, subst, ◌∙◌, Bool, true, false, Option, none, some, List, [], ◌∷◌,
  ◌++◌, map, any, if◌then◌else◌, if_true, if_false, Bool-cases,
}
use flareway.Base.Classes.{◌==◌, nat_eq, list_eq, ==_iff}
use flareway.Base.Bytes.{Text, contains_code}
use flareway.Base.Cuts.{cut_code, cut_code_complete}
use flareway.Base.Sorting.{sort, IsSorted, sort-IsSorted, sort_member, sort_complete}
use flareway.Cloudflared.Origin.{IngressRule, ConfigBody}
use flareway.Cloudflared.Ingress.{
  Gateway, Cloudflare, DomainRule, rule_key, rule_le, ingress_rule, dedupe, catch_all,
  gateway_rules, compile_config,
}
use flareway.Cloudflared.Order.{IsAhead, rule_le-IsAhead, rule_le_total, rule_le_trans}

unfoldable pub first_match : (Text → Text → Bool) → List IngressRule → Option IngressRule
first_match matches [] = none
first_match matches (i ∷ rules) =
    if matches i.hostname i.path then some i else first_match matches rules

-- No NUL in the parts of the key.
abbrev pub IsClean : DomainRule → Type 0
IsClean r = (contains_code r.hostname 0 ≡ false) × (contains_code r.path 0 ≡ false)

same_cut :
    (a b s t : Text)
    → contains_code a 0 ≡ false
    → contains_code b 0 ≡ false
    → ◌≡◌ {A = Text} (a ++ (0 ∷ s)) (b ++ (0 ∷ t))
    → (a ≡ b) × (s ≡ t)
same_cut a b s t h k e = (cc both, cc both)
  where
    both : ◌≡◌ {A = Option (Text × Text)} (some (a, s)) (some (b, t))
    both = sym (cut_code_complete 0 a s h) ∙ ap (cut_code 0) e ∙ cut_code_complete 0 b t k

pub same_parts :
    (a b : DomainRule)
    → IsClean a
    → IsClean b
    → rule_key a ≡ rule_key b
    → (a.hostname ≡ b.hostname) × (a.path ≡ b.path) × (a.service ≡ b.service)
unfolding rule_key
same_parts a b h k e =
    let (p, rest) = same_cut a.hostname b.hostname _ _ h.0 k.0 e in
    let (q, r) = same_cut a.path b.path _ _ h.1 k.1 rest in (p, q, r)

rule_le_refl : (r : DomainRule) → rule_le r r ≡ true
rule_le_refl r = elim (Bool-cases (rule_le r r)) [ inl e ↦ e | inr e ↦ rule_le_total r r e ]

pub dedupe_member :
    (seen : List Text) (rules : List DomainRule) (r : DomainRule)
    → Memᴰ r (dedupe seen rules)
    → Memᴰ r rules
unfolding dedupe
dedupe_member seen [] r m = m
dedupe_member seen (x ∷ xs) r m = elim (Bool-cases (any (λ k. k == rule_key x) seen)) [
  | inl e ↦ Memᴰ.tail (dedupe_member seen xs r (rw (e, dedupe) at m))
  | inr e ↦ elim (rw (e, dedupe) at m) [
    | Memᴰ.head q ↦ Memᴰ.head q
    | Memᴰ.tail n ↦ Memᴰ.tail (dedupe_member (rule_key x ∷ seen) xs r n)
  ]
]

lowest :
    (x r : DomainRule) (xs : List DomainRule)
    → IsSorted rule_le (x ∷ xs)
    → Memᴰ r (x ∷ xs)
    → rule_le x r ≡ true
lowest x r xs s (Memᴰ.head q) = subst (λ z. rule_le x z ≡ true) (sym q) (rule_le_refl x)
lowest x r xs s (Memᴰ.tail n) = s.0 r n

module _ (matches : Text → Text → Bool) where
  abbrev pub Matches : DomainRule → Type 0
  Matches r = matches r.hostname r.path ≡ true

  -- A matching rule is not dropped in favour of a seen one.
  Unseen : List Text → List DomainRule → Type 0
  Unseen seen rules =
      (r : DomainRule) → Memᴰ r rules → Matches r → any (λ k. k == rule_key r) seen ≡ false

  behind :
      (x r : DomainRule) (xs : List DomainRule)
      → matches x.hostname x.path ≡ false
      → Matches r
      → Memᴰ r (x ∷ xs)
      → Memᴰ r xs
  behind x r xs e h (Memᴰ.head q) =
      absurd (cc (subst (λ z. matches z.hostname z.path ≡ true) q h, e))
  behind x r xs e h (Memᴰ.tail n) = n

  -- A rule that does not match makes no matching rule seen.
  next-Unseen :
      (x : DomainRule) (xs : List DomainRule) (seen : List Text)
      → ((r : DomainRule) → Memᴰ r (x ∷ xs) → IsClean r)
      → matches x.hostname x.path ≡ false
      → Unseen seen (x ∷ xs)
      → Unseen (rule_key x ∷ seen) xs
  unfolding Unseen
  next-Unseen x xs seen clean e un r m h = elim (Bool-cases (rule_key x == rule_key r)) [
    | inl q ↦
        let (p, w, _) =
          same_parts x r (clean x (Memᴰ.head refl)) (clean r (Memᴰ.tail m))
            ((==_iff (rule_key x) (rule_key r)).0 q) in
        absurd (cc (e, h, p, w))
    | inr q ↦ rw q (un r (Memᴰ.tail m) h)
  ]

  first_of :
      (rest : List IngressRule) (rules : List DomainRule) (seen : List Text)
      → IsSorted rule_le rules
      → ((r : DomainRule) → Memᴰ r rules → IsClean r)
      → Unseen seen rules
      → (r : DomainRule) → Memᴰ r rules
      → Matches r
      → (f : DomainRule) × Memᴰ f rules
        × (first_match matches (map ingress_rule (dedupe seen rules) ++ rest)
            ≡ some (ingress_rule f))
        × Matches f
        × ((z : DomainRule) → Memᴰ z rules → Matches z → rule_le f z ≡ true)
  unfolding dedupe first_match ingress_rule Unseen
  first_of rest [] seen s clean un r m h = elim m [ ]
  first_of rest (x ∷ xs) seen s clean un r m h = elim (Bool-cases (matches x.hostname x.path)) [
    | inl e ↦ (
      x,
      Memᴰ.head refl,
      rw (un x (Memᴰ.head refl) e, dedupe) (if_true _ _ e),
      e,
      λ z n k. lowest x z xs s n,
    )
    | inr e ↦ elim (Bool-cases (any (λ k. k == rule_key x) seen)) [
      | inl old ↦
          let (f, n, q, g, l) =
            first_of rest xs seen s.1 (λ z n. clean z (Memᴰ.tail n)) (λ z n. un z (Memᴰ.tail n)) r
              (behind x r xs e h m) h in
          (f, Memᴰ.tail n, rw (old, dedupe) q, g, λ z j c. l z (behind x z xs e c j) c)
      | inr new ↦
          let (f, n, q, g, l) =
            first_of rest xs (rule_key x ∷ seen) s.1 (λ z n. clean z (Memᴰ.tail n))
              (next-Unseen x xs seen clean e un) r (behind x r xs e h m) h in
          (
            f,
            Memᴰ.tail n,
            rw (new, dedupe) (if_false _ _ e ∙ q),
            g,
            λ z j c. l z (behind x z xs e c j) c,
          )
    ]
  ]

  nothing_before :
      (rest : List IngressRule) (rules : List DomainRule)
      → ((r : DomainRule) → Memᴰ r rules → matches r.hostname r.path ≡ false)
      → first_match matches (map ingress_rule rules ++ rest) ≡ first_match matches rest
  unfolding first_match ingress_rule
  nothing_before rest [] h = refl
  nothing_before rest (x ∷ xs) h =
      if_false _ _ (h x (Memᴰ.head refl)) ∙ nothing_before rest xs (λ r m. h r (Memᴰ.tail m))

-- If no hostname or path has a NUL and some rule of the Gateway matches a request, then the first
-- ingress rule that matches is that of a rule f of the Gateway, and against every rule of the
-- Gateway that matches: f's hostname is exact if the other's is; if both are exact or both
-- wildcards it is no shorter in bytes, and if as long not greater; and under one hostname f's
-- category is no greater (an unprotected domain, a protected one, a refusal), then its path
-- expression no shorter, then its place no later.
pub compile_config_most_specific :
    (matches : Text → Text → Bool) (g : Gateway) (c : Cloudflare)
    → ((r : DomainRule) → Memᴰ r (gateway_rules g c) → IsClean r)
    → (r : DomainRule) → Memᴰ r (gateway_rules g c)
    → matches r.hostname r.path ≡ true
    → (f : DomainRule) × Memᴰ f (gateway_rules g c)
      × (first_match matches (ConfigBody.ingress (compile_config g c)) ≡ some (ingress_rule f))
      × (matches f.hostname f.path ≡ true)
      × ((z : DomainRule)
          → Memᴰ z (gateway_rules g c)
          → matches z.hostname z.path ≡ true
          → IsAhead f z)
unfolding compile_config Unseen
compile_config_most_specific matches g c clean r m h =
    let rules = sort rule_le (gateway_rules g c) in
    let (f, n, q, k, l) =
      first_of matches (catch_all ∷ []) rules []
        (sort-IsSorted rule_le rule_le_total rule_le_trans _)
        (λ z n. clean z (sort_member rule_le z _ n)) (λ z n k. refl) r (sort_complete rule_le r _ m)
        h in
    (
      f,
      sort_member rule_le f _ n,
      q,
      k,
      λ z j e. rule_le-IsAhead f z (l z (sort_complete rule_le z _ j) e),
    )

-- A request that no rule matches is answered by the catch-all.
compile_config-catch_all :
    (matches : Text → Text → Bool) (g : Gateway) (c : Cloudflare)
    → ((r : DomainRule) → Memᴰ r (gateway_rules g c) → matches r.hostname r.path ≡ false)
    → matches [] [] ≡ true
    → first_match matches (ConfigBody.ingress (compile_config g c)) ≡ some catch_all
unfolding compile_config first_match catch_all
compile_config-catch_all matches g c h k =
    nothing_before matches (catch_all ∷ []) _
      (λ r m. h r (sort_member rule_le r _ (dedupe_member [] _ r m)))
    ∙ if_true _ _ k
