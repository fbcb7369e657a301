-- ===== src/Cloudflared/Accepted.antt =====
-- What compileDirectConfig accepts, and what it makes of it.
use flareway.Base.{
  ℕ, suc, ◌≡◌, ◌↔◌, refl, sym, ap, subst, ◌∙◌, Bool, true, false, not, ◌&&◌, ◌||◌, Option, List, [],
  ◌∷◌,
}
use flareway.Base.Results.{ok, refuse_if, passed, refuse_if-eq-ok, ok-inj}
use flareway.Base.Bytes.{Text, is_empty}
use flareway.Cloudflared.Origin.{IngressRule, ConfigBody, direct_origin, direct_warp_routing}
use flareway.Cloudflared.Names.{validate_hostname}
use flareway.Cloudflared.Service.{ServiceKind, compile_service, is_http_service}
use flareway.Cloudflared.Errors.{not_catch_all, early_catch_all, bad_path, ingress_empty}
use flareway.Cloudflared.Direct.{
  TunnelIngress, TunnelConfiguration, is_catch_all, is_last, is_bastion, has_access,
  rules_without_socks, validate_origin_request, validate_warp_routing, finish_rule, compile_rule,
  compile_rules, compile_direct_config,
}
use flareway.Cloudflared.Refusals.{refuse-pass, agree, unrefused, either, apart, apart', neither}

module _ (parses_regexp parses_cidr : Text → Bool) where
  -- The conditions on one rule, and its wire form.
  pub record RuleFor (r : TunnelIngress) (i : IngressRule) : Type 0 where
    pub kind : Option ServiceKind
    pub host : validate_hostname r.hostname ≡ true
    pub path : (is_empty r.path || parses_regexp r.path) ≡ true
    pub served : compile_service r.service ≡ ok (i.service, kind)
    pub origin : validate_origin_request parses_regexp parses_cidr r.origin_request ≡ ok tt
    pub access : (has_access r.origin_request && not (is_http_service kind)) ≡ false
    pub rules : (not (is_bastion kind) && rules_without_socks r.origin_request) ≡ false
    pub wire : i ≡ record {
      hostname = r.hostname;
      path = r.path;
      service = i.service;
      origin_request = direct_origin r.origin_request;
    }

  -- The rules in their order; the last and no other has neither hostname nor path.
  abbrev pub Translates : List TunnelIngress → List IngressRule → Type 0
  Translates [] is = ⊥
  Translates (r ∷ rs) [] = ⊥
  Translates (r ∷ []) (i ∷ is) = (is_catch_all r ≡ true) × RuleFor r i × (is ≡ [])
  Translates (r ∷ s ∷ rs) (i ∷ is) = (is_catch_all r ≡ false) × RuleFor r i × Translates (s ∷ rs) is

  some_rule :
      (rs : List TunnelIngress) (is : List IngressRule) → Translates rs is → is_last rs ≡ false
  some_rule [] is t = absurd t
  some_rule (r ∷ rs) is t = refl

  finish_sound :
      (r : TunnelIngress) (service : Text) (kind : Option ServiceKind) (i : IngressRule)
      → finish_rule parses_regexp parses_cidr r (service, kind) ≡ ok i
      → (validate_origin_request parses_regexp parses_cidr r.origin_request ≡ ok tt)
        × ((has_access r.origin_request && not (is_http_service kind)) ≡ false)
        × ((not (is_bastion kind) && rules_without_socks r.origin_request) ≡ false)
        × (i ≡ record {
          hostname = r.hostname;
          path = r.path;
          service = service;
          origin_request = direct_origin r.origin_request;
        })
  unfolding finish_rule
  finish_sound r service kind i h =
      let (_, p, q) =
        passed (validate_origin_request parses_regexp parses_cidr r.origin_request) _ h in
      let (_, s, t) =
        passed (refuse_if (has_access r.origin_request && not (is_http_service kind)) _) _ q in
      let (_, u, v) =
        passed (refuse_if (not (is_bastion kind) && rules_without_socks r.origin_request) _) _ t in
      (p, refuse_if-eq-ok _ _ s, refuse_if-eq-ok _ _ u, sym (ok-inj v))

  rule_sound :
      (index : ℕ) (last : Bool) (r : TunnelIngress) (i : IngressRule)
      → compile_rule parses_regexp parses_cidr index last r ≡ ok i
      → (is_catch_all r ≡ last) × RuleFor r i
  unfolding compile_rule
  rule_sound index last r i h =
      let (_, a, h1) = passed (refuse_if (last && not (is_catch_all r)) _) _ h in
      let (_, b, h2) = passed (refuse_if (not last && is_catch_all r) _) _ h1 in
      let (_, c, h3) = passed (refuse_if (not (validate_hostname r.hostname)) _) _ h2 in
      let (_, d, h4) =
        passed (refuse_if (not (is_empty r.path) && not (parses_regexp r.path)) _) _ h3 in
      let ((service, kind), e, h5) = passed (compile_service r.service) _ h4 in
      let (o, x, y, w) = finish_sound r service kind i h5 in
      let named : service ≡ i.service = sym (ap IngressRule.service w) in
      (
        agree last (is_catch_all r) (refuse_if-eq-ok _ _ a) (refuse_if-eq-ok _ _ b),
        record {
          kind = kind;
          host = unrefused _ (refuse_if-eq-ok _ _ c);
          path = either _ _ (refuse_if-eq-ok _ _ d);
          served = e ∙ ap (λ s. ok (s, kind)) named;
          origin = o;
          access = x;
          rules = y;
          wire =
              w
              ∙ ap
                  (λ s. record {
                    hostname = r.hostname;
                    path = r.path;
                    service = s;
                    origin_request = direct_origin r.origin_request;
                  })
                  named;
        },
      )

  rule_complete :
      (index : ℕ) (last : Bool) (r : TunnelIngress) (i : IngressRule)
      → is_catch_all r ≡ last
      → RuleFor r i
      → compile_rule parses_regexp parses_cidr index last r ≡ ok i
  unfolding compile_rule finish_rule
  rule_complete index last r i c f =
      rw
        (
          refuse-pass (last && not (is_catch_all r)) (not_catch_all index) (apart last _ c),
          refuse-pass (not last && is_catch_all r) (early_catch_all index) (apart' last _ c),
          f.host,
          refuse-pass (not (is_empty r.path) && not (parses_regexp r.path)) bad_path
              (neither _ _ f.path),
          f.served,
          f.origin,
          f.access,
          f.rules,
        )
        (ap ok (sym f.wire))

  rules_sound :
      (index : ℕ) (rs : List TunnelIngress) (is : List IngressRule)
      → is_last rs ≡ false
      → compile_rules parses_regexp parses_cidr index rs ≡ ok is
      → Translates rs is
  unfolding compile_rules
  rules_sound index [] is n h = absurd (cc)
  rules_sound index (r ∷ []) is n h =
      let (i, p, q) = passed (compile_rule parses_regexp parses_cidr index true r) _ h in
      let (c, f) = rule_sound index true r i p in
      subst (Translates (r ∷ [])) (ok-inj q) (c, f, refl)
  rules_sound index (r ∷ s ∷ rs) is n h =
      let (i, p, q) = passed (compile_rule parses_regexp parses_cidr index false r) _ h in
      let (js, u, v) = passed (compile_rules parses_regexp parses_cidr (suc index) (s ∷ rs)) _ q in
      let (c, f) = rule_sound index false r i p in
      subst (Translates (r ∷ s ∷ rs)) (ok-inj v) (c, f, rules_sound (suc index) (s ∷ rs) js refl u)

  rules_complete :
      (index : ℕ) (rs : List TunnelIngress) (is : List IngressRule)
      → Translates rs is
      → compile_rules parses_regexp parses_cidr index rs ≡ ok is
  unfolding compile_rules
  rules_complete index [] is t = absurd t
  rules_complete index (r ∷ []) [] t = absurd t
  rules_complete index (r ∷ []) (i ∷ is) (c, f, e) =
      rw (rule_complete index true r i c f) (ap (λ x. ok (i ∷ x)) (sym e))
  rules_complete index (r ∷ s ∷ rs) [] t = absurd t
  rules_complete index (r ∷ s ∷ rs) (i ∷ is) (c, f, t) =
      rw (rule_complete index false r i c f) (rw (rules_complete (suc index) (s ∷ rs) is t) refl)

  -- For any acceptance of regular expressions and CIDRs, compileDirectConfig succeeds with a
  -- configuration exactly if the ingress rules are translated one by one in their order, the last
  -- and no other has neither hostname nor path, each has a valid hostname, path, service and
  -- origin, Access only on HTTP services and IP rules only on bastion or SOCKS5 ones, and the
  -- default origin and the WARP settings are valid and translated.
  pub compile_direct_config_iff :
      (c : TunnelConfiguration) (body : ConfigBody)
      → (compile_direct_config parses_regexp parses_cidr c ≡ ok body) ↔ (
          Translates c.ingress body.ingress
          × (validate_origin_request parses_regexp parses_cidr c.origin_request ≡ ok tt)
          × (validate_warp_routing c.warp_routing ≡ ok tt)
          × (body.origin_request ≡ direct_origin c.origin_request)
          × (body.warp_routing ≡ direct_warp_routing c.warp_routing))
  unfolding compile_direct_config
  compile_direct_config_iff c body = (sound, complete)
    where
      sound :
          compile_direct_config parses_regexp parses_cidr c ≡ ok body
          → Translates c.ingress body.ingress
            × (validate_origin_request parses_regexp parses_cidr c.origin_request ≡ ok tt)
            × (validate_warp_routing c.warp_routing ≡ ok tt)
            × (body.origin_request ≡ direct_origin c.origin_request)
            × (body.warp_routing ≡ direct_warp_routing c.warp_routing)
      sound h =
          let (_, a, h1) = passed (refuse_if (is_last c.ingress) _) _ h in
          let (_, b, h2) =
            passed (validate_origin_request parses_regexp parses_cidr c.origin_request) _ h1 in
          let (_, w, h3) = passed (validate_warp_routing c.warp_routing) _ h2 in
          let (is, d, h4) = passed (compile_rules parses_regexp parses_cidr 0 c.ingress) _ h3 in
          let e = ok-inj h4 in
          (
            subst (Translates c.ingress) (ap ConfigBody.ingress e)
                (rules_sound 0 c.ingress is (refuse_if-eq-ok _ _ a) d),
            b,
            w,
            sym (ap ConfigBody.origin_request e),
            sym (ap ConfigBody.warp_routing e),
          )

      complete :
          (Translates c.ingress body.ingress
            × (validate_origin_request parses_regexp parses_cidr c.origin_request ≡ ok tt)
            × (validate_warp_routing c.warp_routing ≡ ok tt)
            × (body.origin_request ≡ direct_origin c.origin_request)
            × (body.warp_routing ≡ direct_warp_routing c.warp_routing))
          → compile_direct_config parses_regexp parses_cidr c ≡ ok body
      complete (t, b, w, o, p) =
          rw
            (
              refuse-pass (is_last c.ingress) ingress_empty (some_rule c.ingress body.ingress t),
              b,
              w,
              rules_complete 0 c.ingress body.ingress t,
            )
            cc
