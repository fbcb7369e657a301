-- ===== src/GatewayApi/PolicyTargets.antt =====
-- What the loops of matchingBackendTLSPolicies collect for a Service port.
use mathlib.Core.List.{Memᴰ}
use flareway.Base.{
  ◌≡◌, ◌↔◌, ◌⊎◌, inl, inr, refl, sym, ap, Bool, true, false, ◌&&◌, Option, none, some, String, List,
  [], ◌∷◌, ◌++◌, arith, any, any_sound, any_complete, Bool-cases, Option-cases, append_member,
  append_left, append_right,
}
use flareway.Base.Classes.{◌==◌, string_eq, ==_iff}
use flareway.GatewayApi.TlsPolicies.{
  Service, ServicePort, TargetRef, BackendTlsPolicy, Matched, names_service, match_targets,
  match_policies,
}

-- The policy stands in the Service's namespace and targets it, by this section name or none.
pub record Targets (service : Service) (section : Option String) (policy : BackendTlsPolicy)
    : Type 0 where
  pub namespace : policy.namespace ≡ service.namespace
  pub target : TargetRef
  pub listed : Memᴰ target policy.target_refs
  pub group : target.group ≡ ""
  pub kind : target.kind ≡ "Service"
  pub name : target.name ≡ service.name
  pub section_name : target.section_name ≡ section

same_section : Option String → Option String → Bool
same_section none none = true
same_section (some a) (some b) = a == b
same_section none (some b) = false
same_section (some a) none = false

same_section_iff : (a b : Option String) → (same_section a b ≡ true) ↔ (a ≡ b)
unfolding same_section
same_section_iff none none = (λ h. refl, λ e. refl)
same_section_iff (some a) (some b) = (λ h. ap some ((==_iff a b).0 h), λ e. (==_iff a b).1 (cc))
same_section_iff none (some b) = (λ h. absurd (cc), λ e. absurd (cc))
same_section_iff (some a) none = (λ h. absurd (cc), λ e. absurd (cc))

one_more_iff :
    (q p : BackendTlsPolicy) (xs : List BackendTlsPolicy)
    → Memᴰ q (xs ++ (p ∷ [])) ↔ (Memᴰ q xs ⊎ (q ≡ p))
one_more_iff q p xs = (
  λ m. elim (append_member xs (p ∷ []) m) [
    | inl k ↦ inl k
    | inr k ↦ elim k [ Memᴰ.head e ↦ inr e | Memᴰ.tail n ↦ elim n [ ] ]
  ],
  λ h. elim h [
    | inl k ↦ append_left xs (p ∷ []) k
    | inr e ↦ append_right xs (p ∷ []) (Memᴰ.head e)
  ],
)

module _ (service : Service) where
  pub is_target : Option String → TargetRef → Bool
  is_target section target =
      names_service service target && same_section target.section_name section

  pub is_target-Targets :
      (section : Option String) (p : BackendTlsPolicy)
      → (((p.namespace == service.namespace) ≡ true)
          × (any (is_target section) p.target_refs ≡ true))
        ↔ Targets service section p
  unfolding is_target names_service
  is_target-Targets section p = (
    λ (n, h).
        let (t, m, e) = any_sound (is_target section) p.target_refs h in
        record {
          namespace = (==_iff p.namespace service.namespace).0 n;
          target = t;
          listed = m;
          group = (==_iff t.group "").0 (ground arith);
          kind = (==_iff t.kind "Service").0 (ground arith);
          name = (==_iff t.name service.name).0 (ground arith);
          section_name = (same_section_iff t.section_name section).0 (ground arith);
        },
    λ k. (
      (==_iff p.namespace service.namespace).1 k.namespace,
      any_complete (is_target section) k.target p.target_refs k.listed (
          rw
            (
              (==_iff k.target.group "").1 k.group,
              (==_iff k.target.kind "Service").1 k.kind,
              (==_iff k.target.name service.name).1 k.name,
              (same_section_iff k.target.section_name section).1 k.section_name,
            )
            refl),
    ),
  )

  module _ (port : ServicePort) where
    -- One target of a policy: it matches neither way, by the port's section, or as the whole Service.
    Next :
        BackendTlsPolicy
        → TargetRef
        → List TargetRef
        → List BackendTlsPolicy
        → List BackendTlsPolicy
        → Bool
        → Bool
        → Matched
        → Type 0
    Next p t ts s w whole section result =
        (match_targets service port p (t ∷ ts) (s, w) ≡ result)
        × (is_target none t ≡ whole)
        × (is_target (some port.name) t ≡ section)

    one_target_matched :
        (p : BackendTlsPolicy) (t : TargetRef) (ts : List TargetRef) (s w : List BackendTlsPolicy)
        → Next p t ts s w false false (match_targets service port p ts (s, w))
          ⊎ (Next p t ts s w false true (match_targets service port p ts (s ++ (p ∷ []), w))
              ⊎ Next p t ts s w true false (s, w ++ (p ∷ [])))
    unfolding match_targets is_target same_section Next
    one_target_matched p t ts s w = elim (Bool-cases (names_service service t)) [
      | inr e ↦ inl (rw e (refl, refl, refl))
      | inl e ↦ elim (Option-cases t.section_name) [
        | inl f ↦ inr (inr (rw (e, f) (refl, refl, refl)))
        | inr (n, f) ↦ elim (Bool-cases (n == port.name)) [
          | inl g ↦ inr (inl (rw (e, f) (rw g (refl, refl, refl))))
          | inr g ↦ inl (rw (e, f) (rw g (refl, refl, refl)))
        ]
      ]
    ]

    pub sound_sections :
        (p q : BackendTlsPolicy) (ts : List TargetRef) (s w : List BackendTlsPolicy)
        → Memᴰ q (match_targets service port p ts (s, w)).0
        → Memᴰ q s ⊎ ((q ≡ p) × (any (is_target (some port.name)) ts ≡ true))
    unfolding match_targets Next
    sound_sections p q [] s w m = inl m
    sound_sections p q (t ∷ ts) s w m = elim (one_target_matched p t ts s w) [
      | inl (e, f, g) ↦ rw g (sound_sections p q ts s w (rw e at m))
      | inr (inl (e, f, g)) ↦ elim (sound_sections p q ts (s ++ (p ∷ [])) w (rw e at m)) [
        | inr (x, k) ↦ inr (x, rw g refl)
        | inl k ↦ elim ((one_more_iff q p s).0 k) [ inl l ↦ inl l | inr x ↦ inr (x, rw g refl) ]
      ]
      | inr (inr (e, f, g)) ↦ inl (rw e at m)
    ]

    pub complete_sections :
        (p q : BackendTlsPolicy) (ts : List TargetRef) (s w : List BackendTlsPolicy)
        → Memᴰ q s
          ⊎ ((q ≡ p)
              × (any (is_target (some port.name)) ts ≡ true)
              × (any (is_target none) ts ≡ false))
        → Memᴰ q (match_targets service port p ts (s, w)).0
    unfolding match_targets Next
    complete_sections p q [] s w (inl m) = m
    complete_sections p q [] s w (inr e) = absurd (cc)
    complete_sections p q (t ∷ ts) s w h = elim (one_target_matched p t ts s w) [
      | inl (e, f, g) ↦ rw e (complete_sections p q ts s w (rw (f, g) at h))
      | inr (inl (e, f, g)) ↦ rw e (
          complete_sections p q ts (s ++ (p ∷ [])) w
            (inl ((one_more_iff q p s).1 (elim h [ inl m ↦ inl m | inr (x, k, n) ↦ inr x ]))))
      | inr (inr (e, f, g)) ↦ rw e (elim h [ inl m ↦ m | inr (x, k, n) ↦ absurd (cc (rw f at n)) ])
    ]

    pub wholes_iff :
        (p q : BackendTlsPolicy) (ts : List TargetRef) (s w : List BackendTlsPolicy)
        → Memᴰ q (match_targets service port p ts (s, w)).1
          ↔ (Memᴰ q w ⊎ ((q ≡ p) × (any (is_target none) ts ≡ true)))
    unfolding match_targets Next
    wholes_iff p q [] s w = (λ m. inl m, λ h. elim h [ inl m ↦ m | inr e ↦ absurd (cc) ])
    wholes_iff p q (t ∷ ts) s w = elim (one_target_matched p t ts s w) [
      | inl (e, f, g) ↦ rw (e, f) (wholes_iff p q ts s w)
      | inr (inl (e, f, g)) ↦ rw (e, f) (wholes_iff p q ts (s ++ (p ∷ [])) w)
      | inr (inr (e, f, g)) ↦
          rw (e, f)
            (
              λ m. elim ((one_more_iff q p w).0 m) [ inl l ↦ inl l | inr x ↦ inr (x, refl) ],
              λ h. (one_more_iff q p w).1 (elim h [ inl m ↦ inl m | inr (x, k) ↦ inr x ]),
            )
    ]

    -- Over the policies, for one of the two lists.
    pub collected :
        (list : Matched → List BackendTlsPolicy) (P : BackendTlsPolicy → Type 0)
        (q : BackendTlsPolicy) (ps : List BackendTlsPolicy) (m : Matched)
        → ((p : BackendTlsPolicy)
            → Memᴰ p ps
            → (p.namespace == service.namespace) ≡ true
            → (n : Matched)
            → Memᴰ q (list (match_targets service port p p.target_refs n))
              ↔ (Memᴰ q (list n) ⊎ ((q ≡ p) × P p)))
        → Memᴰ q (list (match_policies service port ps m))
          ↔ (Memᴰ q (list m) ⊎ (Memᴰ q ps × ((q.namespace == service.namespace) ≡ true) × P q))
    unfolding match_policies
    collected list P q [] m f = (λ k. inl k, λ h. elim h [ inl k ↦ k | inr (k, n, c) ↦ elim k [ ] ])
    collected list P q (p ∷ ps) m f = elim (Bool-cases (p.namespace == service.namespace)) [
      | inr e ↦
          let rest = collected list P q ps m (λ x n. f x (Memᴰ.tail n)) in
          rw e (
            λ k. elim (rest.0 k) [ inl l ↦ inl l | inr (n, x, c) ↦ inr (Memᴰ.tail n, x, c) ],
            λ h. rest.1 (elim h [ inl l ↦ inl l | inr (n, x, c) ↦ inr (elsewhere e n x, x, c) ]),
          )
      | inl e ↦
          let one = f p (Memᴰ.head refl) e m in
          let rest =
            collected list P q ps (match_targets service port p p.target_refs m)
              (λ x n. f x (Memᴰ.tail n)) in
          rw e (
            λ k. elim (rest.0 k) [
              | inr (n, x, c) ↦ inr (Memᴰ.tail n, x, c)
              | inl l ↦ elim (one.0 l) [
                | inl a ↦ inl a
                | inr (x, c) ↦ inr (Memᴰ.head x, rw x e, rw x c)
              ]
            ],
            λ h. rest.1 (elim h [
              | inl l ↦ inl (one.1 (inl l))
              | inr (n, x, c) ↦ elim n [
                | Memᴰ.head y ↦ inl (one.1 (inr (y, rw (sym y) c)))
                | Memᴰ.tail k ↦ inr (k, x, c)
              ]
            ]),
          )
    ]
      where
        elsewhere :
            (p.namespace == service.namespace) ≡ false
            → Memᴰ q (p ∷ ps)
            → (q.namespace == service.namespace) ≡ true
            → Memᴰ q ps
        elsewhere e (Memᴰ.head y) x =
            let z : q.namespace ≡ p.namespace = ap (λ r. r.namespace) y in absurd (cc)
        elsewhere e (Memᴰ.tail k) x = k
