-- ===== src/GatewayApi/OldestPolicy.antt =====
-- Which BackendTLSPolicy winningBackendTLSPolicy chooses for a Service port.
use mathlib.Core.List.{Memᴰ}
use flareway.Base.{
  ◌≡◌, ◌↔◌, ◌⊎◌, inl, inr, refl, ap, ◌∙◌, true, false, Option, none, some, String, List, [], any,
  Bool-cases, Option-cases,
}
use flareway.Base.Classes.{◌==◌, string_eq}
use flareway.Base.Sorting.{sort}
use flareway.GatewayApi.TlsPolicies.{
  Service, ServicePort, BackendTlsPolicy, Matched, match_policies, match_targets, policy_le,
  matching_backend_tls_policies, first_of, winning_backend_tls_policy,
}
use flareway.GatewayApi.PolicyOrder.{IsOlder, first_sort, nothing_sorted, prefer-cases}
use flareway.GatewayApi.PolicyTargets.{
  Targets, is_target-Targets, is_target, sound_sections, complete_sections, wholes_iff, collected,
}

module _ (policies : List BackendTlsPolicy) (service : Service) (port : ServicePort) where
  -- The winner targets the port's section, or the Service where no policy targets the section; and it is
  -- the oldest of all that target the same.
  pub record Wins (w : BackendTlsPolicy) : Type 0 where
    pub listed : Memᴰ w policies
    pub section : Option String
    pub preferred :
        (section ≡ some port.name)
        ⊎ ((section ≡ none)
            × ((p : BackendTlsPolicy) → Memᴰ p policies → ¬ Targets service (some port.name) p))
    pub targets : Targets service section w
    pub oldest : (p : BackendTlsPolicy) → Memᴰ p policies → Targets service section p → IsOlder w p

  -- No policy targets both a section of the Service and the Service.
  abbrev pub AreSeparate : Type 0
  AreSeparate =
      (p : BackendTlsPolicy)
      → Memᴰ p policies
      → ¬ (Targets service (some port.name) p × Targets service none p)

  not_whole :
      (p : BackendTlsPolicy)
      → AreSeparate
      → Memᴰ p policies
      → (p.namespace == service.namespace) ≡ true
      → any (is_target service (some port.name)) p.target_refs ≡ true
      → any (is_target service none) p.target_refs ≡ false
  not_whole p separate m e k = elim (Bool-cases (any (is_target service none) p.target_refs)) [
    | inl f ↦ absurd (
        separate p m (
          (is_target-Targets service (some port.name) p).0 (e, k),
          (is_target-Targets service none p).0 (e, f),
        ))
    | inr f ↦ f
  ]

  -- What one of the two lists has.
  targeting_iff :
      (list : Matched → List BackendTlsPolicy) (section : Option String) (q : BackendTlsPolicy)
      → list ([], []) ≡ []
      → ((p : BackendTlsPolicy)
          → Memᴰ p policies
          → (p.namespace == service.namespace) ≡ true
          → (n : Matched)
          → Memᴰ q (list (match_targets service port p p.target_refs n)) ↔ (
              Memᴰ q (list n) ⊎ ((q ≡ p) × (any (is_target service section) p.target_refs ≡ true))))
      → Memᴰ q (list (match_policies service port policies ([], [])))
        ↔ (Memᴰ q policies × Targets service section q)
  targeting_iff list section q empty f =
      let all = collected service port list _ q policies ([], []) f in
      (
        λ k. elim (all.0 k) [
          | inl m ↦ elim (rw empty at m) [ ]
          | inr (m, e, h) ↦ (m, (is_target-Targets service section q).0 (e, h))
        ],
        λ (m, t). let (e, h) = (is_target-Targets service section q).1 t in all.1 (inr (m, e, h)),
      )

  sections_iff :
      (q : BackendTlsPolicy)
      → AreSeparate
      → Memᴰ q (match_policies service port policies ([], [])).0
        ↔ (Memᴰ q policies × Targets service (some port.name) q)
  sections_iff q separate =
      targeting_iff (λ m. m.0) (some port.name) q refl
        (λ p m e n. (
          sound_sections service port p q p.target_refs n.0 n.1,
          λ h.
              complete_sections service port p q p.target_refs n.0 n.1
                (elim h [ inl k ↦ inl k | inr (x, k) ↦ inr (x, k, not_whole p separate m e k) ]),
        ))

  services_iff :
      (q : BackendTlsPolicy)
      → Memᴰ q (match_policies service port policies ([], [])).1
        ↔ (Memᴰ q policies × Targets service none q)
  services_iff q =
      targeting_iff (λ m. m.1) none q refl
        (λ p m e n. wholes_iff service port p q p.target_refs n.0 n.1)

  -- The winner of a list that has all the policies of a section.
  chosen-Wins :
      (ps : List BackendTlsPolicy) (section : Option String) (w : BackendTlsPolicy)
      → (section ≡ some port.name)
        ⊎ ((section ≡ none)
            × ((p : BackendTlsPolicy) → Memᴰ p policies → ¬ Targets service (some port.name) p))
      → ((q : BackendTlsPolicy) → Memᴰ q ps ↔ (Memᴰ q policies × Targets service section q))
      → first_of (sort policy_le ps) ≡ some w
      → Wins w
  chosen-Wins ps section w preferred f e =
      let (m, older) = first_sort ps w e in
      let (n, t) = (f w).0 m in
      record {
        listed = n;
        section = section;
        preferred = preferred;
        targets = t;
        oldest = λ p k u. older p ((f p).1 (k, u));
      }

  -- If no BackendTLSPolicy targets both the port's section of a Service and the whole Service, then
  -- either winningBackendTLSPolicy chooses a policy that targets the section, or the whole Service
  -- where none targets the section, and that is the oldest of those that target the same, by name
  -- where several are as old; or it chooses none, and no policy targets either.
  pub winning_backend_tls_policy-Wins :
      AreSeparate
      → ((w : BackendTlsPolicy) × (winning_backend_tls_policy policies service port ≡ some w)
          × Wins w)
        ⊎ ((winning_backend_tls_policy policies service port ≡ none)
            × ((p : BackendTlsPolicy)
                → Memᴰ p policies
                → (¬ Targets service (some port.name) p) × (¬ Targets service none p)))
  unfolding winning_backend_tls_policy matching_backend_tls_policies
  winning_backend_tls_policy-Wins separate =
      let m = match_policies service port policies ([], []) in
      let no_section : (p : BackendTlsPolicy)
          → m.0 ≡ []
          → Memᴰ p policies
          → ¬ Targets service (some port.name) p =
        λ p f k t. elim (rw f at (sections_iff p separate).1 (k, t)) [ ] in
      elim (prefer-cases m.0 m.1) [
        | inl (e, x, k) ↦ elim (Option-cases (first_of (sort policy_le m.0))) [
          | inl n ↦ absurd (nothing_sorted m.0 x n k)
          | inr (w, n) ↦ inl (
            w,
            ap (λ z. first_of (sort policy_le z)) e ∙ n,
            chosen-Wins m.0 (some port.name) w (inl refl) (λ q. sections_iff q separate) n,
          )
        ]
        | inr (e, f) ↦ elim (Option-cases (first_of (sort policy_le m.1))) [
          | inl n ↦ inr (
            ap (λ z. first_of (sort policy_le z)) e ∙ n,
            λ p k. (no_section p f k, λ t. nothing_sorted m.1 p n ((services_iff p).1 (k, t))),
          )
          | inr (w, n) ↦ inl (
            w,
            ap (λ z. first_of (sort policy_le z)) e ∙ n,
            chosen-Wins m.1 none w (inr (refl, λ p. no_section p f)) services_iff n,
          )
        ]
      ]
