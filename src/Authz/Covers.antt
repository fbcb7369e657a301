-- ===== src/Authz/Covers.antt =====
-- Which hostnames a pattern of internal/authz/evaluate.go covers.
use flareway.Base.{
  ℕ, ◌≡◌, ◌≢◌, ◌↔◌, ◌⊎◌, inl, inr, refl, sym, ap, subst, ◌∙◌, true, false, not, [], ◌∷◌, ◌++◌,
  arith, Bool-cases, if_same, Option-cases,
}
use flareway.Base.Classes.{◌==◌, nat_eq, list_eq, ==_iff}
use flareway.Base.Bytes.{
  Text, codes, is_empty, cut_prefix, has_prefix, trim_prefix, trim_suffix, contains_code,
  cut_prefix_sound, has_suffix_sound, has_suffix_complete,
}
use flareway.Authz.Names.{
  is_label, matches_suffix, matches_normalized, normalize_dns_name, hostname_matches,
}

-- A wildcard and one literal label before its zone.
pub record IsWildcardOf (pattern hostname : Text) : Type 0 where
  pub label : Text
  pub zone : Text
  pub pattern_is : pattern ≡ codes "*." ++ zone
  pub hostname_is : hostname ≡ label ++ (codes "." ++ zone)
  pub nonempty : label ≢ []
  pub one_label : contains_code label b'.' ≡ false
  pub literal : label ≢ codes "*"

-- Normalized names: the pattern is the catch-all, the hostname itself, or a wildcard of it.
abbrev pub Covers : Text → Text → Type 0
Covers pattern hostname =
    ((pattern ≡ codes "*") × (hostname ≢ []))
    ⊎ (((pattern ≡ hostname) × (hostname ≢ [])) ⊎ IsWildcardOf pattern hostname)

is_empty_iff : (s : Text) → (not (is_empty s) ≡ true) ↔ (s ≢ [])
is_empty_iff [] = (λ h. absurd cc, λ h. absurd (h refl))
is_empty_iff (c ∷ s) = (λ h e. cc, λ h. refl)

has_prefix_sound : (s p : Text) → has_prefix s p ≡ true → s ≡ p ++ trim_prefix s p
unfolding has_prefix trim_prefix
has_prefix_sound s p h = elim (Option-cases (cut_prefix s p)) [
  | inl e ↦ absurd (cc (rw (e, has_prefix) at h))
  | inr (r, e) ↦ rw (e, trim_prefix) (cut_prefix_sound s p r e)
]

-- A hostname of one label before a zone is a wildcard only if the label is the asterisk.
star_label :
    (label zone : Text)
    → label ≢ []
    → contains_code label b'.' ≡ false
    → (has_prefix (label ++ (codes "." ++ zone)) (codes "*.") ≡ false) ↔ (label ≢ codes "*")
unfolding has_prefix cut_prefix contains_code
star_label [] zone n d = absurd (n refl)
star_label (c ∷ []) zone n d = (λ h p. ground arith, λ m. ground arith)
star_label (c ∷ b ∷ label) zone n d = (λ h p. cc, λ m. ground arith)

trim_star : (zone : Text) → trim_prefix (codes "*." ++ zone) (codes "*") ≡ codes "." ++ zone
unfolding trim_prefix cut_prefix
trim_star zone = refl

has_star : (zone : Text) → has_prefix (codes "*." ++ zone) (codes "*.") ≡ true
unfolding has_prefix cut_prefix
has_star zone = refl

is_label_iff : (s : Text) → (is_label s ≡ true) ↔ ((s ≢ []) × (contains_code s b'.' ≡ false))
unfolding is_label
is_label_iff s =
    (λ h. ((is_empty_iff s).0 (ground arith), ground arith), λ (n, d). rw ((is_empty_iff s).1 n, d))

-- The last branch, on a hostname that is not a wildcard itself.
suffix_sound :
    (zone hostname : Text)
    → has_prefix hostname (codes "*.") ≡ false
    → matches_suffix hostname (codes "." ++ zone) ≡ true
    → IsWildcardOf (codes "*." ++ zone) hostname
unfolding matches_suffix
suffix_sound zone hostname w h =
    let s = codes "." ++ zone in
    let split = has_suffix_sound hostname s (ground arith) in
    let (n, d) = (is_label_iff (trim_suffix hostname s)).0 (ground arith) in
    record {
      label = trim_suffix hostname s;
      zone = zone;
      pattern_is = refl;
      hostname_is = split;
      nonempty = n;
      one_label = d;
      literal =
          (star_label (trim_suffix hostname s) zone n d).0
            (ap (λ x. has_prefix x (codes "*.")) (sym split) ∙ w);
    }

suffix_complete :
    (zone label : Text)
    → label ≢ []
    → contains_code label b'.' ≡ false
    → matches_suffix (label ++ (codes "." ++ zone)) (codes "." ++ zone) ≡ true
unfolding matches_suffix
suffix_complete zone label n d =
    let (h, t) = has_suffix_complete label (codes "." ++ zone) in
    rw (h, t, (is_label_iff label).1 (n, d))

suffix_branch :
    (pattern hostname : Text)
    → has_prefix pattern (codes "*.") ≡ true
    → has_prefix hostname (codes "*.") ≡ false
    → matches_suffix hostname (trim_prefix pattern (codes "*")) ≡ true
    → IsWildcardOf pattern hostname
suffix_branch pattern hostname g w h =
    let zone = trim_prefix pattern (codes "*.") in
    let split = has_prefix_sound pattern (codes "*.") g in
    let same = ap (λ x. trim_prefix x (codes "*")) split ∙ trim_star zone in
    let k = suffix_sound zone hostname w (ap (λ x. matches_suffix hostname x) (sym same) ∙ h) in
    subst (λ x. IsWildcardOf x hostname) (sym split) k

wildcard_matches :
    (label zone : Text)
    → label ≢ []
    → contains_code label b'.' ≡ false
    → label ≢ codes "*"
    → matches_normalized (codes "*." ++ zone) (label ++ (codes "." ++ zone)) ≡ true
unfolding matches_normalized
wildcard_matches label zone n d l =
    rw
      (
        has_star zone,
        (star_label label zone n d).1 l,
        trim_star zone,
        suffix_complete zone label n d,
      )
      (if_same (◌==◌ {K = Text} (codes "*." ++ zone) (label ++ (codes "." ++ zone))))

normalized-Covers :
    (pattern hostname : Text)
    → (matches_normalized pattern hostname ≡ true) ↔ Covers pattern hostname
unfolding matches_normalized
normalized-Covers pattern hostname = (sound, complete)
  where
    sound : matches_normalized pattern hostname ≡ true → Covers pattern hostname
    sound h = elim (Bool-cases (pattern == codes "*")) [
      | inl e ↦ inl ((==_iff pattern (codes "*")).0 e, (is_empty_iff hostname).0 (rw e at h))
      | inr e ↦ elim (Bool-cases (pattern == hostname)) [
        | inl f ↦
            let q = (==_iff pattern hostname).0 f in
            inr (inl (q, subst (λ x. x ≢ []) q ((is_empty_iff pattern).0 (rw (e, f) at h))))
        | inr f ↦ elim (Bool-cases (has_prefix pattern (codes "*."))) [
          | inr g ↦ absurd (cc (rw (e, f, g) at h))
          | inl g ↦ elim (Bool-cases (has_prefix hostname (codes "*."))) [
            | inl k ↦ absurd (cc (rw (e, f, g, k) at h))
            | inr k ↦ inr (inr (suffix_branch pattern hostname g k (rw (e, f, g, k) at h)))
          ]
        ]
      ]
    ]

    complete : Covers pattern hostname → matches_normalized pattern hostname ≡ true
    complete (inl (e, n)) = rw ((==_iff pattern (codes "*")).1 e) ((is_empty_iff hostname).1 n)
    complete (inr (inl (e, n))) = elim (Bool-cases (pattern == codes "*")) [
      | inl f ↦ rw f ((is_empty_iff hostname).1 n)
      | inr f ↦
          rw (f, (==_iff pattern hostname).1 e)
            ((is_empty_iff pattern).1 (subst (λ x. x ≢ []) (sym e) n))
    ]
    complete (inr (inr w)) =
        rw (w.pattern_is, w.hostname_is)
          (wildcard_matches w.label w.zone w.nonempty w.one_label w.literal)

-- HostnameMatches accepts a hostname exactly if, both normalized, the pattern is the asterisk and
-- the hostname is not empty, or they are the same non-empty name, or the pattern is a wildcard and
-- the hostname is its zone under one more non-empty label that is not the asterisk.
pub hostname_matches-Covers :
    (lower : ℕ → ℕ) (pattern hostname : Text)
    → (hostname_matches lower pattern hostname ≡ true)
      ↔ Covers (normalize_dns_name lower pattern) (normalize_dns_name lower hostname)
unfolding hostname_matches
hostname_matches-Covers lower pattern hostname =
    normalized-Covers (normalize_dns_name lower pattern) (normalize_dns_name lower hostname)
