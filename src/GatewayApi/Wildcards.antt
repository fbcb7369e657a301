-- ===== src/GatewayApi/Wildcards.antt =====
-- Which names the hostname patterns of internal/gatewayapi/hostname.go denote.
use flareway.Base.{
  ◌≡◌, ◌≢◌, ◌↔◌, ◌⊎◌, inl, inr, refl, sym, ◌∙◌, true, false, not, [], ◌∷◌, ◌++◌, arith,
  Option-cases,
}
use flareway.Base.Bytes.{
  Text, codes, is_empty, cut_prefix, has_prefix, trim_prefix, trim_suffix, cut_prefix_sound,
  cut_prefix_complete, has_suffix_sound, has_suffix_complete,
}
use flareway.GatewayApi.Hostname.{contains_wildcard, wildcard_hostname_matches_hostname}

abbrev pub star : Text
star = codes "*"

-- The name lies under the wildcard pattern.
pub record IsUnder (pattern name : Text) : Type 0 where
  pub suffix : Text
  pub prefix : Text
  pub pattern_is : pattern ≡ star ++ suffix
  pub name_is : name ≡ prefix ++ suffix
  pub nonempty : prefix ≢ []

abbrev pub Denotes : Text → Text → Type 0
Denotes pattern name = (pattern ≡ name) ⊎ IsUnder pattern name

-- A name of one host.
abbrev pub IsConcrete : Text → Type 0
IsConcrete name = has_prefix name star ≡ false

-- An asterisk at the start is a label of its own.
abbrev pub IsProper : Text → Type 0
IsProper pattern = (has_prefix pattern star ≡ false) ⊎ (has_prefix pattern (codes "*.") ≡ true)

pub has_prefix_sound : (s p : Text) → has_prefix s p ≡ true → s ≡ p ++ trim_prefix s p
unfolding has_prefix trim_prefix
has_prefix_sound s p h = elim (Option-cases (cut_prefix s p)) [
  | inl e ↦ absurd (cc (rw (e, has_prefix) at h))
  | inr (r, e) ↦ rw (e, trim_prefix) (cut_prefix_sound s p r e)
]

pub has_prefix_complete :
    (p r : Text) → (has_prefix (p ++ r) p ≡ true) × (trim_prefix (p ++ r) p ≡ r)
unfolding has_prefix trim_prefix
has_prefix_complete p r =
    (rw (cut_prefix_complete p r, has_prefix), rw (cut_prefix_complete p r, trim_prefix))

is_empty_iff : (s : Text) → (not (is_empty s) ≡ true) ↔ (s ≢ [])
is_empty_iff [] = (λ h. absurd cc, λ h. absurd (h refl))
is_empty_iff (c ∷ s) = (λ h e. cc, λ h. refl)

dotted : (c : Text) → has_prefix c (codes ".") ≡ true → c ≢ []
unfolding has_prefix cut_prefix
dotted [] h = absurd cc
dotted (d ∷ c) h = λ e. cc

-- A concrete name against a wildcard.
pub concrete_iff :
    (w name : Text)
    → IsConcrete name
    → (wildcard_hostname_matches_hostname w name ≡ true)
      ↔ ((p : Text) × (name ≡ p ++ trim_prefix w star) × (p ≢ []))
unfolding wildcard_hostname_matches_hostname
concrete_iff w name c = (sound, λ (p, e, n). complete p e n)
  where
    sound :
        wildcard_hostname_matches_hostname w name ≡ true
        → (p : Text) × (name ≡ p ++ trim_prefix w star) × (p ≢ [])
    sound h =
        let k = rw c at h in
        (
          trim_suffix name (trim_prefix w star),
          has_suffix_sound name (trim_prefix w star) (ground arith),
          (is_empty_iff _).0 (ground arith),
        )

    complete :
        (p : Text)
        → name ≡ p ++ trim_prefix w star
        → p ≢ []
        → wildcard_hostname_matches_hostname w name ≡ true
    complete p e n =
        let (h, t) = has_suffix_complete p (trim_prefix w star) in
        rw c (rw e (rw (h, t, (is_empty_iff p).1 n)))

-- A wildcard against a wildcard, by their suffixes.
pub wildcard_iff :
    (w r : Text)
    → (wildcard_hostname_matches_hostname w (star ++ r) ≡ true)
      ↔ ((c : Text) × (r ≡ c ++ trim_prefix w star) × (has_prefix c (codes ".") ≡ true))
unfolding wildcard_hostname_matches_hostname contains_wildcard
wildcard_iff w r = (sound, λ (c, e, d). complete c e d)
  where
    shape :
        wildcard_hostname_matches_hostname w (star ++ r) ≡ contains_wildcard r (trim_prefix w star)
    shape = let (h, t) = has_prefix_complete star r in rw (h, t)

    sound :
        wildcard_hostname_matches_hostname w (star ++ r) ≡ true
        → (c : Text) × (r ≡ c ++ trim_prefix w star) × (has_prefix c (codes ".") ≡ true)
    sound h =
        let k = sym shape ∙ h in
        (
          trim_suffix r (trim_prefix w star),
          has_suffix_sound r (trim_prefix w star) (ground arith),
          ground arith,
        )

    complete :
        (c : Text)
        → r ≡ c ++ trim_prefix w star
        → has_prefix c (codes ".") ≡ true
        → wildcard_hostname_matches_hostname w (star ++ r) ≡ true
    complete c e d =
        let (h, t) = has_suffix_complete c (trim_prefix w star) in
        shape ∙ rw e (rw (h, t, (is_empty_iff c).1 (dotted c d), d))
