-- ===== src/Sweep/Names.antt =====
-- internal/sweep/classify.go: accessRemoteNameValue, parseAccessRemoteName and parsePrivateOwnerComment.
use flareway.Base.{
  ◌≡◌, ◌↔◌, inl, inr, refl, sym, ap, ◌∙◌, false, ◌||◌, Option, none, some, [], ◌∷◌, ◌++◌,
  if◌then◌else◌, Option-cases,
}
use flareway.Base.Cuts.{cut_code, cut_code_sound, cut_code_complete}
use flareway.Base.Bytes.{
  Text, codes, is_empty, cut_prefix, cut_prefix_sound, cut_prefix_complete, has_prefix,
  contains_code,
}

-- What stands before the first occurrence of a text, all of it if there is none.
unfoldable pub before_text : Text → Text → Text
before_text [] separator = []
before_text (d ∷ s) separator =
    let rest = before_text s separator in if has_prefix (d ∷ s) separator then [] else d ∷ rest

-- `strings.SplitN(s, "/", 3)`, where it has three parts.
unfoldable pub split_three : Text → Option (Text × (Text × Text))
split_three s = elim (cut_code b'/' s) [
  | none ↦ none
  | some (first, rest) ↦ elim (cut_code b'/' rest) [
    | none ↦ none
    | some (second, third) ↦ some (first, (second, third))
  ]
]

-- The three parts, if none of them is empty.
unfoldable pub nonempty_parts : Option (Text × (Text × Text)) → Option (Text × (Text × Text))
nonempty_parts none = none
nonempty_parts (some (first, (second, third))) =
    if is_empty first || (is_empty second || is_empty third)
    then none
    else some (first, (second, third))

unfoldable pub access_remote_name_value : Text → Text → Text → Text
access_remote_name_value cluster_id namespace spec_name =
    codes "flareway/" ++ (cluster_id ++ (b'/' ∷ (namespace ++ (b'/' ∷ spec_name))))

unfoldable pub parse_access_remote_name : Text → Option (Text × (Text × Text))
parse_access_remote_name name = elim (cut_prefix name (codes "flareway/")) [
  | none ↦ none
  | some rest ↦ nonempty_parts (split_three rest)
]

unfoldable pub parse_private_owner_comment : Text → Option (Text × (Text × Text))
parse_private_owner_comment comment =
    elim (cut_prefix (before_text comment (codes " | ")) (codes "flareway ")) [
      | none ↦ none
      | some rest ↦
          if has_prefix rest (codes "hmac:") || has_prefix rest (codes "sha256:")
          then none
          else nonempty_parts (split_three rest)
    ]

-- Three texts that are not empty, the first two without a slash.
unfoldable pub IsName : Text → Text → Text → Type 0
IsName cluster_id namespace spec_name =
    ((contains_code cluster_id b'/' ≡ false) × (contains_code namespace b'/' ≡ false))
    × ((is_empty cluster_id ≡ false)
        × ((is_empty namespace ≡ false) × (is_empty spec_name ≡ false)))

nonempty_sound :
    (r : Option (Text × (Text × Text))) (a b c : Text)
    → nonempty_parts r ≡ some (a, (b, c))
    → (r ≡ some (a, (b, c)))
      × ((is_empty a ≡ false) × ((is_empty b ≡ false) × (is_empty c ≡ false)))
unfolding nonempty_parts
nonempty_sound none a b c h = absurd cc
nonempty_sound (some ([], r)) a b c h = absurd cc
nonempty_sound (some (x ∷ xs, ([], r))) a b c h = absurd cc
nonempty_sound (some (x ∷ xs, (y ∷ ys, []))) a b c h = absurd cc
nonempty_sound (some (x ∷ xs, (y ∷ ys, z ∷ zs))) a b c h =
    let p : a ≡ (x ∷ xs) = cc in
    let q : b ≡ (y ∷ ys) = cc in
    let r : c ≡ (z ∷ zs) = cc in (h, (ap is_empty p, (ap is_empty q, ap is_empty r)))

split_sound :
    (s a b c : Text)
    → split_three s ≡ some (a, (b, c))
    → (s ≡ a ++ (b'/' ∷ (b ++ (b'/' ∷ c))))
      × ((contains_code a b'/' ≡ false) × (contains_code b b'/' ≡ false))
unfolding split_three
split_sound s a b c h = elim (Option-cases (cut_code b'/' s)) [
  | inl e ↦ absurd (cc (rw (e, split_three) at h))
  | inr ((x, r), e) ↦ elim (Option-cases (cut_code b'/' r)) [
    | inl f ↦ absurd (cc (rw (e, f, split_three) at h))
    | inr ((y, z), f) ↦
        let w : ◌≡◌ {A = Option (Text × (Text × Text))} (some (x, (y, z))) (some (a, (b, c))) =
          rw (e, f, split_three) at h in
        let (u, i) = cut_code_sound b'/' s x r e in
        let (v, j) = cut_code_sound b'/' r y z f in
        let a≡ : x ≡ a = cc in
        let b≡ : y ≡ b = cc in
        let c≡ : z ≡ c = cc in
        (
          u ∙ ap (λ t. x ++ (b'/' ∷ t)) v ∙ cc,
          (
            ap (λ t. contains_code t b'/') (sym a≡) ∙ i,
            ap (λ t. contains_code t b'/') (sym b≡) ∙ j,
          ),
        )
  ]
]

pub split_complete :
    (a b c : Text)
    → contains_code a b'/' ≡ false
    → contains_code b b'/' ≡ false
    → split_three (a ++ (b'/' ∷ (b ++ (b'/' ∷ c)))) ≡ some (a, (b, c))
unfolding split_three
split_complete a b c h k =
    rw (cut_code_complete b'/' a (b ++ (b'/' ∷ c)) h, split_three)
      (rw (cut_code_complete b'/' b c k) refl)

parse_complete :
    (cluster_id namespace spec_name : Text)
    → IsName cluster_id namespace spec_name
    → parse_access_remote_name (access_remote_name_value cluster_id namespace spec_name)
      ≡ some (cluster_id, (namespace, spec_name))
unfolding parse_access_remote_name access_remote_name_value nonempty_parts IsName
parse_complete a b c ((h, k), (p, (q, r))) =
    rw
      (
        cut_prefix_complete (codes "flareway/") (a ++ (b'/' ∷ (b ++ (b'/' ∷ c)))),
        parse_access_remote_name,
      )
      (rw (split_complete a b c h k) (rw (p, q, r) refl))

parse_sound :
    (name cluster_id namespace spec_name : Text)
    → parse_access_remote_name name ≡ some (cluster_id, (namespace, spec_name))
    → (name ≡ access_remote_name_value cluster_id namespace spec_name)
      × IsName cluster_id namespace spec_name
unfolding parse_access_remote_name access_remote_name_value IsName
parse_sound name a b c h = elim (Option-cases (cut_prefix name (codes "flareway/"))) [
  | inl e ↦ absurd (cc (rw (e, parse_access_remote_name) at h))
  | inr (rest, e) ↦
      let (w, (p, (q, r))) =
        nonempty_sound (split_three rest) a b c (rw (e, parse_access_remote_name) at h) in
      let (u, (i, j)) = split_sound rest a b c w in
      (
        cut_prefix_sound name (codes "flareway/") rest e ∙ ap (λ y. codes "flareway/" ++ y) u,
        ((i, j), (p, (q, r))),
      )
]

-- parseAccessRemoteName answers a cluster, a namespace and a spec name exactly for the name that
-- accessRemoteNameValue makes of them, provided that none of the three is empty and the first two
-- have no slash.
pub parse_access_remote_name_iff :
    (name cluster_id namespace spec_name : Text)
    → (parse_access_remote_name name ≡ some (cluster_id, (namespace, spec_name))) ↔ (
        (name ≡ access_remote_name_value cluster_id namespace spec_name)
        × IsName cluster_id namespace spec_name)
parse_access_remote_name_iff name a b c =
    (parse_sound name a b c, λ (e, h). ap parse_access_remote_name e ∙ parse_complete a b c h)
