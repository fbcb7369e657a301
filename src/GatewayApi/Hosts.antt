-- ===== src/GatewayApi/Hosts.antt =====
-- The set of hostnames that internal/gatewayapi/hostname.go builds, and what a wildcard contains.
use mathlib.Core.List.{append_assoc, Memᴰ}
use flareway.Base.{
  ◌≡◌, ◌≢◌, ◌⊎◌, inl, inr, refl, sym, ap, subst, ◌∙◌, Bool, true, false, List, [], ◌∷◌, ◌++◌,
  Bool-cases,
}
use flareway.Base.Classes.{◌==◌, nat_eq, list_eq, ==_iff}
use flareway.Base.Bytes.{Text, has_prefix, trim_prefix, text_lt}
use flareway.GatewayApi.Hostname.{wildcard_hostname_matches_hostname, add_host, add_if}
use flareway.GatewayApi.Wildcards.{
  star, Denotes, IsConcrete, has_prefix_sound, has_prefix_complete, concrete_iff, wildcard_iff,
}

-- The set.
pub host_member : (x y : Text) (xs : List Text) → Memᴰ y (add_host x xs) → (y ≡ x) ⊎ Memᴰ y xs
unfolding add_host
host_member x y [] (Memᴰ.head e) = inl e
host_member x y [] (Memᴰ.tail m) = elim m [ ]
host_member x y (z ∷ zs) m = elim (Bool-cases (x == z)) [
  | inl a ↦ inr (rw a at m)
  | inr a ↦ elim (Bool-cases (text_lt x z)) [
    | inl b ↦ elim (rw (a, b) at m) [ Memᴰ.head e ↦ inl e | Memᴰ.tail n ↦ inr n ]
    | inr b ↦ elim (rw (a, b) at m) [
      | Memᴰ.head e ↦ inr (Memᴰ.head e)
      | Memᴰ.tail n ↦ elim (host_member x y zs n) [ inl e ↦ inl e | inr k ↦ inr (Memᴰ.tail k) ]
    ]
  ]
]

pub host_self : (x : Text) (xs : List Text) → Memᴰ x (add_host x xs)
unfolding add_host
host_self x [] = Memᴰ.head refl
host_self x (z ∷ zs) = elim (Bool-cases (x == z)) [
  | inl a ↦ rw a (Memᴰ.head ((==_iff x z).0 a))
  | inr a ↦ elim (Bool-cases (text_lt x z)) [
    | inl b ↦ rw (a, b) (Memᴰ.head refl)
    | inr b ↦ rw (a, b) (Memᴰ.tail (host_self x zs))
  ]
]

pub host_keeps : (x y : Text) (xs : List Text) → Memᴰ y xs → Memᴰ y (add_host x xs)
unfolding add_host
host_keeps x y [] m = elim m [ ]
host_keeps x y (z ∷ zs) m = elim (Bool-cases (x == z)) [
  | inl a ↦ rw a m
  | inr a ↦ elim (Bool-cases (text_lt x z)) [
    | inl b ↦ rw (a, b) (Memᴰ.tail m)
    | inr b ↦
        rw (a, b)
          (elim m [ Memᴰ.head e ↦ Memᴰ.head e | Memᴰ.tail n ↦ Memᴰ.tail (host_keeps x y zs n) ])
  ]
]

pub if_member :
    (b : Bool) (x y : Text) (xs : List Text)
    → Memᴰ y (add_if b x xs)
    → ((b ≡ true) × (y ≡ x)) ⊎ Memᴰ y xs
unfolding add_if
if_member true x y xs m = elim (host_member x y xs m) [ inl e ↦ inl (refl, e) | inr k ↦ inr k ]
if_member false x y xs m = inr m

pub if_keeps : (b : Bool) (x y : Text) (xs : List Text) → Memᴰ y xs → Memᴰ y (add_if b x xs)
unfolding add_if
if_keeps true x y xs m = host_keeps x y xs m
if_keeps false x y xs m = m

pub if_self : (b : Bool) (x : Text) (xs : List Text) → b ≡ true → Memᴰ x (add_if b x xs)
unfolding add_if
if_self true x xs e = host_self x xs
if_self false x xs e = absurd cc

-- Two ends of one list.
pub append_split :
    (a l b r : Text)
    → a ++ l ≡ b ++ r
    → ((c : Text) × (a ≡ b ++ c) × (r ≡ c ++ l)) ⊎ ((c : Text) × (b ≡ a ++ c) × (l ≡ c ++ r))
append_split [] l b r e = inr (b, refl, e)
append_split (x ∷ a) l [] r e = inl (x ∷ a, refl, sym e)
append_split (x ∷ a) l (y ∷ b) r e = elim (append_split a l b r cc) [
  | inl (c, p, q) ↦ inl (c, cc, q)
  | inr (c, p, q) ↦ inr (c, cc, q)
]

append_nonempty : (a c : Text) → a ≢ [] → a ++ c ≢ []
append_nonempty [] c n = absurd (n refl)
append_nonempty (x ∷ a) c n = λ e. cc

pub star_none : (s name : Text) → IsConcrete name → name ≡ star ++ s → ⊥
star_none s name c e = cc ((has_prefix_complete star s).0)

-- What a matching wildcard contains.
pub contained :
    (w h name : Text)
    → has_prefix w star ≡ true
    → wildcard_hostname_matches_hostname w h ≡ true
    → IsConcrete name
    → Denotes h name
    → Denotes w name
contained w h name s m c (inl e) =
    let (p, q, n) =
      (concrete_iff w name c).0 (subst (λ x. wildcard_hostname_matches_hostname w x ≡ true) e m) in
    inr (record {
      suffix = trim_prefix w star;
      prefix = p;
      pattern_is = has_prefix_sound w star s;
      name_is = q;
      nonempty = n;
    })
contained w h name s m c (inr u) =
    let (d, q, n) =
      (wildcard_iff w u.suffix).0
        (subst (λ x. wildcard_hostname_matches_hostname w x ≡ true) u.pattern_is m) in
    inr (record {
      suffix = trim_prefix w star;
      prefix = u.prefix ++ d;
      pattern_is = has_prefix_sound w star s;
      name_is =
          u.name_is
          ∙ ap (λ x. u.prefix ++ x) q
          ∙ sym (append_assoc u.prefix d (trim_prefix w star));
      nonempty = append_nonempty u.prefix d u.nonempty;
    })
