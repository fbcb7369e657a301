-- ===== src/GatewayApi/Claims.antt =====
-- That one listener claims a host.
use mathlib.Core.List.{Memᴰ}
use flareway.Base.{
  ℕ, ◌+◌, ◌≤◌, ◌<◌, ◌≡◌, ◌≢◌, inl, inr, refl, sym, ap, subst, ◌∙◌, true, false, Option, none, some,
  List, [], ◌∷◌, ◌++◌, arith, nat_beq_iff, Bool-cases,
}
use flareway.Base.Classes.{◌==◌, nat_eq, list_eq, ==_iff}
use flareway.Base.Bytes.{
  Text, codes, is_empty, has_prefix, trim_prefix, byte_length, byte_length-append, width,
}
use flareway.GatewayApi.Hostname.{wildcard_hostname_matches_hostname}
use flareway.GatewayApi.Wildcards.{
  star, has_prefix_sound, has_prefix_complete, concrete_iff, wildcard_iff,
}
use flareway.GatewayApi.Hosts.{append_split}
use flareway.GatewayApi.Listeners.{
  ListenerTranslation, hostname_matches, listener_hostname_specificity, is_passed,
  listener_claims_host,
}

-- A listener that is programmed, of the same port and protocol, and whose hostname matches the host.
pub record IsRival (other candidate : ListenerTranslation) (host : Text) : Type 0 where
  pub programmed : other.has_ir ≡ true
  pub is_accepted : other.accepted ≡ true
  pub unconflicted : other.conflicted ≡ false
  pub same_port : other.spec.port ≡ candidate.spec.port
  pub same_protocol : other.spec.protocol ≡ candidate.spec.protocol
  pub matching : hostname_matches other.spec.hostname host ≡ true

pub not_passed :
    (o c : ListenerTranslation) (host : Text)
    → IsRival o c host
    → o.position ≢ c.position
    → is_passed o c host ≡ false
unfolding is_passed
not_passed o c host r n = ground (
  arith,
  nat_beq_iff o.position c.position,
  nat_beq_iff o.spec.port c.spec.port,
  ==_iff o.spec.protocol c.spec.protocol,
  r.programmed,
  r.is_accepted,
  r.unconflicted,
  r.same_port,
  r.same_protocol,
  r.matching,
)

head_bound :
    (c x : ListenerTranslation) (host : Text) (xs : List ListenerTranslation)
    → listener_claims_host c host (x ∷ xs) ≡ true
    → is_passed x c host ≡ false
    → listener_hostname_specificity x.spec.hostname ≤ listener_hostname_specificity c.spec.hostname
unfolding listener_claims_host
head_bound c x host xs h p = ground arith

pub claims_bound :
    (c o : ListenerTranslation) (host : Text) (ls : List ListenerTranslation)
    → listener_claims_host c host ls ≡ true
    → Memᴰ o ls
    → is_passed o c host ≡ false
    → listener_hostname_specificity o.spec.hostname ≤ listener_hostname_specificity c.spec.hostname
unfolding listener_claims_host
claims_bound c o host [] h m p = elim m [ ]
claims_bound c o host (x ∷ xs) h (Memᴰ.head e) p =
    subst
      (λ z.
        listener_hostname_specificity z.spec.hostname
        ≤ listener_hostname_specificity c.spec.hostname)
      (sym e) (head_bound c x host xs h (subst (λ z. is_passed z c host ≡ false) e p))
claims_bound c o host (x ∷ xs) h (Memᴰ.tail n) p = ground (arith, claims_bound c o host xs)

wildcard_suffix :
    (s host : Text)
    → wildcard_hostname_matches_hostname (codes "*." ++ s) host ≡ true
    → (p : Text) × (host ≡ p ++ (codes "." ++ s))
wildcard_suffix s host h =
    let w = codes "*." ++ s in
    let t : trim_prefix w star ≡ codes "." ++ s = (has_prefix_complete star (codes "." ++ s)).1 in
    elim (Bool-cases (has_prefix host star)) [
      | inl e ↦
          let r = trim_prefix host star in
          let q : host ≡ star ++ r = has_prefix_sound host star e in
          let (c, u, d) =
            (wildcard_iff w r).0 (ap (wildcard_hostname_matches_hostname w) (sym q) ∙ h) in
          (star ++ c, q ∙ ap (λ x. star ++ x) (u ∙ ap (λ x. c ++ x) t))
      | inr e ↦ let (p, u, n) = (concrete_iff w host e).0 h in (p, u ∙ ap (λ x. p ++ x) t)
    ]

-- A wildcard that matches a host has its suffix.
suffix_of :
    (s host : Text)
    → hostname_matches (some (codes "*." ++ s)) host ≡ true
    → (p : Text) × (host ≡ p ++ (codes "." ++ s))
unfolding hostname_matches
suffix_of s host h = elim (Bool-cases ((codes "*." ++ s) == host)) [
  | inl e ↦ (star, sym ((==_iff (codes "*." ++ s) host).0 e))
  | inr e ↦ wildcard_suffix s host (ground arith)
]

no_bytes : (c : Text) → byte_length c ≡ 0 → c ≡ []
unfolding byte_length width
no_bytes [] h = refl
no_bytes (x ∷ c) h = ground arith

same_suffix : (p s q t : Text) → p ++ s ≡ q ++ t → byte_length s ≡ byte_length t → s ≡ t
same_suffix p s q t e l = elim (append_split p s q t e) [
  | inl (c, u, v) ↦
      let z = no_bytes c (omega (arith, l, ap byte_length v, byte_length-append c s)) in
      sym (v ∙ ap (λ x. x ++ s) z)
  | inr (c, u, v) ↦
      let z = no_bytes c (omega (arith, l, ap byte_length v, byte_length-append c t)) in
      v ∙ ap (λ x. x ++ t) z
]

-- Hostnames of less than 10000 bytes.
abbrev pub IsShort : Option Text → Type 0
IsShort none = Unit
IsShort (some value) = byte_length value < 10000

-- The empty hostname and none are the same to the claims.
abbrev pub value_of : Option Text → Text
value_of none = []
value_of (some value) = value

-- How a hostname that matches the host is made, and its specificity.
pub data Shape (host value : Text) (n : ℕ) : Type 0 where
  anything : value ≡ [] → n ≡ 0 → Shape host value n
  wildcard :
      (s p : Text)
      → value ≡ codes "*." ++ s
      → host ≡ p ++ (codes "." ++ s)
      → n ≡ 2 + byte_length s
      → n < 10000
      → Shape host value n
  exact : value ≡ host → 10000 < n → Shape host value n

bytes_positive : (v : Text) → is_empty v ≡ false → 0 < byte_length v
unfolding byte_length width
bytes_positive [] h = absurd (cc)
bytes_positive (x ∷ c) h = ground arith

star_dot : (s : Text) → byte_length (codes "*." ++ s) ≡ 2 + byte_length s
unfolding byte_length width
star_dot s = omega arith

nothing : (v : Text) → is_empty v ≡ true → v ≡ []
nothing [] h = refl
nothing (x ∷ v) h = absurd (cc)

only_equal :
    (v host : Text)
    → is_empty v ≡ false
    → has_prefix v (codes "*.") ≡ false
    → hostname_matches (some v) host ≡ true
    → v ≡ host
unfolding hostname_matches
only_equal v host e f m = (==_iff v host).0 (ground arith)

shape_some :
    (v host : Text)
    → byte_length v < 10000
    → hostname_matches (some v) host ≡ true
    → Shape host v (listener_hostname_specificity (some v))
unfolding listener_hostname_specificity
shape_some v host l m = elim (Bool-cases (is_empty v)) [
  | inl e ↦ anything (nothing v e) (rw e refl)
  | inr e ↦ elim (Bool-cases (has_prefix v (codes "*."))) [
    | inl f ↦
        let s = trim_prefix v (codes "*.") in
        let q : v ≡ codes "*." ++ s = has_prefix_sound v (codes "*.") f in
        let (p, u) = suffix_of s host (ap (λ x. hostname_matches (some x) host) (sym q) ∙ m) in
        let n : byte_length v ≡ 2 + byte_length s = ap byte_length q ∙ star_dot s in
        rw (e, f) (wildcard s p q u n l)
    | inr f ↦ rw (e, f) (exact (only_equal v host e f m) (omega (arith, bytes_positive v e)))
  ]
]

pub shape_of :
    (h : Option Text) (host : Text)
    → IsShort h
    → hostname_matches h host ≡ true
    → Shape host (value_of h) (listener_hostname_specificity h)
unfolding listener_hostname_specificity
shape_of none host l m = anything refl refl
shape_of (some v) host l m = shape_some v host l m

pub same_value : (host v w : Text) (m n : ℕ) → Shape host v m → Shape host w n → m ≡ n → v ≡ w
same_value host v w m n (anything a b) (anything c d) e = a ∙ sym c
same_value host v w m n (anything a b) (wildcard s p c d f g) e = absurd (omega arith)
same_value host v w m n (anything a b) (exact c d) e = absurd (omega arith)
same_value host v w m n (wildcard s p a b c d) (anything f g) e = absurd (omega arith)
same_value host v w m n (wildcard s p a b c d) (exact f g) e = absurd (omega arith)
same_value host v w m n (exact a b) (anything c d) e = absurd (omega arith)
same_value host v w m n (exact a b) (wildcard s p c d f g) e = absurd (omega arith)
same_value host v w m n (exact a b) (exact c d) e = a ∙ sym c
same_value host v w m n (wildcard s p a b c d) (wildcard t q f g h i) e =
    let k : byte_length s ≡ byte_length t = omega arith in
    a
    ∙ ap (λ x. codes "*" ++ x)
        (same_suffix p (codes "." ++ s) q (codes "." ++ t) (sym b ∙ g) (
          byte_length-append (codes ".") s
          ∙ ap (λ x. byte_length (codes ".") + x) k
          ∙ sym (byte_length-append (codes ".") t)))
    ∙ sym f
