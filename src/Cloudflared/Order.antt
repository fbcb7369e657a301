-- ===== src/Cloudflared/Order.antt =====
-- That compareIngressHostnames and the comparison of compileConfig order the rules.
use flareway.Base.{
  ℕ, ◌≡◌, inl, inr, refl, sym, ◌∙◌, Bool, true, false, not, ◌<◌, ◌≤◌, if◌then◌else◌, nat_beq,
  Bool-cases, arith, ltb, leb,
}
use flareway.Base.Classes.{◌==◌, nat_eq, list_eq, ==_iff, ==_refl}
use flareway.Base.Bytes.{Text, codes, has_prefix, byte_length, text_lt, text_lt_irrefl}
use flareway.Base.Durations.{pos, le_ℤ, int_eq}
use flareway.Cloudflared.Ingress.{
  DomainRule, is_wildcard, compare_ingress_hostnames, compare_rules, rule_le,
}
use flareway.Base.Comparisons.{
  compare_text, text_order, step, step_trans, step_trans_down, text_lt_asym, text_lt_connex,
  no_lt_trans,
}

-- The comparison is not positive.
unfoldable pub host_le : Text → Text → Bool
host_le a b = le_ℤ (compare_ingress_hostnames a b) (pos 0)

host_same : (a b : Text) → compare_ingress_hostnames a b ≡ pos 0 → a ≡ b
unfolding compare_ingress_hostnames compare_text
host_same a b h = ground (arith, ==_iff a b)

host_refl : (a : Text) → compare_ingress_hostnames a a ≡ pos 0
unfolding compare_ingress_hostnames compare_text
host_refl a = ground (arith, ==_refl a, text_lt_irrefl a)

host_le_total : (a b : Text) → host_le a b ≡ false → host_le b a ≡ true
unfolding host_le compare_ingress_hostnames
host_le_total a b h = ground (arith, text_order a b, text_order b a, text_lt_asym a b)

host_le_antisym : (a b : Text) → host_le a b ≡ true → host_le b a ≡ true → a ≡ b
unfolding host_le compare_ingress_hostnames
host_le_antisym a b h k = ground (arith, text_order a b, text_order b a, text_lt_connex a b)

unnot : (b : Bool) → not b ≡ true → b ≡ false
unnot true h = absurd (cc)
unnot false h = refl

host_rank : Text → ℕ
host_rank h = if is_wildcard h then 1 else 0

host_levels :
    (a b : Text)
    → host_le a b
      ≡ step (host_rank a) (host_rank b) (step (byte_length b) (byte_length a) (not (text_lt b a)))
unfolding host_le compare_ingress_hostnames step host_rank
host_levels a b = ground (arith, text_order a b)

host_le_trans : (a b c : Text) → host_le a b ≡ true → host_le b c ≡ true → host_le a c ≡ true
host_le_trans a b c h k =
    host_levels a c
    ∙ step_trans (host_rank a) (host_rank b) (host_rank c) _ _ _
        (step_trans_down (byte_length a) (byte_length b) (byte_length c) (not (text_lt b a))
          (not (text_lt c b)) (not (text_lt c a))
          (λ p q. rw (no_lt_trans a b c (unnot _ p) (unnot _ q)) refl))
        (sym (host_levels a b) ∙ h) (sym (host_levels b c) ∙ k)

-- Within a hostname: by category, then by the length of the path, then by the order of creation.
rest_le : DomainRule → DomainRule → Bool
rest_le a b =
    if not (nat_beq a.category b.category)
    then ltb a.category b.category
    else if not (nat_beq (byte_length a.path) (byte_length b.path))
    then ltb (byte_length b.path) (byte_length a.path)
    else leb a.order b.order

rest_trans : (a b c : DomainRule) → rest_le a b ≡ true → rest_le b c ≡ true → rest_le a c ≡ true
unfolding rest_le
rest_trans a b c h k = ground arith

rest_total : (a b : DomainRule) → rest_le a b ≡ false → rest_le b a ≡ true
unfolding rest_le
rest_total a b h = ground arith

host_zero : (a b : Text) → (compare_ingress_hostnames a b == pos 0) ≡ (a == b)
host_zero a b = elim (Bool-cases (a == b)) [
  | inl e ↦ rw e (rw (sym ((==_iff a b).0 e)) (rw (host_refl a) refl))
  | inr e ↦ elim (Bool-cases (compare_ingress_hostnames a b == pos 0)) [
    | inl q ↦ absurd (cc ((==_iff a b).1 (host_same a b ((==_iff _ (pos 0)).0 q))))
    | inr q ↦ q ∙ sym e
  ]
]

rule_reads :
    (a b : DomainRule)
    → rule_le a b
      ≡ (if a.hostname == b.hostname then rest_le a b else host_le a.hostname b.hostname)
unfolding rule_le compare_rules rest_le host_le
rule_reads a b = elim (Bool-cases (a.hostname == b.hostname)) [
  | inl e ↦ rw (host_zero a.hostname b.hostname, e, compare_rules) (ground arith)
  | inr e ↦ rw (host_zero a.hostname b.hostname, e, compare_rules) refl
]

pub rule_le_total : (a b : DomainRule) → rule_le a b ≡ false → rule_le b a ≡ true
rule_le_total a b h = ground (
  arith,
  rule_reads a b,
  rule_reads b a,
  rest_total a b,
  host_le_total a.hostname b.hostname,
  ==_iff a.hostname b.hostname,
  ==_iff b.hostname a.hostname,
)

pub rule_le_trans :
    (a b c : DomainRule) → rule_le a b ≡ true → rule_le b c ≡ true → rule_le a c ≡ true
rule_le_trans a b c h k = ground (
  arith,
  rule_reads a b,
  rule_reads b c,
  rule_reads a c,
  rest_trans a b c,
  host_le_trans a.hostname b.hostname c.hostname,
  host_le_antisym a.hostname b.hostname,
  ==_iff a.hostname b.hostname,
  ==_iff b.hostname c.hostname,
  ==_iff a.hostname c.hostname,
)

-- A rule is not after another only if its hostname is not either.
pub rule_le-host : (a b : DomainRule) → rule_le a b ≡ true → host_le a.hostname b.hostname ≡ true
unfolding host_le
rule_le-host a b h =
    ground (arith, rule_reads a b, ==_iff a.hostname b.hostname, host_refl a.hostname)

-- Within a hostname and a category the longer path comes first.
pub longer_first :
    (a b : DomainRule)
    → a.hostname ≡ b.hostname
    → a.category ≡ b.category
    → byte_length b.path < byte_length a.path
    → (rule_le a b ≡ true) × (rule_le b a ≡ false)
unfolding rest_le
longer_first a b h c l = ground (
  arith,
  rule_reads a b,
  rule_reads b a,
  ==_iff a.hostname b.hostname,
  ==_iff b.hostname a.hostname,
)

-- Read off two rules: exact hostnames first, then longer ones, then by their bytes; within a hostname by
-- category (unprotected, protected, refused), then the longer expression, then the earlier rule.
pub record IsAhead (a b : DomainRule) : Type 0 where
  pub exact : has_prefix a.hostname (codes "*.") ≡ true → has_prefix b.hostname (codes "*.") ≡ true
  pub longer_host :
      has_prefix a.hostname (codes "*.") ≡ has_prefix b.hostname (codes "*.")
      → byte_length b.hostname ≤ byte_length a.hostname
  pub lower_host :
      has_prefix a.hostname (codes "*.") ≡ has_prefix b.hostname (codes "*.")
      → byte_length a.hostname ≡ byte_length b.hostname
      → text_lt b.hostname a.hostname ≡ false
  pub category : a.hostname ≡ b.hostname → a.category ≤ b.category
  pub longer_path :
      a.hostname ≡ b.hostname → a.category ≡ b.category → byte_length b.path ≤ byte_length a.path
  pub earlier :
      a.hostname ≡ b.hostname
      → a.category ≡ b.category
      → byte_length a.path ≡ byte_length b.path
      → a.order ≤ b.order

-- Within a hostname the comparison is that of the rest.
rule_le-rest :
    (a b : DomainRule) → rule_le a b ≡ true → a.hostname ≡ b.hostname → rest_le a b ≡ true
rule_le-rest a b h e = ground (arith, rule_reads a b, ==_iff a.hostname b.hostname)

pub rule_le-IsAhead : (a b : DomainRule) → rule_le a b ≡ true → IsAhead a b
unfolding host_le compare_ingress_hostnames rest_le is_wildcard
rule_le-IsAhead a b h =
    let l = rule_le-host a b h in
    let r = rule_le-rest a b h in
    record {
      exact = λ w. ground (arith, text_order a.hostname b.hostname);
      longer_host = λ w. ground (arith, text_order a.hostname b.hostname);
      lower_host = λ w n. ground (arith, text_order a.hostname b.hostname);
      category = λ e. let k = r e in ground arith;
      longer_path = λ e c. let k = r e in ground arith;
      earlier = λ e c n. let k = r e in ground arith;
    }
