-- ===== src/GatewayApi/RouteOrder.antt =====
-- That compareCompiledRoutes is an order, by one criterion after the other.
use flareway.Base.{
  ℕ, ◌≡◌, inl, inr, refl, ap, ◌∙◌, Bool, true, false, not, ◌&&◌, if◌then◌else◌, arith, leb, nat_beq,
  is_some, length, Bool-cases,
}
use flareway.Base.Classes.{◌==◌, nat_eq, list_eq}
use flareway.Base.Bytes.{Text, byte_length}
use flareway.Base.Durations.{ℤ, pos, negsuc, sub_ℕ, int_eq}
use flareway.Base.Comparisons.{
  below, chosen_time, chosen_text, chosen_number, last_number, swapped, step, step_total,
  step_trans, step_trans_down, level, level_total, level_trans,
}
use flareway.GatewayApi.Matches.{exact, path_prefix, regular_expression}
use flareway.GatewayApi.Precedence.{
  CompiledRoute, path_type_rank, compare_identities, compare_conditions, compare_compiled_routes,
  route_le,
}

pub identities_le : CompiledRoute → CompiledRoute → Bool
identities_le a b = step a.creation b.creation (
    level a.object_key b.object_key
      (step a.rule_index b.rule_index (leb a.match_index b.match_index)))

identities_read : (a b : CompiledRoute) → below (compare_identities a b) ≡ identities_le a b
unfolding compare_identities identities_le
identities_read a b =
    chosen_time a.creation b.creation _
    ∙ ap (step a.creation b.creation) (
        chosen_text a.object_key b.object_key _
        ∙ ap (level a.object_key b.object_key) (
            chosen_number a.rule_index b.rule_index _
            ∙ ap (step a.rule_index b.rule_index) (last_number a.match_index b.match_index)))

-- 0 for a route that asks for a method.
unfoldable pub method_rank : CompiledRoute → ℕ
method_rank r = if is_some r.match.method then 0 else 1

unfoldable pub conditions_le : CompiledRoute → CompiledRoute → Bool
conditions_le a b = step (method_rank a) (method_rank b) (
    step (length b.match.headers) (length a.match.headers)
      (step (length b.match.query) (length a.match.query) (identities_le a b)))

chosen_method :
    (a b : CompiledRoute) (z : ℤ)
    → below (
        if is_some a.match.method && not (is_some b.match.method)
        then negsuc 0
        else if not (is_some a.match.method) && is_some b.match.method
        then pos 1
        else z)
      ≡ step (method_rank a) (method_rank b) (below z)
unfolding step method_rank below
chosen_method a b z = elim (Bool-cases (is_some a.match.method)) [
  | inl e ↦ elim (Bool-cases (is_some b.match.method)) [
    | inl f ↦ rw (e, f) refl
    | inr f ↦ rw (e, f) refl
  ]
  | inr e ↦ elim (Bool-cases (is_some b.match.method)) [
    | inl f ↦ rw (e, f) refl
    | inr f ↦ rw (e, f) refl
  ]
]

conditions_read : (a b : CompiledRoute) → below (compare_conditions a b) ≡ conditions_le a b
unfolding compare_conditions conditions_le
conditions_read a b =
    chosen_method a b _
    ∙ ap (step (method_rank a) (method_rank b)) (
        swapped (length a.match.headers) (length b.match.headers) _
        ∙ ap (step (length b.match.headers) (length a.match.headers)) (
            swapped (length a.match.query) (length b.match.query) _
            ∙ ap (step (length b.match.query) (length a.match.query)) (identities_read a b)))

-- The length of a prefix.
unfoldable pub prefix_length : CompiledRoute → ℕ
prefix_length r = if r.match.path.kind == path_prefix then byte_length r.match.path.value else 0

unfoldable pub type_rank : CompiledRoute → ℕ
type_rank r = path_type_rank r.match.path.kind

unfoldable pub precedence_le : CompiledRoute → CompiledRoute → Bool
precedence_le a b =
    step (type_rank a) (type_rank b) (step (prefix_length b) (prefix_length a) (conditions_le a b))

-- The path types that compileMatch lets through.
pub data IsKnown : Text → Type 0 where
  is_exact : IsKnown exact
  is_prefix : IsKnown path_prefix
  is_regular : IsKnown regular_expression

kinds_read :
    (p q : Text) (m n : ℕ) (z : ℤ)
    → IsKnown p
    → IsKnown q
    → below (
        if not (p == q)
        then sub_ℕ (path_type_rank p) (path_type_rank q)
        else if (p == path_prefix) && not (nat_beq m n)
        then sub_ℕ n m
        else z)
      ≡ step
          (path_type_rank p)
          (path_type_rank q)
          (step (if q == path_prefix then n else 0) (if p == path_prefix then m else 0) (below z))
unfolding path_type_rank step below
kinds_read _ _ m n z is_exact is_exact = refl
kinds_read _ _ m n z is_exact is_prefix = refl
kinds_read _ _ m n z is_exact is_regular = refl
kinds_read _ _ m n z is_prefix is_exact = refl
kinds_read _ _ m n z is_prefix is_prefix = swapped m n z
kinds_read _ _ m n z is_prefix is_regular = refl
kinds_read _ _ m n z is_regular is_exact = refl
kinds_read _ _ m n z is_regular is_prefix = refl
kinds_read _ _ m n z is_regular is_regular = refl

abbrev pub HasKind : CompiledRoute → Type 0
HasKind r = IsKnown r.match.path.kind

pub route_read : (a b : CompiledRoute) → HasKind a → HasKind b → route_le a b ≡ precedence_le a b
unfolding route_le compare_compiled_routes precedence_le type_rank prefix_length below
route_read a b h k =
    kinds_read a.match.path.kind b.match.path.kind (byte_length a.match.path.value)
      (byte_length b.match.path.value) (compare_conditions a b) h k
    ∙ ap (λ u. step (type_rank a) (type_rank b) (step (prefix_length b) (prefix_length a) u))
        (conditions_read a b)

pub precedence_le_total :
    (a b : CompiledRoute) → precedence_le a b ≡ false → precedence_le b a ≡ true
unfolding precedence_le conditions_le identities_le
precedence_le_total a b h =
    step_total (type_rank a) (type_rank b) _ _
      (step_total (prefix_length b) (prefix_length a) _ _ (
        step_total (method_rank a) (method_rank b) _ _ (
          step_total (length b.match.headers) (length a.match.headers) _ _ (
            step_total (length b.match.query) (length a.match.query) _ _ (
              step_total a.creation b.creation _ _ (
                level_total a.object_key b.object_key _ _
                  (step_total a.rule_index b.rule_index _ _ (λ q. ground arith))))))))
      h

pub precedence_le_trans :
    (a b c : CompiledRoute)
    → precedence_le a b ≡ true
    → precedence_le b c ≡ true
    → precedence_le a c ≡ true
unfolding precedence_le conditions_le identities_le
precedence_le_trans a b c h k =
    step_trans (type_rank a) (type_rank b) (type_rank c) _ _ _
      (step_trans_down (prefix_length a) (prefix_length b) (prefix_length c) _ _ _ (
        step_trans (method_rank a) (method_rank b) (method_rank c) _ _ _ (
          step_trans_down (length a.match.headers) (length b.match.headers) (length c.match.headers)
            _ _ _
            (step_trans_down (length a.match.query) (length b.match.query) (length c.match.query) _
              _ _
              (step_trans a.creation b.creation c.creation _ _ _ (
                level_trans a.object_key b.object_key c.object_key _ _ _ (
                  step_trans a.rule_index b.rule_index c.rule_index _ _ _
                    (λ p q. ground arith))))))))
      h k
