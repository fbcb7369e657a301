-- ===== src/GatewayApi/RefGrant.antt =====
-- internal/gatewayapi/refgrant.go.
use mathlib.Core.List.{Memᴰ}
use flareway.Base.{
  ◌≡◌, ◌↔◌, ◌⊎◌, inl, inr, refl, ap, if_same, subst, Bool, true, false, ◌&&◌, ◌||◌, not, Option,
  none, some, String, List, if◌then◌else◌, any, any_sound, any_complete, arith, Bool-cases,
}
use flareway.Base.Classes.{◌==◌, string_eq}
use text.Mathlib.TextEquality.{eq_iff}

pub record ReferenceSource : Type 0 where
  pub group : String
  pub kind : String
  pub namespace : String

pub record ReferenceTarget : Type 0 where
  pub group : String
  pub kind : String
  pub namespace : String
  pub name : String

-- An entry of a ReferenceGrant's `to`; a missing name is any.
pub record GrantTo : Type 0 where
  pub group : String
  pub kind : String
  pub name : Option String

-- An entry of `from` has the fields of a source.
pub record ReferenceGrant : Type 0 where
  pub namespace : String
  pub from : List ReferenceSource
  pub to : List GrantTo

unfoldable pub is_from : ReferenceSource → ReferenceSource → Bool
is_from from grant_from =
    grant_from.namespace == from.namespace
    && (grant_from.group == from.group && grant_from.kind == from.kind)

-- `grantTo.Name == nil || *grantTo.Name == "" || *grantTo.Name == to.Name`
unfoldable pub names_target : Option String → String → Bool
names_target none name = true
names_target (some n) name = n == "" || n == name

unfoldable pub is_to : ReferenceTarget → GrantTo → Bool
is_to to grant_to =
    if not (grant_to.group == to.group) || not (grant_to.kind == to.kind)
    then false
    else names_target grant_to.name to.name

-- One round of the loop over the grants.
unfoldable pub grants_reference : ReferenceSource → ReferenceTarget → ReferenceGrant → Bool
grants_reference from to grant =
    if not (grant.namespace == to.namespace)
    then false
    else if not (any (is_from from) grant.from)
    then false
    else any (is_to to) grant.to

unfoldable pub is_cross_namespace_reference_permitted :
    ReferenceSource → ReferenceTarget → List ReferenceGrant → Bool
is_cross_namespace_reference_permitted from to grants =
    if from.namespace == to.namespace then true else any (grants_reference from to) grants

-- A grant in the target's namespace that lists the source and the target.
pub record Grants (from : ReferenceSource) (to : ReferenceTarget) (grant : ReferenceGrant)
    : Type 0 where
  pub namespace : grant.namespace ≡ to.namespace
  pub source : Memᴰ from grant.from
  pub entry : GrantTo
  pub listed : Memᴰ entry grant.to
  pub group : entry.group ≡ to.group
  pub kind : entry.kind ≡ to.kind
  pub name : (entry.name ≡ none) ⊎ ((entry.name ≡ some "") ⊎ (entry.name ≡ some to.name))

source_eq :
    (x y : ReferenceSource)
    → x.namespace ≡ y.namespace
    → x.group ≡ y.group
    → x.kind ≡ y.kind
    → x ≡ y
source_eq x y n g k = cc

is_from_iff : (from x : ReferenceSource) → (is_from from x ≡ true) ↔ (x ≡ from)
unfolding is_from
is_from_iff from x = (
  λ h.
      source_eq x from (ground (arith, eq_iff x.namespace from.namespace))
        (ground (arith, eq_iff x.group from.group)) (ground (arith, eq_iff x.kind from.kind)),
  λ e. rw e (
      rw (
        (eq_iff from.namespace from.namespace).1 refl,
        (eq_iff from.group from.group).1 refl,
        (eq_iff from.kind from.kind).1 refl,
      )),
)

names_iff :
    (o : Option String) (name : String)
    → (names_target o name ≡ true) ↔ ((o ≡ none) ⊎ ((o ≡ some "") ⊎ (o ≡ some name)))
unfolding names_target
names_iff none name = (λ h. inl refl, λ h. refl)
names_iff (some n) name = (sound, complete)
  where
    sound :
        (n == "" || n == name) ≡ true
        → (some n ≡ none) ⊎ ((some n ≡ some "") ⊎ (some n ≡ some name))
    sound h = elim (Bool-cases (n == "")) [
      | inl e ↦ inr (inl (ap some ((eq_iff n "").0 e)))
      | inr e ↦ inr (inr (ap some ((eq_iff n name).0 (rw e at h))))
    ]

    same : (a b : String) → some a ≡ some b → (a == b) ≡ true
    same a b e = (eq_iff a b).1 cc

    complete :
        (some n ≡ none) ⊎ ((some n ≡ some "") ⊎ (some n ≡ some name))
        → (n == "" || n == name) ≡ true
    complete (inl e) = absurd cc
    complete (inr (inl e)) = rw (same n "" e)
    complete (inr (inr e)) = ground (arith, same n name e)

is_to_iff :
    (to : ReferenceTarget) (x : GrantTo)
    → (is_to to x ≡ true) ↔ (
        (x.group ≡ to.group)
        × (x.kind ≡ to.kind)
        × ((x.name ≡ none) ⊎ ((x.name ≡ some "") ⊎ (x.name ≡ some to.name))))
unfolding is_to
is_to_iff to x = (
  λ h. (
    ground (arith, eq_iff x.group to.group),
    ground (arith, eq_iff x.kind to.kind),
    (names_iff x.name to.name).0 (ground arith),
  ),
  λ (g, k, n).
      rw (g, k)
        (rw ((eq_iff to.group to.group).1 refl, (eq_iff to.kind to.kind).1 refl)
          ((names_iff x.name to.name).1 n)),
)

module _ (from : ReferenceSource) (to : ReferenceTarget) where
  Grants-sound : (g : ReferenceGrant) → grants_reference from to g ≡ true → Grants from to g
  unfolding grants_reference
  Grants-sound g h =
      let (x, m, e) = any_sound (is_from from) g.from (ground arith) in
      let (y, l, f) = any_sound (is_to to) g.to (ground arith) in
      let (a, b, c) = (is_to_iff to y).0 f in
      record {
        namespace = ground (arith, eq_iff g.namespace to.namespace);
        source = subst (λ z. Memᴰ z g.from) ((is_from_iff from x).0 e) m;
        entry = y;
        listed = l;
        group = a;
        kind = b;
        name = c;
      }

  Grants-complete : (g : ReferenceGrant) → Grants from to g → grants_reference from to g ≡ true
  unfolding grants_reference
  Grants-complete g k =
      rw
        (
          (eq_iff g.namespace to.namespace).1 k.namespace,
          any_complete (is_from from) from g.from k.source ((is_from_iff from from).1 refl),
        )
        (any_complete (is_to to) k.entry g.to k.listed
          ((is_to_iff to k.entry).1 (k.group, k.kind, k.name)))

  -- A reference is permitted exactly if it stays in its namespace, or a ReferenceGrant in the
  -- target's namespace lists the source's namespace, group and kind, and an entry of the target's
  -- group and kind whose name is absent, empty or the target's.
  pub permitted_iff :
      (grants : List ReferenceGrant)
      → (is_cross_namespace_reference_permitted from to grants ≡ true) ↔ (
          (from.namespace ≡ to.namespace)
          ⊎ ((g : ReferenceGrant) × Memᴰ g grants × Grants from to g))
  unfolding is_cross_namespace_reference_permitted
  permitted_iff grants = (sound, complete)
    where
      sound :
          is_cross_namespace_reference_permitted from to grants ≡ true
          → (from.namespace ≡ to.namespace)
            ⊎ ((g : ReferenceGrant) × Memᴰ g grants × Grants from to g)
      sound h = elim (Bool-cases (from.namespace == to.namespace)) [
        | inl e ↦ inl ((eq_iff from.namespace to.namespace).0 e)
        | inr e ↦
            let (g, m, f) = any_sound (grants_reference from to) grants (rw e at h) in
            inr (g, m, Grants-sound g f)
      ]

      complete :
          (from.namespace ≡ to.namespace)
            ⊎ ((g : ReferenceGrant) × Memᴰ g grants × Grants from to g)
          → is_cross_namespace_reference_permitted from to grants ≡ true
      complete (inl e) = rw ((eq_iff from.namespace to.namespace).1 e)
      complete (inr (g, m, k)) =
          rw (any_complete (grants_reference from to) g grants m (Grants-complete g k))
            (if_same (from.namespace == to.namespace))
