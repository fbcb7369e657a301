-- ===== src/GatewayApi/PolicyOrder.antt =====
-- The order of matchingBackendTLSPolicies, and the first of a list in it.
use mathlib.Core.List.{Memᴰ}
use flareway.Base.{
  ◌≡◌, ◌⊎◌, ◌≤◌, inl, inr, refl, sym, ap, ◌∙◌, true, false, not, none, some, List, [], ◌∷◌, ◌++◌,
  arith, Bool-cases,
}
use flareway.Base.Classes.{string_eq}
use flareway.Base.Bytes.{Text, codes, text_lt}
use flareway.Base.Comparisons.{
  below, step, step_total, step_trans, chosen_time, text_order, text_lt_asym, no_lt_trans,
}
use flareway.Base.Sorting.{sort, IsSorted, sort_member, sort_complete, sort-IsSorted}
use flareway.GatewayApi.TlsPolicies.{BackendTlsPolicy, policy_le, prefer_sections, first_of}

abbrev pub object_key : BackendTlsPolicy → Text
object_key p = codes p.namespace ++ (b'/' ∷ codes p.name)

policy_le_read :
    (a b : BackendTlsPolicy)
    → policy_le a b ≡ step a.creation b.creation (not (text_lt (object_key b) (object_key a)))
unfolding policy_le below
policy_le_read a b =
    chosen_time a.creation b.creation _
    ∙ ap (step a.creation b.creation) (text_order (object_key a) (object_key b))

policy_le_total : (a b : BackendTlsPolicy) → policy_le a b ≡ false → policy_le b a ≡ true
policy_le_total a b h =
    policy_le_read b a
    ∙ step_total a.creation b.creation _ _
        (λ f. ap not (text_lt_asym (object_key b) (object_key a) (ground arith)))
        (sym (policy_le_read a b) ∙ h)

policy_le_trans :
    (a b c : BackendTlsPolicy) → policy_le a b ≡ true → policy_le b c ≡ true → policy_le a c ≡ true
policy_le_trans a b c h k =
    policy_le_read a c
    ∙ step_trans a.creation b.creation c.creation _ _ _
        (λ f g.
          ap not (
            no_lt_trans (object_key a) (object_key b) (object_key c) (ground arith) (ground arith)))
        (sym (policy_le_read a b) ∙ h) (sym (policy_le_read b c) ∙ k)

-- Created no later, and named no later of those created at the same time.
pub record IsOlder (a b : BackendTlsPolicy) : Type 0 where
  pub creation : a.creation ≤ b.creation
  pub name : a.creation ≡ b.creation → text_lt (object_key b) (object_key a) ≡ false

policy_le-IsOlder : (a b : BackendTlsPolicy) → policy_le a b ≡ true → IsOlder a b
unfolding step
policy_le-IsOlder a b h =
    let k = sym (policy_le_read a b) ∙ h in
    record { creation = ground arith; name = λ e. ground arith }

policy_le_refl : (a : BackendTlsPolicy) → policy_le a a ≡ true
policy_le_refl a = elim (Bool-cases (policy_le a a)) [ inl e ↦ e | inr e ↦ policy_le_total a a e ]

first_sorted :
    (xs : List BackendTlsPolicy) (w : BackendTlsPolicy)
    → IsSorted policy_le xs
    → first_of xs ≡ some w
    → Memᴰ w xs × ((p : BackendTlsPolicy) → Memᴰ p xs → IsOlder w p)
first_sorted [] w s e = absurd (cc)
first_sorted (x ∷ xs) w s e =
    let q : w ≡ x = cc in (Memᴰ.head q, λ p m. rw q (policy_le-IsOlder x p (later p m)))
  where
    later : (p : BackendTlsPolicy) → Memᴰ p (x ∷ xs) → policy_le x p ≡ true
    later p (Memᴰ.head r) = rw r (policy_le_refl x)
    later p (Memᴰ.tail m) = s.0 p m

pub first_sort :
    (ps : List BackendTlsPolicy) (w : BackendTlsPolicy)
    → first_of (sort policy_le ps) ≡ some w
    → Memᴰ w ps × ((p : BackendTlsPolicy) → Memᴰ p ps → IsOlder w p)
first_sort ps w e =
    let sorted = sort-IsSorted policy_le policy_le_total policy_le_trans ps in
    let (m, f) = first_sorted (sort policy_le ps) w sorted e in
    (sort_member policy_le w ps m, λ p n. f p (sort_complete policy_le p ps n))

nothing_first :
    (xs : List BackendTlsPolicy) (p : BackendTlsPolicy) → first_of xs ≡ none → ¬ Memᴰ p xs
nothing_first [] p e m = elim m [ ]
nothing_first (x ∷ xs) p e m = absurd (cc)

pub nothing_sorted :
    (ps : List BackendTlsPolicy) (p : BackendTlsPolicy)
    → first_of (sort policy_le ps) ≡ none
    → ¬ Memᴰ p ps
nothing_sorted ps p e m = nothing_first (sort policy_le ps) p e (sort_complete policy_le p ps m)

pub prefer-cases :
    (s w : List BackendTlsPolicy)
    → ((prefer_sections (s, w) ≡ s) × (x : BackendTlsPolicy) × Memᴰ x s)
      ⊎ ((prefer_sections (s, w) ≡ w) × (s ≡ []))
unfolding prefer_sections
prefer-cases [] w = inr (refl, refl)
prefer-cases (x ∷ s) w = inl (refl, x, Memᴰ.head refl)
