-- ===== src/Ownership/Texts.antt =====
-- The human text behind the marker of a private resource, and how the marker is cut off again.
use mathlib.Core.List.{append-nil}
use flareway.Base.{
  ℕ, ◌-◌, ◌≤◌, length, length-append, ◌≡◌, ◌⊎◌, inl, inr, refl, sym, ap, subst, ◌∙◌, Bool, true,
  false, List, [], ◌∷◌, ◌++◌, if◌then◌else◌, nat_beq, nat_beq_iff, Bool-cases, arith,
}
use flareway.Base.Classes.{nat_eq, list_eq}
use flareway.Base.Bytes.{Text, codes, has_prefix, cut_prefix, contains_code}
use flareway.Ownership.Ledger.{hex_digit, identity, hex, take, plain_owner, carries}
use flareway.Ownership.Comments.{private_text}
use flareway.Ownership.Carried.{marker_found, marker_alone, take_bounded}
use flareway.Sweep.Names.{before_text}

-- No part has a space, and the cluster has no colon, as the names of Kubernetes objects and UIDs.
abbrev pub IsPlain : Text → Text → Text → Type 0
IsPlain cluster_id namespace name =
    (contains_code cluster_id b' ' ≡ false)
    × (contains_code namespace b' ' ≡ false)
    × (contains_code name b' ' ≡ false)
    × (contains_code cluster_id b':' ≡ false)

before_clean :
    (s t : Text)
    → contains_code s b' ' ≡ false
    → (t ≡ []) ⊎ ((r : Text) × (t ≡ codes " | " ++ r))
    → before_text (s ++ t) (codes " | ") ≡ s
unfolding before_text has_prefix cut_prefix contains_code
before_clean [] t h (inl e) = rw e refl
before_clean [] t h (inr (r, e)) = rw e refl
before_clean (c ∷ s) t h w = ground (arith, before_clean s t, nat_beq_iff c 32, nat_beq_iff 32 c)

contains_code-append :
    (s t : Text) (x : ℕ)
    → contains_code s x ≡ false
    → contains_code t x ≡ false
    → contains_code (s ++ t) x ≡ false
unfolding contains_code
contains_code-append [] t x h k = k
contains_code-append (c ∷ s) t x h k = ground (arith, contains_code-append s t x)

no_bar :
    (c r t : Text)
    → contains_code (c ++ (b'/' ∷ r)) b' ' ≡ false
    → has_prefix (b' ' ∷ ((c ++ (b'/' ∷ r)) ++ t)) (codes " | ") ≡ false
unfolding has_prefix cut_prefix contains_code
no_bar [] r t h = refl
no_bar (d ∷ []) r t h = ground arith
no_bar (d ∷ e ∷ c) r t h = ground arith

owner_before :
    (c r t : Text)
    → contains_code (c ++ (b'/' ∷ r)) b' ' ≡ false
    → (t ≡ []) ⊎ ((r : Text) × (t ≡ codes " | " ++ r))
    → before_text ((codes "flareway " ++ (c ++ (b'/' ∷ r))) ++ t) (codes " | ")
      ≡ codes "flareway " ++ (c ++ (b'/' ∷ r))
unfolding before_text has_prefix cut_prefix
owner_before c r t h w =
    ap (λ s. codes "flareway" ++ s)
      (rw (no_bar c r t h) (rw (before_clean (c ++ (b'/' ∷ r)) t h w) refl))

with_rest :
    (owner text : Text)
    → (t : Text) × (private_text owner text ≡ owner ++ t)
      × ((t ≡ []) ⊎ ((r : Text) × (t ≡ codes " | " ++ r)))
unfolding private_text
with_rest owner [] = ([], sym (append-nil owner), inl refl)
with_rest owner (c ∷ text) = elim (Bool-cases (nat_beq (100 - length owner - 3) 0)) [
  | inl e ↦ ([], rw e (sym (append-nil owner)), inl refl)
  | inr e ↦ (
    codes " | " ++ take (100 - length owner - 3) (c ∷ text),
    rw e refl,
    inr (take (100 - length owner - 3) (c ∷ text), refl),
  )
]

pub with_rest_carries :
    (owner text : Text) → carries (codes " | ") (private_text owner text) owner ≡ true
with_rest_carries owner text =
    let (t, e, f) = with_rest owner text in
    elim f [
      | inl g ↦
          subst (λ u. carries (codes " | ") u owner ≡ true)
            (sym (e ∙ ap (λ v. owner ++ v) g ∙ append-nil owner)) (marker_alone (codes " | ") owner)
      | inr (r, g) ↦
          subst (λ u. carries (codes " | ") u owner ≡ true) (sym (e ∙ ap (λ v. owner ++ v) g))
            (marker_found (codes " | ") owner r)
    ]

pub private_text_bounded :
    (owner text : Text) → length owner ≤ 100 → length (private_text owner text) ≤ 100
unfolding private_text
private_text_bounded owner text h = ground (
  arith,
  length-append owner (codes " | " ++ take (100 - length owner - 3) text),
  take_bounded (100 - length owner - 3) text,
)

-- The text behind the marker is cut off again.
pub IsCut : Text → Type 0
IsCut owner =
    (t : Text)
    → (t ≡ []) ⊎ ((r : Text) × (t ≡ codes " | " ++ r))
    → before_text (owner ++ t) (codes " | ") ≡ owner

pub either_IsCut : (b : Bool) (s t : Text) → IsCut s → IsCut t → IsCut (if b then s else t)
either_IsCut true s t h k = h
either_IsCut false s t h k = k

pub digest_IsCut : (s : Text) → contains_code s b' ' ≡ false → IsCut (codes "flareway sha256:" ++ s)
unfolding IsCut before_text has_prefix cut_prefix
digest_IsCut s h t w = ap (λ u. codes "flareway sha256:" ++ u) (before_clean s t h w)

pub plain_IsCut : (c n s : Text) → IsPlain c n s → IsCut (plain_owner c n s)
unfolding IsCut plain_owner identity contains_code
plain_IsCut c n s (x, y, z, w) t = owner_before c (n ++ (b'/' ∷ s)) t (
    contains_code-append c (b'/' ∷ (n ++ (b'/' ∷ s))) b' ' x
      (contains_code-append n (b'/' ∷ s) b' ' y z))

pub cut_text :
    (owner text : Text) → IsCut owner → before_text (private_text owner text) (codes " | ") ≡ owner
unfolding IsCut
cut_text owner text h =
    let (t, e, f) = with_rest owner text in ap (λ u. before_text u (codes " | ")) e ∙ h t f

pub hex_no_space : (bytes : List ℕ) → contains_code (hex bytes) b' ' ≡ false
unfolding hex hex_digit contains_code
hex_no_space [] = refl
hex_no_space (b ∷ bytes) = ground (arith, hex_no_space bytes)
