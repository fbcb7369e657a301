-- ===== src/Ownership/Carried.antt =====
-- The lengths of markers and comments, and that a comment carries its marker.
use mathlib.Core.List.{append_assoc}
use flareway.Base.{
  ℕ, zero, suc, ◌-◌, ◌*◌, ◌≤◌, ◌≡◌, inl, inr, refl, sym, ap, ◌∙◌, Bool, true, false, ◌||◌, List, [],
  ◌∷◌, ◌++◌, if◌then◌else◌, nat_beq, length, length-append, Bool-cases, arith, any,
}
use flareway.Base.Classes.{◌==◌, nat_eq, list_eq, ==_iff, ==_refl}
use flareway.Base.Bytes.{Text, codes, is_empty, has_prefix, cut_prefix_complete, trim_space}
use flareway.Ownership.Ledger.{
  hex, take, carries, dns_record_comment_limit, dns_record_comment_separator,
  dns_record_comment_with_text, managed_by_tag,
}

pub length-hex : (bytes : List ℕ) → length (hex bytes) ≡ 2 * length bytes
unfolding hex
length-hex [] = omega arith
length-hex (b ∷ bytes) = omega (arith, length-hex bytes)

pub take_bounded : (n : ℕ) (s : Text) → length (take n s) ≤ n
unfolding take
take_bounded zero s = omega arith
take_bounded (suc n) [] = omega arith
take_bounded (suc n) (c ∷ s) = omega (arith, take_bounded n s)

-- The human text never takes a marker past the limit.
pub with_text_bounded :
    (owner text : Text)
    → length owner ≤ dns_record_comment_limit
    → length (dns_record_comment_with_text owner text) ≤ dns_record_comment_limit
unfolding dns_record_comment_with_text
with_text_bounded owner text h = ground (
  arith,
  length-append owner (codes " " ++ take (100 - length owner - 1) (trim_space text)),
  take_bounded (100 - length owner - 1) (trim_space text),
)

any_or : (b : Bool) → (b || true) ≡ true
any_or true = refl
any_or false = refl

pub marker_found :
    (separator marker rest : Text) → carries separator (marker ++ (separator ++ rest)) marker ≡ true
unfolding carries has_prefix
marker_found separator marker rest =
    rw (sym (append_assoc marker separator rest))
      (rw (cut_prefix_complete (marker ++ separator) rest, has_prefix) (any_or _))

pub marker_alone : (separator marker : Text) → carries separator marker marker ≡ true
unfolding carries
marker_alone separator marker = rw (==_refl marker) refl

-- Whatever human text follows, a reader finds the marker.
pub with_text_carries :
    (owner text : Text)
    → carries dns_record_comment_separator (dns_record_comment_with_text owner text) owner ≡ true
unfolding dns_record_comment_with_text
with_text_carries owner text =
    let alone = marker_alone dns_record_comment_separator owner in
    elim (Bool-cases (is_empty (trim_space text) || (trim_space text == managed_by_tag))) [
      | inl e ↦ rw e alone
      | inr e ↦ elim (Bool-cases (nat_beq (100 - length owner - 1) 0)) [
        | inl f ↦ rw (e, f) alone
        | inr f ↦
            rw (e, f)
              (marker_found dns_record_comment_separator owner
                (take (100 - length owner - 1) (trim_space text)))
      ]
    ]

pub either_nonempty :
    (b : Bool) (s t : Text) → is_empty s ≡ false → is_empty (if b then s ++ t else s) ≡ false
either_nonempty b [] t h = absurd (cc)
either_nonempty true (c ∷ s) t h = refl
either_nonempty false (c ∷ s) t h = refl

-- A marker that is accepted is accepted among both, in either place.
pub among_signed :
    (signed legacy : Text) (accepts : Text → Bool)
    → accepts signed ≡ true
    → any accepts (if signed == legacy then legacy ∷ [] else signed ∷ legacy ∷ []) ≡ true
among_signed signed legacy accepts h = elim (Bool-cases (signed == legacy)) [
  | inl e ↦ rw e (rw (ap accepts (sym ((==_iff signed legacy).0 e)) ∙ h) refl)
  | inr e ↦ rw e (rw h refl)
]

pub among_legacy :
    (signed legacy : Text) (accepts : Text → Bool)
    → accepts legacy ≡ true
    → any accepts (if signed == legacy then legacy ∷ [] else signed ∷ legacy ∷ []) ≡ true
among_legacy signed legacy accepts h = elim (Bool-cases (signed == legacy)) [
  | inl e ↦ rw e (rw h refl)
  | inr e ↦ rw e (rw h (any_or (accepts signed)))
]
