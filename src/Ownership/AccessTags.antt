-- ===== src/Ownership/AccessTags.antt =====
-- That the tags of Access objects have the length that is allowed, and that readers accept them.
use flareway.Base.{
  ℕ, zero, suc, ◌-◌, ◌≤◌, ◌≡◌, refl, Bool, true, false, List, [], ◌∷◌, if◌then◌else◌, length,
  length-append, arith,
}
use flareway.Base.Classes.{nat_eq, list_eq, ==_refl}
use flareway.Base.Bytes.{Text, is_empty}
use flareway.Ownership.Ledger.{hex, take, owner_tag}
use flareway.Ownership.Signed.{
  Match, access_tag_name_max_length, access_owner_tag_prefix, sign_access_digest_tag,
  verify_access_digest_tag, sign_access_owner_tag, verify_access_owner_tag,
}
use flareway.Ownership.Carried.{length-hex}

length-take : (n : ℕ) (s : Text) → n ≤ length s → length (take n s) ≡ n
unfolding take
length-take zero s h = refl
length-take (suc n) [] h = absurd (omega arith)
length-take (suc n) (c ∷ s) h = omega (arith, length-take n s (omega arith))

if_both :
    (b : Bool) (s t : List ℕ) → length s ≡ 32 → length t ≡ 32 → length (if b then s else t) ≡ 32
if_both true s t h k = h
if_both false s t h k = k

either_match : (b : Bool) → (if◌then◌else◌ {A = Match} b (true, false) (true, true)).0 ≡ true
either_match true = refl
either_match false = refl

module _ (sha256 : Text → List ℕ) (hmac_sha256 : Text → Text → List ℕ) where
  tag_length :
      ((s : Text) → length (sha256 s) ≡ 32)
      → ((k s : Text) → length (hmac_sha256 k s) ≡ 32)
      → (key prefix i : Text) → length prefix ≤ 35
      → length (sign_access_digest_tag sha256 hmac_sha256 key prefix i) ≡ 35
  unfolding sign_access_digest_tag
  tag_length h k key prefix i l =
      let bytes = if is_empty key then sha256 i else hmac_sha256 key i in
      let full : length bytes ≡ 32 = if_both (is_empty key) _ _ (h i) (k key i) in
      omega (
        arith,
        length-append prefix (take (35 - length prefix) (hex bytes)),
        length-take (35 - length prefix) (hex bytes) (omega (arith, length-hex bytes, full)),
      )

  verify_own :
      (key prefix i : Text)
      → verify_access_digest_tag sha256 hmac_sha256
          (sign_access_digest_tag sha256 hmac_sha256 key prefix i)
          key
          prefix
          i
        ≡ (true, is_empty key)
  unfolding verify_access_digest_tag
  verify_own [] prefix i = rw (==_refl (sign_access_digest_tag sha256 hmac_sha256 [] prefix i)) refl
  verify_own (k ∷ key) prefix i =
      rw (==_refl (sign_access_digest_tag sha256 hmac_sha256 (k ∷ key) prefix i)) refl

  verify_legacy :
      (key prefix i : Text)
      → (verify_access_digest_tag sha256 hmac_sha256
          (sign_access_digest_tag sha256 hmac_sha256 [] prefix i)
          key
          prefix
          i).0
        ≡ true
  unfolding verify_access_digest_tag
  verify_legacy [] prefix i =
      rw (==_refl (sign_access_digest_tag sha256 hmac_sha256 [] prefix i)) refl
  verify_legacy (k ∷ key) prefix i =
      rw (==_refl (sign_access_digest_tag sha256 hmac_sha256 [] prefix i)) (either_match _)

  -- If SHA-256 and its HMAC answer 32 bytes, an owner tag of SignAccessOwnerTag is exactly 35 code
  -- points long; VerifyAccessOwnerTag accepts it with the key that signed it, as legacy exactly if
  -- there is none, and accepts the tag made without a key whatever the key.
  access_tag_lem :
      ((s : Text) → length (sha256 s) ≡ 32)
      → ((k s : Text) → length (hmac_sha256 k s) ≡ 32)
      → (key cluster_id namespace name uid : Text)
      → let signed = sign_access_owner_tag sha256 hmac_sha256 key cluster_id namespace name uid in
        let legacy = sign_access_owner_tag sha256 hmac_sha256 [] cluster_id namespace name uid in
        (length signed ≡ access_tag_name_max_length)
        × (verify_access_owner_tag sha256 hmac_sha256 signed key cluster_id namespace name uid
            ≡ (true, is_empty key))
        × ((verify_access_owner_tag sha256 hmac_sha256 legacy key cluster_id namespace name uid).0
            ≡ true)
  unfolding sign_access_owner_tag verify_access_owner_tag
  access_tag_lem h k key c n g uid = (
    tag_length h k key access_owner_tag_prefix (owner_tag c n g uid) (omega arith),
    verify_own key access_owner_tag_prefix (owner_tag c n g uid),
    verify_legacy key access_owner_tag_prefix (owner_tag c n g uid),
  )
