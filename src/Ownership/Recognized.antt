-- ===== src/Ownership/Recognized.antt =====
-- That the markers written are within the limits, and that readers recognise them.
use flareway.Base.{
  ℕ, ◌≤◌, ◌≡◌, ◌⊎◌, inl, inr, refl, sym, subst, true, false, List, [], ◌∷◌, ◌++◌, leb, length,
  length-append, Bool-cases, arith, any,
}
use flareway.Base.Classes.{nat_eq, list_eq}
use flareway.Base.Bytes.{Text, codes, is_empty}
use flareway.Ownership.Ledger.{
  hex, take, identity, plain_owner, dns_record_comment, dns_record_comment_limit,
  is_owned_dns_record, dns_record_comment_with_text,
}
use flareway.Ownership.Signed.{
  hmac_marker, sign_dns_record_comment, sign_dns_record_comment_with_text,
  dns_record_ownership_markers,
}
use flareway.Ownership.Carried.{
  length-hex, take_bounded, with_text_bounded, with_text_carries, either_nonempty, among_signed,
  among_legacy,
}

module _ (sha256 : Text → List ℕ) (hmac_sha256 : Text → Text → List ℕ) where
  digest_fits :
      ((s : Text) → length (sha256 s) ≡ 32)
      → (cluster_id namespace name : Text)
      → length (dns_record_comment sha256 cluster_id namespace name) ≤ dns_record_comment_limit
  unfolding dns_record_comment
  digest_fits h c n g = elim (Bool-cases (leb (length (plain_owner c n g)) 100)) [
    | inl e ↦ rw e (ground arith)
    | inr e ↦ rw e (
        omega (
          arith,
          length-append (codes "flareway sha256:") (hex (sha256 (identity c n g))),
          length-hex (sha256 (identity c n g)),
          h (identity c n g),
        ))
  ]

  marker_fits : (key identity_ : Text) → length (hmac_marker sha256 hmac_sha256 key identity_) ≤ 46
  unfolding hmac_marker
  marker_fits key i = omega (
    arith,
    length-append (codes "flareway hmac:") (hex (take 16 (hmac_sha256 key i))),
    length-hex (take 16 (hmac_sha256 key i)),
    take_bounded 16 (hmac_sha256 key i),
  )

  signed_fits :
      ((s : Text) → length (sha256 s) ≡ 32)
      → (key cluster_id namespace name : Text)
      → length (sign_dns_record_comment sha256 hmac_sha256 key cluster_id namespace name)
        ≤ dns_record_comment_limit
  unfolding sign_dns_record_comment
  signed_fits h [] c n g = digest_fits h c n g
  signed_fits h (k ∷ key) c n g = ground (
    arith,
    marker_fits (k ∷ key) (identity c n g),
    length-append (hmac_marker sha256 hmac_sha256 (k ∷ key) (identity c n g))
        (codes " " ++ (n ++ (b'/' ∷ g))),
  )

  comment_fits :
      ((s : Text) → length (sha256 s) ≡ 32)
      → (key cluster_id namespace name text : Text)
      → length
          (sign_dns_record_comment_with_text sha256 hmac_sha256 key cluster_id namespace name text)
        ≤ dns_record_comment_limit
  unfolding sign_dns_record_comment_with_text
  comment_fits h key c n g text =
      with_text_bounded (sign_dns_record_comment sha256 hmac_sha256 key c n g) text
        (signed_fits h key c n g)

  recognised :
      (owner text : Text)
      → is_empty owner ≡ false
      → (kind content : Text)
      → is_owned_dns_record
          (record {
            comment = dns_record_comment_with_text owner text;
            kind = kind;
            content = content;
          })
          owner
        ≡ true
  unfolding is_owned_dns_record
  recognised owner text e kind content = rw e (with_text_carries owner text)

  plain_nonempty :
      (cluster_id namespace name : Text)
      → is_empty (dns_record_comment sha256 cluster_id namespace name) ≡ false
  unfolding dns_record_comment plain_owner
  plain_nonempty c n g = elim (Bool-cases (leb (length (plain_owner c n g)) 100)) [
    | inl e ↦ rw e refl
    | inr e ↦ rw e refl
  ]

  signed_nonempty :
      (key cluster_id namespace name : Text)
      → is_empty (sign_dns_record_comment sha256 hmac_sha256 key cluster_id namespace name) ≡ false
  unfolding sign_dns_record_comment hmac_marker
  signed_nonempty [] c n g = plain_nonempty c n g
  signed_nonempty (k ∷ key) c n g =
      either_nonempty _ (hmac_marker sha256 hmac_sha256 (k ∷ key) (identity c n g))
        (codes " " ++ (n ++ (b'/' ∷ g))) refl

  marker_recognised :
      (key written cluster_id namespace name text kind content : Text)
      → (written ≡ key) ⊎ (written ≡ [])
      → any
          (is_owned_dns_record (record {
            comment =
                sign_dns_record_comment_with_text sha256 hmac_sha256 written cluster_id namespace
                  name text;
            kind = kind;
            content = content;
          }))
          (dns_record_ownership_markers sha256 hmac_sha256 key cluster_id namespace name)
        ≡ true
  unfolding sign_dns_record_comment_with_text dns_record_ownership_markers sign_dns_record_comment
  marker_recognised key written c n g text kind content (inl e) =
      let marker = sign_dns_record_comment sha256 hmac_sha256 key c n g in
      subst
        (λ k.
          any
            (is_owned_dns_record (record {
              comment = sign_dns_record_comment_with_text sha256 hmac_sha256 k c n g text;
              kind = kind;
              content = content;
            }))
            (dns_record_ownership_markers sha256 hmac_sha256 key c n g)
          ≡ true)
        (sym e)
        (among_signed marker _ _ (recognised marker text (signed_nonempty key c n g) kind content))
  marker_recognised key written c n g text kind content (inr e) =
      let marker = sign_dns_record_comment sha256 hmac_sha256 [] c n g in
      subst
        (λ k.
          any
            (is_owned_dns_record (record {
              comment = sign_dns_record_comment_with_text sha256 hmac_sha256 k c n g text;
              kind = kind;
              content = content;
            }))
            (dns_record_ownership_markers sha256 hmac_sha256 key c n g)
          ≡ true)
        (sym e)
        (among_legacy _ (dns_record_comment sha256 c n g) _
          (recognised marker text (signed_nonempty [] c n g) kind content))

  -- If SHA-256 answers 32 bytes, the comment that SignDNSRecordCommentWithText writes for a
  -- Gateway, with the current key or with none, and whatever the human text, is at most 100 code
  -- points long and is accepted by IsOwnedDNSRecord for one of the markers that
  -- DNSRecordOwnershipMarkers gives to readers.
  pub comment_recognised :
      ((s : Text) → length (sha256 s) ≡ 32)
      → (key written cluster_id namespace name text kind content : Text)
      → (written ≡ key) ⊎ (written ≡ [])
      → let comment =
          sign_dns_record_comment_with_text sha256 hmac_sha256 written cluster_id namespace name
            text in
        (length comment ≤ dns_record_comment_limit)
        × (any
              (is_owned_dns_record (record { comment = comment; kind = kind; content = content }))
              (dns_record_ownership_markers sha256 hmac_sha256 key cluster_id namespace name)
            ≡ true)
  comment_recognised h key written c n g text kind content w =
      (comment_fits h written c n g text, marker_recognised key written c n g text kind content w)
