-- ===== src/Ownership/Signed.antt =====
-- internal/cloudflare/ownership.go: the markers that a key signs. SHA-256 and its HMAC are parameters.
use flareway.Base.{
  ℕ, ◌+◌, ◌-◌, ◌/◌, Bool, true, false, not, ◌&&◌, List, [], ◌∷◌, ◌++◌, if◌then◌else◌, leb, ltb,
  length,
}
use flareway.Base.Classes.{◌==◌, nat_eq, list_eq}
use flareway.Base.Bytes.{Text, codes, is_empty}
use flareway.Ownership.Ledger.{
  hex, take, identity, owner_tag, carries, private_resource_comment, is_owned_private_resource,
  dns_record_comment, dns_record_comment_limit, dns_record_comment_separator,
  dns_record_comment_with_text,
}

abbrev pub access_owner_tag_prefix : Text
access_owner_tag_prefix = codes "flareway-owner-"

abbrev pub access_bypass_tag_prefix : Text
access_bypass_tag_prefix = codes "flareway-bypass-"

abbrev pub hmac_marker_prefix : Text
hmac_marker_prefix = codes "flareway hmac:"

abbrev pub hmac_marker_hex_length : ℕ
hmac_marker_hex_length = 32

abbrev pub private_resource_comment_limit : ℕ
private_resource_comment_limit = 100

abbrev pub access_tag_name_max_length : ℕ
access_tag_name_max_length = 35

-- What a tag matches: the marker, and whether it is the one without a key.
abbrev pub Match : Type 0
Match = Bool × Bool

module _ (sha256 : Text → List ℕ) (hmac_sha256 : Text → Text → List ℕ) where
  unfoldable pub sign_access_digest_tag : Text → Text → Text → Text
  sign_access_digest_tag key prefix identity_ =
      prefix
      ++ take (access_tag_name_max_length - length prefix)
          (hex (if is_empty key then sha256 identity_ else hmac_sha256 key identity_))

  unfoldable pub verify_access_digest_tag : Text → Text → Text → Text → Match
  verify_access_digest_tag tag key prefix identity_ =
      if not (is_empty key) && (tag == sign_access_digest_tag key prefix identity_)
      then (true, false)
      else if tag == sign_access_digest_tag [] prefix identity_
      then (true, true)
      else (false, false)

  unfoldable pub sign_access_owner_tag : Text → Text → Text → Text → Text → Text
  sign_access_owner_tag key cluster_id namespace name uid =
      sign_access_digest_tag key access_owner_tag_prefix (owner_tag cluster_id namespace name uid)

  unfoldable pub sign_access_bypass_tag : Text → Text → Text → Text
  sign_access_bypass_tag key owner child_name =
      sign_access_digest_tag key access_bypass_tag_prefix (owner ++ (0 ∷ child_name))

  unfoldable pub verify_access_owner_tag : Text → Text → Text → Text → Text → Text → Match
  verify_access_owner_tag tag key cluster_id namespace name uid =
      verify_access_digest_tag tag key access_owner_tag_prefix
        (owner_tag cluster_id namespace name uid)

  unfoldable pub verify_access_bypass_tag : Text → Text → Text → Text → Match
  verify_access_bypass_tag tag key owner child_name =
      verify_access_digest_tag tag key access_bypass_tag_prefix (owner ++ (0 ∷ child_name))

  -- The first sixteen bytes of the HMAC.
  unfoldable pub hmac_marker : Text → Text → Text
  hmac_marker key identity_ =
      hmac_marker_prefix ++ hex (take (hmac_marker_hex_length / 2) (hmac_sha256 key identity_))

  unfoldable pub sign_dns_record_comment : Text → Text → Text → Text → Text
  sign_dns_record_comment key cluster_id namespace gateway_name =
      let marker = hmac_marker key (identity cluster_id namespace gateway_name) in
      let suffix = namespace ++ (b'/' ∷ gateway_name) in
      if is_empty key
      then dns_record_comment sha256 cluster_id namespace gateway_name
      else if leb (length marker + length dns_record_comment_separator + length suffix)
          dns_record_comment_limit
      then marker ++ (dns_record_comment_separator ++ suffix)
      else marker

  unfoldable pub sign_dns_record_comment_with_text : Text → Text → Text → Text → Text → Text
  sign_dns_record_comment_with_text key cluster_id namespace gateway_name text =
      dns_record_comment_with_text (sign_dns_record_comment key cluster_id namespace gateway_name)
        text

  unfoldable pub dns_record_ownership_markers : Text → Text → Text → Text → List Text
  dns_record_ownership_markers key cluster_id namespace gateway_name =
      let signed = sign_dns_record_comment key cluster_id namespace gateway_name in
      let legacy = dns_record_comment sha256 cluster_id namespace gateway_name in
      if signed == legacy then legacy ∷ [] else signed ∷ legacy ∷ []

  unfoldable pub sign_private_resource_comment : Text → Text → Text → Text → Text
  sign_private_resource_comment key cluster_id namespace name =
      if is_empty key
      then private_resource_comment cluster_id namespace name []
      else hmac_marker key (identity cluster_id namespace name)

  -- The form that long identities had before there was a key.
  unfoldable pub is_owned_truncated : Text → Text → Bool
  is_owned_truncated comment owner =
      ltb private_resource_comment_limit (length owner)
      && carries (codes " | ") comment (codes "flareway sha256:" ++ hex (take 16 (sha256 owner)))

  unfoldable pub is_owned_private_resource_signed : Text → Text → Text → Text → Text → Bool
  is_owned_private_resource_signed comment key cluster_id namespace name =
      if not (is_empty key)
        && carries (codes " | ") comment
            (sign_private_resource_comment key cluster_id namespace name)
      then true
      else if is_owned_private_resource comment cluster_id namespace name
      then true
      else is_owned_truncated comment (private_resource_comment cluster_id namespace name [])
