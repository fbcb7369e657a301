-- ===== src/Ownership/Ledger.antt =====
-- internal/cloudflare/ledger.go: the ownership markers that are not signed. A comment is a list of code
-- points, as the API's limit counts them. SHA-256 and idna.Lookup.ToASCII are parameters, and so is the
-- lower case of a code point.
use flareway.Base.{
  ℕ, zero, suc, ◌+◌, ◌-◌, ◌/◌, ◌%◌, Bool, true, false, not, ◌&&◌, ◌||◌, Option, none, some, List,
  [], ◌∷◌, ◌++◌, map, any, if◌then◌else◌, leb, ltb, nat_beq, length,
}
use flareway.Base.Classes.{◌==◌, nat_eq, list_eq}
use flareway.Base.Bytes.{Text, codes, is_empty, has_prefix, trim_prefix, trim_suffix, trim_space}

-- The verb %x on bytes.
unfoldable pub hex_digit : ℕ → ℕ
hex_digit n = if ltb n 10 then b'0' + n else b'a' + (n - 10)

unfoldable pub hex : List ℕ → Text
hex [] = []
hex (b ∷ bytes) = hex_digit (b / 16) ∷ hex_digit (b % 16) ∷ hex bytes

unfoldable pub take : ℕ → Text → Text
take zero s = []
take (suc n) [] = []
take (suc n) (c ∷ s) = c ∷ take n s

-- Three parts with slashes between.
unfoldable pub identity : Text → Text → Text → Text
identity cluster_id namespace name = cluster_id ++ (b'/' ∷ (namespace ++ (b'/' ∷ name)))

unfoldable pub owner_tag : Text → Text → Text → Text → Text
owner_tag cluster_id namespace name uid =
    codes "flareway.bhyoo.com/owner=" ++ (identity cluster_id namespace name ++ (b'/' ∷ uid))

abbrev pub managed_by_tag : Text
managed_by_tag = codes "managed-by=flareway"

abbrev pub dns_record_comment_limit : ℕ
dns_record_comment_limit = 100

abbrev pub dns_record_comment_separator : Text
dns_record_comment_separator = codes " "

unfoldable pub dns_record_comment_with_text : Text → Text → Text
dns_record_comment_with_text owner text =
    let trimmed = trim_space text in
    let remaining = dns_record_comment_limit - length owner - length dns_record_comment_separator in
    if is_empty trimmed || (trimmed == managed_by_tag)
    then owner
    else if nat_beq remaining 0
    then owner
    else owner ++ (dns_record_comment_separator ++ take remaining trimmed)

unfoldable pub plain_owner : Text → Text → Text → Text
plain_owner cluster_id namespace name = codes "flareway " ++ identity cluster_id namespace name

unfoldable pub private_resource_comment : Text → Text → Text → Text → Text
private_resource_comment cluster_id namespace name comment =
    if is_empty comment
    then plain_owner cluster_id namespace name
    else plain_owner cluster_id namespace name ++ (codes " | " ++ comment)

-- The marker alone, or followed by the separator and more.
unfoldable pub carries : Text → Text → Text → Bool
carries separator comment marker = comment == marker || has_prefix comment (marker ++ separator)

unfoldable pub is_owned_private_resource : Text → Text → Text → Text → Bool
is_owned_private_resource comment cluster_id namespace name =
    carries (codes " | ") comment (plain_owner cluster_id namespace name)

unfoldable pub is_owned_by : List Text → Text → Bool
is_owned_by markers expected = not (is_empty expected) && any (λ m. m == expected) markers

pub record DnsRecord : Type 0 where
  pub comment : Text
  pub kind : Text
  pub content : Text

unfoldable pub is_owned_dns_record : DnsRecord → Text → Bool
is_owned_dns_record record_ expected =
    not (is_empty expected) && carries dns_record_comment_separator record_.comment expected

module _ (sha256 : Text → List ℕ) where
  unfoldable pub dns_record_comment : Text → Text → Text → Text
  dns_record_comment cluster_id namespace gateway_name =
      if leb (length (plain_owner cluster_id namespace gateway_name)) dns_record_comment_limit
      then plain_owner cluster_id namespace gateway_name
      else codes "flareway sha256:" ++ hex (sha256 (identity cluster_id namespace gateway_name))

module _ (to_ascii : Text → Option Text) (lower : ℕ → ℕ) where
  unfoldable pub to_punycode : Text → Text → Option Text
  to_punycode prefix hostname = elim (to_ascii hostname) [
    | none ↦ none
    | some ascii ↦ some (prefix ++ map lower ascii)
  ]

  unfoldable pub normalize_trimmed : Text → Option Text
  normalize_trimmed hostname =
      if is_empty hostname
      then none
      else if not (has_prefix hostname (codes "*."))
      then to_punycode [] hostname
      else if is_empty (trim_prefix hostname (codes "*."))
      then none
      else to_punycode (codes "*.") (trim_prefix hostname (codes "*."))

  unfoldable pub normalize_dns_hostname : Text → Option Text
  normalize_dns_hostname hostname =
      if is_empty hostname || not (trim_space hostname == hostname)
      then none
      else normalize_trimmed (trim_suffix hostname (codes "."))

  unfoldable pub both_equal : Option Text → Option Text → Bool
  both_equal (some a) (some b) = a == b
  both_equal a b = false

  unfoldable pub dns_hostnames_equal : Text → Text → Bool
  dns_hostnames_equal first second =
      both_equal (normalize_dns_hostname first) (normalize_dns_hostname second)

  -- strings.EqualFold is a parameter too.
  unfoldable pub is_owned_dns_record_strict : (Text → Text → Bool) → DnsRecord → Text → Text → Bool
  is_owned_dns_record_strict equal_fold record_ expected target =
      if not (is_owned_dns_record record_ expected)
      then false
      else if is_empty target
      then true
      else equal_fold record_.kind (codes "CNAME") && dns_hostnames_equal record_.content target
