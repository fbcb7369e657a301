-- ===== src/Cloudflared/Names.antt =====
-- internal/cloudflared/compile.go: validateHostname.
use flareway.Base.{
  ℕ, Bool, true, false, not, ◌&&◌, ◌||◌, any, all, if◌then◌else◌, leb, ltb, nat_beq,
}
use flareway.Base.Classes.{◌==◌, nat_eq, list_eq}
use flareway.Base.Bytes.{
  Text, codes, is_empty, contains_code, has_prefix, has_suffix, trim_prefix, trim_space,
  byte_length,
}
use flareway.Base.Cuts.{split_on}

-- A letter, a digit or a dash.
unfoldable pub is_host_code : ℕ → Bool
is_host_code c =
    (leb b'a' c && leb c b'z')
    || ((leb b'A' c && leb c b'Z') || ((leb b'0' c && leb c b'9') || nat_beq c b'-'))

unfoldable pub is_host_label : Text → Bool
is_host_label label =
    not (
      is_empty label
      || (ltb 63 (byte_length label)
          || (has_prefix label (codes "-") || has_suffix label (codes "-"))))
    && all is_host_code label

unfoldable pub validate_hostname : Text → Bool
validate_hostname hostname =
    if is_empty hostname
    then true
    else if not (trim_space hostname == hostname)
        || any (λ c. contains_code (codes "/:@") c) hostname
    then false
    else if hostname == codes "*"
    then true
    else let name = trim_prefix hostname (codes "*.") in
      if is_empty name || contains_code name b'*'
      then false
      else all is_host_label (split_on b'.' name)
