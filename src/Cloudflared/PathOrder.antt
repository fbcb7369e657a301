-- ===== src/Cloudflared/PathOrder.antt =====
-- Where the sort of compileConfig puts an exact path and the prefix of the same value.
use flareway.Base.{◌<◌, ◌≡◌, sym, true, false, arith}
use flareway.Base.Bytes.{Text, codes, byte_length, width, byte_length-append, trim_right}
use flareway.Cloudflared.Paths.{quote_meta, exact_path, prefix_path}
use flareway.Cloudflared.Ingress.{DomainRule, rule_le}
use flareway.Cloudflared.Order.{longer_first}

exact_shorter :
    (value : Text)
    → trim_right b'/' value ≡ value
    → byte_length (exact_path value) < byte_length (prefix_path value)
unfolding exact_path prefix_path byte_length width
exact_shorter value e = rw e (
    omega (
      arith,
      byte_length-append (quote_meta value) (codes "$"),
      byte_length-append (quote_meta value) (codes "(/|$)"),
    ))

-- For one hostname and category, the rule of an exact path comes after the rule of the prefix of
-- the same value, if the value does not end in a slash.
pub exact_behind_prefix :
    (exact prefix : DomainRule) (value : Text)
    → exact.hostname ≡ prefix.hostname
    → exact.category ≡ prefix.category
    → trim_right b'/' value ≡ value
    → exact.path ≡ exact_path value
    → prefix.path ≡ prefix_path value
    → (rule_le prefix exact ≡ true) × (rule_le exact prefix ≡ false)
exact_behind_prefix exact prefix value h c t e p =
    longer_first prefix exact (sym h) (sym c) (rw (e, p) (exact_shorter value t))
