-- ===== src/Ownership/MarkerExamples.antt =====
-- Markers of one Gateway and of one network, with a checksum in place of SHA-256 and its HMAC.
use flareway.Base.{
  ℕ, ◌+◌, ◌%◌, ◌≤◌, ◌≡◌, inr, refl, arith, true, some, List, [], ◌∷◌, ◌++◌, length, any,
}
use flareway.Base.Bytes.{Text, codes, contains_code}
use flareway.Ownership.Ledger.{
  is_owned_dns_record, dns_record_comment_limit, plain_owner, identity, private_resource_comment,
}
use flareway.Ownership.Signed.{
  sign_dns_record_comment_with_text, dns_record_ownership_markers, private_resource_comment_limit,
  is_owned_private_resource_signed,
}
use flareway.Ownership.Comments.{private_owner_comment, private_comment_owned_by}
use flareway.Ownership.Recognized.{comment_recognised}
use flareway.Ownership.Texts.{IsPlain}
use flareway.Ownership.Private.{private_owner_read, changed_text_owned, private_comment_recognised}
use flareway.Sweep.Names.{IsName, parse_private_owner_comment}

unfoldable checksum : Text → ℕ
checksum [] = 0
checksum (c ∷ s) = (c + checksum s) % 256

abbrev zeros : List ℕ
zeros =
    0 ∷ 0 ∷ 0 ∷ 0 ∷ 0 ∷ 0 ∷ 0 ∷ 0 ∷ 0 ∷ 0 ∷ 0 ∷ 0 ∷ 0 ∷ 0 ∷ 0 ∷ 0 ∷ 0 ∷ 0 ∷ 0 ∷ 0 ∷ 0 ∷ 0 ∷ 0 ∷ 0
    ∷ 0 ∷ 0 ∷ 0 ∷ 0 ∷ 0 ∷ 0 ∷ 0 ∷ []

abbrev toy_sha256 : Text → List ℕ
toy_sha256 s = checksum s ∷ zeros

abbrev toy_hmac : Text → Text → List ℕ
toy_hmac k s = checksum (k ++ s) ∷ zeros

abbrev edge_key : Text
edge_key = codes "0123456789abcdef0123456789abcdef"

abbrev cluster_a : Text
cluster_a = codes "6d2a-41"

abbrev apps : Text
apps = codes "apps"

abbrev edge : Text
edge = codes "edge"

abbrev human : Text
human = codes "do not touch"

comment_recognised_example :
    let comment =
      sign_dns_record_comment_with_text toy_sha256 toy_hmac [] cluster_a apps edge human in
    (length comment ≤ dns_record_comment_limit)
    × (any
          (is_owned_dns_record (record {
            comment = comment;
            kind = codes "CNAME";
            content = codes "t.cfargotunnel.com";
          }))
          (dns_record_ownership_markers toy_sha256 toy_hmac edge_key cluster_a apps edge)
        ≡ true)
comment_recognised_example =
    comment_recognised toy_sha256 toy_hmac (λ s. refl) edge_key [] cluster_a apps edge human
      (codes "CNAME") (codes "t.cfargotunnel.com") (inr refl)

private_comment_recognised_example :
    let comment = private_owner_comment toy_sha256 cluster_a apps edge human in
    (length comment ≤ private_resource_comment_limit)
    × (is_owned_private_resource_signed toy_sha256 toy_hmac comment edge_key cluster_a apps edge
        ≡ true)
private_comment_recognised_example =
    private_comment_recognised toy_sha256 toy_hmac edge_key cluster_a apps edge human

edge-IsName : IsName cluster_a apps edge
unfolding IsName contains_code
edge-IsName = ((refl, refl), (refl, (refl, refl)))

edge-IsPlain : IsPlain cluster_a apps edge
unfolding contains_code
edge-IsPlain = (refl, refl, refl, refl)

edge_short :
    length (private_resource_comment cluster_a apps edge []) ≤ private_resource_comment_limit
unfolding private_resource_comment plain_owner identity
edge_short = omega arith

private_owner_read_example :
    parse_private_owner_comment (private_owner_comment toy_sha256 cluster_a apps edge human)
    ≡ some (cluster_a, (apps, edge))
private_owner_read_example =
    private_owner_read toy_sha256 cluster_a apps edge human edge-IsName edge-IsPlain edge_short

changed_text_owned_example :
    private_comment_owned_by
      (private_owner_comment toy_sha256 cluster_a apps edge human)
      (private_owner_comment toy_sha256 cluster_a apps edge (codes "moved"))
    ≡ true
changed_text_owned_example =
    changed_text_owned toy_sha256 cluster_a apps edge (codes "moved") human edge-IsPlain
