-- ===== src/Ownership/Private.antt =====
-- That the comments of private resources are recognised, and that the sweep reads the owner off them.
use flareway.Base.{
  ℕ, ◌≤◌, ltb, length, length-append, ◌≡◌, ◌⊎◌, inl, inr, refl, sym, ap, subst, ◌∙◌, Bool, true,
  false, not, ◌&&◌, ◌||◌, none, some, List, [], ◌∷◌, ◌++◌, if◌then◌else◌, Bool-cases, arith,
}
use flareway.Base.Classes.{nat_eq, list_eq}
use flareway.Base.Bytes.{
  Text, codes, is_empty, has_prefix, cut_prefix, cut_prefix_complete, contains_code,
}
use flareway.Ownership.Ledger.{
  identity, hex, take, plain_owner, carries, private_resource_comment, is_owned_private_resource,
}
use flareway.Ownership.Signed.{
  sign_private_resource_comment, private_resource_comment_limit, is_owned_truncated,
  is_owned_private_resource_signed,
}
use flareway.Ownership.Comments.{
  private_comment_owner, private_comment_owned_by, private_text, private_owner,
  private_owner_comment,
}
use flareway.Ownership.Carried.{take_bounded, length-hex}
use flareway.Sweep.Names.{
  before_text, split_three, nonempty_parts, parse_private_owner_comment, IsName, split_complete,
}
use flareway.Ownership.Texts.{
  IsPlain, cut_text, digest_IsCut, either_IsCut, hex_no_space, plain_IsCut, private_text_bounded,
  with_rest_carries,
}

starts_letters :
    (c r x p : Text)
    → contains_code p b'/' ≡ false
    → contains_code p b':' ≡ false
    → contains_code c b':' ≡ false
    → has_prefix (c ++ (b'/' ∷ r)) (p ++ (b':' ∷ x)) ≡ false
unfolding has_prefix cut_prefix contains_code
starts_letters [] r x [] h k l = refl
starts_letters [] r x (d ∷ p) h k l = ground arith
starts_letters (e ∷ c) r x [] h k l = ground arith
starts_letters (e ∷ c) r x (d ∷ p) h k l = ground (arith, starts_letters c r x p)

signed_or_parts :
    (c n s : Text)
    → IsName c n s
    → contains_code c b':' ≡ false
    → (if has_prefix (identity c n s) (codes "hmac:")
          || has_prefix (identity c n s) (codes "sha256:")
        then none
        else nonempty_parts (split_three (identity c n s)))
      ≡ some (c, (n, s))
unfolding nonempty_parts IsName identity contains_code
signed_or_parts c n s ((h, k), (p, (q, r))) w =
    rw
      (
        starts_letters c (n ++ (b'/' ∷ s)) [] (codes "hmac") refl refl w,
        starts_letters c (n ++ (b'/' ∷ s)) [] (codes "sha256") refl refl w,
        split_complete c n s h k,
        p,
        q,
        r,
      )
      refl

marker_read :
    (comment c n s : Text)
    → before_text comment (codes " | ") ≡ plain_owner c n s
    → IsName c n s
    → contains_code c b':' ≡ false
    → parse_private_owner_comment comment ≡ some (c, (n, s))
unfolding parse_private_owner_comment plain_owner
marker_read comment c n s e h w =
    rw (e, parse_private_owner_comment)
      (rw (cut_prefix_complete (codes "flareway ") (identity c n s), parse_private_owner_comment)
        (signed_or_parts c n s h w))

either_branch :
    (a b c : Bool) → (b ≡ true) ⊎ (c ≡ true) → (if a then true else if b then true else c) ≡ true
either_branch true b c h = refl
either_branch false b c (inl h) = rw h refl
either_branch false true c (inr h) = refl
either_branch false false c (inr h) = h

truncated_or_plain :
    (b : Bool) (digest owner text : Text)
    → let comment = private_text (if b then digest else owner) text in
      (carries (codes " | ") comment owner ≡ true)
      ⊎ ((b && carries (codes " | ") comment digest) ≡ true)
truncated_or_plain true digest owner text = inr (with_rest_carries digest text)
truncated_or_plain false digest owner text = inl (with_rest_carries owner text)

module _ (sha256 : Text → List ℕ) where
  private_owner_bounded :
      (cluster_id namespace name : Text)
      → length (private_owner sha256 cluster_id namespace name) ≤ 100
  unfolding private_owner
  private_owner_bounded c n s =
      elim (Bool-cases (ltb 100 (length (private_resource_comment c n s [])))) [
        | inl e ↦ rw e (
            omega (
              arith,
              length-append (codes "flareway sha256:")
                  (hex (take 16 (sha256 (private_resource_comment c n s [])))),
              length-hex (take 16 (sha256 (private_resource_comment c n s []))),
              take_bounded 16 (sha256 (private_resource_comment c n s [])),
            ))
        | inr e ↦ rw e (ground arith)
      ]

  short_owner :
      (cluster_id namespace name : Text)
      → length (private_resource_comment cluster_id namespace name []) ≤ 100
      → private_owner sha256 cluster_id namespace name ≡ plain_owner cluster_id namespace name
  unfolding private_owner private_resource_comment
  short_owner c n s l = ground arith

  -- For non-empty parts without slashes in the first two, without spaces, and without a colon in
  -- the cluster, whose marker is at most 100 code points long, the sweep's parsePrivateOwnerComment
  -- reads the cluster, the namespace and the name off the comment that privateOwnerComment writes,
  -- whatever the human text.
  pub private_owner_read :
      (cluster_id namespace name text : Text)
      → IsName cluster_id namespace name
      → IsPlain cluster_id namespace name
      → length (private_resource_comment cluster_id namespace name [])
        ≤ private_resource_comment_limit
      → parse_private_owner_comment (private_owner_comment sha256 cluster_id namespace name text)
        ≡ some (cluster_id, (namespace, name))
  unfolding private_owner_comment
  private_owner_read c n s text h plain l =
      marker_read (private_owner_comment sha256 c n s text) c n s
        (ap (λ o. before_text (private_text o text) (codes " | ")) (short_owner c n s l)
          ∙ cut_text (plain_owner c n s) text (plain_IsCut c n s plain))
        h plain.3

  owner_of_comment :
      (cluster_id namespace name text : Text)
      → IsPlain cluster_id namespace name
      → private_comment_owner (private_owner_comment sha256 cluster_id namespace name text)
        ≡ private_owner sha256 cluster_id namespace name
  unfolding private_comment_owner private_owner_comment private_owner private_resource_comment
  owner_of_comment c n s text h = cut_text (private_owner sha256 c n s) text (
      either_IsCut (ltb 100 (length (plain_owner c n s)))
        (codes "flareway sha256:" ++ hex (take 16 (sha256 (plain_owner c n s)))) (plain_owner c n s)
        (digest_IsCut (hex (take 16 (sha256 (plain_owner c n s)))) (hex_no_space _))
        (plain_IsCut c n s h))

  -- c
  pub changed_text_owned :
      (cluster_id namespace name text old : Text)
      → IsPlain cluster_id namespace name
      → private_comment_owned_by
          (private_owner_comment sha256 cluster_id namespace name old)
          (private_owner_comment sha256 cluster_id namespace name text)
        ≡ true
  unfolding private_comment_owned_by private_owner_comment
  changed_text_owned c n s text old h =
      subst (λ o. carries (codes " | ") (private_owner_comment sha256 c n s old) o ≡ true)
        (sym (owner_of_comment c n s text h)) (with_rest_carries (private_owner sha256 c n s) old)

module _ (sha256 : Text → List ℕ) (hmac_sha256 : Text → Text → List ℕ) where
  -- The comment that privateOwnerComment writes is at most 100 code points long, and
  -- IsOwnedPrivateResourceSigned accepts it for the same object with any key or none, also where
  -- the marker is shortened to a digest and the human text is cut.
  pub private_comment_recognised :
      (key cluster_id namespace name text : Text)
      → let comment = private_owner_comment sha256 cluster_id namespace name text in
        (length comment ≤ private_resource_comment_limit)
        × (is_owned_private_resource_signed sha256 hmac_sha256 comment key cluster_id namespace name
            ≡ true)
  unfolding private_owner_comment private_owner is_owned_private_resource_signed
      is_owned_private_resource is_owned_truncated private_resource_comment
  private_comment_recognised key c n s text = (
    private_text_bounded (private_owner sha256 c n s) text (private_owner_bounded sha256 c n s),
    either_branch
        (not (is_empty key)
          && carries (codes " | ") (private_owner_comment sha256 c n s text)
              (sign_private_resource_comment sha256 hmac_sha256 key c n s))
        _ _
        (truncated_or_plain (ltb 100 (length (plain_owner c n s)))
          (codes "flareway sha256:" ++ hex (take 16 (sha256 (plain_owner c n s))))
          (plain_owner c n s) text),
  )
