-- ===== src/Ownership/Comments.antt =====
-- internal/controller/private_network_common.go: privateOwnerComment, its comment of a network or a route
-- with the human text behind the marker, and privateCommentOwnedBy.
use flareway.Base.{ℕ, ◌-◌, Bool, List, [], ◌++◌, if◌then◌else◌, ltb, nat_beq, length}
use flareway.Base.Bytes.{Text, codes, is_empty}
use flareway.Ownership.Ledger.{hex, take, carries, private_resource_comment}
use flareway.Sweep.Names.{before_text}

unfoldable pub private_comment_owner : Text → Text
private_comment_owner comment = before_text comment (codes " | ")

unfoldable pub private_comment_owned_by : Text → Text → Bool
private_comment_owned_by comment owner_comment =
    carries (codes " | ") comment (private_comment_owner owner_comment)

-- What is left of the limit for the text.
unfoldable pub private_text : Text → Text → Text
private_text owner comment =
    let remaining = 100 - length owner - length (codes " | ") in
    if is_empty comment
    then owner
    else if nat_beq remaining 0
    then owner
    else owner ++ (codes " | " ++ take remaining comment)

module _ (sha256 : Text → List ℕ) where
  unfoldable pub private_owner : Text → Text → Text → Text
  private_owner cluster_id namespace name =
      let owner = private_resource_comment cluster_id namespace name [] in
      if ltb 100 (length owner)
      then codes "flareway sha256:" ++ hex (take 16 (sha256 owner))
      else owner

  unfoldable pub private_owner_comment : Text → Text → Text → Text → Text
  private_owner_comment cluster_id namespace name comment =
      private_text (private_owner cluster_id namespace name) comment
