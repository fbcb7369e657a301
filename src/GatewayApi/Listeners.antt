-- ===== src/GatewayApi/Listeners.antt =====
-- internal/gatewayapi/translate.go: which listeners are in conflict, and which of them claims a host.
-- A pointer to a listener is its position among the listeners of the Gateway.
use flareway.Base.{
  ℕ, zero, suc, ◌+◌, Bool, true, false, not, ◌&&◌, ◌||◌, Option, none, some, List, [], ◌∷◌,
  if◌then◌else◌, ltb, nat_beq, length,
}
use flareway.Base.Classes.{◌==◌, nat_eq, list_eq}
use flareway.Base.Bytes.{Text, codes, is_empty, has_prefix, byte_length}
use flareway.GatewayApi.Hostname.{wildcard_hostname_matches_hostname}

pub data ConflictReason : Type 0 where
  no_conflicts : ConflictReason
  protocol_conflict : ConflictReason
  hostname_conflict : ConflictReason

pub record Listener : Type 0 where
  pub port : ℕ
  pub protocol : Text
  pub hostname : Option Text

-- `has_ir` is false for a nil ir.
pub record ListenerTranslation : Type 0 where
  pub position : ℕ
  pub spec : Listener
  pub has_ir : Bool
  pub accepted : Bool
  pub conflicted : Bool
  pub conflict_reason : ConflictReason

-- Two hostnames that are there, both absent, or one of them absent.
unfoldable pub hostname_conflicts : Option Text → Option Text → ConflictReason
hostname_conflicts none none = hostname_conflict
hostname_conflicts none (some h) = no_conflicts
hostname_conflicts (some h) none = no_conflicts
hostname_conflicts (some g) (some h) = if g == h then hostname_conflict else no_conflicts

unfoldable pub listener_conflict_reason : Listener → Listener → ConflictReason
listener_conflict_reason a b =
    if not (nat_beq a.port b.port)
    then no_conflicts
    else if not (a.protocol == b.protocol)
    then protocol_conflict
    else hostname_conflicts a.hostname b.hostname

-- `item.conflictReason == NoConflicts || reason == ProtocolConflict`
unfoldable pub next_reason : ConflictReason → ConflictReason → ConflictReason
next_reason no_conflicts reason = reason
next_reason old protocol_conflict = protocol_conflict
next_reason old reason = old

-- The body of the inner loop for one of the two listeners.
unfoldable pub mark : ConflictReason → ListenerTranslation → ListenerTranslation
mark no_conflicts item = item
mark reason item = record item {
  conflicted = true;
  conflict_reason = next_reason item.conflict_reason reason;
  accepted = false;
  has_ir = false;
}

-- The inner loop for one listener and those after it.
unfoldable pub mark_against :
    ListenerTranslation → List ListenerTranslation → ListenerTranslation × List ListenerTranslation
mark_against item [] = (item, [])
mark_against item (other ∷ others) =
    let reason = listener_conflict_reason item.spec other.spec in
    let (item_, others_) = mark_against (mark reason item) others in
    (item_, mark reason other ∷ others_)

-- The outer loop, one round for each listener.
unfoldable pub mark_from : ℕ → List ListenerTranslation → List ListenerTranslation
mark_from zero listeners = listeners
mark_from (suc n) [] = []
mark_from (suc n) (item ∷ others) =
    let (item_, others_) = mark_against item others in item_ ∷ mark_from n others_

unfoldable pub mark_conflicts : List ListenerTranslation → List ListenerTranslation
mark_conflicts listeners = mark_from (length listeners) listeners

unfoldable pub hostname_matches : Option Text → Text → Bool
hostname_matches none host = true
hostname_matches (some value) host =
    is_empty value
    || ((value == host)
        || (has_prefix value (codes "*.") && wildcard_hostname_matches_hostname value host))

unfoldable pub listener_hostname_specificity : Option Text → ℕ
listener_hostname_specificity none = 0
listener_hostname_specificity (some value) =
    if is_empty value
    then 0
    else if has_prefix value (codes "*.")
    then byte_length value
    else 10000 + byte_length value

-- Where the loop goes on to the next listener.
unfoldable pub is_passed : ListenerTranslation → ListenerTranslation → Text → Bool
is_passed other candidate host =
    nat_beq other.position candidate.position
    || (not other.has_ir
        || (not other.accepted
            || (other.conflicted
                || (not (nat_beq other.spec.port candidate.spec.port)
                    || (not (other.spec.protocol == candidate.spec.protocol)
                        || not (hostname_matches other.spec.hostname host))))))

unfoldable pub listener_claims_host : ListenerTranslation → Text → List ListenerTranslation → Bool
listener_claims_host candidate host [] = true
listener_claims_host candidate host (other ∷ others) =
    let rest = listener_claims_host candidate host others in
    if is_passed other candidate host
    then rest
    else if ltb (listener_hostname_specificity candidate.spec.hostname)
        (listener_hostname_specificity other.spec.hostname)
    then false
    else rest
