-- ===== src/Xds/Tracker/State.antt =====
-- internal/xds/server/tracker.go: the tracker's state, and the writes that its handlers share.
use flareway.Base.{
  ℕ, Bool, false, ◌||◌, ◌&&◌, Option, none, some, String, if◌then◌else◌, List, [], get_or, any,
  nat_beq, length,
}
use flareway.Base.Classes.{◌==◌, string_eq, nat_eq, option_eq}
use flareway.Base.Maps.{Map, get, put, every}

pub record Nack : Type 0 where
  pub version : String
  pub type_url : String
  pub detail : String

pub record PendingResponse : Type 0 where
  pub node : String
  pub version : String

pub record StreamAck : Type 0 where
  pub version : String
  pub fingerprint : String

pub record ExpectedSnapshot : Type 0 where
  pub version : String
  pub required : List String

pub record AckTracker : Type 0 where
  pub pending : ℕ → String → String → Option PendingResponse  -- stream, type URL, nonce
  pub nodes : Map ℕ String
  pub subscriptions : ℕ → String → Bool
  pub expected : String → Option ExpectedSnapshot
  pub fingerprints : String → Map String String
  pub acked : ℕ → String → Option StreamAck
  pub nacks : ℕ → Option Nack
  pub initial_fingerprints : ℕ → String → Option String

-- The fields of a DeltaDiscoveryRequest and a DeltaDiscoveryResponse that the tracker reads.
pub record Request : Type 0 where
  pub cluster : String
  pub type_url : String
  pub response_nonce : String
  pub error_detail : Option String
  pub initial_versions : Map String String

pub record Response : Type 0 where
  pub nonce : String
  pub type_url : String
  pub system_version : String

unfoldable pub new_ack_tracker : AckTracker
new_ack_tracker = record {
  pending = λ s ty n. none;
  nodes = [];
  subscriptions = λ s ty. false;
  expected = λ n. none;
  fingerprints = λ n. [];
  acked = λ s ty. none;
  nacks = λ s. none;
  initial_fingerprints = λ s ty. none;
}

unfoldable pub has : List String → String → Bool
has xs ty = any (λ x. x == ty) xs

unfoldable pub same_fingerprints : Map String String → Map String String → Bool
same_fingerprints left right =
    nat_beq (length left) (length right)
    && every (λ ty fingerprint. get_or (get ty right) "" == fingerprint) left

-- `t.nodes[streamID]`, the empty string for an unknown stream.
unfoldable pub node_of : AckTracker → ℕ → String
node_of t stream = get_or (get stream t.nodes) ""

unfoldable pub subscribe : AckTracker → ℕ → String → AckTracker
subscribe t stream type_url = if type_url == "" then t else record t {
  subscriptions = λ s ty. (nat_beq s stream && ty == type_url) || t.subscriptions s ty;
}

unfoldable pub forget_initial_fingerprint : AckTracker → ℕ → String → AckTracker
forget_initial_fingerprint t stream type_url = record t {
  initial_fingerprints =
      λ s ty. if nat_beq s stream && ty == type_url then none else t.initial_fingerprints s ty;
}

unfoldable pub put_ack : AckTracker → ℕ → String → Option StreamAck → AckTracker
put_ack t stream type_url ack = record t {
  acked = λ s ty. if nat_beq s stream && ty == type_url then ack else t.acked s ty;
}

unfoldable pub put_nack : AckTracker → ℕ → Option Nack → AckTracker
put_nack t stream nack = record t { nacks = λ s. if nat_beq s stream then nack else t.nacks s }

-- The nack that a stream keeps once it has acknowledged `version` of the type.
unfoldable pub superseded : Option Nack → String → String → Option Nack
superseded none version type_url = none
superseded (some n) version type_url =
    if n.version == version && n.type_url == type_url then none else some n

-- A request names its node at least once; later ones leave it out.
unfoldable pub identify : AckTracker → ℕ → String → AckTracker
identify t stream cluster =
    if cluster == "" then t else record t { nodes = put stream cluster t.nodes }

unfoldable pub put_pending : AckTracker → ℕ → String → String → Option PendingResponse → AckTracker
put_pending t stream type_url nonce p = record t {
  pending =
      λ s ty n. if nat_beq s stream && (ty == type_url && n == nonce) then p else t.pending s ty n;
}
