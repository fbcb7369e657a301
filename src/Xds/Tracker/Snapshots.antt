-- ===== src/Xds/Tracker/Snapshots.antt =====
-- internal/xds/server/tracker.go: ExpectSnapshot, OnStreamClosed and Forget.
use flareway.Base.{
  ℕ, Bool, false, ◌&&◌, not, Option, none, some, String, if◌then◌else◌, List, [], get_or, is_some,
  keep, nat_beq,
}
use flareway.Base.Classes.{◌==◌, string_eq, nat_eq, option_eq}
use flareway.Base.Maps.{Map, get, delete}
use flareway.Xds.Tracker.State.{
  same_fingerprints, PendingResponse, StreamAck, ExpectedSnapshot, AckTracker,
}

-- What the loop of ExpectSnapshot over a stream's initial fingerprints leaves in `acked`.
unfoldable pub initial_ack :
    Option String → ExpectedSnapshot → String → Option StreamAck → Option StreamAck
initial_ack none e current ack = ack
initial_ack (some fingerprint) e current ack =
    if fingerprint == current
    then some (record { version = e.version; fingerprint = fingerprint })
    else ack

-- The early return of ExpectSnapshot: the version and the fingerprints are those on record.
unfoldable pub already_expected : AckTracker → String → String → Map String String → Bool
already_expected t node version fingerprints = elim (t.expected node) [
  | none ↦ false
  | some e ↦ e.version == version && same_fingerprints (t.fingerprints node) fingerprints
]

unfoldable pub is_on : AckTracker → String → ℕ → Bool
is_on t node stream = get stream t.nodes == some node

unfoldable pub record_snapshot :
    AckTracker → String → Map String String → ExpectedSnapshot → AckTracker
record_snapshot t node fingerprints e = record t {
  fingerprints = λ n. if n == node then fingerprints else t.fingerprints n;
  expected = λ n. if n == node then some e else t.expected n;
  acked = λ s ty.
      if is_on t node s
      then initial_ack (t.initial_fingerprints s ty) e (get_or (get ty fingerprints) "")
          (t.acked s ty)
      else t.acked s ty;
  nacks = λ s. if is_on t node s then none else t.nacks s;
  initial_fingerprints = λ s ty. if is_on t node s then none else t.initial_fingerprints s ty;
}

unfoldable pub expect_snapshot :
    AckTracker → String → String → Map String String → List String → AckTracker
expect_snapshot t node version fingerprints required =
    if already_expected t node version fingerprints
    then t
    else record_snapshot t node fingerprints (record {
      version = version;
      required = keep (λ ty. is_some (get ty fingerprints)) required;
    })

unfoldable pub on_stream_closed : AckTracker → ℕ → AckTracker
on_stream_closed t stream = record t {
  pending = λ s ty n. if nat_beq s stream then none else t.pending s ty n;
  nodes = delete stream t.nodes;
  subscriptions = λ s ty. not (nat_beq s stream) && t.subscriptions s ty;
  acked = λ s ty. if nat_beq s stream then none else t.acked s ty;
  nacks = λ s. if nat_beq s stream then none else t.nacks s;
  initial_fingerprints = λ s ty. if nat_beq s stream then none else t.initial_fingerprints s ty;
}

unfoldable pub drop_node : String → Option PendingResponse → Option PendingResponse
drop_node node none = none
drop_node node (some p) = if p.node == node then none else some p

unfoldable pub forget : AckTracker → String → AckTracker
forget t node = record t {
  expected = λ n. if n == node then none else t.expected n;
  fingerprints = λ n. if n == node then [] else t.fingerprints n;
  acked = λ s ty. if is_on t node s then none else t.acked s ty;
  nacks = λ s. if is_on t node s then none else t.nacks s;
  initial_fingerprints = λ s ty. if is_on t node s then none else t.initial_fingerprints s ty;
  pending = λ s ty n. drop_node node (t.pending s ty n);
}
