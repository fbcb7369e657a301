-- ===== src/Xds/Tracker/Runs.antt =====
-- Sequences of calls on the tracker of internal/xds/server/tracker.go, in the order in which the
-- callers take its lock.
use flareway.Base.{ℕ, Option, String, List, [], ◌∷◌, ◌≢◌}
use flareway.Base.Maps.{Map}
use flareway.Xds.Tracker.State.{AckTracker, Request, Response}
use flareway.Xds.Tracker.Requests.{on_response, on_request}
use flareway.Xds.Tracker.Snapshots.{expect_snapshot, on_stream_closed, forget}

pub data Event : Type 0 where
  response : ℕ → Option Request → Option Response → Event
  request : ℕ → Option Request → Event
  closed : ℕ → Event
  expects : String → String → Map String String → List String → Event
  forgets : String → Event

-- The digest of a version map is a parameter throughout.
module _ (digest : Map String String → Option String) where
  unfoldable pub step : AckTracker → Event → AckTracker
  step t (response stream req resp) = on_response t stream req resp
  step t (request stream req) = on_request digest t stream req
  step t (closed stream) = on_stream_closed t stream
  step t (expects node version fingerprints required) =
      expect_snapshot t node version fingerprints required
  step t (forgets node) = forget t node

  unfoldable pub run : AckTracker → List Event → AckTracker
  run t [] = t
  run t (e ∷ es) = run (step t e) es

-- Messages of other streams than this one.
abbrev pub IsPeer : ℕ → Event → Type 0
IsPeer s (response stream req resp) = s ≢ stream
IsPeer s (request stream req) = s ≢ stream
IsPeer s (closed stream) = s ≢ stream
IsPeer s (expects node version fingerprints required) = ⊥
IsPeer s (forgets node) = ⊥

abbrev pub OnlyPeers : ℕ → List Event → Type 0
OnlyPeers s [] = Unit
OnlyPeers s (e ∷ es) = IsPeer s e × OnlyPeers s es
