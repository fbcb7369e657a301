-- ===== src/Xds/Tracker/Acked.antt =====
-- internal/xds/server/tracker.go: IsACKed.
use flareway.Base.{
  ℕ, Bool, true, false, ◌||◌, ◌&&◌, not, Option, none, some, String, if◌then◌else◌, nat_beq, length,
}
use flareway.Base.Classes.{◌==◌, string_eq, nat_eq, option_eq}
use flareway.Base.Maps.{Map, every, exists}
use flareway.Xds.Tracker.State.{has, Nack, StreamAck, ExpectedSnapshot, AckTracker}

-- `nack, ok := t.nacks[streamID]; ok && nack.Version == version`
unfoldable pub rejects : Option Nack → String → Bool
rejects none version = false
rejects (some n) version = n.version == version

unfoldable pub fingerprint_of : Option StreamAck → String
fingerprint_of none = ""
fingerprint_of (some a) = a.fingerprint

-- One round of the inner loop of IsACKed: the type does not hold the stream back.
unfoldable pub proves : AckTracker → ExpectedSnapshot → ℕ → String → String → Bool
proves t e stream type_url fingerprint =
    not (t.subscriptions stream type_url || has e.required type_url)
    || fingerprint_of (t.acked stream type_url) == fingerprint

unfoldable pub holds : AckTracker → ExpectedSnapshot → Map String String → String → ℕ → Bool
holds t e present version stream =
    not (rejects (t.nacks stream) version) && every (proves t e stream) present

unfoldable pub has_stream : AckTracker → String → Bool
has_stream t node = exists (λ s n. n == node) t.nodes

unfoldable pub is_acked_for : AckTracker → String → String → ExpectedSnapshot → Bool
is_acked_for t node version e =
    if not (e.version == version)
    then false
    else if nat_beq (length (t.fingerprints node)) 0
    then true
    else has_stream t node
      && every (λ s n. not (n == node) || holds t e (t.fingerprints node) version s) t.nodes

unfoldable pub is_acked : AckTracker → String → String → Bool
is_acked t node version = elim (t.expected node) [
  | none ↦ false
  | some e ↦ is_acked_for t node version e
]
