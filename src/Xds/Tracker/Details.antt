-- ===== src/Xds/Tracker/Details.antt =====
-- internal/xds/server/tracker.go: ConvergenceDetails and LastNACK, before the text is put together.
use flareway.Base.{
  ℕ, Bool, false, ◌||◌, ◌&&◌, not, Option, none, some, String, if◌then◌else◌, List, [], ◌∷◌, get_or,
  nat_beq, ltb, length,
}
use flareway.Base.Classes.{◌==◌, string_eq, nat_eq, option_eq}
use flareway.Base.Maps.{Map, get, put}
use flareway.Xds.Tracker.State.{AckTracker, ExpectedSnapshot, StreamAck, Nack, has}
use flareway.Xds.Tracker.Snapshots.{is_on}
use flareway.Xds.Tracker.Acked.{rejects, fingerprint_of}

unfoldable pub insert_id : ℕ → List ℕ → List ℕ
insert_id x [] = x ∷ []
insert_id x (y ∷ ys) =
    let rest = insert_id x ys in
    if ltb x y then x ∷ y ∷ ys else if nat_beq x y then y ∷ ys else y ∷ rest

unfoldable pub ids_in : AckTracker → String → Map ℕ String → List ℕ
ids_in t node [] = []
ids_in t node ((stream, _) ∷ m) =
    if is_on t node stream then insert_id stream (ids_in t node m) else ids_in t node m

-- The live streams of the node in ascending order, each once.
unfoldable pub stream_ids : AckTracker → String → List ℕ
stream_ids t node = ids_in t node t.nodes

-- The loop that returns the first rejection of the version.
unfoldable pub first_nack : AckTracker → List ℕ → String → Option Nack
first_nack t [] version = none
first_nack t (stream ∷ ids) version =
    if rejects (t.nacks stream) version then t.nacks stream else first_nack t ids version

abbrev pub stale_ack : ℕ
stale_ack = 0

abbrev pub no_ack : ℕ
no_ack = 1

abbrev pub not_subscribed : ℕ
not_subscribed = 2

-- `ack.version != "" || ack.fingerprint != ""`, both empty for a missing entry.
unfoldable pub has_ack : Option StreamAck → Bool
has_ack none = false
has_ack (some a) = not (a.version == "") || not (a.fingerprint == "")

unfoldable pub unproved_state : Bool → Option StreamAck → ℕ
unproved_state subscribed ack =
    if not subscribed then not_subscribed else if has_ack ack then stale_ack else no_ack

-- The state of a type on a stream; `none` where the loop continues with the next type.
unfoldable pub type_state : AckTracker → ExpectedSnapshot → ℕ → String → String → Option ℕ
type_state t e stream type_url fingerprint =
    if not (t.subscriptions stream type_url || has e.required type_url)
    then none
    else if fingerprint_of (t.acked stream type_url) == fingerprint
    then none
    else some (unproved_state (t.subscriptions stream type_url) (t.acked stream type_url))

-- `if state > worst[typeURL] { worst[typeURL] = state }`
unfoldable pub worsen : Map String ℕ → String → Option ℕ → Map String ℕ
worsen worst type_url none = worst
worsen worst type_url (some state) =
    if ltb (get_or (get type_url worst) 0) state then put type_url state worst else worst

unfoldable pub state_at : AckTracker → ExpectedSnapshot → ℕ → String → Option String → Option ℕ
state_at t e stream type_url none = none
state_at t e stream type_url (some fingerprint) = type_state t e stream type_url fingerprint

unfoldable pub over_types :
    AckTracker
    → ExpectedSnapshot
    → Map String String
    → ℕ
    → Map String ℕ
    → Map String String
    → Map String ℕ
over_types t e present stream worst [] = worst
over_types t e present stream worst ((type_url, _) ∷ m) =
    over_types t e present stream
      (worsen worst type_url (state_at t e stream type_url (get type_url present))) m

unfoldable pub over_streams :
    AckTracker → ExpectedSnapshot → Map String String → List ℕ → Map String ℕ → Map String ℕ
over_streams t e present [] worst = worst
over_streams t e present (stream ∷ ids) worst =
    over_streams t e present ids (over_types t e present stream worst present)

-- The texts of ConvergenceDetails; `nothing` is the empty string.
pub data Explanation : Type 0 where
  unregistered no_live_stream nothing : Explanation
  other_version : String → String → Explanation
  nacked : Nack → Explanation
  missing : ℕ → Map String ℕ → Explanation

unfoldable pub missing_types : ℕ → Map String ℕ → Explanation
missing_types streams [] = nothing
missing_types streams (w ∷ ws) = missing streams (w ∷ ws)

unfoldable pub explain_streams :
    AckTracker → String → ExpectedSnapshot → Map String String → List ℕ → Explanation
explain_streams t version e present ids = elim (first_nack t ids version) [
  | some n ↦ nacked n
  | none ↦ missing_types (length ids) (over_streams t e present ids [])
]

unfoldable pub explain : AckTracker → String → String → ExpectedSnapshot → Explanation
explain t node version e =
    if not (e.version == version)
    then other_version e.version version
    else if ltb 0 (length (t.fingerprints node)) && nat_beq (length (stream_ids t node)) 0
    then no_live_stream
    else explain_streams t version e (t.fingerprints node) (stream_ids t node)

unfoldable pub convergence_details : AckTracker → String → String → Explanation
convergence_details t node version = elim (t.expected node) [
  | none ↦ unregistered
  | some e ↦ explain t node version e
]

unfoldable pub last_nack : AckTracker → String → Option Nack
last_nack t node = elim (t.expected node) [
  | none ↦ none
  | some e ↦ first_nack t (stream_ids t node) e.version
]
