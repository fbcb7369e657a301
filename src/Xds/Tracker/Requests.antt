-- ===== src/Xds/Tracker/Requests.antt =====
-- internal/xds/server/tracker.go: OnResponse and OnRequest, with what they call.
use flareway.Base.{
  ℕ, ◌||◌, ◌&&◌, Option, none, some, String, if◌then◌else◌, get_or, nat_beq, length,
}
use flareway.Base.Classes.{◌==◌, string_eq, nat_eq, option_eq}
use flareway.Base.Maps.{Map, get}
use flareway.Xds.Tracker.State.{
  node_of, subscribe, forget_initial_fingerprint, put_ack, put_nack, superseded, PendingResponse,
  AckTracker, Request, Response, identify, put_pending,
}

unfoldable pub accept_initial_fingerprint : AckTracker → ℕ → String → String → String → AckTracker
unfolding put_ack put_nack superseded
accept_initial_fingerprint t stream node type_url fingerprint = elim (t.expected node) [
  | none ↦ t
  | some e ↦
      if fingerprint == get_or (get type_url (t.fingerprints node)) ""
      then put_nack
          (put_ack t stream type_url
            (some (record { version = e.version; fingerprint = fingerprint })))
          stream (superseded (t.nacks stream) e.version type_url)
      else t
]

unfoldable pub on_response : AckTracker → ℕ → Option Request → Option Response → AckTracker
on_response t stream none resp = t
on_response t stream (some req) none = t
on_response t stream (some req) (some resp) =
    let known = identify t stream req.cluster in
    let node = node_of known stream in
    if resp.nonce == ""
    then t
    else if node == ""
    then known
    else put_pending
        (forget_initial_fingerprint (subscribe known stream resp.type_url) stream resp.type_url)
        stream resp.type_url resp.nonce
        (some (record { node = node; version = resp.system_version }))

unfoldable pub put_initial : AckTracker → ℕ → String → String → AckTracker
put_initial t stream type_url fingerprint = record t {
  initial_fingerprints = λ s ty.
      if nat_beq s stream && ty == type_url then some fingerprint else t.initial_fingerprints s ty;
}

-- Proof that comes before the snapshot is kept for it.
unfoldable pub hold_initial : AckTracker → ℕ → String → String → String → AckTracker
hold_initial t stream node type_url fingerprint = elim (t.expected node) [
  | none ↦ put_initial t stream type_url fingerprint
  | some e ↦ accept_initial_fingerprint t stream node type_url fingerprint
]

unfoldable pub accept_digest : AckTracker → ℕ → String → String → Option String → AckTracker
accept_digest t stream node type_url none = t
accept_digest t stream node type_url (some fingerprint) =
    if fingerprint == "" then t else hold_initial t stream node type_url fingerprint

-- The digest of a version map is that of the snapshot's own fingerprints; `none` is its error.
unfoldable pub accept_initial_versions :
    (Map String String → Option String)
    → AckTracker
    → ℕ
    → String
    → String
    → Map String String
    → AckTracker
accept_initial_versions fingerprint_version_map t stream node type_url versions =
    if node == "" || (type_url == "" || nat_beq (length versions) 0)
    then t
    else accept_digest t stream node type_url (fingerprint_version_map versions)

unfoldable pub on_nack : AckTracker → ℕ → String → PendingResponse → String → AckTracker
on_nack t stream type_url p detail =
    put_ack
      (put_nack t stream
        (some (record { version = p.version; type_url = type_url; detail = detail })))
      stream type_url none

-- Only the expected version's ACK is evidence; an older one is ignored.
unfoldable pub ack_evidence : AckTracker → ℕ → String → PendingResponse → AckTracker
ack_evidence t stream type_url p = elim (t.expected p.node) [
  | none ↦ t
  | some e ↦
      if e.version == p.version
      then put_ack t stream type_url (
          some (record {
            version = p.version;
            fingerprint = get_or (get type_url (t.fingerprints p.node)) "";
          }))
      else t
]

unfoldable pub on_ack : AckTracker → ℕ → String → PendingResponse → AckTracker
on_ack t stream type_url p =
    let t' = ack_evidence t stream type_url p in
    put_nack t' stream (superseded (t'.nacks stream) p.version type_url)

-- The response that a nonce answers.
unfoldable pub answer : AckTracker → ℕ → Request → AckTracker
answer t stream req = elim (t.pending stream req.type_url req.response_nonce) [
  | none ↦ t
  | some p ↦
      let t' = put_pending t stream req.type_url req.response_nonce none in
      elim req.error_detail [
        | some detail ↦ on_nack t' stream req.type_url p detail
        | none ↦ on_ack t' stream req.type_url p
      ]
]

unfoldable pub on_request :
    (Map String String → Option String) → AckTracker → ℕ → Option Request → AckTracker
on_request fingerprint_version_map t stream none = t
on_request fingerprint_version_map t stream (some req) =
    let known = subscribe (identify t stream req.cluster) stream req.type_url in
    if req.response_nonce == ""
    then accept_initial_versions fingerprint_version_map known stream (node_of known stream)
        req.type_url req.initial_versions
    else answer (forget_initial_fingerprint known stream req.type_url) stream req
