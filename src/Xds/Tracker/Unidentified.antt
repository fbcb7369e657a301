-- ===== src/Xds/Tracker/Unidentified.antt =====
-- Requests of internal/xds/server/tracker.go on a stream whose node is not known.
use flareway.Base.{ℕ, ◌≡◌, inl, inr, refl, ◌∙◌, Option, none, some, String, arith, Bool-cases}
use flareway.Base.Classes.{◌==◌, string_eq, nat_eq, option_eq}
use flareway.Base.Maps.{Map, get}
use flareway.Xds.Tracker.State.{
  AckTracker, Request, identify, subscribe, forget_initial_fingerprint, put_ack, put_nack,
  put_pending, node_of,
}
use flareway.Xds.Tracker.Requests.{
  put_initial, accept_initial_fingerprint, hold_initial, accept_digest, on_nack, ack_evidence,
  on_ack, accept_initial_versions, answer, on_request,
}
use flareway.Xds.Tracker.Blank.{
  IsBlank, IsClean, identify-none, forget_subscribe-IsBlank, forget_initial-IsBlank,
  subscribe-nodes,
}

module _ (t : AckTracker) (stream : ℕ) where
  answer-nodes : (req : Request) → (answer t stream req).nodes ≡ t.nodes
  unfolding answer on_nack on_ack ack_evidence put_pending put_ack put_nack
  answer-nodes req = ground arith

  accept_digest-nodes :
      (node ty : String) (d : Option String) → (accept_digest t stream node ty d).nodes ≡ t.nodes
  unfolding accept_digest hold_initial put_initial accept_initial_fingerprint
  accept_digest-nodes node ty none = refl
  accept_digest-nodes node ty (some fp) = ground arith

  accept_initial_versions-nodes :
      (digest : Map String String → Option String) (node ty : String) (versions : Map String String)
      → (accept_initial_versions digest t stream node ty versions).nodes ≡ t.nodes
  unfolding accept_initial_versions
  accept_initial_versions-nodes digest node ty versions =
      ground (arith, accept_digest-nodes node ty (digest versions))

  forget_initial-nodes : (ty : String) → (forget_initial_fingerprint t stream ty).nodes ≡ t.nodes
  unfolding forget_initial_fingerprint
  forget_initial-nodes ty = refl

  -- Without a node, and with nothing pending, the second half of a request changes nothing of note.
  accept_unidentified :
      (digest : Map String String → Option String) (ty : String) (versions : Map String String)
      → accept_initial_versions digest t stream "" ty versions ≡ t
  unfolding accept_initial_versions
  accept_unidentified digest ty versions = refl

  answer_unidentified : (req : Request) → IsBlank t stream → answer t stream req ≡ t
  unfolding answer
  answer_unidentified req b = rw (b.pending req.type_url req.response_nonce, answer)

module _ (digest : Map String String → Option String) (t : AckTracker) (stream : ℕ)
    (req : Request) where
  abbrev known : AckTracker
  known = subscribe (identify t stream req.cluster) stream req.type_url

  on_request-nodes :
      (on_request digest t stream (some req)).nodes ≡ (identify t stream req.cluster).nodes
  unfolding on_request
  on_request-nodes = elim (Bool-cases (req.response_nonce == "")) [
    | inl q ↦
        rw q (accept_initial_versions-nodes _ stream digest _ _ _ ∙ subscribe-nodes _ stream _)
    | inr q ↦
        rw q
          (answer-nodes _ stream req ∙ forget_initial-nodes _ stream _ ∙ subscribe-nodes _ stream _)
  ]

  known-IsBlank :
      IsClean t → get stream (identify t stream req.cluster).nodes ≡ none → IsBlank known stream
  unfolding identify
  known-IsBlank c d =
      let (q, e) = identify-none t stream req.cluster d in
      rw q (forget_subscribe-IsBlank t stream req.type_url (c stream e))

  known-node : get stream (identify t stream req.cluster).nodes ≡ none → node_of known stream ≡ ""
  unfolding node_of
  known-node d = rw (subscribe-nodes (identify t stream req.cluster) stream req.type_url) (rw d)

  pub request_unidentified :
      IsClean t
      → get stream (on_request digest t stream (some req)).nodes ≡ none
      → IsBlank (on_request digest t stream (some req)) stream
  unfolding on_request
  request_unidentified c d =
      let e = rw on_request-nodes at d in
      let b = known-IsBlank c e in
      let f = forget_initial-IsBlank known stream req.type_url b in
      elim (Bool-cases (req.response_nonce == "")) [
        | inl q ↦ rw q (
            rw
              (
                known-node e,
                accept_unidentified known stream digest req.type_url req.initial_versions,
              )
              b)
        | inr q ↦ rw q (
            rw
              (answer_unidentified (forget_initial_fingerprint known stream req.type_url) stream req
                f)
              f)
      ]
