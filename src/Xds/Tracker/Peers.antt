-- ===== src/Xds/Tracker/Peers.antt =====
-- The streams of internal/xds/server/tracker.go are independent of one another.
use flareway.Base.{
  ℕ, ◌≡◌, ◌≢◌, inl, inr, refl, false, Option, none, some, String, List, [], ◌∷◌, arith, nat_beq,
  Option-cases,
}
use flareway.Base.Classes.{◌==◌, string_eq, nat_eq}
use flareway.Base.Maps.{Map, get-delete}
use flareway.Xds.Tracker.State.{AckTracker, PendingResponse, Request, Response, identify, node_of}
use flareway.Xds.Tracker.Requests.{
  accept_initial_fingerprint, on_response, hold_initial, accept_digest, accept_initial_versions,
  on_nack, ack_evidence, on_ack, answer, on_request,
}
use flareway.Xds.Tracker.Snapshots.{on_stream_closed}
use flareway.Xds.Tracker.Runs.{
  Event, response, request, closed, expects, forgets, step, run, IsPeer, OnlyPeers,
}
use flareway.Xds.Tracker.Frame.{
  Unmoved, Unmoved-refl, Unmoved-trans, Unmoved-if, identify-Unmoved, subscribe-Unmoved,
  forget_initial-Unmoved, put_initial-Unmoved, put_ack-Unmoved, put_nack-Unmoved,
  put_pending-Unmoved,
}

module _ (stream s : ℕ) (ne : nat_beq s stream ≡ false) where
  accept_initial_fingerprint-Unmoved :
      (t : AckTracker) (node ty fp : String)
      → Unmoved t (accept_initial_fingerprint t stream node ty fp) s
  unfolding accept_initial_fingerprint
  accept_initial_fingerprint-Unmoved t node ty fp = elim (Option-cases (t.expected node)) [
    | inl q ↦ rw (q, accept_initial_fingerprint) (Unmoved-refl t s)
    | inr (e, q) ↦
        rw (q, accept_initial_fingerprint)
          (Unmoved-if _
            (Unmoved-trans (put_ack-Unmoved t stream s ne ty _) (put_nack-Unmoved _ stream s ne _))
            (Unmoved-refl t s))
  ]

  on_nack-Unmoved :
      (t : AckTracker) (ty : String) (p : PendingResponse) (detail : String)
      → Unmoved t (on_nack t stream ty p detail) s
  unfolding on_nack
  on_nack-Unmoved t ty p detail =
      Unmoved-trans (put_nack-Unmoved t stream s ne _) (put_ack-Unmoved _ stream s ne ty none)

  ack_evidence-Unmoved :
      (t : AckTracker) (ty : String) (p : PendingResponse)
      → Unmoved t (ack_evidence t stream ty p) s
  unfolding ack_evidence
  ack_evidence-Unmoved t ty p = elim (Option-cases (t.expected p.node)) [
    | inl q ↦ rw (q, ack_evidence) (Unmoved-refl t s)
    | inr (e, q) ↦
        rw (q, ack_evidence) (Unmoved-if _ (put_ack-Unmoved t stream s ne ty _) (Unmoved-refl t s))
  ]

  on_ack-Unmoved :
      (t : AckTracker) (ty : String) (p : PendingResponse) → Unmoved t (on_ack t stream ty p) s
  unfolding on_ack
  on_ack-Unmoved t ty p =
      Unmoved-trans (ack_evidence-Unmoved t ty p) (put_nack-Unmoved _ stream s ne _)

  answer-Unmoved : (t : AckTracker) (req : Request) → Unmoved t (answer t stream req) s
  unfolding answer
  answer-Unmoved t req = elim (Option-cases (t.pending stream req.type_url req.response_nonce)) [
    | inl q ↦ rw (q, answer) (Unmoved-refl t s)
    | inr (p, q) ↦ elim (Option-cases req.error_detail) [
      | inl d ↦
          rw (q, answer)
            (rw d (
              Unmoved-trans (put_pending-Unmoved t stream s ne _ _ none)
                (on_ack-Unmoved _ req.type_url p)))
      | inr (detail, d) ↦
          rw (q, answer)
            (rw d (
              Unmoved-trans (put_pending-Unmoved t stream s ne _ _ none)
                (on_nack-Unmoved _ req.type_url p detail)))
    ]
  ]

  hold_initial-Unmoved :
      (t : AckTracker) (node ty fp : String) → Unmoved t (hold_initial t stream node ty fp) s
  unfolding hold_initial
  hold_initial-Unmoved t node ty fp = elim (Option-cases (t.expected node)) [
    | inl w ↦ rw (w, hold_initial) (put_initial-Unmoved t stream s ne ty fp)
    | inr (e, w) ↦ rw (w, hold_initial) (accept_initial_fingerprint-Unmoved t node ty fp)
  ]

  accept_digest-Unmoved :
      (t : AckTracker) (node ty : String) (d : Option String)
      → Unmoved t (accept_digest t stream node ty d) s
  unfolding accept_digest
  accept_digest-Unmoved t node ty none = Unmoved-refl t s
  accept_digest-Unmoved t node ty (some fp) =
      Unmoved-if (fp == "") (Unmoved-refl t s) (hold_initial-Unmoved t node ty fp)

  accept_initial_versions-Unmoved :
      (digest : Map String String → Option String) (t : AckTracker) (node ty : String)
      (versions : Map String String)
      → Unmoved t (accept_initial_versions digest t stream node ty versions) s
  unfolding accept_initial_versions
  accept_initial_versions-Unmoved digest t node ty versions =
      Unmoved-if _ (Unmoved-refl t s) (accept_digest-Unmoved t node ty (digest versions))

  -- A request on one stream moves nothing of another.
  pub on_request-Unmoved :
      (digest : Map String String → Option String) (t : AckTracker) (req : Option Request)
      → Unmoved t (on_request digest t stream req) s
  unfolding on_request
  on_request-Unmoved digest t none = Unmoved-refl t s
  on_request-Unmoved digest t (some req) =
      let known =
        Unmoved-trans (identify-Unmoved t stream s ne req.cluster)
          (subscribe-Unmoved _ stream s ne req.type_url) in
      Unmoved-if (req.response_nonce == "")
        (Unmoved-trans known
          (accept_initial_versions-Unmoved digest _ _ req.type_url req.initial_versions))
        (Unmoved-trans known (
          Unmoved-trans (forget_initial-Unmoved _ stream s ne req.type_url) (answer-Unmoved _ req)))

  pub on_response-Unmoved :
      (t : AckTracker) (req : Option Request) (resp : Option Response)
      → Unmoved t (on_response t stream req resp) s
  unfolding on_response
  on_response-Unmoved t none resp = Unmoved-refl t s
  on_response-Unmoved t (some req) none = Unmoved-refl t s
  on_response-Unmoved t (some req) (some resp) =
      let known = identify-Unmoved t stream s ne req.cluster in
      Unmoved-if (resp.nonce == "") (Unmoved-refl t s) (
        Unmoved-if (node_of (identify t stream req.cluster) stream == "") known (
          Unmoved-trans known (
            Unmoved-trans (subscribe-Unmoved _ stream s ne resp.type_url) (
              Unmoved-trans (forget_initial-Unmoved _ stream s ne resp.type_url)
                (put_pending-Unmoved _ stream s ne resp.type_url resp.nonce _)))))

  pub on_stream_closed-Unmoved : (t : AckTracker) → Unmoved t (on_stream_closed t stream) s
  unfolding on_stream_closed
  on_stream_closed-Unmoved t = record {
    node = ground (arith, get-delete stream s t.nodes);
    pending = λ ty n. rw ne;
    subscribed = λ ty. rw ne;
    acked = λ ty. rw ne;
    nack = rw ne;
    initial = λ ty. rw ne;
    expected = λ n. refl;
    fingerprints = λ n. refl;
  }

nat_ne : {a b : ℕ} → a ≢ b → nat_beq a b ≡ false
nat_ne h = ground arith

module _ (digest : Map String String → Option String) where
  step-Unmoved : (t : AckTracker) (s : ℕ) (e : Event) → IsPeer s e → Unmoved t (step digest t e) s
  unfolding step
  step-Unmoved t s (response stream req resp) n = on_response-Unmoved stream s (nat_ne n) t req resp
  step-Unmoved t s (request stream req) n = on_request-Unmoved stream s (nat_ne n) digest t req
  step-Unmoved t s (closed stream) n = on_stream_closed-Unmoved stream s (nat_ne n) t
  step-Unmoved t s (expects node version fingerprints required) n = absurd n
  step-Unmoved t s (forgets node) n = absurd n

  -- Any sequence of requests, responses and closes of other streams leaves this stream's node,
  -- pending responses, subscriptions, ACKs, NACK and initial proofs as they were, and all expected
  -- snapshots too.
  pub run-Unmoved :
      (t : AckTracker) (s : ℕ) (es : List Event) → OnlyPeers s es → Unmoved t (run digest t es) s
  unfolding run
  run-Unmoved t s [] n = Unmoved-refl t s
  run-Unmoved t s (e ∷ es) n =
      Unmoved-trans (step-Unmoved t s e n.0) (run-Unmoved (step digest t e) s es n.1)
