-- ===== src/Xds/Tracker/Invariant.antt =====
-- No record outlives its stream in internal/xds/server/tracker.go.
use flareway.Base.{
  ℕ, ◌≡◌, inl, inr, refl, false, Option, none, some, String, List, [], ◌∷◌, Bool-cases,
}
use flareway.Base.Classes.{◌==◌, string_eq, nat_eq, option_eq}
use flareway.Base.Maps.{Map, get}
use flareway.Xds.Tracker.State.{
  AckTracker, PendingResponse, Request, Response, identify, subscribe, forget_initial_fingerprint,
  put_pending, node_of, new_ack_tracker,
}
use flareway.Xds.Tracker.Requests.{on_request, on_response}
use flareway.Xds.Tracker.Snapshots.{
  forget, drop_node, is_on, record_snapshot, expect_snapshot, already_expected,
}
use flareway.Xds.Tracker.Runs.{Event, response, request, closed, expects, forgets, step, run}
use flareway.Xds.Tracker.Peers.{on_request-Unmoved, on_response-Unmoved}
use flareway.Xds.Tracker.Blank.{
  IsBlank, IsClean, IsClean-by_stream, identify-none, subscribe-nodes, on_stream_closed-IsClean,
}
use flareway.Xds.Tracker.Unidentified.{request_unidentified}

on_request-IsClean :
    (digest : Map String String → Option String) (t : AckTracker) (stream : ℕ)
    (req : Option Request)
    → IsClean t
    → IsClean (on_request digest t stream req)
unfolding on_request
on_request-IsClean digest t stream req c =
    IsClean-by_stream t (on_request digest t stream req) stream
      (λ s ne. on_request-Unmoved stream s ne digest t req) (own req) c
  where
    own :
        (r : Option Request)
        → get stream (on_request digest t stream r).nodes ≡ none
        → IsBlank (on_request digest t stream r) stream
    own none d = c stream d
    own (some r) d = request_unidentified digest t stream r c d

module _ (t : AckTracker) (stream : ℕ) (c : IsClean t) where
  -- A message that names no node leaves an unknown stream blank.
  identify-IsBlank :
      (cluster : String)
      → get stream (identify t stream cluster).nodes ≡ none
      → IsBlank (identify t stream cluster) stream
  unfolding identify
  identify-IsBlank cluster d = let (q, e) = identify-none t stream cluster d in rw q (c stream e)

  -- A known node means a live stream.
  node_of_live : (u : AckTracker) → (node_of u stream == "") ≡ false → get stream u.nodes ≡ none → ⊥
  unfolding node_of
  node_of_live u h d = cc (rw d at h)

  record_response-nodes :
      (u : AckTracker) (ty nonce : String) (p : Option PendingResponse)
      → (put_pending
          (forget_initial_fingerprint (subscribe u stream ty) stream ty)
          stream
          ty
          nonce
          p).nodes
        ≡ u.nodes
  unfolding put_pending forget_initial_fingerprint
  record_response-nodes u ty nonce p = subscribe-nodes u stream ty

  response_unidentified :
      (q : Option Request) (r : Option Response)
      → get stream (on_response t stream q r).nodes ≡ none
      → IsBlank (on_response t stream q r) stream
  unfolding on_response
  response_unidentified none r d = c stream d
  response_unidentified (some q) none d = c stream d
  response_unidentified (some q) (some r) d = elim (Bool-cases (r.nonce == "")) [
    | inl n ↦ rw n (c stream (rw n at d))
    | inr n ↦ elim (Bool-cases (node_of (identify t stream q.cluster) stream == "")) [
      | inl k ↦ rw (n, k) (identify-IsBlank q.cluster (rw (n, k) at d))
      | inr k ↦ absurd (
          node_of_live (identify t stream q.cluster) k
            (rw (n, k, record_response-nodes (identify t stream q.cluster)) at d))
    ]
  ]

on_response-IsClean :
    (t : AckTracker) (stream : ℕ) (req : Option Request) (resp : Option Response)
    → IsClean t
    → IsClean (on_response t stream req resp)
on_response-IsClean t stream req resp c =
    IsClean-by_stream t (on_response t stream req resp) stream
      (λ s ne. on_response-Unmoved stream s ne t req resp)
      (response_unidentified t stream c req resp) c

expect_snapshot-IsClean :
    (t : AckTracker) (node version : String) (fingerprints : Map String String)
    (required : List String)
    → IsClean t
    → IsClean (expect_snapshot t node version fingerprints required)
unfolding expect_snapshot record_snapshot is_on
expect_snapshot-IsClean t node version fingerprints required c s d =
    elim (Bool-cases (already_expected t node version fingerprints)) [
      | inl q ↦ rw q (c s (rw q at d))
      | inr q ↦
          let e = rw q at d in
          let b = c s e in
          rw q (record {
            pending = b.pending;
            acked = λ ty. rw e (b.acked ty);
            nack = rw e b.nack;
            initial = λ ty. rw e (b.initial ty);
          })
    ]

forget-IsClean : (t : AckTracker) (node : String) → IsClean t → IsClean (forget t node)
unfolding forget is_on drop_node
forget-IsClean t node c s d =
    let b = c s d in
    record {
      pending = λ ty n. rw (b.pending ty n, drop_node);
      acked = λ ty. rw d (b.acked ty);
      nack = rw d b.nack;
      initial = λ ty. rw d (b.initial ty);
    }

step-IsClean :
    (digest : Map String String → Option String) (t : AckTracker) (e : Event)
    → IsClean t
    → IsClean (step digest t e)
unfolding step
step-IsClean digest t (response stream req resp) c = on_response-IsClean t stream req resp c
step-IsClean digest t (request stream req) c = on_request-IsClean digest t stream req c
step-IsClean digest t (closed stream) c = on_stream_closed-IsClean t stream c
step-IsClean digest t (expects node version fingerprints required) c =
    expect_snapshot-IsClean t node version fingerprints required c
step-IsClean digest t (forgets node) c = forget-IsClean t node c

run-IsClean :
    (digest : Map String String → Option String) (t : AckTracker) (es : List Event)
    → IsClean t
    → IsClean (run digest t es)
unfolding run
run-IsClean digest t [] c = c
run-IsClean digest t (e ∷ es) c =
    run-IsClean digest (step digest t e) es (step-IsClean digest t e c)

run-new-IsClean :
    (digest : Map String String → Option String) (es : List Event)
    → IsClean (run digest new_ack_tracker es)
unfolding new_ack_tracker
run-new-IsClean digest es = run-IsClean digest new_ack_tracker es fresh
  where
    fresh : IsClean new_ack_tracker
    fresh s d = record {
      pending = λ ty n. refl;
      acked = λ ty. refl;
      nack = refl;
      initial = λ ty. refl;
    }

-- After any calls on a new tracker, a stream that is not live has no pending response, no ACK, no
-- NACK and no initial proof on record.
pub run_closed-IsBlank :
    (digest : Map String String → Option String) (es : List Event) (s : ℕ)
    → get s (run digest new_ack_tracker es).nodes ≡ none
    → IsBlank (run digest new_ack_tracker es) s
run_closed-IsBlank digest es s d = run-new-IsClean digest es s d
