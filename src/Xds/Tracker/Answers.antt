-- ===== src/Xds/Tracker/Answers.antt =====
-- What an ACK, a NACK and the close of a stream do in internal/xds/server/tracker.go.
use flareway.Base.{
  ℕ, ◌≡◌, ◌≢◌, inl, inr, refl, sym, ap, ◌∙◌, Bool, true, false, Option, none, some, String,
  if◌then◌else◌, [], arith, nat_beq, get_or, Bool-cases,
}
use flareway.Base.Classes.{◌==◌, string_eq, nat_eq, option_eq, ==_refl}
use flareway.Base.Maps.{Map, get}
use text.Mathlib.TextEquality.{eq_iff}
use flareway.Xds.Tracker.State.{
  AckTracker, ExpectedSnapshot, StreamAck, PendingResponse, Request, Nack, identify, subscribe,
  forget_initial_fingerprint, put_ack, put_nack, put_pending, superseded,
}
use flareway.Xds.Tracker.Requests.{on_nack, ack_evidence, on_ack, answer, on_request}
use flareway.Xds.Tracker.Acked.{rejects, is_acked}
use flareway.Xds.Tracker.Convergence.{OnNode, Converged, is_acked-Converged}

-- The request answers a response that is on record.
pub record Answers (t : AckTracker) (s : ℕ) (req : Request) (p : PendingResponse) : Type 0 where
  pub nonce : req.response_nonce ≢ ""
  pub pending : t.pending s req.type_url req.response_nonce ≡ some p

-- `u` differs from `t` in nodes, subscriptions and initial proofs alone.
record Kept (t u : AckTracker) : Type 0 where
  pending : u.pending ≡ t.pending
  expected : u.expected ≡ t.expected
  fingerprints : u.fingerprints ≡ t.fingerprints
  acked : u.acked ≡ t.acked
  nacks : u.nacks ≡ t.nacks

Kept-refl : (t : AckTracker) → Kept t t
Kept-refl t = record {
  pending = refl;
  expected = refl;
  fingerprints = refl;
  acked = refl;
  nacks = refl;
}

Kept-trans : {t u v : AckTracker} → Kept t u → Kept u v → Kept t v
Kept-trans f g = record {
  pending = g.pending ∙ f.pending;
  expected = g.expected ∙ f.expected;
  fingerprints = g.fingerprints ∙ f.fingerprints;
  acked = g.acked ∙ f.acked;
  nacks = g.nacks ∙ f.nacks;
}

Kept-if : (b : Bool) {t u v : AckTracker} → Kept t u → Kept t v → Kept t (if b then u else v)
Kept-if true f g = f
Kept-if false f g = g

-- The state in which a nonce is looked up.
abbrev met : AckTracker → ℕ → Request → AckTracker
met t s req =
    forget_initial_fingerprint (subscribe (identify t s req.cluster) s req.type_url) s req.type_url

identify-Kept : (t : AckTracker) (s : ℕ) (cluster : String) → Kept t (identify t s cluster)
unfolding identify
identify-Kept t s cluster =
    Kept-if (cluster == "") (Kept-refl t)
      (record { pending = refl; expected = refl; fingerprints = refl; acked = refl; nacks = refl })

subscribe-Kept : (t : AckTracker) (s : ℕ) (ty : String) → Kept t (subscribe t s ty)
unfolding subscribe
subscribe-Kept t s ty =
    Kept-if (ty == "") (Kept-refl t)
      (record { pending = refl; expected = refl; fingerprints = refl; acked = refl; nacks = refl })

forget_initial-Kept :
    (t : AckTracker) (s : ℕ) (ty : String) → Kept t (forget_initial_fingerprint t s ty)
unfolding forget_initial_fingerprint
forget_initial-Kept t s ty = record {
  pending = refl;
  expected = refl;
  fingerprints = refl;
  acked = refl;
  nacks = refl;
}

met-Kept : (t : AckTracker) (s : ℕ) (req : Request) → Kept t (met t s req)
met-Kept t s req =
    Kept-trans (identify-Kept t s req.cluster)
      (Kept-trans (subscribe-Kept _ s req.type_url) (forget_initial-Kept _ s req.type_url))

abbrev settled : AckTracker → ℕ → Request → AckTracker
settled t s req = put_pending (met t s req) s req.type_url req.response_nonce none

self : (s : ℕ) → nat_beq s s ≡ true
self s = ground arith

true_ne_false : true ≡ false → ⊥
true_ne_false h = cc

on_nack-outcome :
    (w : AckTracker) (s : ℕ) (ty : String) (p : PendingResponse) (detail : String)
    → let u = on_nack w s ty p detail in
      (u.acked s ty ≡ none)
      × (rejects (u.nacks s) p.version ≡ true)
      × (u.fingerprints p.node ≡ w.fingerprints p.node)
unfolding on_nack put_ack put_nack rejects
on_nack-outcome w s ty p detail = (rw (self s, ==_refl ty), rw (self s, ==_refl p.version), refl)

module _ (w : AckTracker) (s : ℕ) (ty : String) (p : PendingResponse) (e : ExpectedSnapshot)
    (x : w.expected p.node ≡ some e) where
  on_ack_current :
      (e.version == p.version) ≡ true
      → let u = on_ack w s ty p in
        (u.acked s ty
          ≡ some (record {
            version = p.version;
            fingerprint = get_or (get ty (w.fingerprints p.node)) "";
          }))
        × (u.nacks s ≡ superseded (w.nacks s) p.version ty)
  unfolding on_ack ack_evidence put_ack put_nack
  on_ack_current v = rw (x, ack_evidence) (rw (v, self s, ==_refl ty) (refl, refl))

  on_ack_stale : (e.version == p.version) ≡ false → (on_ack w s ty p).acked s ty ≡ w.acked s ty
  unfolding on_ack ack_evidence put_ack put_nack
  on_ack_stale v = rw (x, ack_evidence) (rw v)

module _ (digest : Map String String → Option String) (t : AckTracker) (s : ℕ) (req : Request)
    (p : PendingResponse) (a : Answers t s req p) where
  on_request-answer : on_request digest t s (some req) ≡ answer (met t s req) s req
  unfolding on_request
  on_request-answer = rw nonce_set
    where
      nonce_set : (req.response_nonce == "") ≡ false
      nonce_set = ground (arith, a.nonce, eq_iff req.response_nonce "")

  found : (met t s req).pending s req.type_url req.response_nonce ≡ some p
  found = rw (met-Kept t s req).pending a.pending

  answer-nack :
      (detail : String)
      → req.error_detail ≡ some detail
      → on_request digest t s (some req) ≡ on_nack (settled t s req) s req.type_url p detail
  unfolding answer
  answer-nack detail d = on_request-answer ∙ rw (found, answer) (rw d)

  answer-ack :
      req.error_detail ≡ none
      → on_request digest t s (some req) ≡ on_ack (settled t s req) s req.type_url p
  unfolding answer
  answer-ack d = on_request-answer ∙ rw (found, answer) (rw d)

  -- A request without an error that answers a pending response of the version expected for its node
  -- records that version and the snapshot's current fingerprint of the type as the stream's ACK,
  -- and drops the stream's NACK exactly if it is of that version and type.
  ack_recorded :
      (e : ExpectedSnapshot)
      → req.error_detail ≡ none
      → t.expected p.node ≡ some e
      → e.version ≡ p.version
      → let u = on_request digest t s (some req) in
        (u.acked s req.type_url
          ≡ some (record {
            version = p.version;
            fingerprint = get_or (get req.type_url (t.fingerprints p.node)) "";
          }))
        × (u.nacks s ≡ superseded (t.nacks s) p.version req.type_url)
  unfolding put_pending
  ack_recorded e d x v =
      let k = met-Kept t s req in
      let (acked, nacks) =
        on_ack_current (settled t s req) s req.type_url p e (rw k.expected x)
          ((eq_iff e.version p.version).1 v) in
      rw (answer-ack d) (
        acked
            ∙ ap
                (λ (m : String → Map String String). some (record {
                  version = p.version;
                  fingerprint = get_or (get req.type_url (m p.node)) "";
                }))
                k.fingerprints,
        nacks ∙ ap (λ (m : ℕ → Option Nack). superseded (m s) p.version req.type_url) k.nacks,
      )

  -- A request without an error that answers a pending response of a version other than the expected
  -- one leaves the stream's ACK of the type as it was.
  stale_ack_ignored :
      (e : ExpectedSnapshot)
      → req.error_detail ≡ none
      → t.expected p.node ≡ some e
      → e.version ≢ p.version
      → (on_request digest t s (some req)).acked s req.type_url ≡ t.acked s req.type_url
  unfolding put_pending
  stale_ack_ignored e d x v =
      let k = met-Kept t s req in
      rw (answer-ack d) (
        on_ack_stale (settled t s req) s req.type_url p e (rw k.expected x)
          (ground (arith, v, eq_iff e.version p.version))
        ∙ ap (λ (m : ℕ → String → Option StreamAck). m s req.type_url) k.acked)

  -- A request with an error that answers a pending response removes the stream's ACK of the type
  -- and, if the stream is live on the response's node and the node's snapshot has resources, makes
  -- IsACKed answer false for the version of the response.
  nack_blocks :
      (detail : String)
      → req.error_detail ≡ some detail
      → OnNode (on_request digest t s (some req)) p.node s
      → t.fingerprints p.node ≢ []
      → let u = on_request digest t s (some req) in
        (u.acked s req.type_url ≡ none) × (is_acked u p.node p.version ≡ false)
  unfolding put_pending
  nack_blocks detail d l n = (
    proof_gone,
    elim (Bool-cases (is_acked u p.node p.version)) [
      | inr q ↦ q
      | inl q ↦ absurd (refuted ((is_acked-Converged u p.node p.version).0 q))
    ],
  )
    where
      u : AckTracker
      u = on_request digest t s (some req)

      proof_gone : u.acked s req.type_url ≡ none
      proof_gone =
          rw (answer-nack detail d) (on_nack-outcome (settled t s req) s req.type_url p detail).0

      rejected : rejects (u.nacks s) p.version ≡ true
      rejected =
          rw (answer-nack detail d) (on_nack-outcome (settled t s req) s req.type_url p detail).1

      unchanged : u.fingerprints p.node ≡ t.fingerprints p.node
      unchanged = rw (answer-nack detail d) (
          (on_nack-outcome (settled t s req) s req.type_url p detail).2
          ∙ ap (λ (m : String → Map String String). m p.node) (met-Kept t s req).fingerprints)

      refuted : Converged u p.node p.version → ⊥
      refuted (e, x, v, inl nil) = n (sym unchanged ∙ nil)
      refuted (e, x, v, inr (live, h)) = true_ne_false (sym rejected ∙ (h s l).accepted)
