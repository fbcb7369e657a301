-- ===== src/Xds/Tracker/Blank.antt =====
-- Streams of internal/xds/server/tracker.go of which nothing is on record.
use flareway.Base.{
  ℕ, ◌≡◌, inl, inr, sym, subst, ◌∙◌, true, false, none, some, String, arith, nat_beq, nat_beq_iff,
  Bool-cases,
}
use flareway.Base.Classes.{◌==◌, string_eq, nat_eq, option_eq}
use flareway.Base.Maps.{get, put, get-put}
use flareway.Xds.Tracker.State.{AckTracker, identify, subscribe, forget_initial_fingerprint}
use flareway.Xds.Tracker.Snapshots.{on_stream_closed}
use flareway.Xds.Tracker.Frame.{Unmoved}
use flareway.Xds.Tracker.Peers.{on_stream_closed-Unmoved}

-- Nothing is on record for the stream.
pub record IsBlank (t : AckTracker) (s : ℕ) : Type 0 where
  pub pending : (ty n : String) → t.pending s ty n ≡ none
  pub acked : (ty : String) → t.acked s ty ≡ none
  pub nack : t.nacks s ≡ none
  pub initial : (ty : String) → t.initial_fingerprints s ty ≡ none

-- A stream that is not live has nothing on record.
abbrev pub IsClean : AckTracker → Type 0
IsClean t = (s : ℕ) → get s t.nodes ≡ none → IsBlank t s

Unmoved-IsBlank : (t u : AckTracker) (s : ℕ) → Unmoved t u s → IsBlank t s → IsBlank u s
Unmoved-IsBlank t u s m b = record {
  pending = λ ty n. m.pending ty n ∙ b.pending ty n;
  acked = λ ty. m.acked ty ∙ b.acked ty;
  nack = m.nack ∙ b.nack;
  initial = λ ty. m.initial ty ∙ b.initial ty;
}

-- A message keeps the tracker clean if it does so for its own stream.
pub IsClean-by_stream :
    (t u : AckTracker) (stream : ℕ)
    → ((s : ℕ) → nat_beq s stream ≡ false → Unmoved t u s)
    → (get stream u.nodes ≡ none → IsBlank u stream)
    → IsClean t
    → IsClean u
IsClean-by_stream t u stream others own c s d = elim (Bool-cases (nat_beq s stream)) [
  | inr ne ↦ let m = others s ne in Unmoved-IsBlank t u s m (c s (sym m.node ∙ d))
  | inl e ↦
      let p = (nat_beq_iff s stream).0 e in
      subst (λ x. IsBlank u x) (sym p) (own (subst (λ x. get x u.nodes ≡ none) p d))
]

pub some_ne_none : {A : Type 0} {a : A} → some a ≡ none → ⊥
some_ne_none h = cc

pub self : (s : ℕ) → nat_beq s s ≡ true
self s = ground arith

module _ (t : AckTracker) (stream : ℕ) where
  -- A stream that a message does not identify was not identified before.
  pub identify-none :
      (cluster : String)
      → get stream (identify t stream cluster).nodes ≡ none
      → ((cluster == "") ≡ true) × (get stream t.nodes ≡ none)
  unfolding identify
  identify-none cluster d = elim (Bool-cases (cluster == "")) [
    | inl q ↦ (q, rw q at d)
    | inr q ↦ absurd (some_ne_none (sym (get_put_self cluster) ∙ rw q at d))
  ]
    where
      get_put_self : (c : String) → get stream (put stream c t.nodes) ≡ some c
      get_put_self c = rw (get-put stream stream c t.nodes) (rw (self stream))

  pub forget_subscribe-IsBlank :
      (ty : String) → IsBlank t stream → IsBlank (subscribe t stream ty) stream
  unfolding subscribe
  forget_subscribe-IsBlank ty b = elim (Bool-cases (ty == "")) [
    | inl q ↦ rw q b
    | inr q ↦
        rw q (record { pending = b.pending; acked = b.acked; nack = b.nack; initial = b.initial })
  ]

  pub forget_initial-IsBlank :
      (ty : String) → IsBlank t stream → IsBlank (forget_initial_fingerprint t stream ty) stream
  unfolding forget_initial_fingerprint
  forget_initial-IsBlank ty b = record {
    pending = b.pending;
    acked = b.acked;
    nack = b.nack;
    initial = λ x. ground (arith, b.initial x);
  }

  pub subscribe-nodes : (ty : String) → (subscribe t stream ty).nodes ≡ t.nodes
  unfolding subscribe
  subscribe-nodes ty = ground arith

  pub on_stream_closed-IsClean : IsClean t → IsClean (on_stream_closed t stream)
  unfolding on_stream_closed
  on_stream_closed-IsClean =
      IsClean-by_stream t (on_stream_closed t stream) stream
        (λ s ne. on_stream_closed-Unmoved stream s ne t)
        (λ d. record {
          pending = λ ty n. rw (self stream);
          acked = λ ty. rw (self stream);
          nack = rw (self stream);
          initial = λ ty. rw (self stream);
        })
