-- ===== src/Xds/Tracker/Frame.antt =====
-- What a message on one stream of internal/xds/server/tracker.go leaves alone.
use flareway.Base.{
  ℕ, ◌≡◌, refl, ◌∙◌, Bool, true, false, Option, String, if◌then◌else◌, arith, nat_beq,
}
use flareway.Base.Classes.{◌==◌, string_eq, nat_eq}
use flareway.Base.Maps.{get, put, get-put}
use flareway.Xds.Tracker.State.{
  AckTracker, PendingResponse, StreamAck, Nack, subscribe, forget_initial_fingerprint, put_ack,
  put_nack, identify, put_pending,
}
use flareway.Xds.Tracker.Requests.{put_initial}

-- Everything that the tracker knows of the stream is as it was, and so are the snapshots expected.
pub record Unmoved (t u : AckTracker) (s : ℕ) : Type 0 where
  pub node : get s u.nodes ≡ get s t.nodes
  pub pending : (ty n : String) → u.pending s ty n ≡ t.pending s ty n
  pub subscribed : (ty : String) → u.subscriptions s ty ≡ t.subscriptions s ty
  pub acked : (ty : String) → u.acked s ty ≡ t.acked s ty
  pub nack : u.nacks s ≡ t.nacks s
  pub initial : (ty : String) → u.initial_fingerprints s ty ≡ t.initial_fingerprints s ty
  pub expected : (n : String) → u.expected n ≡ t.expected n
  pub fingerprints : (n : String) → u.fingerprints n ≡ t.fingerprints n

pub Unmoved-refl : (t : AckTracker) (s : ℕ) → Unmoved t t s
Unmoved-refl t s = record {
  node = refl;
  pending = λ ty n. refl;
  subscribed = λ ty. refl;
  acked = λ ty. refl;
  nack = refl;
  initial = λ ty. refl;
  expected = λ n. refl;
  fingerprints = λ n. refl;
}

pub Unmoved-trans : {t u v : AckTracker} {s : ℕ} → Unmoved t u s → Unmoved u v s → Unmoved t v s
Unmoved-trans f g = record {
  node = g.node ∙ f.node;
  pending = λ ty n. g.pending ty n ∙ f.pending ty n;
  subscribed = λ ty. g.subscribed ty ∙ f.subscribed ty;
  acked = λ ty. g.acked ty ∙ f.acked ty;
  nack = g.nack ∙ f.nack;
  initial = λ ty. g.initial ty ∙ f.initial ty;
  expected = λ n. g.expected n ∙ f.expected n;
  fingerprints = λ n. g.fingerprints n ∙ f.fingerprints n;
}

pub Unmoved-if :
    (b : Bool) {t u v : AckTracker} {s : ℕ}
    → Unmoved t u s
    → Unmoved t v s
    → Unmoved t (if b then u else v) s
Unmoved-if true f g = f
Unmoved-if false f g = g

module _ (t : AckTracker) (stream s : ℕ) (ne : nat_beq s stream ≡ false) where
  nodes_ne : (v : String) → get s (put stream v t.nodes) ≡ get s t.nodes
  nodes_ne v = ground (arith, get-put stream s v t.nodes)

  pub identify-Unmoved : (cluster : String) → Unmoved t (identify t stream cluster) s
  unfolding identify
  identify-Unmoved cluster = Unmoved-if (cluster == "") (Unmoved-refl t s) (record {
    node = nodes_ne cluster;
    pending = λ ty n. refl;
    subscribed = λ ty. refl;
    acked = λ ty. refl;
    nack = refl;
    initial = λ ty. refl;
    expected = λ n. refl;
    fingerprints = λ n. refl;
  })

  pub subscribe-Unmoved : (ty : String) → Unmoved t (subscribe t stream ty) s
  unfolding subscribe
  subscribe-Unmoved ty = Unmoved-if (ty == "") (Unmoved-refl t s) (record {
    node = refl;
    pending = λ ty n. refl;
    subscribed = λ ty. rw ne;
    acked = λ ty. refl;
    nack = refl;
    initial = λ ty. refl;
    expected = λ n. refl;
    fingerprints = λ n. refl;
  })

  pub forget_initial-Unmoved : (ty : String) → Unmoved t (forget_initial_fingerprint t stream ty) s
  unfolding forget_initial_fingerprint
  forget_initial-Unmoved ty = record {
    node = refl;
    pending = λ ty n. refl;
    subscribed = λ ty. refl;
    acked = λ ty. refl;
    nack = refl;
    initial = λ ty. rw ne;
    expected = λ n. refl;
    fingerprints = λ n. refl;
  }

  pub put_initial-Unmoved : (ty fp : String) → Unmoved t (put_initial t stream ty fp) s
  unfolding put_initial
  put_initial-Unmoved ty fp = record {
    node = refl;
    pending = λ ty n. refl;
    subscribed = λ ty. refl;
    acked = λ ty. refl;
    nack = refl;
    initial = λ ty. rw ne;
    expected = λ n. refl;
    fingerprints = λ n. refl;
  }

  pub put_ack-Unmoved : (ty : String) (a : Option StreamAck) → Unmoved t (put_ack t stream ty a) s
  unfolding put_ack
  put_ack-Unmoved ty a = record {
    node = refl;
    pending = λ ty n. refl;
    subscribed = λ ty. refl;
    acked = λ ty. rw ne;
    nack = refl;
    initial = λ ty. refl;
    expected = λ n. refl;
    fingerprints = λ n. refl;
  }

  pub put_nack-Unmoved : (n : Option Nack) → Unmoved t (put_nack t stream n) s
  unfolding put_nack
  put_nack-Unmoved n = record {
    node = refl;
    pending = λ ty n. refl;
    subscribed = λ ty. refl;
    acked = λ ty. refl;
    nack = rw ne;
    initial = λ ty. refl;
    expected = λ n. refl;
    fingerprints = λ n. refl;
  }

  pub put_pending-Unmoved :
      (ty n : String) (p : Option PendingResponse) → Unmoved t (put_pending t stream ty n p) s
  unfolding put_pending
  put_pending-Unmoved ty n p = record {
    node = refl;
    pending = λ ty n. rw ne;
    subscribed = λ ty. refl;
    acked = λ ty. refl;
    nack = refl;
    initial = λ ty. refl;
    expected = λ n. refl;
    fingerprints = λ n. refl;
  }
