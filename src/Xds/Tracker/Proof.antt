-- ===== src/Xds/Tracker/Proof.antt =====
-- What it takes for internal/xds/server/tracker.go to report a snapshot as held.
use flareway.Base.{
  ℕ, ◌≡◌, ◌≢◌, inl, inr, refl, sym, ◌∙◌, Bool, true, false, Option, none, some, String, List, [],
  ◌∷◌, arith, keep, is_some, Bool-cases,
}
use flareway.Base.Classes.{◌==◌, string_eq, nat_eq, option_eq, ==_refl}
use flareway.Base.Maps.{Map, get}
use text.Mathlib.TextEquality.{eq_iff}
use flareway.Xds.Tracker.State.{AckTracker, ExpectedSnapshot, StreamAck, has}
use flareway.Xds.Tracker.Snapshots.{
  already_expected, initial_ack, is_on, record_snapshot, expect_snapshot,
}
use flareway.Xds.Tracker.Acked.{fingerprint_of, is_acked}
use flareway.Xds.Tracker.Convergence.{OnNode, Converged, is_acked-Converged}
use flareway.Xds.Tracker.Runs.{Event, run, OnlyPeers}
use flareway.Xds.Tracker.Frame.{Unmoved}
use flareway.Xds.Tracker.Peers.{run-Unmoved}

-- The stream owes a proof of a required type of the version that the node is to hold.
pub record Owes (t : AckTracker) (node version : String) (s : ℕ) : Type 0 where
  pub on_node : OnNode t node s
  pub snapshot : ExpectedSnapshot
  pub expected : t.expected node ≡ some snapshot
  pub type_url : String
  pub fingerprint : String
  pub present : get type_url (t.fingerprints node) ≡ some fingerprint
  pub required : has snapshot.required type_url ≡ true
  pub unproved : fingerprint_of (t.acked s type_url) ≢ fingerprint

some_inj : {A : Type 0} {a b : A} → some a ≡ some b → a ≡ b
some_inj h = cc

get_nil : (ty fp : String) (m : Map String String) → m ≡ [] → get ty m ≡ some fp → ⊥
unfolding get
get_nil ty fp [] e h = cc
get_nil ty fp (x ∷ m) e h = cc

Owes-unacked :
    (t : AckTracker) (node version : String) (s : ℕ)
    → Owes t node version s
    → is_acked t node version ≡ false
Owes-unacked t node version s o = elim (Bool-cases (is_acked t node version)) [
  | inr q ↦ q
  | inl q ↦ absurd (refuted ((is_acked-Converged t node version).0 q))
]
  where
    refuted : Converged t node version → ⊥
    refuted (e, x, v, inl nil) =
        get_nil o.type_url o.fingerprint (t.fingerprints node) nil o.present
    refuted (e, x, v, inr (live, h)) = o.unproved (
        (h s o.on_node).proved o.type_url o.fingerprint o.present
          (inr (rw (some_inj (sym x ∙ o.expected)) o.required)))

Owes-Unmoved :
    (t u : AckTracker) (node version : String) (s : ℕ)
    → Unmoved t u s
    → Owes t node version s
    → Owes u node version s
Owes-Unmoved t u node version s m o = record {
  on_node = m.node ∙ o.on_node;
  snapshot = o.snapshot;
  expected = m.expected node ∙ o.expected;
  type_url = o.type_url;
  fingerprint = o.fingerprint;
  present = rw (m.fingerprints node) o.present;
  required = o.required;
  unproved = rw (m.acked o.type_url) o.unproved;
}

has-keep :
    (p : String → Bool) (xs : List String) (ty : String)
    → has xs ty ≡ true
    → p ty ≡ true
    → has (keep p xs) ty ≡ true
unfolding has
has-keep p [] ty h q = ground arith
has-keep p (x ∷ xs) ty h q = elim (Bool-cases (x == ty)) [
  | inl e ↦ ground (arith, eq_iff x ty)
  | inr e ↦ ground (arith, has-keep p xs ty)
]

initial_ack_ne :
    (held : Option String) (e : ExpectedSnapshot) (current : String) (a : Option StreamAck)
    → held ≢ some current
    → initial_ack held e current a ≡ a
unfolding initial_ack
initial_ack_ne none e current a h = refl
initial_ack_ne (some fp) e current a h = ground (arith, eq_iff fp current)

is_on_lem : (t : AckTracker) (node : String) (s : ℕ) → OnNode t node s → is_on t node s ≡ true
unfolding is_on
is_on_lem t node s h = rw h (==_refl node)

module _ (t : AckTracker) (node version : String) (fingerprints : Map String String)
    (required : List String) (s : ℕ) (ty fp : String) where
  expect-Owes :
      already_expected t node version fingerprints ≡ false
      → OnNode t node s
      → get ty fingerprints ≡ some fp
      → has required ty ≡ true
      → fingerprint_of (t.acked s ty) ≢ fp
      → t.initial_fingerprints s ty ≢ some fp
      → Owes (expect_snapshot t node version fingerprints required) node version s
  unfolding expect_snapshot record_snapshot
  expect-Owes a l g r n i = rw a (record {
    on_node = l;
    snapshot = record {
      version = version;
      required = keep (λ x. is_some (get x fingerprints)) required;
    };
    expected = rw (==_refl node);
    type_url = ty;
    fingerprint = fp;
    present = rw (==_refl node) g;
    required = has-keep (λ x. is_some (get x fingerprints)) required ty r (rw g);
    unproved = rw (is_on_lem t node s l, g) (rw (initial_ack_ne _ _ fp _ i) n);
  })

  -- After ExpectSnapshot publishes a snapshot that is not the one on record, and while only other
  -- streams send messages, IsACKed answers false if a live stream of the node has neither
  -- acknowledged nor first reported the new fingerprint of one required type of the snapshot.
  pub republished_needs_proof :
      (digest : Map String String → Option String) (es : List Event)
      → already_expected t node version fingerprints ≡ false
      → OnNode t node s
      → get ty fingerprints ≡ some fp
      → has required ty ≡ true
      → fingerprint_of (t.acked s ty) ≢ fp
      → t.initial_fingerprints s ty ≢ some fp
      → OnlyPeers s es
      → is_acked (run digest (expect_snapshot t node version fingerprints required) es) node version
        ≡ false
  republished_needs_proof digest es a l g r n i o =
      Owes-unacked _ node version s
        (Owes-Unmoved _ _ node version s (run-Unmoved digest _ s es o) (expect-Owes a l g r n i))
