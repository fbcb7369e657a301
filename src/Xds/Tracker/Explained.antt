-- ===== src/Xds/Tracker/Explained.antt =====
-- What internal/xds/server/tracker.go's ConvergenceDetails says, against what IsACKed decides.
use mathlib.Core.List.{Memᴰ}
use flareway.Base.{
  ℕ, ◌≡◌, ◌≢◌, ◌⊎◌, inl, inr, refl, sym, subst, ◌∙◌, Bool, true, false, ◌&&◌, Option, none, some,
  String, List, [], ◌∷◌, arith, nat_beq, ltb, Bool-cases, length,
}
use flareway.Base.Classes.{string_eq, nat_eq}
use flareway.Base.Maps.{Map, get}
use text.Mathlib.TextEquality.{eq_iff}
use flareway.Xds.Tracker.State.{AckTracker, ExpectedSnapshot, has}
use flareway.Xds.Tracker.Acked.{rejects, fingerprint_of, is_acked}
use flareway.Xds.Tracker.Convergence.{OnNode, Converged, is_acked-Converged}
use flareway.Xds.Tracker.Details.{
  stream_ids, first_nack, stale_ack, type_state, worsen, state_at, over_types, over_streams,
  nothing, missing_types, explain_streams, explain, convergence_details,
}
use flareway.Xds.Tracker.Streams.{stream_ids_iff, first_nack-none}

-- A state that leaves no trace: proved, or the least of the constants.
abbrev pub Quiet : Option ℕ → Type 0
Quiet o = (o ≡ none) ⊎ (o ≡ some stale_ack)

worsen-Quiet : (ty : String) (o : Option ℕ) → Quiet o → worsen [] ty o ≡ []
unfolding worsen get
worsen-Quiet ty o (inl e) = rw (e, worsen)
worsen-Quiet ty o (inr e) = rw (e, worsen)

module _ (t : AckTracker) (e : ExpectedSnapshot) (present : Map String String) where
  abbrev QuietOn : ℕ → Type 0
  QuietOn s = (ty fp : String) → get ty present ≡ some fp → Quiet (type_state t e s ty fp)

  state_at-Quiet :
      (s : ℕ)
      → QuietOn s
      → (ty : String) (o : Option String) → get ty present ≡ o
      → Quiet (state_at t e s ty o)
  unfolding state_at
  state_at-Quiet s q ty none g = inl refl
  state_at-Quiet s q ty (some fp) g = q ty fp g

  over_types_quiet :
      (s : ℕ) (m : Map String String) → QuietOn s → over_types t e present s [] m ≡ []
  unfolding over_types
  over_types_quiet s [] q = refl
  over_types_quiet s ((ty, w) ∷ m) q =
      rw (worsen-Quiet ty _ (state_at-Quiet s q ty (get ty present) refl)) (over_types_quiet s m q)

  over_streams_quiet :
      (ids : List ℕ) → ((s : ℕ) → Memᴰ s ids → QuietOn s) → over_streams t e present ids [] ≡ []
  unfolding over_streams
  over_streams_quiet [] q = refl
  over_streams_quiet (s ∷ ids) q =
      rw (over_types_quiet s present (q s (Memᴰ.head refl)))
        (over_streams_quiet ids (λ r m. q r (Memᴰ.tail m)))

-- A type that a stream has proved is passed over.
proved_passed :
    (t : AckTracker) (e : ExpectedSnapshot) (s : ℕ) (ty fp : String)
    → ((t.subscriptions s ty ≡ true) ⊎ (has e.required ty ≡ true)
        → fingerprint_of (t.acked s ty) ≡ fp)
    → type_state t e s ty fp ≡ none
unfolding type_state
proved_passed t e s ty fp h = elim (Bool-cases (t.subscriptions s ty)) [
  | inl q ↦ rw q (rw ((eq_iff _ fp).1 (h (inl q))))
  | inr q ↦ elim (Bool-cases (has e.required ty)) [
    | inl r ↦ rw (q, r) (rw ((eq_iff _ fp).1 (h (inr r))))
    | inr r ↦ rw (q, r)
  ]
]

member_nonempty : (s : ℕ) (ids : List ℕ) → Memᴰ s ids → nat_beq (length ids) 0 ≡ false
member_nonempty s [] m = elim m [ ]
member_nonempty s (x ∷ xs) m = ground arith

and_false : (b : Bool) → (b && false) ≡ false
and_false true = refl
and_false false = refl

some_same : {a b : ExpectedSnapshot} → some a ≡ some b → a ≡ b
some_same h = cc

module _ (t : AckTracker) (node version : String) (e : ExpectedSnapshot)
    (x : t.expected node ≡ some e) (v : e.version ≡ version) where
  -- With a live stream, no rejection and only quiet types, there is nothing to say.
  quiet_nothing :
      (s : ℕ)
      → OnNode t node s
      → ((r : ℕ) → OnNode t node r → rejects (t.nacks r) version ≡ false)
      → ((r : ℕ) → OnNode t node r → QuietOn t e (t.fingerprints node) r)
      → convergence_details t node version ≡ nothing
  unfolding convergence_details explain explain_streams missing_types
  quiet_nothing s o n q =
      rw (x, convergence_details, explain)
        (rw
          (
            (eq_iff e.version version).1 v,
            member_nonempty s (stream_ids t node) ((stream_ids_iff t node s).1 o),
            explain,
          )
          (rw (and_false (ltb 0 (length (t.fingerprints node))))
            (rw (none_rejects, explain_streams) (rw none_missing))))
    where
      none_rejects : first_nack t (stream_ids t node) version ≡ none
      none_rejects =
          first_nack-none t version (stream_ids t node) (λ r m. n r ((stream_ids_iff t node r).0 m))

      none_missing : over_streams t e (t.fingerprints node) (stream_ids t node) [] ≡ []
      none_missing =
          over_streams_quiet t e (t.fingerprints node) (stream_ids t node)
            (λ r m. q r ((stream_ids_iff t node r).0 m))

-- For a node whose snapshot has resources, ConvergenceDetails answers the empty text for every
-- version that IsACKed accepts.
is_acked_explained :
    (t : AckTracker) (node version : String)
    → t.fingerprints node ≢ []
    → is_acked t node version ≡ true
    → convergence_details t node version ≡ nothing
is_acked_explained t node version f h = go ((is_acked-Converged t node version).0 h)
  where
    go : Converged t node version → convergence_details t node version ≡ nothing
    go (e, x, v, inl nil) = absurd (f nil)
    go (e, x, v, inr ((s, o), k)) =
        quiet_nothing t node version e x v s o (λ r l. (k r l).accepted)
          (λ r l ty fp g. inl (proved_passed t e r ty fp ((k r l).proved ty fp g)))

none_ne_some : {n : ℕ} → none ≡ some n → ⊥
none_ne_some h = cc

-- If no live stream of the node rejects the expected version, every type of the snapshot is on each
-- of them either proved or in the stale-ACK state, and some type is in that state on one of them,
-- then IsACKed answers false while ConvergenceDetails answers the empty text.
pub stale_unexplained :
    (t : AckTracker) (node version : String) (e : ExpectedSnapshot) (s : ℕ) (ty fp : String)
    → t.expected node ≡ some e
    → e.version ≡ version
    → OnNode t node s
    → get ty (t.fingerprints node) ≡ some fp
    → type_state t e s ty fp ≡ some stale_ack
    → ((r : ℕ) → OnNode t node r → rejects (t.nacks r) version ≡ false)
    → ((r : ℕ)
        → OnNode t node r
        → (y f : String) → get y (t.fingerprints node) ≡ some f
        → Quiet (type_state t e r y f))
    → (is_acked t node version ≡ false) × (convergence_details t node version ≡ nothing)
unfolding get
stale_unexplained t node version e s ty fp x v o g stale n q = (
  elim (Bool-cases (is_acked t node version)) [
    | inr k ↦ k
    | inl k ↦ absurd (refuted ((is_acked-Converged t node version).0 k))
  ],
  quiet_nothing t node version e x v s o n q,
)
  where
    empty : t.fingerprints node ≡ [] → ⊥
    empty nil = absent (rw nil at g)
      where
        absent : none ≡ some fp → ⊥
        absent h = cc

    refuted : Converged t node version → ⊥
    refuted (e', x', v', inl nil) = empty nil
    refuted (e', x', v', inr (live, k)) = none_ne_some (
        sym (
          proved_passed t e s ty fp
            (subst Proved (some_same (sym x' ∙ x)) ((k s o).proved ty fp g)))
        ∙ stale)
      where
        Proved : ExpectedSnapshot → Type 0
        Proved d =
            (t.subscriptions s ty ≡ true) ⊎ (has d.required ty ≡ true)
            → fingerprint_of (t.acked s ty) ≡ fp
