-- ===== src/Xds/Tracker/Convergence.antt =====
-- What internal/xds/server/tracker.go's IsACKed decides.
use flareway.Base.{
  ℕ, ◌≡◌, ◌↔◌, ◌⊎◌, inl, inr, refl, Bool, true, false, ◌||◌, not, some, String, List, [], ◌∷◌,
  arith, nat_beq, length, Bool-cases, if_same, Option-cases,
}
use flareway.Base.Classes.{◌==◌, string_eq, nat_eq}
use flareway.Base.Maps.{Map, get, every, every_sound, every_complete, exists_sound, exists_complete}
use text.Mathlib.TextEquality.{eq_iff}
use flareway.Xds.Tracker.State.{AckTracker, ExpectedSnapshot, has}
use flareway.Xds.Tracker.Acked.{
  rejects, fingerprint_of, proves, holds, has_stream, is_acked_for, is_acked,
}

-- A live stream of the node.
abbrev pub OnNode : AckTracker → String → ℕ → Type 0
OnNode t node s = get s t.nodes ≡ some node

-- The stream has not rejected the version, and has acknowledged the current fingerprint of each type
-- that it subscribes to or that is required.
pub record HoldsSnapshot (t : AckTracker) (e : ExpectedSnapshot) (present : Map String String)
    (version : String) (s : ℕ) : Type 0 where
  pub accepted : rejects (t.nacks s) version ≡ false
  pub proved :
      (ty fp : String)
      → get ty present ≡ some fp
      → (t.subscriptions s ty ≡ true) ⊎ (has e.required ty ≡ true)
      → fingerprint_of (t.acked s ty) ≡ fp

abbrev pub Converged : AckTracker → String → String → Type 0
Converged t node version =
    (e : ExpectedSnapshot) × (t.expected node ≡ some e)
    × (e.version ≡ version)
    × ((t.fingerprints node ≡ [])
        ⊎ (((s : ℕ) × OnNode t node s)
            × ((s : ℕ) → OnNode t node s → HoldsSnapshot t e (t.fingerprints node) version s)))

length_zero : {A : Type 0} (xs : List A) → nat_beq (length xs) 0 ≡ true → xs ≡ []
length_zero [] h = refl
length_zero (x ∷ xs) h = ground arith

module _ (t : AckTracker) (e : ExpectedSnapshot) (present : Map String String) (version : String)
    (s : ℕ) where
  proves_sound :
      (ty fp : String)
      → proves t e s ty fp ≡ true
      → (t.subscriptions s ty ≡ true) ⊎ (has e.required ty ≡ true)
      → fingerprint_of (t.acked s ty) ≡ fp
  unfolding proves
  proves_sound ty fp h n = ground (arith, eq_iff (fingerprint_of (t.acked s ty)) fp)

  proves_complete :
      (ty fp : String)
      → ((t.subscriptions s ty ≡ true) ⊎ (has e.required ty ≡ true)
          → fingerprint_of (t.acked s ty) ≡ fp)
      → proves t e s ty fp ≡ true
  unfolding proves
  proves_complete ty fp h = elim (Bool-cases (t.subscriptions s ty)) [
    | inl q ↦ ground (arith, h (inl q), eq_iff (fingerprint_of (t.acked s ty)) fp)
    | inr q ↦ elim (Bool-cases (has e.required ty)) [
      | inl r ↦ ground (arith, h (inr r), eq_iff (fingerprint_of (t.acked s ty)) fp)
      | inr r ↦ ground arith
    ]
  ]

  pub holds-HoldsSnapshot :
      (holds t e present version s ≡ true) ↔ HoldsSnapshot t e present version s
  unfolding holds
  holds-HoldsSnapshot = (
    λ h. record {
      accepted = ground arith;
      proved =
          λ ty fp g. proves_sound ty fp (every_sound (proves t e s) present ty fp (ground arith) g);
    },
    λ h. rw (
      h.accepted,
      every_complete (proves t e s) present (λ ty fp g. proves_complete ty fp (h.proved ty fp g)),
    ),
  )

module _ (t : AckTracker) (node version : String) where
  has_stream_sound : has_stream t node ≡ true → (s : ℕ) × OnNode t node s
  unfolding has_stream
  has_stream_sound h =
      let (s, n, g, q) = exists_sound (λ s n. n == node) t.nodes h in
      (s, ground (arith, eq_iff n node))

  has_stream_complete : (s : ℕ) → OnNode t node s → has_stream t node ≡ true
  unfolding has_stream
  has_stream_complete s g =
      exists_complete (λ s n. n == node) t.nodes s node g ((eq_iff node node).1 refl)

  abbrev round : ExpectedSnapshot → ℕ → String → Bool
  round e s n = not (n == node) || holds t e (t.fingerprints node) version s

  all_hold :
      (e : ExpectedSnapshot)
      → every (round e) t.nodes ≡ true
      → (s : ℕ) → OnNode t node s
      → HoldsSnapshot t e (t.fingerprints node) version s
  all_hold e h s g =
      (holds-HoldsSnapshot t e (t.fingerprints node) version s).0
        (ground (arith, every_sound (round e) t.nodes s node h g, eq_iff node node))

  holds_all :
      (e : ExpectedSnapshot)
      → ((s : ℕ) → OnNode t node s → HoldsSnapshot t e (t.fingerprints node) version s)
      → every (round e) t.nodes ≡ true
  holds_all e h = every_complete (round e) t.nodes λ s n g. elim (Bool-cases (n == node)) [
    | inr q ↦ rw q
    | inl q ↦ rw (
      q,
      (holds-HoldsSnapshot t e (t.fingerprints node) version s).1
          (h s (ground (arith, eq_iff n node))),
    )
  ]

  abbrev Held : ExpectedSnapshot → Type 0
  Held e =
      (t.fingerprints node ≡ [])
      ⊎ (((s : ℕ) × OnNode t node s)
          × ((s : ℕ) → OnNode t node s → HoldsSnapshot t e (t.fingerprints node) version s))

  acked_for_sound :
      (e : ExpectedSnapshot) → is_acked_for t node version e ≡ true → (e.version ≡ version) × Held e
  unfolding is_acked_for
  acked_for_sound e h = (
    ground (arith, eq_iff e.version version),
    elim (Bool-cases (nat_beq (length (t.fingerprints node)) 0)) [
      | inl q ↦ inl (length_zero (t.fingerprints node) q)
      | inr q ↦ inr (has_stream_sound (ground arith), all_hold e (ground arith))
    ],
  )

  acked_for_complete :
      (e : ExpectedSnapshot) → e.version ≡ version → Held e → is_acked_for t node version e ≡ true
  unfolding is_acked_for
  acked_for_complete e v (inl q) = rw (q, (eq_iff e.version version).1 v)
  acked_for_complete e v (inr ((s, g), h)) =
      rw ((eq_iff e.version version).1 v, has_stream_complete s g, holds_all e h)
        (if_same (nat_beq (length (t.fingerprints node)) 0))

  -- IsACKed answers true exactly when the requested version is the expected one and either the
  -- snapshot has no resources, or the node has a live stream and every live stream of the node has
  -- not rejected the version and has acknowledged the current fingerprint of each type that it
  -- subscribes to or that is required.
  pub is_acked-Converged : (is_acked t node version ≡ true) ↔ Converged t node version
  unfolding is_acked
  is_acked-Converged = (
    λ h. elim (Option-cases (t.expected node)) [
      | inl q ↦ cc (rw (q, is_acked) at h)
      | inr (e, q) ↦ let (v, k) = acked_for_sound e (rw (q, is_acked) at h) in (e, q, v, k)
    ],
    λ c. rw (c.1, is_acked) (acked_for_complete c.0 c.2 c.3),
  )
