-- ===== src/Xds/Tracker/Streams.antt =====
-- The order in which internal/xds/server/tracker.go looks at a node's streams, and LastNACK.
use mathlib.Core.List.{Memᴰ}
use flareway.Base.{
  ℕ, ◌<◌, ◌≡◌, ◌↔◌, inl, inr, refl, sym, ap, ◌≢◌, ◌∙◌, true, false, Option, none, some, String,
  List, [], ◌∷◌, arith, nat_beq, nat_beq_iff, Bool-cases, Option-cases,
}
use flareway.Base.Classes.{string_eq, nat_eq, option_eq, ==_iff}
use flareway.Base.Maps.{Map, get}
use text.Mathlib.TextEquality.{eq_iff}
use flareway.Xds.Tracker.State.{AckTracker, ExpectedSnapshot, Nack}
use flareway.Xds.Tracker.Snapshots.{is_on}
use flareway.Xds.Tracker.Acked.{rejects, is_acked}
use flareway.Xds.Tracker.Convergence.{OnNode, Converged, is_acked-Converged}
use flareway.Xds.Tracker.Details.{ids_in, stream_ids, first_nack, last_nack}
use flareway.Xds.Tracker.StreamIds.{Sorted, insert_member, insert_self, insert_keeps, insert-Sorted}

module _ (t : AckTracker) (node : String) where
  is_on_iff : (s : ℕ) → (is_on t node s ≡ true) ↔ OnNode t node s
  unfolding is_on
  is_on_iff s = ==_iff (get s t.nodes) (some node)

  ids_in-Sorted : (m : Map ℕ String) → Sorted (ids_in t node m)
  unfolding ids_in
  ids_in-Sorted [] = tt
  ids_in-Sorted ((s, n) ∷ m) = elim (Bool-cases (is_on t node s)) [
    | inl e ↦ rw e (insert-Sorted s (ids_in t node m) (ids_in-Sorted m))
    | inr e ↦ rw e (ids_in-Sorted m)
  ]

  ids_in_sound : (m : Map ℕ String) (s : ℕ) → Memᴰ s (ids_in t node m) → OnNode t node s
  unfolding ids_in
  ids_in_sound [] s k = elim k [ ]
  ids_in_sound ((r, n) ∷ m) s k = elim (Bool-cases (is_on t node r)) [
    | inr e ↦ ids_in_sound m s (rw e at k)
    | inl e ↦ elim (insert_member r s (ids_in t node m) (rw e at k)) [
      | inl same ↦ rw same ((is_on_iff r).0 e)
      | inr other ↦ ids_in_sound m s other
    ]
  ]

  ids_in_complete :
      (m : Map ℕ String) (s : ℕ) (n : String)
      → get s m ≡ some n
      → OnNode t node s
      → Memᴰ s (ids_in t node m)
  unfolding ids_in get
  ids_in_complete [] s n g o = absurd cc
  ids_in_complete ((r, w) ∷ m) s n g o = elim (Bool-cases (nat_beq r s)) [
    | inl e ↦
        let same = (nat_beq_iff r s).0 e in
        rw same (rw ((is_on_iff s).1 o) (insert_self s (ids_in t node m)))
    | inr e ↦
        let k = ids_in_complete m s n (rw e at g) o in
        elim (Bool-cases (is_on t node r)) [
          | inl f ↦ rw f (insert_keeps r s (ids_in t node m) k)
          | inr f ↦ rw f k
        ]
  ]

  -- The streams looked at are exactly the node's.
  pub stream_ids_iff : (s : ℕ) → Memᴰ s (stream_ids t node) ↔ OnNode t node s
  unfolding stream_ids
  stream_ids_iff s = (ids_in_sound t.nodes s, λ o. ids_in_complete t.nodes s node o o)

  stream_ids-Sorted : Sorted (stream_ids t node)
  unfolding stream_ids
  stream_ids-Sorted = ids_in-Sorted t.nodes

module _ (t : AckTracker) (version : String) where
  rejects_version : (n : Nack) → rejects (some n) version ≡ true → n.version ≡ version
  unfolding rejects
  rejects_version n h = (eq_iff n.version version).0 h

  none_lower : (r : ℕ) (ids : List ℕ) (q : ℕ) → Sorted (r ∷ ids) → Memᴰ q (r ∷ ids) → q < r → ⊥
  none_lower r ids q s (Memᴰ.head e) l = omega arith
  none_lower r ids q s (Memᴰ.tail m) l = omega (arith, s.0 q m)

  pub first_nack-none :
      (ids : List ℕ)
      → ((s : ℕ) → Memᴰ s ids → rejects (t.nacks s) version ≡ false)
      → first_nack t ids version ≡ none
  unfolding first_nack
  first_nack-none [] h = refl
  first_nack-none (s ∷ ids) h =
      rw (h s (Memᴰ.head refl)) (first_nack-none ids (λ r m. h r (Memᴰ.tail m)))

  -- The rejection found is that of the first stream that has one.
  record IsFirst (ids : List ℕ) (n : Nack) : Type 0 where
    stream : ℕ
    member : Memᴰ stream ids
    nack : t.nacks stream ≡ some n
    rejected : n.version ≡ version
    lower : (s : ℕ) → Memᴰ s ids → s < stream → rejects (t.nacks s) version ≡ false

  first_nack-IsFirst :
      (ids : List ℕ) (n : Nack) → Sorted ids → first_nack t ids version ≡ some n → IsFirst ids n
  unfolding first_nack
  first_nack-IsFirst [] n s h = absurd cc
  first_nack-IsFirst (r ∷ ids) n s h = elim (Bool-cases (rejects (t.nacks r) version)) [
    | inl e ↦
        let found = rw e at h in
        record {
          stream = r;
          member = Memᴰ.head refl;
          nack = found;
          rejected = rejects_version n (rw found at e);
          lower = λ q k l. absurd (none_lower r ids q s k l);
        }
    | inr e ↦
        let i = first_nack-IsFirst ids n s.1 (rw e at h) in
        record {
          stream = i.stream;
          member = Memᴰ.tail i.member;
          nack = i.nack;
          rejected = i.rejected;
          lower = λ q k l. lower_still q e i.lower k l;
        }
  ]
    where
      lower_still :
          {stream : ℕ} (q : ℕ)
          → rejects (t.nacks r) version ≡ false
          → ((x : ℕ) → Memᴰ x ids → x < stream → rejects (t.nacks x) version ≡ false)
          → Memᴰ q (r ∷ ids)
          → q < stream
          → rejects (t.nacks q) version ≡ false
      lower_still q e f (Memᴰ.head same) l = rw same e
      lower_still q e f (Memᴰ.tail m) l = f q m l

-- The rejection that LastNACK answers: of the expected version, by the node's live stream with the
-- lowest number among those that reject it.
pub record IsEarliest (t : AckTracker) (node : String) (n : Nack) : Type 0 where
  pub snapshot : ExpectedSnapshot
  pub expected : t.expected node ≡ some snapshot
  pub version : n.version ≡ snapshot.version
  pub stream : ℕ
  pub on_node : OnNode t node stream
  pub nack : t.nacks stream ≡ some n
  pub lower : (s : ℕ) → OnNode t node s → s < stream → rejects (t.nacks s) snapshot.version ≡ false

abbrev version_of : Option ExpectedSnapshot → String
version_of none = ""
version_of (some e) = e.version

rejects_found :
    (o : Option Nack) (n : Nack) (v : String) → o ≡ some n → n.version ≡ v → rejects o v ≡ true
unfolding rejects
rejects_found o n v e h = rw e ((eq_iff n.version v).1 h)

true_ne_false : true ≡ false → ⊥
true_ne_false h = cc

last_nack-IsEarliest_lem :
    (t : AckTracker) (node : String) (n : Nack) → last_nack t node ≡ some n → IsEarliest t node n
unfolding last_nack
last_nack-IsEarliest_lem t node n h = elim (Option-cases (t.expected node)) [
  | inl e ↦ absurd (cc (rw (e, last_nack) at h))
  | inr (x, e) ↦
      let i =
        first_nack-IsFirst t x.version (stream_ids t node) n (stream_ids-Sorted t node)
          (rw (e, last_nack) at h) in
      record {
        snapshot = x;
        expected = e;
        version = i.rejected;
        stream = i.stream;
        on_node = (stream_ids_iff t node i.stream).0 i.member;
        nack = i.nack;
        lower = λ s o l. i.lower s ((stream_ids_iff t node s).1 o) l;
      }
]

-- For a node whose snapshot has resources, a rejection that LastNACK answers is of the expected
-- version and held by the lowest-numbered live stream of the node that rejects that version, and
-- IsACKed then answers false for every version.
last_nack-IsEarliest :
    (t : AckTracker) (node version : String) (n : Nack)
    → t.fingerprints node ≢ []
    → last_nack t node ≡ some n
    → IsEarliest t node n × (is_acked t node version ≡ false)
last_nack-IsEarliest t node version n f h = (
  i,
  elim (Bool-cases (is_acked t node version)) [
    | inr q ↦ q
    | inl q ↦ absurd (refuted ((is_acked-Converged t node version).0 q))
  ],
)
  where
    i : IsEarliest t node n
    i = last_nack-IsEarliest_lem t node n h

    refuted : Converged t node version → ⊥
    refuted (e, x, v, inl nil) = f nil
    refuted (e, x, v, inr (live, k)) =
        true_ne_false
          (sym (rejects_found _ n version i.nack same) ∙ (k i.stream i.on_node).accepted)
      where
        same : n.version ≡ version
        same =
            i.version ∙ ap (λ (o : Option ExpectedSnapshot). version_of o) (sym i.expected ∙ x) ∙ v
