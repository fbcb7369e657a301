-- ===== src/Sweep/Remotes.antt =====
-- What a listing says of an ID, through the map of internal/sweep/classify.go.
use mathlib.Core.List.{Memᴰ}
use flareway.Base.{
  ℕ, ◌≡◌, ◌≢◌, ◌⊎◌, inl, inr, refl, sym, ap, subst, ◌∙◌, true, false, Option, none, some, String,
  List, [], ◌∷◌, arith, Bool-cases, if_false,
}
use flareway.Base.Classes.{◌==◌, string_eq}
use flareway.Base.Maps.{Map, get, put, get-put}
use text.Mathlib.TextEquality.{eq_iff}
use flareway.Freshness.Latch.{Latch}
use flareway.Sweep.Classify.{LocalRef, absent, DriftItem, ClassifyOptions, remote_by_id}
use flareway.Sweep.Differences.{Differs}
use flareway.Sweep.Verdicts.{Judgement}

module _ {Remote Observed : Type 0} (opts : ClassifyOptions Remote Observed) (start : ℕ) where
  pub unlisted_id :
      (remotes : List Remote) (m : Map String Remote) (id : String)
      → ((r : Remote) → Memᴰ r remotes → opts.id_of r ≢ id)
      → get id m ≡ none
      → get id (remote_by_id opts start remotes m) ≡ none
  unfolding remote_by_id
  unlisted_id [] m id n g = g
  unlisted_id (r ∷ remotes) m id n g =
      unlisted_id remotes (put (opts.id_of r) r m) id (λ x k. n x (Memᴰ.tail k))
        (get-put (opts.id_of r) id r m ∙ if_false _ _ different ∙ g)
    where
      different : (opts.id_of r == id) ≡ false
      different = ground (arith, n r (Memᴰ.head refl), eq_iff (opts.id_of r) id)

  -- What is found under an ID was listed, or was there before.
  pub listed_id :
      (remotes : List Remote) (m : Map String Remote) (id : String) (r : Remote)
      → get id (remote_by_id opts start remotes m) ≡ some r
      → (Memᴰ r remotes × (opts.id_of r ≡ id)) ⊎ (get id m ≡ some r)
  unfolding remote_by_id
  listed_id [] m id r g = inr g
  listed_id (x ∷ remotes) m id r g = elim (listed_id remotes (put (opts.id_of x) x m) id r g) [
    | inl (k, e) ↦ inl (Memᴰ.tail k, e)
    | inr h ↦ elim (Bool-cases (opts.id_of x == id)) [
      | inl e ↦
          let k = sym (get-put (opts.id_of x) id x m) ∙ h in
          inl (
            Memᴰ.head (cc (rw e at k)),
            subst (λ z. opts.id_of z ≡ id) (cc (rw e at k)) ((eq_iff (opts.id_of x) id).0 e),
          )
      | inr e ↦ inr (sym (if_false _ _ e) ∙ (sym (get-put (opts.id_of x) id x m) ∙ h))
    ]
  ]

  -- If nothing is found under an ID, it was neither listed nor there before.
  nothing_listed :
      (remotes : List Remote) (m : Map String Remote) (id : String)
      → get id (remote_by_id opts start remotes m) ≡ none
      → (get id m ≡ none) × ((r : Remote) → Memᴰ r remotes → opts.id_of r ≢ id)
  unfolding remote_by_id
  nothing_listed [] m id g = (g, λ r k. elim k [ ])
  nothing_listed (x ∷ remotes) m id g =
      let (h, f) = nothing_listed remotes (put (opts.id_of x) x m) id g in
      let k = sym (get-put (opts.id_of x) id x m) ∙ h in
      elim (Bool-cases (opts.id_of x == id)) [
        | inl e ↦ absurd (cc (rw e at k))
        | inr e ↦ (rw e at k, λ r n. other r e f n)
      ]
    where
      other :
          (r : Remote)
          → (opts.id_of x == id) ≡ false
          → ((y : Remote) → Memᴰ y remotes → opts.id_of y ≢ id)
          → Memᴰ r (x ∷ remotes)
          → opts.id_of r ≢ id
      other r e f (Memᴰ.head q) z = cc ((eq_iff (opts.id_of x) id).1 (ap opts.id_of (sym q) ∙ z))
      other r e f (Memᴰ.tail n) z = f r n z

  -- Why an object has drifted from a listing, given the latch before the pass: no listed object has its
  -- ID, or one that has it differs.
  pub record IsDrift (l : Option (Latch Observed)) (remotes : List Remote) (ref : LocalRef)
      (item : DriftItem) : Type 0 where
    pub kind : item.target_kind ≡ ref.kind
    pub key : item.key ≡ ref.key
    pub recorded : ref.remote_id ≢ ""
    pub listed : opts.listed ref ≡ true
    pub found :
        (((r : Remote) → Memᴰ r remotes → opts.id_of r ≢ ref.remote_id) × (item.reason ≡ absent))
        ⊎ ((remote : Remote) × Memᴰ remote remotes
            × (opts.id_of remote ≡ ref.remote_id)
            × Differs opts l ref remote item.reason)

  pub Judgement-IsDrift :
      (l : Option (Latch Observed)) (remotes : List Remote) (ref : LocalRef) (item : DriftItem)
      → Judgement opts start l ref (remote_by_id opts start remotes []) item
      → IsDrift l remotes ref item
  unfolding get
  Judgement-IsDrift l remotes ref item j = record {
    kind = j.kind;
    key = j.key;
    recorded = j.recorded;
    listed = j.listed;
    found = elim j.found [
      | inl (e, a) ↦ inl ((nothing_listed remotes [] ref.remote_id e).1, a)
      | inr (remote, e, d) ↦ elim (listed_id remotes [] ref.remote_id remote e) [
        | inl (m, q) ↦ inr (remote, m, q, d)
        | inr n ↦ absurd (cc)
      ]
    ];
  }
