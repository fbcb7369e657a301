-- ===== src/Sweep/Verdicts.antt =====
-- What internal/sweep/classify.go finds, and what it leaves of the latch.
use mathlib.Core.List.{Memᴰ}
use flareway.Base.{
  ℕ, ◌≡◌, ◌≢◌, ◌⊎◌, inl, inr, refl, subst, true, false, Option, none, some, String, List, [], ◌∷◌,
  arith, Bool-cases, Option-cases, append_member, append_left, append_right,
}
use flareway.Base.Classes.{◌==◌, string_eq}
use flareway.Base.Maps.{Map, get}
use text.Mathlib.TextEquality.{eq_iff}
use flareway.Freshness.Latch.{Latch}
use flareway.Sweep.Classify.{
  LocalRef, DriftCase, missing, mismatch, Reason, absent, DriftItem, ClassifyOptions, match_reason,
  drift_item, classify_ref, classify_refs,
}
use flareway.Sweep.Differences.{
  SameGates, SameGates-refl, SameGates-trans, Differs, Differs-SameGates, match-SameGates,
  match_reason-Differs,
}

module _ {Remote Observed : Type 0} (opts : ClassifyOptions Remote Observed) (start : ℕ) where
  -- Why an item of a local object is in the result.
  pub record IsDrift (by_id : Map String Remote) (ref : LocalRef) (item : DriftItem) : Type 0 where
    pub kind : item.target_kind ≡ ref.kind
    pub key : item.key ≡ ref.key
    pub recorded : ref.remote_id ≢ ""
    pub listed : opts.listed ref ≡ true
    pub found :
        (get ref.remote_id by_id ≡ none)
        ⊎ ((remote : Remote) × (m : Option (Latch Observed)) × (get ref.remote_id by_id
              ≡ some remote)
            × ((match_reason opts start m ref remote).1 ≡ some item.reason))

  -- Why an item of a local object is in the result.
  pub record Judgement (l : Option (Latch Observed)) (ref : LocalRef) (by_id : Map String Remote)
      (item : DriftItem) : Type 0 where
    pub kind : item.target_kind ≡ ref.kind
    pub key : item.key ≡ ref.key
    pub recorded : ref.remote_id ≢ ""
    pub listed : opts.listed ref ≡ true
    pub found :
        ((get ref.remote_id by_id ≡ none) × (item.reason ≡ absent))
        ⊎ ((remote : Remote) × (get ref.remote_id by_id ≡ some remote)
            × Differs opts l ref remote item.reason)

  Judgement-SameGates :
      (l m : Option (Latch Observed)) (ref : LocalRef) (by_id : Map String Remote)
      (item : DriftItem)
      → SameGates l m
      → Judgement m ref by_id item
      → Judgement l ref by_id item
  Judgement-SameGates l m ref by_id item g j = record {
    kind = j.kind;
    key = j.key;
    recorded = j.recorded;
    listed = j.listed;
    found = elim j.found [
      | inl a ↦ inl a
      | inr (remote, e, d) ↦ inr (remote, e, Differs-SameGates opts l m ref remote item.reason g d)
    ];
  }

  record Judged (by_id : Map String Remote) (l : Option (Latch Observed)) (ref : LocalRef)
      (out : Option (Latch Observed) × List DriftItem) : Type 0 where
    gates : SameGates l out.0
    drift : (item : DriftItem) → Memᴰ item out.1 → Judgement l ref by_id item

  quiet :
      (by_id : Map String Remote) (l m : Option (Latch Observed)) (ref : LocalRef)
      → SameGates l m
      → Judged by_id l ref (m, [])
  quiet by_id l m ref g = record { gates = g; drift = λ item k. elim k [ ] }

  module _ (by_id : Map String Remote) (l : Option (Latch Observed)) (ref : LocalRef) where
    one_item :
        (m : Option (Latch Observed)) (c : DriftCase) (reason : Reason)
        → SameGates l m
        → (ref.remote_id == "") ≡ false
        → opts.listed ref ≡ true
        → ((get ref.remote_id by_id ≡ none) × (reason ≡ absent))
          ⊎ ((remote : Remote) × (get ref.remote_id by_id ≡ some remote)
              × Differs opts l ref remote reason)
        → Judged by_id l ref (m, drift_item opts start ref c reason ∷ [])
    one_item m c reason g i s f = record { gates = g; drift = only }
      where
        only :
            (item : DriftItem)
            → Memᴰ item (drift_item opts start ref c reason ∷ [])
            → Judgement l ref by_id item
        only item (Memᴰ.head e) = rw e (record {
          kind = refl;
          key = refl;
          recorded = λ z. cc ((eq_iff ref.remote_id "").1 z);
          listed = s;
          found = f;
        })
        only item (Memᴰ.tail k) = elim k [ ]

    listed-Judged :
        (ref.remote_id == "") ≡ false
        → opts.listed ref ≡ true
        → Judged by_id l ref (classify_ref opts start by_id l ref)
    unfolding classify_ref
    listed-Judged i s = elim (Option-cases (get ref.remote_id by_id)) [
      | inl e ↦
          rw (i, s, classify_ref)
            (rw e (one_item l missing absent (SameGates-refl l) i s (inl (e, refl))))
      | inr (remote, e) ↦ elim (Option-cases (match_reason opts start l ref remote).1) [
        | inl f ↦
            rw (i, s, classify_ref)
              (rw e (rw f (quiet by_id l _ ref (match-SameGates opts start l ref remote))))
        | inr (reason, f) ↦
            rw (i, s, classify_ref)
              (rw e (
                rw f (
                  one_item _ mismatch reason (match-SameGates opts start l ref remote) i s
                    (inr (remote, e, match_reason-Differs opts start l ref remote reason f)))))
      ]
    ]

    ref-Judged : Judged by_id l ref (classify_ref opts start by_id l ref)
    unfolding classify_ref
    ref-Judged = elim (Bool-cases (ref.remote_id == "")) [
      | inl i ↦ rw (i, classify_ref) (quiet by_id l l ref (SameGates-refl l))
      | inr i ↦ elim (Bool-cases (opts.listed ref)) [
        | inr s ↦ rw (i, s, classify_ref) (quiet by_id l l ref (SameGates-refl l))
        | inl s ↦ listed-Judged i s
      ]
    ]

  pub refs-SameGates :
      (by_id : Map String Remote) (l : Option (Latch Observed)) (refs : List LocalRef)
      → SameGates l (classify_refs opts start by_id l refs).0
  unfolding classify_refs
  refs-SameGates by_id l [] = SameGates-refl l
  refs-SameGates by_id l (ref ∷ refs) =
      SameGates-trans (ref-Judged by_id l ref).gates
        (refs-SameGates by_id (classify_ref opts start by_id l ref).0 refs)

  pub refs-Judgement :
      (by_id : Map String Remote) (l : Option (Latch Observed)) (refs : List LocalRef)
      (item : DriftItem)
      → Memᴰ item (classify_refs opts start by_id l refs).1
      → (ref : LocalRef) × Memᴰ ref refs × Judgement l ref by_id item
  unfolding classify_refs
  refs-Judgement by_id l [] item m = elim m [ ]
  refs-Judgement by_id l (ref ∷ refs) item m =
      let one = classify_ref opts start by_id l ref in
      elim (append_member one.1 (classify_refs opts start by_id one.0 refs).1 m) [
        | inl k ↦ (ref, Memᴰ.head refl, (ref-Judged by_id l ref).drift item k)
        | inr k ↦
            let (r, n, d) = refs-Judgement by_id one.0 refs item k in
            (
              r,
              Memᴰ.tail n,
              Judgement-SameGates l one.0 r by_id item (ref-Judged by_id l ref).gates d,
            )
      ]

  absent_item :
      (by_id : Map String Remote) (l : Option (Latch Observed)) (ref : LocalRef)
      → ref.remote_id ≢ ""
      → opts.listed ref ≡ true
      → get ref.remote_id by_id ≡ none
      → Memᴰ (drift_item opts start ref missing absent) (classify_ref opts start by_id l ref).1
  unfolding classify_ref
  absent_item by_id l ref n s g = rw (i, s, classify_ref) (rw g (Memᴰ.head refl))
    where
      i : (ref.remote_id == "") ≡ false
      i = ground (arith, n, eq_iff ref.remote_id "")

  pub absent_found :
      (by_id : Map String Remote) (l : Option (Latch Observed)) (refs : List LocalRef)
      (ref : LocalRef)
      → Memᴰ ref refs
      → ref.remote_id ≢ ""
      → opts.listed ref ≡ true
      → get ref.remote_id by_id ≡ none
      → Memᴰ (drift_item opts start ref missing absent) (classify_refs opts start by_id l refs).1
  unfolding classify_refs
  absent_found by_id l [] ref m n s g = elim m [ ]
  absent_found by_id l (r ∷ refs) ref (Memᴰ.head e) n s g = append_left _ _ (
      subst
        (λ (x : LocalRef).
          Memᴰ (drift_item opts start ref missing absent) (classify_ref opts start by_id l x).1)
        e (absent_item by_id l ref n s g))
  absent_found by_id l (r ∷ refs) ref (Memᴰ.tail m) n s g =
      append_right (classify_ref opts start by_id l r).1 _
        (absent_found by_id (classify_ref opts start by_id l r).0 refs ref m n s g)
