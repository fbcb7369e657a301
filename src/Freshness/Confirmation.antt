-- ===== src/Freshness/Confirmation.antt =====
-- What internal/freshness/latch.go's ConfirmContent may confirm, with other goroutines at work
-- between its two halves.
use flareway.Base.{
  ◌≡◌, ◌⊎◌, inl, inr, refl, true, ◌&&◌, Option, none, some, String, ℕ, List, arith, Bool-cases,
  Option-cases,
}
use flareway.Base.Classes.{string_eq}
use text.Mathlib.TextEquality.{eq_iff}
use flareway.Freshness.Latch.{
  LatchKey, Verification, Baseline, Latch, baseline_of, still, supersedes, confirm,
  confirm_content_after, same_key_refl,
}
use flareway.Freshness.History.{Call, run, confirmation_of}

module _ {Observed : Type 0} where
  -- The object had a baseline whose matcher accepts what the list API returned, the baseline now in
  -- place has the same hash, and the confirmation is of that hash.
  pub record IsJustified (before now : Option (Latch Observed)) (k : LatchKey) (observed : Observed)
      (at : ℕ) (confirmation : Option Verification) : Type 0 where
    pub earlier : Baseline Observed
    pub earlier_of : baseline_of before k ≡ some earlier
    pub accepted : earlier.matches observed ≡ true
    pub latest : Baseline Observed
    pub latest_of : baseline_of now k ≡ some latest
    pub same : latest.hash ≡ earlier.hash
    pub confirmed : confirmation ≡ some (record { hash = earlier.hash; at = at })

  still_sound :
      (b : Option (Baseline Observed)) (hash : String)
      → still b hash ≡ true
      → (x : Baseline Observed) × (b ≡ some x) × (x.hash ≡ hash)
  unfolding still
  still_sound none hash h = ground arith
  still_sound (some x) hash h = (x, refl, (eq_iff x.hash hash).0 h)

  -- The write half either keeps the confirmation, or replaces it beside an unchanged baseline.
  confirm_cases :
      (l : Option (Latch Observed)) (k : LatchKey) (hash : String) (at : ℕ)
      → (confirmation_of (confirm l k hash at) k ≡ confirmation_of l k)
        ⊎ ((confirmation_of (confirm l k hash at) k ≡ some (record { hash = hash; at = at }))
            × (still (baseline_of l k) hash ≡ true))
  unfolding confirm confirmation_of baseline_of
  confirm_cases none k hash at = inl refl
  confirm_cases (some l) k hash at =
      elim (Bool-cases (still (l.baselines k) hash && supersedes (l.confirmed k) hash at)) [
        | inr e ↦ inl (rw e)
        | inl e ↦ inr (rw e (rw (same_key_refl k)), ground arith)
      ]

  -- Whatever calls other goroutines make while ConfirmContent compares without the lock, it either
  -- leaves the object's confirmation as those calls left it, or records one for a baseline whose
  -- matcher accepted the listed content and whose hash is that of the baseline now in place.
  pub confirm_content_after-IsJustified :
      (l : Option (Latch Observed)) (cs : List (LatchKey × Call Observed)) (k : LatchKey)
      (observed : Observed) (at : ℕ)
      → let after = (confirm_content_after (λ x. run x cs) l k observed at).0 in
        (confirmation_of after k ≡ confirmation_of (run l cs) k)
        ⊎ IsJustified l (run l cs) k observed at (confirmation_of after k)
  unfolding confirm_content_after
  confirm_content_after-IsJustified l cs k observed at = elim (Option-cases (baseline_of l k)) [
    | inl e ↦ inl (rw (e, confirm_content_after))
    | inr (b, e) ↦ elim (Bool-cases (b.matches observed)) [
      | inr m ↦ inl (rw (e, confirm_content_after) (rw m))
      | inl m ↦
          rw (e, confirm_content_after)
            (rw m (elim (confirm_cases (run l cs) k b.hash at) [
              | inl kept ↦ inl kept
              | inr (made, same) ↦
                  let (x, f, h) = still_sound (baseline_of (run l cs) k) b.hash same in
                  inr (record {
                    earlier = b;
                    earlier_of = e;
                    accepted = m;
                    latest = x;
                    latest_of = f;
                    same = h;
                    confirmed = made;
                  })
            ]))
    ]
  ]
