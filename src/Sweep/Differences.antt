-- ===== src/Sweep/Differences.antt =====
-- How a remote object differs in matchReason of internal/sweep/classify.go, and what the latch keeps.
use flareway.Base.{
  ℕ, ◌≡◌, ◌≢◌, inl, inr, refl, sym, Bool, subst, ◌∙◌, true, false, ◌&&◌, Option, none, some, String,
  Bool-cases, Option-cases, is_some,
}
use flareway.Base.Classes.{◌==◌, string_eq}
use text.Mathlib.TextEquality.{eq_iff}
use flareway.Freshness.Latch.{
  LatchKey, Latch, Baseline, is_invalidated, confirm, confirm_content, confirm_content_after,
  baseline_of, still, supersedes,
}
use flareway.Sweep.Classify.{
  LocalRef, Reason, name_differs, extra_differs, content_differs, ClassifyOptions, name_reason,
  extra_reason, content_check, match_reason,
}

module _ {Observed : Type 0} where
  -- The latch differs in confirmations at most.
  pub record SameGates (l m : Option (Latch Observed)) : Type 0 where
    pub here : is_some m ≡ is_some l
    pub invalidated : (k : LatchKey) → is_invalidated m k ≡ is_invalidated l k
    pub baselines : (k : LatchKey) → baseline_of m k ≡ baseline_of l k

  pub SameGates-refl : (l : Option (Latch Observed)) → SameGates l l
  SameGates-refl l = record { here = refl; invalidated = λ k. refl; baselines = λ k. refl }

  pub SameGates-trans :
      {l m n : Option (Latch Observed)} → SameGates l m → SameGates m n → SameGates l n
  SameGates-trans f g = record {
    here = g.here ∙ f.here;
    invalidated = λ k. g.invalidated k ∙ f.invalidated k;
    baselines = λ k. g.baselines k ∙ f.baselines k;
  }

  confirm-SameGates :
      (l : Option (Latch Observed)) (k : LatchKey) (hash : String) (at : ℕ)
      → SameGates l (confirm l k hash at)
  unfolding confirm is_invalidated baseline_of
  confirm-SameGates none k hash at = SameGates-refl none
  confirm-SameGates (some l) k hash at =
      elim (Bool-cases (still (l.baselines k) hash && supersedes (l.confirmed k) hash at)) [
        | inl e ↦ rw e (record { here = refl; invalidated = λ j. refl; baselines = λ j. refl })
        | inr e ↦ rw e (SameGates-refl (some l))
      ]

  confirm_content-SameGates :
      (l : Option (Latch Observed)) (k : LatchKey) (o : Observed) (at : ℕ)
      → SameGates l (confirm_content l k o at).0
  unfolding confirm_content confirm_content_after
  confirm_content-SameGates l k o at = elim (Option-cases (baseline_of l k)) [
    | inl e ↦ rw (e, confirm_content, confirm_content_after) (SameGates-refl l)
    | inr (b, e) ↦ elim (Bool-cases (b.matches o)) [
      | inl m ↦
          rw (e, confirm_content, confirm_content_after) (rw m (confirm-SameGates l k b.hash at))
      | inr m ↦ rw (e, confirm_content, confirm_content_after) (rw m (SameGates-refl l))
    ]
  ]

module _ {Remote Observed : Type 0} (opts : ClassifyOptions Remote Observed) where
  -- The hook's equality of names, or none and the names are the same.
  abbrev pub SameName : Option (String → String → Bool) → String → String → Type 0
  SameName none name expected = name ≡ expected
  SameName (some equal) name expected = equal name expected ≡ true

  -- How a remote object differs from the local one: by a name that is expected, by what a hook says,
  -- or by content that the matcher of the object's baseline in this latch refuses.
  pub data Differs (l : Option (Latch Observed)) (ref : LocalRef) (remote : Remote)
      : Reason → Type 0 where
    by_name :
        ref.expected_name ≢ ""
        → ¬ SameName opts.name_equal (opts.name_of remote) ref.expected_name
        → Differs l ref remote (name_differs (opts.name_of remote) ref.expected_name)
    by_extra :
        (extra : LocalRef → Remote → String)
        → opts.extra ≡ some extra
        → extra ref remote ≢ ""
        → Differs l ref remote (extra_differs (extra ref remote))
    by_content :
        (observe : Remote → Observed) (b : Baseline Observed)
        → opts.observe ≡ some observe
        → baseline_of l (ref.kind, ref.key) ≡ some b
        → b.matches (observe remote) ≡ false
        → Differs l ref remote content_differs

  -- Only the baseline of the latch matters.
  pub Differs-SameGates :
      (l m : Option (Latch Observed)) (ref : LocalRef) (remote : Remote) (reason : Reason)
      → SameGates l m
      → Differs m ref remote reason
      → Differs l ref remote reason
  Differs-SameGates l m ref remote _ g (by_name n s) = by_name n s
  Differs-SameGates l m ref remote _ g (by_extra f e n) = by_extra f e n
  Differs-SameGates l m ref remote _ g (by_content f b e k n) =
      by_content f b e (sym (g.baselines (ref.kind, ref.key)) ∙ k) n

module _ {Remote Observed : Type 0} (opts : ClassifyOptions Remote Observed) (start : ℕ) where
  check-SameGates :
      (l : Option (Latch Observed)) (ref : LocalRef) (remote : Remote)
      → SameGates l (content_check opts start l ref remote).0
  unfolding content_check
  check-SameGates l ref remote = elim (Option-cases opts.observe) [
    | inl e ↦ rw (e, content_check) (SameGates-refl l)
    | inr (f, e) ↦
        rw (e, content_check) (confirm_content-SameGates l (ref.kind, ref.key) (f remote) start)
  ]

  pub match-SameGates :
      (l : Option (Latch Observed)) (ref : LocalRef) (remote : Remote)
      → SameGates l (match_reason opts start l ref remote).0
  unfolding match_reason
  match-SameGates l ref remote = elim (Option-cases (name_reason opts start ref remote)) [
    | inr (n, e) ↦ rw (e, match_reason) (SameGates-refl l)
    | inl e ↦ elim (Option-cases (extra_reason opts start ref remote)) [
      | inr (x, f) ↦ rw (e, f, match_reason) (SameGates-refl l)
      | inl f ↦ rw (e, f, match_reason) (check-SameGates l ref remote)
    ]
  ]

  name_reason-Differs :
      (l : Option (Latch Observed)) (ref : LocalRef) (remote : Remote) (reason : Reason)
      → name_reason opts start ref remote ≡ some reason
      → Differs opts l ref remote reason
  unfolding name_reason
  name_reason-Differs l ref remote reason h = elim (Bool-cases (ref.expected_name == "")) [
    | inl e ↦ absurd (cc (rw (e, name_reason) at h))
    | inr e ↦
        let n : ref.expected_name ≢ "" = λ z. cc ((eq_iff ref.expected_name "").1 z) in
        let name = opts.name_of remote in
        elim (Option-cases opts.name_equal) [
          | inl f ↦ elim (Bool-cases (name == ref.expected_name)) [
            | inl q ↦ absurd (cc (rw q at (rw (e, f, name_reason) at h)))
            | inr q ↦
                let k = rw q at (rw (e, f, name_reason) at h) in
                reason_is _ reason k
                  (by_name n (rw f (λ z. cc ((eq_iff name ref.expected_name).1 z))))
          ]
          | inr (equal, f) ↦ elim (Bool-cases (equal name ref.expected_name)) [
            | inl q ↦ absurd (cc (rw q at (rw (e, f, name_reason) at h)))
            | inr q ↦
                let k = rw q at (rw (e, f, name_reason) at h) in
                reason_is _ reason k (by_name n (rw f (λ z. cc (z, q))))
          ]
        ]
  ]
    where
      reason_is :
          (a b : Reason)
          → some a ≡ some b
          → Differs opts l ref remote a
          → Differs opts l ref remote b
      reason_is a b q d = subst (Differs opts l ref remote) (cc q) d

  extra_reason-Differs :
      (l : Option (Latch Observed)) (ref : LocalRef) (remote : Remote) (reason : Reason)
      → extra_reason opts start ref remote ≡ some reason
      → Differs opts l ref remote reason
  unfolding extra_reason
  extra_reason-Differs l ref remote reason h = elim (Option-cases opts.extra) [
    | inl e ↦ absurd (cc (rw (e, extra_reason) at h))
    | inr (f, e) ↦ elim (Bool-cases (f ref remote == "")) [
      | inl q ↦ absurd (cc (rw q at (rw (e, extra_reason) at h)))
      | inr q ↦
          let k = rw q at (rw (e, extra_reason) at h) in
          subst (Differs opts l ref remote) (cc k)
            (by_extra f e (λ z. cc ((eq_iff (f ref remote) "").1 z)))
    ]
  ]

  content_check-Differs :
      (l : Option (Latch Observed)) (ref : LocalRef) (remote : Remote)
      → (content_check opts start l ref remote).1 ≡ true
      → Differs opts l ref remote content_differs
  unfolding content_check confirm_content confirm_content_after
  content_check-Differs l ref remote h = elim (Option-cases opts.observe) [
    | inl e ↦ absurd (cc (rw (e, content_check) at h))
    | inr (f, e) ↦ elim (Option-cases (baseline_of l (ref.kind, ref.key))) [
      | inl n ↦
          absurd
            (cc (rw (n, confirm_content, confirm_content_after) at (rw (e, content_check) at h)))
      | inr (b, k) ↦ elim (Bool-cases (b.matches (f remote))) [
        | inl q ↦ absurd (
            cc (
              rw q at
                (rw (k, confirm_content, confirm_content_after) at (rw (e, content_check) at h))))
        | inr q ↦ by_content f b e k q
      ]
    ]
  ]

  pub match_reason-Differs :
      (l : Option (Latch Observed)) (ref : LocalRef) (remote : Remote) (reason : Reason)
      → (match_reason opts start l ref remote).1 ≡ some reason
      → Differs opts l ref remote reason
  unfolding match_reason
  match_reason-Differs l ref remote reason h =
      elim (Option-cases (name_reason opts start ref remote)) [
        | inr (n, e) ↦ name_reason-Differs l ref remote reason (e ∙ rw (e, match_reason) at h)
        | inl e ↦ elim (Option-cases (extra_reason opts start ref remote)) [
          | inr (x, f) ↦ extra_reason-Differs l ref remote reason (f ∙ rw (e, f, match_reason) at h)
          | inl f ↦ elim (Bool-cases (content_check opts start l ref remote).1) [
            | inl q ↦
                subst (Differs opts l ref remote) (cc (rw q at (rw (e, f, match_reason) at h)))
                  (content_check-Differs l ref remote q)
            | inr q ↦ absurd (cc (rw q at (rw (e, f, match_reason) at h)))
          ]
        ]
      ]
