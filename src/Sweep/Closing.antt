-- ===== src/Sweep/Closing.antt =====
-- What handleDriftResults of internal/sweep/account_sweeper.go does to the latch and the wakeups.
use mathlib.Core.List.{Memᴰ}
use flareway.Base.{
  ℕ, ◌≤◌, ◌≡◌, ◌≢◌, ◌⊎◌, inl, inr, refl, ap, ◌∙◌, true, Option, none, some, String, List, [], ◌∷◌,
  arith, Bool-cases, is_some, length, length-append, ltb, ltb→lt,
}
use flareway.Base.Classes.{string_eq}
use flareway.Freshness.Latch.{
  LatchKey, Latch, is_invalidated, invalidate, same_key, same_key_refl, same_key_iff,
}
use flareway.Sweep.Classify.{
  NamespacedName, DriftCase, orphan, missing, mismatch, Reason, DriftItem,
}
use flareway.Sweep.Dispatch.{
  SweepState, emit_event, close_gate, dispatch, handle_drift_result, handle_drift_results,
}

abbrev pub target : DriftItem → LatchKey
target item = (item.target_kind, item.key)

-- The wakeups never outgrow the channel.
emit_bound :
    (capacity : ℕ) (events : List (String × NamespacedName)) (item : DriftItem)
    → length events ≤ capacity
    → length (emit_event capacity events item) ≤ capacity
unfolding emit_event
emit_bound capacity events item h = elim (Bool-cases (ltb (length events) capacity)) [
  | inl e ↦ rw e (
      omega (
        arith,
        length-append events ((item.target_kind, item.key) ∷ []),
        ltb→lt (length events) capacity e,
      ))
  | inr e ↦ rw e h
]

module _ {Observed : Type 0} (capacity : ℕ) (text : Reason → String) where
  invalidate_keeps :
      (l : Option (Latch Observed)) (j k : LatchKey) (reason : String)
      → is_invalidated l k ≡ true
      → is_invalidated (invalidate l j reason) k ≡ true
  unfolding invalidate is_invalidated
  invalidate_keeps none j k reason h = h
  invalidate_keeps (some l) j k reason h = ground arith

  invalidate_sets :
      (l : Option (Latch Observed)) (k : LatchKey) (reason : String)
      → is_some l ≡ true
      → is_invalidated (invalidate l k reason) k ≡ true
  unfolding invalidate is_invalidated
  invalidate_sets none k reason h = absurd cc
  invalidate_sets (some l) k reason h = rw (same_key_refl k)

  invalidate_only :
      (l : Option (Latch Observed)) (j k : LatchKey) (reason : String)
      → is_invalidated (invalidate l j reason) k ≡ true
      → (is_invalidated l k ≡ true) ⊎ (j ≡ k)
  unfolding invalidate is_invalidated
  invalidate_only none j k reason h = inl h
  invalidate_only (some l) j k reason h = elim (Bool-cases (same_key j k)) [
    | inl e ↦ inr ((same_key_iff j k).0 e)
    | inr e ↦ inl (rw e at h)
  ]

  invalidate_some :
      (l : Option (Latch Observed)) (k : LatchKey) (reason : String)
      → is_some (invalidate l k reason) ≡ is_some l
  unfolding invalidate
  invalidate_some none k reason = refl
  invalidate_some (some l) k reason = refl

  -- One item.
  record Step (s : SweepState Observed) (item : DriftItem) (t : SweepState Observed) : Type 0 where
    here : is_some t.latch ≡ is_some s.latch
    keeps : (k : LatchKey) → is_invalidated s.latch k ≡ true → is_invalidated t.latch k ≡ true
    only :
        (k : LatchKey)
        → is_invalidated t.latch k ≡ true
        → (is_invalidated s.latch k ≡ true) ⊎ ((target item ≡ k) × (item.drift_case ≢ orphan))
    sets :
        item.drift_case ≢ orphan
        → is_some s.latch ≡ true
        → is_invalidated t.latch (target item) ≡ true

  close-Step :
      (s : SweepState Observed) (item : DriftItem)
      → item.drift_case ≢ orphan
      → Step s item (close_gate capacity text s item)
  unfolding close_gate
  close-Step s item n = record {
    here = invalidate_some s.latch _ _;
    keeps = λ k h. invalidate_keeps s.latch _ k _ h;
    only = λ k h. elim (invalidate_only s.latch _ k _ h) [ inl e ↦ inl e | inr e ↦ inr (e, n) ];
    sets = λ m h. invalidate_sets s.latch _ _ h;
  }

  dispatch-Step :
      (c : DriftCase) (s : SweepState Observed) (item : DriftItem)
      → item.drift_case ≡ c
      → Step s item (dispatch capacity text c s item)
  unfolding dispatch
  dispatch-Step orphan s item e = record {
    here = refl;
    keeps = λ k h. h;
    only = λ k h. inl h;
    sets = λ m h. absurd (m e);
  }
  dispatch-Step missing s item e = close-Step s item (λ z. cc)
  dispatch-Step mismatch s item e = close-Step s item (λ z. cc)

  result-Step :
      (s : SweepState Observed) (item : DriftItem)
      → Step s item (handle_drift_result capacity text s item)
  unfolding handle_drift_result
  result-Step s item = dispatch-Step item.drift_case s item refl

  results_keep :
      (s : SweepState Observed) (items : List DriftItem) (k : LatchKey)
      → is_invalidated s.latch k ≡ true
      → is_invalidated (handle_drift_results capacity text s items).latch k ≡ true
  unfolding handle_drift_results
  results_keep s [] k h = h
  results_keep s (i ∷ items) k h =
      results_keep (handle_drift_result capacity text s i) items k ((result-Step s i).keeps k h)

  pub results_set :
      (s : SweepState Observed) (items : List DriftItem) (item : DriftItem)
      → Memᴰ item items
      → item.drift_case ≢ orphan
      → is_some s.latch ≡ true
      → is_invalidated (handle_drift_results capacity text s items).latch (target item) ≡ true
  unfolding handle_drift_results
  results_set s [] item m n h = elim m [ ]
  results_set s (i ∷ items) item (Memᴰ.head e) n h =
      results_keep (handle_drift_result capacity text s i) items (target item)
        (rw e ((result-Step s i).sets (λ z. n (ap (λ (x : DriftItem). x.drift_case) e ∙ z)) h))
  results_set s (i ∷ items) item (Memᴰ.tail m) n h =
      results_set (handle_drift_result capacity text s i) items item m n
        ((result-Step s i).here ∙ h)

  pub results_only :
      (s : SweepState Observed) (items : List DriftItem) (k : LatchKey)
      → is_invalidated (handle_drift_results capacity text s items).latch k ≡ true
      → (is_invalidated s.latch k ≡ true)
        ⊎ ((item : DriftItem) × Memᴰ item items × (target item ≡ k) × (item.drift_case ≢ orphan))
  unfolding handle_drift_results
  results_only s [] k h = inl h
  results_only s (i ∷ items) k h =
      elim (results_only (handle_drift_result capacity text s i) items k h) [
        | inr (x, m, e, n) ↦ inr (x, Memᴰ.tail m, e, n)
        | inl g ↦ elim ((result-Step s i).only k g) [
          | inl e ↦ inl e
          | inr (e, n) ↦ inr (i, Memᴰ.head refl, e, n)
        ]
      ]

  dispatch_bound :
      (c : DriftCase) (s : SweepState Observed) (item : DriftItem)
      → length s.events ≤ capacity
      → length (dispatch capacity text c s item).events ≤ capacity
  unfolding dispatch close_gate
  dispatch_bound orphan s item h = h
  dispatch_bound missing s item h = emit_bound capacity s.events item h
  dispatch_bound mismatch s item h = emit_bound capacity s.events item h

  pub results_bound :
      (s : SweepState Observed) (items : List DriftItem)
      → length s.events ≤ capacity
      → length (handle_drift_results capacity text s items).events ≤ capacity
  unfolding handle_drift_results handle_drift_result
  results_bound s [] h = h
  results_bound s (i ∷ items) h =
      results_bound (handle_drift_result capacity text s i) items
        (dispatch_bound i.drift_case s i h)
