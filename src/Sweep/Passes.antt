-- ===== src/Sweep/Passes.antt =====
-- What a pass of internal/sweep does to the gates of the objects that it judged.
use mathlib.Core.List.{Memᴰ}
use flareway.Base.{
  ℕ, ◌≤◌, ◌≡◌, ◌≢◌, ◌⊎◌, inl, inr, refl, sym, ap, ◌∙◌, Bool, true, false, ◌||◌, Option, none, some,
  String, List, [], ◌∷◌, arith, Bool-cases, Option-cases, length, append_left, append_member,
}
use flareway.Base.Classes.{◌==◌, string_eq}
use flareway.Base.Maps.{get}
use flareway.Freshness.Latch.{LatchKey, Latch, is_invalidated}
use flareway.Sweep.Classify.{
  NamespacedName, LocalRef, orphan, missing, Reason, absent, DriftItem, ClassifyOptions, drift_item,
  remote_by_id, classify_orphan, classify_orphans, is_claimed, classify,
}
use flareway.Sweep.Dispatch.{SweepError, SweepState, run_target_once, run_target}
use flareway.Sweep.Verdicts.{refs-SameGates, refs-Judgement, absent_found}
use flareway.Sweep.Remotes.{IsDrift, Judgement-IsDrift, unlisted_id}
use flareway.Sweep.Closing.{results_set, results_only, results_bound}
use flareway.Freshness.Policy.{Grade, Policy}
use flareway.Freshness.History.{Call, run, NeverReleased, run_invalidated}
use flareway.Controller.FreshnessGate.{evaluate_gate_with_hash}
use flareway.Controller.FreshnessGate.Cycle.{judge_invalidated}

-- Every item of an object that nobody claims is an orphan.
module _ {Remote Observed : Type 0} (opts : ClassifyOptions Remote Observed) (start : ℕ)
    (claimed : String → Bool) where
  orphan_is :
      (r : Remote) (item : DriftItem)
      → Memᴰ item (classify_orphan opts start claimed r)
      → item.drift_case ≡ orphan
  unfolding classify_orphan
  orphan_is r item m = elim (Bool-cases (opts.id_of r == "" || claimed (opts.id_of r))) [
    | inl e ↦ elim (rw (e, classify_orphan) at m) [ ]
    | inr e ↦ elim (Option-cases opts.orphan_of) [
      | inl f ↦ elim (rw (e, f, classify_orphan) at m) [ ]
      | inr (h, f) ↦ elim (Option-cases (h r claimed)) [
        | inl g ↦ elim (rw g at (rw (e, f, classify_orphan) at m)) [ ]
        | inr (key, g) ↦ elim (rw g at (rw (e, f, classify_orphan) at m)) [
          | Memᴰ.head q ↦ ap (λ (x : DriftItem). x.drift_case) q
          | Memᴰ.tail n ↦ elim n [ ]
        ]
      ]
    ]
  ]

  orphans_are :
      (remotes : List Remote) (item : DriftItem)
      → Memᴰ item (classify_orphans opts start claimed remotes)
      → item.drift_case ≡ orphan
  unfolding classify_orphans
  orphans_are [] item m = elim m [ ]
  orphans_are (r ∷ remotes) item m =
      elim (append_member (classify_orphan opts start claimed r) _ m) [
        | inl k ↦ orphan_is r item k
        | inr k ↦ orphans_are remotes item k
      ]

same_target :
    {a b : String} {x y : NamespacedName} → a ≡ b → x ≡ y → ◌≡◌ {A = LatchKey} (b, y) (a, x)
same_target p q = cc

module _ {Remote Observed : Type 0} (opts : ClassifyOptions Remote Observed) (capacity : ℕ)
    (text : Reason → String) (start : ℕ) (l : Latch Observed) (refs : List LocalRef)
    (remotes : List Remote) (events : List (String × NamespacedName)) where
  -- A complete pass: the listing is classified, and what it found handled.
  abbrev pub complete_pass : SweepState Observed
  complete_pass =
      let judged = classify opts start (some l) refs remotes in
      run_target capacity text (record { latch = judged.0; events = events }) (some judged.1) none

  missing_closes :
      (ref : LocalRef)
      → Memᴰ ref refs
      → ref.remote_id ≢ ""
      → opts.listed ref ≡ true
      → ((r : Remote) → Memᴰ r remotes → opts.id_of r ≢ ref.remote_id)
      → is_invalidated complete_pass.latch (ref.kind, ref.key) ≡ true
  unfolding run_target run_target_once classify get
  missing_closes ref m n s u =
      results_set capacity text _ _ (drift_item opts start ref missing absent)
        (append_left _ _ (
          absent_found opts start (remote_by_id opts start remotes []) (some l) refs ref m n s
            (unlisted_id opts start remotes [] ref.remote_id u refl)))
        (λ z. cc)
        (refs-SameGates opts start (remote_by_id opts start remotes []) (some l) refs).here

  -- After a complete pass of the sweep over a listing, the gate of a local object that has a remote
  -- ID on record and is in a listed scope, and whose ID no listed remote object has, is closed for
  -- any policy, hashes and times, and stays closed under any calls on the latch other than a Clear
  -- or a Remove of the object.
  pub missing_stays_closed :
      (ref : LocalRef) (cs : List (LatchKey × Call Observed)) (p : Policy) (g : Grade)
      (a d : String) (at : Option ℕ) (now : ℕ)
      → Memᴰ ref refs
      → ref.remote_id ≢ ""
      → opts.listed ref ≡ true
      → ((r : Remote) → Memᴰ r remotes → opts.id_of r ≢ ref.remote_id)
      → NeverReleased (ref.kind, ref.key) cs
      → (evaluate_gate_with_hash p
          (run complete_pass.latch cs)
          g
          (ref.kind, ref.key)
          a
          d
          at
          now).decision.gate.is_open
        ≡ false
  unfolding evaluate_gate_with_hash
  missing_stays_closed ref cs p g a d at now m n s u f =
      judge_invalidated p _ g _ a d at now
        (run_invalidated _ (ref.kind, ref.key) cs (missing_closes ref m n s u) f)

  -- A complete pass of the sweep invalidates no object but those already invalidated and the local
  -- objects that have a remote ID on record, are in a listed scope, and have drifted from the
  -- listing: no listed remote object has the ID, or one that has it differs by a name that is
  -- expected, by what the kind's own check says, or by content that the matcher of the object's
  -- baseline, as the latch had it before the pass, refuses. Orphans in particular invalidate
  -- nothing.
  pub complete_pass-IsDrift :
      (k : LatchKey)
      → is_invalidated complete_pass.latch k ≡ true
      → (is_invalidated (some l) k ≡ true)
        ⊎ ((ref : LocalRef) × (item : DriftItem) × Memᴰ ref refs
            × ((ref.kind, ref.key) ≡ k)
            × IsDrift opts start (some l) remotes ref item)
  unfolding run_target run_target_once classify
  complete_pass-IsDrift k h = elim (results_only capacity text _ _ k h) [
    | inl e ↦ inl (
        sym (
          (refs-SameGates opts start (remote_by_id opts start remotes []) (some l) refs).invalidated
            k)
        ∙ e)
    | inr (item, m, e, n) ↦
        elim (append_member _ (classify_orphans opts start (is_claimed opts start refs) remotes)
          m) [
            | inr o ↦
                absurd (n (orphans_are opts start (is_claimed opts start refs) remotes item o))
            | inl o ↦
                let (ref, p, d) =
                  refs-Judgement opts start (remote_by_id opts start remotes []) (some l) refs item
                    o in
                inr (
                  ref,
                  item,
                  p,
                  same_target d.kind d.key ∙ e,
                  Judgement-IsDrift opts start (some l) remotes ref item d,
                )
          ]
  ]

  -- If the wakeups fit into the channel's buffer before a complete pass, they do after it.
  events_bounded : length events ≤ capacity → length complete_pass.events ≤ capacity
  unfolding run_target run_target_once classify
  events_bounded h = results_bound capacity text _ _ h

-- A sweep that could not judge a whole listing, or a part of it.
pub data Unjudged : Option (List DriftItem) → Option SweepError → Type 0 where
  nothing_listed : (error : Option SweepError) → Unjudged none error
  canceled :
      (items : Option (List DriftItem)) (e : SweepError)
      → e.is_canceled ≡ true
      → Unjudged items (some e)
  unscoped :
      (items : Option (List DriftItem)) (e : SweepError)
      → e.is_scoped ≡ false
      → Unjudged items (some e)

-- runTarget leaves the latch and the wakeups as the sweep left them if the sweep listed nothing,
-- was cancelled, or failed with an error that is not of the scoped kind.
run_target-Unjudged :
    {Observed : Type 0} (capacity : ℕ) (text : Reason → String) (s : SweepState Observed)
    (items : Option (List DriftItem)) (error : Option SweepError)
    → Unjudged items error
    → run_target capacity text s items error ≡ s
unfolding run_target run_target_once
run_target-Unjudged capacity text s _ _ (nothing_listed none) = refl
run_target-Unjudged capacity text s _ _ (nothing_listed (some e)) = ground arith
run_target-Unjudged capacity text s _ _ (canceled items e c) = ground arith
run_target-Unjudged capacity text s _ _ (unscoped items e c) = ground arith
