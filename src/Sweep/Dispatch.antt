-- ===== src/Sweep/Dispatch.antt =====
-- internal/sweep/account_sweeper.go: RunTargetOnce, runTarget and handleDriftResults. Logs and metrics
-- are left out; the channel of wakeups is its buffer.
use flareway.Base.{
  ℕ, Bool, true, false, Option, none, some, String, List, [], ◌∷◌, ◌++◌, if◌then◌else◌, length, ltb,
  is_some,
}
use flareway.Freshness.Latch.{Latch, invalidate}
use flareway.Sweep.Classify.{
  NamespacedName, DriftCase, orphan, missing, mismatch, Reason, DriftItem,
}

-- What errors.Is and errors.As find in an error.
pub record SweepError : Type 0 where
  pub is_canceled : Bool
  pub is_scoped : Bool
  pub is_incomplete : Bool

-- The results ok, partial and error, and none for a cancelled pass.
pub data SweepResult : Type 0 where
  no_result ok partial failed : SweepResult

-- The items (`none` is a nil slice), the result and the error.
pub record PassOutcome : Type 0 where
  pub items : Option (List DriftItem)
  pub result : SweepResult
  pub error : Option SweepError

unfoldable pub run_target_once : Option (List DriftItem) → Option SweepError → PassOutcome
run_target_once items (some error) =
    if error.is_canceled
    then record { items = none; result = no_result; error = some error }
    else if error.is_scoped
    then record { items = items; result = partial; error = some error }
    else if error.is_incomplete
    then record { items = none; result = partial; error = none }
    else record { items = none; result = failed; error = some error }
run_target_once none none = record { items = none; result = partial; error = none }
run_target_once (some items) none = record { items = some items; result = ok; error = none }

-- The latch, and the wakeups that wait in the channel's buffer.
pub record SweepState (Observed : Type 0) : Type 0 where
  pub latch : Option (Latch Observed)
  pub events : List (String × NamespacedName)

abbrev pub is_canceled_error : Option SweepError → Bool
is_canceled_error none = false
is_canceled_error (some e) = e.is_canceled

abbrev pub is_partial : SweepResult → Bool
is_partial partial = true
is_partial _ = false

-- A full buffer drops the event.
unfoldable pub emit_event :
    ℕ → List (String × NamespacedName) → DriftItem → List (String × NamespacedName)
emit_event capacity events item =
    if ltb (length events) capacity then events ++ ((item.target_kind, item.key) ∷ []) else events

module _ {Observed : Type 0} (capacity : ℕ) (text : Reason → String) where
  unfoldable pub close_gate : SweepState Observed → DriftItem → SweepState Observed
  close_gate s item = record {
    latch = invalidate s.latch (item.target_kind, item.key) (text item.reason);
    events = emit_event capacity s.events item;
  }

  -- The switch over the case.
  unfoldable pub dispatch : DriftCase → SweepState Observed → DriftItem → SweepState Observed
  dispatch orphan s item = s
  dispatch missing s item = close_gate s item
  dispatch mismatch s item = close_gate s item

  unfoldable pub handle_drift_result : SweepState Observed → DriftItem → SweepState Observed
  handle_drift_result s item = dispatch item.drift_case s item

  unfoldable pub handle_drift_results : SweepState Observed → List DriftItem → SweepState Observed
  handle_drift_results s [] = s
  handle_drift_results s (item ∷ items) = handle_drift_results (handle_drift_result s item) items

  abbrev pub handle_items : SweepState Observed → Option (List DriftItem) → SweepState Observed
  handle_items s none = s
  handle_items s (some items) = handle_drift_results s items

  -- runTarget, after a sweep that left this state, these items and this error.
  unfoldable pub run_target :
      SweepState Observed → Option (List DriftItem) → Option SweepError → SweepState Observed
  run_target s items error =
      let outcome = run_target_once items error in
      if is_canceled_error outcome.error
      then s
      else if is_partial outcome.result
      then handle_items s outcome.items
      else if is_some outcome.error
      then s
      else handle_items s outcome.items
