-- ===== src/Controller/FreshnessGate/Stamp.antt =====
-- persistGateStamp of internal/controller/freshness_gate.go: the Get, the merge patch of the status and
-- the record in the latch.
use flareway.Base.{
  ℕ, ◌*◌, ◌/◌, Bool, true, false, ◌||◌, not, Option, none, some, String, if◌then◌else◌, nat_beq,
}
use flareway.Base.Classes.{◌==◌, string_eq, option_eq, nat_eq}
use flareway.Freshness.Latch.{LatchKey, Latch}
use flareway.Controller.FreshnessGate.{GateStamp, record_gate_verification, next_gate_stamp}

-- status.appliedHash and status.appliedAt.
pub record Applied : Type 0 where
  pub hash : String
  pub at : Option ℕ

-- What comes of a patch: an error may be that of a write whose reply was lost.
pub data PatchReply : Type 0 where
  taken refused lost : PatchReply

-- Whether the API server answers the Get, and what comes of the patch.
pub record Api : Type 0 where
  pub reads : Bool
  pub patches : PatchReply

pub data PersistError : Type 0 where
  not_read : PersistError
  no_fields : PersistError
  not_patched : PersistError

-- A time in a status is written in whole seconds.
unfoldable pub whole_seconds : ℕ → ℕ
whole_seconds t = t / 1000000000 * 1000000000

unfoldable pub written : Option ℕ → Option ℕ
written none = none
written (some t) = some (whole_seconds t)

unfoldable pub same_time : Option ℕ → Option ℕ → Bool
same_time none none = true
same_time none (some t) = false
same_time (some t) none = false
same_time (some t) (some u) = nat_beq t u

-- MergeFrom: a field is sent if it differs from the object that was read.
unfoldable pub merge_patch : Applied → Applied → Applied → Applied
merge_patch before next now = record {
  hash = if next.hash == before.hash then now.hash else next.hash;
  at = if same_time (written next.at) before.at then now.at else written next.at;
}

-- The patch of an object that is gone is refused.
unfoldable pub patch : PatchReply → Applied → Applied → Option Applied → Bool × Option Applied
patch reply before next none = (false, none)
patch taken before next (some now) = (true, some (merge_patch before next now))
patch refused before next (some now) = (false, some now)
patch lost before next (some now) = (false, some (merge_patch before next now))

pub record PersistOutcome (Observed : Type 0) : Type 0 where
  pub failure : Option PersistError
  pub latch : Option (Latch Observed)
  pub status : Option Applied

module _ {Observed : Type 0} where
  unfoldable pub outcome :
      Option PersistError → Option (Latch Observed) → Option Applied → PersistOutcome Observed
  outcome failure latch status = record { failure = failure; latch = latch; status = status }

  unfoldable pub record_patched :
      Option (Latch Observed)
      → LatchKey
      → GateStamp Observed
      → Bool × Option Applied
      → PersistOutcome Observed
  record_patched latch key stamp (true, status) =
      outcome none (record_gate_verification latch key stamp) status
  record_patched latch key stamp (false, status) = outcome (some not_patched) latch status

  -- The object that was read, and what became of it until the patch.
  unfoldable pub persist_read :
      PatchReply
      → Option (Latch Observed)
      → LatchKey
      → GateStamp Observed
      → Applied
      → Option Applied
      → PersistOutcome Observed
  persist_read reply latch key stamp before now =
      let (hash, (at, changed)) = next_gate_stamp before.hash before.at stamp in
      record_patched latch key stamp
        (if changed then patch reply before (record { hash = hash; at = at }) now else (true, now))

  -- `has_writer` is false for a nil client or object, `known` says whether gateStampFields has the
  -- kind, and `between` is what others do to the status after the Get.
  unfoldable pub persist_gate_stamp :
      (has_writer known : Bool)
      → Api
      → (Option Applied → Option Applied)
      → Option (Latch Observed)
      → LatchKey
      → GateStamp Observed
      → Option Applied
      → PersistOutcome Observed
  persist_gate_stamp has_writer known api between latch key stamp status =
      if not has_writer || (stamp.hash == "")
      then outcome none latch (between status)
      else if not api.reads
      then outcome (some not_read) latch (between status)
      else elim status [
        | none ↦ outcome none latch (between none)
        | some before ↦
            if known
            then persist_read api.patches latch key stamp before (between (some before))
            else outcome (some no_fields) latch (between (some before))
      ]
