-- ===== src/Controller/FreshnessGate/Patches.antt =====
-- The patch of persistGateStamp: when it is sent, how it fails, and what it leaves.
use flareway.Base.{
  ◌≡◌, ◌≢◌, ◌↔◌, ◌⊎◌, inl, inr, refl, Bool, true, false, ◌&&◌, Option, none, some, arith,
  Bool-cases, Option-cases, is_some,
}
use flareway.Base.Classes.{◌==◌, string_eq}
use text.Mathlib.TextEquality.{eq_iff}
use flareway.Freshness.Latch.{LatchKey, Latch}
use flareway.Controller.FreshnessGate.{GateStamp, next_gate_stamp}
use flareway.Controller.FreshnessGate.Stamp.{
  Applied, PatchReply, taken, refused, lost, PersistError, not_patched, merge_patch, patch, outcome,
  record_patched, persist_read,
}

-- How a patch fails on a status, and the status after it: the object is gone, the patch is refused, or
-- it is written and its reply is lost.
pub data Unpatched (before next : Applied)
    : PatchReply → Option Applied → Option Applied → Type 0 where
  object_gone : (reply : PatchReply) → Unpatched before next reply none none
  patch_refused : (now : Applied) → Unpatched before next refused (some now) (some now)
  reply_lost :
      (now : Applied) → Unpatched before next lost (some now) (some (merge_patch before next now))

module _ {Observed : Type 0} (l : Option (Latch Observed)) (k : LatchKey)
    (stamp : GateStamp Observed) where
  pub patch-Unpatched :
      (reply : PatchReply) (before next : Applied) (now : Option Applied) (e : PersistError)
      → let o = record_patched l k stamp (patch reply before next now) in
        o.failure ≡ some e
        → (e ≡ not_patched) × (o.latch ≡ l) × Unpatched before next reply now o.status
  unfolding record_patched patch outcome
  patch-Unpatched reply before next none e h = (cc, refl, object_gone reply)
  patch-Unpatched taken before next (some now) e h = absurd (cc)
  patch-Unpatched refused before next (some now) e h = (cc, refl, patch_refused now)
  patch-Unpatched lost before next (some now) e h = (cc, refl, reply_lost now)

  pub Unpatched-patch :
      (reply : PatchReply) (before next : Applied) (now left : Option Applied)
      → Unpatched before next reply now left
      → record_patched l k stamp (patch reply before next now) ≡ outcome (some not_patched) l left
  unfolding record_patched patch outcome
  Unpatched-patch reply before next _ _ (object_gone _) = refl
  Unpatched-patch _ before next _ _ (patch_refused now) = refl
  Unpatched-patch _ before next _ _ (reply_lost now) = refl

  -- Whether the status that was read has the hash with a time.
  pub is_stamped : Applied → Bool
  is_stamped before = (stamp.hash == before.hash) && is_some before.at

  pub not_stamped_iff :
      (before : Applied)
      → (is_stamped before ≡ false) ↔ ((stamp.hash ≢ before.hash) ⊎ (before.at ≡ none))
  unfolding is_stamped
  not_stamped_iff before = (
    λ h. elim (Bool-cases (stamp.hash == before.hash)) [
      | inr e ↦ inl (λ q. cc ((eq_iff stamp.hash before.hash).1 q))
      | inl e ↦ elim (Option-cases before.at) [
        | inl n ↦ inr n
        | inr (t, n) ↦ absurd (cc (rw (e, n) at h))
      ]
    ],
    λ h. elim h [
      | inl n ↦ ground (arith, eq_iff stamp.hash before.hash)
      | inr n ↦ rw n (ground arith)
    ],
  )

  pub read_stamped :
      (reply : PatchReply) (before : Applied) (now : Option Applied)
      → is_stamped before ≡ true
      → (persist_read reply l k stamp before now).failure ≡ none
  unfolding persist_read next_gate_stamp record_patched outcome is_stamped
  read_stamped reply before now e = rw e refl

  pub read_unstamped :
      (reply : PatchReply) (before : Applied) (now : Option Applied)
      → is_stamped before ≡ false
      → persist_read reply l k stamp before now
        ≡ record_patched l k stamp
            (patch reply before (record { hash = stamp.hash; at = some stamp.at }) now)
  unfolding persist_read next_gate_stamp is_stamped
  read_unstamped reply before now e = rw e refl
