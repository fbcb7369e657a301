-- ===== src/Controller/FreshnessGate/Failures.antt =====
-- When persistGateStamp returns an error, and what it has then left.
use flareway.Base.{
  ◌≡◌, ◌≢◌, ◌↔◌, ◌⊎◌, inl, inr, refl, sym, subst, ◌∙◌, Bool, true, false, Option, none, some,
  if◌then◌else◌, if_true, if_false, arith, Bool-cases,
}
use flareway.Base.Classes.{◌==◌, string_eq}
use text.Mathlib.TextEquality.{eq_iff}
use flareway.Freshness.Latch.{LatchKey, Latch}
use flareway.Controller.FreshnessGate.{GateStamp}
use flareway.Controller.FreshnessGate.Stamp.{
  Applied, Api, PersistError, not_read, no_fields, not_patched, patch, PersistOutcome, outcome,
  record_patched, persist_read, persist_gate_stamp,
}
use flareway.Controller.FreshnessGate.Patches.{
  Unpatched, patch-Unpatched, Unpatched-patch, is_stamped, not_stamped_iff, read_stamped,
  read_unstamped,
}

module _ {Observed : Type 0} (known : Bool) (api : Api) (between : Option Applied → Option Applied)
    (stamp : GateStamp Observed) (status : Option Applied) where
  -- The ways in which a stamp fails, each with the status that it leaves: the Get, the kind, or the patch
  -- of a status that did not have the hash with a time.
  pub data Fails : PersistError → Option Applied → Type 0 where
    get_failed : api.reads ≡ false → Fails not_read (between status)
    kind_unknown :
        (before : Applied)
        → api.reads ≡ true
        → status ≡ some before
        → known ≡ false
        → Fails no_fields (between status)
    patch_failed :
        (before : Applied) (left : Option Applied)
        → api.reads ≡ true
        → status ≡ some before
        → known ≡ true
        → (stamp.hash ≢ before.hash) ⊎ (before.at ≡ none)
        → Unpatched before
            (record { hash = stamp.hash; at = some stamp.at })
            api.patches
            (between status)
            left
        → Fails not_patched left

module _ {Observed : Type 0} (known : Bool) (api : Api) (between : Option Applied → Option Applied)
    (l : Option (Latch Observed)) (k : LatchKey) (stamp : GateStamp Observed) where
  -- The call, with a client and an object.
  abbrev persisted : Option Applied → PersistOutcome Observed
  persisted status = persist_gate_stamp true known api between l k stamp status

  at_get :
      (status : Option Applied)
      → (stamp.hash == "") ≡ false
      → api.reads ≡ false
      → persisted status ≡ outcome (some not_read) l (between status)
  unfolding persist_gate_stamp
  at_get status n r = rw (n, r, persist_gate_stamp) refl

  at_nothing :
      (stamp.hash == "") ≡ false → api.reads ≡ true → persisted none ≡ outcome none l (between none)
  unfolding persist_gate_stamp
  at_nothing n r = rw (n, r, persist_gate_stamp) refl

  at_kind :
      (before : Applied)
      → (stamp.hash == "") ≡ false
      → api.reads ≡ true
      → persisted (some before) ≡ (
          if known
          then persist_read api.patches l k stamp before (between (some before))
          else outcome (some no_fields) l (between (some before)))
  unfolding persist_gate_stamp
  at_kind before n r = rw (n, r, persist_gate_stamp) refl

  -- A failing outcome has the latch as it was and a status that a way of failing leaves.
  abbrev IsFailure : Option Applied → PersistOutcome Observed → Type 0
  IsFailure status o =
      (e : PersistError)
      → o.failure ≡ some e
      → Fails known api between stamp status e o.status × (o.latch ≡ l)

  kind-IsFailure :
      (before : Applied)
      → (stamp.hash == "") ≡ false
      → api.reads ≡ true
      → IsFailure (some before) (persisted (some before))
  unfolding outcome
  kind-IsFailure before n r = elim (Bool-cases known) [
    | inr u ↦ rw (at_kind before n r ∙ if_false _ _ u) (λ e h. (
      subst (λ x. Fails known api between stamp (some before) x (between (some before))) (cc h)
          (kind_unknown before r refl u),
      refl,
    ))
    | inl u ↦
        rw (at_kind before n r ∙ if_true _ _ u) (elim (Bool-cases (is_stamped l k stamp before)) [
          | inl q ↦ λ e h.
              absurd (cc (read_stamped l k stamp api.patches before (between (some before)) q))
          | inr q ↦
              let next : Applied = record { hash = stamp.hash; at = some stamp.at } in
              let o =
                record_patched l k stamp (patch api.patches before next (between (some before))) in
              rw (read_unstamped l k stamp api.patches before (between (some before)) q) (λ e h.
                let (x, y, z) =
                  patch-Unpatched l k stamp api.patches before _ (between (some before)) e h in
                (
                  subst (λ w. Fails known api between stamp (some before) w o.status) (sym x)
                      (patch_failed before _ r refl u ((not_stamped_iff l k stamp before).0 q) z),
                  y,
                ))
        ])
  ]

  reads-IsFailure :
      (status : Option Applied) → (stamp.hash == "") ≡ false → IsFailure status (persisted status)
  unfolding outcome
  reads-IsFailure status n = elim (Bool-cases api.reads) [
    | inr r ↦ rw (at_get status n r) (λ e h. (
      subst (λ x. Fails known api between stamp status x (between status)) (cc h) (get_failed r),
      refl,
    ))
    | inl r ↦ present status r
  ]
    where
      present : (s : Option Applied) → api.reads ≡ true → IsFailure s (persisted s)
      present none r = rw (at_nothing n r) (λ e h. absurd (cc))
      present (some before) r = kind-IsFailure before n r

  failure_sound :
      (w : Bool) (status : Option Applied) (e : PersistError)
      → let o = persist_gate_stamp w known api between l k stamp status in
        o.failure ≡ some e
        → (w ≡ true)
          × (stamp.hash ≢ "")
          × Fails known api between stamp status e o.status
          × (o.latch ≡ l)
  unfolding persist_gate_stamp outcome
  failure_sound false status e h = absurd (cc)
  failure_sound true status e h = elim (Bool-cases (stamp.hash == "")) [
    | inl n ↦ absurd (cc (rw (n, persist_gate_stamp) at h))
    | inr n ↦
        let (f, q) = reads-IsFailure status n e h in
        (refl, λ z. cc ((eq_iff stamp.hash "").1 z), f, q)
  ]

  failure_complete :
      (status left : Option Applied) (e : PersistError)
      → (stamp.hash == "") ≡ false
      → Fails known api between stamp status e left
      → persisted status ≡ outcome (some e) l left
  failure_complete status _ _ n (get_failed r) = at_get status n r
  failure_complete status _ _ n (kind_unknown before r s u) = rw s (at_kind before n r ∙ rw u refl)
  failure_complete status left _ n (patch_failed before _ r s u h p) = rw s (
      at_kind before n r
      ∙ rw u (
          read_unstamped l k stamp api.patches before (between (some before))
            ((not_stamped_iff l k stamp before).1 h)
          ∙ Unpatched-patch l k stamp api.patches before _ (between (some before)) left
              (rw s at p)))

  -- persistGateStamp returns an error and leaves a status exactly if there are a client and an
  -- object, the hash is not empty, and either the Get fails, or the object's kind has no stamp,
  -- both with the status as others left it; or the status that was read lacked the hash or a time
  -- and the patch fails: with the status as others left it if the object is gone or the patch is
  -- refused, and with the patch written if only its reply is lost. In each case the latch is as it
  -- was.
  pub persist_gate_stamp-Fails :
      (has_writer : Bool) (status left : Option Applied) (e : PersistError)
      → let o = persist_gate_stamp has_writer known api between l k stamp status in
        (((o.failure ≡ some e) × (o.status ≡ left))
          ↔ ((has_writer ≡ true) × (stamp.hash ≢ "") × Fails known api between stamp status e left))
        × (o.failure ≡ some e → o.latch ≡ l)
  unfolding outcome
  persist_gate_stamp-Fails w status left e = (
    (
      λ (h, q).
          let (a, n, f, _) = failure_sound w status e h in
          (a, n, subst (Fails known api between stamp status e) q f),
      λ (a, n, f). rw a (
          rw (failure_complete status left e (ground (arith, eq_iff stamp.hash "")) f)
            (refl, refl)),
    ),
    λ h. let (_, _, _, q) = failure_sound w status e h in q,
  )
