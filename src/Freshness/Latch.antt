-- ===== src/Freshness/Latch.antt =====
-- internal/freshness/latch.go. The four maps are functions of the key; `none` for the latch is the
-- nil pointer, on which every method is a no-op. The lock is a step's atomicity: `confirm_content`
-- is two steps, since it lets go of the lock while the matcher runs.
use flareway.Base.{
  ℕ, ◌≡◌, Bool, true, false, ◌||◌, ◌&&◌, not, Option, none, some, String, if◌then◌else◌, ltb,
  is_some, ◌↔◌, refl,
}
use flareway.Base.Classes.{◌==◌, pair_eq, pair_beq_iff, string_eq}

-- kind, namespace, name.
abbrev pub LatchKey : Type 0
LatchKey = String × (String × String)

pub record Verification : Type 0 where
  pub hash : String
  pub at : ℕ

-- Only the keys are compared, so a map is a function.
abbrev pub Store : Type 0 → Type 0
Store V = LatchKey → Option V

unfoldable pub same_key : LatchKey → LatchKey → Bool
same_key k j = k == j

pub same_key_iff : (k j : LatchKey) → (same_key k j ≡ true) ↔ (k ≡ j)
unfolding same_key
same_key_iff k j = pair_beq_iff k j

pub same_key_refl : (k : LatchKey) → same_key k k ≡ true
same_key_refl k = (same_key_iff k k).1 refl

abbrev pub store {ℓ} : {V : Type ℓ} → LatchKey → V → (LatchKey → V) → LatchKey → V
store k v m j = if same_key k j then v else m j

-- The record, if it is one of this hash.
unfoldable pub recorded_at : Option Verification → String → Option ℕ
recorded_at none hash = none
recorded_at (some v) hash = if v.hash == hash then some v.at else none

-- `previous, ok := l.confirmed[k]; !ok || previous.hash != current.hash || at.After(previous.at)`
unfoldable pub supersedes : Option Verification → String → ℕ → Bool
supersedes none hash at = true
supersedes (some v) hash at = not (v.hash == hash) || ltb v.at at

-- What the list API returns is a parameter.
module _ (Observed : Type 0) where
  pub record Baseline : Type 0 where
    pub hash : String
    pub matches : Observed → Bool

  pub record Latch : Type 0 where
    pub reasons : Store String
    pub verified : Store Verification
    pub baselines : Store Baseline
    pub confirmed : Store Verification

module _ {Observed : Type 0} where
  unfoldable pub new_latch : Option (Latch Observed)
  new_latch = some (record {
    reasons = λ k. none;
    verified = λ k. none;
    baselines = λ k. none;
    confirmed = λ k. none;
  })

  unfoldable pub invalidate : Option (Latch Observed) → LatchKey → String → Option (Latch Observed)
  invalidate none k reason = none
  invalidate (some l) k reason = some (record l {
    reasons = store k (some reason) l.reasons;
    verified = store k none l.verified;
    confirmed = store k none l.confirmed;
  })

  unfoldable pub is_invalidated : Option (Latch Observed) → LatchKey → Bool
  is_invalidated none k = false
  is_invalidated (some l) k = is_some (l.reasons k)

  unfoldable pub clear : Option (Latch Observed) → LatchKey → Option (Latch Observed)
  clear none k = none
  clear (some l) k = some (record l { reasons = store k none l.reasons })

  unfoldable pub forget : Option (Latch Observed) → LatchKey → Option (Latch Observed)
  forget none k = none
  forget (some l) k = some (record l {
    verified = store k none l.verified;
    baselines = store k none l.baselines;
    confirmed = store k none l.confirmed;
  })

  unfoldable pub remove : Option (Latch Observed) → LatchKey → Option (Latch Observed)
  remove none k = none
  remove (some l) k = some (record {
    reasons = store k none l.reasons;
    verified = store k none l.verified;
    baselines = store k none l.baselines;
    confirmed = store k none l.confirmed;
  })

  unfoldable pub mark_verified :
      Option (Latch Observed) → LatchKey → String → ℕ → Option (Latch Observed)
  mark_verified none k hash at = none
  mark_verified (some l) k hash at =
      if hash == ""
      then some l
      else some
          (record l { verified = store k (some (record { hash = hash; at = at })) l.verified })

  unfoldable pub verified_at : Option (Latch Observed) → LatchKey → String → Option ℕ
  unfolding recorded_at
  verified_at none k hash = none
  verified_at (some l) k hash = if hash == "" then none else recorded_at (l.verified k) hash

  unfoldable pub set_baseline :
      Option (Latch Observed)
      → LatchKey
      → String
      → Option (Observed → Bool)
      → Option (Latch Observed)
  set_baseline none k hash matcher = none
  set_baseline (some l) k hash none =
      some (record l { confirmed = store k none l.confirmed; baselines = store k none l.baselines })
  set_baseline (some l) k hash (some matches) =
      let l' = record l { confirmed = store k none l.confirmed } in
      if hash == ""
      then some (record l' { baselines = store k none l.baselines })
      else some (record l' {
        baselines = store k (some (record { hash = hash; matches = matches })) l.baselines;
      })

  -- The first half of ConfirmContent, under the read lock.
  unfoldable pub baseline_of : Option (Latch Observed) → LatchKey → Option (Baseline Observed)
  baseline_of none k = none
  baseline_of (some l) k = l.baselines k

  -- `latest, ok := l.baselines[k]; ok && latest.hash == current.hash`
  unfoldable pub still : Option (Baseline Observed) → String → Bool
  still none hash = false
  still (some latest) hash = latest.hash == hash

  -- The second half, under the write lock, for a listed object that matched the baseline's hash.
  unfoldable pub confirm : Option (Latch Observed) → LatchKey → String → ℕ → Option (Latch Observed)
  unfolding supersedes still
  confirm none k hash at = none
  confirm (some l) k hash at =
      if still (l.baselines k) hash && supersedes (l.confirmed k) hash at
      then some
          (record l { confirmed = store k (some (record { hash = hash; at = at })) l.confirmed })
      else some l

  -- `between` is what other goroutines did while the matcher ran without the lock.
  unfoldable pub confirm_content_after :
      (Option (Latch Observed) → Option (Latch Observed))
      → Option (Latch Observed)
      → LatchKey
      → Observed
      → ℕ
      → Option (Latch Observed) × Bool
  unfolding baseline_of
  confirm_content_after between l k observed at = elim (baseline_of l k) [
    | none ↦ (between l, false)
    | some current ↦
        if current.matches observed
        then (confirm (between l) k current.hash at, false)
        else (between l, true)
  ]

  unfoldable pub confirm_content :
      Option (Latch Observed) → LatchKey → Observed → ℕ → Option (Latch Observed) × Bool
  unfolding confirm_content_after
  confirm_content l k observed at = confirm_content_after (λ x. x) l k observed at

  unfoldable pub confirmed_at : Option (Latch Observed) → LatchKey → String → Option ℕ
  unfolding recorded_at
  confirmed_at none k hash = none
  confirmed_at (some l) k hash = if hash == "" then none else recorded_at (l.confirmed k) hash
