-- ===== src/Sweep/Classify.antt =====
-- internal/sweep/classify.go, with the content hook of account_sweeper.go over the latch.
use flareway.Base.{
  ℕ, Bool, false, ◌||◌, ◌&&◌, not, Option, none, some, String, List, [], ◌∷◌, ◌++◌, if◌then◌else◌,
  any,
}
use flareway.Base.Classes.{◌==◌, string_eq}
use flareway.Base.Maps.{Map, get, put}
use flareway.Freshness.Latch.{Latch, confirm_content}

-- A namespace and a name.
abbrev pub NamespacedName : Type 0
NamespacedName = String × String

pub record LocalRef : Type 0 where
  pub kind : String
  pub key : NamespacedName
  pub uid : String
  pub remote_id : String
  pub expected_name : String
  pub spec_name : String
  pub scope : String

pub data DriftCase : Type 0 where
  orphan missing mismatch : DriftCase

-- The texts that a drift item gives as its reason.
pub data Reason : Type 0 where
  absent unowned content_differs : Reason
  name_differs : String → String → Reason
  extra_differs : String → Reason

pub record DriftItem : Type 0 where
  pub kind : String
  pub target_kind : String
  pub key : NamespacedName
  pub remote_id : String
  pub drift_case : DriftCase
  pub reason : Reason

-- `none` is a nil function. The content hook is contentCheckWith's, given by what it shows the matcher.
pub record ClassifyOptions (Remote Observed : Type 0) : Type 0 where
  pub kind : String
  pub id_of : Remote → String
  pub listed : LocalRef → Bool
  pub name_of : Remote → String
  pub name_equal : Option (String → String → Bool)
  pub extra : Option (LocalRef → Remote → String)
  pub observe : Option (Remote → Observed)
  pub orphan_of : Option (Remote → (String → Bool) → Option NamespacedName)

module _ {Remote Observed : Type 0} (opts : ClassifyOptions Remote Observed) (start : ℕ) where
  unfoldable pub name_reason : LocalRef → Remote → Option Reason
  name_reason ref remote =
      if ref.expected_name == ""
      then none
      else if elim opts.name_equal [
        | none ↦ opts.name_of remote == ref.expected_name
        | some equal ↦ equal (opts.name_of remote) ref.expected_name
      ]
      then none
      else some (name_differs (opts.name_of remote) ref.expected_name)

  unfoldable pub extra_reason : LocalRef → Remote → Option Reason
  extra_reason ref remote = elim opts.extra [
    | none ↦ none
    | some extra ↦ if extra ref remote == "" then none else some (extra_differs (extra ref remote))
  ]

  -- `true` is a mismatch. The latch is changed by a confirmation alone.
  unfoldable pub content_check :
      Option (Latch Observed) → LocalRef → Remote → Option (Latch Observed) × Bool
  content_check l ref remote = elim opts.observe [
    | none ↦ (l, false)
    | some observe ↦ confirm_content l (ref.kind, ref.key) (observe remote) start
  ]

  unfoldable pub match_reason :
      Option (Latch Observed) → LocalRef → Remote → Option (Latch Observed) × Option Reason
  match_reason l ref remote = elim (name_reason ref remote) [
    | some reason ↦ (l, some reason)
    | none ↦ elim (extra_reason ref remote) [
      | some reason ↦ (l, some reason)
      | none ↦
          let checked = content_check l ref remote in
          (checked.0, if checked.1 then some content_differs else none)
    ]
  ]

  -- The last remote object with an ID wins.
  unfoldable pub remote_by_id : List Remote → Map String Remote → Map String Remote
  remote_by_id [] m = m
  remote_by_id (remote ∷ remotes) m = remote_by_id remotes (put (opts.id_of remote) remote m)

  unfoldable pub is_claimed : List LocalRef → String → Bool
  is_claimed refs id = any (λ r. not (r.remote_id == "") && r.remote_id == id) refs

  abbrev pub drift_item : LocalRef → DriftCase → Reason → DriftItem
  drift_item ref c reason = record {
    kind = opts.kind;
    target_kind = ref.kind;
    key = ref.key;
    remote_id = ref.remote_id;
    drift_case = c;
    reason = reason;
  }

  -- The item of one local object, if it has drifted.
  unfoldable pub classify_ref :
      Map String Remote
      → Option (Latch Observed)
      → LocalRef
      → Option (Latch Observed) × List DriftItem
  classify_ref by_id l ref =
      if ref.remote_id == "" || not (opts.listed ref)
      then (l, [])
      else elim (get ref.remote_id by_id) [
        | none ↦ (l, drift_item ref missing absent ∷ [])
        | some remote ↦
            let matched = match_reason l ref remote in
            elim matched.1 [
              | none ↦ (matched.0, [])
              | some reason ↦ (matched.0, drift_item ref mismatch reason ∷ [])
            ]
      ]

  unfoldable pub classify_refs :
      Map String Remote
      → Option (Latch Observed)
      → List LocalRef
      → Option (Latch Observed) × List DriftItem
  classify_refs by_id l [] = (l, [])
  classify_refs by_id l (ref ∷ refs) =
      let one = classify_ref by_id l ref in
      let rest = classify_refs by_id one.0 refs in (rest.0, one.1 ++ rest.1)

  unfoldable pub classify_orphan : (String → Bool) → Remote → List DriftItem
  classify_orphan claimed remote =
      if opts.id_of remote == "" || claimed (opts.id_of remote) then [] else elim opts.orphan_of [
        | none ↦ []
        | some orphan_of ↦ elim (orphan_of remote claimed) [
          | none ↦ []
          | some key ↦
              record {
                kind = opts.kind;
                target_kind = opts.kind;
                key = key;
                remote_id = opts.id_of remote;
                drift_case = orphan;
                reason = unowned;
              }
              ∷ []
        ]
      ]

  unfoldable pub classify_orphans : (String → Bool) → List Remote → List DriftItem
  classify_orphans claimed [] = []
  classify_orphans claimed (remote ∷ remotes) =
      classify_orphan claimed remote ++ classify_orphans claimed remotes

  unfoldable pub classify :
      Option (Latch Observed)
      → List LocalRef
      → List Remote
      → Option (Latch Observed) × List DriftItem
  classify l refs remotes =
      let judged = classify_refs (remote_by_id remotes []) l refs in
      (judged.0, judged.1 ++ classify_orphans (is_claimed refs) remotes)
