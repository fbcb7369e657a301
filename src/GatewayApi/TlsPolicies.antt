-- ===== src/GatewayApi/TlsPolicies.antt =====
-- internal/gatewayapi/backends.go: the BackendTLSPolicy of a Service port. AppendCertsFromPEM is a
-- parameter, and the texts of errors are left out.
use flareway.Base.{
  Bool, not, ◌&&◌, ◌||◌, Option, none, some, ℕ, String, List, [], ◌∷◌, ◌++◌, if◌then◌else◌,
}
use flareway.Base.Classes.{◌==◌, string_eq}
use flareway.Base.Bytes.{Text, codes, is_empty}
use flareway.Base.Durations.{pos, int_eq}
use flareway.Base.Comparisons.{compare_text, compare_times, below}
use flareway.Base.Sorting.{sort}

pub record ServicePort : Type 0 where
  pub name : String
  pub port : ℕ
  pub app_protocol : Option Text

pub record Service : Type 0 where
  pub namespace : String
  pub name : String
  pub is_external_name : Bool
  pub ports : List ServicePort

pub record TargetRef : Type 0 where
  pub group : String
  pub kind : String
  pub name : String
  pub section_name : Option String

pub record CertificateRef : Type 0 where
  pub group : String
  pub kind : String
  pub name : String

pub record BackendTlsPolicy : Type 0 where
  pub namespace : String
  pub name : String
  pub creation : ℕ
  pub target_refs : List TargetRef
  pub well_known : Option String
  pub ca_certificate_refs : List CertificateRef

-- The entry ca.crt of Data and of BinaryData, empty if it is missing.
pub record ConfigMap : Type 0 where
  pub namespace : String
  pub name : String
  pub data_entry : Text
  pub binary_entry : Text

pub data TlsError : Type 0 where
  unsupported_well_known : TlsError
  no_certificate_source : TlsError
  not_a_config_map : TlsError
  missing_certificate : TlsError
  malformed_certificate : TlsError

unfoldable pub names_service : Service → TargetRef → Bool
names_service service target =
    (target.group == "") && ((target.kind == "Service") && (target.name == service.name))

-- The matches of sections and of whole Services.
abbrev pub Matched : Type 0
Matched = List BackendTlsPolicy × List BackendTlsPolicy

-- The loop over the targets of one policy, which a whole Service ends.
unfoldable pub match_targets :
    Service → ServicePort → BackendTlsPolicy → List TargetRef → Matched → Matched
match_targets service port policy [] matched = matched
match_targets service port policy (target ∷ targets) (sections, wholes) =
    let rest = match_targets service port policy targets (sections, wholes) in
    let more = match_targets service port policy targets (sections ++ (policy ∷ []), wholes) in
    if not (names_service service target) then rest else elim target.section_name [
      | none ↦ (sections, wholes ++ (policy ∷ []))
      | some section ↦ if section == port.name then more else rest
    ]

unfoldable pub match_policies : Service → ServicePort → List BackendTlsPolicy → Matched → Matched
match_policies service port [] matched = matched
match_policies service port (policy ∷ policies) matched = match_policies service port policies (
    if policy.namespace == service.namespace
    then match_targets service port policy policy.target_refs matched
    else matched)

-- By creation, then by namespace and name.
unfoldable pub policy_le : BackendTlsPolicy → BackendTlsPolicy → Bool
policy_le a b =
    let times = compare_times a.creation b.creation in
    below (
      if not (times == pos 0)
      then times
      else compare_text (codes a.namespace ++ (b'/' ∷ codes a.name))
          (codes b.namespace ++ (b'/' ∷ codes b.name)))

unfoldable pub prefer_sections : Matched → List BackendTlsPolicy
prefer_sections ([], wholes) = wholes
prefer_sections (section ∷ sections, wholes) = section ∷ sections

unfoldable pub matching_backend_tls_policies :
    List BackendTlsPolicy → Service → ServicePort → List BackendTlsPolicy
matching_backend_tls_policies policies service port =
    sort policy_le (prefer_sections (match_policies service port policies ([], [])))

abbrev pub first_of {ℓ} : {A : Type ℓ} → List A → Option A
first_of [] = none
first_of (x ∷ xs) = some x

unfoldable pub winning_backend_tls_policy :
    List BackendTlsPolicy → Service → ServicePort → Option BackendTlsPolicy
winning_backend_tls_policy policies service port =
    first_of (matching_backend_tls_policies policies service port)

unfoldable pub find_config_map : List ConfigMap → String → String → Option ConfigMap
find_config_map [] namespace name = none
find_config_map (m ∷ maps) namespace name =
    let rest = find_config_map maps namespace name in
    if (m.namespace == namespace) && (m.name == name) then some m else rest

unfoldable pub config_map_ca_bundle : Option ConfigMap → Text
config_map_ca_bundle none = []
config_map_ca_bundle (some m) = if is_empty m.data_entry then m.binary_entry else m.data_entry

module _ (is_pem : Text → Bool) (config_maps : List ConfigMap) where
  unfoldable pub certificates_error : String → List CertificateRef → Option TlsError
  certificates_error namespace [] = none
  certificates_error namespace (ref ∷ refs) =
      let rest = certificates_error namespace refs in
      let bundle = config_map_ca_bundle (find_config_map config_maps namespace ref.name) in
      if not (ref.group == "") || not (ref.kind == "ConfigMap")
      then some not_a_config_map
      else if is_empty bundle
      then some missing_certificate
      else if not (is_pem bundle)
      then some malformed_certificate
      else rest

  unfoldable pub backend_tls_policy_validation_error : BackendTlsPolicy → Option TlsError
  backend_tls_policy_validation_error policy = elim policy.well_known [
    | some known ↦ if known == "System" then none else some unsupported_well_known
    | none ↦ elim policy.ca_certificate_refs [
      | [] ↦ some no_certificate_source
      | ref ∷ refs ↦ certificates_error policy.namespace (ref ∷ refs)
    ]
  ]
