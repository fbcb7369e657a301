-- ===== src/Freshness/Grades.antt =====
-- internal/freshness/grades.go: the one table that the gate and the drift sweep share.
use flareway.Base.{List, [], ◌∷◌, map, Option, String}
use flareway.Base.Classes.{string_eq}
use flareway.Base.Maps.{Map, get}
use flareway.Freshness.Policy.{Grade, authz, traffic, indirect}

abbrev pub grade_by_kind : Map String Grade
grade_by_kind =
    ("AccessApplication", authz)
    ∷ ("AccessStandaloneApplication", authz)
    ∷ ("AccessPolicy", authz)
    ∷ ("AccessGroup", authz)
    ∷ ("AccessCustomPage", authz)
    ∷ ("AccessInfrastructureTarget", authz)
    ∷ ("ServiceToken", authz)
    ∷ ("IdentityProvider", authz)
    ∷ ("CloudflareTunnel", traffic)
    ∷ ("DNSRecord", traffic)
    ∷ ("ZeroTrustGatewayPolicy", traffic)
    ∷ ("ZeroTrustList", traffic)
    ∷ ("VirtualNetwork", traffic)
    ∷ ("NetworkRoute", traffic)
    ∷ ("HostnameRoute", traffic)
    ∷ ("DeviceProfile", indirect)
    ∷ ("DevicePostureRule", indirect)
    ∷ ("DevicePostureIntegration", indirect)
    ∷ ("DeviceSettings", indirect)
    ∷ ("ZeroTrustOrganization", indirect)
    ∷ ("WARPConnector", indirect)
    ∷ []

-- `none` is the result whose second part is false.
unfoldable pub grade_for_kind : String → Option Grade
unfolding get
grade_for_kind kind = get kind grade_by_kind

unfoldable pub graded_kinds : List String
graded_kinds = map (λ r. r.0) grade_by_kind
