-- ===== src/Authz/Examples.antt =====
-- Runs of the grant evaluation on concrete inputs.
use mathlib.Core.List.{Memᴰ}
use flareway.Base.{
  ℕ, ◌≡◌, ◌↔◌, inl, inr, refl, Bool, true, false, Option, none, some, String, [], ◌∷◌,
}
use flareway.Base.Classes.{◌==◌, string_eq, nat_eq, list_eq}
use flareway.Base.Bytes.{
  codes, has_prefix, trim_prefix, cut_prefix, has_suffix, trim_suffix, cut_suffix, trim_space,
  drop_spaces, is_space, contains_code,
}
use flareway.Authz.Names.{
  normalize_dns_name, hostname_matches, matches_normalized, matches_suffix, is_label,
}
use flareway.Authz.Covers.{Covers, hostname_matches-Covers}
use flareway.Authz.Grants.{Namespace, Request, Grant, evaluate}
use flareway.Authz.Decisions.{Opens, evaluate_allowed_iff}

abbrev same : ℕ → ℕ
same c = c

-- A selector is a name, and the labels are the namespace's.
abbrev by_name : String → String → Option Bool
by_name selector labels = some (selector == labels)

wildcard_covers : hostname_matches same (codes "*.example.com.") (codes " app.example.com") ≡ true
unfolding hostname_matches matches_normalized matches_suffix is_label normalize_dns_name trim_suffix
    cut_suffix cut_prefix has_suffix has_prefix trim_prefix trim_space drop_spaces is_space
    contains_code
wildcard_covers = refl

apex_not_covered : hostname_matches same (codes "*.example.com") (codes "example.com") ≡ false
unfolding hostname_matches matches_normalized matches_suffix is_label normalize_dns_name trim_suffix
    cut_suffix cut_prefix has_suffix has_prefix trim_prefix trim_space drop_spaces is_space
    contains_code
apex_not_covered = refl

hostname_matches-Covers_example :
    (hostname_matches same (codes "*.example.com") (codes "app.example.com") ≡ true)
    ↔ Covers
        (normalize_dns_name same (codes "*.example.com"))
        (normalize_dns_name same (codes "app.example.com"))
hostname_matches-Covers_example =
    hostname_matches-Covers same (codes "*.example.com") (codes "app.example.com")

abbrev team : Namespace String String
team = record { name = "team"; labels = "team" }

-- A request to use a platform Access policy, and nothing else.
abbrev policy_request : Request String String
policy_request = record {
  hostname = [];
  zone = [];
  exposure = "";
  unprotected = false;
  access_policy_ref = true;
  access_custom_page_ref = false;
  device_posture_integration_ref = false;
  platform_object = false;
  private_route = none;
  backend = none;
}

abbrev closed_grant : Grant String String
closed_grant = record {
  namespace_selector = "team";
  hostnames = [];
  zones = [];
  exposures = [];
  unprotected_hostnames = [];
  access_policy_refs = "";
  access_custom_page_refs = "";
  device_posture_integration_refs = "";
  platform_objects = "";
  private_routes = none;
  backends = none;
}

abbrev open_grant : Grant String String
open_grant = record closed_grant { access_policy_refs = "Allowed" }

open_grant-Opens : Opens same by_name team policy_request open_grant
open_grant-Opens = (
  refl,
  record {
    hostname = inl refl;
    zone = inl refl;
    exposure = inl refl;
    unprotected = inl refl;
    policy = inr refl;
    custom_page = inl refl;
    posture = inl refl;
    platform = inl refl;
    route = inl refl;
    backend = inl refl;
  },
)

closed_grant-Opens : Opens same by_name team policy_request closed_grant → ⊥
closed_grant-Opens (s, p) = elim p.policy [ inl e ↦ cc | inr e ↦ cc ]

evaluate_allowed_iff_example :
    ((evaluate same by_name
        (some (closed_grant ∷ open_grant ∷ []))
        (some team)
        policy_request).allowed
      ≡ true)
    ↔ ((g : Grant String String) × Memᴰ g (closed_grant ∷ open_grant ∷ [])
        × Opens same by_name team policy_request g)
evaluate_allowed_iff_example =
    evaluate_allowed_iff same by_name team policy_request (closed_grant ∷ open_grant ∷ [])
