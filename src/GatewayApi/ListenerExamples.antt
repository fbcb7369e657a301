-- ===== src/GatewayApi/ListenerExamples.antt =====
-- Two listeners of one port, a wildcard and a name under it.
use mathlib.Core.List.{Memᴰ}
use flareway.Base.{◌≡◌, refl, arith, true, false, some, List, [], ◌∷◌}
use flareway.Base.Bytes.{
  Text, codes, has_prefix, cut_prefix, trim_prefix, has_suffix, trim_suffix, cut_suffix,
  byte_length, width,
}
use flareway.GatewayApi.Hostname.{wildcard_hostname_matches_hostname}
use flareway.GatewayApi.Listeners.{
  ListenerTranslation, no_conflicts, hostname_conflicts, listener_conflict_reason, mark,
  mark_against, mark_from, mark_conflicts, hostname_matches, listener_hostname_specificity,
  is_passed, listener_claims_host,
}
use flareway.GatewayApi.Claims.{IsRival}
use flareway.GatewayApi.Claimants.{IsHostname, one_listener_claims}
use flareway.GatewayApi.Served.{some_listener_claims}

abbrev any_app : ListenerTranslation
any_app = record {
  position = 0;
  spec = record { port = 443; protocol = codes "HTTPS"; hostname = some (codes "*.example.com") };
  has_ir = true;
  accepted = true;
  conflicted = false;
  conflict_reason = no_conflicts;
}

abbrev one_app : ListenerTranslation
one_app = record {
  position = 1;
  spec = record { port = 443; protocol = codes "HTTPS"; hostname = some (codes "a.example.com") };
  has_ir = true;
  accepted = true;
  conflicted = false;
  conflict_reason = no_conflicts;
}

abbrev app_host : Text
app_host = codes "a.example.com"

abbrev both : List ListenerTranslation
both = any_app ∷ one_app ∷ []

both_unmarked : mark_conflicts both ≡ both
unfolding mark_conflicts mark_from mark_against mark listener_conflict_reason hostname_conflicts
both_unmarked = refl

any_app-IsRival :
    (c : ListenerTranslation)
    → c.spec.port ≡ 443
    → c.spec.protocol ≡ codes "HTTPS"
    → IsRival any_app c app_host
unfolding hostname_matches has_prefix cut_prefix wildcard_hostname_matches_hostname trim_prefix
    has_suffix trim_suffix cut_suffix
any_app-IsRival c p q = record {
  programmed = refl;
  is_accepted = refl;
  unconflicted = refl;
  same_port = cc;
  same_protocol = cc;
  matching = refl;
}

one_app-IsRival :
    (c : ListenerTranslation)
    → c.spec.port ≡ 443
    → c.spec.protocol ≡ codes "HTTPS"
    → IsRival one_app c app_host
unfolding hostname_matches
one_app-IsRival c p q = record {
  programmed = refl;
  is_accepted = refl;
  unconflicted = refl;
  same_port = cc;
  same_protocol = cc;
  matching = refl;
}

any_app-IsHostname : IsHostname any_app.spec.hostname
unfolding byte_length width
any_app-IsHostname = (λ e. cc, omega arith)

one_app-IsHostname : IsHostname one_app.spec.hostname
unfolding byte_length width
one_app-IsHostname = (λ e. cc, omega arith)

one_app_claims : listener_claims_host one_app app_host (mark_conflicts both) ≡ true
unfolding mark_conflicts mark_from mark_against mark listener_conflict_reason hostname_conflicts
    listener_claims_host is_passed hostname_matches listener_hostname_specificity has_prefix
    cut_prefix wildcard_hostname_matches_hostname trim_prefix has_suffix trim_suffix cut_suffix
    byte_length width
one_app_claims = refl

any_app_member : Memᴰ any_app (mark_conflicts both)
unfolding mark_conflicts mark_from mark_against mark listener_conflict_reason hostname_conflicts
any_app_member = Memᴰ.head refl

one_app_member : Memᴰ one_app (mark_conflicts both)
unfolding mark_conflicts mark_from mark_against mark listener_conflict_reason hostname_conflicts
one_app_member = Memᴰ.tail (Memᴰ.head refl)

one_listener_claims_example : listener_claims_host any_app app_host (mark_conflicts both) ≡ false
one_listener_claims_example =
    one_listener_claims both app_host one_app any_app one_app_member any_app_member (λ e. cc)
      (one_app-IsRival any_app refl refl) (any_app-IsRival one_app refl refl) one_app-IsHostname
      any_app-IsHostname one_app_claims

some_listener_claims_example :
    (y : ListenerTranslation) × Memᴰ y both
    × IsRival y any_app app_host
    × (listener_claims_host y app_host both ≡ true)
some_listener_claims_example =
    some_listener_claims both app_host any_app (Memᴰ.head refl) (any_app-IsRival any_app refl refl)
