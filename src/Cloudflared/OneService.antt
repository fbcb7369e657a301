-- ===== src/Cloudflared/OneService.antt =====
-- That compileService takes a service exactly if it is the only one, and valid.
use flareway.Base.{◌≡◌, Option, none, some, List, [], ◌∷◌, ◌++◌}
use flareway.Base.Results.{ok}
use flareway.Base.Bytes.{Text}
use flareway.Cloudflared.Service.{
  ServiceKind, TunnelIngressService, Choice, address_choices, unix_choices, other_choices,
}

-- The services in the order in which they are looked at.
unfoldable pub all_choices : TunnelIngressService → List Choice
all_choices s = address_choices s ++ (unix_choices s ++ other_choices s)

abbrev pub NoneSet : List Choice → Type 0
NoneSet [] = Unit
NoneSet (c ∷ cs) = (c.wire ≡ none) × NoneSet cs

-- One service is set, and it is valid; the others are not set.
pub record OnlySet (cs : List Choice) (wire : Text) (kind : Option ServiceKind) : Type 0 where
  pub before : List Choice
  pub choice : Choice
  pub after : List Choice
  pub split : cs ≡ before ++ (choice ∷ after)
  pub unset : NoneSet before × NoneSet after
  pub wired : Choice.wire choice ≡ some wire
  pub valid : Choice.checked choice ≡ ok tt
  pub known : kind ≡ some (Choice.kind choice)
