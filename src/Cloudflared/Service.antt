-- ===== src/Cloudflared/Service.antt =====
-- internal/cloudflared/compile.go: compileService, validateAddress and isHTTPService. A pointer to a
-- struct of one field is an Option of that field.
use flareway.Base.{
  ℕ, suc, Bool, true, false, not, ◌&&◌, ◌||◌, Option, none, some, List, [], ◌∷◌, ◌++◌,
  if◌then◌else◌, nat_beq,
}
use flareway.Base.Results.{Result, ok, err, ◌>>=◌, ◌>>◌, refuse_if}
use flareway.Base.Durations.{ℤ, pos, lt_ℤ}
use flareway.Base.Bytes.{Text, codes, is_empty, contains_code}
use flareway.Base.Cuts.{cut_code, cut_last}
use flareway.Base.Decimal.{parse_uint}
use flareway.Cloudflared.Ingress.{decimal_ℤ}
use flareway.Cloudflared.Errors.{
  CompileError, bad_address, bad_port, bad_unix_path, bad_status, not_one_service,
}

pub data ServiceKind : Type 0 where
  http : ServiceKind
  https : ServiceKind
  tcp : ServiceKind
  ssh : ServiceKind
  rdp : ServiceKind
  smb : ServiceKind
  unix : ServiceKind
  unix_tls : ServiceKind
  hello_world : ServiceKind
  http_status : ServiceKind
  bastion : ServiceKind

pub record TunnelIngressService : Type 0 where
  pub http : Option Text
  pub https : Option Text
  pub tcp : Option Text
  pub ssh : Option Text
  pub rdp : Option Text
  pub smb : Option Text
  pub unix : Option Text
  pub unix_tls : Option Text
  pub hello_world : Bool
  pub http_status : Option ℤ
  pub bastion : Bool

abbrev no_bracket : Text → Bool
no_bracket s = not (contains_code s b'[' || contains_code s b']')

-- net.SplitHostPort, for a host without and with brackets, before the last colon.
unfoldable pub plain_host : Text → Text → Option (Text × Text)
plain_host host port =
    if not (contains_code host b':') && (no_bracket host && no_bracket port)
    then some (host, port)
    else none

unfoldable pub bracketed_host : Text → Text → Option (Text × Text)
bracketed_host rest port = elim (cut_code b']' rest) [
  | none ↦ none
  | some (host, after) ↦
      if is_empty after && (not (contains_code host b'[') && no_bracket port)
      then some (host, port)
      else none
]

unfoldable pub split_at : Text → Text → Option (Text × Text)
split_at [] port = plain_host [] port
split_at (c ∷ rest) port =
    if nat_beq c b'[' then bracketed_host rest port else plain_host (c ∷ rest) port

unfoldable pub split_host_port : Text → Option (Text × Text)
split_host_port s = elim (cut_last b':' s) [
  | none ↦ none
  | some (before, port) ↦ split_at before port
]

unfoldable pub check_port : Option ℕ → Result CompileError (Unit {0})
check_port none = err bad_port
check_port (some port) = refuse_if (nat_beq port 0) bad_port

unfoldable pub check_parts : Option (Text × Text) → Result CompileError (Unit {0})
check_parts none = err bad_address
check_parts (some (host, port)) =
    refuse_if (is_empty host || is_empty port) bad_address >> check_port (parse_uint 65535 port)

unfoldable pub validate_address : Text → Result CompileError (Unit {0})
validate_address address = check_parts (split_host_port address)

-- filepath.IsAbs on a path that is not empty.
unfoldable pub validate_unix_path : Text → Result CompileError (Unit {0})
validate_unix_path [] = err bad_unix_path
validate_unix_path (c ∷ path) = refuse_if (not (nat_beq c b'/')) bad_unix_path

unfoldable pub validate_status : ℤ → Result CompileError (Unit {0})
validate_status code = refuse_if (lt_ℤ code (pos 100) || lt_ℤ (pos 599) code) bad_status

-- One of the services that may be set, with its wire form and whether it is valid.
pub record Choice : Type 0 where
  pub kind : ServiceKind
  pub wire : Option Text
  pub checked : Result CompileError (Unit {0})

pub record Selection : Type 0 where
  pub selected : ℕ
  pub wire : Text
  pub kind : Option ServiceKind

unfoldable pub choose : Choice → Option Text → Selection → Result CompileError Selection
choose c none s = ok s
choose c (some wire) s =
    c.checked >> ok (record { selected = suc s.selected; wire = wire; kind = some c.kind })

unfoldable pub choose_all : List Choice → Selection → Result CompileError Selection
choose_all [] s = ok s
choose_all (c ∷ cs) s = choose c c.wire s >>= choose_all cs

unfoldable pub address_choice : ServiceKind → Text → Option Text → Choice
address_choice kind scheme none = record { kind = kind; wire = none; checked = ok tt }
address_choice kind scheme (some address) = record {
  kind = kind;
  wire = some (scheme ++ (codes "://" ++ address));
  checked = validate_address address;
}

unfoldable pub unix_choice : ServiceKind → Text → Option Text → Choice
unix_choice kind scheme none = record { kind = kind; wire = none; checked = ok tt }
unix_choice kind scheme (some path) = record {
  kind = kind;
  wire = some (scheme ++ path);
  checked = validate_unix_path path;
}

unfoldable pub status_choice : Option ℤ → Choice
status_choice none = record { kind = ServiceKind.http_status; wire = none; checked = ok tt }
status_choice (some code) = record {
  kind = ServiceKind.http_status;
  wire = some (codes "http_status:" ++ decimal_ℤ code);
  checked = validate_status code;
}

unfoldable pub builtin_choice : ServiceKind → Text → Bool → Choice
builtin_choice kind wire set = record {
  kind = kind;
  wire = if set then some wire else none;
  checked = ok tt;
}

unfoldable pub address_choices : TunnelIngressService → List Choice
address_choices s =
    address_choice ServiceKind.http (codes "http") s.http
    ∷ address_choice ServiceKind.https (codes "https") s.https
    ∷ address_choice ServiceKind.tcp (codes "tcp") s.tcp
    ∷ address_choice ServiceKind.ssh (codes "ssh") s.ssh
    ∷ address_choice ServiceKind.rdp (codes "rdp") s.rdp
    ∷ address_choice ServiceKind.smb (codes "smb") s.smb
    ∷ []

unfoldable pub unix_choices : TunnelIngressService → List Choice
unix_choices s =
    unix_choice ServiceKind.unix (codes "unix:") s.unix
    ∷ unix_choice ServiceKind.unix_tls (codes "unix+tls:") s.unix_tls
    ∷ []

-- The services after the two loops.
unfoldable pub other_choices : TunnelIngressService → List Choice
other_choices s =
    builtin_choice ServiceKind.hello_world (codes "hello_world") s.hello_world
    ∷ status_choice s.http_status
    ∷ builtin_choice ServiceKind.bastion (codes "bastion") s.bastion
    ∷ []

abbrev pub nothing_selected : Selection
nothing_selected = record { selected = 0; wire = []; kind = none }

unfoldable pub one_selected : Selection → Result CompileError (Text × Option ServiceKind)
one_selected s =
    refuse_if (not (nat_beq s.selected 1)) (not_one_service s.selected) >> ok (s.wire, s.kind)

unfoldable pub compile_service :
    TunnelIngressService → Result CompileError (Text × Option ServiceKind)
compile_service service =
    choose_all (address_choices service) nothing_selected
    >>= choose_all (unix_choices service)
    >>= choose_all (other_choices service)
    >>= one_selected

unfoldable pub is_http_service : Option ServiceKind → Bool
is_http_service (some ServiceKind.http) = true
is_http_service (some ServiceKind.https) = true
is_http_service (some ServiceKind.unix) = true
is_http_service (some ServiceKind.unix_tls) = true
is_http_service other = false
