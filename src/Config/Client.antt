-- ===== src/Config/Client.antt =====
-- crates/fwknox-config/src/client.rs and the loaders of load.rs. Reading a file and TOML are
-- parameters.
use fwknox.Base.{
  ℕ, Bool, Option, none, some, String, List, [], ◌∷◌, ◌==◌, any, nat_beq, nat_eq, string_eq,
  list_eq, Result, ok, err, ◌>>◌, fail_if, if◌then◌else◌,
}
use fwknox.Base.Text.{Text, codes, is_empty, trim}
use fwknox.Proto.Types.{Bytes, PortProto}
use fwknox.Config.Types.{Duration, FilePath}

pub data ClientTransport : Type 0 where
  udp_transport tcp_transport http_transport : ClientTransport

pub record DefaultsSection : Type 0 where
  pub transport : ClientTransport
  pub resolve_ip : Bool
  pub verbose : Bool

pub record ServerEntry : Type 0 where
  pub name : String
  pub destination : Text
  pub port : ℕ
  pub access : List PortProto
  pub master_key : Bytes
  pub fw_timeout : Option Duration
  pub source_ip : Text

pub record ClientConfig : Type 0 where
  pub defaults : DefaultsSection
  pub servers : List ServerEntry

abbrev pub default_port : ℕ
default_port = 62_201

abbrev pub default_source_ip : Text
default_source_ip = codes "auto"

-- The texts that `ClientConfig::validate` puts into its error, with the server that they name.
pub data ClientConfigError : Type 0 where
  duplicate_server : String → ClientConfigError
  empty_access : String → ClientConfigError
  empty_destination : String → ClientConfigError
  port_zero : String → ClientConfigError

-- The loop, with the names seen so far.
unfoldable pub validate_servers :
    (seen : List String) → List ServerEntry → Result ClientConfigError (Unit {0})
validate_servers seen [] = ok tt
validate_servers seen (s ∷ servers) = do
  fail_if (any (λ n. n == s.name) seen) (duplicate_server s.name)
  fail_if (is_empty s.access) (empty_access s.name)
  fail_if (is_empty (trim s.destination)) (empty_destination s.name)
  fail_if (nat_beq s.port 0) (port_zero s.name)
  validate_servers (s.name ∷ seen) servers

unfoldable pub validate_client : ClientConfig → Result ClientConfigError (Unit {0})
validate_client c = validate_servers [] c.servers

unfoldable pub find_by_server : String → List ServerEntry → Option ServerEntry
find_by_server name [] = none
find_by_server name (s ∷ servers) =
    let later = find_by_server name servers in if s.name == name then some s else later

unfoldable pub find_server : ClientConfig → String → Option ServerEntry
find_server c name = find_by_server name c.servers

-- What ends a load: the file, its syntax, or `validate`.
pub data LoadError (E : Type 0) : Type 0 where
  unreadable : FilePath → LoadError E
  bad_toml : FilePath → LoadError E
  invalid : E → LoadError E

-- `load_daemon_config` and `load_client_config`: `text` is what `fs::read_to_string` gives.
unfoldable pub load_config :
    {C E : Type 0}
    → (from_str : Text → Option C) → (validate : C → Result E (Unit {0})) → FilePath
    → (text : Option Text) → Result (LoadError E) C
load_config from_str validate path none = err (unreadable path)
load_config from_str validate path (some text) = elim (from_str text) [
  | none ↦ err (bad_toml path)
  | some cfg ↦ elim (validate cfg) [ ok u ↦ ok cfg | err e ↦ err (invalid e) ]
]
