-- ===== src/Client/Packet.antt =====
-- crates/fwknox-client/src/packet.rs, cli.rs and error.rs. Base64 and the parser of addresses are
-- parameters; the environment, the clock and the random bytes of one call are values.
use fwknox.Base.{
  ℕ, ◌%◌, Bool, not, Option, none, some, String, List, [], ◌∷◌, nat_beq, leb, length, ◌==◌, nat_eq,
  list_eq, Result, ok, err, ◌>>=◌, ◌>>◌, fail_if, ok_or, map_err, if◌then◌else◌,
}
use fwknox.Base.Int.{ℤ, of_bits, i64_mod}
use fwknox.Base.Text.{Text, codes, is_empty, split_on, trim}
use fwknox.Proto.Types.{Bytes, IpAddr, v4, PortProto, access, SpaPayload, ProtoError}
use fwknox.Proto.Crypto.{Crypto}
use fwknox.Proto.Packet.{build_packet}
use fwknox.Config.Types.{as_secs, FilePath}
use fwknox.Config.Parse.{parse_port_proto}
use fwknox.Config.Client.{ServerEntry, ClientConfigError, LoadError}

-- The arguments that say what is asked for; the others choose what is done with the packet.
pub record Cli : Type 0 where
  pub name : Option String
  pub destination : Option Text
  pub port : Option ℕ
  pub access : Option Text
  pub source_ip : Option Text
  pub username : Option String
  pub timeout : Option ℕ
  pub master_key_base64 : Option Text
  pub config : Option FilePath
  pub test : Bool
  pub generate_key : Bool

pub data ClientError : Type 0 where
  config_failed : LoadError ClientConfigError → ClientError
  proto_failed : ProtoError → ClientError
  io_failed : ClientError
  missing_argument : (what : String) → ClientError
  invalid_argument : (field : String) → ClientError
  unknown_server : String → ClientError

-- The crates and the standard library: `ring` and `rmp-serde`, base64, and `str::parse`.
pub record Tools : Type 0 where
  pub crypto : Crypto
  pub decode_b64 : Text → Option Bytes
  pub parse_ip : Text → Option IpAddr

-- What the system gives to one call: `$USER`, the seconds since the epoch, 0 for a clock before it,
-- and what `SystemRandom::fill` puts into the nonce.
pub record Surroundings : Type 0 where
  pub user : Option String
  pub unix : ℕ
  pub random : Option Bytes

unfoldable pub parse_tokens : List Text → Result ClientError (List PortProto)
parse_tokens [] = ok []
parse_tokens (raw ∷ tokens) =
    let token = trim raw in
    let rest = parse_tokens tokens in
    let all_of_them = do
      pp ← map_err (λ e. invalid_argument "access") (parse_port_proto token)
      pps ← rest
      ok (pp ∷ pps)
    in if is_empty token then rest else all_of_them

unfoldable pub parse_access_string : Text → Result ClientError (List PortProto)
parse_access_string s = do
  out ← parse_tokens (split_on 0x2c s)
  fail_if (is_empty out) (invalid_argument "access")
  ok out

unfoldable pub resolve_ports :
    Option Text → Option ServerEntry → Result ClientError (List PortProto)
resolve_ports (some s) server = parse_access_string s
resolve_ports none (some server) = ok server.access
resolve_ports none none = err (missing_argument "access (-A or via -n / --name)")

unfoldable pub resolve_username : Option String → Surroundings → String
resolve_username (some u) env = u
resolve_username none env = elim env.user [ some u ↦ u | none ↦ "fwknox" ]

-- `as_secs() as i64`
unfoldable pub current_unix : Surroundings → ℤ
current_unix env = of_bits (env.unix % i64_mod)

unfoldable pub random_nonce : Surroundings → Result ClientError Bytes
random_nonce env = ok_or env.random (invalid_argument "csprng")

-- `u32::try_from(n).ok()`
unfoldable pub as_u32 : ℕ → Option ℕ
as_u32 n = if leb n 4_294_967_295 then some n else none

unfoldable pub server_timeout : Option ServerEntry → Option ℕ
server_timeout none = none
server_timeout (some server) = elim server.fw_timeout [ none ↦ none | some d ↦ as_u32 (as_secs d) ]

-- `o.and_then(|t| u32::try_from(t).ok()).or_else(...)`
unfoldable pub resolve_timeout : Option ℕ → Option ServerEntry → Option ℕ
resolve_timeout none server = server_timeout server
resolve_timeout (some t) server = elim (as_u32 t) [ some n ↦ some n | none ↦ server_timeout server ]

module _ (t : Tools) where
  unfoldable pub decode_master_key : Text → Result ClientError Bytes
  decode_master_key b64 = do
    bytes ← ok_or (t.decode_b64 b64) (invalid_argument "master-key-base64")
    fail_if (not (nat_beq (length bytes) 32)) (invalid_argument "master-key-base64")
    ok bytes

  unfoldable pub resolve_master_key : Option Text → Option ServerEntry → Result ClientError Bytes
  resolve_master_key (some b64) server = decode_master_key b64
  resolve_master_key none (some server) = ok server.master_key
  resolve_master_key none none = err (missing_argument "master_key (-k or via -n / --name)")

  unfoldable pub server_source_ip : Option ServerEntry → Result ClientError IpAddr
  server_source_ip none = ok (v4 (127 ∷ 0 ∷ 0 ∷ 1 ∷ []))
  server_source_ip (some server) =
      if server.source_ip == codes "auto"
      then ok (v4 (127 ∷ 0 ∷ 0 ∷ 1 ∷ []))
      else ok_or (t.parse_ip server.source_ip) (invalid_argument "server.source_ip")

  unfoldable pub resolve_source_ip : Option Text → Option ServerEntry → Result ClientError IpAddr
  resolve_source_ip (some s) server = ok_or (t.parse_ip s) (invalid_argument "source-ip")
  resolve_source_ip none server = server_source_ip server

  unfoldable pub build_spa_packet :
      Surroundings → Cli → Option ServerEntry → Result ClientError Bytes
  build_spa_packet env cli server = do
    master_key ← resolve_master_key cli.master_key_base64 server
    ports ← resolve_ports cli.access server
    source_ip ← resolve_source_ip cli.source_ip server
    nonce ← random_nonce env
    let payload : SpaPayload = record {
      nonce = nonce;
      timestamp = current_unix env;
      username = resolve_username cli.username env;
      message = access source_ip ports;
      client_timeout = resolve_timeout cli.timeout server;
    }
    map_err proto_failed (build_packet t.crypto payload master_key)
