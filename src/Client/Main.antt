-- ===== src/Client/Main.antt =====
-- `real_main` of crates/fwknox-client/src/bin/fwknox.rs, keygen.rs and send.rs. What is printed and
-- sent is the result.
use fwknox.Base.{
  ℕ, Option, none, some, String, [], ◌∷◌, Result, ok, err, ◌>>=◌, ok_or, map_err, ◌++◌,
  if◌then◌else◌,
}
use fwknox.Base.Text.{Text}
use fwknox.Proto.Types.{Bytes}
use fwknox.Config.Types.{FilePath, normal}
use fwknox.Config.Client.{ServerEntry, ClientConfig, ClientConfigError, LoadError, find_server}
use fwknox.Client.Packet.{
  Cli, ClientError, config_failed, missing_argument, invalid_argument, unknown_server, Tools,
  Surroundings, build_spa_packet,
}

-- What the client does: it prints a new key or the packet, or sends the packet to a host and port.
pub data Effect : Type 0 where
  print_key : Bytes → Effect
  print_packet : Bytes → Effect
  send : Bytes → (destination : Text) → (port : ℕ) → Effect

-- `load_client_config` on the file system, `$HOME`, and the random bytes of a new key.
pub record System : Type 0 where
  pub load : FilePath → Result (LoadError ClientConfigError) ClientConfig
  pub home : Option FilePath
  pub key_bytes : Option Bytes

unfoldable pub default_client_config_path : Option FilePath → FilePath
default_client_config_path none = normal "fwknox.toml" ∷ []
default_client_config_path (some home) =
    home ++ (normal ".config" ∷ normal "fwknox" ∷ normal "fwknox.toml" ∷ [])

unfoldable pub config_path : System → Option FilePath → FilePath
config_path sys (some path) = path
config_path sys none = default_client_config_path sys.home

unfoldable pub load_server_entry :
    System → Option String → Option FilePath → Result ClientError (Option ServerEntry)
load_server_entry sys none path = ok none
load_server_entry sys (some name) path = do
  cfg ← map_err config_failed (sys.load (config_path sys path))
  server ← ok_or (find_server cfg name) (unknown_server name)
  ok (some server)

unfoldable pub resolve_destination : Option Text → Option ServerEntry → Result ClientError Text
resolve_destination (some d) server = ok d
resolve_destination none (some server) = ok server.destination
resolve_destination none none = err (missing_argument "destination (-D or via -n / --name)")

unfoldable pub resolve_port : Option ℕ → Option ServerEntry → ℕ
resolve_port (some p) server = p
resolve_port none (some server) = server.port
resolve_port none none = 62_201

unfoldable pub generate_master_key : System → Result ClientError Bytes
generate_master_key sys = ok_or sys.key_bytes (invalid_argument "csprng")

module _ (t : Tools) (sys : System) where
  -- Without `--generate-key`.
  unfoldable pub packet_effect : Surroundings → Cli → Result ClientError Effect
  packet_effect env cli = do
    server ← load_server_entry sys cli.name cli.config
    destination ← resolve_destination cli.destination server
    wire ← build_spa_packet t env cli server
    ok (
        if cli.test
        then print_packet wire
        else send wire destination (resolve_port cli.port server))

  unfoldable pub real_main : Surroundings → Cli → Result ClientError Effect
  real_main env cli =
      let new_key = do key ← generate_master_key sys; ok (print_key key)
      in if cli.generate_key then new_key else packet_effect env cli
