-- ===== src/Daemon/Boot.antt =====
-- The programs bin/fwknoxd.rs and bin/fwknoxd-mock.rs of crates/fwknox-daemon, from the configuration
-- to the main loop. What the system gives is a record of values, the process is that of the
-- sandbox's kernel, and the backend is the host's, in the state that `new` gives it.
use fwknox.Base.{
  ℕ, Bool, true, false, Option, none, some, List, [], ◌∷◌, Result, ok, err, if◌then◌else◌, map_err,
  nat_eq, ◌==◌,
}
use fwknox.Base.Action.{Action, ◌>>=◌, ◌>>◌, pure, gets, call}
use fwknox.Base.Lru.{Lru}
use fwknox.Base.Text.{Text, codes}
use fwknox.Config.Types.{
  root_dir, cur_dir, parent_dir, normal, FilePath, FirewallKind, nftables, iptables, DaemonConfig,
}
use fwknox.Config.Validate.{ConfigError, validate}
use fwknox.Config.Client.{LoadError, load_config}
use fwknox.Replay.Cache.{
  default_max_entries, ReplayError, Store, with_capacity, set_persist_path, load_from_file,
}
use fwknox.Replay.File.{FileRead, read_cache_file}
use fwknox.RateLimit.Key.{SourceKey}
use fwknox.RateLimit.Bucket.{Float, TokenBucket}
use fwknox.RateLimit.Limiter.{with_clock}
use fwknox.Firewall.Backend.{FirewallError, unsupported}
use fwknox.Sandbox.System.{System, SandboxError, cap_net_admin}
use fwknox.Sandbox.Steps.{is_root}
use fwknox.Sandbox.Apply.{SandboxConfig, apply}
use fwknox.Daemon.Host.{Host, State, Moment}
use fwknox.Daemon.Privsep.{CryptoMsg}
use fwknox.Daemon.Pipeline.{DaemonError}
use fwknox.Daemon.Run.{Poll, run}
use fwknox.Workers.Ipc.{IoKind, Codec}
use fwknox.Workers.Parent.{StartError, daemon, ParentTurn, run_privsep}

-- `DaemonError`, as far as the programs give it before the main loop.
pub data BootError : Type 0 where
  config_error : LoadError ConfigError → BootError
  firewall_error : FirewallError → BootError
  io_error : IoKind → BootError
  replay_error : ReplayError → BootError
  sandbox_error : SandboxError → BootError

-- What the system gives on the way, and then to the rounds of the loop.
pub record Launch : Type 0 where
  pub config_path : FilePath
  pub config_text : Option Text
  pub bound : Result IoKind (Unit {0})
  pub cache_exists : Bool
  pub cache_read : FileRead
  pub limiter_now : ℕ
  pub handlers : Result IoKind (Unit {0})
  pub polls : List Poll
  pub set_up : Bool
  pub turns : List ParentTurn
  pub last : Moment

-- `Path::parent`, of the components: a root and an empty path have none.
unfoldable pub parent : FilePath → Option FilePath
parent [] = none
parent (root_dir ∷ []) = none
parent (cur_dir ∷ []) = some []
parent (parent_dir ∷ []) = some []
parent (normal s ∷ []) = some []
parent (c ∷ d ∷ path) = elim (parent (d ∷ path)) [ none ↦ some (c ∷ []) | some p ↦ some (c ∷ p) ]

abbrev or_current : Option FilePath → FilePath
or_current none = cur_dir ∷ []
or_current (some path) = path

unfoldable pub parent_or_current : FilePath → FilePath
parent_or_current path = or_current (parent path)

-- The choice of the backend: only one is shipped.
unfoldable pub choose_backend : FirewallKind → Result BootError (Unit {0})
choose_backend nftables = ok tt
choose_backend iptables =
    err (firewall_error (unsupported (codes "iptables backend (Phase 3 ships only nftables)")))

unfoldable pub cache_capacity : DaemonConfig → ℕ
cache_capacity config = if config.replay.max_entries == 0 then 1 else config.replay.max_entries

-- The places of the replay cache: those that are configured count for a new one only.
abbrev pub loaded_capacity : Launch → DaemonConfig → ℕ
loaded_capacity launch config =
    if launch.cache_exists then default_max_entries else cache_capacity config

module _ (sys : System) where
  unfoldable pub sandbox_config : DaemonConfig → sys.Process → SandboxConfig
  sandbox_config config p = record {
    keep_caps = cap_net_admin ∷ [];
    drop_to =
        if is_root sys p
        then some (record { user = config.daemon.run_user; group = config.daemon.run_group })
        else none;
    landlock =
        if config.daemon.landlock_enabled
        then some (record {
          read_only = [];
          read_write = parent_or_current config.replay.cache_path ∷ [];
        })
        else none;
  }

  unfoldable pub apply_sandbox : DaemonConfig → Action sys.Process BootError (Unit {0})
  apply_sandbox config = call sandbox_error (λ p. apply sys (sandbox_config config p) p)

  unfoldable pub protect_if : Bool → DaemonConfig → Action sys.Process BootError (Unit {0})
  protect_if true config = apply_sandbox config
  protect_if false config = pure tt

module _ (host : Host) where
  unfoldable pub open_cache : Launch → DaemonConfig → Result ReplayError (Store host.lru)
  open_cache launch config =
      if launch.cache_exists
      then load_from_file host.lru (read_cache_file config.replay.cache_path launch.cache_read)
      else ok (with_capacity host.lru (cache_capacity config) [])

  unfoldable pub with_path :
      FilePath → Result ReplayError (Store host.lru) → Result BootError (Store host.lru)
  with_path path (ok store) = ok (set_persist_path host.lru path store)
  with_path path (err e) = err (replay_error e)

  unfoldable pub load_cache : Launch → DaemonConfig → Result BootError (Store host.lru)
  load_cache launch config = with_path config.replay.cache_path (open_cache launch config)

module _ (sys : System) (host : Host) (new_backend : host.firewall.State) (f : Float)
    (l : Lru SourceKey (TokenBucket f)) (c : Codec CryptoMsg)
    (from_str : Text → Option DaemonConfig) where
  -- What `run` leaves and returns, once it returns.
  abbrev pub Served : Type 0
  Served = Option (State host × Result StartError (Unit {0}))

  abbrev from_run : Option (State host × Result DaemonError (Unit {0})) → Served
  from_run none = none
  from_run (some (s, ok u)) = some (s, ok u)
  from_run (some (s, err e)) = some (s, err (daemon e))

  abbrev pub booted : Store host.lru → State host
  booted store = record { replay = store; rules = new_backend }

  unfoldable pub with_handlers : Result IoKind (Unit {0}) → Served → Result BootError Served
  with_handlers (ok u) served = ok served
  with_handlers (err e) served = err (io_error e)

  unfoldable pub dispatch :
      (enable_privsep : Bool) → Launch → DaemonConfig → Store host.lru → Result BootError Served
  dispatch true launch config store =
      ok (run_privsep host config c launch.set_up launch.turns launch.last (booted store))
  dispatch false launch config store = with_handlers launch.handlers (
      from_run (
        run host f l config launch.polls launch.last
          (with_clock f l config.rate_limit launch.limiter_now) (booted store)))

  unfoldable pub load : Launch → Result BootError DaemonConfig
  load launch =
      map_err config_error (load_config from_str validate launch.config_path launch.config_text)

  unfoldable pub real_main : Launch → Action sys.Process BootError Served
  real_main launch = do
    config ← gets (λ p. load launch)
    gets (λ p. choose_backend config.daemon.firewall_backend)
    gets (λ p. map_err io_error launch.bound)
    store ← gets (λ p. load_cache host launch config)
    protect_if sys config.daemon.enable_sandbox config
    gets (λ p. dispatch config.daemon.enable_privsep launch config store)

  -- The program for tests makes its backend whatever the configuration says, and no sandbox.
  unfoldable pub mock_main : Launch → Action sys.Process BootError Served
  mock_main launch = do
    config ← gets (λ p. load launch)
    gets (λ p. map_err io_error launch.bound)
    store ← gets (λ p. load_cache host launch config)
    gets (λ p. dispatch config.daemon.enable_privsep launch config store)
