-- ===== src/Daemon/BootTests.antt =====
-- Starts of the program at the small kernel: as a user, and as root.
use fwknox.Base.{◌≡◌, refl, true, false, some, [], ok, err, nat_eq, list_eq, Option}
use fwknox.Base.Action.{◌>>=◌, pure, gets, call}
use fwknox.Base.Text.{Text, codes}
use fwknox.Base.Lru.{list_lru, list_lru-IsLru}
use fwknox.Config.Types.{DaemonConfig}
use fwknox.Config.Sample.{config}
use fwknox.Config.Validate.{
  validate, validate_stanzas, validate_stanza, validate_durations, validate_duration,
  validate_replay_cache_path, validate_rate_limit,
}
use fwknox.Config.Client.{load_config}
use fwknox.Replay.Cache.{Store, with_capacity, set_persist_path}
use fwknox.Replay.File.{missing}
use fwknox.RateLimit.Key.{key_eq}
use fwknox.RateLimit.Sample.{numbers}
use fwknox.Firewall.Mock.{MockState}
use fwknox.Sandbox.Toy.{user, root, toy_system, toy_seen, toy-HasCapabilities}
use fwknox.Workers.Sample.{crypto_codec}
use fwknox.Daemon.Sample.{host, moment}
use fwknox.Workers.Parent.{run_privsep}
use fwknox.Sandbox.Steps.{is_root, drop_all_except, drop_each, drop_from, looked_at}
use fwknox.Sandbox.Apply.{apply, drop_user, restrict_files}
use fwknox.Daemon.Boot.{
  Launch, Served, BootError, load, real_main, choose_backend, load_cache, open_cache, with_path,
  cache_capacity, protect_if, apply_sandbox, sandbox_config, dispatch,
}
use fwknox.Daemon.Ready.{IsReady, real_main-IsReady, real_main-stranded}

abbrev pub new_rules : MockState
new_rules = record { initialized = false; next_id = 0; rules = [] }

abbrev pub from_str : Text → Option DaemonConfig
from_str text = some config

abbrev pub launch : Launch
launch = record {
  config_path = [];
  config_text = some (codes "");
  bound = ok tt;
  cache_exists = false;
  cache_read = missing;
  limiter_now = 0;
  handlers = ok tt;
  polls = [];
  set_up = true;
  turns = [];
  last = moment;
}

abbrev pub store : Store list_lru
store = record { inner = (10_000, []); persist_path = some config.replay.cache_path; disk = [] }

abbrev pub served : Served toy_system host new_rules numbers list_lru crypto_codec from_str
served =
    run_privsep host config crypto_codec true [] moment
      (record { replay = store; rules = new_rules })

validation : Unit {0}
unfolding validate validate_stanzas validate_stanza validate_durations validate_duration
    validate_replay_cache_path validate_rate_limit
validation = tt

pub validated : validate config ≡ ok tt
unfolding validation
validated = refl

pub loaded :
    load toy_system host new_rules numbers list_lru crypto_codec from_str launch ≡ ok config
unfolding load load_config validation
loaded = refl

as_user :
    (real_main toy_system host new_rules numbers list_lru crypto_codec from_str launch user).1
    ≡ ok served
unfolding real_main load load_config validation choose_backend load_cache open_cache with_capacity
    with_path set_persist_path cache_capacity protect_if apply_sandbox sandbox_config is_root apply
    drop_all_except drop_each drop_from looked_at drop_user restrict_files dispatch pure gets call
    ◌>>=◌
as_user = refl

real_main-IsReady_example :
    (c : DaemonConfig) × (s : Store list_lru) × IsReady toy_system host list_lru-IsLru new_rules
      numbers list_lru crypto_codec from_str launch served c s
real_main-IsReady_example =
    real_main-IsReady toy_system host list_lru-IsLru new_rules numbers list_lru crypto_codec
      from_str launch user as_user

root-is_root : is_root toy_system root ≡ true
unfolding is_root
root-is_root = refl

real_main-stranded_example :
    (e : BootError) × ((real_main toy_system host new_rules numbers list_lru crypto_codec from_str
        launch root).1
      ≡ err e)
real_main-stranded_example =
    real_main-stranded toy_system host list_lru-IsLru new_rules numbers list_lru crypto_codec
      from_str toy_seen launch config root toy-HasCapabilities refl root-is_root loaded refl
