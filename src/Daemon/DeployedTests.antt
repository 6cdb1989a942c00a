-- ===== src/Daemon/DeployedTests.antt =====
-- A run of the program from its start, to a packet that comes twice.
use fwknox.Base.{◌≡◌, ◌<◌, refl, true, false, List, [], ◌∷◌, ok, nat_eq, list_eq, arith}
use fwknox.Base.Text.{codes}
use fwknox.Base.Assoc.{lookup}
use fwknox.Base.Lru.{list_lru, list_lru-IsLru}
use fwknox.Config.Types.{default_rate_limit}
use fwknox.Config.Sample.{config}
use fwknox.Config.Valid.{validate-IsValid}
use fwknox.Replay.Cache.{save_to_file, write_cache_file, write_outcome}
use fwknox.RateLimit.Key.{key_eq}
use fwknox.RateLimit.Counts.{with_clock-AreRoomy}
use fwknox.RateLimit.Bucket.{new_bucket, consume, refill}
use fwknox.RateLimit.Limiter.{
  pass, check, check_inner, lock_recovering, check_locked, serve_global, count_candidate,
  admit_candidate, promote, with_clock,
}
use fwknox.RateLimit.Sample.{numbers}
use fwknox.Firewall.Backend.{handle}
use fwknox.Firewall.Mock.{mock_flush, mock_init}
use fwknox.Sandbox.Toy.{toy_system}
use fwknox.Workers.Sample.{crypto_codec}
use fwknox.Daemon.Host.{State}
use fwknox.Daemon.Sample.{host, client, later}
use fwknox.Daemon.Tests.{program}
use fwknox.Daemon.Pipeline.{process_packet, installed}
use fwknox.Daemon.Run.{Turn, start, flush_if, Looping, round, on_received, prune_on_tick}
use fwknox.Daemon.Loop.{rounds}
use fwknox.Daemon.Keeps.{counted, datagrams}
use fwknox.Daemon.Boot.{dispatch, cache_capacity, loaded_capacity}
use fwknox.Daemon.Ready.{IsReady}
use fwknox.Daemon.Deployed.{deployed-once}
use fwknox.Daemon.Scenarios.{packet_turn, failed_turn, noise_turn, timed}
use fwknox.Daemon.BootTests.{new_rules, from_str, launch, store, served, loaded, validated}

ready :
    IsReady toy_system host list_lru-IsLru new_rules numbers list_lru crypto_codec from_str launch
      served config store
unfolding dispatch cache_capacity
ready = record {
  loaded = loaded;
  valid = (validate-IsValid config).0 validated;
  backend = refl;
  capacity = refl;
  saves = refl;
  sound = record {
    store = record {
      room = omega arith;
      entries = record { bounded = omega arith; distinct = tt };
    };
    roomy = with_clock-AreRoomy numbers list_lru default_rate_limit 0;
  };
  dispatched = refl;
}

abbrev running : State host
running = record { replay = store; rules = record new_rules { initialized = true } }

starts : start host config (record { replay = store; rules = new_rules }) ≡ (running, ok tt)
unfolding start flush_if mock_flush mock_init
starts = refl

abbrev entered : Looping host numbers list_lru config
entered = record {
  core = running;
  limiter = with_clock numbers list_lru config.rate_limit 0;
  tick = 0;
}

abbrev earlier : List Turn
earlier = failed_turn ∷ []

passes :
    (check numbers list_lru false 5 client.source_ip
      (rounds host list_lru-IsLru numbers list_lru config earlier entered).limiter).1
    ≡ pass
unfolding rounds round on_received check check_inner lock_recovering check_locked serve_global
    count_candidate admit_candidate promote with_clock new_bucket consume refill lookup
passes = refl

opens :
    (process_packet host packet_turn.handling config client
      (rounds host list_lru-IsLru numbers list_lru config earlier entered).core).1
    ≡ ok (installed "home" (handle (codes "mock-0")))
unfolding rounds round on_received prune_on_tick program save_to_file write_cache_file write_outcome
opens = refl

few : datagrams (noise_turn ∷ []) < loaded_capacity launch config
unfolding datagrams counted cache_capacity
few = omega arith

deployed-once_example :
    let d = rounds host list_lru-IsLru numbers list_lru config earlier entered in
    let s =
      (rounds host list_lru-IsLru numbers list_lru config
        (noise_turn ∷ [])
        (round host numbers list_lru config packet_turn d)).core in
    (process_packet host later config client s).0.rules ≡ s.rules
deployed-once_example =
    deployed-once toy_system host list_lru-IsLru new_rules numbers list_lru crypto_codec from_str
      launch config store running earlier packet_turn client client (noise_turn ∷ []) later ready
      starts timed refl passes opens refl refl few
