-- ===== src/Daemon/Scenarios.antt =====
-- Runs of the main loop at a concrete daemon.
use fwknox.Base.{
  ◌≡◌, refl, false, none, some, List, [], ◌∷◌, ◌++◌, map, arith, ok, replicate, nat_eq, list_eq,
}
use fwknox.Base.Lru.{list_lru, list_lru-IsLru}
use fwknox.Config.Sample.{config}
use fwknox.Config.Types.{default_rate_limit}
use fwknox.Firewall.Mock.{mock_flush, mock_init}
use fwknox.RateLimit.Key.{key_eq}
use fwknox.RateLimit.Counts.{with_clock-AreRoomy}
use fwknox.RateLimit.Sample.{numbers, limiter}
use fwknox.Daemon.Host.{State}
use fwknox.Daemon.Sample.{host, moment, client, stranger, later, started, started-IsStore}
use fwknox.Daemon.Run.{
  Turn, shut_down, go, failed, datagram, flush_if, start, Looping, round, loop, run,
}
use fwknox.Daemon.Tests.{toy-IsI64}
use fwknox.Daemon.Guarded.{IsTimed}
use fwknox.Daemon.Loop.{IsSound, rounds, IsFinal, run-ends, loop-IsSound, PrunedIn, rounds-PrunedIn}

abbrev pub packet_turn : Turn
packet_turn = record {
  received = datagram client;
  limiter_now = 5;
  limiter_poisoned = false;
  handling = moment;
  pruning = moment;
}

abbrev pub failed_turn : Turn
failed_turn = record packet_turn { received = failed }

abbrev pub noise_turn : Turn
noise_turn = record packet_turn { received = datagram stranger; handling = later }

abbrev turns : List Turn
turns = failed_turn ∷ packet_turn ∷ noise_turn ∷ []

abbrev fresh_start : State host
fresh_start = record started { rules = record started.rules { next_id = 0; rules = [] } }

started_well : start host config started ≡ (fresh_start, ok tt)
unfolding start flush_if mock_flush mock_init
started_well = refl

abbrev looping : Looping host numbers list_lru config
looping = record { core = fresh_start; limiter = limiter; tick = 0 }

looping-IsSound : IsSound host list_lru-IsLru numbers list_lru config looping
looping-IsSound = record {
  store = started-IsStore;
  roomy = with_clock-AreRoomy numbers list_lru default_rate_limit 0;
}

run-ends_example :
    (run host numbers list_lru config (map go turns) later limiter started ≡ none)
    × ((end : State host) × (run host numbers list_lru config
            (map go turns ++ (shut_down ∷ []))
            later
            limiter
            started
          ≡ some (end, ok tt))
        × IsFinal host list_lru-IsLru numbers list_lru config later
            (rounds host list_lru-IsLru numbers list_lru config turns looping)
            end)
run-ends_example =
    run-ends host list_lru-IsLru numbers list_lru config turns [] later limiter started fresh_start
      started_well

left_loop :
    loop host numbers list_lru config (go failed_turn ∷ go packet_turn ∷ shut_down ∷ []) looping
    ≡ some (
        round host numbers list_lru config packet_turn
          (round host numbers list_lru config failed_turn looping))
unfolding loop
left_loop = refl

loop-IsSound_example : IsSound host list_lru-IsLru numbers list_lru config (
    round host numbers list_lru config packet_turn
      (round host numbers list_lru config failed_turn looping))
loop-IsSound_example =
    loop-IsSound host list_lru-IsLru numbers list_lru config
      (go failed_turn ∷ go packet_turn ∷ shut_down ∷ []) looping _ looping-IsSound left_loop

rounds-PrunedIn_example :
    PrunedIn host list_lru-IsLru numbers list_lru config looping (replicate 600 packet_turn)
rounds-PrunedIn_example =
    rounds-PrunedIn host list_lru-IsLru numbers list_lru config (replicate 600 packet_turn) looping
      looping-IsSound (omega arith) (omega arith)

pub timed : IsTimed host config moment later
timed = record {
  typed = toy-IsI64;
  clock = omega arith;
  clock' = omega arith;
  limit = omega arith;
  kept_longer = omega arith;
  read_later = omega arith;
}
