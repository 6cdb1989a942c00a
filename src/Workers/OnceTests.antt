-- ===== src/Workers/OnceTests.antt =====
-- A request that the parent is sent twice, with a prune in between.
use fwknox.Base.{
  ◌≡◌, ◌≢◌, ℕ, ◌<◌, refl, ap, false, List, [], ◌∷◌, arith, ok, nat_eq, list_eq, string_eq,
}
use fwknox.Base.Assoc.{lookup}
use fwknox.Base.Lru.{list_lru-IsLru}
use fwknox.Proto.Types.{v4}
use fwknox.Proto.Sample.{alice}
use fwknox.Config.Sample.{config}
use fwknox.Replay.Cache.{check_and_insert, save_or_roll_back}
use fwknox.Firewall.Mock.{mock_open}
use fwknox.Daemon.Privsep.{valid_request, open_for, find_by_name, serve_request, handle_crypto_msg}
use fwknox.Daemon.Run.{prune_on_tick}
use fwknox.Daemon.Sample.{host, client, moment, later, started, started-IsStore}
use fwknox.Workers.Ipc.{delivered, io_failed, timed_out, recv_msg}
use fwknox.Workers.Parent.{ParentTurn, Serving, on_crypto_msg, parent_round}
use fwknox.Workers.FailClosed.{parent_rounds}
use fwknox.Workers.Once.{counted, requests, parent_rounds-once}
use fwknox.Workers.Sample.{crypto_codec}

abbrev request_turn : ParentTurn
request_turn = record {
  signalled = false;
  recv = delivered (1 ∷ 192 ∷ 168 ∷ 1 ∷ 5 ∷ []);
  handling = moment;
  worker_died = false;
  pruning = moment;
}

abbrev between : List ParentTurn
between =
    record request_turn { recv = io_failed timed_out; pruning = later }
    ∷ request_turn
    ∷ record request_turn { recv = delivered (0 ∷ 203 ∷ 0 ∷ 113 ∷ 9 ∷ []) }
    ∷ []

-- The round after the first one prunes.
abbrev due : Serving host config crypto_codec
due = record { core = started; tick = 598; shut_down = false }

reads : recv_msg crypto_codec request_turn.recv ≡ ok (valid_request "home" client.source_ip alice)
unfolding recv_msg
reads = refl

opens : (parent_round host config crypto_codec request_turn due).core.rules ≢ due.core.rules
unfolding parent_round on_crypto_msg handle_crypto_msg recv_msg serve_request open_for find_by_name
    prune_on_tick check_and_insert save_or_roll_back mock_open lookup
opens e = absurd (let next : ◌≡◌ {A = ℕ} 1 0 = ap (λ r. r.next_id) e in omega (arith, next))

few : requests crypto_codec between < 2
unfolding requests counted recv_msg
few = omega arith

parent_rounds-once_example :
    let s =
      (parent_rounds host config crypto_codec between
        (parent_round host config crypto_codec request_turn due)).core in
    (handle_crypto_msg host later
      (valid_request "home" (v4 (203 ∷ 0 ∷ 113 ∷ 9 ∷ [])) alice)
      config
      s).rules
    ≡ s.rules
parent_rounds-once_example =
    parent_rounds-once host list_lru-IsLru config crypto_codec request_turn between later "home"
      "home" client.source_ip (v4 (203 ∷ 0 ∷ 113 ∷ 9 ∷ [])) alice alice due started-IsStore reads
      opens refl refl few
