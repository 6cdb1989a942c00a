-- ===== src/Workers/Parent.antt =====
-- `run_privsep` and `run_parent_loop` of crates/fwknox-daemon/src/privsep_run.rs. The processes and
-- signals are values: whether the calls that set up the workers succeed, whether a signal has set the
-- flag before a look at it, and whether a worker is found dead.
use fwknox.Base.{
  ℕ, Bool, true, false, ◌||◌, Option, none, some, List, [], ◌∷◌, Result, ok, err, if◌then◌else◌,
}
use fwknox.Config.Types.{DaemonConfig}
use fwknox.Firewall.Backend.{FirewallError}
use fwknox.Daemon.Host.{Host, State, Moment}
use fwknox.Daemon.Pipeline.{DaemonError, firewall}
use fwknox.Daemon.Privsep.{CryptoMsg, handle_crypto_msg}
use fwknox.Daemon.Run.{next_tick, prune_on_tick, start, finish}
use fwknox.Workers.Ipc.{PrivsepError, Codec, RecvCall, recv_msg}

-- What ends the parent early: the firewall, or one of the calls that set up sockets, processes and
-- handlers.
pub data StartError : Type 0 where
  daemon : DaemonError → StartError
  set_up_failed : StartError

pub record ParentTurn : Type 0 where
  pub signalled : Bool
  pub recv : RecvCall
  pub handling : Moment
  pub worker_died : Bool
  pub pruning : Moment

module _ (host : Host) (config : DaemonConfig) (c : Codec CryptoMsg) where
  pub record Serving : Type 0 where
    pub core : State host
    pub tick : ℕ
    pub shut_down : Bool

  -- Every error of `recv_msg` is a tick or is logged.
  unfoldable pub on_crypto_msg : Moment → Result PrivsepError CryptoMsg → State host → State host
  on_crypto_msg m (ok msg) s = handle_crypto_msg host m msg config s
  on_crypto_msg m (err e) s = s

  unfoldable pub parent_round : ParentTurn → Serving → Serving
  parent_round t d =
      let tick = next_tick d.tick in
      record {
        core =
            prune_on_tick host config tick t.pruning
              (on_crypto_msg t.handling (recv_msg c t.recv) d.core);
        tick = tick;
        shut_down = d.shut_down || t.worker_died;
      }

  -- `none` as long as the flag has not been seen.
  unfoldable pub parent_loop : List ParentTurn → Serving → Option Serving
  parent_loop [] d = if d.shut_down then some d else none
  parent_loop (t ∷ turns) d =
      let rest = parent_loop turns (parent_round t d) in
      if d.shut_down || t.signalled then some d else rest

  abbrev pub ParentEnded : Type 0
  ParentEnded = State host × Result StartError (Unit {0})

  unfoldable pub after_parent_loop : Moment → Option Serving → Option ParentEnded
  after_parent_loop last none = none
  after_parent_loop last (some d) = some (finish host config last d.core, ok tt)

  unfoldable pub run_workers :
      (set_up : Bool)
      → List ParentTurn
      → Moment
      → State host × Result FirewallError (Unit {0})
      → Option ParentEnded
  run_workers set_up turns last (s, err e) = some (s, err (daemon (firewall e)))
  run_workers false turns last (s, ok u) = some (s, err set_up_failed)
  run_workers true turns last (s, ok u) =
      after_parent_loop last (parent_loop turns (record { core = s; tick = 0; shut_down = false }))

  -- The parent's share of `run_privsep`: what it leaves and returns, once it returns.
  unfoldable pub run_privsep :
      (set_up : Bool) → List ParentTurn → Moment → State host → Option ParentEnded
  run_privsep set_up turns last s = run_workers set_up turns last (start host config s)
