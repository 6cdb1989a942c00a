-- ===== src/Workers/FailClosed.antt =====
-- The parent's loop: it ends when a worker is dead, and keeps the replay cache well formed.
use fwknox.Base.{
  ◌≡◌, refl, ◌∙◌, Bool, true, false, not, ◌||◌, ◌&&◌, some, List, [], ◌∷◌, ◌++◌, arith, all, Result,
  ok, err, nat_eq, list_eq,
}
use fwknox.Base.Lru.{IsLru}
use fwknox.Config.Types.{DaemonConfig}
use fwknox.Replay.Check.{IsStore}
use fwknox.Replay.Window.{after, check_and_insert-IsStore}
use fwknox.Daemon.Host.{Host, State, Moment}
use fwknox.Daemon.Privsep.{
  CryptoMsg, valid_request, rejected_request, no_match_msg, handle_crypto_msg,
}
use fwknox.Daemon.Run.{start, finish}
use fwknox.Daemon.Loop.{prune_on_tick-IsStore}
use fwknox.Workers.Ipc.{PrivsepError, Codec, recv_msg}
use fwknox.Workers.Parent.{
  ParentTurn, Serving, on_crypto_msg, parent_round, parent_loop, after_parent_loop, run_workers,
  run_privsep,
}

-- A round in which neither a signal nor a dead worker is seen.
abbrev pub is_calm : ParentTurn → Bool
is_calm t = not t.signalled && not t.worker_died

module _ (host : Host) (config : DaemonConfig) (c : Codec CryptoMsg) where
  unfoldable pub parent_rounds : List ParentTurn → Serving host config c → Serving host config c
  parent_rounds [] d = d
  parent_rounds (t ∷ ts) d = parent_rounds ts (parent_round host config c t d)

  round-shut_down :
      (t : ParentTurn) (d : Serving host config c)
      → (parent_round host config c t d).shut_down ≡ (d.shut_down || t.worker_died)
  unfolding parent_round
  round-shut_down t d = refl

  stops :
      (ts : List ParentTurn) (d : Serving host config c)
      → d.shut_down ≡ true
      → parent_loop host config c ts d ≡ some d
  unfolding parent_loop
  stops [] d h = rw h refl
  stops (t ∷ ts) d h = rw h refl

  goes_on :
      (t : ParentTurn) (ts : List ParentTurn) (d : Serving host config c)
      → d.shut_down ≡ false
      → t.signalled ≡ false
      → parent_loop host config c (t ∷ ts) d
        ≡ parent_loop host config c ts (parent_round host config c t d)
  unfolding parent_loop
  goes_on t ts d calm quiet = rw (calm, quiet) refl

  loop_to_death :
      (before : List ParentTurn) (t : ParentTurn) (rest : List ParentTurn)
      (d : Serving host config c)
      → d.shut_down ≡ false
      → all is_calm before ≡ true
      → t.signalled ≡ false
      → t.worker_died ≡ true
      → parent_loop host config c (before ++ (t ∷ rest)) d
        ≡ some (parent_round host config c t (parent_rounds before d))
  unfolding parent_rounds
  loop_to_death [] t rest d up calm quiet died =
      goes_on t rest d up quiet ∙ stops rest _ (ground (arith, round-shut_down t d))
  loop_to_death (b ∷ before) t rest d up calm quiet died =
      goes_on b (before ++ (t ∷ rest)) d up (ground arith)
      ∙ loop_to_death before t rest _ (ground (arith, round-shut_down b d)) (ground arith) quiet
          died

  abbrev pub serving : State host → Serving host config c
  serving s = record { core = s; tick = 0; shut_down = false }

  -- Once the firewall is initialised and the workers run, the parent leaves its loop after the round
  -- in which it finds a worker dead, whatever was received and without a signal, and returns `Ok`
  -- with the final flush and save done on the state that this round has left.
  pub run_privsep-fails_closed :
      (before : List ParentTurn) (t : ParentTurn) (rest : List ParentTurn) (last : Moment)
      (s s0 : State host)
      → start host config s ≡ (s0, ok tt)
      → all is_calm before ≡ true
      → t.signalled ≡ false
      → t.worker_died ≡ true
      → run_privsep host config c true (before ++ (t ∷ rest)) last s
        ≡ some (
          finish host config last
              (parent_round host config c t (parent_rounds before (serving s0))).core,
          ok tt,
        )
  unfolding run_privsep run_workers after_parent_loop
  run_privsep-fails_closed before t rest last s s0 started calm quiet died =
      rw (started, loop_to_death before t rest (serving s0) refl calm quiet died) refl

module _ (host : Host) (lru : IsLru host.lru) (config : DaemonConfig) (c : Codec CryptoMsg) where
  handle_crypto_msg-IsStore :
      (m : Moment) (msg : CryptoMsg) (s : State host)
      → IsStore lru s.replay
      → IsStore lru (handle_crypto_msg host m msg config s).replay
  unfolding handle_crypto_msg after
  handle_crypto_msg-IsStore m (no_match_msg ip) s h = h
  handle_crypto_msg-IsStore m (rejected_request ip reason) s h = h
  handle_crypto_msg-IsStore m (valid_request name ip payload) s h =
      check_and_insert-IsStore lru m.replay_now m.writes payload.nonce s.replay h

  on_crypto_msg-IsStore :
      (m : Moment) (r : Result PrivsepError CryptoMsg) (s : State host)
      → IsStore lru s.replay
      → IsStore lru (on_crypto_msg host config c m r s).replay
  unfolding on_crypto_msg
  on_crypto_msg-IsStore m (ok msg) s h = handle_crypto_msg-IsStore m msg s h
  on_crypto_msg-IsStore m (err e) s h = h

  -- With the laws of the `lru` crate, every round of the parent leaves a well-formed replay cache well
  -- formed, whatever it receives, be it no message of the crypto worker at all.
  pub parent_round-IsStore :
      (t : ParentTurn) (d : Serving host config c)
      → IsStore lru d.core.replay
      → IsStore lru (parent_round host config c t d).core.replay
  unfolding parent_round
  parent_round-IsStore t d h =
      prune_on_tick-IsStore host lru config _ t.pruning _
        (on_crypto_msg-IsStore t.handling (recv_msg c t.recv) d.core h)
