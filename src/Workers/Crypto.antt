-- ===== src/Workers/Crypto.antt =====
-- `run_crypto_worker` of crates/fwknox-privsep/src/workers.rs, with the validator that
-- crates/fwknox-daemon/src/privsep_run.rs gives to it.
use fwknox.Base.{Bool, true, false, Option, List, [], ◌∷◌, Result, ok, err}
use fwknox.Config.Types.{DaemonConfig}
use fwknox.Daemon.Host.{Host, Moment}
use fwknox.Daemon.Privsep.{CaptureMsg, CryptoMsg, validate_capture_msg}
use fwknox.Workers.Ipc.{
  IoKind, PrivsepError, io, ipc_encode, ipc_decode, syscall, peer_closed, ipc_truncated, Codec,
  RecvCall, send_msg, recv_msg,
}
use fwknox.Workers.Capture.{
  Step, exit, abort, looping, returned, step_of, on_io_error, Trace, after_step,
}

-- `panics` says whether the validator panics on the message.
pub record CryptoTurn : Type 0 where
  pub recv : RecvCall
  pub validating : Moment
  pub panics : Bool
  pub send_call : Option IoKind

pub data CryptoPoll : Type 0 where
  shut_down : CryptoPoll
  go : CryptoTurn → CryptoPoll

-- An error of `recv_msg`: the timeouts fall through, every other one ends the worker.
unfoldable pub on_recv_error : PrivsepError → Step
on_recv_error (io kind) = on_io_error kind
on_recv_error (ipc_encode why) = exit (ipc_encode why)
on_recv_error (ipc_decode why) = exit (ipc_decode why)
on_recv_error (syscall name source) = exit (syscall name source)
on_recv_error peer_closed = exit peer_closed
on_recv_error (ipc_truncated reported limit) = exit (ipc_truncated reported limit)

module _ (host : Host) (config : DaemonConfig) (from : Codec CaptureMsg)
    (to : Codec CryptoMsg) where
  -- The `catch_unwind` around the validator has nothing to catch: with `panic = "abort"`, as in the
  -- release profile, a panic ends the process.
  unfoldable pub reply : CryptoTurn → (panics : Bool) → CaptureMsg → Step
  reply t true msg = abort
  reply t false msg =
      step_of (send_msg to t.send_call (validate_capture_msg host t.validating msg config))

  unfoldable pub on_message : CryptoTurn → Result PrivsepError CaptureMsg → Step
  on_message t (ok msg) = reply t t.panics msg
  on_message t (err e) = on_recv_error e

  unfoldable pub crypto_step : CryptoTurn → Step
  crypto_step t = on_message t (recv_msg from t.recv)

  unfoldable pub run_crypto_worker : List CryptoPoll → Trace
  run_crypto_worker [] = ([], looping)
  run_crypto_worker (shut_down ∷ polls) = ([], returned (ok tt))
  run_crypto_worker (go t ∷ polls) = after_step (crypto_step t) (run_crypto_worker polls)
