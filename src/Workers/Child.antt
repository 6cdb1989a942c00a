-- ===== src/Workers/Child.antt =====
-- The branches of the two children in crates/fwknox-daemon/src/privsep_run.rs, and the panic hook of
-- crates/fwknox-sandbox/src/panic.rs. The standard library calls a hook when the panic begins, before
-- anything unwinds.
use fwknox.Base.{ℕ, Bool, true, false, List, [], ◌∷◌, Result, ok, err, if◌then◌else◌}
use fwknox.Base.Lru.{Lru}
use fwknox.Proto.Types.{Bytes}
use fwknox.Config.Types.{DaemonConfig}
use fwknox.RateLimit.Key.{SourceKey}
use fwknox.RateLimit.Bucket.{Float, TokenBucket}
use fwknox.RateLimit.Limiter.{RateLimiter}
use fwknox.Sandbox.System.{System, SandboxError, TargetArch}
use fwknox.Sandbox.Seccomp.{Syscall}
use fwknox.Sandbox.Apply.{apply_worker_sandbox}
use fwknox.Daemon.Host.{Host}
use fwknox.Daemon.Privsep.{CaptureMsg, CryptoMsg}
use fwknox.Workers.Ipc.{IoKind, PrivsepError, Codec, recv_msg}
use fwknox.Workers.Capture.{
  Step, sent, idle, exit, abort, looping, returned, died, Trace, CapturePoll, run_capture_worker,
}
use fwknox.Workers.Crypto.{CryptoPoll, shut_down, go, crypto_step}

-- How a child ends: `process::exit`, or `process::abort`.
pub data ChildEnd : Type 0 where
  running : ChildEnd
  exited : (code : ℕ) → ChildEnd
  aborted : ChildEnd

-- What a child has sent, and how it has ended.
abbrev pub Life : Type 0
Life = List Bytes × ChildEnd

unfoldable pub ended : Trace → Life
ended (out, looping) = (out, running)
ended (out, returned (ok u)) = (out, exited 0)
ended (out, returned (err e)) = (out, exited 1)
ended (out, died) = (out, aborted)

unfoldable pub live_on : Step → Life → Life
live_on (sent b) (out, end) = (b ∷ out, end)
live_on idle life = life
live_on (exit e) life = ([], exited 1)
live_on abort life = ([], aborted)

abbrev pub is_message : {A : Type 0} → Result PrivsepError A → Bool
is_message (ok msg) = true
is_message (err e) = false

-- The crypto worker under the hook: a panic of the validator aborts, whatever would catch it.
unfoldable pub hooked_step : (panicked : Bool) → Step → Life → Life
hooked_step true step life = ([], aborted)
hooked_step false step life = live_on step life

module _ (host : Host) (config : DaemonConfig) (from : Codec CaptureMsg)
    (to : Codec CryptoMsg) where
  unfoldable pub hooked_crypto_worker : List CryptoPoll → Life
  hooked_crypto_worker [] = ([], running)
  hooked_crypto_worker (shut_down ∷ polls) = ([], exited 0)
  hooked_crypto_worker (go t ∷ polls) =
      hooked_step (if is_message (recv_msg from t.recv) then t.panics else false)
        (crypto_step host config from to t) (hooked_crypto_worker polls)

module _ (sys : System) (number : Syscall → ℕ) (arch : TargetArch) where
  unfoldable pub in_sandbox :
      sys.Process × Result SandboxError (Unit {0}) → Life → sys.Process × Life
  in_sandbox (p, ok u) life = (p, life)
  in_sandbox (p, err e) life = (p, ([], exited 1))

  -- From the fork to the exit: the handlers, the hook, the sandbox and the worker's loop.
  unfoldable pub child_main :
      (handlers : Result IoKind (Unit {0})) → (worker : Life) → sys.Process → sys.Process × Life
  child_main (ok u) worker p = in_sandbox (apply_worker_sandbox sys number arch p) worker
  child_main (err e) worker p = (p, ([], exited 1))

  unfoldable pub capture_child :
      (c : Codec CaptureMsg) (f : Float) (l : Lru SourceKey (TokenBucket f))
      → Result IoKind (Unit {0})
      → List CapturePoll
      → RateLimiter f l
      → sys.Process
      → sys.Process × Life
  capture_child c f l handlers polls limiter =
      child_main handlers (ended (run_capture_worker c f l polls limiter))

  unfoldable pub crypto_child :
      (host : Host) (config : DaemonConfig) (from : Codec CaptureMsg) (to : Codec CryptoMsg)
      → Result IoKind (Unit {0})
      → List CryptoPoll
      → sys.Process
      → sys.Process × Life
  crypto_child host config from to handlers polls =
      child_main handlers (hooked_crypto_worker host config from to polls)
