-- ===== src/Workers/Contained.antt =====
-- What the children do in their sandbox.
use fwknox.Base.{
  ℕ, ◌≡◌, ◌≢◌, refl, ap, ◌∙◌, true, false, not, List, [], ◌∷◌, ◌++◌, map, all, arith, Result, ok,
  err, if◌then◌else◌, nat_eq,
}
use fwknox.Config.Types.{FilePath, DaemonConfig}
use fwknox.Sandbox.System.{System, SandboxError, TargetArch}
use fwknox.Sandbox.Steps.{contains}
use fwknox.Sandbox.Seccomp.{Syscall, worker_syscall_list}
use fwknox.Sandbox.Unlisted.{IsNumbering, dangerous, none_dangerous}
use fwknox.Sandbox.Apply.{apply_worker_sandbox}
use fwknox.Sandbox.Linux.{Seen, HasLandlock, HasSeccomp}
use fwknox.Sandbox.Worker.{apply_worker_sandbox-confines}
use fwknox.Daemon.Host.{Host}
use fwknox.Daemon.Privsep.{CaptureMsg, CryptoMsg}
use fwknox.Workers.Ipc.{IoKind, Codec, recv_msg}
use fwknox.Workers.Capture.{step_of, on_io_error}
use fwknox.Workers.Crypto.{
  CryptoTurn, CryptoPoll, go, reply, on_message, on_recv_error, crypto_step,
}
use fwknox.Workers.Chain.{IsServed, waited, timed, replied, sends, AreServed, all_sent}
use fwknox.Workers.Child.{
  Life, exited, aborted, live_on, is_message, hooked_step, hooked_crypto_worker, in_sandbox,
  child_main,
}

module _ (sys : System) (o : Seen sys) (files : HasLandlock sys o) (calls : HasSeccomp sys o)
    (number : Syscall → ℕ) (numbering : IsNumbering number) (arch : TargetArch) where
  pub record IsConfined (p : sys.Process) : Type 0 where
    pub no_file : (path : FilePath) → o.may_reach path p ≡ false
    pub listed :
        (n : ℕ) → o.may_call n p ≡ true → contains (map number (worker_syscall_list arch)) n ≡ true
    pub harmless : all (λ s. not (o.may_call (number s) p)) dangerous ≡ true

  in_sandbox-IsConfined :
      (p : sys.Process) (worker : Life) (r : Result SandboxError (Unit {0}))
      → (apply_worker_sandbox sys number arch p).1 ≡ r
      → (in_sandbox sys number arch ((apply_worker_sandbox sys number arch p).0, r) worker).1
        ≢ ([], exited 1)
      → IsConfined
          (in_sandbox sys number arch ((apply_worker_sandbox sys number arch p).0, r) worker).0
  unfolding in_sandbox
  in_sandbox-IsConfined p worker (ok u) e lives =
      let (no_file, listed) = apply_worker_sandbox-confines sys o files calls number arch p e in
      record {
        no_file = no_file;
        listed = listed;
        harmless = none_dangerous number numbering arch (λ n. o.may_call n _) listed;
      }
  in_sandbox-IsConfined p worker (err d) e lives = absurd (lives refl)

  -- Over a kernel with the documented laws of Landlock and seccomp, where different system calls have
  -- different numbers, whatever the worker does: a child that sends anything, runs on, ends with
  -- another code than 1 or aborts is confined: no file is within its reach in any of the ways of ABI
  -- 1, it survives no system call but the listed ones, and so none of openat, execve, execveat,
  -- socket, connect, fork, clone, ptrace, prlimit64 and kill.
  pub child_main-IsConfined :
      (handlers : Result IoKind (Unit {0})) (worker : Life) (p : sys.Process)
      → (child_main sys number arch handlers worker p).1 ≢ ([], exited 1)
      → IsConfined (child_main sys number arch handlers worker p).0
  unfolding child_main
  child_main-IsConfined (ok u) worker p lives = in_sandbox-IsConfined p worker _ refl lives
  child_main-IsConfined (err e) worker p lives = absurd (lives refl)

module _ (host : Host) (config : DaemonConfig) (from : Codec CaptureMsg)
    (to : Codec CryptoMsg) where
  hooked_over :
      (t : CryptoTurn) (h : IsServed host config from to t) (life : Life)
      → t.panics ≡ false
      → hooked_step
          (if is_message (recv_msg from t.recv) then t.panics else false)
          (crypto_step host config from to t)
          life
        ≡ (sends host config from to h life.0, life.1)
  unfolding hooked_step live_on crypto_step on_message on_recv_error on_io_error recv_msg reply
      step_of sends
  hooked_over t (waited e) life calm = rw (e, recv_msg) refl
  hooked_over t (timed e) life calm = rw (e, recv_msg) refl
  hooked_over t (replied msg b e p went) life calm = rw (e, p, went) refl

  -- Under the hook that `install_worker_panic_hook` sets, the crypto worker ends by SIGABRT with the
  -- first packet on which the validator panics, having sent the replies to the packets before it, and
  -- whatever comes after it.
  pub hooked_crypto_worker-aborts :
      (before : List CryptoTurn) (h : AreServed host config from to before) (t : CryptoTurn)
      (rest : List CryptoPoll) {msg : CaptureMsg}
      → all (λ b. not b.panics) before ≡ true
      → recv_msg from t.recv ≡ ok msg
      → t.panics ≡ true
      → hooked_crypto_worker host config from to (map go before ++ (go t ∷ rest))
        ≡ (all_sent host config from to before h, aborted)
  unfolding hooked_crypto_worker all_sent hooked_step
  hooked_crypto_worker-aborts [] h t rest calm got panics = rw (got, panics) refl
  hooked_crypto_worker-aborts (b ∷ before) h t rest calm got panics =
      ap
        (hooked_step (if is_message (recv_msg from b.recv) then b.panics else false)
          (crypto_step host config from to b))
        (hooked_crypto_worker-aborts before h.1 t rest (ground arith) got panics)
      ∙ hooked_over b h.0 _ (ground arith)
