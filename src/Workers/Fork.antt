-- ===== src/Workers/Fork.antt =====
-- crates/fwknox-privsep/src/fork.rs, and the two places of privsep_run.rs that use it: the parent's look
-- for a dead worker, and its shutdown. The kernel's processes are a parameter.
use fwknox.Base.{ℕ, Bool, true, false, Option, none, some, String, Result, ok, err, map_err}
use fwknox.Workers.Ipc.{Errno, esrch, echild, eintr, other_errno, PrivsepError, syscall}

abbrev pub Pid : Type 0
Pid = ℕ

pub data WaitStatus : Type 0 where
  exited : Pid → (code : ℕ) → WaitStatus
  signaled : Pid → (signal : ℕ) (core : Bool) → WaitStatus
  still_alive other_status : WaitStatus

-- `kill` with SIGTERM, and `waitpid`, for one process or for any child, which blocks or does not.
pub record Processes : Type 1 where
  pub Table : Type 0
  pub kill : Pid → Table → Table × Result Errno (Unit {0})
  pub waitpid : Option Pid → (no_hang : Bool) → Table → Table × Result Errno WaitStatus

pub record ForkedWorker : Type 0 where
  pub pid : Pid
  pub name : String

-- The answer of `try_reap_any_child`.
unfoldable pub reaped_child : Result Errno WaitStatus → Result PrivsepError (Option Pid)
reaped_child (ok (exited pid code)) = ok (some pid)
reaped_child (ok (signaled pid signal core)) = ok (some pid)
reaped_child (ok still_alive) = ok none
reaped_child (ok other_status) = ok none
reaped_child (err echild) = ok none
reaped_child (err esrch) = err (syscall "waitpid(WNOHANG)" esrch)
reaped_child (err eintr) = err (syscall "waitpid(WNOHANG)" eintr)
reaped_child (err (other_errno n)) = err (syscall "waitpid(WNOHANG)" (other_errno n))

-- Whether the parent's round triggers its shutdown for it: an error is only logged.
unfoldable pub found_dead : Result PrivsepError (Option Pid) → Bool
found_dead (ok (some pid)) = true
found_dead (ok none) = false
found_dead (err e) = false

module _ (os : Processes) where
  unfoldable pub signal_terminate :
      ForkedWorker → os.Table → os.Table × Result PrivsepError (Unit {0})
  signal_terminate w s = let (table, r) = os.kill w.pid s in (table, map_err (syscall "kill") r)

  unfoldable pub wait : ForkedWorker → os.Table → os.Table × Result PrivsepError WaitStatus
  wait w s =
      let (table, r) = os.waitpid (some w.pid) false s in (table, map_err (syscall "waitpid") r)

  -- Every error of the signal is logged.
  unfoldable pub terminate_and_wait :
      ForkedWorker → os.Table → os.Table × Result PrivsepError WaitStatus
  terminate_and_wait w s = wait w (signal_terminate w s).0

  -- `Drop` of a handle.
  unfoldable pub drop_worker : ForkedWorker → os.Table → os.Table
  drop_worker w s = (os.waitpid (some w.pid) true (os.kill w.pid s).0).0

  unfoldable pub try_reap_any_child : os.Table → os.Table × Result PrivsepError (Option Pid)
  try_reap_any_child s = let (table, r) = os.waitpid none true s in (table, reaped_child r)

  -- After the parent's loop: the capture worker, then the crypto worker; the errors are logged.
  unfoldable pub stop_workers :
      (capture crypto : ForkedWorker)
      → os.Table
      → os.Table × Result PrivsepError WaitStatus × Result PrivsepError WaitStatus
  stop_workers capture crypto s =
      let (one, r) = terminate_and_wait capture s in
      let (both, q) = terminate_and_wait crypto one in (both, r, q)

  -- The handles are locals of the function that called the loop, and are dropped in reverse.
  unfoldable pub drop_workers : (capture crypto : ForkedWorker) → os.Table → os.Table
  drop_workers capture crypto s = drop_worker capture (drop_worker crypto s)
