-- ===== src/Workers/Reaped.antt =====
-- What the parent's shutdown leaves of its workers.
use fwknox.Base.{
  ◌≡◌, ◌≢◌, ◌⊎◌, refl, ap, ◌∙◌, Bool, true, false, Option, none, some, Result, ok, err, map_err,
  Result-cases, inl, inr, ok-injective,
}
use fwknox.Workers.Ipc.{Errno, esrch, echild, eintr, other_errno, PrivsepError, syscall}
use fwknox.Workers.Fork.{
  Pid, WaitStatus, exited, signaled, still_alive, other_status, Processes, ForkedWorker,
  reaped_child, found_dead, signal_terminate, wait, terminate_and_wait, drop_worker,
  try_reap_any_child, stop_workers, drop_workers,
}

-- The process that a status reports the end of.
unfoldable pub ended_pid : WaitStatus → Option Pid
ended_pid (exited pid code) = some pid
ended_pid (signaled pid signal core) = some pid
ended_pid still_alive = none
ended_pid other_status = none

-- What the manual of `kill` and `waitpid` says, of the children that nobody has waited for yet: a
-- signal reaps none, no call adds one, a reported end is that of a child, which is then gone, and a
-- blocking call for one process fails only for want of that child, or when a signal interrupts it.
pub record IsPosix (os : Processes) : Type 1 where
  pub is_child : Pid → os.Table → Bool
  pub kill_keeps : (pid q : Pid) (s : os.Table) → is_child q (os.kill pid s).0 ≡ is_child q s
  pub no_new :
      (who : Option Pid) (no_hang : Bool) (q : Pid) (s : os.Table)
      → is_child q s ≡ false
      → is_child q (os.waitpid who no_hang s).0 ≡ false
  pub ended :
      (who : Option Pid) (no_hang : Bool) (s : os.Table) {st : WaitStatus} {q : Pid}
      → (os.waitpid who no_hang s).1 ≡ ok st
      → ended_pid st ≡ some q
      → (is_child q s ≡ true) × (is_child q (os.waitpid who no_hang s).0 ≡ false)
  pub blocks :
      (pid : Pid) (s : os.Table) {st : WaitStatus}
      → (os.waitpid (some pid) false s).1 ≡ ok st
      → ended_pid st ≡ some pid
  pub refused :
      (pid : Pid) (s : os.Table) {e : Errno}
      → (os.waitpid (some pid) false s).1 ≡ err e
      → (e ≡ eintr) ⊎ (is_child pid (os.waitpid (some pid) false s).0 ≡ false)

-- A child was reaped, where one is reported.
reaped_child-eq-some :
    (r : Result Errno WaitStatus) {pid : Pid}
    → reaped_child r ≡ ok (some pid)
    → (st : WaitStatus) × (r ≡ ok st) × (ended_pid st ≡ some pid)
unfolding reaped_child ended_pid
reaped_child-eq-some (ok (exited pid code)) h = (exited pid code, refl, ok-injective h)
reaped_child-eq-some (ok (signaled pid signal core)) h =
    (signaled pid signal core, refl, ok-injective h)
reaped_child-eq-some (ok still_alive) h = absurd (cc)
reaped_child-eq-some (ok other_status) h = absurd (cc)
reaped_child-eq-some (err esrch) h = absurd (cc)
reaped_child-eq-some (err echild) h = absurd (cc)
reaped_child-eq-some (err eintr) h = absurd (cc)
reaped_child-eq-some (err (other_errno n)) h = absurd (cc)

found_dead-eq-true :
    (r : Result PrivsepError (Option Pid)) → found_dead r ≡ true → (q : Pid) × (r ≡ ok (some q))
unfolding found_dead
found_dead-eq-true (ok (some q)) h = (q, refl)
found_dead-eq-true (ok none) h = absurd (cc)
found_dead-eq-true (err e) h = absurd (cc)

module _ (os : Processes) (posix : IsPosix os) where
  -- Where the parent takes a worker for dead, a child has ended and is reaped.
  pub found_dead-reaped :
      (s : os.Table)
      → found_dead (try_reap_any_child os s).1 ≡ true
      → (q : Pid) × (posix.is_child q s ≡ true)
        × (posix.is_child q (try_reap_any_child os s).0 ≡ false)
  unfolding try_reap_any_child
  found_dead-reaped s dead =
      let (q, some_q) = found_dead-eq-true _ dead in
      let (st, got, end) = reaped_child-eq-some (os.waitpid none true s).1 some_q in
      let (before, after) = posix.ended none true s got end in (q, before, after)

  -- Unless a signal interrupts the wait, the worker is reaped afterwards, whether it was alive, had
  -- ended, or had been reaped before.
  pub terminate_and_wait-reaps :
      (w : ForkedWorker) (s : os.Table)
      → (terminate_and_wait os w s).1 ≢ err (syscall "waitpid" eintr)
      → posix.is_child w.pid (terminate_and_wait os w s).0 ≡ false
  unfolding terminate_and_wait wait
  terminate_and_wait-reaps w s calm =
      let table = (signal_terminate os w s).0 in
      elim (Result-cases (os.waitpid (some w.pid) false table).1) [
        | inl (st, e) ↦ (posix.ended (some w.pid) false table e (posix.blocks w.pid table e)).1
        | inr (e, failed) ↦ elim (posix.refused w.pid table failed) [
          | inl interrupted ↦
              absurd (calm (ap (map_err (syscall "waitpid")) (failed ∙ ap err interrupted)))
          | inr gone ↦ gone
        ]
      ]

  terminate_and_wait-keeps :
      (w : ForkedWorker) (q : Pid) (s : os.Table)
      → posix.is_child q s ≡ false
      → posix.is_child q (terminate_and_wait os w s).0 ≡ false
  unfolding terminate_and_wait wait signal_terminate
  terminate_and_wait-keeps w q s gone =
      posix.no_new (some w.pid) false q _ (posix.kill_keeps w.pid q s ∙ gone)

  drop_worker-keeps :
      (w : ForkedWorker) (q : Pid) (s : os.Table)
      → posix.is_child q s ≡ false
      → posix.is_child q (drop_worker os w s) ≡ false
  unfolding drop_worker
  drop_worker-keeps w q s gone =
      posix.no_new (some w.pid) true q _ (posix.kill_keeps w.pid q s ∙ gone)

  drop_workers-keeps :
      (capture crypto : ForkedWorker) (q : Pid) (s : os.Table)
      → posix.is_child q s ≡ false
      → posix.is_child q (drop_workers os capture crypto s) ≡ false
  unfolding drop_workers
  drop_workers-keeps capture crypto q s gone =
      drop_worker-keeps capture q _ (drop_worker-keeps crypto q s gone)

  -- The parent that returns leaves neither worker behind, as long as no signal has interrupted its two
  -- waits.
  pub stop_workers-reaps :
      (capture crypto : ForkedWorker) (s : os.Table)
      → (stop_workers os capture crypto s).1 ≢ err (syscall "waitpid" eintr)
      → (stop_workers os capture crypto s).2 ≢ err (syscall "waitpid" eintr)
      → let left = drop_workers os capture crypto (stop_workers os capture crypto s).0 in
        (posix.is_child capture.pid left ≡ false) × (posix.is_child crypto.pid left ≡ false)
  unfolding stop_workers
  stop_workers-reaps capture crypto s calm calm' =
      let one = (terminate_and_wait os capture s).0 in
      let both = (terminate_and_wait os crypto one).0 in
      (
        drop_workers-keeps capture crypto capture.pid both (
            terminate_and_wait-keeps crypto capture.pid one
              (terminate_and_wait-reaps capture s calm)),
        drop_workers-keeps capture crypto crypto.pid both
            (terminate_and_wait-reaps crypto one calm'),
      )
