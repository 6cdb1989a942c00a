-- ===== src/Sandbox/Seccomp.antt =====
-- seccomp.rs.
use fwknox.Base.{ℕ, List, [], ◌∷◌, ◌++◌, map, Result, ok, err, map_err, String}
use fwknox.Base.Action.{◌>>=◌, gets, call}
use fwknox.Sandbox.System.{
  TargetArch, x86_64, aarch64, kill_process, allow, SandboxError, configuration, System, Sandboxing,
}

-- The system calls that the source names, and some that it leaves out; their numbers are of `libc`.
pub data Syscall : Type 0 where
  read write recvfrom sendto recvmsg sendmsg close fcntl setsockopt getsockopt : Syscall
  ppoll epoll_pwait epoll_ctl epoll_create1 : Syscall
  brk mmap munmap mprotect madvise mremap futex : Syscall
  clock_gettime clock_nanosleep nanosleep : Syscall
  rt_sigaction rt_sigprocmask rt_sigreturn sigaltstack getpid gettid tgkill : Syscall
  getrandom rseq set_robust_list set_tid_address : Syscall
  restart_syscall : Syscall
  exit exit_group : Syscall
  poll epoll_wait gettimeofday : Syscall
  openat execve execveat socket connect fork clone ptrace prlimit64 kill : Syscall

abbrev pub common_syscalls : List Syscall
common_syscalls =
    read ∷ write ∷ recvfrom ∷ sendto ∷ recvmsg ∷ sendmsg ∷ close ∷ fcntl ∷ setsockopt ∷ getsockopt
    ∷ ppoll ∷ epoll_pwait ∷ epoll_ctl ∷ epoll_create1 ∷ brk ∷ mmap ∷ munmap ∷ mprotect ∷ madvise
    ∷ mremap ∷ futex ∷ clock_gettime ∷ clock_nanosleep ∷ nanosleep ∷ rt_sigaction ∷ rt_sigprocmask
    ∷ rt_sigreturn ∷ sigaltstack ∷ getpid ∷ gettid ∷ tgkill ∷ getrandom ∷ rseq ∷ set_robust_list
    ∷ set_tid_address ∷ restart_syscall ∷ exit ∷ exit_group ∷ []

-- The calls that are compiled in for one architecture alone.
abbrev pub legacy_syscalls : TargetArch → List Syscall
legacy_syscalls x86_64 = poll ∷ epoll_wait ∷ gettimeofday ∷ []
legacy_syscalls aarch64 = []

unfoldable pub worker_syscall_list : TargetArch → List Syscall
worker_syscall_list arch = common_syscalls ++ legacy_syscalls arch

module _ (sys : System) where
  unfoldable pub compiled : Result String sys.SeccompFilter → Result SandboxError sys.BpfProgram
  compiled (ok filter) = map_err (configuration "seccomp filter compile") (sys.compile filter)
  compiled (err e) = err (configuration "seccomp filter build" e)

module _ (sys : System) (number : Syscall → ℕ) (arch : TargetArch) where
  -- The rules are a map from the numbers to no conditions.
  unfoldable pub worker_filter : Result SandboxError sys.BpfProgram
  worker_filter =
      compiled sys (sys.new_filter (map number (worker_syscall_list arch)) kill_process allow arch)

  unfoldable pub install_worker_filter : Sandboxing sys (Unit {0})
  install_worker_filter = do
    program ← gets (λ p. worker_filter)
    call (configuration "seccomp apply") (sys.apply_filter program)
