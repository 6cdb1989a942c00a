-- ===== src/Sandbox/Unlisted.antt =====
-- What the list of system calls leaves out.
use fwknox.Base.{ℕ, ◌≡◌, refl, Bool, true, not, List, [], ◌∷◌, map, all, arith, nat_eq}
use fwknox.Sandbox.System.{TargetArch, x86_64, aarch64}
use fwknox.Sandbox.Steps.{contains}
use fwknox.Sandbox.Seccomp.{
  Syscall, read, write, recvfrom, sendto, recvmsg, sendmsg, close, fcntl, setsockopt, getsockopt,
  ppoll, epoll_pwait, epoll_ctl, epoll_create1, brk, mmap, munmap, mprotect, madvise, mremap, futex,
  clock_gettime, clock_nanosleep, nanosleep, rt_sigaction, rt_sigprocmask, rt_sigreturn,
  sigaltstack, getpid, gettid, tgkill, getrandom, rseq, set_robust_list, set_tid_address,
  restart_syscall, exit, exit_group, poll, epoll_wait, gettimeofday, openat, execve, execveat,
  socket, connect, fork, clone, ptrace, prlimit64, kill, worker_syscall_list,
}

-- One number for each call, to tell them apart.
unfoldable pub code : Syscall → ℕ
code read = 0
code write = 1
code recvfrom = 2
code sendto = 3
code recvmsg = 4
code sendmsg = 5
code close = 6
code fcntl = 7
code setsockopt = 8
code getsockopt = 9
code ppoll = 10
code epoll_pwait = 11
code epoll_ctl = 12
code epoll_create1 = 13
code brk = 14
code mmap = 15
code munmap = 16
code mprotect = 17
code madvise = 18
code mremap = 19
code futex = 20
code clock_gettime = 21
code clock_nanosleep = 22
code nanosleep = 23
code rt_sigaction = 24
code rt_sigprocmask = 25
code rt_sigreturn = 26
code sigaltstack = 27
code getpid = 28
code gettid = 29
code tgkill = 30
code getrandom = 31
code rseq = 32
code set_robust_list = 33
code set_tid_address = 34
code restart_syscall = 35
code exit = 36
code exit_group = 37
code poll = 38
code epoll_wait = 39
code gettimeofday = 40
code openat = 41
code execve = 42
code execveat = 43
code socket = 44
code connect = 45
code fork = 46
code clone = 47
code ptrace = 48
code prlimit64 = 49
code kill = 50

-- `libc` gives different calls different numbers.
abbrev pub IsNumbering : (Syscall → ℕ) → Type 0
IsNumbering number = (s t : Syscall) → number s ≡ number t → code s ≡ code t

-- The calls that open files and sockets, start programs and processes, or reach into others.
abbrev pub dangerous : List Syscall
dangerous =
    openat ∷ execve ∷ execveat ∷ socket ∷ connect ∷ fork ∷ clone ∷ ptrace ∷ prlimit64 ∷ kill ∷ []

-- None of the second list is in the first.
unfoldable leaves_out : List Syscall → List Syscall → Bool
leaves_out listed calls = all (λ s. not (contains (map code listed) (code s))) calls

worker_syscall_list-leaves_out :
    (arch : TargetArch) → leaves_out (worker_syscall_list arch) dangerous ≡ true
unfolding leaves_out worker_syscall_list code
worker_syscall_list-leaves_out x86_64 = refl
worker_syscall_list-leaves_out aarch64 = refl

module _ (number : Syscall → ℕ) (numbering : IsNumbering number) where
  contains-number :
      (s : Syscall) (listed : List Syscall)
      → contains (map number listed) (number s) ≡ true
      → contains (map code listed) (code s) ≡ true
  contains-number s [] h = h
  contains-number s (t ∷ listed) h = ground (
    arith,
    numbering t s,
    contains-number s listed,
    nat_eq.decides (number t) (number s),
    nat_eq.decides (code t) (code s),
  )

  left_out :
      (may : ℕ → Bool) (listed calls : List Syscall)
      → ((n : ℕ) → may n ≡ true → contains (map number listed) n ≡ true)
      → leaves_out listed calls ≡ true
      → all (λ s. not (may (number s))) calls ≡ true
  unfolding leaves_out
  left_out may listed [] only out = refl
  left_out may listed (s ∷ calls) only out =
      ground (arith, only (number s), contains-number s listed, left_out may listed calls only)

  -- Where only the listed calls are survived, none of the dangerous ones is.
  pub none_dangerous :
      (arch : TargetArch) (may : ℕ → Bool)
      → ((n : ℕ) → may n ≡ true → contains (map number (worker_syscall_list arch)) n ≡ true)
      → all (λ s. not (may (number s))) dangerous ≡ true
  none_dangerous arch may only =
      left_out may (worker_syscall_list arch) dangerous only (worker_syscall_list-leaves_out arch)
