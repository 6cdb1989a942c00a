-- ===== src/Sandbox/Linux.antt =====
-- What the kernel documents of the calls of the sandbox: capabilities(7), landlock(7), seccomp(2).
use fwknox.Base.{ℕ, ◌≡◌, Bool, true, false, List, ok, nat_eq}
use fwknox.Config.Types.{FilePath}
use fwknox.Sandbox.System.{
  CapSet, effective, permitted, cap_setgid, from_all, fully_enforced, kill_process, allow,
  TargetArch, System,
}
use fwknox.Sandbox.Steps.{contains}

-- What can be seen of a process: the capabilities in its sets, the files that it may reach in any
-- of the ways of ABI 1, and the system calls that it survives.
pub record Seen (sys : System) : Type 0 where
  pub holds : CapSet → ℕ → sys.Process → Bool
  pub may_reach : FilePath → sys.Process → Bool
  pub may_call : ℕ → sys.Process → Bool

-- No capability comes to the permitted set from one process to the next.
abbrev pub Narrows : (sys : System) → Seen sys → sys.Process → sys.Process → Type 0
Narrows sys o p q = (cap : ℕ) → o.holds permitted cap q ≡ true → o.holds permitted cap p ≡ true

pub record HasCapabilities (sys : System) (o : Seen sys) : Type 0 where
  -- The effective set is within the permitted one.
  pub within :
      (cap : ℕ) (p : sys.Process) → o.holds effective cap p ≡ true → o.holds permitted cap p ≡ true
  -- A process may always lower its effective set, and its permitted set by what is not effective.
  pub lowers :
      (cap : ℕ) (p : sys.Process) → o.holds effective cap (sys.drop_cap effective cap p).0 ≡ false
  pub forgoes :
      (cap : ℕ) (p : sys.Process)
      → o.holds effective cap p ≡ false
      → o.holds permitted cap (sys.drop_cap permitted cap p).0 ≡ false
  -- No call here brings a capability to the permitted set.
  pub drop_narrows :
      (set : CapSet) (cap : ℕ) (p : sys.Process) → Narrows sys o p (sys.drop_cap set cap p).0
  pub raise_narrows :
      (cap : ℕ) (p : sys.Process) → Narrows sys o p (sys.raise_cap effective cap p).0
  pub setgroups_narrows :
      (gids : List ℕ) (p : sys.Process) → Narrows sys o p (sys.setgroups gids p).0
  pub setgid_narrows : (gid : ℕ) (p : sys.Process) → Narrows sys o p (sys.setgid gid p).0
  pub setuid_narrows : (uid : ℕ) (p : sys.Process) → Narrows sys o p (sys.setuid uid p).0
  pub keepcaps_narrows : (b : Bool) (p : sys.Process) → Narrows sys o p (sys.set_keepcaps b p).0
  pub restrict_narrows :
      (r : sys.Ruleset) (p : sys.Process) → Narrows sys o p (sys.restrict_self r p).0
  -- `setgroups` is for processes with CAP_SETGID in the effective set.
  pub setgroups_needs :
      (gids : List ℕ) (p : sys.Process) {u : Unit {0}}
      → (sys.setgroups gids p).1 ≡ ok u
      → o.holds effective cap_setgid p ≡ true

pub record HasLandlock (sys : System) (o : Seen sys) : Type 0 where
  -- What a ruleset admits in one of the ways of ABI 1: a fresh one denies what it handles, and so
  -- everything where it was made to handle every access of ABI 1.
  pub admits : sys.Ruleset → FilePath → Bool
  pub empty_ruleset :
      (attr : sys.RulesetAttr) (r : sys.Ruleset) (path : FilePath)
      → sys.handle_access from_all ≡ ok attr
      → sys.create attr ≡ ok r
      → admits r path ≡ false
  pub restricts :
      (r : sys.Ruleset) (p : sys.Process) (path : FilePath)
      → (sys.restrict_self r p).1 ≡ ok fully_enforced
      → o.may_reach path (sys.restrict_self r p).0 ≡ true
      → admits r path ≡ true

pub record HasSeccomp (sys : System) (o : Seen sys) : Type 0 where
  -- A filter widens nothing, and kills what its rules do not name.
  pub keeps_files :
      (program : sys.BpfProgram) (p : sys.Process) (path : FilePath)
      → o.may_reach path (sys.apply_filter program p).0 ≡ true
      → o.may_reach path p ≡ true
  pub filters :
      (rules : List ℕ) (arch : TargetArch) (filter : sys.SeccompFilter) (program : sys.BpfProgram)
      (p : sys.Process) {u : Unit {0}} (n : ℕ)
      → sys.new_filter rules kill_process allow arch ≡ ok filter
      → sys.compile filter ≡ ok program
      → (sys.apply_filter program p).1 ≡ ok u
      → o.may_call n (sys.apply_filter program p).0 ≡ true
      → contains rules n ≡ true
