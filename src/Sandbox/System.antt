-- ===== src/Sandbox/System.antt =====
-- The kernel and the crates below the sandbox, as a parameter, and error.rs.
use fwknox.Base.{ℕ, String, Bool, Option, List, Result}
use fwknox.Base.Action.{Action}
use fwknox.Config.Types.{FilePath}

-- `caps::CapSet`.
pub data CapSet : Type 0 where
  effective permitted inheritable bounding ambient : CapSet

-- A capability is its number in the kernel.
abbrev pub cap_setgid : ℕ
cap_setgid = 6

abbrev pub cap_net_admin : ℕ
cap_net_admin = 12

-- `landlock::RulesetStatus`.
pub data RulesetStatus : Type 0 where
  fully_enforced partially_enforced not_enforced : RulesetStatus

-- `AccessFs::from_read` and `AccessFs::from_all` at ABI 1.
pub data AccessFs : Type 0 where
  from_read from_all : AccessFs

-- `seccompiler::TargetArch`, as far as it is used.
pub data TargetArch : Type 0 where
  x86_64 aarch64 : TargetArch

-- `seccompiler::SeccompAction`, as far as it is used.
pub data SeccompAction : Type 0 where
  kill_process allow : SeccompAction

pub data SandboxError : Type 0 where
  capability : String → SandboxError
  priv_drop : (what cause : String) → SandboxError
  landlock : (what cause : String) → SandboxError
  sd_notify : String → SandboxError
  configuration : (what cause : String) → SandboxError

-- Calls that can fail give a text. Those that change the process give the process that they leave.
pub record System : Type 1 where
  pub Process : Type 0
  pub all_caps : List ℕ
  pub drop_cap : CapSet → ℕ → Process → Process × Result String (Unit {0})
  pub raise_cap : CapSet → ℕ → Process → Process × Result String (Unit {0})
  pub read_caps : CapSet → Process → Result String (List ℕ)
  pub current_uid : Process → ℕ
  pub user_from_name : String → Process → Result String (Option ℕ)
  pub group_from_name : String → Process → Result String (Option ℕ)
  pub setgroups : List ℕ → Process → Process × Result String (Unit {0})
  pub setgid : ℕ → Process → Process × Result String (Unit {0})
  pub setuid : ℕ → Process → Process × Result String (Unit {0})
  pub set_keepcaps : Bool → Process → Process × Result String (Unit {0})
  pub RulesetAttr : Type 0
  pub Ruleset : Type 0
  pub PathFd : Type 0
  pub handle_access : AccessFs → Result String RulesetAttr
  pub create : RulesetAttr → Result String Ruleset
  pub open_path : FilePath → Process → Result String PathFd
  pub add_rule : PathFd → AccessFs → Ruleset → Result String Ruleset
  pub restrict_self : Ruleset → Process → Process × Result String RulesetStatus
  pub SeccompFilter : Type 0
  pub BpfProgram : Type 0
  pub new_filter :
      List ℕ
      → (mismatch : SeccompAction) → (match : SeccompAction) → TargetArch
      → Result String SeccompFilter
  pub compile : SeccompFilter → Result String BpfProgram
  pub apply_filter : BpfProgram → Process → Process × Result String (Unit {0})

-- A function of the sandbox.
abbrev pub Sandboxing : System → Type 0 → Type 0
Sandboxing sys A = Action sys.Process SandboxError A
