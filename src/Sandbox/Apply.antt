-- ===== src/Sandbox/Apply.antt =====
-- apply.rs.
use fwknox.Base.{ℕ, String, Option, none, some, List, []}
use fwknox.Base.Action.{◌>>◌, pure}
use fwknox.Sandbox.System.{TargetArch, System, Sandboxing}
use fwknox.Sandbox.Steps.{drop_all_except, drop_to, raise_effective}
use fwknox.Sandbox.Landlock.{FilesystemPolicy, apply_landlock}
use fwknox.Sandbox.Seccomp.{Syscall, install_worker_filter}

pub record PrivDropTarget : Type 0 where
  pub user : String
  pub group : String

pub record SandboxConfig : Type 0 where
  pub keep_caps : List ℕ
  pub drop_to : Option PrivDropTarget
  pub landlock : Option FilesystemPolicy

module _ (sys : System) where
  unfoldable pub drop_user : (keep : List ℕ) → Option PrivDropTarget → Sandboxing sys (Unit {0})
  drop_user keep none = pure tt
  drop_user keep (some target) = do drop_to sys target.user target.group; raise_effective sys keep

  unfoldable pub restrict_files : Option FilesystemPolicy → Sandboxing sys (Unit {0})
  restrict_files none = pure tt
  restrict_files (some policy) = apply_landlock sys policy

  unfoldable pub apply : SandboxConfig → Sandboxing sys (Unit {0})
  apply config = do
    drop_all_except sys config.keep_caps
    drop_user config.keep_caps config.drop_to
    restrict_files config.landlock

  unfoldable pub apply_worker_sandbox : (Syscall → ℕ) → TargetArch → Sandboxing sys (Unit {0})
  apply_worker_sandbox number arch = do
    apply_landlock sys (record { read_only = []; read_write = [] })
    install_worker_filter sys number arch
