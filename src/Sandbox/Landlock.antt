-- ===== src/Sandbox/Landlock.antt =====
-- landlock.rs.
use fwknox.Base.{Bool, true, false, ◌&&◌, List, [], ◌∷◌, Result, ok, err, map_err}
use fwknox.Base.Action.{◌>>=◌, pure, gets, call}
use fwknox.Config.Types.{FilePath}
use fwknox.Sandbox.System.{
  RulesetStatus, fully_enforced, partially_enforced, not_enforced, AccessFs, from_read, from_all,
  SandboxError, landlock, System, Sandboxing,
}

pub data RulesetOutcome : Type 0 where
  enforced insufficient : RulesetOutcome

unfoldable pub classify_status : RulesetStatus → (policy_is_empty : Bool) → RulesetOutcome
classify_status fully_enforced policy_is_empty = enforced
classify_status partially_enforced true = insufficient
classify_status partially_enforced false = enforced
classify_status not_enforced policy_is_empty = insufficient

pub record FilesystemPolicy : Type 0 where
  pub read_only : List FilePath
  pub read_write : List FilePath

abbrev pub is_empty : List FilePath → Bool
is_empty [] = true
is_empty (path ∷ paths) = false

unfoldable pub policy_is_empty : FilesystemPolicy → Bool
policy_is_empty policy = is_empty policy.read_only && is_empty policy.read_write

abbrev unreachable : Result SandboxError (Unit {0})
unreachable = err (landlock "internal error: entered unreachable code" "")

-- The `match` on the outcome. `classify_status` never gives the classes of the two arms that
-- `unreachable!` guards; a panic there would end the process, as the error does.
unfoldable pub on_status : RulesetOutcome → RulesetStatus → Result SandboxError (Unit {0})
on_status enforced fully_enforced = ok tt
on_status enforced partially_enforced = ok tt
on_status enforced not_enforced = unreachable
on_status insufficient not_enforced =
    err (landlock "kernel does not support Landlock (needs Linux 5.13+)" "")
on_status insufficient partially_enforced = err (
    landlock "landlock: kernel only partially enforced an empty policy"
      "refusing to run worker without full filesystem denial")
on_status insufficient fully_enforced = unreachable

module _ (sys : System) where
  unfoldable pub add_rules : AccessFs → List FilePath → sys.Ruleset → Sandboxing sys sys.Ruleset
  add_rules access [] r = pure r
  add_rules access (path ∷ paths) r = do
    fd ← gets (λ p. map_err (landlock "open") (sys.open_path path p))
    r' ← gets (λ p. map_err (landlock "add_rule") (sys.add_rule fd access r))
    add_rules access paths r'

  unfoldable pub apply_landlock : FilesystemPolicy → Sandboxing sys (Unit {0})
  apply_landlock policy = do
    attr ← gets (λ p. map_err (landlock "handle_access failed") (sys.handle_access from_all))
    r ← gets (λ p. map_err (landlock "ruleset create failed") (sys.create attr))
    r ← add_rules from_read policy.read_only r
    r ← add_rules from_all policy.read_write r
    status ← call (landlock "restrict_self failed") (sys.restrict_self r)
    gets (λ p. on_status (classify_status status (policy_is_empty policy)) status)
