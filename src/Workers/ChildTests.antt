-- ===== src/Workers/ChildTests.antt =====
-- The children at the small kernel and at concrete turns.
use fwknox.Base.{◌≢◌, [], ok, nat_eq, list_eq}
use fwknox.Base.Action.{◌>>=◌, pure, gets, call}
use fwknox.Sandbox.System.{x86_64}
use fwknox.Sandbox.Landlock.{classify_status, policy_is_empty, on_status, add_rules, apply_landlock}
use fwknox.Sandbox.Seccomp.{compiled, worker_filter, install_worker_filter}
use fwknox.Sandbox.Unlisted.{code, IsNumbering}
use fwknox.Sandbox.Apply.{apply_worker_sandbox}
use fwknox.Sandbox.Toy.{root, toy_system, toy_seen, toy-HasLandlock, toy-HasSeccomp}
use fwknox.Workers.Child.{Life, running, exited, in_sandbox, child_main}
use fwknox.Workers.Contained.{IsConfined, child_main-IsConfined}

abbrev busy : Life
busy = ([], running)

numbering : IsNumbering code
numbering s t same = same

lives : (child_main toy_system code x86_64 (ok tt) busy root).1 ≢ ([], exited 1)
unfolding child_main in_sandbox apply_worker_sandbox apply_landlock add_rules install_worker_filter
    worker_filter compiled pure gets call ◌>>=◌ on_status classify_status policy_is_empty
lives = λ e. absurd (cc)

child_main-IsConfined_example :
    IsConfined toy_system toy_seen toy-HasLandlock toy-HasSeccomp code numbering x86_64
      (child_main toy_system code x86_64 (ok tt) busy root).0
child_main-IsConfined_example =
    child_main-IsConfined toy_system toy_seen toy-HasLandlock toy-HasSeccomp code numbering x86_64
      (ok tt) busy root lives
