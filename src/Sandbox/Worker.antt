-- ===== src/Sandbox/Worker.antt =====
-- What a worker can do once its sandbox is applied.
use fwknox.Base.{
  ℕ, ◌≡◌, refl, ap, subst, ◌∙◌, true, false, [], map, Result, ok, err, String, nat_eq, Bool-cases,
  inl, inr, map_err-eq-ok, ok-injective,
}
use fwknox.Base.Action.{pure, gets, call-eq-ok, after_step}
use fwknox.Config.Types.{FilePath}
use fwknox.Sandbox.System.{
  System, SandboxError, RulesetStatus, fully_enforced, partially_enforced, not_enforced, from_all,
  TargetArch, landlock, configuration,
}
use fwknox.Sandbox.Steps.{contains}
use fwknox.Sandbox.Landlock.{
  FilesystemPolicy, classify_status, policy_is_empty, on_status, add_rules, apply_landlock,
}
use fwknox.Sandbox.Seccomp.{
  Syscall, worker_syscall_list, compiled, worker_filter, install_worker_filter,
}
use fwknox.Sandbox.Apply.{apply_worker_sandbox}
use fwknox.Sandbox.Linux.{Seen, HasLandlock, HasSeccomp}

abbrev nothing : FilesystemPolicy
nothing = record { read_only = []; read_write = [] }

-- Under an empty policy only full enforcement passes.
only_fully :
    (status : RulesetStatus) {u : Unit {0}}
    → on_status (classify_status status (policy_is_empty nothing)) status ≡ ok u
    → status ≡ fully_enforced
unfolding on_status classify_status policy_is_empty
only_fully fully_enforced h = refl
only_fully partially_enforced h = absurd (cc)
only_fully not_enforced h = absurd (cc)

module _ (sys : System) (o : Seen sys) (files : HasLandlock sys o) (calls : HasSeccomp sys o) where
  unreached :
      (r : sys.Ruleset) (p : sys.Process) (path : FilePath)
      → (sys.restrict_self r p).1 ≡ ok fully_enforced
      → files.admits r path ≡ false
      → o.may_reach path (sys.restrict_self r p).0 ≡ false
  unreached r p path done out = elim (Bool-cases (o.may_reach path (sys.restrict_self r p).0)) [
    | inl reached ↦ absurd (cc (files.restricts r p path done reached))
    | inr hidden ↦ hidden
  ]

  -- Where the empty policy goes through, no file is within reach.
  apply_landlock-denies :
      (p : sys.Process) (path : FilePath) {u : Unit {0}}
      → (apply_landlock sys nothing p).1 ≡ ok u
      → o.may_reach path (apply_landlock sys nothing p).0 ≡ false
  unfolding apply_landlock add_rules pure gets
  apply_landlock-denies p path h =
      let P = λ (x : sys.Process × Result SandboxError (Unit {0})). o.may_reach path x.0 ≡ false in
      after_step P _ _ _ h λ attr handled h. after_step P _ _ _ h λ r made h.
        after_step P _ _ _ h λ r' e h. after_step P _ _ _ h λ r'' e' h.
          after_step P _ _ _ h λ status restricted h.
            let (called, left) =
              call-eq-ok (landlock "restrict_self failed") (sys.restrict_self r'') p restricted in
            rw left (
              unreached r'' p path (called ∙ ap ok (only_fully status h)) (
                subst (λ r. files.admits r path ≡ false) (ok-injective e ∙ ok-injective e')
                  (files.empty_ruleset attr r path
                    (map_err-eq-ok (landlock "handle_access failed") (sys.handle_access from_all)
                      handled)
                    (map_err-eq-ok (landlock "ruleset create failed") (sys.create attr) made))))

  hidden :
      (program : sys.BpfProgram) (p : sys.Process) (path : FilePath)
      → o.may_reach path p ≡ false
      → o.may_reach path (sys.apply_filter program p).0 ≡ false
  hidden program p path out = elim (Bool-cases (o.may_reach path (sys.apply_filter program p).0)) [
    | inl reached ↦ absurd (cc (calls.keeps_files program p path reached))
    | inr unseen ↦ unseen
  ]

  -- What a program that compiles has been compiled from.
  compiled-from :
      (made : Result String sys.SeccompFilter) {program : sys.BpfProgram}
      → compiled sys made ≡ ok program
      → (filter : sys.SeccompFilter) × (made ≡ ok filter) × (sys.compile filter ≡ ok program)
  unfolding compiled
  compiled-from (ok filter) h = (filter, refl, map_err-eq-ok _ (sys.compile filter) h)
  compiled-from (err e) h = absurd (cc)

  module _ (number : Syscall → ℕ) (arch : TargetArch) where
    -- A filter that goes through lets no file come within reach, and kills what is not listed.
    install_worker_filter-confines :
        (p : sys.Process) {u : Unit {0}}
        → (install_worker_filter sys number arch p).1 ≡ ok u
        → ((path : FilePath)
            → o.may_reach path p ≡ false
            → o.may_reach path (install_worker_filter sys number arch p).0 ≡ false)
          × ((n : ℕ)
              → o.may_call n (install_worker_filter sys number arch p).0 ≡ true
              → contains (map number (worker_syscall_list arch)) n ≡ true)
    unfolding install_worker_filter worker_filter gets
    install_worker_filter-confines p h =
        after_step
          (λ x.
            ((path : FilePath) → o.may_reach path p ≡ false → o.may_reach path x.0 ≡ false)
            × ((n : ℕ)
                → o.may_call n x.0 ≡ true
                → contains (map number (worker_syscall_list arch)) n ≡ true))
          _ _ p h
          λ program built h.
            let (filter, made, done) = compiled-from _ built in
            let (called, left) =
              call-eq-ok (configuration "seccomp apply") (sys.apply_filter program) p h in
            rw left (
              λ path out. hidden program p path out,
              λ n may. calls.filters _ arch filter program p n made done called may,
            )

    -- Over a kernel with the documented laws of Landlock and seccomp: once a worker's sandbox has gone
    -- through, the process can reach no file in any of the ways of ABI 1, and survives no system call
    -- but the listed ones.
    pub apply_worker_sandbox-confines :
        (p : sys.Process) {u : Unit {0}}
        → (apply_worker_sandbox sys number arch p).1 ≡ ok u
        → ((path : FilePath) → o.may_reach path (apply_worker_sandbox sys number arch p).0 ≡ false)
          × ((n : ℕ)
              → o.may_call n (apply_worker_sandbox sys number arch p).0 ≡ true
              → contains (map number (worker_syscall_list arch)) n ≡ true)
    unfolding apply_worker_sandbox
    apply_worker_sandbox-confines p h =
        after_step
          (λ x.
            ((path : FilePath) → o.may_reach path x.0 ≡ false)
            × ((n : ℕ)
                → o.may_call n x.0 ≡ true
                → contains (map number (worker_syscall_list arch)) n ≡ true))
          (apply_landlock sys nothing) (λ u. install_worker_filter sys number arch) p h
          λ u denied h.
            let (kept, killed) =
              install_worker_filter-confines (apply_landlock sys nothing p).0 h in
            (λ path. kept path (apply_landlock-denies p path denied), killed)
