-- ===== src/Sandbox/Stranded.antt =====
-- `apply` cannot change the user without CAP_SETGID.
use fwknox.Base.{
  ◌≡◌, ap, sym, ◌∙◌, true, false, some, [], ◌∷◌, ok, err, String, nat_eq, Result-cases, inl, inr,
}
use fwknox.Base.Action.{gets, call, >>=-eq-ok, call-eq-ok}
use fwknox.Sandbox.System.{effective, cap_setgid, System, SandboxError, priv_drop}
use fwknox.Sandbox.Steps.{
  contains, drop_all_except, raise_effective, resolve_user, resolve_group, drop_to,
}
use fwknox.Sandbox.Apply.{PrivDropTarget, SandboxConfig, drop_user, restrict_files, apply}
use fwknox.Sandbox.Linux.{Seen, HasCapabilities}
use fwknox.Sandbox.Privileges.{drop_all_except-out, not_effective}

module _ (sys : System) (o : Seen sys) (linux : HasCapabilities sys o) where
  -- `setgroups` is the first call of `drop_to` that changes anything.
  drop_to-needs :
      (user group : String) (p : sys.Process) {u : Unit {0}}
      → (drop_to sys user group p).1 ≡ ok u
      → o.holds effective cap_setgid p ≡ true
  unfolding drop_to resolve_user resolve_group gets
  drop_to-needs user group p h =
      let (uid, _, one) = >>=-eq-ok (resolve_user sys user) _ p h in
      let (gid, _, two) = >>=-eq-ok (resolve_group sys group) _ p (sym (ap (λ x. x.1) one) ∙ h) in
      let (_, three, _) =
        >>=-eq-ok (call (priv_drop "setgroups failed") (sys.setgroups (gid ∷ []))) _ p
          (sym (ap (λ x. x.1) two) ∙ sym (ap (λ x. x.1) one) ∙ h) in
      linux.setgroups_needs (gid ∷ []) p (call-eq-ok _ (sys.setgroups (gid ∷ [])) p three).0

  drop_user-needs :
      (config : SandboxConfig) (target : PrivDropTarget) (p : sys.Process) {u : Unit {0}}
      → config.drop_to ≡ some target
      → (apply sys config p).1 ≡ ok u
      → o.holds effective cap_setgid (drop_all_except sys config.keep_caps p).0 ≡ true
  unfolding apply drop_user
  drop_user-needs config target p some_user h =
      let keep = config.keep_caps in
      let dropped = (drop_all_except sys keep p).0 in
      let (_, _, one) = >>=-eq-ok (drop_all_except sys keep) _ p h in
      let (_, two, _) =
        >>=-eq-ok (drop_user sys keep config.drop_to) (λ u. restrict_files sys config.landlock)
          dropped (sym (ap (λ x. x.1) one) ∙ h) in
      let (_, three, _) =
        >>=-eq-ok (drop_to sys target.user target.group) (λ u. raise_effective sys keep) dropped
          (ap (λ t. (drop_user sys keep t dropped).1) (sym some_user) ∙ two) in
      drop_to-needs target.user target.group dropped three

  -- Over a kernel with the documented laws of capabilities: a configuration that names a user to drop
  -- to and does not keep CAP_SETGID never goes through, whoever runs it and whatever the process
  -- holds before, since `apply` has dropped the capability when it comes to `setgroups`.
  pub apply-stranded :
      (config : SandboxConfig) (target : PrivDropTarget) (p : sys.Process)
      → config.drop_to ≡ some target
      → contains sys.all_caps cap_setgid ≡ true
      → contains config.keep_caps cap_setgid ≡ false
      → (e : SandboxError) × ((apply sys config p).1 ≡ err e)
  apply-stranded config target p some_user there other =
      elim (Result-cases (apply sys config p).1) [
        | inl (u, went) ↦
            let out =
              not_effective sys o linux cap_setgid _
                (drop_all_except-out sys o linux config.keep_caps cap_setgid p there other) in
            absurd (cc (drop_user-needs config target p some_user went))
        | inr (e, failed) ↦ (e, failed)
      ]
