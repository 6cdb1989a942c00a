-- ===== src/Sandbox/Privileges.antt =====
-- What `apply` leaves of the capabilities.
use fwknox.Base.{
  ℕ, ◌≡◌, true, false, Option, none, some, List, [], ◌∷◌, Result, ok, err, arith, nat_eq, ◌==◌,
  ==-eq, String, Bool-cases, inl, inr,
}
use fwknox.Base.Action.{
  ◌>>=◌, go_on, pure, gets, call, Keeps, pure-Keeps, gets-Keeps, call-Keeps, >>=-Keeps,
}
use fwknox.Config.Types.{FilePath}
use fwknox.Sandbox.System.{CapSet, effective, permitted, System, Sandboxing, SandboxError, AccessFs}
use fwknox.Sandbox.Steps.{
  contains, drop_from, drop_each, drop_all_except, raise_each, raise_effective, resolve_user,
  resolve_group, drop_to,
}
use fwknox.Sandbox.Landlock.{FilesystemPolicy, add_rules, apply_landlock}
use fwknox.Sandbox.Apply.{PrivDropTarget, SandboxConfig, drop_user, restrict_files, apply}
use fwknox.Sandbox.Linux.{Seen, Narrows, HasCapabilities}

module _ (sys : System) (o : Seen sys) (linux : HasCapabilities sys o) where
  stays_out :
      (c : ℕ) (p q : sys.Process)
      → Narrows sys o p q
      → o.holds permitted c p ≡ false
      → o.holds permitted c q ≡ false
  stays_out c p q n h = elim (Bool-cases (o.holds permitted c q)) [
    | inl held ↦ absurd (cc (n c held))
    | inr out ↦ out
  ]

  drop_from-Narrows :
      (sets : List CapSet) (cap : ℕ) (p : sys.Process) → Narrows sys o p (drop_from sys sets cap p)
  unfolding drop_from
  drop_from-Narrows [] cap p c h = h
  drop_from-Narrows (set ∷ sets) cap p c h =
      linux.drop_narrows set cap p c (drop_from-Narrows sets cap (sys.drop_cap set cap p).0 c h)

  -- The effective set first: then the permitted set can be lowered.
  drop_from-out :
      (sets : List CapSet) (c : ℕ) (p : sys.Process)
      → o.holds permitted c (drop_from sys (effective ∷ permitted ∷ sets) c p) ≡ false
  unfolding drop_from
  drop_from-out sets c p =
      let lowered = (sys.drop_cap effective c p).0 in
      let forgone = (sys.drop_cap permitted c lowered).0 in
      stays_out c forgone _ (drop_from-Narrows sets c forgone)
        (linux.forgoes c lowered (linux.lowers c p))

  drop_each-Narrows :
      (caps keep : List ℕ) (p : sys.Process) → Narrows sys o p (drop_each sys caps keep p)
  unfolding drop_each
  drop_each-Narrows [] keep p c h = h
  drop_each-Narrows (cap ∷ caps) keep p c h = elim (Bool-cases (contains keep cap)) [
    | inl kept ↦ drop_each-Narrows caps keep p c (rw kept at h)
    | inr other ↦ drop_from-Narrows _ cap p c (drop_each-Narrows caps keep _ c (rw other at h))
  ]

  drop_each-out :
      (caps keep : List ℕ) (c : ℕ) (p : sys.Process)
      → contains caps c ≡ true
      → contains keep c ≡ false
      → o.holds permitted c (drop_each sys caps keep p) ≡ false
  unfolding drop_each
  drop_each-out [] keep c p there other = absurd (cc)
  drop_each-out (cap ∷ caps) keep c p there other = elim (Bool-cases (cap == c)) [
    | inl same ↦
        let e = ==-eq cap c same in
        rw (e, other) (stays_out c _ _ (drop_each-Narrows caps keep _) (drop_from-out _ c p))
    | inr distinct ↦ drop_each-out caps keep c _ (ground arith) other
  ]

  -- Every action of the sandbox brings no capability to the permitted set, however it ends.
  abbrev IsNarrowing : {A : Type 0} → Sandboxing sys A → Type 0
  IsNarrowing m = Keeps (Narrows sys o) m

  same : (p : sys.Process) → Narrows sys o p p
  same p c h = h

  through : (p q r : sys.Process) → Narrows sys o p q → Narrows sys o q r → Narrows sys o p r
  through p q r n k c h = n c (k c h)

  pures : {A : Type 0} (a : A) → IsNarrowing (pure a)
  pures a = pure-Keeps (Narrows sys o) same through a

  reads : {A : Type 0} (f : sys.Process → Result SandboxError A) → IsNarrowing (gets f)
  reads f = gets-Keeps (Narrows sys o) same through f

  calls :
      {A : Type 0} (f : String → SandboxError) (m : sys.Process → sys.Process × Result String A)
      → ((p : sys.Process) → Narrows sys o p (m p).0)
      → IsNarrowing (call f m)
  calls f m h = call-Keeps (Narrows sys o) same through f m h

  bind :
      {A B : Type 0} {m : Sandboxing sys A} {f : A → Sandboxing sys B}
      → IsNarrowing m
      → ((a : A) → IsNarrowing (f a))
      → IsNarrowing (m >>= f)
  bind h k = >>=-Keeps (Narrows sys o) same through h k

  after_first :
      {A B : Type 0} (x : sys.Process × Result SandboxError A) {m : Sandboxing sys B}
      → IsNarrowing m
      → Narrows sys o x.0 (go_on x (λ a. m)).0
  after_first (p, ok a) h = h.keeps p
  after_first (p, err e) h = same p

  raise_each-IsNarrowing : (keep : List ℕ) → IsNarrowing (raise_each sys keep)
  unfolding raise_each
  raise_each-IsNarrowing [] = pures tt
  raise_each-IsNarrowing (c ∷ keep) =
      bind (calls _ _ (linux.raise_narrows c)) (λ u. raise_each-IsNarrowing keep)

  raise_effective-IsNarrowing : (keep : List ℕ) → IsNarrowing (raise_effective sys keep)
  unfolding raise_effective
  raise_effective-IsNarrowing keep =
      bind (reads _) λ seen. bind (reads _) λ u. raise_each-IsNarrowing keep

  drop_to-IsNarrowing : (user group : String) → IsNarrowing (drop_to sys user group)
  unfolding drop_to resolve_user resolve_group
  drop_to-IsNarrowing user group = bind (reads _) λ uid. bind (reads _) λ gid.
      bind (calls _ _ (linux.setgroups_narrows _)) λ u.
        bind (calls _ _ (linux.setgid_narrows gid)) λ u.
          bind (calls _ _ (linux.keepcaps_narrows true)) λ u.
            bind (calls _ _ (linux.setuid_narrows uid))
              λ u. calls _ _ (linux.keepcaps_narrows false)

  drop_user-IsNarrowing :
      (keep : List ℕ) (target : Option PrivDropTarget) → IsNarrowing (drop_user sys keep target)
  unfolding drop_user
  drop_user-IsNarrowing keep none = pures tt
  drop_user-IsNarrowing keep (some target) =
      bind (drop_to-IsNarrowing target.user target.group) (λ u. raise_effective-IsNarrowing keep)

  add_rules-IsNarrowing :
      (access : AccessFs) (paths : List FilePath) (r : sys.Ruleset)
      → IsNarrowing (add_rules sys access paths r)
  unfolding add_rules
  add_rules-IsNarrowing access [] r = pures r
  add_rules-IsNarrowing access (path ∷ paths) r =
      bind (reads _) λ fd. bind (reads _) λ r'. add_rules-IsNarrowing access paths r'

  restrict_files-IsNarrowing :
      (policy : Option FilesystemPolicy) → IsNarrowing (restrict_files sys policy)
  unfolding restrict_files apply_landlock
  restrict_files-IsNarrowing none = pures tt
  restrict_files-IsNarrowing (some policy) = bind (reads _) λ attr. bind (reads _) λ r.
      bind (add_rules-IsNarrowing _ policy.read_only r) λ r.
        bind (add_rules-IsNarrowing _ policy.read_write r)
          λ r. bind (calls _ _ (linux.restrict_narrows r)) λ status. reads _

  pub drop_all_except-out :
      (keep : List ℕ) (c : ℕ) (p : sys.Process)
      → contains sys.all_caps c ≡ true
      → contains keep c ≡ false
      → o.holds permitted c (drop_all_except sys keep p).0 ≡ false
  unfolding drop_all_except
  drop_all_except-out keep c p there other = drop_each-out sys.all_caps keep c p there other

  pub not_effective :
      (c : ℕ) (p : sys.Process) → o.holds permitted c p ≡ false → o.holds effective c p ≡ false
  not_effective c p h = elim (Bool-cases (o.holds effective c p)) [
    | inl held ↦ absurd (cc (linux.within c p held))
    | inr out ↦ out
  ]

  -- What `apply` does after the first step.
  rest-Narrows :
      (config : SandboxConfig) (p : sys.Process)
      → Narrows sys o (drop_all_except sys config.keep_caps p).0 (apply sys config p).0
  unfolding apply ◌>>=◌
  rest-Narrows config p = after_first (drop_all_except sys config.keep_caps p) (
      bind (drop_user-IsNarrowing config.keep_caps config.drop_to)
        (λ v. restrict_files-IsNarrowing config.landlock))

  -- Over a kernel with the documented laws of capabilities: whether or not `apply` goes through, and
  -- whatever fails on the way, the process that it leaves has no capability that the configuration
  -- does not keep, neither in its effective nor in its permitted set.
  pub apply-drops :
      (config : SandboxConfig) (p : sys.Process) (c : ℕ)
      → contains sys.all_caps c ≡ true
      → contains config.keep_caps c ≡ false
      → (o.holds effective c (apply sys config p).0 ≡ false)
        × (o.holds permitted c (apply sys config p).0 ≡ false)
  apply-drops config p c there other =
      let narrow = rest-Narrows config p in
      let out =
        stays_out c (drop_all_except sys config.keep_caps p).0 _ narrow
          (drop_all_except-out config.keep_caps c p there other) in
      (not_effective c _ out, out)
