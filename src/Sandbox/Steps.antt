-- ===== src/Sandbox/Steps.antt =====
-- capabilities.rs and privdrop.rs.
use fwknox.Base.{
  ℕ, String, Bool, true, false, Option, none, some, List, [], ◌∷◌, any, Result, ok, err, nat_eq,
  ◌==◌, if◌then◌else◌, map_err,
}
use fwknox.Base.Action.{◌>>=◌, ◌>>◌, pure, gets, call}
use fwknox.Sandbox.System.{
  CapSet, effective, permitted, inheritable, bounding, ambient, SandboxError, capability, priv_drop,
  configuration, System, Sandboxing,
}

abbrev pub contains : List ℕ → ℕ → Bool
contains caps cap = any (λ c. c == cap) caps

module _ (sys : System) where
  -- A failed drop is logged.
  unfoldable pub drop_from : List CapSet → ℕ → sys.Process → sys.Process
  drop_from [] cap p = p
  drop_from (set ∷ sets) cap p = drop_from sets cap (sys.drop_cap set cap p).0

  unfoldable pub drop_each : List ℕ → (keep : List ℕ) → sys.Process → sys.Process
  drop_each [] keep p = p
  drop_each (cap ∷ caps) keep p = drop_each caps keep (
      if contains keep cap
      then p
      else drop_from (effective ∷ permitted ∷ inheritable ∷ ambient ∷ bounding ∷ []) cap p)

  -- The second look at the effective set is for the log alone, but it can fail.
  unfoldable pub looked_at : Result String (List ℕ) → Result SandboxError (Unit {0})
  looked_at (ok seen) = ok tt
  looked_at (err e) = err (capability e)

  unfoldable pub drop_all_except : List ℕ → Sandboxing sys (Unit {0})
  drop_all_except keep p =
      let dropped = drop_each sys.all_caps keep p in
      (dropped, looked_at (sys.read_caps effective dropped))

  unfoldable pub drop_all : Sandboxing sys (Unit {0})
  drop_all = drop_all_except []

  unfoldable pub check_permitted : (keep seen : List ℕ) → Result SandboxError (Unit {0})
  check_permitted [] seen = ok tt
  check_permitted (cap ∷ keep) seen =
      if contains seen cap
      then check_permitted keep seen
      else err (configuration "cannot raise" "not in Permitted set")

  unfoldable pub raise_each : List ℕ → Sandboxing sys (Unit {0})
  raise_each [] = pure tt
  raise_each (cap ∷ keep) = do call capability (sys.raise_cap effective cap); raise_each keep

  unfoldable pub raise_effective : List ℕ → Sandboxing sys (Unit {0})
  raise_effective keep = do
    seen ← gets (λ p. map_err (configuration "read Permitted") (sys.read_caps permitted p))
    gets (λ p. check_permitted keep seen)
    raise_each keep

  unfoldable pub found : String → Result String (Option ℕ) → Result SandboxError ℕ
  found name (ok (some id)) = ok id
  found name (ok none) = err (priv_drop "not found" name)
  found name (err e) = err (priv_drop name e)

  unfoldable pub resolve_user : String → Sandboxing sys ℕ
  resolve_user name = gets (λ p. found name (sys.user_from_name name p))

  unfoldable pub resolve_group : String → Sandboxing sys ℕ
  resolve_group name = gets (λ p. found name (sys.group_from_name name p))

  unfoldable pub drop_to : (user group : String) → Sandboxing sys (Unit {0})
  drop_to user group = do
    uid ← resolve_user user
    gid ← resolve_group group
    call (priv_drop "setgroups failed") (sys.setgroups (gid ∷ []))
    call (priv_drop "setgid failed") (sys.setgid gid)
    call (priv_drop "set_keepcaps(true) failed") (sys.set_keepcaps true)
    call (priv_drop "setuid failed") (sys.setuid uid)
    call (priv_drop "set_keepcaps(false) failed") (sys.set_keepcaps false)

  unfoldable pub is_root : sys.Process → Bool
  is_root p = sys.current_uid p == 0
