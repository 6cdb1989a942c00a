-- ===== src/Sandbox/Toy.antt =====
-- A small kernel that obeys the documented laws: two capabilities, one ruleset, one filter.
use fwknox.Base.{
  ℕ, ◌≡◌, refl, ap, sym, ◌∙◌, ok-injective, Bool, true, false, ◌||◌, Option, none, some, List, [],
  ◌∷◌, Result, ok, err, arith, nat_eq, ◌==◌, ==-eq, if◌then◌else◌, String,
}
use fwknox.Config.Types.{FilePath}
use fwknox.Sandbox.System.{
  AccessFs, from_read, from_all, CapSet, effective, permitted, inheritable, bounding, ambient,
  fully_enforced, System,
}
use fwknox.Sandbox.Steps.{contains}
use fwknox.Sandbox.Seccomp.{Syscall, read, write, execve, openat}
use fwknox.Sandbox.Linux.{Seen, HasCapabilities, HasLandlock, HasSeccomp}

pub record ToyProcess : Type 0 where
  pub raised : List ℕ
  -- Permitted, and not effective.
  pub spare : List ℕ
  pub uid : ℕ
  pub rules : Option (List FilePath)
  pub filter : Option (List ℕ)

abbrev remove : ℕ → List ℕ → List ℕ
remove c [] = []
remove c (x ∷ xs) = if x == c then remove c xs else x ∷ remove c xs

abbrev drop_toy : CapSet → ℕ → ToyProcess → ToyProcess × Result String (Unit {0})
drop_toy effective c p = (
  record p {
    raised = remove c p.raised;
    spare = if contains p.raised c then c ∷ p.spare else p.spare;
  },
  ok tt,
)
drop_toy permitted c p =
    if contains p.raised c then (p, err "EPERM") else (record p { spare = remove c p.spare }, ok tt)
drop_toy inheritable c p = (p, ok tt)
drop_toy bounding c p = (p, ok tt)
drop_toy ambient c p = (p, ok tt)

abbrev raise_toy : CapSet → ℕ → ToyProcess → ToyProcess × Result String (Unit {0})
raise_toy set c p =
    if contains p.spare c then (record p { raised = c ∷ p.raised }, ok tt) else (p, err "EPERM")

-- What a ruleset does not handle stays open.
abbrev create_toy : AccessFs → Result String (List FilePath)
create_toy from_all = ok []
create_toy from_read = ok ([] ∷ [])

abbrev read_toy : CapSet → ToyProcess → Result String (List ℕ)
read_toy effective p = ok p.raised
read_toy permitted p = ok (c_append p.raised p.spare)
  where
    c_append : List ℕ → List ℕ → List ℕ
    c_append [] ys = ys
    c_append (x ∷ xs) ys = x ∷ c_append xs ys
read_toy inheritable p = ok []
read_toy bounding p = ok []
read_toy ambient p = ok []

abbrev pub toy_system : System
toy_system = record {
  Process = ToyProcess;
  all_caps = 6 ∷ 12 ∷ [];
  drop_cap = drop_toy;
  raise_cap = raise_toy;
  read_caps = read_toy;
  current_uid = λ p. p.uid;
  user_from_name = λ name p. ok (some 1000);
  group_from_name = λ name p. ok (some 1000);
  setgroups = λ gids p. if contains p.raised 6 then (p, ok tt) else (p, err "EPERM");
  setgid = λ gid p. (p, ok tt);
  setuid = λ uid p. (record p { uid = uid }, ok tt);
  set_keepcaps = λ b p. (p, ok tt);
  RulesetAttr = AccessFs;
  Ruleset = List FilePath;
  PathFd = FilePath;
  handle_access = λ access. ok access;
  create = create_toy;
  open_path = λ path p. ok path;
  add_rule = λ fd access r. ok (fd ∷ r);
  restrict_self = λ r p. (record p { rules = some r }, ok fully_enforced);
  SeccompFilter = List ℕ;
  BpfProgram = List ℕ;
  new_filter = λ rules mismatch match arch. ok rules;
  compile = λ filter. ok filter;
  apply_filter = λ program p. (record p { filter = some program }, ok tt);
}

-- Any rule admits every path.
abbrev admits_toy : List FilePath → FilePath → Bool
admits_toy [] path = false
admits_toy (fd ∷ r) path = true

abbrev holds_toy : CapSet → ℕ → ToyProcess → Bool
holds_toy effective c p = contains p.raised c
holds_toy permitted c p = contains p.raised c || contains p.spare c
holds_toy inheritable c p = false
holds_toy bounding c p = false
holds_toy ambient c p = false

abbrev reach_toy : Option (List FilePath) → FilePath → Bool
reach_toy none path = true
reach_toy (some r) path = admits_toy r path

abbrev call_toy : Option (List ℕ) → ℕ → Bool
call_toy none n = true
call_toy (some rules) n = contains rules n

abbrev pub toy_seen : Seen toy_system
toy_seen = record {
  holds = holds_toy;
  may_reach = λ path p. reach_toy p.rules path;
  may_call = λ n p. call_toy p.filter n;
}

contains-remove_self : (c : ℕ) (xs : List ℕ) → contains (remove c xs) c ≡ false
contains-remove_self c [] = refl
contains-remove_self c (x ∷ xs) = ground (arith, contains-remove_self c xs)

contains-remove : (c d : ℕ) (xs : List ℕ) → contains (remove c xs) d ≡ true → contains xs d ≡ true
contains-remove c d [] h = h
contains-remove c d (x ∷ xs) h = ground (arith, contains-remove c d xs)

toy-forgoes :
    (c : ℕ) (p : ToyProcess)
    → holds_toy effective c p ≡ false
    → holds_toy permitted c (drop_toy permitted c p).0 ≡ false
toy-forgoes c p h = rw h (rw h (contains-remove_self c p.spare))

toy-narrows :
    (set : CapSet) (c d : ℕ) (p : ToyProcess)
    → holds_toy permitted d (drop_toy set c p).0 ≡ true
    → holds_toy permitted d p ≡ true
toy-narrows effective c d p h = ground (arith, contains-remove c d p.raised, ==-eq c d)
toy-narrows permitted c d p h = ground (arith, contains-remove c d p.spare)
toy-narrows inheritable c d p h = h
toy-narrows bounding c d p h = h
toy-narrows ambient c d p h = h

pub toy-HasCapabilities : HasCapabilities toy_system toy_seen
toy-HasCapabilities = record {
  within = λ c p h. ground arith;
  lowers = λ c p. contains-remove_self c p.raised;
  forgoes = toy-forgoes;
  drop_narrows = λ set c p d h. toy-narrows set c d p h;
  raise_narrows = λ c p d h. ground (arith, ==-eq c d);
  setgroups_narrows = λ gids p d h. ground arith;
  setgid_narrows = λ gid p d h. h;
  setuid_narrows = λ uid p d h. h;
  keepcaps_narrows = λ b p d h. h;
  restrict_narrows = λ r p d h. h;
  setgroups_needs = λ gids p h. ground arith;
}

pub toy-HasLandlock : HasLandlock toy_system toy_seen
toy-HasLandlock = record {
  admits = admits_toy;
  empty_ruleset = λ attr r path handled made.
      ap (λ r. admits_toy r path)
        (sym (ok-injective (ap create_toy (ok-injective handled) ∙ made)));
  restricts = λ r p path done reached. reached;
}

pub toy-HasSeccomp : HasSeccomp toy_system toy_seen
toy-HasSeccomp = record {
  keeps_files = λ program p path h. h;
  filters = λ rules arch filter program p n made done called may.
      ap (λ r. contains r n) (ok-injective made ∙ ok-injective done) ∙ may;
}

abbrev pub root : ToyProcess
root = record { raised = 6 ∷ 12 ∷ []; spare = []; uid = 0; rules = none; filter = none }

abbrev pub user : ToyProcess
user = record { raised = []; spare = []; uid = 1000; rules = none; filter = none }

-- Some numbers of system calls on x86_64; the other listed calls stand together.
abbrev pub number : Syscall → ℕ
number read = 0
number write = 1
number execve = 59
number openat = 257
number c = 9
