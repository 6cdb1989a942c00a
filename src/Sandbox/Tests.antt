-- ===== src/Sandbox/Tests.antt =====
-- The sandbox at the small kernel.
use fwknox.Base.{◌≡◌, refl, false, none, some, [], ◌∷◌, nat_eq}
use fwknox.Sandbox.System.{effective, permitted, cap_setgid, cap_net_admin}
use fwknox.Sandbox.Apply.{SandboxConfig, PrivDropTarget, apply}
use fwknox.Sandbox.Privileges.{apply-drops}
use fwknox.Sandbox.Toy.{root, toy_system, toy_seen, toy-HasCapabilities}

abbrev fwknox_user : PrivDropTarget
fwknox_user = record { user = "fwknox"; group = "fwknox" }

abbrev as_shipped : SandboxConfig
as_shipped = record { keep_caps = cap_net_admin ∷ []; drop_to = some fwknox_user; landlock = none }

apply-drops_example :
    (toy_seen.holds effective cap_setgid (apply toy_system as_shipped root).0 ≡ false)
    × (toy_seen.holds permitted cap_setgid (apply toy_system as_shipped root).0 ≡ false)
apply-drops_example =
    apply-drops toy_system toy_seen toy-HasCapabilities as_shipped root cap_setgid refl refl
