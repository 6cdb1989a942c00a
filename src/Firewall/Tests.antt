-- ===== src/Firewall/Tests.antt =====
-- The backend in memory at a concrete rule.
use fwknox.Base.{refl, true, [], ◌∷◌, nat_eq, list_eq}
use fwknox.Base.Text.{codes}
use fwknox.Proto.Types.{v4}
use fwknox.Proto.Sample.{ssh}
use fwknox.Config.Types.{from_secs}
use fwknox.Base.Assoc.{lookup, Distinct}
use fwknox.Firewall.Backend.{AccessRule}
use fwknox.Firewall.Mock.{MockState}

abbrev rule : AccessRule
rule = record {
  source_ip = v4 (192 ∷ 0 ∷ 2 ∷ 1 ∷ []);
  ports = ssh ∷ [];
  timeout = from_secs 30;
  comment = "fwknox:alice:1700000000";
}

abbrev ready : MockState
ready = record { initialized = true; next_id = 7; rules = (codes "mock-6", rule) ∷ [] }

ready-Distinct : Distinct ready.rules
unfolding lookup
ready-Distinct = (refl, tt)
