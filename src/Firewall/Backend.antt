-- ===== src/Firewall/Backend.antt =====
-- crates/fwknox-firewall/src/rule.rs, error.rs and backend.rs: the rules, and what the daemon sees
-- of a firewall. A method takes the state and returns the next one beside its result.
use fwknox.Base.{Result, String, List}
use fwknox.Base.Text.{Text}
use fwknox.Proto.Types.{IpAddr, PortProto}
use fwknox.Config.Types.{Duration}

pub record AccessRule : Type 0 where
  pub source_ip : IpAddr
  pub ports : List PortProto
  pub timeout : Duration
  pub comment : String

pub data RuleHandle : Type 0 where
  handle : Text → RuleHandle

-- `RuleHandle::as_str`
unfoldable pub as_str : RuleHandle → Text
as_str (handle s) = s

pub data FirewallError : Type 0 where
  backend : Text → FirewallError
  rule_not_found : Text → FirewallError
  inconsistent_state : Text → FirewallError
  unsupported : Text → FirewallError

pub record FirewallBackend : Type 1 where
  pub State : Type 0
  pub init : State → State × Result FirewallError (Unit {0})
  pub open_access : AccessRule → State → State × Result FirewallError RuleHandle
  pub remove_rule : RuleHandle → State → State × Result FirewallError (Unit {0})
  pub flush : State → State × Result FirewallError (Unit {0})
