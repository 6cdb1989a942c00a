-- ===== src/Firewall/Nft/Objects.antt =====
-- The crate `nftables` as nftables.rs uses it: of its types the forms that the source builds or looks
-- at, without the fields that it leaves `None`. The kernel behind the crate is a parameter.
use fwknox.Base.{ℕ, Bool, Option, List, Result}
use fwknox.Base.Text.{Text}
use fwknox.Firewall.Backend.{FirewallError}

pub data NfFamily : Type 0 where
  inet other_family : NfFamily

pub data SetType : Type 0 where
  ipv4_addr inet_proto inet_service : SetType

-- `Expression`; `concat` and `elem` are its named ones. Every other form is `other`.
mutual
  pub data Expression : Type 0 where
    string : Text → Expression
    number : ℕ → Expression
    concat : Expressions → Expression
    elem : (val : Expression) (timeout : Option ℕ) → Expression
    payload_field : (protocol field : Text) → Expression
    meta_l4proto : Expression
    other : Expression

  pub data Expressions : Type 0 where
    end : Expressions
    also : Expression → Expressions → Expressions

-- `Match` with the operator `in`, and `Accept`.
pub data Statement : Type 0 where
  match_in : (left right : Expression) → Statement
  accept : Statement

pub record Set : Type 0 where
  pub family : NfFamily
  pub table : Text
  pub name : Text
  pub set_type : List SetType
  pub has_timeout : Bool
  pub elem : Option (List Expression)

pub data NfListObject : Type 0 where
  table : (family : NfFamily) (name : Text) → NfListObject
  set : Set → NfListObject
  -- Of type filter, at the input hook with priority 0, and the policy accept.
  input_chain : (family : NfFamily) (table name : Text) → NfListObject
  rule : (family : NfFamily) (table chain : Text) (expr : List Statement) → NfListObject
  element : (family : NfFamily) (table name : Text) (elem : List Expression) → NfListObject

-- `Batch::add` and `Batch::delete` wrap an object in a command; a listing holds bare ones.
pub data NfObject : Type 0 where
  listed : NfListObject → NfObject
  add : NfListObject → NfObject
  delete : NfListObject → NfObject

abbrev pub Nftables : Type 0
Nftables = List NfObject

-- The trait `RulesetApplier`, over the state of the kernel.
pub record RulesetApplier : Type 1 where
  pub Kernel : Type 0
  pub apply : Nftables → Kernel → Kernel × Result FirewallError (Unit {0})
  pub get_current : Kernel → Result FirewallError Nftables
