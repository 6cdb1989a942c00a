-- ===== src/Firewall/Nft/Ruleset.antt =====
-- What `nft` documents of the commands that the backend sends, and what the ruleset then does with a
-- packet. It knows the program's objects by their names and types alone.
use fwknox.Base.{
  Bool, true, false, not, ◌&&◌, ◌||◌, Option, none, some, List, [], ◌∷◌, ◌++◌, any, if◌then◌else◌,
  ◌==◌, nat_eq, list_eq, ◌≡◌, ℕ, suc, replicate,
}
use fwknox.Base.Text.{Text, codes}
use fwknox.Proto.Types.{Bytes, PortProto}
use fwknox.Proto.Display.{protocol_text, ipv4_text}
use fwknox.Firewall.Nft.Objects.{
  NfFamily, inet, other_family, SetType, ipv4_addr, inet_proto, inet_service, Expression, string,
  number, concat, elem, payload_field, meta_l4proto, end, also, Statement, match_in, accept, table,
  set, input_chain, rule, element, NfObject, add, delete, Nftables,
}
use fwknox.Firewall.Nft.Backend.{Key}

-- Where a set or a chain stands.
pub record Place : Type 0 where
  pub family : NfFamily
  pub table : Text
  pub name : Text

abbrev same_family : NfFamily → NfFamily → Bool
same_family inet inet = true
same_family other_family other_family = true
same_family _ _ = false

abbrev pub in_table : NfFamily → Text → Place → Bool
in_table f t p = same_family p.family f && (p.table == t)

abbrev pub is_at : NfFamily → Text → Text → Place → Bool
is_at f t n p = in_table f t p && (p.name == n)

abbrev pub same_key : Key → Key → Bool
same_key a b = (a.addr == b.addr) && (a.proto == b.proto) && (a.port == b.port)

abbrev pub among : Key → List Key → Bool
among k ks = any (same_key k) ks

-- The sets of an address, a protocol and a port with timeouts, what each holds, the chains at the
-- input hook, and the rules of each chain.
pub record Ruleset : Type 0 where
  pub timed_set : Place → Bool
  pub holds : Place → Key → Bool
  pub input : Place → Bool
  pub rules : Place → List (List Statement)

unfoldable pub key_in : Expression → Option Key
key_in (concat (also (string a) (also (string p) (also (number n) end)))) =
    some (record { addr = a; proto = p; port = n })
key_in _ = none

unfoldable pub one_key : Expression → Option Key
one_key (elem e timeout) = key_in e
one_key e = key_in e

unfoldable pub cons_key : Option Key → Option (List Key) → Option (List Key)
cons_key (some k) (some ks) = some (k ∷ ks)
cons_key none ks = none
cons_key (some k) none = none

unfoldable pub keys_of : List Expression → Option (List Key)
keys_of [] = some []
keys_of (e ∷ es) = cons_key (one_key e) (keys_of es)

abbrev is_triple : List SetType → Bool
is_triple (ipv4_addr ∷ inet_proto ∷ inet_service ∷ []) = true
is_triple _ = false

abbrev no_elements : Option (List Expression) → Bool
no_elements none = true
no_elements (some es) = false

abbrev hold : NfFamily → Text → Text → Option (List Key) → Ruleset → Option Ruleset
hold f t n none v = none
hold f t n (some ks) v =
    some (record v { holds = λ p k. (is_at f t n p && among k ks) || v.holds p k })

abbrev let_go : NfFamily → Text → Text → Option (List Key) → Ruleset → Option Ruleset
let_go f t n none v = none
let_go f t n (some ks) v =
    some (record v { holds = λ p k. not (is_at f t n p && among k ks) && v.holds p k })

-- One command that is taken; `none` for those on which this says nothing.
unfoldable pub run : NfObject → Ruleset → Option Ruleset
run (add (table f t)) v = some v
run (add (set s)) v =
    if is_triple s.set_type && s.has_timeout && no_elements s.elem
    then some (record v { timed_set = λ p. is_at s.family s.table s.name p || v.timed_set p })
    else none
run (add (input_chain f t n)) v = some (record v { input = λ p. is_at f t n p || v.input p })
run (add (rule f t n e)) v =
    some (record v { rules = λ p. if is_at f t n p then v.rules p ++ (e ∷ []) else v.rules p })
run (add (element f t n es)) v =
    if v.timed_set (record { family = f; table = t; name = n })
    then hold f t n (keys_of es) v
    else none
run (delete (element f t n es)) v = let_go f t n (keys_of es) v
run (delete (table f t)) v = some (record {
  timed_set = λ p. not (in_table f t p) && v.timed_set p;
  holds = λ p k. not (in_table f t p) && v.holds p k;
  input = λ p. not (in_table f t p) && v.input p;
  rules = λ p. if in_table f t p then [] else v.rules p;
})
run _ v = none

-- A batch, command by command.
unfoldable pub runs : Nftables → Option Ruleset → Option Ruleset
runs b none = none
runs [] (some v) = some v
runs (o ∷ b) (some v) = runs b (run o v)

-- An expression that reads a packet's source address, protocol and destination port.
unfoldable pub reads_key : Expression → Bool
reads_key (concat (also (payload_field a b) (also meta_l4proto (also (payload_field c d) end)))) =
    (a == codes "ip") && (b == codes "saddr") && (c == codes "th") && (d == codes "dport")
reads_key _ = false

-- `in @name` looks into a set of the chain's own table.
unfoldable pub selects : Ruleset → Place → Key → Expression → Expression → Bool
selects v c k left (string (sign ∷ name)) =
    (sign == 0x40) && reads_key left && v.holds (record c { name = name }) k
selects v c k left _ = false

-- Whether a rule accepts a packet.
unfoldable pub accepted : Ruleset → Place → Key → List Statement → Bool
accepted v c k [] = false
accepted v c k (accept ∷ rest) = true
accepted v c k (match_in left right ∷ rest) = selects v c k left right && accepted v c k rest

abbrev pub own_chain : Place
own_chain = record { family = inet; table = codes "fwknox"; name = codes "input" }

abbrev pub own_set : Place
own_set = record { family = inet; table = codes "fwknox"; name = codes "fwknox_allow_v4" }

-- Whether a rule of the program's input chain accepts a packet from this address to this port.
unfoldable pub accepts : Ruleset → Key → Bool
accepts v k = v.input own_chain && any (accepted v own_chain k) (v.rules own_chain)

-- The one rule that the program's chain may hold: what is in the set is accepted.
abbrev pub gate : List Statement
gate =
    match_in
      (concat (
        also (payload_field (codes "ip") (codes "saddr"))
          (also meta_l4proto (also (payload_field (codes "th") (codes "dport")) end))))
      (string (codes "@fwknox_allow_v4"))
    ∷ accept
    ∷ []

-- Nothing but the program's rule stands in its chain.
pub record IsOwn (v : Ruleset) : Type 0 where
  pub count : ℕ
  pub gates : v.rules own_chain ≡ replicate count gate

-- The set takes elements with timeouts, and the chain at the input hook has the rule.
pub record IsReady (v : Ruleset) : Type 0 where
  pub timed : v.timed_set own_set ≡ true
  pub hooked : v.input own_chain ≡ true
  pub more : ℕ
  pub gates : v.rules own_chain ≡ replicate (suc more) gate

-- The packets that a rule is for.
unfoldable pub wanted : Bytes → List PortProto → List Key
wanted octets [] = []
wanted octets (pp ∷ pps) =
    record { addr = ipv4_text octets; proto = protocol_text pp.proto; port = pp.port }
    ∷ wanted octets pps
