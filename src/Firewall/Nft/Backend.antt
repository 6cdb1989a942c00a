-- ===== src/Firewall/Nft/Backend.antt =====
-- `NftablesBackend`. The mutex makes each access of the flag one step; the methods of the trait are
-- called one at a time.
use fwknox.Base.{
  ℕ, Bool, true, false, not, ◌&&◌, ◌||◌, Option, none, some, List, [], ◌∷◌, ◌++◌, map, min, any,
  Result, ok, err, ◌>>=◌, ◌>>◌, fail_if, ok_or, if◌then◌else◌, ◌==◌, nat_eq, list_eq,
}
use fwknox.Base.Text.{Text, codes, is_empty, split_on, join, contains, to_ascii_lowercase}
use fwknox.Base.Number.{decimal_text, parse_uint}
use fwknox.Proto.Types.{Bytes, IpAddr, v4, v6, PortProto}
use fwknox.Proto.Display.{protocol_text, ipv4_text}
use fwknox.Config.Types.{as_secs}
use fwknox.Firewall.Backend.{
  AccessRule, RuleHandle, handle, as_str, FirewallError, backend, rule_not_found,
  inconsistent_state, unsupported, FirewallBackend,
}
use fwknox.Firewall.Nft.Objects.{
  inet, ipv4_addr, inet_proto, inet_service, Expression, string, number, concat, elem,
  payload_field, meta_l4proto, end, also, match_in, accept, Set, table, set, input_chain, rule,
  element, NfObject, listed, add, delete, Nftables, RulesetApplier,
}

abbrev pub table_name : Text
table_name = codes "fwknox"

abbrev pub set_name : Text
set_name = codes "fwknox_allow_v4"

abbrev pub chain_name : Text
chain_name = codes "input"

abbrev pub u16_max : ℕ
u16_max = 65_535

abbrev pub u32_max : ℕ
u32_max = 4_294_967_295

unfoldable pub stderr_indicates_missing_element : Text → Bool
stderr_indicates_missing_element stderr =
    let lower = to_ascii_lowercase stderr in
    contains (codes "no such file or directory") lower
    || contains (codes "could not process rule") lower
    || contains (codes "set element does not exist") lower

unfoldable pub backend_has_empty_stderr : Text → Bool
backend_has_empty_stderr msg = contains (codes "stderr=\"\"") msg

-- The address, protocol and port of an element.
pub record Key : Type 0 where
  pub addr : Text
  pub proto : Text
  pub port : ℕ

abbrev pub triple : Expression → Expression → Expression → Expression
triple a b c = concat (also a (also b (also c end)))

abbrev pub key_expr : Key → Expression
key_expr k = triple (string k.addr) (string k.proto) (number k.port)

abbrev with_port : Text → Text → Option ℕ → Option Key
with_port addr proto none = none
with_port addr proto (some port) = some (record { addr = addr; proto = proto; port = port })

-- One entry of a handle, its port within a bound; `none` for a malformed one.
unfoldable pub parse_entry : (max : ℕ) → List Text → Option Key
parse_entry max (addr ∷ proto ∷ port ∷ []) = with_port addr proto (parse_uint max port)
parse_entry max _ = none

abbrev pub key_beq : Key → Key → Bool
key_beq a b = (a.addr == b.addr) && (a.proto == b.proto) && (a.port == b.port)

abbrev kept : Option Key → List Key → List Key
kept none ks = ks
kept (some k) ks = k ∷ ks

-- `filter_map` over the entries of a handle.
unfoldable pub targets : List Text → List Key
targets [] = []
targets (entry ∷ rest) = kept (parse_entry u32_max (split_on 0x2f entry)) (targets rest)

-- An element of the shape that the search looks at; the others are skipped.
unfoldable pub listed_key : Expression → Option Key
listed_key (concat (also (string addr) (also (string proto) (also (number port) end)))) =
    some (record { addr = addr; proto = proto; port = port })
listed_key _ = none

unfoldable pub is_target : List Key → Expression → Bool
is_target ks e = elim (listed_key e) [ none ↦ false | some k ↦ any (λ t. key_beq t k) ks ]

unfoldable pub set_has_target : List Key → Set → Bool
set_has_target ks s =
    (s.name == set_name) && (elim s.elem [ none ↦ false | some es ↦ any (is_target ks) es ])

unfoldable pub object_has_target : List Key → NfObject → Bool
object_has_target ks (listed (set s)) = set_has_target ks s
object_has_target ks _ = false

unfoldable pub handle_has_present_elements : RuleHandle → Nftables → Bool
handle_has_present_elements h current =
    let ks = targets (split_on 0x2c (as_str h)) in
    if is_empty ks then true else any (object_has_target ks) current

-- The batch of `init`.
abbrev pub init_batch : Nftables
init_batch =
    add (table inet table_name)
    ∷ add (
        set (record {
          family = inet;
          table = table_name;
          name = set_name;
          set_type = ipv4_addr ∷ inet_proto ∷ inet_service ∷ [];
          has_timeout = true;
          elem = none;
        }))
    ∷ add (input_chain inet table_name chain_name)
    ∷ add (
        rule inet table_name chain_name (
          match_in
            (triple (payload_field (codes "ip") (codes "saddr")) meta_l4proto
              (payload_field (codes "th") (codes "dport")))
            (string (0x40 ∷ set_name))
          ∷ accept
          ∷ []))
    ∷ []

-- `u32::try_from(secs).unwrap_or(u32::MAX)`
unfoldable pub timeout_secs : AccessRule → ℕ
timeout_secs access = min (as_secs access.timeout) u32_max

unfoldable pub port_key : Bytes → PortProto → Key
port_key octets pp = record {
  addr = ipv4_text octets;
  proto = protocol_text pp.proto;
  port = pp.port;
}

unfoldable pub key_text : Key → Text
key_text k = k.addr ++ (0x2f ∷ k.proto ++ (0x2f ∷ decimal_text k.port))

unfoldable pub add_key : ℕ → Key → NfObject
add_key secs k = add (element inet table_name set_name (elem (key_expr k) (some secs) ∷ []))

unfoldable pub delete_key : Key → NfObject
delete_key k = delete (element inet table_name set_name (key_expr k ∷ []))

-- The loop of `remove_rule` over the entries of a handle.
unfoldable pub parse_entries : Text → List Text → Result FirewallError (List Key)
parse_entries h [] = ok []
parse_entries h (entry ∷ rest) = do
  k ← ok_or (parse_entry u16_max (split_on 0x2f entry)) (rule_not_found h)
  ks ← parse_entries h rest
  ok (k ∷ ks)

-- The pattern `Ok(rs) if !handle_has_present_elements(handle, &rs)`.
unfoldable pub is_gone : RuleHandle → Result FirewallError Nftables → Bool
is_gone h (ok rs) = not (handle_has_present_elements h rs)
is_gone h (err e) = false

-- What `remove_rule` makes of a batch that the kernel refused; `current` is what it lists then.
unfoldable pub classify : RuleHandle → Result FirewallError Nftables → FirewallError → FirewallError
classify h current (backend msg) =
    if stderr_indicates_missing_element msg
    then rule_not_found (as_str h)
    else if backend_has_empty_stderr msg && is_gone h current
    then rule_not_found (as_str h)
    else backend msg
classify h current e = e

module _ (a : RulesetApplier) where
  pub record NftablesBackend : Type 0 where
    pub kernel : a.Kernel
    pub initialized : Bool

  unfoldable pub with_applier : a.Kernel → NftablesBackend
  with_applier kernel = record { kernel = kernel; initialized = false }

  unfoldable pub assert_initialized : Text → NftablesBackend → Result FirewallError (Unit {0})
  assert_initialized op s =
      fail_if (not s.initialized) (inconsistent_state (op ++ codes " called before init"))

  unfoldable pub finish_init :
      NftablesBackend
      → a.Kernel × Result FirewallError (Unit {0})
      → NftablesBackend × Result FirewallError (Unit {0})
  finish_init s (kernel, ok u) = (record { kernel = kernel; initialized = true }, ok tt)
  finish_init s (kernel, err e) = (record s { kernel = kernel }, err e)

  unfoldable pub nft_init : NftablesBackend → NftablesBackend × Result FirewallError (Unit {0})
  nft_init s = finish_init s (a.apply init_batch s.kernel)

  -- The end of `open_access`, by what the kernel answers.
  unfoldable pub finish_open :
      RuleHandle
      → NftablesBackend
      → a.Kernel × Result FirewallError (Unit {0})
      → NftablesBackend × Result FirewallError RuleHandle
  finish_open h s (kernel, ok u) = (record s { kernel = kernel }, ok h)
  finish_open h s (kernel, err e) = (record s { kernel = kernel }, err e)

  -- `open_access` from the match on the address on.
  unfoldable pub open_address :
      IpAddr → AccessRule → NftablesBackend → NftablesBackend × Result FirewallError RuleHandle
  open_address (v6 octets) access s =
      (s, err (unsupported (codes "IPv6 source addresses (Phase 2 nftables backend is IPv4-only)")))
  open_address (v4 octets) access s =
      let ks = map (port_key octets) access.ports in
      finish_open (handle (join 0x2c (map key_text ks))) s
        (a.apply (map (add_key (timeout_secs access)) ks) s.kernel)

  unfoldable pub open_ready :
      AccessRule
      → NftablesBackend
      → Result FirewallError (Unit {0})
      → NftablesBackend × Result FirewallError RuleHandle
  open_ready access s (err e) = (s, err e)
  open_ready access s (ok u) = open_address access.source_ip access s

  unfoldable pub nft_open :
      AccessRule → NftablesBackend → NftablesBackend × Result FirewallError RuleHandle
  nft_open access s = open_ready access s (assert_initialized (codes "open_access") s)

  unfoldable pub finish_remove :
      RuleHandle
      → NftablesBackend
      → a.Kernel × Result FirewallError (Unit {0})
      → NftablesBackend × Result FirewallError (Unit {0})
  finish_remove h s (kernel, ok u) = (record s { kernel = kernel }, ok tt)
  finish_remove h s (kernel, err e) =
      (record s { kernel = kernel }, err (classify h (a.get_current kernel) e))

  -- The batch of the deletions and the match on its outcome.
  unfoldable pub delete_keys :
      RuleHandle → List Key → NftablesBackend → NftablesBackend × Result FirewallError (Unit {0})
  delete_keys h ks s = finish_remove h s (a.apply (map delete_key ks) s.kernel)

  unfoldable pub remove_parsed :
      RuleHandle
      → NftablesBackend
      → Result FirewallError (List Key)
      → NftablesBackend × Result FirewallError (Unit {0})
  remove_parsed h s (err e) = (s, err e)
  remove_parsed h s (ok ks) = delete_keys h ks s

  unfoldable pub nft_remove :
      RuleHandle → NftablesBackend → NftablesBackend × Result FirewallError (Unit {0})
  nft_remove h s = remove_parsed h s (do
    assert_initialized (codes "remove_rule") s
    parse_entries (as_str h) (split_on 0x2c (as_str h)))

  -- The error of the kernel is logged only.
  unfoldable pub nft_flush : NftablesBackend → NftablesBackend × Result FirewallError (Unit {0})
  nft_flush s =
      let (kernel, r) = a.apply (delete (table inet table_name) ∷ []) s.kernel in
      (record { kernel = kernel; initialized = false }, ok tt)

  abbrev pub nft_backend : FirewallBackend
  nft_backend = record {
    State = NftablesBackend;
    init = nft_init;
    open_access = nft_open;
    remove_rule = nft_remove;
    flush = nft_flush;
  }
