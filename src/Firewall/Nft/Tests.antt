-- ===== src/Firewall/Nft/Tests.antt =====
-- The nftables backend at a concrete rule, on a kernel that keeps a list.
use fwknox.Base.{◌≡◌, refl, true, false, none, [], ◌∷◌, map, arith, any, ok, err, nat_eq, list_eq}
use fwknox.Base.Text.{codes, join, split_where, split_on, to_ascii_lowercase, contains}
use fwknox.Base.Number.{
  decimal_text, decimal_digits, parse_uint, at_most, parse_signed, parse_digits, is_digit,
}
use fwknox.Proto.Display.{ipv4_text, protocol_text}
use fwknox.Firewall.Nft.Handle.{IsKey}
use fwknox.Proto.Types.{Bytes, v4, tcp, udp}
use fwknox.Config.Types.{from_secs}
use fwknox.Firewall.Backend.{AccessRule, RuleHandle, handle, as_str, rule_not_found}
use fwknox.Firewall.Nft.Objects.{inet, Set}
use fwknox.Firewall.Nft.Backend.{
  Key, key_text, key_expr, key_beq, port_key, add_key, delete_key, delete_keys, timeout_secs,
  handle_has_present_elements, NftablesBackend, nft_init, finish_init, nft_open, nft_remove,
  parse_entry, parse_entries, finish_open, open_address, open_ready, assert_initialized,
  finish_remove, remove_parsed, listed_key, classify, stderr_indicates_missing_element,
}
use fwknox.Firewall.Nft.Removal.{IsUnknown, nft_remove-nft_open, nft_remove-IsUnknown}
use fwknox.Firewall.Nft.Present.{listing, timed, handle_has_present_elements-listing}
use fwknox.Firewall.Nft.Ruleset.{key_in, one_key, cons_key, keys_of, run, runs}
use fwknox.Firewall.Nft.Sample.{ruleset_kernel, misses, commit}

abbrev access : AccessRule
access = record {
  source_ip = v4 (192 ∷ 0 ∷ 2 ∷ 1 ∷ []);
  ports = record { proto = tcp; port = 22 } ∷ record { proto = udp; port = 51820 } ∷ [];
  timeout = from_secs 30;
  comment = "fwknox:alice:1700000000";
}

abbrev bare : NftablesBackend ruleset_kernel
bare = record {
  kernel = record {
    timed_set = λ p. false;
    holds = λ p k. false;
    input = λ p. false;
    rules = λ p. [];
  };
  initialized = false;
}

abbrev started : NftablesBackend ruleset_kernel
started = (nft_init ruleset_kernel bare).0

abbrev ssh_handle : RuleHandle
ssh_handle = handle (codes "192.0.2.1/tcp/22,192.0.2.1/udp/51820")

program : Unit {0}
unfolding nft_init finish_init ipv4_text protocol_text join decimal_text decimal_digits timeout_secs
    port_key key_text add_key delete_key parse_entry parse_entries parse_uint at_most parse_signed
    parse_digits is_digit split_where split_on finish_open open_address open_ready
    assert_initialized nft_open finish_remove delete_keys remove_parsed nft_remove as_str misses
    commit keys_of one_key cons_key key_in run runs listed_key
program = tt

abbrev opened_state : NftablesBackend ruleset_kernel
opened_state = (nft_open ruleset_kernel access started).0

opened : (nft_open ruleset_kernel access started).1 ≡ ok ssh_handle
unfolding program
opened = refl

opened_state-ready : opened_state.initialized ≡ true
unfolding program
opened_state-ready = refl

started_flag : started.initialized ≡ true
unfolding program
started_flag = refl

twice : (nft_remove ruleset_kernel ssh_handle started).1 ≡ err (rule_not_found (as_str ssh_handle))
unfolding program classify stderr_indicates_missing_element to_ascii_lowercase contains
twice = refl

nft_remove-nft_open_example :
    (octets : Bytes) × (access.source_ip ≡ v4 octets)
    × (ruleset_kernel.apply
          (map (add_key (timeout_secs access)) (map (port_key octets) access.ports))
          started.kernel
        ≡ (opened_state.kernel, ok tt))
    × (nft_remove ruleset_kernel ssh_handle opened_state
        ≡ delete_keys ruleset_kernel ssh_handle (map (port_key octets) access.ports) opened_state)
nft_remove-nft_open_example =
    nft_remove-nft_open ruleset_kernel access started opened_state opened refl
      (omega arith, (omega arith, tt)) opened_state-ready

nft_remove-IsUnknown_example : IsUnknown ruleset_kernel ssh_handle started
nft_remove-IsUnknown_example =
    nft_remove-IsUnknown ruleset_kernel ssh_handle started started_flag twice

abbrev ssh_key : Key
ssh_key = record { addr = codes "192.0.2.1"; proto = codes "tcp"; port = 22 }

abbrev allow_set : Set
allow_set = record {
  family = inet;
  table = codes "fwknox";
  name = [];
  set_type = [];
  has_timeout = true;
  elem = none;
}

ssh_key-IsKey : IsKey ssh_key
ssh_key-IsKey = record {
  addr_slash = refl;
  addr_comma = refl;
  proto_slash = refl;
  proto_comma = refl;
  port = omega arith;
}

handle_has_present_elements-listing_example :
    let h = handle (join 0x2c (map key_text (ssh_key ∷ []))) in
    (handle_has_present_elements h (listing allow_set (map key_expr (ssh_key ∷ [])))
      ≡ any (λ m. any (λ t. key_beq t m) (ssh_key ∷ [])) (ssh_key ∷ []))
    × (handle_has_present_elements h (listing allow_set (map (timed 30) (ssh_key ∷ []))) ≡ false)
handle_has_present_elements-listing_example =
    handle_has_present_elements-listing ssh_key [] (ssh_key ∷ []) allow_set 30 (ssh_key-IsKey, tt)
