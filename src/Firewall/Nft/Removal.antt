-- ===== src/Firewall/Nft/Removal.antt =====
-- `open_access` and `remove_rule` of the nftables backend, branch by branch.
use fwknox.Base.{
  ◌≡◌, refl, subst, err-injective, sym, ◌∙◌, ok-injective, true, false, List, [], ◌∷◌, map, arith,
  Result, ok, err, ◌>>◌, nat_eq, list_eq,
}
use fwknox.Base.Text.{Text, codes, is_empty, split_on, join}
use fwknox.Proto.Types.{Bytes, IpAddr, v4, v6, PortProto}
use fwknox.Firewall.Backend.{AccessRule, RuleHandle, handle, as_str, FirewallError, rule_not_found}
use fwknox.Firewall.Nft.Objects.{RulesetApplier}
use fwknox.Firewall.Nft.Backend.{
  Key, port_key, key_text, add_key, delete_key, timeout_secs, parse_entries, NftablesBackend,
  assert_initialized, finish_open, finish_remove, open_ready, remove_parsed, open_address, nft_open,
  delete_keys, nft_remove,
}
use fwknox.Firewall.Nft.Reports.{IsReported, classify-IsReported}
use fwknox.Firewall.Nft.Handle.{
  AreKeys, AreKeys-map, ArePorts, split_on-entries, parse_entries-key_text,
}

module _ (a : RulesetApplier) where
  -- Where the keys of a rule stand in its handle.
  abbrev pub rule_handle : Bytes → AccessRule → RuleHandle
  rule_handle octets access = handle (join 0x2c (map key_text (map (port_key octets) access.ports)))

  -- A successful `open_access` was for an IPv4 address on an initialised backend, and the kernel has
  -- taken one element for each port.
  pub record IsOpening (access : AccessRule) (h : RuleHandle) (s s' : NftablesBackend a)
      : Type 0 where
    pub octets : Bytes
    pub source : access.source_ip ≡ v4 octets
    pub ready : s.initialized ≡ true
    pub ready_after : s'.initialized ≡ true
    pub named : h ≡ rule_handle octets access
    pub applied :
        a.apply (map (add_key (timeout_secs access)) (map (port_key octets) access.ports)) s.kernel
        ≡ (s'.kernel, ok tt)

  finish_open-ok :
      (h0 : RuleHandle) (s : NftablesBackend a) (x : a.Kernel × Result FirewallError (Unit {0}))
      {h : RuleHandle}
      → (finish_open a h0 s x).1 ≡ ok h
      → (h ≡ h0)
        × ((finish_open a h0 s x).0.initialized ≡ s.initialized)
        × (x ≡ ((finish_open a h0 s x).0.kernel, ok tt))
  unfolding finish_open
  finish_open-ok h0 s (kernel, ok u) went = (sym (ok-injective went), refl, refl)
  finish_open-ok h0 s (kernel, err e) went = absurd (cc)

  open_address-ok :
      (ip : IpAddr) (access : AccessRule) (s : NftablesBackend a) {h : RuleHandle}
      → access.source_ip ≡ ip
      → s.initialized ≡ true
      → (open_address a ip access s).1 ≡ ok h
      → IsOpening access h s (open_address a ip access s).0
  unfolding open_address
  open_address-ok (v6 octets) access s e ready went = absurd (cc)
  open_address-ok (v4 octets) access s e ready went =
      let out = finish_open-ok (rule_handle octets access) s _ went in
      record {
        octets = octets;
        source = e;
        ready = ready;
        ready_after = out.1 ∙ ready;
        named = out.0;
        applied = out.2;
      }

  ready_of :
      (op : Text) (s : NftablesBackend a) {u : Unit {0}}
      → assert_initialized a op s ≡ ok u
      → s.initialized ≡ true
  unfolding assert_initialized
  ready_of op s h = ground arith

  open_ready-ok :
      (access : AccessRule) (s : NftablesBackend a) (r : Result FirewallError (Unit {0}))
      {h : RuleHandle}
      → assert_initialized a (codes "open_access") s ≡ r
      → (open_ready a access s r).1 ≡ ok h
      → IsOpening access h s (open_ready a access s r).0
  unfolding open_ready
  open_ready-ok access s (err e) was went = absurd (cc)
  open_ready-ok access s (ok u) was went =
      open_address-ok access.source_ip access s refl (ready_of _ s was) went

  pub nft_open-IsOpening :
      (access : AccessRule) (s : NftablesBackend a) {h : RuleHandle}
      → (nft_open a access s).1 ≡ ok h
      → IsOpening access h s (nft_open a access s).0
  unfolding nft_open
  nft_open-IsOpening access s went = open_ready-ok access s _ refl went

  is_ready :
      (op : Text) (s : NftablesBackend a) → s.initialized ≡ true → assert_initialized a op s ≡ ok tt
  unfolding assert_initialized
  is_ready op s h = rw h refl

  nft_remove-keys :
      (k : Key) (ks : List Key) (s : NftablesBackend a)
      → AreKeys (k ∷ ks)
      → s.initialized ≡ true
      → let h = handle (join 0x2c (map key_text (k ∷ ks))) in
        nft_remove a h s ≡ delete_keys a h (k ∷ ks) s
  unfolding nft_remove as_str remove_parsed
  nft_remove-keys k ks s are ready =
      rw
        (
          is_ready (codes "remove_rule") s ready,
          split_on-entries k ks are,
          parse_entries-key_text (join 0x2c (map key_text (k ∷ ks))) (k ∷ ks) are,
        )
        refl

  removal_of :
      (pps : List PortProto) (octets : Bytes) (t : NftablesBackend a)
      → is_empty pps ≡ false
      → ArePorts pps
      → t.initialized ≡ true
      → let h = handle (join 0x2c (map key_text (map (port_key octets) pps))) in
        nft_remove a h t ≡ delete_keys a h (map (port_key octets) pps) t
  removal_of [] octets t full are ready = absurd (cc)
  removal_of (pp ∷ pps) octets t full are ready =
      nft_remove-keys (port_key octets pp) (map (port_key octets) pps) t
        (AreKeys-map octets (pp ∷ pps) are) ready

  -- The handle that `open_access` returns for a rule with at least one port, each of 16 bits, tells
  -- `remove_rule`, in any later initialised state, to delete exactly the elements that were added
  -- for it: the rule's IPv4 address with each of its protocols and ports.
  pub nft_remove-nft_open :
      (access : AccessRule) (s t : NftablesBackend a) {h : RuleHandle}
      → (nft_open a access s).1 ≡ ok h
      → is_empty access.ports ≡ false
      → ArePorts access.ports
      → t.initialized ≡ true
      → (octets : Bytes) × (access.source_ip ≡ v4 octets)
        × (a.apply
              (map (add_key (timeout_secs access)) (map (port_key octets) access.ports))
              s.kernel
            ≡ ((nft_open a access s).0.kernel, ok tt))
        × (nft_remove a h t ≡ delete_keys a h (map (port_key octets) access.ports) t)
  nft_remove-nft_open access s t went full are ready =
      let o = nft_open-IsOpening access s went in
      (
        o.octets,
        o.source,
        o.applied,
        rw o.named (removal_of access.ports o.octets t full are ready),
      )

  -- Why `remove_rule` calls a rule unknown.
  pub data IsUnknown (h : RuleHandle) (s : NftablesBackend a) : Type 0 where
    malformed :
        (e : FirewallError)
        → parse_entries (as_str h) (split_on 0x2c (as_str h)) ≡ err e
        → IsUnknown h s
    refused :
        (ks : List Key) (e : FirewallError)
        → parse_entries (as_str h) (split_on 0x2c (as_str h)) ≡ ok ks
        → (a.apply (map delete_key ks) s.kernel).1 ≡ err e
        → IsReported h (a.get_current (a.apply (map delete_key ks) s.kernel).0) e
        → IsUnknown h s

  finish_remove-IsReported :
      (h : RuleHandle) (s : NftablesBackend a) (x : a.Kernel × Result FirewallError (Unit {0}))
      {id : Text}
      → (finish_remove a h s x).1 ≡ err (rule_not_found id)
      → (e : FirewallError) × (x.1 ≡ err e) × IsReported h (a.get_current x.0) e
  unfolding finish_remove
  finish_remove-IsReported h s (kernel, ok u) went = absurd (cc)
  finish_remove-IsReported h s (kernel, err e) went =
      (e, refl, classify-IsReported h (a.get_current kernel) e (err-injective went))

  remove_parsed-IsUnknown :
      (h : RuleHandle) (s : NftablesBackend a) (r : Result FirewallError (List Key)) {id : Text}
      → parse_entries (as_str h) (split_on 0x2c (as_str h)) ≡ r
      → (remove_parsed a h s r).1 ≡ err (rule_not_found id)
      → IsUnknown h s
  unfolding remove_parsed delete_keys
  remove_parsed-IsUnknown h s (err e) was went = malformed e was
  remove_parsed-IsUnknown h s (ok ks) was went =
      let f = finish_remove-IsReported h s (a.apply (map delete_key ks) s.kernel) went in
      refused ks f.0 was f.1 f.2

  -- `remove_rule` on an initialised backend calls a rule unknown only if the handle is malformed, or
  -- the kernel refuses the deletions and: its message, in lower case, has one of the three texts in it
  -- that speak of a missing element or a rule that could not be processed; or it has an empty `stderr`
  -- in it and the listing taken then shows the search none of the handle's elements; or the kernel's
  -- side has called the rule unknown itself.
  pub nft_remove-IsUnknown :
      (h : RuleHandle) (s : NftablesBackend a) {id : Text}
      → s.initialized ≡ true
      → (nft_remove a h s).1 ≡ err (rule_not_found id)
      → IsUnknown h s
  unfolding nft_remove
  nft_remove-IsUnknown h s {id = id} ready went = remove_parsed-IsUnknown h s _ refl (
      subst
        (λ r.
          (remove_parsed a h s (r >> parse_entries (as_str h) (split_on 0x2c (as_str h)))).1
          ≡ err (rule_not_found id))
        (is_ready (codes "remove_rule") s ready) went)
