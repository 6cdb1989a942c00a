-- ===== src/Daemon/Policy.antt =====
-- What it takes for `process_packet` to open the firewall.
use mathlib.Core.List.{Memᴰ}
use mathlib.Core.List.Memᴰ.{head, tail, not-nil}
use fwknox.Base.{
  ◌≡◌, ◌⊎◌, ap, sym, ◌∙◌, subst, true, false, not, ◌&&◌, List, [], ◌∷◌, String, arith, any, ◌==◌,
  string_eq, nat_eq, list_eq, Result, ok, err, Bool-cases, inl, inr, ==-eq, bind_then, guard_then,
  ok-injective,
}
use fwknox.Proto.Types.{
  IpAddr, PortProto, SpaMessage, access, nat, local_nat, command, SpaPayload, ip_eq, port_proto_eq,
}
use fwknox.Proto.Freshness.{validate_against_clock, default_max_skew_secs}
use fwknox.Config.Types.{as_secs, matches, AccessStanza, DaemonConfig}
use fwknox.Config.Valid.{AreUsable}
use fwknox.Daemon.Host.{Host, Moment, CapturedPacket, Reason, now_unix, age_limit}
use fwknox.Daemon.Match.{MatchResult, matched, no_match, rejected, match_packet}
use fwknox.Daemon.Owner.{IsOwner, match_packet-IsOwner}
use fwknox.Daemon.Pipeline.{
  find_stanza, take_match, or_return, check_ports, take_access, Request, refused, authenticate,
  check_policy,
}

pub or_return-eq-ok {ℓ κ ι} :
    {E : Type ℓ} {R : Type κ} {A : Type ι} (r : Result E A) (f : E → R) {a : A}
    → or_return r f ≡ ok a
    → r ≡ ok a
or_return-eq-ok (ok a) f h = ap ok (ok-injective h)
or_return-eq-ok (err e) f h = cc

pub take_match-eq-ok :
    (r : MatchResult) {f : String × SpaPayload} → take_match r ≡ ok f → r ≡ matched f.0 f.1
unfolding take_match
take_match-eq-ok (matched name p) h = ap (λ f. matched f.0 f.1) (ok-injective h)
take_match-eq-ok no_match h = absurd (cc)
take_match-eq-ok (rejected name e) h = absurd (cc)

take_access-eq-ok :
    (m : SpaMessage) {a : IpAddr × List PortProto} → take_access m ≡ ok a → m ≡ access a.0 a.1
unfolding take_access
take_access-eq-ok (access ip ports) h = ap (λ a. access a.0 a.1) (ok-injective h)
take_access-eq-ok (nat ip ports dest) h = absurd (cc)
take_access-eq-ok (local_nat ip ports dest) h = absurd (cc)
take_access-eq-ok (command ip line) h = absurd (cc)

any-Mem :
    (pp : PortProto) (allowed : List PortProto)
    → any (λ a. a == pp) allowed ≡ true
    → Memᴰ pp allowed
any-Mem pp [] h = absurd (cc)
any-Mem pp (a ∷ allowed) h = elim (Bool-cases (a == pp)) [
  | inl e ↦ head (sym (==-eq a pp e))
  | inr ne ↦ tail (any-Mem pp allowed (ground (arith)))
]

check_ports-Mem :
    (allowed ports : List PortProto)
    → check_ports allowed ports ≡ ok tt
    → (pp : PortProto) → Memᴰ pp ports
    → Memᴰ pp allowed
unfolding check_ports
check_ports-Mem allowed (p ∷ ports) h pp (head e) =
    guard_then (not (any (λ a. a == p) allowed)) _ _ h
      λ g rest. subst (λ q. Memᴰ q allowed) (sym e) (any-Mem p allowed (ground arith))
check_ports-Mem allowed (p ∷ ports) h pp (tail m) =
    guard_then (not (any (λ a. a == p) allowed)) _ _ h
      λ g rest. check_ports-Mem allowed ports rest pp m
check_ports-Mem allowed [] h pp m = absurd (not-nil m)

module _ (host : Host) where
  -- The policy of a stanza, for a packet from an address.
  pub record IsAllowed (stanza : AccessStanza) (packet_ip ip : IpAddr) (ports : List PortProto)
      : Type 0 where
    pub same_source : (stanza.require_source_match ≡ false) ⊎ (ip ≡ packet_ip)
    pub in_sources : any (λ s. matches host.contains s packet_ip) stanza.source ≡ true
    pub in_ports : (pp : PortProto) → Memᴰ pp ports → Memᴰ pp stanza.open_ports

  pub check_policy-IsAllowed :
      (stanza : AccessStanza) (packet_ip : IpAddr) (message : SpaMessage)
      {a : IpAddr × List PortProto}
      → check_policy host stanza packet_ip message ≡ ok a
      → (message ≡ access a.0 a.1) × IsAllowed stanza packet_ip a.0 a.1
  unfolding check_policy
  check_policy-IsAllowed stanza packet_ip message h = bind_then (take_access message) _ h λ a m h.
      guard_then (stanza.require_source_match && not (a.0 == packet_ip)) _ _ h λ same h.
        guard_then (not (any (λ s. matches host.contains s packet_ip) stanza.source)) _ _ h
          λ listed h. bind_then (check_ports stanza.open_ports a.1) _ h λ u ports h.
            subst (λ b. (message ≡ access b.0 b.1) × IsAllowed stanza packet_ip b.0 b.1)
              (ok-injective h)
              (
                take_access-eq-ok message m,
                record {
                  same_source = ground (arith, ip_eq.decides a.0 packet_ip);
                  in_sources = ground arith;
                  in_ports = check_ports-Mem stanza.open_ports a.1 ports;
                },
              )

  -- What `authenticate` has found.
  pub record IsAuthentic (m : Moment) (config : DaemonConfig) (captured : CapturedPacket)
      (r : Request) : Type 0 where
    pub owner : IsOwner host.crypto captured.datagram config.access r.stanza_name r.payload r.stanza
    pub fresh :
        validate_against_clock r.payload
          (now_unix m.unix)
          (age_limit (as_secs config.daemon.max_spa_packet_age))
          default_max_skew_secs
        ≡ ok tt

  pub IsOwner-same :
      (config : DaemonConfig) (captured : CapturedPacket) {name : String} {p : SpaPayload}
      {s t : AccessStanza}
      → IsOwner host.crypto captured.datagram config.access name p s
      → find_stanza config.access name ≡ ok t
      → IsOwner host.crypto captured.datagram config.access name p t
  IsOwner-same config captured {name} {p} h e =
      subst (IsOwner host.crypto captured.datagram config.access name p)
        (ok-injective (sym h.looked_up ∙ e)) h

  pub authenticate-IsAuthentic :
      (m : Moment) (config : DaemonConfig) (captured : CapturedPacket) {r : Request}
      → AreUsable [] config.access
      → authenticate host m config captured ≡ ok r
      → IsAuthentic m config captured r
  unfolding authenticate
  authenticate-IsAuthentic m config captured usable h =
      bind_then (take_match (match_packet host.crypto captured.datagram config.access)) _ h
        λ f found h. bind_then (or_return (find_stanza config.access f.0) err) _ h λ s looked_up h.
          bind_then
            (or_return
              (validate_against_clock f.1 (now_unix m.unix)
                (age_limit (as_secs config.daemon.max_spa_packet_age)) default_max_skew_secs)
              (λ e. ok (refused f.0 (Reason.protocol e))))
            _ h
            λ u fresh h.
              let (o, owner) =
                match_packet-IsOwner host.crypto captured.datagram config.access usable
                  (take_match-eq-ok _ found) in
              subst (IsAuthentic m config captured) (ok-injective h) (record {
                owner = IsOwner-same config captured owner (or_return-eq-ok _ err looked_up);
                fresh = or_return-eq-ok _ _ fresh;
              })
