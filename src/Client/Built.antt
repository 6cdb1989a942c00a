-- ===== src/Client/Built.antt =====
-- What a packet of the client says, and that the daemon's parser reads it back.
use fwknox.Base.{◌≡◌, refl, sym, ◌∙◌, Option, some, List, Result, ok, err, map_err}
use fwknox.Proto.Types.{Bytes, IpAddr, PortProto, access, SpaPayload}
use fwknox.Proto.Crypto.{IsSound}
use fwknox.Proto.Payload.{validate_structure}
use fwknox.Proto.Packet.{build_packet, parse_packet}
use fwknox.Proto.Packet.RoundTrip.{parse_packet-build_packet}
use fwknox.Config.Client.{ServerEntry}
use fwknox.Client.Packet.{
  Cli, proto_failed, Tools, Surroundings, resolve_ports, resolve_username, current_unix,
  random_nonce, resolve_timeout, resolve_master_key, resolve_source_ip, build_spa_packet,
}

map_err-ok {ℓ κ ι} :
    {E : Type ℓ} {F : Type κ} {A : Type ι} (f : E → F) (r : Result E A) {a : A}
    → map_err f r ≡ ok a
    → r ≡ ok a
map_err-ok f (ok b) h = cc
map_err-ok f (err e) h = absurd (cc)

module _ (t : Tools) (env : Surroundings) (cli : Cli) (server : Option ServerEntry) where
  -- The payload for what the arguments and the server's entry resolve to.
  abbrev pub asked_payload : List PortProto → IpAddr → Bytes → SpaPayload
  asked_payload ports source_ip nonce = record {
    nonce = nonce;
    timestamp = current_unix env;
    username = resolve_username cli.username env;
    message = access source_ip ports;
    client_timeout = resolve_timeout cli.timeout server;
  }

  -- What the arguments and the server's entry resolve to.
  pub record IsAsked (master_key : Bytes) (ports : List PortProto) (source_ip : IpAddr)
      (nonce : Bytes) : Type 0 where
    pub key_resolved : resolve_master_key t cli.master_key_base64 server ≡ ok master_key
    pub ports_resolved : resolve_ports cli.access server ≡ ok ports
    pub source_resolved : resolve_source_ip t cli.source_ip server ≡ ok source_ip
    pub nonce_drawn : env.random ≡ some nonce

  module _ {master_key : Bytes} {ports : List PortProto} {source_ip : IpAddr} {nonce : Bytes}
      (a : IsAsked master_key ports source_ip nonce) where
    build_spa_packet-asked :
        build_spa_packet t env cli server
        ≡ map_err proto_failed
            (build_packet t.crypto (asked_payload ports source_ip nonce) master_key)
    unfolding build_spa_packet random_nonce
    build_spa_packet-asked =
        rw (a.key_resolved, a.ports_resolved, a.source_resolved, a.nonce_drawn) refl

    -- With sound ciphers and codec, a packet of the client parses, under the key that its arguments
    -- resolve to, to the payload that they ask for, if that is structurally valid.
    pub parse_packet-build_spa_packet :
        {wire : Bytes}
        → IsSound t.crypto
        → build_spa_packet t env cli server ≡ ok wire
        → validate_structure (asked_payload ports source_ip nonce) ≡ ok tt
        → parse_packet t.crypto wire master_key ≡ ok (asked_payload ports source_ip nonce)
    parse_packet-build_spa_packet sound went valid =
        parse_packet-build_packet sound (asked_payload ports source_ip nonce) master_key valid
          (map_err-ok proto_failed _ (sym build_spa_packet-asked ∙ went))
