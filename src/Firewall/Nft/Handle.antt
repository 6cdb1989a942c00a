-- ===== src/Firewall/Nft/Handle.antt =====
-- A handle is a text from which `remove_rule` reads the elements back.
use fwknox.Base.{
  ℕ, ◌<◌, ◌≤◌, ◌≡◌, refl, Bool, true, false, not, some, List, [], ◌∷◌, map, arith, all, nat_beq, ok,
  nat_eq, list_eq,
}
use fwknox.Base.Text.{Text, split_on, join, lacks, split_on-join}
use fwknox.Base.Number.{decimal_text, parse_uint-decimal_text, lacks-decimal_text, all-append}
use fwknox.Proto.Types.{Bytes, Protocol, tcp, udp, PortProto}
use fwknox.Proto.Display.{protocol_text, ipv4_text}
use fwknox.Firewall.Nft.Backend.{
  u16_max, u32_max, Key, parse_entry, parse_entries, targets, port_key, key_text,
}

-- An element whose texts hold none of the separators, and whose port is one.
pub record IsKey (k : Key) : Type 0 where
  pub addr_slash : lacks 0x2f k.addr ≡ true
  pub addr_comma : lacks 0x2c k.addr ≡ true
  pub proto_slash : lacks 0x2f k.proto ≡ true
  pub proto_comma : lacks 0x2c k.proto ≡ true
  pub port : k.port ≤ u16_max

abbrev pub AreKeys : List Key → Type 0
AreKeys [] = Unit
AreKeys (k ∷ ks) = IsKey k × AreKeys ks

abbrev pub ArePorts : List PortProto → Type 0
ArePorts [] = Unit
ArePorts (pp ∷ pps) = (pp.port ≤ u16_max) × ArePorts pps

lacks-ipv4_text :
    (d : ℕ) (octets : Bytes) → d < 48 → nat_beq 46 d ≡ false → lacks d (ipv4_text octets) ≡ true
unfolding ipv4_text join
lacks-ipv4_text d [] small ne = refl
lacks-ipv4_text d (b ∷ []) small ne = lacks-decimal_text d b (omega arith)
lacks-ipv4_text d (b ∷ c ∷ octets) small ne =
    all-append _ (decimal_text b) _ (lacks-decimal_text d b (omega arith))
      (ground (arith, lacks-ipv4_text d (c ∷ octets)))

slash_free : (p : Protocol) → lacks 0x2f (protocol_text p) ≡ true
unfolding protocol_text
slash_free tcp = refl
slash_free udp = refl

comma_free : (p : Protocol) → lacks 0x2c (protocol_text p) ≡ true
unfolding protocol_text
comma_free tcp = refl
comma_free udp = refl

port_key-IsKey : (octets : Bytes) (pp : PortProto) → pp.port ≤ u16_max → IsKey (port_key octets pp)
unfolding port_key
port_key-IsKey octets pp small = record {
  addr_slash = lacks-ipv4_text 0x2f octets (omega arith) refl;
  addr_comma = lacks-ipv4_text 0x2c octets (omega arith) refl;
  proto_slash = slash_free pp.proto;
  proto_comma = comma_free pp.proto;
  port = small;
}

pub AreKeys-map :
    (octets : Bytes) (pps : List PortProto) → ArePorts pps → AreKeys (map (port_key octets) pps)
AreKeys-map octets [] h = tt
AreKeys-map octets (pp ∷ pps) h = (port_key-IsKey octets pp h.0, AreKeys-map octets pps h.1)

split_on-key_text :
    (k : Key) → IsKey k → split_on 0x2f (key_text k) ≡ k.addr ∷ k.proto ∷ decimal_text k.port ∷ []
unfolding key_text join
split_on-key_text k h =
    split_on-join 0x2f k.addr (k.proto ∷ decimal_text k.port ∷ [])
      (ground (arith, h.addr_slash, h.proto_slash, lacks-decimal_text 0x2f k.port))

lacks-key_text : (k : Key) → IsKey k → lacks 0x2c (key_text k) ≡ true
unfolding key_text
lacks-key_text k h =
    let p : ℕ → Bool = λ c. not (nat_beq c 0x2c) in
    all-append p k.addr _ h.addr_comma (
      all-append p (0x2f ∷ k.proto) (0x2f ∷ decimal_text k.port) h.proto_comma
        (lacks-decimal_text 0x2c k.port (omega arith)))

module _ (max : ℕ) (wide : u16_max ≤ max) (small : max ≤ u32_max) where
  parse_entry-key_text : (k : Key) → IsKey k → parse_entry max (split_on 0x2f (key_text k)) ≡ some k
  unfolding parse_entry
  parse_entry-key_text k h =
      rw
        (
          split_on-key_text k h,
          parse_uint-decimal_text max k.port (omega (arith, wide, h.port)) (omega (arith, h.port)),
        )
        refl

all-key_text : (ks : List Key) → AreKeys ks → all (λ v. lacks 0x2c v) (map key_text ks) ≡ true
all-key_text [] h = refl
all-key_text (k ∷ ks) h = ground (arith, lacks-key_text k h.0, all-key_text ks h.1)

-- The entries of a handle are those that it was joined from.
pub split_on-entries :
    (k : Key) (ks : List Key)
    → AreKeys (k ∷ ks)
    → split_on 0x2c (join 0x2c (map key_text (k ∷ ks))) ≡ map key_text (k ∷ ks)
split_on-entries k ks h =
    split_on-join 0x2c (key_text k) (map key_text ks) (all-key_text (k ∷ ks) h)

pub parse_entries-key_text :
    (h : Text) (ks : List Key) → AreKeys ks → parse_entries h (map key_text ks) ≡ ok ks
unfolding parse_entries
parse_entries-key_text h [] are = refl
parse_entries-key_text h (k ∷ ks) are =
    rw
      (
        parse_entry-key_text u16_max (omega arith) (omega arith) k are.0,
        parse_entries-key_text h ks are.1,
      )
      refl

pub targets-key_text : (ks : List Key) → AreKeys ks → targets (map key_text ks) ≡ ks
unfolding targets
targets-key_text [] are = refl
targets-key_text (k ∷ ks) are =
    rw (parse_entry-key_text u32_max (omega arith) (omega arith) k are.0, targets-key_text ks are.1)
      refl
