-- ===== src/Proto/Sample.antt =====
-- A concrete parameter for the tests: ciphers that append a constant tag, and a codec that knows
-- one payload.
use native.Mathlib.Omega.{arith}
use fwknox.Base.{
  ℕ, ◌+◌, ◌-◌, ◌≡◌, refl, ap, sym, ◌∙◌, Bool, true, false, ◌&&◌, Option, none, some, [], ◌∷◌, ◌++◌,
  length, take, replicate, ok, err, ◌==◌, list_eq, nat_eq, string_eq, list_beq_iff, ==-refl,
  length-append, length-replicate, take-append, Bool-cases, some-eq, inl, inr, if◌then◌else◌,
}
use fwknox.Base.Int.{ℤ, pos, negsuc}
use fwknox.Proto.Types.{
  Bytes, v4, tcp, PortProto, SpaMessage, access, nat, local_nat, command, SpaPayload, ip_eq,
  port_proto_eq,
}
use fwknox.Proto.Crypto.{Crypto, IsSound, tag_len}

abbrev pub ssh : PortProto
ssh = record { proto = tcp; port = 22 }

abbrev pub alice : SpaPayload
alice = record {
  nonce = replicate 16 0xcd;
  timestamp = pos 1_700_000_000;
  username = "alice";
  message = access (v4 (192 ∷ 168 ∷ 1 ∷ 5 ∷ [])) (ssh ∷ []);
  client_timeout = some 60;
}

abbrev pub is_timestamp : ℤ → Bool
is_timestamp (pos n) = n == 1_700_000_000
is_timestamp (negsuc n) = false

abbrev pub is_timeout : Option ℕ → Bool
is_timeout none = false
is_timeout (some n) = n == 60

abbrev pub is_message : SpaMessage → Bool
is_message (access ip ports) = (ip == v4 (192 ∷ 168 ∷ 1 ∷ 5 ∷ [])) && (ports == ssh ∷ [])
is_message (nat ip ports dest) = false
is_message (local_nat ip ports dest) = false
is_message (command ip line) = false

is_message-eq : (m : SpaMessage) → is_message m ≡ true → m ≡ alice.message
is_message-eq (access ip ports) h =
    ground (arith, ip_eq.decides ip (v4 (192 ∷ 168 ∷ 1 ∷ 5 ∷ [])), list_beq_iff ports (ssh ∷ []))
is_message-eq (nat ip ports dest) h = absurd (cc)
is_message-eq (local_nat ip ports dest) h = absurd (cc)
is_message-eq (command ip line) h = absurd (cc)

abbrev pub is_alice : SpaPayload → Bool
is_alice p =
    (p.nonce == alice.nonce)
    && (p.username == "alice")
    && is_timestamp p.timestamp
    && is_timeout p.client_timeout
    && is_message p.message

is_timestamp-eq : (t : ℤ) → is_timestamp t ≡ true → t ≡ alice.timestamp
is_timestamp-eq t h = ground arith

is_timeout-eq : (t : Option ℕ) → is_timeout t ≡ true → t ≡ alice.client_timeout
is_timeout-eq t h = ground arith

pub is_alice-eq : (p : SpaPayload) → is_alice p ≡ true → p ≡ alice
is_alice-eq p h =
    let n : p.nonce ≡ alice.nonce = ground (arith, list_beq_iff p.nonce alice.nonce) in
    let u : p.username ≡ "alice" = ground (arith, string_eq.decides p.username "alice") in
    let t = is_timestamp-eq p.timestamp (ground arith) in
    let o = is_timeout-eq p.client_timeout (ground arith) in
    let m = is_message-eq p.message (ground arith) in
    λ i. record {
      nonce = n i;
      timestamp = t i;
      username = u i;
      message = m i;
      client_timeout = o i;
    }

abbrev pub encoded : Bytes
encoded = 1 ∷ 2 ∷ 3 ∷ []

abbrev pub toy : Crypto
toy = record {
  hkdf = λ salt ikm info n. some (replicate n (length salt + length ikm));
  hmac = λ k m. replicate 32 (length k + length m);
  hmac_verify = λ k m t. t == replicate 32 (length k + length m);
  fill = λ n. some (replicate n 5);
  seal = λ k n a p. some (p ++ replicate 16 9);
  open_tag = λ k n a t. some (take (length t - 16) t);
  to_vec = λ p. if is_alice p then ok encoded else err "unknown payload";
  from_slice = λ b. ok alice;
}

length-fill_toy : (n x : ℕ) {b : Bytes} → some (replicate n x) ≡ some b → length b ≡ n
length-fill_toy n x e = sym (ap length (some-eq e)) ∙ length-replicate n x

length-seal_toy :
    (p : Bytes) {t : Bytes} → some (p ++ replicate 16 9) ≡ some t → length t ≡ length p + tag_len
length-seal_toy p e = sym (ap length (some-eq e)) ∙ length-append p (replicate 16 9)

open-seal_toy :
    (p : Bytes) {t : Bytes}
    → some (p ++ replicate 16 9) ≡ some t
    → some (take (length t - 16) t) ≡ some p
open-seal_toy p e =
    sym (ap (λ (u : Bytes). some (take (length u - 16) u)) (some-eq e))
    ∙ ap some (take-append _ p (replicate 16 9) (omega (arith, length-append p (replicate 16 9))))

from-to_toy : (p : SpaPayload) {b : Bytes} → toy.to_vec p ≡ ok b → toy.from_slice b ≡ ok p
from-to_toy p {b} e = elim (Bool-cases (is_alice p)) [
  | inl known ↦ ap ok (sym (is_alice-eq p known))
  | inr unknown ↦ absurd (ground arith)
]

pub toy-IsSound : IsSound toy
toy-IsSound = record {
  length-hkdf = λ salt ikm info n e. length-fill_toy n _ e;
  length-hmac = λ k m. refl;
  verify-hmac = λ k m. ==-refl (replicate 32 (length k + length m));
  length-fill = λ n e. length-fill_toy n 5 e;
  length-seal = λ k n a p e. length-seal_toy p e;
  open-seal = λ k n a p e. open-seal_toy p e;
  from-to = from-to_toy;
}

abbrev pub key : Bytes
key = replicate 32 0x42

-- Header 01 02 00 13, nonce, three bytes of text with their tag, HMAC.
abbrev pub signed : Bytes
signed = (1 ∷ 2 ∷ 0 ∷ 19 ∷ []) ++ (replicate 12 5 ++ (encoded ++ replicate 16 9))

abbrev pub wire : Bytes
wire = signed ++ replicate 32 67
