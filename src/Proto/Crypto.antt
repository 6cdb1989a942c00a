-- ===== src/Proto/Crypto.antt =====
-- What crates/fwknox-proto takes from `ring` and `rmp_serde` as a parameter, and its wrappers:
-- aead.rs, hmac.rs and kdf.rs. An operation that may fail returns an `Option`, or the text of the
-- error where the source keeps it.
use fwknox.Base.{
  ℕ, ◌+◌, ◌≡◌, Bool, true, not, Option, some, String, nat_beq, ltb, length, Result, ok, ◌>>=◌, ◌>>◌,
  fail_if, ok_or,
}
use fwknox.Proto.Types.{Bytes, SpaPayload, ProtoError, hmac_failed, aead_failed, hkdf_failed}
use fwknox.Base.Text.{codes}

abbrev pub key_len : ℕ
key_len = 32

abbrev pub nonce_len : ℕ
nonce_len = 12

abbrev pub tag_len : ℕ
tag_len = 16

abbrev pub hmac_len : ℕ
hmac_len = 32

abbrev pub subkey_len : ℕ
subkey_len = 32

-- `hkdf salt ikm info n`: `Salt::extract`, `expand` and `fill`, n bytes. `fill n` is what
-- `SystemRandom` gives to one call. `seal` and `open_tag` take key, nonce, associated data, text.
pub record Crypto : Type 0 where
  pub hkdf : Bytes → Bytes → Bytes → ℕ → Option Bytes
  pub hmac : Bytes → Bytes → Bytes
  pub hmac_verify : Bytes → Bytes → Bytes → Bool
  pub fill : ℕ → Option Bytes
  pub seal : Bytes → Bytes → Bytes → Bytes → Option Bytes
  pub open_tag : Bytes → Bytes → Bytes → Bytes → Option Bytes
  pub to_vec : SpaPayload → Result String Bytes
  pub from_slice : Bytes → Result String SpaPayload

-- What their documentation promises.
pub record IsSound (c : Crypto) : Type 0 where
  pub length-hkdf :
      (salt ikm info : Bytes) (n : ℕ) {k : Bytes} → c.hkdf salt ikm info n ≡ some k → length k ≡ n
  pub length-hmac : (k m : Bytes) → length (c.hmac k m) ≡ hmac_len
  pub verify-hmac : (k m : Bytes) → c.hmac_verify k m (c.hmac k m) ≡ true
  pub length-fill : (n : ℕ) {b : Bytes} → c.fill n ≡ some b → length b ≡ n
  pub length-seal :
      (k n a p : Bytes) {t : Bytes} → c.seal k n a p ≡ some t → length t ≡ length p + tag_len
  pub open-seal :
      (k n a p : Bytes) {t : Bytes} → c.seal k n a p ≡ some t → c.open_tag k n a t ≡ some p
  pub from-to : (p : SpaPayload) {b : Bytes} → c.to_vec p ≡ ok b → c.from_slice b ≡ ok p

pub record DerivedKeys : Type 0 where
  pub enc : Bytes
  pub hmac : Bytes

module _ (c : Crypto) where
  unfoldable pub derive_one : Bytes → Bytes → Bytes → Result ProtoError Bytes
  derive_one ikm salt info = ok_or (c.hkdf salt ikm info subkey_len) hkdf_failed

  unfoldable pub derive : Bytes → Result ProtoError DerivedKeys
  unfolding derive_one
  derive master_key = do
    enc ← derive_one master_key (codes "fwknox-enc-v1") (codes "encryption")
    hmac ← derive_one master_key (codes "fwknox-hmac-v1") (codes "authentication")
    ok (record { enc = enc; hmac = hmac })

  unfoldable pub generate_nonce : Result ProtoError Bytes
  generate_nonce = ok_or (c.fill nonce_len) aead_failed

  unfoldable pub aead_seal : Bytes → Bytes → Bytes → Bytes → Result ProtoError Bytes
  aead_seal key nonce aad plaintext = do
    fail_if (not (nat_beq (length key) key_len)) aead_failed
    ok_or (c.seal key nonce aad plaintext) aead_failed

  unfoldable pub aead_open : Bytes → Bytes → Bytes → Bytes → Result ProtoError Bytes
  aead_open key nonce aad ciphertext_and_tag = do
    fail_if (not (nat_beq (length key) key_len)) aead_failed
    fail_if (ltb (length ciphertext_and_tag) tag_len) aead_failed
    ok_or (c.open_tag key nonce aad ciphertext_and_tag) aead_failed

  unfoldable pub hmac_check : Bytes → Bytes → Bytes → Result ProtoError (Unit {0})
  hmac_check key message tag = do
    fail_if (not (nat_beq (length tag) hmac_len)) hmac_failed
    fail_if (not (c.hmac_verify key message tag)) hmac_failed
