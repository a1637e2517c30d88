-- ===== src/Crypto/Seal.antt =====
-- crypto/seal.go: sealing to a public key. X25519, HKDF-SHA256 and AES-GCM are those of the standard
-- library, and arguments here, as is the key pair that GenerateKey draws.
pub mod Laws
use power_manage_sdk.Crypto.Aead.{
  CryptoError, malformed_ciphertext, aad_required, nil_key, info_required, no_key_pair,
  wrong_key_length, bad_public_key, no_agreement, no_expansion, or_error, key_len, AeadMode,
  seal_with_aad, open_with_aad,
}
use power_manage_sdk.Prelude.{
  ℕ, ◌+◌, ◌==◌, leb, not, Option, none, some, ◌++◌, Bytes, is_empty, length, take, drop, Result, ok,
  err, refuse, ◌>>◌, ◌>>=◌,
}

-- What the source uses of `ecdh.X25519()` and its keys.
pub record Curve : Type 1 where
  pub PrivateKey : Type 0
  pub PublicKey : Type 0
  pub public_key : PrivateKey → PublicKey
  pub bytes : PublicKey → Bytes
  pub new_public_key : Bytes → Option PublicKey
  pub ecdh : PrivateKey → PublicKey → Option Bytes

abbrev pub x25519_key_len : ℕ
x25519_key_len = 32

abbrev pub aead_overhead : ℕ
aead_overhead = 12 + 16

abbrev pub sealed_overhead : ℕ
sealed_overhead = x25519_key_len + aead_overhead

unfoldable pub generate_x25519 : {Key : Type 0} → Option Key → Result CryptoError Key
generate_x25519 drawn = or_error no_key_pair drawn

-- The curve, and `hkdf.Key` with SHA-256 of a secret, a salt, an info and a length.
module _ (curve : Curve) (hkdf : Bytes → Bytes → Bytes → ℕ → Option Bytes) where
  unfoldable pub parse_x25519_public_key : Bytes → Result CryptoError curve.PublicKey
  parse_x25519_public_key raw =
      refuse (not (length raw == x25519_key_len)) wrong_key_length
      >> or_error bad_public_key (curve.new_public_key raw)

  abbrev pub expand_key : (shared eph_pub recipient_pub info : Bytes) → Result CryptoError Bytes
  expand_key shared eph_pub recipient_pub info =
      or_error no_expansion (hkdf shared (eph_pub ++ recipient_pub) info key_len)

  unfoldable pub derive_seal_key :
      curve.PrivateKey → curve.PublicKey → Bytes → Result CryptoError Bytes
  derive_seal_key eph recipient info =
      or_error no_agreement (curve.ecdh eph recipient) >>= λ shared.
      expand_key shared (curve.bytes (curve.public_key eph)) (curve.bytes recipient) info

  unfoldable pub derive_open_key :
      curve.PrivateKey → curve.PublicKey → Bytes → Result CryptoError Bytes
  derive_open_key priv eph_pub info = or_error no_agreement (curve.ecdh priv eph_pub) >>= λ shared.
      expand_key shared (curve.bytes eph_pub) (curve.bytes (curve.public_key priv)) info

  module _ {Block : Type 0} (new_cipher : Bytes → Option Block)
      (with_gcm : Block → Option AeadMode) where
    -- A nil key is `none`; `drawn` is the ephemeral key, `read` fills the nonce.
    unfoldable pub seal_to_public_key :
        Option curve.PrivateKey
        → (ℕ → Option Bytes)
        → Option curve.PublicKey
        → (plaintext aad info : Bytes) → Result CryptoError Bytes
    seal_to_public_key drawn read recipient plaintext aad info = do
      key_of ← or_error nil_key recipient
      refuse (is_empty aad) aad_required
      refuse (is_empty info) info_required
      eph ← or_error no_key_pair drawn
      key ← derive_seal_key eph key_of info
      sealed ← seal_with_aad new_cipher with_gcm read key plaintext aad
      ok (curve.bytes (curve.public_key eph) ++ sealed)

    unfoldable pub open_with_private_key :
        Option curve.PrivateKey → (sealed aad info : Bytes) → Result CryptoError Bytes
    open_with_private_key owner sealed aad info = do
      priv ← or_error nil_key owner
      refuse (is_empty aad) aad_required
      refuse (is_empty info) info_required
      refuse (leb (length sealed) sealed_overhead) malformed_ciphertext
      eph_pub ← or_error bad_public_key (curve.new_public_key (take x25519_key_len sealed))
      key ← derive_open_key priv eph_pub info
      open_with_aad new_cipher with_gcm key (drop x25519_key_len sealed) aad
