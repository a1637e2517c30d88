-- ===== src/Crypto/Aead.antt =====
-- crypto/aead.go: AES-256-GCM with the nonce in front. The block cipher, its mode and the source of
-- randomness are those of the standard library, and arguments here.
pub mod Laws
use power_manage_sdk.Prelude.{
  ℕ, ◌+◌, ◌≡◌, ◌==◌, not, ltb, Option, none, some, ◌++◌, Bytes, is_empty, length, take, drop,
  Result, ok, err, refuse, ◌>>◌, ◌>>=◌,
}

pub data CryptoError : Type 0 where
  invalid_key : CryptoError
  aad_required : CryptoError
  malformed_ciphertext : CryptoError
  no_cipher : CryptoError
  no_gcm : CryptoError
  no_nonce : CryptoError
  open_failed : CryptoError
  nil_key : CryptoError
  info_required : CryptoError
  no_key_pair : CryptoError
  wrong_key_length : CryptoError
  bad_public_key : CryptoError
  no_agreement : CryptoError
  no_expansion : CryptoError

abbrev pub or_error : {A : Type 0} → CryptoError → Option A → Result CryptoError A
or_error why none = err why
or_error why (some a) = ok a

-- `cipher.AEAD`; `sealed` is what `Seal` appends to its first argument, `opened` what `Open` returns.
pub record AeadMode : Type 0 where
  pub nonce_size : ℕ
  pub overhead : ℕ
  pub sealed : (nonce plaintext aad : Bytes) → Bytes
  pub opened : (nonce ciphertext aad : Bytes) → Option Bytes

abbrev pub key_len : ℕ
key_len = 32

-- `aes.NewCipher`, `cipher.NewGCM`, and what one call of `rand.Read` fills a buffer of that length
-- with.
module _ {Block : Type 0} (new_cipher : Bytes → Option Block)
    (with_gcm : Block → Option AeadMode) where
  unfoldable pub new_gcm : Bytes → Result CryptoError AeadMode
  new_gcm key =
      refuse (not (length key == key_len)) invalid_key
      >> (or_error no_cipher (new_cipher key) >>= λ block. or_error no_gcm (with_gcm block))

  unfoldable pub seal_with_aad :
      (ℕ → Option Bytes) → (key plaintext aad : Bytes) → Result CryptoError Bytes
  unfolding new_gcm
  seal_with_aad read key plaintext aad = do
    gcm ← new_gcm key
    refuse (is_empty aad) aad_required
    nonce ← or_error no_nonce (read gcm.nonce_size)
    ok (nonce ++ gcm.sealed nonce plaintext aad)

  unfoldable pub open_with_aad : (key ciphertext aad : Bytes) → Result CryptoError Bytes
  unfolding new_gcm
  open_with_aad key ciphertext aad = do
    gcm ← new_gcm key
    refuse (is_empty aad) aad_required
    refuse (ltb (length ciphertext) (gcm.nonce_size + gcm.overhead)) malformed_ciphertext
    or_error open_failed
        (gcm.opened (take gcm.nonce_size ciphertext) (drop gcm.nonce_size ciphertext) aad)
