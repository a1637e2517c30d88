-- ===== src/Crypto/Seal/Laws.antt =====
-- What is sealed to a public key, its private key opens.
use power_manage_sdk.Crypto.Aead.{
  CryptoError, malformed_ciphertext, AeadMode, key_len, seal_with_aad, open_with_aad,
}
use power_manage_sdk.Crypto.Aead.Laws.{IsGcm, open_with_aad-seal_with_aad}
use power_manage_sdk.Crypto.Seal.{
  Curve, x25519_key_len, derive_seal_key, derive_open_key, seal_to_public_key,
  open_with_private_key,
}
use power_manage_sdk.Prelude.{
  ℕ, ◌+◌, ◌≡◌, leb, if◌then◌else◌, refl, sym, ◌∙◌, arith, false, Option, some, [], ◌∷◌, ◌++◌, Bytes,
  is_empty, length, take-append, drop-append, length-append, Result, ok, err,
}

-- What package ecdh promises of X25519: a public key is written in 32 bytes and read back, and both
-- sides agree.
abbrev pub IsAgreement : Curve → Type 0
IsAgreement curve =
    ((a : curve.PrivateKey)
      → (length (curve.bytes (curve.public_key a)) ≡ x25519_key_len)
        × (curve.new_public_key (curve.bytes (curve.public_key a)) ≡ some (curve.public_key a)))
    × ((a b : curve.PrivateKey)
        → curve.ecdh a (curve.public_key b) ≡ curve.ecdh b (curve.public_key a))

too_short :
    {outcome : Result CryptoError Bytes} (plaintext blob : Bytes)
    → length blob ≡ length plaintext + 28
    → outcome ≡ ok plaintext
    → (if leb (length blob) 28 then err malformed_ciphertext else outcome)
      ≡ (if is_empty plaintext then err malformed_ciphertext else ok plaintext)
too_short [] blob long opens = ground arith
too_short (c ∷ s) blob long opens = ground arith

module _ (curve : Curve) (hkdf : Bytes → Bytes → Bytes → ℕ → Option Bytes) where
  derive_keys :
      (eph priv : curve.PrivateKey) (shared key info : Bytes)
      → IsAgreement curve
      → curve.ecdh eph (curve.public_key priv) ≡ some shared
      → hkdf shared
          (curve.bytes (curve.public_key eph) ++ curve.bytes (curve.public_key priv))
          info
          key_len
        ≡ some key
      → (derive_seal_key curve hkdf eph (curve.public_key priv) info ≡ ok key)
        × (derive_open_key curve hkdf priv (curve.public_key eph) info ≡ ok key)
  unfolding derive_seal_key derive_open_key
  derive_keys eph priv shared key info (_, agree) s k =
      (rw (s, k) refl, rw (agree priv eph, s, k) refl)

  module _ {Block : Type 0} (new_cipher : Bytes → Option Block)
      (with_gcm : Block → Option AeadMode) where
    seal_to_public_key_layout :
        (eph : curve.PrivateKey) (read : ℕ → Option Bytes) (recipient : curve.PublicKey)
        (plaintext aad info key blob : Bytes)
        → is_empty aad ≡ false
        → is_empty info ≡ false
        → derive_seal_key curve hkdf eph recipient info ≡ ok key
        → seal_with_aad new_cipher with_gcm read key plaintext aad ≡ ok blob
        → seal_to_public_key curve hkdf new_cipher with_gcm
            (some eph)
            read
            (some recipient)
            plaintext
            aad
            info
          ≡ ok (curve.bytes (curve.public_key eph) ++ blob)
    unfolding seal_to_public_key
    seal_to_public_key_layout eph read recipient plaintext aad info key blob a i k s =
        rw (a, i, k, s) refl

    open_with_private_key_layout :
        (eph priv : curve.PrivateKey) (aad info key blob : Bytes)
        → IsAgreement curve
        → is_empty aad ≡ false
        → is_empty info ≡ false
        → derive_open_key curve hkdf priv (curve.public_key eph) info ≡ ok key
        → open_with_private_key curve hkdf new_cipher with_gcm
            (some priv)
            (curve.bytes (curve.public_key eph) ++ blob)
            aad
            info
          ≡ (if leb (length blob) 28
              then err malformed_ciphertext
              else open_with_aad new_cipher with_gcm key blob aad)
    unfolding open_with_private_key
    open_with_private_key_layout eph priv aad info key blob (encoding, _) a i k =
        let (size, parsed) = encoding eph in
        let front = curve.bytes (curve.public_key eph) in
        let total = length-append front blob in
        rw (a, i, sym size, take-append front blob, drop-append front blob, parsed, k)
          (ground arith)

    -- What is sealed to a key is opened by its owner with the same data and info, if it has a byte;
    -- the blob of an empty plaintext is made too, and refused as malformed.
    pub open_with_private_key-seal_to_public_key :
        (eph priv : curve.PrivateKey) (read : ℕ → Option Bytes)
        (plaintext aad info shared key nonce : Bytes) (block : Block) (gcm : AeadMode)
        → IsAgreement curve
        → IsGcm gcm
        → curve.ecdh eph (curve.public_key priv) ≡ some shared
        → hkdf shared
            (curve.bytes (curve.public_key eph) ++ curve.bytes (curve.public_key priv))
            info
            key_len
          ≡ some key
        → length key ≡ key_len
        → new_cipher key ≡ some block
        → with_gcm block ≡ some gcm
        → read gcm.nonce_size ≡ some nonce
        → length nonce ≡ gcm.nonce_size
        → is_empty aad ≡ false
        → is_empty info ≡ false
        → (blob : Bytes) × (seal_to_public_key curve hkdf new_cipher with_gcm
              (some eph)
              read
              (some (curve.public_key priv))
              plaintext
              aad
              info
            ≡ ok blob)
          × (open_with_private_key curve hkdf new_cipher with_gcm (some priv) blob aad info
              ≡ (if is_empty plaintext then err malformed_ciphertext else ok plaintext))
    open_with_private_key-seal_to_public_key eph priv read plaintext aad info shared key nonce block
          gcm agreement is_gcm s k size b g r n a i =
        let (seal_key, open_key) = derive_keys eph priv shared key info agreement s k in
        let (blob, sealed, long, opens) =
          open_with_aad-seal_with_aad new_cipher with_gcm read key plaintext aad nonce block gcm
            size b g is_gcm a r n in
        (
          curve.bytes (curve.public_key eph) ++ blob,
          seal_to_public_key_layout eph read (curve.public_key priv) plaintext aad info key blob a i
              seal_key sealed,
          open_with_private_key_layout eph priv aad info key blob agreement a i open_key
              ∙ too_short plaintext blob long opens,
        )
