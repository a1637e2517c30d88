-- ===== src/Crypto/Aead/Laws.antt =====
-- What is sealed opens, given what package cipher documents of GCM.
use power_manage_sdk.Crypto.Aead.{
  AeadMode, new_gcm, seal_with_aad, open_with_aad, key_len, or_error, open_failed,
}
use power_manage_sdk.Prelude.{
  ℕ, ◌+◌, ◌≡◌, ltb, refl, sym, ap, ◌∙◌, arith, false, Option, some, ◌++◌, Bytes, is_empty, length,
  take-append, drop-append, length-append, ok,
}

-- What GCM promises: its nonce and its tag are 12 and 16 bytes, the ciphertext is the plaintext and
-- the tag, and what it sealed it opens.
abbrev pub IsGcm : AeadMode → Type 0
IsGcm gcm =
    (gcm.nonce_size ≡ 12)
    × (gcm.overhead ≡ 16)
    × ((nonce plaintext aad : Bytes)
        → length nonce ≡ gcm.nonce_size
        → (gcm.opened nonce (gcm.sealed nonce plaintext aad) aad ≡ some plaintext)
          × (length (gcm.sealed nonce plaintext aad) ≡ length plaintext + gcm.overhead))

module _ {Block : Type 0} (new_cipher : Bytes → Option Block)
    (with_gcm : Block → Option AeadMode) where
  new_gcm-some :
      (key : Bytes) (block : Block) (gcm : AeadMode)
      → length key ≡ key_len
      → new_cipher key ≡ some block
      → with_gcm block ≡ some gcm
      → new_gcm new_cipher with_gcm key ≡ ok gcm
  unfolding new_gcm
  new_gcm-some key block gcm h b g = rw (h, b, g) refl

  seal_with_aad_layout :
      (read : ℕ → Option Bytes) (key plaintext aad nonce : Bytes) (gcm : AeadMode)
      → new_gcm new_cipher with_gcm key ≡ ok gcm
      → is_empty aad ≡ false
      → read gcm.nonce_size ≡ some nonce
      → seal_with_aad new_cipher with_gcm read key plaintext aad
        ≡ ok (nonce ++ gcm.sealed nonce plaintext aad)
  unfolding seal_with_aad
  seal_with_aad_layout read key plaintext aad nonce gcm g a r = rw (g, a, r) refl

  open_with_aad_layout :
      (key nonce ciphertext aad : Bytes) (gcm : AeadMode)
      → new_gcm new_cipher with_gcm key ≡ ok gcm
      → is_empty aad ≡ false
      → length nonce ≡ gcm.nonce_size
      → ltb (length (nonce ++ ciphertext)) (gcm.nonce_size + gcm.overhead) ≡ false
      → open_with_aad new_cipher with_gcm key (nonce ++ ciphertext) aad
        ≡ or_error open_failed (gcm.opened nonce ciphertext aad)
  unfolding open_with_aad
  open_with_aad_layout key nonce ciphertext aad gcm g a n long =
      rw (g, a, long, sym n, take-append nonce ciphertext, drop-append nonce ciphertext) refl

  -- A plaintext that is sealed with a key of 32 bytes and some authenticated data is opened again
  -- with both, whatever nonce was drawn.
  pub open_with_aad-seal_with_aad :
      (read : ℕ → Option Bytes) (key plaintext aad nonce : Bytes) (block : Block) (gcm : AeadMode)
      → length key ≡ key_len
      → new_cipher key ≡ some block
      → with_gcm block ≡ some gcm
      → IsGcm gcm
      → is_empty aad ≡ false
      → read gcm.nonce_size ≡ some nonce
      → length nonce ≡ gcm.nonce_size
      → (blob : Bytes) × (seal_with_aad new_cipher with_gcm read key plaintext aad ≡ ok blob)
        × (length blob ≡ length plaintext + 28)
        × (open_with_aad new_cipher with_gcm key blob aad ≡ ok plaintext)
  open_with_aad-seal_with_aad read key plaintext aad nonce block gcm h b g (twelve, sixteen, laws) a
        r n =
      let made = new_gcm-some key block gcm h b g in
      let (opens, size) = laws nonce plaintext aad n in
      let total = length-append nonce (gcm.sealed nonce plaintext aad) in
      (
        nonce ++ gcm.sealed nonce plaintext aad,
        seal_with_aad_layout read key plaintext aad nonce gcm made a r,
        omega arith,
        open_with_aad_layout key nonce (gcm.sealed nonce plaintext aad) aad gcm made a n
              (ground arith)
            ∙ ap (or_error open_failed) opens,
      )
