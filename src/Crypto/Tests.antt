-- ===== src/Crypto/Tests.antt =====
-- Contexts of real fields, and a toy suite that keeps the promises of the standard library.
use power_manage_sdk.Crypto.FieldContext.{
  agent_to_control, field_seal_context, invalid_direction, empty_segment, encode_segment,
  encode_segments,
}
use power_manage_sdk.Crypto.FieldContext.Laws.{field_seal_context-injective}
use power_manage_sdk.Crypto.Aead.{
  AeadMode, malformed_ciphertext, aad_required, invalid_key, seal_with_aad, open_with_aad, new_gcm,
}
use power_manage_sdk.Crypto.Aead.Laws.{IsGcm}
use power_manage_sdk.Crypto.Seal.{Curve, seal_to_public_key, open_with_private_key}
use power_manage_sdk.Crypto.Seal.Laws.{IsAgreement, open_with_private_key-seal_to_public_key}
use power_manage_sdk.Prelude.{
  ℕ, zero, suc, ◌+◌, ◌-◌, ◌≡◌, ◌↔◌, refl, arith, Option, some, [], ◌∷◌, ◌++◌, Bytes, codes, length,
  take, ok, err, decimal, equal, get_or, take-append, length-append,
}

other_direction :
    field_seal_context (codes "both") (codes "m") (codes "f") [] ≡ err invalid_direction
unfolding field_seal_context equal
other_direction = refl

no_message : field_seal_context agent_to_control [] (codes "f") [] ≡ err empty_segment
unfolding field_seal_context equal
no_message = refl

-- A binding that looks like a segment is told apart by its length.
lengths_tell : encode_segments (codes "a1:b" ∷ []) ≡ codes "4:a1:b"
unfolding encode_segments encode_segment decimal
lengths_tell = refl

long_segment : take 4 (encode_segment (codes "0123456789ab")) ≡ codes "12:0"
unfolding encode_segment decimal
long_segment = refl

abbrev aad : Bytes
aad = codes "26:power-manage-field-seal:v116:agent-to-control10:LuksReport3:key4:dev1"

abbrev info : Bytes
info = codes "26:power-manage-field-seal:v116:agent-to-control10:LuksReport3:key"

report_context :
    field_seal_context agent_to_control (codes "LuksReport") (codes "key") (codes "dev1" ∷ [])
    ≡ ok (aad, info)
unfolding field_seal_context equal encode_segments encode_segment decimal
report_context = refl

abbrev other_aad : Bytes
other_aad = codes "26:power-manage-field-seal:v116:agent-to-control10:LuksReport3:key4:dev2"

other_context :
    field_seal_context agent_to_control (codes "LuksReport") (codes "key") (codes "dev2" ∷ [])
    ≡ ok (other_aad, info)
unfolding field_seal_context equal encode_segments encode_segment decimal
other_context = refl

field_seal_context-injective_example :
    ((aad ≡ other_aad) ↔ (
      (agent_to_control ≡ agent_to_control)
      × (codes "LuksReport" ≡ codes "LuksReport")
      × (codes "key" ≡ codes "key")
      × (codes "dev1" ∷ [] ≡ codes "dev2" ∷ [])))
    × ((info ≡ info) ↔ (
        (agent_to_control ≡ agent_to_control)
        × (codes "LuksReport" ≡ codes "LuksReport")
        × (codes "key" ≡ codes "key")))
field_seal_context-injective_example =
    field_seal_context-injective agent_to_control agent_to_control (codes "LuksReport")
      (codes "LuksReport") (codes "key") (codes "key") (codes "dev1" ∷ []) (codes "dev2" ∷ []) aad
      other_aad info info report_context other_context

abbrev zeros : ℕ → Bytes
zeros zero = []
zeros (suc n) = 0 ∷ zeros n

-- A mode that writes the plaintext and a tag of zeros.
abbrev clear_mode : AeadMode
clear_mode = record {
  nonce_size = 12;
  overhead = 16;
  sealed = λ nonce plaintext aad. plaintext ++ zeros 16;
  opened = λ nonce ciphertext aad. some (take (length ciphertext - 16) ciphertext);
}

abbrev any_block : Bytes → Option Bytes
any_block key = some key

abbrev with_clear : Bytes → Option AeadMode
with_clear block = some clear_mode

clear_mode_opens :
    (plaintext : Bytes)
    → ◌≡◌ {A = Option Bytes}
        (some (take (length (plaintext ++ zeros 16) - 16) (plaintext ++ zeros 16)))
        (some plaintext)
clear_mode_opens plaintext =
    let size : length (plaintext ++ zeros 16) - 16 ≡ length plaintext =
      omega (arith, length-append plaintext (zeros 16)) in
    rw (size, take-append plaintext (zeros 16)) refl

clear_mode-IsGcm : IsGcm clear_mode
clear_mode-IsGcm = (
  refl,
  refl,
  λ nonce plaintext aad size. (clear_mode_opens plaintext, length-append plaintext (zeros 16)),
)

abbrev sum_curve : Curve
sum_curve = record {
  PrivateKey = ℕ;
  PublicKey = Bytes;
  public_key = λ k. k ∷ zeros 31;
  bytes = λ p. p;
  new_public_key = λ raw. some raw;
  ecdh = λ k p. some ((k + get_or p 0 0) ∷ []);
}

sum_curve-IsAgreement : IsAgreement sum_curve
sum_curve-IsAgreement = (λ a. (refl, refl), λ a b. ground arith)

abbrev short_hkdf : Bytes → Bytes → Bytes → ℕ → Option Bytes
short_hkdf shared salt purpose n = some (get_or shared 0 0 ∷ zeros (n - 1))

open_with_private_key-seal_to_public_key_example :
    (blob : Bytes) × (seal_to_public_key sum_curve short_hkdf any_block with_clear
        (some 7)
        (λ n. some (zeros n))
        (some (sum_curve.public_key 9))
        (codes "secret")
        aad
        info
      ≡ ok blob)
    × (open_with_private_key sum_curve short_hkdf any_block with_clear (some 9) blob aad info
        ≡ ok (codes "secret"))
open_with_private_key-seal_to_public_key_example =
    open_with_private_key-seal_to_public_key sum_curve short_hkdf any_block with_clear 7 9
      (λ n. some (zeros n)) (codes "secret") aad info (16 ∷ []) (16 ∷ zeros 31) (zeros 12)
      (16 ∷ zeros 31) clear_mode sum_curve-IsAgreement clear_mode-IsGcm refl refl refl refl refl
      refl refl refl refl

-- An empty plaintext is sealed, and what comes out is not opened.
empty_not_opened :
    open_with_private_key sum_curve short_hkdf any_block with_clear
      (some 9)
      ((7 ∷ zeros 31) ++ (zeros 12 ++ zeros 16))
      aad
      info
    ≡ err malformed_ciphertext
unfolding open_with_private_key
empty_not_opened = refl

no_data :
    seal_with_aad any_block with_clear (λ n. some (zeros n)) (zeros 32) aad [] ≡ err aad_required
unfolding seal_with_aad new_gcm
no_data = refl

short_key : open_with_aad any_block with_clear (zeros 16) aad aad ≡ err invalid_key
unfolding open_with_aad new_gcm
short_key = refl
