-- ===== src/Pkg/KeyReference.antt =====
-- The forms of a reference to a signing key.
use power_manage_sdk.Pkg.{
  has_ctrl_or_space, Url, validate_gpg_key_ref, https_checks, file_checks, form_checks, empty_value,
  control_characters, flag_shaped,
}
use power_manage_sdk.Prelude.{
  ◌≡◌, ◌↔◌, ◌⊎◌, inl, inr, refl, arith, true, false, Option, none, some, [], ◌∷◌, Bytes, codes,
  has_prefix, contains, is_empty, ok, ◌>>◌, refuse, >>-eq-ok, refuse-eq-ok, Bool-cases,
}

-- The three forms of a key reference: an https URL with a host, a file URL without one and a path
-- from the root, or such a path itself.
abbrev pub IsHttps : (Bytes → Option Url) → Bytes → Type 0
IsHttps parse ref =
    (has_prefix (codes "https://") ref ≡ true)
    × ((u : Url) × (parse ref ≡ some u) × (is_empty u.host ≡ false))

abbrev pub IsFile : (Bytes → Option Url) → Bytes → Type 0
IsFile parse ref =
    (has_prefix (codes "file://") ref ≡ true)
    × ((u : Url) × (parse ref ≡ some u)
        × (is_empty u.host ≡ true)
        × (has_prefix (codes "/") u.path ≡ true)
        × (contains (codes "..") u.path ≡ false))

abbrev pub IsPath : Bytes → Type 0
IsPath ref = (has_prefix (codes "/") ref ≡ true) × (contains (codes "..") ref ≡ false)

https_checks_ok :
    (o : Option Url) → https_checks o ≡ ok tt → (u : Url) × (o ≡ some u) × (is_empty u.host ≡ false)
https_checks_ok none h = cc
https_checks_ok (some u) h = (u, refl, ground arith)

file_checks_ok :
    (o : Option Url)
    → file_checks o ≡ ok tt
    → (u : Url) × (o ≡ some u)
      × (is_empty u.host ≡ true)
      × (has_prefix (codes "/") u.path ≡ true)
      × (contains (codes "..") u.path ≡ false)
file_checks_ok none h = cc
file_checks_ok (some u) h = (u, refl, ground arith, ground arith, ground arith)

form_checks_sound :
    (parse : Bytes → Option Url) (ref : Bytes)
    → form_checks parse ref ≡ ok tt
    → IsHttps parse ref ⊎ (IsFile parse ref ⊎ IsPath ref)
form_checks_sound parse ref h = elim (Bool-cases (has_prefix (codes "https://") ref)) [
  | inl https ↦ inl (https, https_checks_ok (parse ref) (ground arith))
  | inr no_https ↦ elim (Bool-cases (has_prefix (codes "file://") ref)) [
    | inl file ↦ inr (inl (file, file_checks_ok (parse ref) (ground arith)))
    | inr no_file ↦ inr (inr (ground arith, ground arith))
  ]
]

file_form :
    (ref : Bytes)
    → has_prefix (codes "file://") ref ≡ true
    → (has_prefix (codes "https://") ref ≡ false)
      × (has_prefix (codes "-") ref ≡ false)
      × (is_empty ref ≡ false)
unfolding has_prefix
file_form [] h = cc
file_form (c ∷ s) h = ground arith

path_form :
    (ref : Bytes)
    → has_prefix (codes "/") ref ≡ true
    → (has_prefix (codes "https://") ref ≡ false)
      × (has_prefix (codes "file://") ref ≡ false)
      × (has_prefix (codes "-") ref ≡ false)
      × (is_empty ref ≡ false)
unfolding has_prefix
path_form [] h = cc
path_form (c ∷ s) h = ground arith

https_form :
    (ref : Bytes)
    → has_prefix (codes "https://") ref ≡ true
    → (has_prefix (codes "-") ref ≡ false) × (is_empty ref ≡ false)
unfolding has_prefix
https_form [] h = cc
https_form (c ∷ s) h = ground arith

form_complete :
    (parse : Bytes → Option Url) (ref : Bytes)
    → has_ctrl_or_space ref ≡ false
    → IsHttps parse ref ⊎ (IsFile parse ref ⊎ IsPath ref)
    → validate_gpg_key_ref parse ref ≡ ok tt
unfolding validate_gpg_key_ref
form_complete parse ref clean (inl (https, (u, parsed, host))) =
    ground (arith, https_form ref https)
form_complete parse ref clean (inr (inl (file, (u, parsed, host, rooted, straight)))) =
    ground (arith, file_form ref file)
form_complete parse ref clean (inr (inr (rooted, straight))) = ground (arith, path_form ref rooted)

gpg_key_ref_sound :
    (parse : Bytes → Option Url) (ref : Bytes)
    → validate_gpg_key_ref parse ref ≡ ok tt
    → (has_ctrl_or_space ref ≡ false) × (form_checks parse ref ≡ ok tt)
unfolding validate_gpg_key_ref
gpg_key_ref_sound parse ref h =
    let (_, rest) =
      >>-eq-ok (refuse (is_empty ref) empty_value)
        (refuse (has_ctrl_or_space ref) control_characters
          >> (refuse (has_prefix (codes "-") ref) flag_shaped >> form_checks parse ref))
        h in
    let (plain, more) =
      >>-eq-ok (refuse (has_ctrl_or_space ref) control_characters)
        (refuse (has_prefix (codes "-") ref) flag_shaped >> form_checks parse ref) rest in
    (
      refuse-eq-ok (has_ctrl_or_space ref) control_characters plain,
      (>>-eq-ok (refuse (has_prefix (codes "-") ref) flag_shaped) (form_checks parse ref) more).1,
    )

-- A key reference is accepted exactly when it has no white space or control character and is an https URL
-- with a host, or a file URL with no host and an absolute path without `..`, or an absolute path
-- without `..`, for whatever parser of URLs.
pub validate_gpg_key_ref_ok :
    (parse : Bytes → Option Url) (ref : Bytes)
    → (validate_gpg_key_ref parse ref ≡ ok tt)
      ↔ ((has_ctrl_or_space ref ≡ false) × (IsHttps parse ref ⊎ (IsFile parse ref ⊎ IsPath ref)))
validate_gpg_key_ref_ok parse ref = (
  λ h.
      let (clean, formed) = gpg_key_ref_sound parse ref h in
      (clean, form_checks_sound parse ref formed),
  λ (clean, form). form_complete parse ref clean form,
)
