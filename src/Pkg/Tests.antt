-- ===== src/Pkg/Tests.antt =====
-- Validators on concrete values, and the theorems at them.
use power_manage_sdk.Pkg.Laws.{IsOperand, validators-IsOperand}
use power_manage_sdk.Pkg.KeyReference.{IsHttps, IsFile, IsPath, validate_gpg_key_ref_ok}
use power_manage_sdk.Pkg.{
  matches_token, validate_package_name, validate_rpm_package_name, has_control_char,
  has_ctrl_or_space, validate_local_package_path, Url, validate_gpg_key_ref, invalid_value,
  flag_shaped,
}
use power_manage_sdk.Prelude.{
  ◌≡◌, ◌↔◌, ◌⊎◌, refl, false, Option, none, some, [], Bytes, codes, ok, err, has_prefix, contains,
  equal, if◌then◌else◌,
}

-- A parser that knows the two URLs below.
abbrev parse : Bytes → Option Url
parse s =
    if equal s (codes "https://example.org/key.asc")
    then some
        (record { scheme = codes "https"; host = codes "example.org"; path = codes "/key.asc" })
    else if equal s (codes "file:///etc/pki/key")
    then some (record { scheme = codes "file"; host = []; path = codes "/etc/pki/key" })
    else none

name_accepted : validate_package_name (codes "libstdc++6:amd64") ≡ ok tt
unfolding validate_package_name matches_token
name_accepted = refl

name_refused : validate_package_name (codes "--force") ≡ err invalid_value
unfolding validate_package_name matches_token
name_refused = refl

key_refused : validate_gpg_key_ref parse (codes "--import") ≡ err flag_shaped
unfolding validate_gpg_key_ref has_ctrl_or_space has_prefix
key_refused = refl

validators-IsOperand_example : IsOperand (codes "libstdc++6:amd64")
validators-IsOperand_example =
    validators-IsOperand parse (codes "libstdc++6:amd64")
      (unfold validate_package_name matches_token in refl)

rpm_accepted : validate_rpm_package_name (codes "libstdc++") ≡ ok tt
unfolding validate_rpm_package_name matches_token
rpm_accepted = refl

validate_gpg_key_ref_ok_example :
    (validate_gpg_key_ref parse (codes "file:///etc/pki/key") ≡ ok tt) ↔ (
      (has_ctrl_or_space (codes "file:///etc/pki/key") ≡ false)
      × (IsHttps parse (codes "file:///etc/pki/key")
          ⊎ (IsFile parse (codes "file:///etc/pki/key") ⊎ IsPath (codes "file:///etc/pki/key"))))
validate_gpg_key_ref_ok_example = validate_gpg_key_ref_ok parse (codes "file:///etc/pki/key")

path_accepted : validate_local_package_path (codes "/tmp//./pkg.deb") ≡ ok tt
unfolding validate_local_package_path has_control_char has_prefix contains
path_accepted = refl
