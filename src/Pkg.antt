-- ===== src/Pkg.antt =====
-- pkg/validate.go: what may reach the argument vector of a package manager. A regular expression
-- of the source is a first character, a class and a limit on the length of the rest.
mod Laws
mod LocalPath
mod KeyReference
mod Tests
use power_manage_sdk.Prelude.{
  ℕ, Bool, true, false, not, ◌&&◌, ◌||◌, Option, none, some, List, [], ◌∷◌, Bytes, codes, ltb, leb,
  ◌==◌, if◌then◌else◌, equal, has_prefix, contains, is_empty, is_digit, any, all, length, Result,
  ok, err, ◌>>◌, refuse,
}

abbrev pub is_alnum : ℕ → Bool
is_alnum c = leb b'a' c && leb c b'z' || leb b'A' c && leb c b'Z' || is_digit c

abbrev pub in_text : ℕ → Bytes → Bool
in_text c s = any (λ d. d == c) s

-- `^[a-zA-Z0-9][class]{0,limit}$`.
unfoldable pub matches_token : (ℕ → Bool) → ℕ → Bytes → Bool
matches_token class limit [] = false
matches_token class limit (c ∷ s) = is_alnum c && (all class s && leb (length s) limit)

pub data PkgError : Type 0 where
  empty_value invalid_value control_characters not_absolute_path dotted_path flag_shaped : PkgError
  invalid_url not_https no_host has_host unknown_form : PkgError

abbrev pub package_char : ℕ → Bool
package_char c = is_alnum c || in_text c (codes "._+:/@~-")

-- `validPackageName`.
abbrev pub valid_package_name : Bytes → Bool
valid_package_name = matches_token package_char 255

unfoldable pub validate_package_name : Bytes → Result PkgError (Unit {0})
validate_package_name name =
    refuse (is_empty name) empty_value >> refuse (not (valid_package_name name)) invalid_value

unfoldable pub validate_package_names : List Bytes → Result PkgError (Unit {0})
unfolding validate_package_name
validate_package_names [] = ok tt
validate_package_names (n ∷ ns) = validate_package_name n >> validate_package_names ns

abbrev pub version_char : ℕ → Bool
version_char c = is_alnum c || in_text c (codes "._+:~^-")

-- `validPackageVersion`.
abbrev pub valid_package_version : Bytes → Bool
valid_package_version = matches_token version_char 127

-- No version is a version.
unfoldable pub validate_package_version : Bytes → Result PkgError (Unit {0})
validate_package_version [] = ok tt
validate_package_version (c ∷ v) = refuse (not (valid_package_version (c ∷ v))) invalid_value

abbrev pub rpm_char : ℕ → Bool
rpm_char c = is_alnum c || in_text c (codes "._+-")

-- `validRpmPackageName`.
abbrev pub valid_rpm_package_name : Bytes → Bool
valid_rpm_package_name = matches_token rpm_char 255

unfoldable pub validate_rpm_package_name : Bytes → Result PkgError (Unit {0})
validate_rpm_package_name name =
    refuse (is_empty name) empty_value >> refuse (not (valid_rpm_package_name name)) invalid_value

unfoldable pub has_control_char : Bytes → Bool
has_control_char s = any (λ r. ltb r 32 || r == 127) s

unfoldable pub validate_local_package_path : Bytes → Result PkgError (Unit {0})
validate_local_package_path path =
    refuse (is_empty path) empty_value
    >> (refuse (has_control_char path) control_characters
        >> (refuse (not (has_prefix (codes "/") path)) not_absolute_path
            >> refuse (contains (codes "..") path) dotted_path))

unfoldable pub validate_search_query : Bytes → Result PkgError (Unit {0})
validate_search_query query =
    refuse (has_prefix (codes "-") query) flag_shaped
    >> refuse (has_control_char query) control_characters

abbrev pub remote_char : ℕ → Bool
remote_char c = is_alnum c || in_text c (codes "._-")

-- `validRemoteName`.
abbrev pub valid_remote_name : Bytes → Bool
valid_remote_name = matches_token remote_char 127

unfoldable pub validate_remote_name : Bytes → Result PkgError (Unit {0})
validate_remote_name name =
    refuse (is_empty name) empty_value >> refuse (not (valid_remote_name name)) invalid_value

unfoldable pub has_ctrl_or_space : Bytes → Bool
has_ctrl_or_space s = any (λ r. leb r 32 || r == 127) s

-- What `url.Parse` finds, where it finds a URL.
pub record Url : Type 0 where
  pub scheme : Bytes
  pub host : Bytes
  pub path : Bytes

abbrev pub base_url_checks : Option Url → Result PkgError (Unit {0})
base_url_checks none = err invalid_url
base_url_checks (some u) =
    refuse (not (equal u.scheme (codes "https"))) not_https >> refuse (is_empty u.host) no_host

unfoldable pub validate_repo_base_url : (Bytes → Option Url) → Bytes → Result PkgError (Unit {0})
validate_repo_base_url parse raw_url =
    refuse (is_empty raw_url) empty_value
    >> (refuse (has_ctrl_or_space raw_url) control_characters >> base_url_checks (parse raw_url))

abbrev pub https_checks : Option Url → Result PkgError (Unit {0})
https_checks none = err invalid_url
https_checks (some u) = refuse (is_empty u.host) no_host

abbrev pub file_checks : Option Url → Result PkgError (Unit {0})
file_checks none = err invalid_url
file_checks (some u) =
    refuse (not (is_empty u.host)) has_host
    >> refuse (not (has_prefix (codes "/") u.path) || contains (codes "..") u.path) dotted_path

-- The switch on the form of a reference.
abbrev pub form_checks : (Bytes → Option Url) → Bytes → Result PkgError (Unit {0})
form_checks parse ref =
    if has_prefix (codes "https://") ref
    then https_checks (parse ref)
    else if has_prefix (codes "file://") ref
    then file_checks (parse ref)
    else if has_prefix (codes "/") ref
    then refuse (contains (codes "..") ref) dotted_path
    else err unknown_form

unfoldable pub validate_gpg_key_ref : (Bytes → Option Url) → Bytes → Result PkgError (Unit {0})
validate_gpg_key_ref parse ref =
    refuse (is_empty ref) empty_value
    >> (refuse (has_ctrl_or_space ref) control_characters
        >> (refuse (has_prefix (codes "-") ref) flag_shaped >> form_checks parse ref))
