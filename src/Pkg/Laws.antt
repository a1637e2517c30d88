-- ===== src/Pkg/Laws.antt =====
-- What an accepted value is.
use power_manage_sdk.Pkg.{
  in_text, matches_token, PkgError, package_char, validate_package_name, version_char,
  validate_package_version, rpm_char, validate_rpm_package_name, has_control_char,
  validate_local_package_path, validate_search_query, remote_char, validate_remote_name,
  has_ctrl_or_space, Url, validate_gpg_key_ref,
}
use power_manage_sdk.Prelude.{
  ◌≡◌, ◌↔◌, ◌⊎◌, inl, inr, refl, arith, ℕ, ◌≤◌, ◌<◌, Bool, true, false, ◌||◌, Option, List, [], ◌∷◌,
  Bytes, codes, ltb, leb, ◌==◌, has_prefix, any, all, All, length, Result, ok, err, is_ok,
}

-- Neither an option nor able to break a line.
abbrev pub IsOperand : Bytes → Type 0
IsOperand v = (has_prefix (codes "-") v ≡ false) × (has_control_char v ≡ false)

module _ (class : ℕ → Bool)
    (plain : (c : ℕ) → class c ≡ true → (ltb c 32 || c == 127) ≡ false) where
  all_plain : (s : Bytes) → all class s ≡ true → has_control_char s ≡ false
  unfolding has_control_char
  all_plain [] h = refl
  all_plain (c ∷ s) h = ground (arith, plain c (ground arith), all_plain s (ground arith))

  matches_token-IsOperand :
      (limit : ℕ) (s : Bytes) → matches_token class limit s ≡ true → IsOperand s
  unfolding matches_token has_control_char has_prefix
  matches_token-IsOperand limit [] h = cc
  matches_token-IsOperand limit (c ∷ s) h =
      (ground arith, ground (arith, all_plain s (ground arith)))

package_plain : (c : ℕ) → package_char c ≡ true → (ltb c 32 || c == 127) ≡ false
package_plain c h = ground arith

version_plain : (c : ℕ) → version_char c ≡ true → (ltb c 32 || c == 127) ≡ false
version_plain c h = ground arith

-- A class within another accepts no more.
all_within :
    (small large : ℕ → Bool) (within : (c : ℕ) → small c ≡ true → large c ≡ true) (s : Bytes)
    → all small s ≡ true
    → all large s ≡ true
all_within small large within [] h = refl
all_within small large within (c ∷ s) h =
    ground (arith, within c (ground arith), all_within small large within s (ground arith))

matches_token_within :
    (small large : ℕ → Bool) (within : (c : ℕ) → small c ≡ true → large c ≡ true) (m n : ℕ)
    (s : Bytes)
    → m ≤ n
    → matches_token small m s ≡ true
    → matches_token large n s ≡ true
unfolding matches_token
matches_token_within small large within m n [] le h = cc
matches_token_within small large within m n (c ∷ s) le h =
    ground (arith, all_within small large within s (ground arith))

rpm_within : (c : ℕ) → rpm_char c ≡ true → package_char c ≡ true
rpm_within c h = ground arith

remote_within : (c : ℕ) → remote_char c ≡ true → package_char c ≡ true
remote_within c h = ground arith

package_name_token :
    (s : Bytes) → (validate_package_name s ≡ ok tt) ↔ (matches_token package_char 255 s ≡ true)
unfolding validate_package_name matches_token
package_name_token [] = ground arith
package_name_token (c ∷ s) = ground arith

rpm_name_token :
    (s : Bytes) → (validate_rpm_package_name s ≡ ok tt) ↔ (matches_token rpm_char 255 s ≡ true)
unfolding validate_rpm_package_name matches_token
rpm_name_token [] = ground arith
rpm_name_token (c ∷ s) = ground arith

remote_name_token :
    (s : Bytes) → (validate_remote_name s ≡ ok tt) ↔ (matches_token remote_char 127 s ≡ true)
unfolding validate_remote_name matches_token
remote_name_token [] = ground arith
remote_name_token (c ∷ s) = ground arith

-- Each RPM name and each remote alias that is accepted is a package name that is accepted.
pub validate_package_name_wider :
    (s : Bytes)
    → (validate_rpm_package_name s ≡ ok tt) ⊎ (validate_remote_name s ≡ ok tt)
    → validate_package_name s ≡ ok tt
validate_package_name_wider s (inl rpm) = (package_name_token s).1 (
    matches_token_within rpm_char package_char rpm_within 255 255 s (omega arith)
      ((rpm_name_token s).0 rpm))
validate_package_name_wider s (inr remote) = (package_name_token s).1 (
    matches_token_within remote_char package_char remote_within 127 255 s (omega arith)
      ((remote_name_token s).0 remote))

package_name-IsOperand : (s : Bytes) → validate_package_name s ≡ ok tt → IsOperand s
package_name-IsOperand s h =
    matches_token-IsOperand package_char package_plain 255 s ((package_name_token s).0 h)

version-IsOperand : (s : Bytes) → validate_package_version s ≡ ok tt → IsOperand s
unfolding validate_package_version has_control_char has_prefix
version-IsOperand [] h = ground arith
version-IsOperand (c ∷ s) h =
    matches_token-IsOperand version_char version_plain 127 (c ∷ s) (ground arith)

local_path-IsOperand : (s : Bytes) → validate_local_package_path s ≡ ok tt → IsOperand s
unfolding validate_local_package_path has_prefix
local_path-IsOperand [] h = cc
local_path-IsOperand (c ∷ s) h = ground arith

search_query-IsOperand : (s : Bytes) → validate_search_query s ≡ ok tt → IsOperand s
unfolding validate_search_query
search_query-IsOperand s h = ground arith

no_space_no_control : (s : Bytes) → has_ctrl_or_space s ≡ false → has_control_char s ≡ false
unfolding has_ctrl_or_space has_control_char
no_space_no_control [] h = refl
no_space_no_control (c ∷ s) h = ground (arith, no_space_no_control s (ground arith))

gpg_key_ref-IsOperand :
    (parse : Bytes → Option Url) (s : Bytes) → validate_gpg_key_ref parse s ≡ ok tt → IsOperand s
unfolding validate_gpg_key_ref
gpg_key_ref-IsOperand parse s h = (ground arith, no_space_no_control s (ground arith))

-- What follows from each success follows from some success.
one_of :
    {C : Type 0} (ms : List (Result PkgError (Unit {0})))
    → All (λ m. m ≡ ok tt → C) ms
    → any is_ok ms ≡ true
    → C
one_of [] hs h = cc
one_of (ok tt ∷ ms) (here, hs) h = here refl
one_of (err e ∷ ms) (here, hs) h = one_of ms hs h

-- Whatever validator of package names, versions, local files, search terms, remotes and key
-- references accepts it, a value has no dash in front and no control character in it.
pub validators-IsOperand :
    (parse : Bytes → Option Url) (v : Bytes)
    → any is_ok (
        validate_package_name v
        ∷ validate_rpm_package_name v
        ∷ validate_package_version v
        ∷ validate_local_package_path v
        ∷ validate_search_query v
        ∷ validate_remote_name v
        ∷ validate_gpg_key_ref parse v
        ∷ [])
      ≡ true
    → IsOperand v
validators-IsOperand parse v h =
    one_of
      (validate_package_name v
        ∷ validate_rpm_package_name v
        ∷ validate_package_version v
        ∷ validate_local_package_path v
        ∷ validate_search_query v
        ∷ validate_remote_name v
        ∷ validate_gpg_key_ref parse v
        ∷ [])
      (
        package_name-IsOperand v,
        (
          (λ rpm. package_name-IsOperand v (validate_package_name_wider v (inl rpm))),
          (
            version-IsOperand v,
            (
              local_path-IsOperand v,
              (
                search_query-IsOperand v,
                (
                  (λ remote. package_name-IsOperand v (validate_package_name_wider v (inr remote))),
                  (gpg_key_ref-IsOperand parse v, tt),
                ),
              ),
            ),
          ),
        ),
      )
      h

-- The characters that the source names as forbidden in a name: white space, NUL, what a shell
-- reads, quotes, `=` and what a glob reads.
abbrev pub is_forbidden : ℕ → Bool
is_forbidden c = leb c 32 || in_text c (codes "|&;<>`$\\\"'=*?[]{}()!#")

package_allowed : (c : ℕ) → package_char c ≡ true → is_forbidden c ≡ false
package_allowed c h = ground arith

all_allowed : (s : Bytes) → all package_char s ≡ true → any is_forbidden s ≡ false
all_allowed [] h = refl
all_allowed (c ∷ s) h =
    ground (arith, package_allowed c (ground arith), all_allowed s (ground arith))

-- An accepted package name has between 1 and 256 bytes, and none of the forbidden ones.
pub validate_package_name_plain :
    (s : Bytes)
    → validate_package_name s ≡ ok tt
    → (0 < length s) × (length s ≤ 256) × (any is_forbidden s ≡ false)
unfolding matches_token
validate_package_name_plain [] h = ground (arith, (package_name_token []).0 h)
validate_package_name_plain (c ∷ s) h =
    let matched = (package_name_token (c ∷ s)).0 h in
    (
      omega arith,
      ground arith,
      ground (arith, package_allowed c (ground arith), all_allowed s (ground arith)),
    )
