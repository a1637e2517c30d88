-- ===== src/Users/Fields.antt =====
-- sys/user/user.go: what an account's name and its fields may be.
use power_manage_sdk.Paths.Clean.{slash, split, clean}
use power_manage_sdk.Prelude.{
  ℕ, Bool, not, ◌&&◌, ◌||◌, List, [], ◌∷◌, ◌++◌, Bytes, codes, equal, member, has_prefix, is_empty,
  any, ◌==◌, ltb, leb, if◌then◌else◌, ℤ, matches_class, Result, ok, err, refuse, ◌>>◌,
}

pub data UserError : Type 0 where
  invalid_name : UserError
  invalid_id : UserError
  control_character : UserError
  separator : UserError
  invalid_home : UserError
  invalid_shell : UserError
  run_failed : UserError
  command_failed : ℤ → Bytes → UserError
  bad_entry : UserError
  no_home : UserError
  fs_failed : UserError
  not_exist : UserError

abbrev pub is_lower : ℕ → Bool
is_lower c = leb b'a' c && leb c b'z'

abbrev pub name_char : ℕ → Bool
name_char c = is_lower c || (leb b'0' c && leb c b'9') || c == b'_' || c == b'-'

-- `IsValidName`: a letter, and at most 31 more.
unfoldable pub is_valid_name : Bytes → Bool
is_valid_name = matches_class is_lower name_char 31

-- `validateName`, and `validateUsername`.
unfoldable pub validate_name : Bytes → Result UserError (Unit {0})
validate_name name = refuse (not (is_valid_name name)) invalid_name

unfoldable pub default_shell : Bool → Bytes
default_shell system = if system then codes "/usr/sbin/nologin" else codes "/bin/bash"

abbrev pub is_control : ℕ → Bool
is_control c = ltb c 32 || c == 127

-- `validateField`: the first byte that is wrong decides.
unfoldable pub validate_field : (reject : Bytes) → Bytes → Result UserError (Unit {0})
validate_field reject [] = ok tt
validate_field reject (c ∷ val) =
    let rest = validate_field reject val in
    if is_control c
    then err control_character
    else if any (λ d. d == c) reject
    then err separator
    else rest

-- `hasDotDot`.
unfoldable pub has_dot_dot : Bytes → Bool
has_dot_dot p = member (codes "..") (split p)

abbrev pub persistence_roots : List Bytes
persistence_roots = codes "/tmp" ∷ codes "/var/tmp" ∷ codes "/dev/shm" ∷ []

abbrev pub shell_metacharacters : Bytes
shell_metacharacters = 32 ∷ 9 ∷ codes "$&|;<>()`\\\"'*?!{}[]~#"

-- The text up to its last slash, that one included.
abbrev pub up_to_slash : Bytes → Bytes
up_to_slash [] = []
up_to_slash (c ∷ s) =
    let rest = up_to_slash s in
    if is_empty rest then (if c == slash then c ∷ [] else []) else c ∷ rest

-- `path.Dir`.
unfoldable pub dir : Bytes → Bytes
dir p = clean (up_to_slash p)

-- `validateHomeDir`.
unfoldable pub validate_home_dir : Bytes → Result UserError (Unit {0})
validate_home_dir home =
    let cleaned = clean home in
    if is_empty home
    then ok tt
    else refuse (not (has_prefix (slash ∷ []) home)) invalid_home
      >> refuse (has_dot_dot home) invalid_home
      >> refuse (equal cleaned (slash ∷ []) || equal (dir cleaned) (slash ∷ [])) invalid_home
      >> refuse (member (dir cleaned) persistence_roots) invalid_home

abbrev pub is_in_or_under : Bytes → Bytes → Bool
is_in_or_under p root = equal p root || has_prefix (root ++ (slash ∷ [])) p

-- `validateShell`.
unfoldable pub validate_shell : Bytes → Result UserError (Unit {0})
validate_shell shell =
    if is_empty shell
    then ok tt
    else refuse (not (has_prefix (slash ∷ []) shell)) invalid_shell
      >> refuse (has_dot_dot shell) invalid_shell
      >> refuse (any (λ c. any (λ d. d == c) shell_metacharacters) shell) invalid_shell
      >> refuse (any (is_in_or_under (clean shell)) persistence_roots) invalid_shell

abbrev pub validate_groups : List Bytes → Result UserError (Unit {0})
validate_groups [] = ok tt
validate_groups (g ∷ gs) = validate_field (codes ":,") g >> validate_groups gs

-- `validateAccountFields`.
unfoldable pub validate_account_fields :
    (comment home shell group : Bytes) → List Bytes → Result UserError (Unit {0})
validate_account_fields comment home shell group groups =
    validate_field (codes ":") comment
    >> validate_field (codes ":") home
    >> validate_home_dir home
    >> validate_field (codes ":") shell
    >> validate_shell shell
    >> validate_field (codes ":,") group
    >> validate_groups groups
