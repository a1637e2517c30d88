-- ===== src/Users/Records.antt =====
-- What useradd is given: nothing that begins another field or another record of /etc/passwd.
use power_manage_sdk.Users.Fields.{
  is_lower, name_char, is_valid_name, validate_name, default_shell, is_control, validate_field,
  validate_groups, validate_account_fields,
}
use power_manage_sdk.Users.Accounts.{
  CreateOptions, option, uid_args, group_args, or_else, create_args,
}
use power_manage_sdk.Prelude.{
  ℕ, Bool, true, false, not, ◌&&◌, ◌==◌, ◌≡◌, refl, arith, List, [], ◌∷◌, ◌++◌, Bytes, codes, any,
  all, all_both, all_mono, all-join_with, ℤ, pos, negsuc, is_negative, itoa, decimal, all-decimal,
  is_digit, ok, matches_class-all,
}

-- A byte that a field of a record may hold.
abbrev pub in_field : ℕ → Bool
in_field c = not (is_control c) && not (c == b':')

validate_field-all : (s : Bytes) → validate_field (codes ":") s ≡ ok tt → all in_field s ≡ true
unfolding validate_field
validate_field-all [] h = refl
validate_field-all (c ∷ s) h = ground (arith, validate_field-all s)

validate_field-group :
    (s : Bytes)
    → validate_field (codes ":,") s ≡ ok tt
    → (all in_field s ≡ true) × (any (λ c. c == b',') s ≡ false)
unfolding validate_field
validate_field-group [] h = (refl, refl)
validate_field-group (c ∷ s) h =
    let rest : validate_field (codes ":,") s ≡ ok tt = ground arith in
    let (fields, no_comma) = validate_field-group s rest in (ground arith, ground arith)

validate_groups-all :
    (gs : List Bytes)
    → validate_groups gs ≡ ok tt
    → (all (all in_field) gs ≡ true) × (any (λ g. any (λ c. c == b',') g) gs ≡ false)
validate_groups-all [] h = (refl, refl)
validate_groups-all (g ∷ gs) h =
    let (fields, no_comma) = validate_field-group g (ground arith) in
    let (more, none_more) = validate_groups-all gs (ground arith) in (ground arith, ground arith)

name-in_field : (name : Bytes) → validate_name name ≡ ok tt → all in_field name ≡ true
unfolding validate_name is_valid_name
name-in_field name valid =
    all_mono name_char in_field name (λ c h. ground arith)
      (matches_class-all is_lower name_char 31 name (λ c h. ground arith) (ground arith))

option-in_field :
    (flag value : Bytes)
    → all in_field flag ≡ true
    → all in_field value ≡ true
    → all (all in_field) (option flag value) ≡ true
option-in_field flag value f v = ground arith

uid_args-in_field : (uid : ℤ) → is_negative uid ≡ false → all (all in_field) (uid_args uid) ≡ true
unfolding itoa
uid_args-in_field (negsuc n) h = cc
uid_args-in_field (pos n) h =
    let digits = all_mono is_digit in_field (decimal n) (λ c g. ground arith) (all-decimal n) in
    ground arith

group_args-in_field :
    (gs : List Bytes) → all (all in_field) gs ≡ true → all (all in_field) (group_args gs) ≡ true
group_args-in_field [] h = refl
group_args-in_field (g ∷ gs) h = ground (arith, all-join_with in_field (codes ",") (g ∷ gs) refl h)

default_shell-in_field :
    (shell : Bytes) (system : Bool)
    → all in_field shell ≡ true
    → all in_field (or_else shell (default_shell system)) ≡ true
unfolding default_shell
default_shell-in_field [] true h = refl
default_shell-in_field [] false h = refl
default_shell-in_field (c ∷ s) system h = h

-- What an accepted account has in its fields.
accepted_fields :
    (opts : CreateOptions)
    → validate_account_fields opts.comment opts.home_dir opts.shell opts.primary_group opts.groups
      ≡ ok tt
    → (all in_field opts.comment ≡ true)
      × (all in_field opts.home_dir ≡ true)
      × (all in_field opts.shell ≡ true)
      × (all in_field opts.primary_group ≡ true)
      × (all (all in_field) opts.groups ≡ true)
      × (any (λ g. any (λ c. c == b',') g) opts.groups ≡ false)
unfolding validate_account_fields
accepted_fields opts h =
    let groups = validate_groups-all opts.groups (ground arith) in
    let primary = validate_field-group opts.primary_group (ground arith) in
    (
      validate_field-all opts.comment (ground arith),
      validate_field-all opts.home_dir (ground arith),
      validate_field-all opts.shell (ground arith),
      primary.0,
      groups.0,
      groups.1,
    )

-- No argument of useradd, for an account that is accepted, holds a colon or a control character.
pub create_args-in_field :
    (name : Bytes) (opts : CreateOptions) (home_exists : Bool)
    → validate_name name ≡ ok tt
    → is_negative opts.uid ≡ false
    → validate_account_fields opts.comment opts.home_dir opts.shell opts.primary_group opts.groups
      ≡ ok tt
    → all (all in_field) (create_args name opts home_exists) ≡ true
unfolding create_args
create_args-in_field name opts home_exists valid uid accepted =
    let (comment, home, shell, group, groups, _) = accepted_fields opts accepted in
    let last = option-in_field (codes "-c") opts.comment refl comment in
    let home_args = option-in_field (codes "-d") opts.home_dir refl home in
    let group_option = option-in_field (codes "-g") opts.primary_group refl group in
    let names = name-in_field name valid in
    let with_shell = default_shell-in_field opts.shell opts.system shell in
    let end : all (all in_field) (option (codes "-c") opts.comment ++ (name ∷ [])) ≡ true =
      all_both (all in_field) (option (codes "-c") opts.comment) (name ∷ []) last (ground arith) in
    all_both (all in_field) (uid_args opts.uid) _ (uid_args-in_field opts.uid uid) (
      all_both (all in_field) (option (codes "-g") opts.primary_group) _ group_option (
        all_both (all in_field) (group_args opts.groups) _ (group_args-in_field opts.groups groups)
          (all_both (all in_field) (option (codes "-d") opts.home_dir) _ home_args (ground arith))))
