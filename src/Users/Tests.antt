-- ===== src/Users/Tests.antt =====
-- Accounts and groups on small hosts.
use power_manage_sdk.Exec.Host.{Output, Runner}
use power_manage_sdk.Users.Fields.{
  default_shell, is_valid_name, validate_name, validate_field, validate_home_dir, validate_shell,
  validate_account_fields, has_dot_dot, dir, invalid_home, invalid_shell, separator,
}
use power_manage_sdk.Users.Accounts.{CreateOptions, Homes, create_args}
use power_manage_sdk.Users.Groups.{members_match}
use power_manage_sdk.Users.Groups.Members.{members_match_iff}
use power_manage_sdk.Users.Records.{in_field, create_args-in_field}
use power_manage_sdk.Users.Unlocking.{success}
use power_manage_sdk.Paths.Clean.{clean}
use power_manage_sdk.Prelude.{
  true, false, ◌≡◌, ◌↔◌, refl, Option, none, some, List, [], ◌∷◌, ◌++◌, Bytes, codes, equal, member,
  all, has_prefix, matches_class, pos, ok, err, itoa, decimal, if◌then◌else◌,
}

own_home : validate_home_dir (codes "/home/deploy") ≡ ok tt
unfolding validate_home_dir has_dot_dot dir clean equal member has_prefix
own_home = refl

tmp_home : validate_home_dir (codes "/var//tmp/x/") ≡ err invalid_home
unfolding validate_home_dir has_dot_dot dir clean equal member has_prefix
tmp_home = refl

etc_home : validate_home_dir (codes "/etc") ≡ err invalid_home
unfolding validate_home_dir has_dot_dot dir clean equal member has_prefix
etc_home = refl

tmp_shell : validate_shell (codes "/tmp/sh") ≡ err invalid_shell
unfolding validate_shell has_dot_dot clean equal member has_prefix
tmp_shell = refl

colon_comment : validate_field (codes ":") (codes "a:b") ≡ err separator
unfolding validate_field
colon_comment = refl

abbrev deploy : CreateOptions
deploy = record {
  uid = pos 1001;
  primary_group = codes "staff";
  groups = codes "docker" ∷ codes "adm" ∷ [];
  shell = [];
  home_dir = [];
  comment = codes "Deploy user";
  system = false;
  create_home = true;
}

deploy_args :
    create_args (codes "deploy") deploy false
    ≡ codes "-u"
      ∷ codes "1001"
      ∷ codes "-g"
      ∷ codes "staff"
      ∷ codes "-G"
      ∷ codes "docker,adm"
      ∷ codes "-s"
      ∷ codes "/bin/bash"
      ∷ codes "-m"
      ∷ codes "-c"
      ∷ codes "Deploy user"
      ∷ codes "deploy"
      ∷ []
unfolding create_args itoa decimal default_shell
deploy_args = refl

deploy_named : validate_name (codes "deploy") ≡ ok tt
unfolding validate_name is_valid_name matches_class
deploy_named = refl

deploy_valid :
    validate_account_fields deploy.comment deploy.home_dir deploy.shell deploy.primary_group
      deploy.groups
    ≡ ok tt
unfolding validate_account_fields validate_field validate_home_dir validate_shell
deploy_valid = refl

create_args-in_field_example : all (all in_field) (create_args (codes "deploy") deploy true) ≡ true
create_args-in_field_example =
    create_args-in_field (codes "deploy") deploy true deploy_named refl deploy_valid

members_match_iff_example :
    (members_match (codes "a" ∷ codes "b" ∷ codes "a" ∷ []) (codes "b" ∷ codes "a" ∷ []) ≡ true) ↔ (
      (k : Bytes)
      → member k (codes "a" ∷ codes "b" ∷ codes "a" ∷ []) ≡ member k (codes "b" ∷ codes "a" ∷ []))
members_match_iff_example =
    members_match_iff (codes "a" ∷ codes "b" ∷ codes "a" ∷ []) (codes "b" ∷ codes "a" ∷ [])

-- A host with one account: a key or a password, locked or not.
data Account : Type 0 where
  locked_key key locked_hash hash : Account

abbrev field_of : Account → Bytes
field_of locked_key = codes "!*"
field_of key = codes "*"
field_of locked_hash = codes "!x"
field_of hash = codes "x"

abbrev strip : Account → Account
strip locked_hash = hash
strip account = account

abbrev answer : Account → List Bytes → Account × Option Output
answer w (_ ∷ (_ ∷ (_ ∷ []))) = (key, some (success []))
answer w (flag ∷ (name ∷ [])) =
    if equal flag (codes "-U")
    then (strip w, some (success []))
    else (w, some (success (name ++ (b':' ∷ (field_of w ++ codes ":19000:\n")))))
answer w args = (w, none)

abbrev one_account : Runner Account
one_account w c = answer w c.args

abbrev no_homes : Homes Account
no_homes = record {
  stat = λ w path. false;
  exists = λ w path. (w, none);
  mkdir = λ w path mode. (w, false);
  copy_tree = λ w from to. (w, false);
  set_ownership = λ w path user group. (w, false);
  set_mode = λ w path mode. (w, false);
}
