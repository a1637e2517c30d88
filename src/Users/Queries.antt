-- ===== src/Users/Queries.antt =====
-- sys/user/user.go: what is read of an account, and its home.
use power_manage_sdk.Exec.Host.{Runner}
use power_manage_sdk.Prelude.Actions.{Action, ◌>>=◌, ◌>>◌, pure, attempt}
use power_manage_sdk.Users.Fields.{
  UserError, bad_entry, no_home, fs_failed, is_valid_name, validate_name,
}
use power_manage_sdk.Users.Commands.{is_zero, exec, query, shadow_password}
use power_manage_sdk.Users.Accounts.{EnsureHomeOptions, Info, Homes, or_else}
use power_manage_sdk.Prelude.{
  ℕ, Bool, true, false, Option, none, some, List, [], ◌∷◌, Bytes, codes, equal, has_prefix,
  is_empty, ◌==◌, if◌then◌else◌, ℤ, itoa, atoi, split_on, cut_at, fields, Result, ok, err,
}

abbrev number_of : Option ℤ → Result UserError ℤ
number_of none = err bad_entry
number_of (some n) = ok n

abbrev entry_of : (uid gid : Option ℤ) → (comment home shell : Bytes) → Result UserError Info
entry_of (some uid) (some gid) comment home shell = ok (record {
  uid = uid;
  gid = gid;
  comment = comment;
  home_dir = home;
  shell = shell;
  groups = [];
  groups_known = false;
  locked = false;
  locked_known = false;
})
entry_of _ _ comment home shell = err bad_entry

-- A line of /etc/passwd of at least seven fields.
abbrev pub passwd_entry : List Bytes → Result UserError Info
passwd_entry (name ∷ (password ∷ (uid ∷ (gid ∷ (comment ∷ (home ∷ (shell ∷ more))))))) =
    entry_of (atoi uid) (atoi gid) comment home shell
passwd_entry _ = err bad_entry

abbrev name_in : Option (Bytes × Bytes) → Bytes
name_in (some (c ∷ group, _)) = c ∷ group
name_in _ = []

-- The name of the primary group, if it was found.
abbrev pub primary_of : Result UserError Bytes → Bytes
primary_of (err _) = []
primary_of (ok line) = name_in (cut_at b':' line)

-- The groups but for one.
abbrev pub without : Bytes → List Bytes → List Bytes
without primary [] = []
without primary (g ∷ gs) =
    let rest = without primary gs in if equal g primary then rest else g ∷ rest

abbrev with_groups : Bytes → Result UserError Bytes → Info → Info
with_groups primary (err _) info = info
with_groups primary (ok names) info = record info {
  groups = without primary (fields names);
  groups_known = true;
}

abbrev with_lock : Result UserError Bytes → Info → Info
with_lock (err _) info = info
with_lock (ok field) info = record info {
  locked = has_prefix (codes "!") field;
  locked_known = true;
}

module _ {W : Type 0} (runner : Runner W) where
  -- `Get`.
  unfoldable pub get : Bytes → Action W UserError Info
  get name = do
    pure (validate_name name)
    line ← query runner (codes "getent") (codes "passwd" ∷ name ∷ [])
    info ← pure (passwd_entry (split_on b':' line))
    group ← attempt (query runner (codes "getent") (codes "group" ∷ itoa info.gid ∷ []))
    names ← attempt (query runner (codes "id") (codes "-Gn" ∷ name ∷ []))
    field ← attempt (shadow_password runner name)
    pure (ok (with_lock field (with_groups (primary_of group) names info)))

  -- `Exists`.
  unfoldable pub exists : Bytes → Action W UserError Bool
  exists name =
      if is_valid_name name
      then (exec runner
            (record { name = codes "id"; args = name ∷ []; stdin = none; escalate = false })
          >>= λ res. pure (ok (is_zero res.exit_code)))
      else pure (ok false)

  -- `PrimaryGroup`.
  unfoldable pub primary_group : Bytes → Action W UserError Bytes
  primary_group name = do
    pure (validate_name name)
    query runner (codes "id") (codes "-gn" ∷ name ∷ [])

  -- `SupplementaryGroups`.
  unfoldable pub supplementary_groups : Bytes → Action W UserError (List Bytes)
  supplementary_groups name = do
    pure (validate_name name)
    names ← query runner (codes "id") (codes "-Gn" ∷ name ∷ [])
    primary ← query runner (codes "id") (codes "-gn" ∷ name ∷ [])
    pure (ok (without primary (fields names)))

  module _ (homes : Homes W) where
    abbrev done : W × Bool → W × Result UserError (Unit {0})
    done (w, true) = (w, ok tt)
    done (w, false) = (w, err fs_failed)

    abbrev answer : W × Option Bool → W × Result UserError Bool
    answer (w, none) = (w, err fs_failed)
    answer (w, some b) = (w, ok b)

    abbrev present : Bytes → Action W UserError Bool
    present path w = answer (homes.exists w path)

    abbrev home_dir : Info → Result UserError Bytes
    home_dir info = if is_empty info.home_dir then err no_home else ok info.home_dir

    abbrev group_for : Bytes → Bytes → Action W UserError Bytes
    group_for name [] = primary_group name
    group_for name (c ∷ group) = pure (ok (c ∷ group))

    abbrev copied : Bool → Bytes → Bytes → Action W UserError (Unit {0})
    copied false skel home = pure (ok tt)
    copied true skel home = λ w. done (homes.copy_tree w skel home)

    -- A home that is not there is made, and filled from the skeleton if there is one.
    abbrev pub seeded : Bool → Bytes → Bytes → ℕ → Action W UserError (Unit {0})
    seeded true skel home mode = pure (ok tt)
    seeded false skel home mode = do
      λ w. done (homes.mkdir w home mode)
      found ← present skel
      copied found skel home

    -- `EnsureHome`.
    unfoldable pub ensure_home : Bytes → EnsureHomeOptions → Action W UserError (Unit {0})
    ensure_home name opts = do
      pure (validate_name name)
      info ← get name
      home ← pure (home_dir info)
      group ← group_for name opts.group
      found ← present home
      seeded found (or_else opts.skel (codes "/etc/skel")) home
          (if opts.mode == 0 then 448 else opts.mode)
      λ w. done (homes.set_ownership w home name group)
      λ w. done (homes.set_mode w home (if opts.mode == 0 then 448 else opts.mode))
