-- ===== src/Users/Accounts.antt =====
-- sys/user/user.go: the methods on accounts. What the file manager and os.Stat do to the host is an
-- argument.
use power_manage_sdk.Exec.Host.{Runner}
use power_manage_sdk.Prelude.Actions.{Action, ◌>>=◌, ◌>>◌, pure, attempt}
use power_manage_sdk.Users.Fields.{
  UserError, invalid_id, fs_failed, validate_name, default_shell, validate_account_fields,
}
use power_manage_sdk.Users.Commands.{run, shadow_password}
use power_manage_sdk.Prelude.{
  ℕ, Bool, true, false, ◌&&◌, ◌||◌, not, Option, none, some, List, [], ◌∷◌, ◌++◌, Bytes, codes,
  equal, has_prefix, is_empty, ltb, if◌then◌else◌, ℤ, is_negative, to_ℕ, itoa, trim_left_of,
  join_with, Result, ok, err, refuse,
}

pub record CreateOptions : Type 0 where
  pub uid : ℤ
  pub primary_group : Bytes
  pub groups : List Bytes
  pub shell : Bytes
  pub home_dir : Bytes
  pub comment : Bytes
  pub system : Bool
  pub create_home : Bool

pub record ModifyOptions : Type 0 where
  pub shell : Bytes
  pub home_dir : Bytes
  pub comment : Bytes
  pub primary_group : Bytes

pub record EnsureHomeOptions : Type 0 where
  pub group : Bytes
  pub skel : Bytes
  pub mode : ℕ

pub record Info : Type 0 where
  pub uid : ℤ
  pub gid : ℤ
  pub comment : Bytes
  pub home_dir : Bytes
  pub shell : Bytes
  pub groups : List Bytes
  pub groups_known : Bool
  pub locked : Bool
  pub locked_known : Bool

-- os.Stat and the file manager: what they do to the host, and whether they succeed.
pub record Homes (W : Type 0) : Type 0 where
  pub stat : W → Bytes → Bool
  pub exists : W → Bytes → W × Option Bool
  pub mkdir : W → (path : Bytes) → (mode : ℕ) → W × Bool
  pub copy_tree : W → (from to : Bytes) → W × Bool
  pub set_ownership : W → (path user group : Bytes) → W × Bool
  pub set_mode : W → (path : Bytes) → (mode : ℕ) → W × Bool

-- An option with its value, where it is set.
abbrev pub option : Bytes → Bytes → List Bytes
option flag value = if is_empty value then [] else flag ∷ value ∷ []

abbrev pub uid_args : ℤ → List Bytes
uid_args uid = if ltb 0 (to_ℕ uid) then codes "-u" ∷ itoa uid ∷ [] else []

abbrev pub group_args : List Bytes → List Bytes
group_args [] = []
group_args (g ∷ gs) = codes "-G" ∷ join_with (codes ",") (g ∷ gs) ∷ []

abbrev pub or_else : Bytes → Bytes → Bytes
or_else value fallback = if is_empty value then fallback else value

-- The arguments of useradd.
unfoldable pub create_args : Bytes → CreateOptions → (home_exists : Bool) → List Bytes
unfolding default_shell itoa
create_args name opts home_exists =
    uid_args opts.uid
    ++ (option (codes "-g") opts.primary_group
        ++ (group_args opts.groups
            ++ (option (codes "-d") opts.home_dir
                ++ ((codes "-s" ∷ or_else opts.shell (default_shell opts.system) ∷ [])
                    ++ ((if opts.system then codes "-r" ∷ [] else [])
                        ++ (((if opts.create_home && not home_exists
                                then codes "-m"
                                else codes "-M")
                              ∷ [])
                            ++ (option (codes "-c") opts.comment ++ (name ∷ []))))))))

-- The arguments of usermod, the name not yet among them.
unfoldable pub modify_args : ModifyOptions → List Bytes
modify_args opts =
    option (codes "-s") opts.shell
    ++ (option (codes "-d") opts.home_dir
        ++ (option (codes "-c") opts.comment ++ option (codes "-g") opts.primary_group))

abbrev pub is_passwordless : Bytes → Bool
is_passwordless field =
    let rest = trim_left_of (codes "!") field in is_empty rest || equal rest (codes "*")

module _ {W : Type 0} (runner : Runner W) (homes : Homes W) where
  abbrev done : W × Bool → W × Result UserError (Unit {0})
  done (w, true) = (w, ok tt)
  done (w, false) = (w, err fs_failed)

  abbrev answer : W × Option Bool → W × Result UserError Bool
  answer (w, none) = (w, err fs_failed)
  answer (w, some b) = (w, ok b)

  abbrev own : Bytes → Bytes → Bytes → Action W UserError (Unit {0})
  own path user group w = done (homes.set_ownership w path user group)

  abbrev exists : Bytes → Action W UserError Bool
  exists path w = answer (homes.exists w path)

  abbrev home_of : Bytes → CreateOptions → Bytes
  home_of name opts = or_else opts.home_dir (codes "/home/" ++ name)

  abbrev adopt_home : Bool → Bytes → CreateOptions → Action W UserError (Unit {0})
  adopt_home false name opts = pure (ok tt)
  adopt_home true name opts = own (home_of name opts) name (or_else opts.primary_group name)

  abbrev create_with : Bytes → CreateOptions → Bool → Action W UserError (Unit {0})
  create_with name opts home_exists = do
    run runner (codes "useradd") (create_args name opts home_exists)
    adopt_home (opts.create_home && home_exists) name opts

  -- `Create`.
  unfoldable pub create : Bytes → CreateOptions → Action W UserError (Unit {0})
  create name opts = do
    pure (validate_name name)
    pure (refuse (is_negative opts.uid) invalid_id)
    pure (
        validate_account_fields opts.comment opts.home_dir opts.shell opts.primary_group
          opts.groups)
    λ w. create_with name opts (homes.stat w (home_of name opts)) w

  abbrev usermod : Bytes → List Bytes → Action W UserError (Unit {0})
  usermod name [] = pure (ok tt)
  usermod name (a ∷ args) = run runner (codes "usermod") ((a ∷ args) ++ (name ∷ []))

  -- `Modify`.
  unfoldable pub modify : Bytes → ModifyOptions → Action W UserError (Unit {0})
  modify name opts = do
    pure (validate_name name)
    pure (validate_account_fields opts.comment opts.home_dir opts.shell opts.primary_group [])
    usermod name (modify_args opts)

  -- `Delete`.
  unfoldable pub delete : Bytes → (remove_home : Bool) → Action W UserError (Unit {0})
  delete name remove_home = do
    pure (validate_name name)
    run runner (codes "userdel") ((if remove_home then codes "-r" ∷ [] else []) ++ (name ∷ []))

  -- `Lock`.
  unfoldable pub lock : Bytes → Action W UserError (Unit {0})
  lock name = do pure (validate_name name); run runner (codes "usermod") (codes "-L" ∷ name ∷ [])

  abbrev plain_unlock : Bytes → Action W UserError (Unit {0})
  plain_unlock name = run runner (codes "usermod") (codes "-U" ∷ name ∷ [])

  abbrev pub unlock_field : Bytes → Result UserError Bytes → Action W UserError (Unit {0})
  unlock_field name (err _) = plain_unlock name
  unlock_field name (ok field) =
      if not (has_prefix (codes "!") field)
      then pure (ok tt)
      else if is_passwordless field
      then run runner (codes "usermod") (codes "-p" ∷ codes "*" ∷ name ∷ [])
      else plain_unlock name

  -- `Unlock`.
  unfoldable pub unlock : Bytes → Action W UserError (Unit {0})
  unlock name = do
    pure (validate_name name)
    field ← attempt (shadow_password runner name)
    unlock_field name field
