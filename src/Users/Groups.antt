-- ===== src/Users/Groups.antt =====
-- sys/user/group.go: groups and their members.
pub mod Members
use power_manage_sdk.Exec.Host.{Output, Runner}
use power_manage_sdk.Prelude.Actions.{Action, ◌>>=◌, ◌>>◌, pure, attempt}
use power_manage_sdk.Users.Fields.{UserError, command_failed, not_exist, invalid_id, validate_name}
use power_manage_sdk.Users.Commands.{is_zero, exec, run, query}
use power_manage_sdk.Prelude.{
  ℕ, Bool, true, false, not, ◌&&◌, Option, none, some, List, [], ◌∷◌, ◌++◌, Bytes, codes, equal,
  member, length, all, is_empty, ◌==◌, ltb, if◌then◌else◌, ℤ, pos, negsuc, is_negative, to_ℕ, itoa,
  split_on, Result, ok, err, refuse,
}

-- The keys of the map that `set` makes of a list.
abbrev pub set : List Bytes → List Bytes
set [] = []
set (x ∷ xs) = let rest = set xs in if member x rest then rest else x ∷ rest

-- `MembersMatch`.
unfoldable pub members_match : List Bytes → List Bytes → Bool
unfolding member
members_match a b = length (set a) == length (set b) && all (λ k. member k (set b)) (set a)

abbrev pub words : List Bytes → List Bytes
words [] = []
words (m ∷ ms) = let rest = words ms in if is_empty m then rest else m ∷ rest

-- The members in a line of /etc/group.
abbrev pub members_in : List Bytes → List Bytes
members_in (name ∷ (password ∷ (gid ∷ (members ∷ more)))) = words (split_on b',' members)
members_in _ = []

abbrev pub is_code : ℕ → ℤ → Bool
is_code n (pos m) = m == n
is_code n (negsuc _) = false

abbrev pub members_listed : Result UserError Bytes → Result UserError (List Bytes)
members_listed (ok line) = ok (members_in (split_on b':' line))
members_listed (err (command_failed code stderr)) =
    if is_code 2 code then err not_exist else err (command_failed code stderr)
members_listed (err why) = err why

module _ {W : Type 0} (runner : Runner W) where
  -- `GroupExists`.
  unfoldable pub group_exists : Bytes → Action W UserError Bool
  group_exists name = do
    pure (validate_name name)
    res ← exec runner (record {
      name = codes "getent";
      args = codes "group" ∷ name ∷ [];
      stdin = none;
      escalate = false;
    })
    pure (ok (is_zero res.exit_code))

  -- `GroupMembers`; no members are the empty list.
  unfoldable pub group_members : Bytes → Action W UserError (List Bytes)
  group_members name = do
    pure (validate_name name)
    line ← attempt (query runner (codes "getent") (codes "group" ∷ name ∷ []))
    pure (members_listed line)

  abbrev gid_args : ℤ → List Bytes
  gid_args gid = if ltb 0 (to_ℕ gid) then codes "-g" ∷ itoa gid ∷ [] else []

  -- `GroupCreate`.
  unfoldable pub group_create : Bytes → ℤ → Bool → Action W UserError (Unit {0})
  group_create name gid system = do
    pure (validate_name name)
    pure (refuse (is_negative gid) invalid_id)
    run runner (codes "groupadd")
        (gid_args gid ++ ((if system then codes "-r" ∷ [] else []) ++ (name ∷ [])))

  -- `GroupDelete`.
  unfoldable pub group_delete : Bytes → Action W UserError (Unit {0})
  group_delete name = do pure (validate_name name); run runner (codes "groupdel") (name ∷ [])

  abbrev ensure_from : Bytes → Bool → Action W UserError (Unit {0})
  ensure_from name true = pure (ok tt)
  ensure_from name false = group_create name (pos 0) false

  -- `GroupEnsure`.
  unfoldable pub group_ensure : Bytes → Action W UserError (Unit {0})
  group_ensure name = group_exists name >>= ensure_from name

  -- `AddToGroup`.
  unfoldable pub add_to_group : Bytes → Bytes → Action W UserError (Unit {0})
  add_to_group name group = do
    pure (validate_name name)
    pure (validate_name group)
    run runner (codes "usermod") (codes "-aG" ∷ group ∷ name ∷ [])

  -- `RemoveFromGroup`.
  unfoldable pub remove_from_group : Bytes → Bytes → Action W UserError (Unit {0})
  remove_from_group name group = do
    pure (validate_name name)
    pure (validate_name group)
    run runner (codes "gpasswd") (codes "-d" ∷ name ∷ group ∷ [])
