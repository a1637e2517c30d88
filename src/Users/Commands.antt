-- ===== src/Users/Commands.antt =====
-- sys/user/user.go: the commands that an account's methods run, over a runner that is an argument.
use power_manage_sdk.Exec.Host.{Command, Output, Runner}
use power_manage_sdk.Prelude.Actions.{Action, ◌>>=◌, pure}
use power_manage_sdk.Users.Fields.{UserError, run_failed, command_failed, bad_entry}
use power_manage_sdk.Prelude.{
  Bool, true, false, ◌||◌, not, Option, none, some, List, [], ◌∷◌, Bytes, codes, is_empty, ◌==◌,
  if◌then◌else◌, ℤ, pos, negsuc, split_on, trim_space, Result, ok, err,
}

abbrev pub is_zero : ℤ → Bool
is_zero (pos n) = n == 0
is_zero (negsuc _) = false

module _ {W : Type 0} (runner : Runner W) where
  abbrev answered : W × Option Output → W × Result UserError Output
  answered (w, none) = (w, err run_failed)
  answered (w, some res) = (w, ok res)

  -- `shadowUtils.exec`; deadlines are not modelled.
  abbrev pub exec : Command → Action W UserError Output
  exec c w = answered (runner w c)

  abbrev pub exited : Output → Result UserError Output
  exited res =
      if is_zero res.exit_code then ok res else err (command_failed res.exit_code res.stderr)

  -- `run`: a command that changes the host.
  unfoldable pub run : Bytes → List Bytes → Action W UserError (Unit {0})
  run name args = do
    res ← exec (record { name = name; args = args; stdin = none; escalate = true })
    _ ← pure (exited res)
    pure (ok tt)

  -- `query`: a command that only reads.
  unfoldable pub query : Bytes → List Bytes → Action W UserError Bytes
  query name args = do
    res ← exec (record { name = name; args = args; stdin = none; escalate = false })
    done ← pure (exited res)
    pure (ok (trim_space done.stdout))

  abbrev second : List Bytes → Result UserError Bytes
  second (_ ∷ (field ∷ _)) = ok field
  second _ = err bad_entry

  abbrev pub password_of : Output → Result UserError Bytes
  password_of res =
      if not (is_zero res.exit_code) || is_empty res.stdout
      then err bad_entry
      else second (split_on b':' (trim_space res.stdout))

  -- `shadowPassword`.
  unfoldable pub shadow_password : Bytes → Action W UserError Bytes
  shadow_password name = do
    res ← exec (record {
      name = codes "getent";
      args = codes "shadow" ∷ name ∷ [];
      stdin = none;
      escalate = true;
    })
    pure (password_of res)
