-- ===== src/Firewall/Host.antt =====
-- sys/firewall/firewall.go: the commands that a backend runs, over a runner that is an argument.
use power_manage_sdk.Prelude.Actions.{Action}
use power_manage_sdk.Exec.Host.{Command, Output, Runner}
use power_manage_sdk.Firewall.{FirewallError, run_failed, command_failed, is_zero}
use power_manage_sdk.Prelude.{
  Bool, true, false, Option, none, some, List, Bytes, codes, contains, if◌then◌else◌, Result, ok,
  err,
}

module _ {W : Type 0} (runner : Runner W) where
  abbrev pub check_exit : W × Option Output → W × Result FirewallError Output
  check_exit (w, none) = (w, err run_failed)
  check_exit (w, some res) =
      (w, if is_zero res.exit_code then ok res else err (command_failed res.exit_code res.stderr))

  -- `cmd.exec`.
  abbrev pub exec : Command → Action W FirewallError Output
  exec spec w = check_exit (runner w spec)

  -- `cmd.run`.
  abbrev pub run : Bytes → List Bytes → Action W FirewallError Output
  run name args = exec (record { name = name; args = args; stdin = none; escalate = true })

  -- `cmd.runStdin`.
  abbrev pub run_stdin : Bytes → Bytes → List Bytes → Action W FirewallError Output
  run_stdin stdin name args =
      exec (record { name = name; args = args; stdin = some stdin; escalate = true })

-- `isNoTable`.
unfoldable pub is_no_table : FirewallError → Bool
is_no_table (command_failed _ stderr) = contains (codes "No such file or directory") stderr
is_no_table _ = false
