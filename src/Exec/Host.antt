-- ===== src/Exec/Host.antt =====
-- The runner as its clients see it: a command goes in, and the host answers or the runner fails.
use power_manage_sdk.Prelude.{Bool, Option, List, Bytes, ℤ}

-- `exec.Command`, as far as clients set it.
pub record Command : Type 0 where
  pub name : Bytes
  pub args : List Bytes
  pub stdin : Option Bytes
  pub escalate : Bool

-- `exec.Result`.
pub record Output : Type 0 where
  pub exit_code : ℤ
  pub stdout : Bytes
  pub stderr : Bytes

-- `Runner.Run`: `none` is an error of the runner itself.
abbrev pub Runner : Type 0 → Type 0
Runner W = W → Command → W × Option Output
