-- ===== src/Exec/Runner.antt =====
-- runner.go and detect.go: one execution of a command, with or without escalation.
pub mod Laws
use power_manage_sdk.Exec.Env.{EnvError, Parent, build_child_env}
use power_manage_sdk.Exec.Output.{Output, Child, run_streaming}
use power_manage_sdk.Prelude.{
  ℕ, Bool, true, false, not, ◌&&◌, ◌||◌, Option, none, some, List, [], ◌∷◌, ◌++◌, Bytes, codes, ℤ,
  pos, contains, Result, ok, err, ◌>>=◌, ◌>>◌, refuse, wrap, is_empty, if◌then◌else◌, ◌==◌,
}

-- The values of PrivilegeBackend that the SDK names, and the rest, zero among them.
pub data PrivilegeBackend : Type 0 where
  sudo doas direct : PrivilegeBackend
  unnamed : ℤ → PrivilegeBackend

pub record Command : Type 0 where
  pub name : Bytes
  pub args : List Bytes
  pub dir : Bytes
  pub env : List Bytes
  pub stdin : Option Bytes
  pub child_path : Bytes
  pub escalate : Bool

pub data RunError : Type 0 where
  unknown_backend : ℤ → RunError
  context_error child_error : Bytes → RunError
  name_required : RunError
  bad_env : EnvError → RunError
  backend_unavailable escalation_unavailable escalation_denied : Bytes → RunError

-- What is handed to the operating system.
pub record Spawn : Type 0 where
  pub program : Bytes
  pub argv : List Bytes
  pub input : Option Bytes
  pub child_env : List Bytes
  pub work_dir : Bytes

-- What lies outside: the context's error, the SDK's own environment, `exec.LookPath` and
-- `filepath.Abs`, and what the child does that is spawned.
pub record Host : Type 0 where
  pub ctx_error : Option Bytes
  pub parent : Parent
  pub look_path : Bytes → Option Bytes
  pub abs : Bytes → Option Bytes
  pub spawned : Spawn → Child

unfoldable pub new_runner : PrivilegeBackend → Result RunError PrivilegeBackend
new_runner (unnamed n) = err (unknown_backend n)
new_runner b = ok b

-- `resolveAbsolute`.
abbrev pub resolve_absolute : Host → Bytes → Option Bytes
resolve_absolute h name = elim (h.look_path name) [ none ↦ none | some p ↦ h.abs p ]

-- `escalationTool`, empty for a backend with no wrapper.
abbrev pub escalation_tool : PrivilegeBackend → Bytes
escalation_tool sudo = codes "sudo"
escalation_tool doas = codes "doas"
escalation_tool _ = []

unfoldable pub wrap_escalation : PrivilegeBackend → Bool → Bytes → List Bytes → Bytes × List Bytes
wrap_escalation b escalate abs_path args =
    if not escalate || is_empty (escalation_tool b)
    then (abs_path, args)
    else (escalation_tool b, codes "-n" ∷ abs_path ∷ args)

abbrev pub is_zero : ℤ → Bool
is_zero (pos n) = n == 0
is_zero _ = false

-- `detectEscalationDenied`.
unfoldable pub detect_escalation_denied : PrivilegeBackend → Output → Bool
detect_escalation_denied sudo r =
    not (is_zero r.exit_code)
    && (contains (codes "a password is required") r.stderr
        || contains (codes "a terminal is required") r.stderr
        || contains (codes "no askpass program") r.stderr)
detect_escalation_denied doas r =
    not (is_zero r.exit_code)
    && (contains (codes "Authorization required") r.stderr
        || contains (codes "Authentication failed") r.stderr)
detect_escalation_denied _ r = false

abbrev pub not_run : Output
not_run = record { exit_code = pos 0; stdout = []; stderr = [] }

abbrev pub found : RunError → Option Bytes → Result RunError Bytes
found e none = err e
found e (some p) = ok p

abbrev pub is_missing : Option Bytes → Bool
is_missing none = true
is_missing (some _) = false

abbrev pub before_start : Option Bytes → Result RunError (Unit {0})
before_start none = ok tt
before_start (some e) = err (context_error e)

abbrev pub spawn_of : PrivilegeBackend → Command → List Bytes → Bytes → Spawn
spawn_of b c env abs_path = record {
  program = (wrap_escalation b c.escalate abs_path c.args).0;
  argv = (wrap_escalation b c.escalate abs_path c.args).1;
  input = c.stdin;
  child_env = env;
  work_dir = c.dir;
}

-- Escalation is wanted through a wrapper that is not installed.
abbrev pub lacks_tool : Host → PrivilegeBackend → Bool → Bool
lacks_tool h b escalate =
    escalate && not (is_empty (escalation_tool b)) && is_missing (h.look_path (escalation_tool b))

abbrev pub with_tool :
    Host → PrivilegeBackend → Command → List Bytes → Bytes → Result RunError Spawn
with_tool h b c env abs_path =
    refuse (lacks_tool h b c.escalate) (escalation_unavailable (escalation_tool b))
    >> ok (spawn_of b c env abs_path)

abbrev pub with_path : Host → PrivilegeBackend → Command → List Bytes → Result RunError Spawn
with_path h b c env =
    found (backend_unavailable c.name) (resolve_absolute h c.name) >>= with_tool h b c env

abbrev pub with_env : Host → PrivilegeBackend → Command → Result RunError Spawn
with_env h b c = wrap bad_env (build_child_env h.parent c.child_path c.env) >>= with_path h b c

-- The checks of `exec` before the child, in their order, and what it then spawns.
unfoldable pub prepare : Host → PrivilegeBackend → Command → Result RunError Spawn
prepare h b c =
    before_start h.ctx_error >> (refuse (is_empty c.name) name_required >> with_env h b c)

-- The end of `exec`: the error of the child or its context, or a refusal to escalate.
abbrev pub after_run : PrivilegeBackend → Command → Output × Option Bytes → Output × Option RunError
after_run b c (r, some e) = (r, some (child_error e))
after_run b c (r, none) = (
  r,
  (if c.escalate && detect_escalation_denied b r then some (escalation_denied r.stderr) else none),
)

abbrev pub executed :
    Host → Bool → PrivilegeBackend → Command → Result RunError Spawn → Output × Option RunError
executed h watched b c (err e) = (not_run, some e)
executed h watched b c (ok s) = after_run b c (run_streaming watched (h.spawned s))

-- `exec`, which Run calls with no callback and Stream with one.
unfoldable pub exec : Host → Bool → PrivilegeBackend → Command → Output × Option RunError
exec h watched b c = executed h watched b c (prepare h b c)

abbrev pub run : Host → PrivilegeBackend → Command → Output × Option RunError
run h b c = exec h false b c

abbrev pub stream : Host → PrivilegeBackend → Command → Output × Option RunError
stream h b c = exec h true b c

-- `Detect`.
unfoldable pub detect : Host → List PrivilegeBackend
detect h =
    (if is_missing (h.look_path (codes "sudo")) then [] else sudo ∷ [])
    ++ (if is_missing (h.look_path (codes "doas")) then [] else doas ∷ [])
