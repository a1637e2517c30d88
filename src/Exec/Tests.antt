-- ===== src/Exec/Tests.antt =====
-- Commands run on concrete hosts, and the theorems at them.
use power_manage_sdk.Exec.CappedBuffer.{
  new_capped_buffer, writes, rendered, counts, truncation_marker, capped-input,
}
use power_manage_sdk.Exec.Env.Acceptance.{IsAcceptable, validate_command_env-IsAcceptable}
use power_manage_sdk.Exec.Env.Effective.{
  env_value, first_of, granted, build_child_env-value, build_child_env_blocked,
  build_child_env_forced,
}
use power_manage_sdk.Exec.Env.{
  Parent, valid_env_var_name, is_allowed_env_var, is_reserved_env_var, validate_env_vars,
  refuse_reserved, validate_command_env, inherited, child_vars, forced_env, build_child_env,
}
use power_manage_sdk.Exec.Output.Laws.{output_of, calls_of, run_streaming-kept}
use power_manage_sdk.Exec.Output.{
  stream_stdout, stream_stderr, take_line, record_line, sent, closed_stream, drain_remaining, drain,
  no_capture, Output, Child, finished, run_streaming,
}
use power_manage_sdk.Exec.Runner.Laws.{IsReady, exec_ok}
use power_manage_sdk.Exec.Runner.{
  sudo, doas, Command, Spawn, Host, wrap_escalation, detect_escalation_denied, prepare, exec,
}
use power_manage_sdk.Prelude.{
  ◌≡◌, ◌≢◌, ◌↔◌, refl, true, false, ◌&&◌, none, some, List, [], ◌∷◌, ◌++◌, Bytes, codes, pos, equal,
  member, has_prefix, contains, ok, All, if◌then◌else◌,
}

-- Written in two pieces, a buffer of four bytes keeps the first four.
capped-input_example :
    (rendered (writes (new_capped_buffer (pos 4)) (codes "abc" ∷ codes "def" ∷ []))
      ≡ codes "abcd" ++ truncation_marker)
    × (counts (new_capped_buffer (pos 4)) (codes "abc" ∷ codes "def" ∷ []) ≡ 3 ∷ 3 ∷ [])
capped-input_example = capped-input (pos 4) (codes "abc" ∷ codes "def" ∷ [])

abbrev vars : List Bytes
vars = codes "DEBIAN_FRONTEND=noninteractive" ∷ codes "HOME=/root" ∷ []

validate_command_env-IsAcceptable_example :
    (validate_command_env vars ≡ ok tt) ↔ All IsAcceptable vars
validate_command_env-IsAcceptable_example = validate_command_env-IsAcceptable vars

-- The process has a PATH and a library to preload.
abbrev parent : Parent
parent = record {
  path = codes "/usr/bin";
  environ =
      codes "PATH=/usr/bin"
      ∷ codes "LD_PRELOAD=/tmp/x.so"
      ∷ codes "LANG=de_DE"
      ∷ codes "TZ=UTC"
      ∷ [];
}

built : build_child_env parent [] vars ≡ ok ((codes "PATH=/usr/bin" ∷ vars) ++ forced_env)
unfolding build_child_env validate_command_env validate_env_vars refuse_reserved child_vars
    is_allowed_env_var is_reserved_env_var valid_env_var_name member has_prefix equal
built = refl

built_inherited :
    build_child_env parent [] [] ≡ ok ((codes "LANG=de_DE" ∷ codes "TZ=UTC" ∷ []) ++ forced_env)
unfolding build_child_env validate_command_env validate_env_vars refuse_reserved child_vars
    inherited is_allowed_env_var is_reserved_env_var valid_env_var_name member has_prefix equal
built_inherited = refl

build_child_env-value_example :
    env_value (codes "HOME") ((codes "PATH=/usr/bin" ∷ vars) ++ forced_env)
    ≡ first_of (env_value (codes "HOME") forced_env) (granted parent [] vars (codes "HOME"))
build_child_env-value_example = build_child_env-value parent [] vars (codes "HOME") built

preload_refused : is_allowed_env_var (codes "LD_PRELOAD") ≡ false
unfolding is_allowed_env_var valid_env_var_name member has_prefix equal
preload_refused = refl

build_child_env_blocked_example :
    env_value (codes "LD_PRELOAD") ((codes "LANG=de_DE" ∷ codes "TZ=UTC" ∷ []) ++ forced_env) ≡ none
build_child_env_blocked_example =
    build_child_env_blocked parent [] [] (codes "LD_PRELOAD") built_inherited preload_refused
      (λ e. cc)

-- A command with no variables runs with no PATH.
build_child_env_forced_example :
    let found = (codes "LANG=de_DE" ∷ codes "TZ=UTC" ∷ []) ++ forced_env in
    (env_value (codes "LC_ALL") found ≡ some (codes "C"))
    × (env_value (codes "LANG") found ≡ some (codes "C"))
    × (env_value (codes "NO_COLOR") found ≡ some (codes "1"))
    × (env_value (codes "PATH") found ≡ none)
build_child_env_forced_example = build_child_env_forced parent [] [] built_inherited

-- Two lines of output around one of errors; stdout closes first.
abbrev child : Child
child = record {
  events =
      sent stream_stdout (codes "one")
      ∷ sent stream_stderr (codes "oops")
      ∷ sent stream_stdout (codes "two")
      ∷ closed_stream stream_stdout
      ∷ sent stream_stderr (codes "late")
      ∷ closed_stream stream_stderr
      ∷ [];
  ending = finished (record { exit = pos 0; error = none; pid = 7 });
}

run_streaming-kept_example :
    (output_of stream_stderr (run_streaming true child).0
      ≡ codes "oops" ++ (10 ∷ codes "late" ++ (10 ∷ [])))
    × (calls_of stream_stderr (drain true no_capture child.events).calls
        ≡ (codes "oops" ++ (10 ∷ []), 0) ∷ (codes "late" ++ (10 ∷ []), 1) ∷ [])
run_streaming-kept_example = run_streaming-kept true child stream_stderr

-- Everything is in /usr/bin, but doas is not there.
abbrev host : Host
host = record {
  ctx_error = none;
  parent = parent;
  look_path = λ name. if equal name (codes "doas") then none else some (codes "/usr/bin/" ++ name);
  abs = λ path. some path;
  spawned = λ s. child;
}

abbrev update : Command
update = record {
  name = codes "apt-get";
  args = codes "update" ∷ [];
  dir = [];
  env = vars;
  stdin = none;
  child_path = [];
  escalate = true;
}

abbrev said : Output
said = record {
  exit_code = pos 0;
  stdout = codes "one" ++ (10 ∷ codes "two" ++ (10 ∷ []));
  stderr = codes "oops" ++ (10 ∷ codes "late" ++ (10 ∷ []));
}

exec_ok_example : (exec host true sudo update ≡ (said, none)) ↔ (
    (s : Spawn) × IsReady host sudo update s
    × (run_streaming true child ≡ (said, none))
    × ((true && detect_escalation_denied sudo said) ≡ false))
exec_ok_example = exec_ok host true sudo update said

exec-update : exec host true sudo update ≡ (said, none)
unfolding exec prepare wrap_escalation detect_escalation_denied contains run_streaming drain
    drain_remaining record_line take_line build_child_env validate_command_env validate_env_vars
    refuse_reserved child_vars is_allowed_env_var is_reserved_env_var valid_env_var_name member
    has_prefix equal
exec-update = refl

exec_no_doas : exec host true doas update ≢ (said, none)
unfolding exec prepare wrap_escalation build_child_env validate_command_env validate_env_vars
    refuse_reserved child_vars is_allowed_env_var is_reserved_env_var valid_env_var_name member
    has_prefix equal
exec_no_doas h = cc
