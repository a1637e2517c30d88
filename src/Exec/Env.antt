-- ===== src/Exec/Env.antt =====
-- env.go, validateEnvVars to composeEnv of exec.go, and buildChildEnv of runner.go: what a child
-- process finds in its environment.
pub mod Acceptance
pub mod Effective
use power_manage_sdk.Prelude.{
  ◌≡◌, refl, arith, ℕ, ◌+◌, Bool, true, false, not, ◌&&◌, ◌||◌, Option, none, some, List, [], ◌∷◌,
  ◌++◌, Bytes, codes, equal, member, ltb, leb, ◌==◌, if◌then◌else◌, all, is_empty, is_digit,
  to_upper, has_prefix, Result, ok, err, ◌>>=◌, ◌>>◌, refuse,
}

-- `isReservedEnvVar`: what the runner forces itself.
unfoldable pub is_reserved_env_var : Bytes → Bool
is_reserved_env_var name =
    let upper = to_upper name in
    member upper (codes "LANG" ∷ codes "LANGUAGE" ∷ codes "NO_COLOR" ∷ [])
    || has_prefix (codes "LC_") upper

abbrev pub is_letter : ℕ → Bool
is_letter c = leb b'a' c && leb c b'z' || leb b'A' c && leb c b'Z'

abbrev pub is_name_start : ℕ → Bool
is_name_start c = is_letter c || c == b'_'

abbrev pub is_name_char : ℕ → Bool
is_name_char c = is_name_start c || is_digit c

-- `ValidEnvVarName`, ^[a-zA-Z_][a-zA-Z0-9_]*$.
unfoldable pub valid_env_var_name : Bytes → Bool
valid_env_var_name [] = false
valid_env_var_name (c ∷ s) = is_name_start c && all is_name_char s

-- `BlockedEnvVars`.
abbrev pub blocked_env_vars : List Bytes
blocked_env_vars =
    codes "GCONV_PATH"
    ∷ codes "HOSTALIASES"
    ∷ codes "RESOLV_HOST_CONF"
    ∷ codes "GETCONF_DIR"
    ∷ codes "NODE_OPTIONS"
    ∷ codes "PYTHONPATH"
    ∷ codes "PERL5OPT"
    ∷ codes "PERL5LIB"
    ∷ codes "RUBYLIB"
    ∷ codes "PATH"
    ∷ codes "IFS"
    ∷ codes "ENV"
    ∷ codes "BASH_ENV"
    ∷ codes "CDPATH"
    ∷ codes "GLOBIGNORE"
    ∷ []

-- `IsAllowedEnvVar`.
unfoldable pub is_allowed_env_var : Bytes → Bool
is_allowed_env_var name =
    let upper = to_upper name in
    valid_env_var_name name
    && not (member upper blocked_env_vars)
    && not (
        has_prefix (codes "LD_") upper
        || has_prefix (codes "BASH_FUNC_") upper
        || has_prefix (codes "DYLD_") upper)

abbrev pub prepended : ℕ → Option Bytes → Option Bytes
prepended c none = none
prepended c (some s) = some (c ∷ s)

pub data EnvError : Type 0 where
  invalid_env_var blocked_env_var reserved_env_var : Bytes → EnvError

-- The key of `strings.Cut(e, "=")`, where there is a `=`.
abbrev pub cut_key : Bytes → Option Bytes
cut_key [] = none
cut_key (c ∷ s) = if c == b'=' then some [] else prepended c (cut_key s)

abbrev pub key_or_all : Bytes → Bytes
key_or_all e = elim (cut_key e) [ none ↦ e | some key ↦ key ]

abbrev pub key_error : Bytes → Option Bytes → Option EnvError
key_error e none = some (invalid_env_var e)
key_error e (some key) = if is_allowed_env_var key then none else some (blocked_env_var key)

-- `validateEnvVars`.
unfoldable pub validate_env_vars : List Bytes → Result EnvError (Unit {0})
validate_env_vars [] = ok tt
validate_env_vars (e ∷ es) = elim (key_error e (cut_key e)) [
  | some bad ↦ err bad
  | none ↦ validate_env_vars es
]

unfoldable pub refuse_reserved : List Bytes → Result EnvError (Unit {0})
refuse_reserved [] = ok tt
refuse_reserved (e ∷ es) =
    if is_reserved_env_var (key_or_all e)
    then err (reserved_env_var (key_or_all e))
    else refuse_reserved es

-- `ValidateCommandEnv`.
unfoldable pub validate_command_env : List Bytes → Result EnvError (Unit {0})
validate_command_env env = validate_env_vars env >> refuse_reserved env

-- `composeEnv`.
abbrev pub compose_env : Bytes → List Bytes → List Bytes
compose_env [] vars = vars
compose_env (c ∷ p) vars = (codes "PATH=" ++ (c ∷ p)) ∷ vars

abbrev pub forced_env : List Bytes
forced_env = codes "LC_ALL=C" ∷ codes "LANG=C" ∷ codes "NO_COLOR=1" ∷ []

abbrev pub is_inherited : Option Bytes → Bool
is_inherited none = false
is_inherited (some key) = is_allowed_env_var key

unfoldable pub inherited : List Bytes → List Bytes
inherited [] = []
inherited (e ∷ es) = if is_inherited (cut_key e) then e ∷ inherited es else inherited es

-- What the SDK's own process has: `os.Getenv("PATH")` and `os.Environ()`.
pub record Parent : Type 0 where
  pub path : Bytes
  pub environ : List Bytes

-- The three cases of the switch.
unfoldable pub child_vars : Parent → Bytes → List Bytes → List Bytes
child_vars p (c ∷ path) env = compose_env (c ∷ path) env
child_vars p [] (e ∷ env) = compose_env p.path (e ∷ env)
child_vars p [] [] = inherited p.environ

-- `buildChildEnv`, of a command's ChildPath and Env.
unfoldable pub build_child_env : Parent → Bytes → List Bytes → Result EnvError (List Bytes)
build_child_env p child_path env =
    validate_command_env env >> ok (child_vars p child_path env ++ forced_env)
