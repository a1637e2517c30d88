-- ===== src/Exec/Env/Effective.antt =====
-- What a child reads under a name: of several entries the last, as os/exec and the C library's
-- environment do.
use power_manage_sdk.Exec.Env.Acceptance.{
  IsAcceptable, validate_command_env-IsAcceptable, cut_key_allowed,
}
use power_manage_sdk.Exec.Env.{
  Parent, cut_key, is_allowed_env_var, valid_env_var_name, inherited, compose_env, child_vars,
  forced_env, build_child_env, validate_command_env,
}
use power_manage_sdk.Prelude.{
  ◌≡◌, ◌≢◌, refl, sym, ap, ◌∙◌, arith, suc, Bool, true, false, not, Option, none, some, List, [],
  ◌∷◌, ◌++◌, Bytes, codes, equal, equal_iff, equal_refl, is_empty, member, has_prefix,
  if◌then◌else◌, length, drop, ok, All, ok_injective, inl, inr, Bool-cases, Option-cases, >>-eq-ok,
  ◌&&◌, ◌||◌,
}

abbrev pub first_of : Option Bytes → Option Bytes → Option Bytes
first_of none b = b
first_of (some v) b = some v

abbrev value_of : Bytes → Bytes → Option Bytes → Option Bytes
value_of name e none = none
value_of name e (some key) = if equal key name then some (drop (suc (length key)) e) else none

unfoldable pub env_value : Bytes → List Bytes → Option Bytes
env_value name [] = none
env_value name (e ∷ es) = first_of (env_value name es) (value_of name e (cut_key e))

env_value-append :
    (name : Bytes) (xs ys : List Bytes)
    → env_value name (xs ++ ys) ≡ first_of (env_value name ys) (env_value name xs)
unfolding env_value
env_value-append name [] ys = ground arith
env_value-append name (x ∷ xs) ys = ground (arith, env_value-append name xs ys)

-- A name that may not be set has no value among entries that may.
env_value_blocked :
    (name : Bytes) (es : List Bytes)
    → is_allowed_env_var name ≡ false
    → All IsAcceptable es
    → env_value name es ≡ none
unfolding env_value
env_value_blocked name [] bad h = refl
env_value_blocked name (e ∷ es) bad ((key, value, same, allowed, free), t) =
    elim (Bool-cases (equal key name)) [
      | inl named ↦
          let e : key ≡ name = (equal_iff key name).0 named in
          ground (arith, e, ap is_allowed_env_var e)
      | inr other ↦
          rw (same, cut_key_allowed key value allowed, other, env_value_blocked name es bad t) refl
    ]

env_value-inherited :
    (name : Bytes) (es : List Bytes)
    → env_value name (inherited es) ≡ (if is_allowed_env_var name then env_value name es else none)
unfolding env_value inherited
env_value-inherited name [] = ground arith
env_value-inherited name (e ∷ es) = elim (Option-cases (cut_key e)) [
  | inl uncut ↦ ground (arith, uncut, env_value-inherited name es)
  | inr (key, cut) ↦ elim (Bool-cases (equal key name)) [
    | inl named ↦ ground (arith, (equal_iff key name).0 named, env_value-inherited name es)
    | inr other ↦ ground (arith, env_value-inherited name es)
  ]
]

abbrev pub no_vars : List Bytes → Bool
no_vars [] = true
no_vars (_ ∷ _) = false

abbrev pub path_value : Bytes → Bytes → Option Bytes
path_value path name = if equal (codes "PATH") name && not (is_empty path) then some path else none

-- What the variables below the forced ones give: the command's own when it sets any or a PATH,
-- else those of the SDK's process that may be set.
abbrev pub granted : Parent → Bytes → List Bytes → Bytes → Option Bytes
granted p child_path env name =
    if is_empty child_path && no_vars env
    then (if is_allowed_env_var name then env_value name p.environ else none)
    else first_of (env_value name env)
        (path_value (if is_empty child_path then p.path else child_path) name)

env_value-compose_env :
    (name path : Bytes) (env : List Bytes)
    → env_value name (compose_env path env) ≡ first_of (env_value name env) (path_value path name)
unfolding env_value
env_value-compose_env name [] env = ground arith
env_value-compose_env name (c ∷ path) env = ground arith

env_value-child_vars :
    (p : Parent) (child_path : Bytes) (env : List Bytes) (name : Bytes)
    → env_value name (child_vars p child_path env) ≡ granted p child_path env name
unfolding child_vars
env_value-child_vars p (c ∷ path) env name = env_value-compose_env name (c ∷ path) env
env_value-child_vars p [] (e ∷ env) name = env_value-compose_env name p.path (e ∷ env)
env_value-child_vars p [] [] name = env_value-inherited name p.environ

-- When the runner starts a child, the value of each name in the child's environment is the forced
-- one, and under a name that is not forced what the command grants: its own variables, then its
-- ChildPath or the parent's PATH; with neither variables nor ChildPath, the parent's value of a
-- name that may be set, and nothing for another.
pub build_child_env-value :
    (p : Parent) (child_path : Bytes) (env : List Bytes) {vars : List Bytes} (name : Bytes)
    → build_child_env p child_path env ≡ ok vars
    → env_value name vars ≡ first_of (env_value name forced_env) (granted p child_path env name)
unfolding build_child_env
build_child_env-value p child_path env {vars} name h =
    let (valid, same) =
      >>-eq-ok (validate_command_env env) (ok (child_vars p child_path env ++ forced_env)) h in
    rw (← ok_injective same) (
      env_value-append name (child_vars p child_path env) forced_env
      ∙ ap (first_of (env_value name forced_env)) (env_value-child_vars p child_path env name))

allowed_env :
    (p : Parent) (child_path : Bytes) (env : List Bytes) {vars : List Bytes}
    → build_child_env p child_path env ≡ ok vars
    → All IsAcceptable env
unfolding build_child_env
allowed_env p child_path env h =
    (validate_command_env-IsAcceptable env).0
      (>>-eq-ok (validate_command_env env) (ok (child_vars p child_path env ++ forced_env)) h).0

differs :
    (other name : Bytes)
    → is_allowed_env_var other ≡ true
    → is_allowed_env_var name ≡ false
    → equal other name ≡ false
differs other name good bad = elim (Bool-cases (equal other name)) [
  | inl same ↦
      let e : other ≡ name = (equal_iff other name).0 same in
      ground (arith, ap is_allowed_env_var e)
  | inr e ↦ e
]

forced_allowed :
    (is_allowed_env_var (codes "LC_ALL") ≡ true)
    × (is_allowed_env_var (codes "LANG") ≡ true)
    × (is_allowed_env_var (codes "NO_COLOR") ≡ true)
unfolding is_allowed_env_var valid_env_var_name member has_prefix equal
forced_allowed = (refl, refl, refl)

env_value-forced :
    (name : Bytes) → is_allowed_env_var name ≡ false → env_value name forced_env ≡ none
unfolding env_value
env_value-forced name bad =
    let (all_, lang, color) = forced_allowed in
    rw
      (
        differs (codes "LC_ALL") name all_ bad,
        differs (codes "LANG") name lang bad,
        differs (codes "NO_COLOR") name color bad,
      )
      refl

granted_blocked :
    (p : Parent) (child_path : Bytes) (env : List Bytes) (name : Bytes)
    → All IsAcceptable env
    → is_allowed_env_var name ≡ false
    → name ≢ codes "PATH"
    → granted p child_path env name ≡ none
granted_blocked p child_path env name fine bad other =
    elim (Bool-cases (equal (codes "PATH") name)) [
      | inl same ↦ elim (other (sym ((equal_iff (codes "PATH") name).0 same))) [ ]
      | inr no_path ↦ ground (arith, env_value_blocked name env bad fine)
    ]

path_blocked : is_allowed_env_var (codes "PATH") ≡ false
unfolding is_allowed_env_var valid_env_var_name member has_prefix equal
path_blocked = refl

granted_path :
    (p : Parent) (child_path : Bytes) (env : List Bytes)
    → All IsAcceptable env
    → first_of (env_value (codes "PATH") forced_env) (granted p child_path env (codes "PATH")) ≡ (
        if is_empty child_path
        then (if no_vars env || is_empty p.path then none else some p.path)
        else some child_path)
granted_path p child_path env fine = ground (
  arith,
  env_value-forced (codes "PATH") path_blocked,
  env_value_blocked (codes "PATH") env path_blocked fine,
  path_blocked,
  equal_refl (codes "PATH"),
)

-- No name that can hijack a child has a value in the environment of a child, from whatever
-- variables and whatever parent: neither the blocked names but PATH, nor LD_, BASH_FUNC_ and DYLD_
-- names, nor what is no name.
pub build_child_env_blocked :
    (p : Parent) (child_path : Bytes) (env : List Bytes) {vars : List Bytes} (name : Bytes)
    → build_child_env p child_path env ≡ ok vars
    → is_allowed_env_var name ≡ false
    → name ≢ codes "PATH"
    → env_value name vars ≡ none
build_child_env_blocked p child_path env name h bad other =
    rw (build_child_env-value p child_path env name h, env_value-forced name bad)
      (granted_blocked p child_path env name (allowed_env p child_path env h) bad other)

-- The locale and the colour of a child are the forced ones. Its PATH is the command's ChildPath;
-- without one the parent's, if the command sets variables, and none at all if it sets none.
pub build_child_env_forced :
    (p : Parent) (child_path : Bytes) (env : List Bytes) {vars : List Bytes}
    → build_child_env p child_path env ≡ ok vars
    → (env_value (codes "LC_ALL") vars ≡ some (codes "C"))
      × (env_value (codes "LANG") vars ≡ some (codes "C"))
      × (env_value (codes "NO_COLOR") vars ≡ some (codes "1"))
      × (env_value (codes "PATH") vars ≡ (
          if is_empty child_path
          then (if no_vars env || is_empty p.path then none else some p.path)
          else some child_path))
build_child_env_forced p child_path env h = (
  build_child_env-value p child_path env (codes "LC_ALL") h ∙ unfold env_value equal in refl,
  build_child_env-value p child_path env (codes "LANG") h ∙ unfold env_value equal in refl,
  build_child_env-value p child_path env (codes "NO_COLOR") h ∙ unfold env_value equal in refl,
  build_child_env-value p child_path env (codes "PATH") h
      ∙ granted_path p child_path env (allowed_env p child_path env h),
)
