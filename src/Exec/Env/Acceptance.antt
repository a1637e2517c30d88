-- ===== src/Exec/Env/Acceptance.antt =====
-- Which lists of variables ValidateCommandEnv accepts.
use power_manage_sdk.Exec.Env.{
  cut_key, prepended, is_allowed_env_var, is_reserved_env_var, valid_env_var_name, is_name_char,
  validate_env_vars, refuse_reserved, validate_command_env,
}
use power_manage_sdk.Prelude.{
  ◌≡◌, ◌↔◌, refl, arith, ℕ, true, false, Option, none, some, List, [], ◌∷◌, ◌++◌, Bytes, ◌==◌, all,
  ok, All, inl, inr, Bool-cases, Option-cases, >>-eq-ok,
}

-- NAME=value, the name safe to set and not one that the runner forces.
abbrev pub IsAcceptable : Bytes → Type 0
IsAcceptable e =
    (key value : Bytes) × (e ≡ key ++ (b'=' ∷ value))
    × (is_allowed_env_var key ≡ true)
    × (is_reserved_env_var key ≡ false)

pub prepended-eq-some :
    (c : ℕ) (o : Option Bytes) (k : Bytes)
    → prepended c o ≡ some k
    → (j : Bytes) × (o ≡ some j) × (k ≡ c ∷ j)
prepended-eq-some c none k h = cc
prepended-eq-some c (some j) k h = (j, refl, cc)

pub cut_key→append : (e k : Bytes) → cut_key e ≡ some k → (v : Bytes) × (e ≡ k ++ (b'=' ∷ v))
cut_key→append [] k h = cc
cut_key→append (c ∷ s) k h = elim (Bool-cases (c == b'=')) [
  | inl here ↦ (s, ground arith)
  | inr there ↦
      let (j, cut, same) = prepended-eq-some c (cut_key s) k (ground arith) in
      let (v, e) = cut_key→append s j cut in (v, ground arith)
]

cut_key-append : (k v : Bytes) → all is_name_char k ≡ true → cut_key (k ++ (b'=' ∷ v)) ≡ some k
cut_key-append [] v h = refl
cut_key-append (c ∷ k) v h = ground (arith, cut_key-append k v)

allowed-all : (k : Bytes) → is_allowed_env_var k ≡ true → all is_name_char k ≡ true
unfolding is_allowed_env_var valid_env_var_name
allowed-all [] h = refl
allowed-all (c ∷ k) h = ground arith

pub cut_key_allowed :
    (k v : Bytes) → is_allowed_env_var k ≡ true → cut_key (k ++ (b'=' ∷ v)) ≡ some k
cut_key_allowed k v h = cut_key-append k v (allowed-all k h)

validate_env_vars-eq-ok :
    (e : Bytes) (es : List Bytes)
    → validate_env_vars (e ∷ es) ≡ ok tt
    → (key : Bytes) × (cut_key e ≡ some key)
      × (is_allowed_env_var key ≡ true)
      × (validate_env_vars es ≡ ok tt)
unfolding validate_env_vars
validate_env_vars-eq-ok e es h = elim (Option-cases (cut_key e)) [
  | inl uncut ↦ ground arith
  | inr (key, cut) ↦ (key, cut, ground arith, ground arith)
]

accepted-All :
    (es : List Bytes)
    → validate_env_vars es ≡ ok tt
    → refuse_reserved es ≡ ok tt
    → All IsAcceptable es
unfolding refuse_reserved
accepted-All [] valid free = tt
accepted-All (e ∷ es) valid free =
    let (key, cut, allowed, rest) = validate_env_vars-eq-ok e es valid in
    let (value, same) = cut_key→append e key cut in
    ((key, value, same, allowed, ground arith), accepted-All es rest (ground arith))

validate_env_vars_complete : (es : List Bytes) → All IsAcceptable es → validate_env_vars es ≡ ok tt
unfolding validate_env_vars
validate_env_vars_complete [] h = refl
validate_env_vars_complete (e ∷ es) ((key, value, same, allowed, free), t) =
    ground (arith, cut_key_allowed key value allowed, validate_env_vars_complete es t)

refuse_reserved_complete : (es : List Bytes) → All IsAcceptable es → refuse_reserved es ≡ ok tt
unfolding refuse_reserved
refuse_reserved_complete [] h = refl
refuse_reserved_complete (e ∷ es) ((key, value, same, allowed, free), t) =
    ground (arith, cut_key_allowed key value allowed, refuse_reserved_complete es t)

-- The runner takes a list of variables exactly when each is a NAME=value whose name is a safe one
-- to set and not one that the runner forces itself.
pub validate_command_env-IsAcceptable :
    (env : List Bytes) → (validate_command_env env ≡ ok tt) ↔ All IsAcceptable env
unfolding validate_command_env
validate_command_env-IsAcceptable env = (
  λ h.
      let (valid, free) = >>-eq-ok (validate_env_vars env) (refuse_reserved env) h in
      accepted-All env valid free,
  λ h. rw (validate_env_vars_complete env h) (refuse_reserved_complete env h),
)
