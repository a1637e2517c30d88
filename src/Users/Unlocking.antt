-- ===== src/Users/Unlocking.antt =====
-- What becomes of the password field of an account that is unlocked.
use power_manage_sdk.Exec.Host.{Command, Output, Runner}
use power_manage_sdk.Users.Accounts.{is_passwordless}
use power_manage_sdk.Prelude.{
  Bool, true, false, not, ◌==◌, ◌≡◌, none, some, List, [], ◌∷◌, ◌++◌, Bytes, codes, any, has_prefix,
  is_empty, drop, if◌then◌else◌, pos, trim_space,
}

abbrev pub success : Bytes → Output
success out = record { exit_code = pos 0; stdout = out; stderr = [] }

abbrev pub as_root : Bytes → List Bytes → Command
as_root name args = record { name = name; args = args; stdin = none; escalate = true }

-- What shadow-utils and getent document, for one account whose password field the host keeps: the
-- entry is shown, `-p` writes the field, `-U` takes one exclamation mark off a password.
abbrev pub IsShadow : {W : Type 0} → Runner W → (W → Bytes) → Bytes → Type 0
IsShadow {W} runner field name =
    ((w : W)
      → (out : Bytes) × (rest : Bytes) × (runner w
            (as_root (codes "getent") (codes "shadow" ∷ name ∷ []))
          ≡ (w, some (success out)))
        × (is_empty out ≡ false)
        × (trim_space out ≡ name ++ (b':' ∷ (field w ++ (b':' ∷ rest))))
        × (any (λ c. c == b':') (field w) ≡ false))
    × ((w : W)
        → (after : W) × (runner w (as_root (codes "usermod") (codes "-p" ∷ codes "*" ∷ name ∷ []))
            ≡ (after, some (success [])))
          × (field after ≡ codes "*"))
    × ((w : W)
        → has_prefix (codes "!") (field w) ≡ true
        → is_passwordless (field w) ≡ false
        → (after : W) × (runner w (as_root (codes "usermod") (codes "-U" ∷ name ∷ []))
            ≡ (after, some (success [])))
          × (field after ≡ drop 1 (field w)))

-- The field of an account that is unlocked: as it was if it was not locked, a star if there is no
-- password behind the mark, else without one mark.
abbrev pub unlocked : Bytes → Bytes
unlocked field =
    if not (has_prefix (codes "!") field)
    then field
    else if is_passwordless field
    then codes "*"
    else drop 1 field

abbrev pub is_locked : Bytes → Bool
is_locked field = has_prefix (codes "!") field
