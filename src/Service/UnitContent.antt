-- ===== src/Service/UnitContent.antt =====
-- unitcontent.go: the policy on the text of a unit file.
mod Reading
mod Tests
use power_manage_sdk.Paths.Clean.{slash, split, clean}
use power_manage_sdk.Prelude.{
  ℕ, suc, ◌%◌, Bool, true, false, not, ◌&&◌, ◌||◌, Option, none, some, List, [], ◌∷◌, ◌++◌, Bytes,
  codes, equal, member, has_prefix, is_empty, any, ◌==◌, if◌then◌else◌, to_lower, to_upper,
  trim_space, trim_left_of, trim_right_of, fields, split_on, cut_at, reversed, Result, ok, err,
  ◌>>=◌, ◌>>◌, refuse,
}

abbrev pub exec_directives : List Bytes
exec_directives =
    codes "execstart"
    ∷ codes "execstartpre"
    ∷ codes "execstartpost"
    ∷ codes "execstop"
    ∷ codes "execstoppost"
    ∷ codes "execreload"
    ∷ codes "execcondition"
    ∷ []

abbrev pub shell_interpreters : List Bytes
shell_interpreters =
    codes "sh"
    ∷ codes "bash"
    ∷ codes "dash"
    ∷ codes "zsh"
    ∷ codes "ksh"
    ∷ codes "ash"
    ∷ codes "busybox"
    ∷ []

abbrev pub untrusted_exec_prefixes : List Bytes
untrusted_exec_prefixes = codes "/tmp/" ∷ codes "/var/tmp/" ∷ codes "/dev/shm/" ∷ []

abbrev pub dangerous_env_vars : List Bytes
dangerous_env_vars = codes "LD_PRELOAD" ∷ codes "LD_LIBRARY_PATH" ∷ codes "LD_AUDIT" ∷ []

-- ErrUnsafeUnitContent with its reasons.
pub data UnitError : Type 0 where
  shells_out runs_untrusted environment_file linker_override : UnitError

abbrev backslash : ℕ
backslash = 92

abbrev pub leading_backslashes : Bytes → ℕ
leading_backslashes [] = 0
leading_backslashes (c ∷ s) = if c == 92 then suc (leading_backslashes s) else 0

unfoldable pub trailing_backslashes : Bytes → ℕ
trailing_backslashes s = leading_backslashes (reversed s [])

abbrev pub blanks : Bytes
blanks = 32 ∷ 9 ∷ []

-- A line, its blanks at the end cut off, that the next one continues.
abbrev pub trimmed : Bytes → Bytes
trimmed l = trim_right_of blanks l

abbrev pub is_continued : Bytes → Bool
is_continued l = trailing_backslashes (trimmed l) % 2 == 1

abbrev pub without_last : Bytes → Bytes
without_last [] = []
without_last (c ∷ []) = []
without_last (c ∷ (d ∷ s)) = c ∷ without_last (d ∷ s)

-- The backslash gives way to a space.
abbrev pub folded : Bytes → Bytes
folded l = without_last (trimmed l) ++ (32 ∷ [])

abbrev pub unfinished : Option Bytes → List Bytes
unfinished none = []
unfinished (some p) = p ∷ []

abbrev pub continued : Option Bytes → Bytes → Bytes
continued none l = l
continued (some p) l = p ++ l

-- The loop of joinContinuationLines, with what is pending.
abbrev pub join_from : Option Bytes → List Bytes → List Bytes
join_from pending [] = unfinished pending
join_from pending (l ∷ ls) =
    let more = join_from (some (continued pending (folded l))) ls in
    let rest = continued pending l ∷ join_from none ls in if is_continued l then more else rest

unfoldable pub join_continuation_lines : Bytes → List Bytes
join_continuation_lines content = join_from none (split_on 10 content)

-- The elements of `path.Base`: the last segment that is not empty.
abbrev last_named : Bytes → List Bytes → Bytes
last_named d [] = d
last_named d ([] ∷ ss) = last_named d ss
last_named d ((c ∷ s) ∷ ss) = last_named (c ∷ s) ss

-- `path.Base`.
unfoldable pub base : Bytes → Bytes
base [] = codes "."
base (c ∷ p) = last_named (slash ∷ []) (split (c ∷ p))

-- `isShellCFlag`.
unfoldable pub is_shell_c_flag : Bytes → Bool
is_shell_c_flag arg =
    has_prefix (codes "-") arg && not (has_prefix (codes "--") arg) && any (λ c. c == b'c') arg

abbrev pub is_untrusted : Bytes → Bool
is_untrusted p = any (λ prefix. has_prefix prefix p) untrusted_exec_prefixes

abbrev pub check_command : List Bytes → Result UnitError (Unit {0})
check_command [] = ok tt
check_command (exe ∷ args) =
    refuse (member (base exe) shell_interpreters && any is_shell_c_flag args) shells_out
    >> refuse (is_untrusted (clean exe)) runs_untrusted

-- `validateExecLine`; the prefixes of systemd are stripped from the command.
unfoldable pub validate_exec_line : Bytes → Result UnitError (Unit {0})
validate_exec_line value = check_command (fields (trim_space (trim_left_of (codes "-@+!:") value)))

abbrev variable_of : Bytes → Bytes
variable_of pair = elim (cut_at b'=' pair) [ none ↦ pair | some (name, _) ↦ name ]

abbrev pub quotes : Bytes
quotes = 34 ∷ 39 ∷ []

abbrev pub unquoted : Bytes → Bytes
unquoted name = trim_left_of quotes (trim_right_of quotes (trim_space name))

-- `validateEnvLine`.
unfoldable pub validate_env_line : Bytes → Result UnitError (Unit {0})
validate_env_line value =
    refuse
      (any (λ pair. member (to_upper (unquoted (variable_of pair))) dangerous_env_vars)
        (fields value))
      linker_override

abbrev trim_dash : Bytes → Bytes
trim_dash [] = []
trim_dash (c ∷ s) = if c == b'-' then s else c ∷ s

-- The policy on one directive.
abbrev pub check_directive : Bytes → Bytes → Result UnitError (Unit {0})
check_directive key value =
    if member key exec_directives
    then validate_exec_line value
    else if equal key (codes "environmentfile")
    then refuse (is_untrusted (clean (trim_space (trim_dash value)))) environment_file
    else if equal key (codes "environment")
    then validate_env_line value
    else ok tt

abbrev pub is_comment : Bytes → Bool
is_comment line = has_prefix (codes "#") line || has_prefix (codes ";") line

abbrev pub check_cut : Option (Bytes × Bytes) → Result UnitError (Unit {0})
check_cut none = ok tt
check_cut (some ([], value)) = ok tt
check_cut (some (c ∷ key, value)) =
    check_directive (to_lower (trim_space (c ∷ key))) (trim_space value)

-- The policy on one logical line.
unfoldable pub check_line : Bytes → Result UnitError (Unit {0})
check_line raw =
    let line = trim_space raw in
    if is_empty line || is_comment line then ok tt else check_cut (cut_at b'=' line)

abbrev pub check_lines : List Bytes → Result UnitError (Unit {0})
check_lines [] = ok tt
check_lines (l ∷ ls) = check_line l >> check_lines ls

-- `validateUnitContent`.
unfoldable pub validate_unit_content : Bytes → Result UnitError (Unit {0})
validate_unit_content content = check_lines (join_continuation_lines content)
