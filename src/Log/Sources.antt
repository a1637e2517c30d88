-- ===== src/Log/Sources.antt =====
-- sys/log/log.go, journald.go, syslog.go: queries, checked before any command is run. The compiler
-- of regular expressions is an argument.
use power_manage_sdk.Exec.Host.{Output, Runner}
use power_manage_sdk.Prelude.Actions.{Action, ◌>>=◌, ◌>>◌, pure}
use power_manage_sdk.Log.Guard.{is_pathological_grep_pattern, Reason}
use power_manage_sdk.Prelude.{
  ℕ, Bool, true, false, not, ◌&&◌, ◌||◌, Option, none, some, List, [], ◌∷◌, ◌++◌, Bytes, codes,
  member, has_prefix, is_empty, length, reversed, ◌==◌, ltb, if◌then◌else◌, ℤ, pos, negsuc, decimal,
  split_on, trim_space, Result, ok, err, refuse,
}

pub data Backend : Type 0 where
  journald : Backend
  syslog : Backend
  unknown : ℤ → Backend

pub data LogError : Type 0 where
  unknown_backend runner_required invalid_query run_failed no_syslog : LogError
  command_failed : ℤ → Bytes → LogError

pub record Query : Type 0 where
  pub unit : Bytes
  pub since : Bytes
  pub until : Bytes
  pub priority : Bytes
  pub grep : Bytes
  pub kernel : Bool
  pub lines : ℤ

abbrev known : Backend → Result LogError Backend
known (unknown _) = err unknown_backend
known backend = ok backend

-- `New`; a nil runner is `false`.
unfoldable pub new : Backend → Bool → Result LogError Backend
new backend runner = if runner then known backend else err runner_required

abbrev pub default_lines : ℕ
default_lines = 100

abbrev pub max_lines : ℕ
max_lines = 10000

abbrev pub max_grep_len : ℕ
max_grep_len = 256

-- `cappedLines`.
unfoldable pub capped_lines : ℤ → ℕ
capped_lines (negsuc _) = default_lines
capped_lines (pos n) = if n == 0 then default_lines else if ltb max_lines n then max_lines else n

abbrev pub valid_priorities : List Bytes
valid_priorities =
    codes "0"
    ∷ codes "1"
    ∷ codes "2"
    ∷ codes "3"
    ∷ codes "4"
    ∷ codes "5"
    ∷ codes "6"
    ∷ codes "7"
    ∷ codes "emerg"
    ∷ codes "alert"
    ∷ codes "crit"
    ∷ codes "err"
    ∷ codes "warning"
    ∷ codes "notice"
    ∷ codes "info"
    ∷ codes "debug"
    ∷ []

abbrev is_refused : Option Reason → Bool
is_refused none = false
is_refused (some _) = true

abbrev check_grep : Bytes → Result LogError (Unit {0})
check_grep grep =
    refuse
      (not (is_empty grep)
        && (ltb max_grep_len (length grep) || is_refused (is_pathological_grep_pattern grep)))
      invalid_query

abbrev check_all :
    Result LogError (Unit {0}) → Result LogError (Unit {0}) → Result LogError (Unit {0})
check_all (ok _) second = second
check_all (err why) second = err why

-- `validateQuery`.
unfoldable pub validate_query : Query → Result LogError (Unit {0})
unfolding member is_pathological_grep_pattern
validate_query q =
    check_all
      (refuse (not (is_empty q.priority) && not (member q.priority valid_priorities)) invalid_query)
      (check_grep q.grep)

-- An option with its value, where it is set.
abbrev pub option : Bytes → Bytes → List Bytes
option flag value = if is_empty value then [] else flag ∷ value ∷ []

-- The arguments of journalctl.
unfoldable pub journal_args : Query → List Bytes
unfolding capped_lines decimal
journal_args q =
    (codes "--no-pager" ∷ codes "-n" ∷ decimal (capped_lines q.lines) ∷ [])
    ++ (option (codes "-u") q.unit
        ++ (option (codes "--since") q.since
            ++ (option (codes "--until") q.until
                ++ (option (codes "-p") q.priority
                    ++ ((if q.kernel then codes "-k" ∷ [] else [])
                        ++ option (codes "--grep") q.grep)))))

abbrev trim_newline : Bytes → Bytes
trim_newline [] = []
trim_newline (c ∷ []) = if c == 10 then [] else c ∷ []
trim_newline (c ∷ (d ∷ s)) = c ∷ trim_newline (d ∷ s)

abbrev lines_of : Bytes → List Bytes
lines_of [] = []
lines_of (c ∷ s) = split_on 10 (c ∷ s)

-- `splitLines`.
unfoldable pub split_lines : Bytes → List Bytes
split_lines out = lines_of (trim_newline out)

-- `strings.HasSuffix(s, t)`, the end first.
abbrev pub has_suffix : Bytes → Bytes → Bool
has_suffix t s = has_prefix (reversed t []) (reversed s [])

abbrev pub is_marker : Bytes → Bool
is_marker line =
    has_prefix (codes "-- ") (trim_space line) && has_suffix (codes " --") (trim_space line)

-- `dropStatusMarkers`.
unfoldable pub drop_status_markers : List Bytes → List Bytes
unfolding has_prefix trim_space
drop_status_markers [] = []
drop_status_markers (l ∷ ls) =
    let rest = drop_status_markers ls in if is_marker l then rest else l ∷ rest

abbrev is_code : ℕ → ℤ → Bool
is_code n (pos m) = m == n
is_code n (negsuc _) = false

-- No match is not a failure.
abbrev pub journal_lines : Query → Output → Result LogError (List Bytes)
journal_lines q res =
    if is_code 0 res.exit_code
    then ok (drop_status_markers (split_lines res.stdout))
    else if not (is_empty q.grep) && (is_code 1 res.exit_code && is_empty (trim_space res.stderr))
    then ok []
    else err (command_failed res.exit_code res.stderr)

-- `regexp.Compile`: what the compiled pattern matches.
abbrev pub Compile : Type 0
Compile = Bytes → Option (Bytes → Bool)

abbrev compiled : Compile → Bytes → Result LogError (Bytes → Bool)
compiled compile grep = elim (compile grep) [ none ↦ err invalid_query | some re ↦ ok re ]

abbrev pub matching : (Bytes → Bool) → List Bytes → List Bytes
matching re [] = []
matching re (l ∷ ls) = let rest = matching re ls in if re l then l ∷ rest else rest

-- `syslogPaths`.
abbrev pub syslog_paths : List Bytes
syslog_paths = codes "/var/log/syslog" ∷ codes "/var/log/messages" ∷ []

abbrev pub first_found : (Bytes → Bool) → List Bytes → Result LogError Bytes
first_found stat [] = err no_syslog
first_found stat (p ∷ ps) = let rest = first_found stat ps in if stat p then ok p else rest

module _ {W : Type 0} (runner : Runner W) where
  abbrev answered : W × Option Output → W × Result LogError Output
  answered (w, none) = (w, err run_failed)
  answered (w, some res) = (w, ok res)

  abbrev as_root : Bytes → List Bytes → Action W LogError Output
  as_root name args w =
      answered (runner w (record { name = name; args = args; stdin = none; escalate = true }))

  -- Query of the journal.
  unfoldable pub journal_query : Query → Action W LogError (List Bytes)
  journal_query q = do
    pure (validate_query q)
    res ← as_root (codes "journalctl") (journal_args q)
    pure (journal_lines q res)

  -- `runEscalated`, with no exit code but 0 that is a success.
  abbrev run_escalated : Bytes → List Bytes → Action W LogError Bytes
  run_escalated name args = do
    res ← as_root name args
    pure (
        if is_code 0 res.exit_code
        then ok res.stdout
        else err (command_failed res.exit_code res.stderr))

  abbrev filter_of : Compile → Bytes → Result LogError (Bytes → Bool)
  filter_of compile grep = if is_empty grep then ok (λ _. true) else compiled compile grep

  -- Query of the log files; without a pattern every line matches. `stat` is `statFile`.
  unfoldable pub syslog_query :
      Compile → (W → Bytes → Bool) → Query → Action W LogError (List Bytes)
  syslog_query compile stat q = do
    pure (validate_query q)
    re ← pure (filter_of compile q.grep)
    path ← λ w. (w, first_found (stat w) syslog_paths)
    out ←
        run_escalated (codes "tail")
          (codes "-n" ∷ decimal (capped_lines q.lines) ∷ codes "--" ∷ path ∷ [])
    pure (ok (matching re (split_lines out)))
