-- ===== src/Paths/Resolve.antt =====
-- sys/fs/validate.go: ResolveAndValidatePath.
use power_manage_sdk.Paths.Clean.{absolute, is_abs, clean, kept_back, join}
use power_manage_sdk.Prelude.{
  reversed, Bool, Option, List, [], ◌∷◌, ◌++◌, Bytes, if◌then◌else◌, Result, ok, err, ◌>>=◌,
}

pub data PathError : Type 0 where
  path_not_absolute cannot_stat resolve_symlinks_not_exist resolve_symlinks : PathError

pub data Stat : Type 0 where
  exists not_exist stat_failed : Stat

-- What the file system answers at one moment: `os.Stat`, `filepath.EvalSymlinks`, whether
-- `os.Lstat` finds a symlink, and the working directory.
pub record Files : Type 0 where
  pub stat : Bytes → Stat
  pub eval_symlinks : Bytes → Result PathError Bytes
  pub is_symlink : Bytes → Bool
  pub cwd : Option Bytes

-- The walk up from the parent directory: the first that exists, and the segments below it that
-- do not. The segments come last first; the root is not asked for.
abbrev pub first_existing : Files → List Bytes → List Bytes → Result PathError (Bytes × List Bytes)
first_existing f [] missing = ok (absolute [], missing)
first_existing f (s ∷ up) missing = elim (f.stat (absolute (reversed (s ∷ up) []))) [
  | exists ↦ ok (absolute (reversed (s ∷ up) []), missing)
  | not_exist ↦ first_existing f up (s ∷ missing)
  | stat_failed ↦ err cannot_stat
]

-- The directory of a cleaned absolute path and its base, by its segments, last first.
abbrev pub parent_of : List Bytes → List Bytes
parent_of [] = []
parent_of (s ∷ up) = up

abbrev pub base_of : List Bytes → List Bytes
base_of [] = []
base_of (s ∷ up) = s ∷ []

abbrev pub resolved_below : Files → Bytes → Bytes × List Bytes → Result PathError Bytes
resolved_below f p (existing, missing) =
    f.eval_symlinks existing >>= λ real. ok (join real (missing ++ base_of (kept_back p)))

unfoldable pub resolve_and_validate_path : Files → Bytes → Result PathError Bytes
resolve_and_validate_path f p =
    if is_abs (clean p)
    then (first_existing f (parent_of (kept_back p)) [] >>= resolved_below f p)
    else err path_not_absolute
