-- ===== src/Paths/Destination.antt =====
-- sys/remote/paths.go: where a fetch may write, what a wipe may remove, and the destinations that
-- are remembered. The lock of the remembered set makes each access one step.
pub mod Laws
pub mod History
use power_manage_sdk.Paths.Clean.{slash, is_abs, clean}
use power_manage_sdk.Paths.Protected.{is_under_protected_prefix}
use power_manage_sdk.Paths.Resolve.{
  PathError, resolve_symlinks_not_exist, Files, resolve_and_validate_path,
}
use power_manage_sdk.Prelude.{
  trim_space, ◌≡◌, Bool, true, false, not, ◌&&◌, ◌||◌, Option, none, some, List, [], ◌∷◌, ◌++◌,
  Bytes, codes, equal, member, has_prefix, any, is_empty, if◌then◌else◌, Result, ok, err, ◌>>=◌,
  ◌>>◌, refuse,
}

-- `wipeAllowedRoots`, with the slash that ends each.
abbrev pub wipe_allowed_roots : List Bytes
wipe_allowed_roots = codes "/var/lib/power-manage/" ∷ codes "/etc/power-manage/" ∷ []

-- `isManagedRoot`; trimming and putting back the final slash of a root gives the root.
unfoldable pub is_managed_root : Bytes → Bool
is_managed_root p = any (λ root. has_prefix root (p ++ (slash ∷ []))) wipe_allowed_roots

-- ErrUnsafeDestination with its reasons.
pub data Unsafe : Type 0 where
  empty_path not_absolute is_root under_protected resolves_to_protected symlink_to_protected
        not_recorded :
      Unsafe
  unresolved : PathError → Unsafe

abbrev pub lexical_checks : Bytes → Result Unsafe (Unit {0})
lexical_checks trim =
    refuse (is_empty trim) empty_path
    >> (refuse (not (is_abs trim)) not_absolute >> refuse (equal (clean trim) (slash ∷ [])) is_root)

abbrev pub resolved_checks : Files → Result PathError Bytes → Result Unsafe (Unit {0})
resolved_checks f (err e) = err (unresolved e)
resolved_checks f (ok p) = refuse (is_under_protected_prefix f.cwd p) resolves_to_protected

abbrev pub protected_target : Files → Result PathError Bytes → Bool
protected_target f (err e) = false
protected_target f (ok p) = is_under_protected_prefix f.cwd p

abbrev pub leaf_checks : Files → Bytes → Result Unsafe (Unit {0})
leaf_checks f trim =
    refuse (f.is_symlink trim && protected_target f (f.eval_symlinks trim)) symlink_to_protected

-- What stands outside the managed roots.
abbrev pub unmanaged_checks : Files → Bytes → Result Unsafe (Unit {0})
unmanaged_checks f trim =
    refuse (is_under_protected_prefix f.cwd (clean trim)) under_protected
    >> (resolved_checks f (resolve_and_validate_path f trim) >> leaf_checks f trim)

-- `validateDestination`.
unfoldable pub validate_destination : Files → Bytes → Result Unsafe (Unit {0})
validate_destination f path =
    let trim = trim_space path in
    lexical_checks trim >> (if is_managed_root (clean trim) then ok tt else unmanaged_checks f trim)

abbrev pub is_not_exist : PathError → Bool
is_not_exist resolve_symlinks_not_exist = true
is_not_exist _ = false

-- A path that is not remembered as it is written, by what it resolves to.
abbrev pub resolved_recorded :
    Files → List Bytes → Result PathError Bytes → Result Unsafe (Unit {0})
resolved_recorded f dests (ok p) =
    refuse (is_under_protected_prefix f.cwd p) resolves_to_protected
    >> refuse (not (member p dests)) not_recorded
resolved_recorded f dests (err e) = err (if is_not_exist e then not_recorded else unresolved e)

abbrev pub wipe_checks : Files → List Bytes → Bytes → Result Unsafe (Unit {0})
wipe_checks f dests trim =
    refuse (is_under_protected_prefix f.cwd (clean trim)) under_protected
    >> (if member (clean trim) dests
        then ok tt
        else resolved_recorded f dests (resolve_and_validate_path f trim))

-- `canWipe`, with `recordedDests`.
unfoldable pub can_wipe : Files → List Bytes → Bytes → Result Unsafe (Unit {0})
can_wipe f dests path =
    let trim = trim_space path in
    lexical_checks trim
    >> (if is_managed_root (clean trim) then ok tt else wipe_checks f dests trim)

abbrev pub with_resolved : Result PathError Bytes → List Bytes → List Bytes
with_resolved (ok p) dests = p ∷ dests
with_resolved (err e) dests = dests

-- `RecordDest`.
unfoldable pub record_dest : Files → List Bytes → Bytes → List Bytes
record_dest f dests path =
    let trim = trim_space path in
    if is_abs trim
    then with_resolved (resolve_and_validate_path f trim) (clean trim ∷ dests)
    else dests

abbrev pub removed : Bytes → List Bytes → List Bytes
removed p [] = []
removed p (q ∷ qs) = if equal p q then removed p qs else q ∷ removed p qs

abbrev pub without_resolved : Result PathError Bytes → List Bytes → List Bytes
without_resolved (ok p) dests = removed p dests
without_resolved (err e) dests = dests

-- `forgetDest`, which resolves the path as it was given.
unfoldable pub forget_dest : Files → List Bytes → Bytes → List Bytes
forget_dest f dests path =
    without_resolved (resolve_and_validate_path f path) (removed (clean (trim_space path)) dests)

pub data WipeError : Type 0 where
  refused : Unsafe → WipeError
  remove_failed : WipeError

-- What `os.RemoveAll` ends with.
pub data Removal : Type 0 where
  removed_all was_absent failed_removal : Removal

abbrev pub wiped :
    Files
    → List Bytes
    → Bytes
    → Result Unsafe (Unit {0})
    → Removal
    → List Bytes × Result WipeError (Unit {0})
wiped f dests dest (err e) _ = (dests, err (refused e))
wiped f dests dest (ok _) removed_all = (forget_dest f dests dest, ok tt)
wiped f dests dest (ok _) was_absent = (dests, ok tt)
wiped f dests dest (ok _) failed_removal = (dests, err remove_failed)

-- `wipeDest`.
unfoldable pub wipe_dest :
    Files → List Bytes → Bytes → Removal → List Bytes × Result WipeError (Unit {0})
wipe_dest f dests dest r = wiped f dests dest (can_wipe f dests dest) r
