-- ===== src/Paths/Destination/Laws.antt =====
-- What an accepted destination is, and what a wipe may reach after a history of fetches.
use power_manage_sdk.Paths.Clean.{slash, is_abs, clean}
use power_manage_sdk.Paths.Destination.{
  is_managed_root, under_protected, resolves_to_protected, symlink_to_protected, lexical_checks,
  resolved_checks, protected_target, leaf_checks, unmanaged_checks, validate_destination,
}
use power_manage_sdk.Paths.Protected.{is_under_protected_prefix}
use power_manage_sdk.Paths.Resolve.{PathError, Files, resolve_and_validate_path}
use power_manage_sdk.Prelude.{
  trim_space, ◌≡◌, ◌↔◌, ◌⊎◌, inl, inr, refl, arith, Bool, true, false, ◌&&◌, [], ◌∷◌, Bytes, equal,
  if◌then◌else◌, Result, ok, err, ◌>>◌, refuse, >>-eq-ok, refuse-eq-ok, Bool-cases,
}

-- A path that names something, below the root.
abbrev pub IsLocated : Bytes → Type 0
IsLocated trim = (is_abs trim ≡ true) × (equal (clean trim) (slash ∷ []) ≡ false)

pub lexical_checks-IsLocated : (trim : Bytes) → (lexical_checks trim ≡ ok tt) ↔ IsLocated trim
lexical_checks-IsLocated [] = ground arith
lexical_checks-IsLocated (c ∷ trim) = ground arith

-- What stands at the path itself is no symlink, or one that cannot be followed to its end, or one
-- that leads outside the protected trees.
abbrev pub IsLeafOutside : Files → Bool → Result PathError Bytes → Type 0
IsLeafOutside f link target =
    (link ≡ false)
    ⊎ ((e : PathError) × (target ≡ err e))
    ⊎ ((real : Bytes) × (target ≡ ok real) × (is_under_protected_prefix f.cwd real ≡ false))

leaf_sound :
    (f : Files) (link : Bool) (target : Result PathError Bytes)
    → (link && protected_target f target) ≡ false
    → IsLeafOutside f link target
leaf_sound f false target h = inl refl
leaf_sound f true (err e) h = inr (inl (e, refl))
leaf_sound f true (ok p) h = inr (inr (p, refl, h))

leaf_complete :
    (f : Files) (link : Bool) (target : Result PathError Bytes)
    → IsLeafOutside f link target
    → (link && protected_target f target) ≡ false
leaf_complete f link target (inl none_there) = rw none_there refl
leaf_complete f false target place = refl
leaf_complete f true target (inr (inl (e, unread))) = rw unread refl
leaf_complete f true target (inr (inr (real, reads, out))) = rw reads out

-- Outside the protected trees as it is written, and after its symlinks are followed, above the
-- last segment and at it.
abbrev pub IsOutside : Files → Bytes → Type 0
IsOutside f trim =
    (is_under_protected_prefix f.cwd (clean trim) ≡ false)
    × ((real : Bytes) × (resolve_and_validate_path f trim ≡ ok real)
        × (is_under_protected_prefix f.cwd real ≡ false))
    × IsLeafOutside f (f.is_symlink trim) (f.eval_symlinks trim)

resolved_checks-eq-ok :
    (f : Files) (r : Result PathError Bytes)
    → resolved_checks f r ≡ ok tt
    → (real : Bytes) × (r ≡ ok real) × (is_under_protected_prefix f.cwd real ≡ false)
resolved_checks-eq-ok f (err e) h = cc
resolved_checks-eq-ok f (ok p) h =
    (p, refl, refuse-eq-ok (is_under_protected_prefix f.cwd p) resolves_to_protected h)

unmanaged_sound : (f : Files) (trim : Bytes) → unmanaged_checks f trim ≡ ok tt → IsOutside f trim
unmanaged_sound f trim h =
    let (lexical, more) =
      >>-eq-ok (refuse (is_under_protected_prefix f.cwd (clean trim)) under_protected)
        (resolved_checks f (resolve_and_validate_path f trim) >> leaf_checks f trim) h in
    let (links, leaf) =
      >>-eq-ok (resolved_checks f (resolve_and_validate_path f trim)) (leaf_checks f trim) more in
    (
      refuse-eq-ok (is_under_protected_prefix f.cwd (clean trim)) under_protected lexical,
      resolved_checks-eq-ok f (resolve_and_validate_path f trim) links,
      leaf_sound f (f.is_symlink trim) (f.eval_symlinks trim) (
          refuse-eq-ok (f.is_symlink trim && protected_target f (f.eval_symlinks trim))
            symlink_to_protected leaf),
    )

unmanaged_complete : (f : Files) (trim : Bytes) → IsOutside f trim → unmanaged_checks f trim ≡ ok tt
unmanaged_complete f trim (lexical, (real, resolves, out), leaf) =
    ground (arith, leaf_complete f (f.is_symlink trim) (f.eval_symlinks trim) leaf)

outside :
    (f : Files) (trim : Bytes)
    → is_managed_root (clean trim) ≡ false
    → (is_managed_root (clean trim) ≡ true) ⊎ IsOutside f trim
    → IsOutside f trim
outside f trim unmanaged (inl managed) = cc
outside f trim unmanaged (inr o) = o

-- A fetch takes a destination exactly when, trimmed, it is an absolute path other than `/` that is
-- at or below a managed root as it is written, or lies outside the protected trees both as it is
-- written and after following the symlinks above it, and is not itself a symlink that can be
-- followed into one: a symlink that leads to no file is taken, wherever it points.
pub validate_destination_ok :
    (f : Files) (path : Bytes)
    → (validate_destination f path ≡ ok tt) ↔ (
        IsLocated (trim_space path)
        × ((is_managed_root (clean (trim_space path)) ≡ true) ⊎ IsOutside f (trim_space path)))
unfolding validate_destination
validate_destination_ok f path =
    let trim = trim_space path in
    elim (Bool-cases (is_managed_root (clean trim))) [
      | inl managed ↦ (
        λ h. (
          (lexical_checks-IsLocated trim).0
              (>>-eq-ok (lexical_checks trim)
                (if is_managed_root (clean trim) then ok tt else unmanaged_checks f trim) h).0,
          inl managed,
        ),
        λ (located, _). rw ((lexical_checks-IsLocated trim).1 located) (rw managed refl),
      )
      | inr unmanaged ↦ (
        λ h.
            let (first, rest) =
              >>-eq-ok (lexical_checks trim)
                (if is_managed_root (clean trim) then ok tt else unmanaged_checks f trim) h in
            (
              (lexical_checks-IsLocated trim).0 first,
              inr (unmanaged_sound f trim (rw unmanaged at rest)),
            ),
        λ (located, place).
            rw ((lexical_checks-IsLocated trim).1 located)
              (rw unmanaged (unmanaged_complete f trim (outside f trim unmanaged place))),
      )
    ]
