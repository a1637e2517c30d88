-- ===== src/Paths/Tests.antt =====
-- Paths on concrete file systems, and the theorems at them.
use power_manage_sdk.Paths.Clean.{clean, join, absolute}
use power_manage_sdk.Paths.Destination.History.{
  records, remembered, IsReached, can_wipe-IsReached, can_wipe-record_dest,
}
use power_manage_sdk.Paths.Destination.Laws.{IsLocated, IsOutside, validate_destination_ok}
use power_manage_sdk.Paths.Destination.{
  is_managed_root, resolves_to_protected, validate_destination, can_wipe, record_dest,
}
use power_manage_sdk.Paths.Protected.Laws.{
  is_prefix, protected_trees, is_under_protected_prefix-segments,
}
use power_manage_sdk.Paths.Protected.{protected_exact_paths, is_under_protected_prefix}
use power_manage_sdk.Paths.Resolve.{
  resolve_symlinks_not_exist, Files, exists, not_exist, resolve_and_validate_path,
}
use power_manage_sdk.Prelude.{
  trim_space, ◌≡◌, ◌↔◌, ◌⊎◌, refl, true, false, ◌||◌, none, some, [], ◌∷◌, Bytes, codes, equal,
  member, has_prefix, any, if◌then◌else◌, ok, err,
}

clean_traversal : clean (codes "/etc/../var//lib/./x/..") ≡ codes "/var/lib"
unfolding clean equal
clean_traversal = refl

clean_relative : clean (codes "a/../../b") ≡ codes "../b"
unfolding clean equal
clean_relative = refl

is_under_protected_prefix-segments_example :
    is_under_protected_prefix none (codes "/srv/../home/alice/.ssh") ≡ (
      member (absolute (codes "home" ∷ codes "alice" ∷ codes ".ssh" ∷ [])) protected_exact_paths
      || any (λ t. is_prefix t (codes "home" ∷ codes "alice" ∷ codes ".ssh" ∷ [])) protected_trees)
unfolding equal
is_under_protected_prefix-segments_example =
    is_under_protected_prefix-segments none (codes "/srv/../home/alice/.ssh") refl

-- Only /srv exists, and is no link.
abbrev plain : Files
plain = record {
  stat = λ p. if equal p (codes "/srv") then exists else not_exist;
  eval_symlinks = λ p. ok p;
  is_symlink = λ p. false;
  cwd = some (codes "/root");
}

-- /srv has become a link to /etc.
abbrev tampered : Files
tampered = record plain { eval_symlinks = λ p. ok (codes "/etc") }

abbrev dest : Bytes
dest = codes "/srv/app/data"

validate_destination_ok_example : (validate_destination plain dest ≡ ok tt) ↔ (
    IsLocated (trim_space dest)
    × ((is_managed_root (clean (trim_space dest)) ≡ true) ⊎ IsOutside plain (trim_space dest)))
validate_destination_ok_example = validate_destination_ok plain dest

resolved_below_missing : resolve_and_validate_path tampered dest ≡ ok (codes "/etc/app/data")
unfolding resolve_and_validate_path clean join equal
resolved_below_missing = refl

accepted : validate_destination plain dest ≡ ok tt
unfolding validate_destination resolve_and_validate_path is_under_protected_prefix is_managed_root
    clean join trim_space equal member has_prefix
accepted = refl

refused_link : validate_destination tampered dest ≡ err resolves_to_protected
unfolding validate_destination resolve_and_validate_path is_under_protected_prefix is_managed_root
    clean join trim_space equal member has_prefix
refused_link = refl

-- A link at the destination itself that leads to no file is taken.
abbrev dangling : Files
dangling = record plain {
  eval_symlinks = λ p. if equal p dest then err resolve_symlinks_not_exist else ok p;
  is_symlink = λ p. equal p dest;
}

dangling_accepted : validate_destination dangling dest ≡ ok tt
unfolding validate_destination resolve_and_validate_path is_under_protected_prefix is_managed_root
    clean join trim_space equal member has_prefix
dangling_accepted = refl

wiped_after_fetch : can_wipe plain (remembered [] (records plain dest ∷ [])) dest ≡ ok tt
unfolding can_wipe record_dest resolve_and_validate_path is_under_protected_prefix is_managed_root
    clean join trim_space equal member has_prefix
wiped_after_fetch = refl

can_wipe-IsReached_example :
    IsLocated (trim_space dest)
    × ((is_managed_root (clean (trim_space dest)) ≡ true)
        ⊎ IsReached plain (records plain dest ∷ []) (trim_space dest))
can_wipe-IsReached_example =
    can_wipe-IsReached plain (records plain dest ∷ []) dest wiped_after_fetch

located : IsLocated (trim_space dest)
unfolding clean trim_space equal
located = (refl, refl)

written_outside : is_under_protected_prefix (some (codes "/root")) (clean (trim_space dest)) ≡ false
unfolding is_under_protected_prefix clean join trim_space equal member has_prefix
written_outside = refl

-- The destination was recorded before the link changed.
can_wipe-record_dest_example : can_wipe tampered (record_dest plain [] dest) dest ≡ ok tt
can_wipe-record_dest_example = can_wipe-record_dest plain tampered [] dest located written_outside
