-- ===== src/Paths/Protected.antt =====
-- protected.go: the directories that must not be removed, and the trees that nothing may be
-- removed from.
pub mod Laws
use power_manage_sdk.Paths.Clean.{slash, is_abs, clean, join}
use power_manage_sdk.Prelude.{
  ◌≡◌, Bool, true, false, ◌||◌, Option, none, some, List, [], ◌∷◌, ◌++◌, Bytes, codes, equal,
  member, has_prefix, any, if◌then◌else◌,
}

abbrev pub dangerous_paths : List Bytes
dangerous_paths =
    codes "/"
    ∷ codes "/boot"
    ∷ codes "/dev"
    ∷ codes "/etc"
    ∷ codes "/proc"
    ∷ codes "/run"
    ∷ codes "/sys"
    ∷ codes "/usr"
    ∷ codes "/var"
    ∷ codes "/bin"
    ∷ codes "/sbin"
    ∷ codes "/lib"
    ∷ codes "/lib64"
    ∷ codes "/home"
    ∷ codes "/root"
    ∷ codes "/lib32"
    ∷ codes "/libx32"
    ∷ codes "/media"
    ∷ codes "/mnt"
    ∷ codes "/opt"
    ∷ codes "/srv"
    ∷ codes "/tmp"
    ∷ codes "/snap"
    ∷ []

abbrev pub protected_prefix_roots : List Bytes
protected_prefix_roots =
    codes "/etc"
    ∷ codes "/boot"
    ∷ codes "/usr"
    ∷ codes "/home"
    ∷ codes "/root"
    ∷ codes "/var/lib"
    ∷ codes "/bin"
    ∷ codes "/sbin"
    ∷ codes "/lib"
    ∷ codes "/lib64"
    ∷ codes "/lib32"
    ∷ codes "/libx32"
    ∷ codes "/proc"
    ∷ codes "/sys"
    ∷ codes "/dev"
    ∷ codes "/run"
    ∷ []

abbrev pub protected_exact_paths : List Bytes
protected_exact_paths = codes "/" ∷ codes "/var" ∷ []

-- `filepath.Abs` of a cleaned relative path, below the working directory where that can be told.
abbrev pub made_absolute : Option Bytes → Bytes → Option Bytes
made_absolute cwd p =
    if is_abs p then some p else elim cwd [ none ↦ none | some d ↦ some (join d (p ∷ [])) ]

-- `clean == root || strings.HasPrefix(clean, root+"/")`.
abbrev pub is_at_or_under : Bytes → Bytes → Bool
is_at_or_under p root = equal p root || has_prefix (root ++ (slash ∷ [])) p

abbrev pub in_protected : Bytes → Bool
in_protected p = member p protected_exact_paths || any (is_at_or_under p) protected_prefix_roots

abbrev unless_known : (Bytes → Bool) → Option Bytes → Bool
unless_known test none = true
unless_known test (some p) = test p

-- `IsProtectedPath`, given the working directory.
unfoldable pub is_protected_path : Option Bytes → Bytes → Bool
is_protected_path cwd p = unless_known (λ q. member q dangerous_paths) (made_absolute cwd (clean p))

-- `IsUnderProtectedPrefix`.
unfoldable pub is_under_protected_prefix : Option Bytes → Bytes → Bool
is_under_protected_prefix cwd p = unless_known in_protected (made_absolute cwd (clean p))
