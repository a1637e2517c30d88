-- ===== src/Paths/Clean.antt =====
-- filepath.Clean, IsAbs and Join on Unix.
use power_manage_sdk.Prelude.{
  ℕ, Bool, true, false, ◌||◌, List, [], ◌∷◌, ◌++◌, Bytes, codes, ◌==◌, if◌then◌else◌, equal,
  is_empty, split_on, reversed,
}

abbrev pub slash : ℕ
slash = b'/'

-- What stands between the slashes, empty or not; never no segment at all.
abbrev pub split : Bytes → List Bytes
split p = split_on slash p

abbrev pub dot : Bytes
dot = codes "."

abbrev pub dots : Bytes
dots = codes ".."

-- One more segment on the stack of those kept, the last first.
abbrev pub climb : Bool → List Bytes → List Bytes
climb true [] = []
climb false [] = dots ∷ []
climb rooted (s ∷ ss) = if equal s dots then dots ∷ (s ∷ ss) else ss

abbrev pub walked : Bool → List Bytes → Bytes → List Bytes
walked rooted stack s =
    if is_empty s || equal s dot
    then stack
    else if equal s dots
    then climb rooted stack
    else s ∷ stack

abbrev pub walk : Bool → List Bytes → List Bytes → List Bytes
walk rooted stack [] = stack
walk rooted stack (s ∷ ss) = walk rooted (walked rooted stack s) ss

abbrev pub joined : List Bytes → Bytes
joined [] = []
joined (s ∷ []) = s
joined (s ∷ (t ∷ ss)) = s ++ (slash ∷ joined (t ∷ ss))

-- `filepath.IsAbs`.
abbrev pub is_abs : Bytes → Bool
is_abs [] = false
is_abs (c ∷ p) = c == slash

-- The segments of the cleaned path, the last first.
abbrev pub kept_back : Bytes → List Bytes
kept_back p = walk (is_abs p) [] (split p)

abbrev pub absolute : List Bytes → Bytes
absolute ss = slash ∷ joined ss

abbrev relative : List Bytes → Bytes
relative [] = dot
relative (s ∷ ss) = joined (s ∷ ss)

-- `filepath.Clean`.
unfoldable pub clean : Bytes → Bytes
clean p = let ss = reversed (kept_back p) [] in if is_abs p then absolute ss else relative ss

-- `filepath.Join` of a path and further segments.
unfoldable pub join : Bytes → List Bytes → Bytes
unfolding clean
join [] ss = clean (joined ss)
join (c ∷ p) ss = clean ((c ∷ p) ++ (slash ∷ joined ss))
