-- ===== src/Service/UnitContent/Reading.antt =====
-- The policy against the lines that systemd makes of a unit file, as systemd.syntax(7) has it: a
-- comment is no line, wherever it stands, and ends no continued line; and as systemd tells a line
-- that goes on, by a backslash at its very end that no backslash escapes.
use power_manage_sdk.Service.UnitContent.{
  blanks, folded, is_continued, unfinished, continued, join_from, join_continuation_lines,
  is_comment, check_line, check_lines, validate_unit_content, trailing_backslashes,
}
use power_manage_sdk.Prelude.{
  ◌≡◌, refl, arith, Bool, true, false, not, ◌&&◌, ◌||◌, Option, none, some, List, [], ◌∷◌, ◌++◌,
  Bytes, codes, has_prefix, any, ◌==◌, if◌then◌else◌, trim_space, trim_space_starts, split_on,
  reversed, split_on_whole, ok, Bool-cases, inl, inr,
}

abbrev pub is_comment_line : Bytes → Bool
is_comment_line l = is_comment (trim_space l)

-- Whether a text ends in the midst of an escape, that at its start included.
abbrev pub ends_escaped : Bool → Bytes → Bool
ends_escaped escaped [] = escaped
ends_escaped escaped (c ∷ s) = ends_escaped (not escaped && c == 92) s

-- A space in place of the last byte.
abbrev pub with_space : Bytes → Bytes
with_space [] = []
with_space (c ∷ []) = 32 ∷ []
with_space (c ∷ (d ∷ s)) = c ∷ with_space (d ∷ s)

abbrev pub read_from : Option Bytes → List Bytes → List Bytes
read_from pending [] = unfinished pending
read_from pending (l ∷ ls) =
    let skipped = read_from pending ls in
    let more = read_from (some (continued pending (with_space l))) ls in
    let rest = continued pending l ∷ read_from none ls in
    if is_comment_line l then skipped else if ends_escaped false l then more else rest

-- The lines that systemd reads.
unfoldable pub read_lines : Bytes → List Bytes
read_lines content = read_from none (split_on 10 content)

-- No comment continues or stands within a continued line.
abbrev pub comments_apart : Bool → List Bytes → Bool
comments_apart continuing [] = true
comments_apart continuing (l ∷ ls) =
    not (is_comment_line l && (continuing || is_continued l)) && comments_apart (is_continued l) ls

abbrev starts_blank : Bytes → Bool
starts_blank [] = false
starts_blank (c ∷ s) = any (λ d. d == c) blanks

-- A line that the code takes to go on, but for blanks after its backslash.
abbrev pub is_stray : Bytes → Bool
is_stray l = is_continued l && starts_blank (reversed l [])

abbrev is_pending : Option Bytes → Bool
is_pending none = false
is_pending (some _) = true

check_comment : (l : Bytes) → is_comment_line l ≡ true → check_line l ≡ ok tt
unfolding check_line
check_comment l h = ground arith

hash_comment : (s : Bytes) → is_comment_line (b'#' ∷ s) ≡ true
unfolding has_prefix
hash_comment s = let (t, e) = trim_space_starts b'#' s refl in rw e refl

check_hidden : (l : Bytes) → check_lines (join_from (some (codes "# ")) (l ∷ [])) ≡ ok tt
check_hidden l = elim (Bool-cases (is_continued l)) [
  | inl more ↦
      rw more
        (rw (check_comment (codes "# " ++ folded l) (hash_comment (codes " " ++ folded l))) refl)
  | inr last ↦ rw last (rw (check_comment (codes "# " ++ l) (hash_comment (codes " " ++ l))) refl)
]

-- A line behind a comment that ends in a backslash escapes the policy, whatever it says, while
-- systemd reads it.
pub validate_unit_content_hidden :
    (l : Bytes)
    → any (λ c. c == 10) l ≡ false
    → (validate_unit_content (codes "#\\\n" ++ l) ≡ ok tt)
      × (read_lines (codes "#\\\n" ++ l) ≡ read_lines l)
unfolding validate_unit_content join_continuation_lines read_lines trailing_backslashes
validate_unit_content_hidden l h =
    (rw (split_on_whole 10 l h) (check_hidden l), rw (hash_comment (codes "\\")) refl)
