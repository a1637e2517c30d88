-- ===== src/Firewall/Ufw/Status.antt =====
-- sys/firewall/ufw.go: the lines of `ufw status numbered`, and what List reads in them.
use power_manage_sdk.Firewall.{Rule, protocol_any, is_concrete}
use power_manage_sdk.Prelude.{
  ℕ, Bool, not, ◌||◌, Option, none, some, List, [], ◌∷◌, ◌++◌, map, Bytes, codes, equal, is_empty,
  contains, cut_at, cut_prefix, is_digit, ◌==◌, if◌then◌else◌, ℤ, pos, atoi, split_on, trim_space,
  trim_right_of,
}

-- `ufwCommentIdentity`.
abbrev pub ufw_comment_identity : Bytes → Bytes → Bytes
ufw_comment_identity ns id = ns ++ (b':' ∷ id)

-- A regular expression as the ways in which it matches a front of a text, in the order in which
-- they are tried: the way taken is the first.
abbrev Ways : Type 0 → Type 0
Ways A = List (A × Bytes)

abbrev each : {A B : Type 0} → Ways A → (A → Bytes → Ways B) → Ways B
each [] next = []
each ((a, rest) ∷ ways) next = next a rest ++ each ways next

abbrev longer : ℕ → Bytes × Bytes → Bytes × Bytes
longer c (taken, rest) = (c ∷ taken, rest)

-- `[class]*`.
unfoldable pub star : (ℕ → Bool) → Bytes → Ways Bytes
star class [] = ([], []) ∷ []
star class (c ∷ s) =
    let more = map (longer c) (star class s) ++ (([], c ∷ s) ∷ []) in
    if class c then more else ([], c ∷ s) ∷ []

-- `[class]+`.
unfoldable pub plus : (ℕ → Bool) → Bytes → Ways Bytes
plus class [] = []
plus class (c ∷ s) = if class c then map (longer c) (star class s) else []

-- `.*?`, and `.+?`.
unfoldable pub lazy_star : Bytes → Ways Bytes
lazy_star [] = ([], []) ∷ []
lazy_star (c ∷ s) = ([], c ∷ s) ∷ map (longer c) (lazy_star s)

unfoldable pub lazy_plus : Bytes → Ways Bytes
lazy_plus [] = []
lazy_plus (c ∷ s) = map (longer c) (lazy_star s)

abbrev way_of : Bytes → Option Bytes → Ways Bytes
way_of text none = []
way_of text (some rest) = (text, rest) ∷ []

abbrev literal : Bytes → Bytes → Ways Bytes
literal text s = way_of text (cut_prefix text s)

abbrev one_of : List Bytes → Bytes → Ways Bytes
one_of [] s = []
one_of (text ∷ texts) s = literal text s ++ one_of texts s

-- `\s`.
abbrev pub re_space : ℕ → Bool
re_space c = c == 9 || c == 10 || c == 12 || c == 13 || c == 32

abbrev not_space : ℕ → Bool
not_space c = not (re_space c)

abbrev verbs : List Bytes
verbs = codes "ALLOW" ∷ codes "DENY" ∷ codes "REJECT" ∷ codes "LIMIT" ∷ []

-- `(?:\s+(?:IN|OUT))?`.
abbrev direction : Bytes → Ways Bytes
direction s =
    each (plus re_space s) (λ _ rest. one_of (codes "IN" ∷ codes "OUT" ∷ []) rest) ++ (([], s) ∷ [])

-- The groups of `ufwStatusRuleRE`.
pub record StatusLine : Type 0 where
  pub number : Bytes
  pub to : Bytes
  pub action : Bytes
  pub from : Bytes
  pub comment : Bytes

abbrev at_end : StatusLine → Bytes → Ways StatusLine
at_end m [] = (m, []) ∷ []
at_end m (_ ∷ _) = []

-- The expression from the source column on.
abbrev from_ways : Bytes → Bytes → Bytes → Bytes → Ways StatusLine
from_ways number to action s = each (lazy_plus s) λ from s. each (star re_space s) λ _ s.
    each (literal (codes "#") s) λ _ s. each (star re_space s) λ _ s.
      each (lazy_plus s) λ comment s. each (star re_space s) λ _ s.
        at_end
          (record { number = number; to = to; action = action; from = from; comment = comment }) s

unfoldable pub status_ways : Bytes → Ways StatusLine
unfolding star plus lazy_plus
status_ways line = each (literal (codes "[") line) λ _ s. each (star re_space s) λ _ s.
    each (plus is_digit s) λ number s. each (literal (codes "]") s) λ _ s.
      each (plus re_space s) λ _ s. each (plus not_space s) λ to s. each (plus re_space s) λ _ s.
        each (one_of verbs s) λ action s.
          each (direction s) λ _ s. each (plus re_space s) λ _ s. from_ways number to action s

abbrev first_way : Ways StatusLine → Option StatusLine
first_way [] = none
first_way ((m, _) ∷ _) = some m

-- `ufwStatusRuleRE.FindStringSubmatch(strings.TrimRight(line, " \t"))`.
unfoldable pub status_line : Bytes → Option StatusLine
unfolding status_ways
status_line line = first_way (status_ways (trim_right_of (32 ∷ 9 ∷ []) line))

abbrev number_or : Option ℤ → Option ℤ → Option ℤ
number_or none later = later
number_or (some n) _ = some n

abbrev pub number_at : Bytes → Option StatusLine → Option ℤ → Option ℤ
number_at target none later = later
number_at target (some m) later =
    if equal m.comment target then number_or (atoi m.number) later else later

abbrev pub find_number : Bytes → List Bytes → Option ℤ
find_number target [] = none
find_number target (line ∷ lines) = number_at target (status_line line) (find_number target lines)

-- `ufwFindRuleNumber`.
unfoldable pub ufw_find_rule_number : Bytes → Bytes → Bytes → Option ℤ
unfolding status_line equal atoi
ufw_find_rule_number status ns id = find_number (ufw_comment_identity ns id) (split_on 10 status)

abbrev pub is_anywhere : Bytes → Bool
is_anywhere col = equal col (codes "Anywhere") || equal col (codes "Anywhere (v6)")

abbrev with_port : Option ℤ → Rule → Rule
with_port none rule = rule
with_port (some p) rule = record rule { port = p }

abbrev with_protocol : Bytes → Rule → Rule
with_protocol proto rule = if is_concrete proto then record rule { protocol = proto } else rule

abbrev with_port_or_dest : Option ℤ → Bytes → Rule → Rule
with_port_or_dest none col rule = record rule { dest = col }
with_port_or_dest (some p) col rule = record rule { port = p }

-- A slash in front is no separator.
abbrev pub by_slash : Option (Bytes × Bytes) → Bytes → Rule → Rule
by_slash (some (c ∷ port, proto)) col rule = with_protocol proto (with_port (atoi (c ∷ port)) rule)
by_slash _ col rule = with_port_or_dest (atoi col) col rule

-- `ufwParseToColumn`.
unfoldable pub ufw_parse_to_column : Bytes → Rule → Rule
unfolding trim_space equal atoi
ufw_parse_to_column column rule =
    let col = trim_space column in
    if is_anywhere col then rule else by_slash (cut_at b'/' col) col rule

abbrev with_source : Bytes → Rule → Rule
with_source from rule =
    if is_empty from || is_anywhere from then rule else record rule { source = from }

abbrev pub listed_rule : Bytes → StatusLine → Rule
listed_rule id m = with_source (trim_space m.from) (
    ufw_parse_to_column m.to (record {
      id = id;
      allow = equal m.action (codes "ALLOW");
      protocol = protocol_any;
      port = pos 0;
      source = [];
      dest = [];
    }))

abbrev add_listed : StatusLine → Option Bytes → List Rule → List Rule
add_listed m none rules = rules
add_listed m (some id) rules = listed_rule id m ∷ rules

abbrev add_line : Bytes → Option StatusLine → List Rule → List Rule
add_line prefix none rules = rules
add_line prefix (some m) rules = add_listed m (cut_prefix prefix m.comment) rules

abbrev pub rules_in : Bytes → List Bytes → List Rule
rules_in prefix [] = []
rules_in prefix (line ∷ lines) = add_line prefix (status_line line) (rules_in prefix lines)

-- `ufwParseStatus`.
unfoldable pub ufw_parse_status : Bytes → Bytes → List Rule
unfolding status_line ufw_parse_to_column contains
ufw_parse_status status ns =
    if contains (codes "Status: inactive") status
    then []
    else rules_in (ns ++ (b':' ∷ [])) (split_on 10 status)
