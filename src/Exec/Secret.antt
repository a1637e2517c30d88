-- ===== src/Exec/Secret.antt =====
-- secret.go and argv.go: credentials that cannot split a line, and operands that cannot be options.
use power_manage_sdk.Prelude.{
  ◌≡◌, ◌↔◌, refl, arith, ℕ, Bool, false, ◌||◌, List, [], ◌∷◌, ◌++◌, Bytes, codes, any, equal, ◌==◌,
  if◌then◌else◌, Result, ok, err,
}

pub record Secret : Type 0 where
  pub v : Bytes

pub data SecretError : Type 0 where
  secret_contains_newline : SecretError

abbrev is_line_end : ℕ → Bool
is_line_end c = c == 10 || c == 13

unfoldable pub has_newline : Secret → Bool
has_newline s = any is_line_end s.v

unfoldable pub new_secret : Bytes → Result SecretError Secret
new_secret v = if any is_line_end v then err secret_contains_newline else ok (record { v = v })

abbrev pub new_multiline_secret : Bytes → Secret
new_multiline_secret v = record { v = v }

abbrev pub redacted : Secret → Bytes
redacted s = codes "[REDACTED]"

abbrev pub reveal : Secret → Bytes
reveal s = s.v

abbrev pub end_of_options : Bytes
end_of_options = codes "--"

unfoldable pub separate_positionals : List Bytes → List Bytes → List Bytes
separate_positionals flags positionals = flags ++ (end_of_options ∷ positionals)

-- What a getopt parser takes for operands without looking at it: what follows the first "--".
abbrev pub operands : List Bytes → List Bytes
operands [] = []
operands (a ∷ as_) = if equal end_of_options a then as_ else operands as_

-- Whatever the positional values look like, the program that is run takes exactly them for its
-- operands, when no flag of the caller ends the options before them.
pub operands-separate_positionals :
    (flags positionals : List Bytes)
    → any (equal end_of_options) flags ≡ false
    → operands (separate_positionals flags positionals) ≡ positionals
unfolding separate_positionals
operands-separate_positionals [] positionals h = unfold equal in refl
operands-separate_positionals (f ∷ flags) positionals h =
    ground (arith, operands-separate_positionals flags positionals)

-- A secret is taken exactly when it can be one line of a tool's input, and is revealed as it is.
pub new_secret_ok :
    (v : Bytes) (s : Secret) → (new_secret v ≡ ok s) ↔ ((reveal s ≡ v) × (has_newline s ≡ false))
unfolding new_secret has_newline
new_secret_ok v s = ground arith
