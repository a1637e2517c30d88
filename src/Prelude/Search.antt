-- ===== src/Prelude/Search.antt =====
-- `strings.Index`, and texts in which a pattern does not start.
use Prim.Native.Nat.{ℕ}
use mathlib.Core.Path.{◌≡◌, refl}
use mathlib.Core.Bool.{Bool, true, false, not, ◌&&◌}
use mathlib.Core.Option.{Option, none, some}
use mathlib.Core.List.{[], ◌∷◌, ◌++◌}
use native.Mathlib.Omega.{arith}
use power_manage_sdk.Prelude.Tests.{◌==◌}
use power_manage_sdk.Prelude.Lists.{any}
use power_manage_sdk.Prelude.Text.{Bytes, cut_prefix, cut_prefix-append, has_prefix}

abbrev first_of : Option Bytes → Option Bytes → Option Bytes
first_of none later = later
first_of (some rest) _ = some rest

-- What stands behind the first occurrence of a pattern, `s[strings.Index(s, p)+len(p):]`.
abbrev pub after_first : Bytes → Bytes → Option Bytes
after_first p [] = cut_prefix p []
after_first p (c ∷ s) = let later = after_first p s in first_of (cut_prefix p (c ∷ s)) later

-- No occurrence of the pattern starts in the first text, when the second follows.
abbrev pub clear : Bytes → Bytes → Bytes → Bool
clear p [] t = true
clear p (c ∷ s) t = not (has_prefix p (c ∷ (s ++ t))) && clear p s t

cut_prefix-none : (p s : Bytes) → has_prefix p s ≡ false → cut_prefix p s ≡ none
unfolding has_prefix
cut_prefix-none [] s h = cc
cut_prefix-none (c ∷ p) [] h = refl
cut_prefix-none (c ∷ p) (d ∷ s) h = ground (arith, cut_prefix-none p s)

pub after_first_skip :
    (p s t : Bytes) → clear p s t ≡ true → after_first p (s ++ t) ≡ after_first p t
after_first_skip p [] t h = refl
after_first_skip p (c ∷ s) t h =
    ground (arith, cut_prefix-none p (c ∷ (s ++ t)), after_first_skip p s t)

pub after_first_here : (p t : Bytes) → after_first p (p ++ t) ≡ some t
after_first_here [] [] = refl
after_first_here [] (c ∷ t) = refl
after_first_here (c ∷ p) t = rw (cut_prefix-append (c ∷ p) t) refl

-- A pattern with a separator in it does not reach over a token without one, if what ends the token
-- does not stand in front of the separator.
has_prefix_token :
    (sep : ℕ) (w v s : Bytes) (d : ℕ) (t : Bytes)
    → any (λ c. c == d) w ≡ false
    → any (λ c. c == sep) s ≡ false
    → (d == sep) ≡ false
    → has_prefix (w ++ (sep ∷ v)) (s ++ (d ∷ t)) ≡ false
unfolding has_prefix
has_prefix_token sep [] v [] d t a b e = ground arith
has_prefix_token sep [] v (c ∷ s) d t a b e = ground arith
has_prefix_token sep (x ∷ w) v [] d t a b e = ground arith
has_prefix_token sep (x ∷ w) v (c ∷ s) d t a b e = ground (arith, has_prefix_token sep w v s d t)

pub clear_token :
    (sep : ℕ) (w v s : Bytes) (d : ℕ) (t : Bytes)
    → any (λ c. c == d) w ≡ false
    → any (λ c. c == sep) s ≡ false
    → (d == sep) ≡ false
    → clear (w ++ (sep ∷ v)) s (d ∷ t) ≡ true
clear_token sep w v [] d t a b e = refl
clear_token sep w v (c ∷ s) d t a b e =
    ground (arith, has_prefix_token sep w v (c ∷ s) d t, clear_token sep w v s d t)

-- Where the token ends with the separator itself, the pattern must go on otherwise.
has_prefix_ended :
    (sep : ℕ) (w v s t : Bytes)
    → any (λ c. c == sep) w ≡ false
    → any (λ c. c == sep) s ≡ false
    → has_prefix v t ≡ false
    → has_prefix (w ++ (sep ∷ v)) (s ++ (sep ∷ t)) ≡ false
unfolding has_prefix
has_prefix_ended sep [] v [] t a b e = ground arith
has_prefix_ended sep [] v (c ∷ s) t a b e = ground arith
has_prefix_ended sep (x ∷ w) v [] t a b e = ground arith
has_prefix_ended sep (x ∷ w) v (c ∷ s) t a b e = ground (arith, has_prefix_ended sep w v s t)

pub clear_ended :
    (sep : ℕ) (w v s t : Bytes)
    → any (λ c. c == sep) w ≡ false
    → any (λ c. c == sep) s ≡ false
    → has_prefix v t ≡ false
    → clear (w ++ (sep ∷ v)) s (sep ∷ t) ≡ true
clear_ended sep w v [] t a b e = refl
clear_ended sep w v (c ∷ s) t a b e =
    ground (arith, has_prefix_ended sep w v (c ∷ s) t, clear_ended sep w v s t)
