-- ===== src/Prelude/Lists.antt =====
-- Slices as lists: measured, indexed and cut by native numbers, under the library's names.
use Prim.Native.Nat.{ℕ, zero, suc, ◌+◌, ◌-◌, ◌≤◌, ◌<◌}
use mathlib.Core.Path.{◌≡◌, refl, sym, ap, ◌∙◌}
use mathlib.Core.Bool.{Bool, true, false, ◌&&◌, ◌||◌}
use mathlib.Core.List.{List, [], ◌∷◌, ◌++◌, append_assoc}
use native.Mathlib.Omega.{arith}

module _ {ℓ} {A : Type ℓ} where
  abbrev pub length : List A → ℕ
  length [] = 0
  length (x ∷ xs) = suc (length xs)

  abbrev pub get_or : List A → ℕ → A → A
  get_or [] i d = d
  get_or (x ∷ xs) zero d = x
  get_or (x ∷ xs) (suc i) d = get_or xs i d

  abbrev pub take : ℕ → List A → List A
  take zero xs = []
  take (suc n) [] = []
  take (suc n) (x ∷ xs) = x ∷ take n xs

  abbrev pub drop : ℕ → List A → List A
  drop zero xs = xs
  drop (suc n) [] = []
  drop (suc n) (x ∷ xs) = drop n xs

  pub length-append : (xs ys : List A) → length (xs ++ ys) ≡ length xs + length ys
  length-append [] ys = omega arith
  length-append (x ∷ xs) ys = omega (arith, length-append xs ys)

  pub take-append-drop : (n : ℕ) (xs : List A) → take n xs ++ drop n xs ≡ xs
  take-append-drop zero xs = refl
  take-append-drop (suc n) [] = refl
  take-append-drop (suc n) (x ∷ xs) = ap (◌∷◌ x) (take-append-drop n xs)

  pub split_at :
      (i : ℕ) (xs : List A) (d : A)
      → i < length xs
      → xs ≡ take i xs ++ (get_or xs i d ∷ drop (suc i) xs)
  split_at i [] d h = elim h [ ]
  split_at zero (x ∷ xs) d h = refl
  split_at (suc i) (x ∷ xs) d h = ap (◌∷◌ x) (split_at i xs d (omega arith))

  pub take-append : (xs ys : List A) → take (length xs) (xs ++ ys) ≡ xs
  take-append [] ys = refl
  take-append (x ∷ xs) ys = ap (◌∷◌ x) (take-append xs ys)

  pub drop-append : (xs ys : List A) → drop (length xs) (xs ++ ys) ≡ ys
  drop-append [] ys = refl
  drop-append (x ∷ xs) ys = drop-append xs ys

  -- Two texts of the same length in front of two others are told apart.
  pub append_injective :
      (xs ys us vs : List A) → length xs ≡ length ys → xs ++ us ≡ ys ++ vs → (xs ≡ ys) × (us ≡ vs)
  append_injective [] [] us vs same h = (refl, h)
  append_injective [] (y ∷ ys) us vs same h = ground arith
  append_injective (x ∷ xs) [] us vs same h = ground arith
  append_injective (x ∷ xs) (y ∷ ys) us vs same h =
      let (rest, more) = append_injective xs ys us vs (omega arith) cc in (cc, more)

  pub length-take-le : (n : ℕ) (xs : List A) → length (take n xs) ≤ n
  length-take-le zero xs = omega arith
  length-take-le (suc n) [] = omega arith
  length-take-le (suc n) (x ∷ xs) = omega (arith, length-take-le n xs)

  pub take_nil : (n : ℕ) → take n [] ≡ []
  take_nil zero = refl
  take_nil (suc n) = refl

  pub take_append_le : (n : ℕ) (xs ys : List A) → n ≤ length xs → take n (xs ++ ys) ≡ take n xs
  take_append_le zero xs ys h = refl
  take_append_le (suc n) [] ys h = elim h [ ]
  take_append_le (suc n) (x ∷ xs) ys h = ap (◌∷◌ x) (take_append_le n xs ys (omega arith))

  pub take_append_ge :
      (n : ℕ) (xs ys : List A) → length xs ≤ n → take n (xs ++ ys) ≡ xs ++ take (n - length xs) ys
  take_append_ge n [] ys h = ground arith
  take_append_ge zero (x ∷ xs) ys h = elim h [ ]
  take_append_ge (suc n) (x ∷ xs) ys h = ground (arith, take_append_ge n xs ys (omega arith))

  pub take_all : (n : ℕ) (xs : List A) → length xs ≤ n → take n xs ≡ xs
  take_all zero [] h = refl
  take_all zero (x ∷ xs) h = elim h [ ]
  take_all (suc n) [] h = refl
  take_all (suc n) (x ∷ xs) h = ap (◌∷◌ x) (take_all n xs (omega arith))

  -- The first list backwards, before the second.
  abbrev pub reversed : List A → List A → List A
  reversed [] acc = acc
  reversed (x ∷ xs) acc = reversed xs (x ∷ acc)

  abbrev pub concat : List (List A) → List A
  concat [] = []
  concat (xs ∷ xss) = xs ++ concat xss

  pub reversed_acc : (xs acc : List A) → reversed xs acc ≡ reversed xs [] ++ acc
  reversed_acc [] acc = refl
  reversed_acc (x ∷ xs) acc =
      reversed_acc xs (x ∷ acc)
      ∙ sym (append_assoc (reversed xs []) (x ∷ []) acc)
      ∙ ap (λ (t : List A). t ++ acc) (sym (reversed_acc xs (x ∷ [])))

  pub reversed-append :
      (xs ys acc : List A) → reversed (xs ++ ys) acc ≡ reversed ys (reversed xs acc)
  reversed-append [] ys acc = refl
  reversed-append (x ∷ xs) ys acc = reversed-append xs ys (x ∷ acc)

-- `for _, x := range xs { if p(x) { return true } }; return false`, and its dual.
module _ {ℓ} {A : Type ℓ} where
  abbrev pub any : (A → Bool) → List A → Bool
  any p [] = false
  any p (x ∷ xs) = p x || any p xs

  abbrev pub all : (A → Bool) → List A → Bool
  all p [] = true
  all p (x ∷ xs) = p x && all p xs

  -- Every element satisfies `Q`.
  abbrev pub All {κ} : (Q : A → Type κ) → List A → Type κ
  All Q [] = Unit
  All Q (head ∷ tail) = Q head × All Q tail

  pub any-append : (p : A → Bool) (xs ys : List A) → any p (xs ++ ys) ≡ (any p xs || any p ys)
  any-append p [] ys = refl
  any-append p (x ∷ xs) ys = ground (arith, any-append p xs ys)

  pub all-append : (p : A → Bool) (xs ys : List A) → all p (xs ++ ys) ≡ (all p xs && all p ys)
  all-append p [] ys = refl
  all-append p (x ∷ xs) ys = ground (arith, all-append p xs ys)

  pub All-append {κ} :
      (Q : A → Type κ) (first second : List A)
      → All Q first
      → All Q second
      → All Q (first ++ second)
  All-append Q [] second _ rest = rest
  All-append Q (head ∷ tail) second (holds, more) rest = (holds, All-append Q tail second more rest)

  pub all_mono :
      (p q : A → Bool) (xs : List A)
      → ((x : A) → p x ≡ true → q x ≡ true)
      → all p xs ≡ true
      → all q xs ≡ true
  all_mono p q [] within h = refl
  all_mono p q (x ∷ xs) within h = ground (arith, within x, all_mono p q xs within)

  pub all_both :
      (p : A → Bool) (xs ys : List A) → all p xs ≡ true → all p ys ≡ true → all p (xs ++ ys) ≡ true
  all_both p xs ys h g = ground (arith, all-append p xs ys)
