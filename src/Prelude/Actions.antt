-- ===== src/Prelude/Actions.antt =====
-- Code that acts on the host: a function of the world, which returns the next world and a value or
-- an error.
use power_manage_sdk.Prelude.Errors.{Result, ok, err}

abbrev pub Action : Type 0 → Type 0 → Type 0 → Type 0
Action W E A = W → W × Result E A

module _ {W E : Type 0} where
  abbrev pub continue : {A B : Type 0} → W × Result E A → (A → Action W E B) → W × Result E B
  continue (w, ok a) next = next a w
  continue (w, err e) next = (w, err e)

  infixl 5 ◌>>=◌ ◌>>◌
  abbrev pub ◌>>=◌ : {A B : Type 0} → Action W E A → (A → Action W E B) → Action W E B
  (act >>= next) w = continue (act w) next

  abbrev pub ◌>>◌ : {B : Type 0} → Action W E (Unit {0}) → Action W E B → Action W E B
  act >> next = act >>= λ _. next

  -- A value or an error that is reached without the world.
  abbrev pub pure : {A : Type 0} → Result E A → Action W E A
  pure r w = (w, r)

  -- `x, err := f(); if err == nil { ... }`: the error is a value.
  abbrev pub attempt : {A : Type 0} → Action W E A → Action W E (Result E A)
  attempt act w = let (after, r) = act w in (after, ok r)
