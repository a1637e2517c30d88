-- ===== src/Client/Pending/Open.antt =====
-- The channels that the map of pending requests names are open, and stay so.
use power_manage_sdk.Client.Messages.{ServerMessage}
use power_manage_sdk.Client.Pending.{update_chan, find_pending, delete_pending, stored, offer}
use power_manage_sdk.Client.State.{Chan}
use power_manage_sdk.Prelude.{
  ℕ, ◌+◌, ◌<◌, ◌≡◌, arith, false, Option, none, some, List, [], ◌∷◌, Bytes, inl, inr, Bool-cases,
  equal,
}

-- The pending channels have been made and are open.
abbrev pub AllOpen : (ℕ → Chan) → ℕ → List (Bytes × ℕ) → Type 0
AllOpen f n [] = Unit
AllOpen f n ((_, k) ∷ m) = (k < n) × ((f k).closed ≡ false) × AllOpen f n m

-- A channel that is closed nowhere is closed nowhere after a write of an open one.
pub AllOpen-update :
    (f : ℕ → Chan) (n k : ℕ) (ch : Chan) (m : List (Bytes × ℕ))
    → ch.closed ≡ false
    → AllOpen f n m
    → AllOpen (update_chan f k ch) n m
AllOpen-update f n k ch [] o a = tt
AllOpen-update f n k ch ((id, j) ∷ m) o (below, open_, a) =
    (below, ground arith, AllOpen-update f n k ch m o a)

pub AllOpen-mono :
    (f : ℕ → Chan) (n : ℕ) (m : List (Bytes × ℕ)) → AllOpen f n m → AllOpen f (n + 1) m
AllOpen-mono f n [] a = tt
AllOpen-mono f n ((id, j) ∷ m) (below, open_, a) = (omega arith, open_, AllOpen-mono f n m a)

pub AllOpen-delete :
    (f : ℕ → Chan) (n : ℕ) (id : Bytes) (m : List (Bytes × ℕ))
    → AllOpen f n m
    → AllOpen f n (delete_pending id m)
unfolding delete_pending
AllOpen-delete f n id [] a = tt
AllOpen-delete f n id ((k, j) ∷ m) (below, open_, a) = ground (arith, AllOpen-delete f n id m a)

pub AllOpen-find :
    (f : ℕ → Chan) (n : ℕ) (id : Bytes) (m : List (Bytes × ℕ)) (k : ℕ)
    → AllOpen f n m
    → find_pending id m ≡ some k
    → (f k).closed ≡ false
unfolding find_pending
AllOpen-find f n id [] k a e = cc
AllOpen-find f n id ((i, j) ∷ m) k (below, open_, a) e = elim (Bool-cases (equal i id)) [
  | inl hit ↦ ground arith
  | inr miss ↦ AllOpen-find f n id m k a (ground arith)
]

pub stored_open :
    (ch : Chan) (m : ServerMessage) (b : Option ServerMessage)
    → ch.closed ≡ false
    → (stored ch m b).closed ≡ false
unfolding stored
stored_open ch m none e = e
stored_open ch m (some _) e = e

pub offer_open :
    (ch : Chan) (m : ServerMessage) → ch.closed ≡ false → offer ch m ≡ some (stored ch m ch.buffer)
unfolding offer
offer_open ch m e = ground arith
