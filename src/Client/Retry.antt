-- ===== src/Client/Retry.antt =====
-- sendWithRetry of the inventory goroutine that Run starts.
mod Tests
use power_manage_sdk.Prelude.{
  ◌≡◌, refl, arith, ℕ, zero, suc, ◌+◌, ◌-◌, ◌*◌, ◌≤◌, Bool, true, false, not, ◌||◌, List, [], ◌∷◌,
  ◌==◌, if◌then◌else◌, take, Bool-cases, inl, inr,
}

-- What meets one attempt: whether SendInventory returns nil, whether the context has ended by
-- then, and whether the wait after it runs to its end.
pub record Attempt : Type 0 where
  pub is_sent : Bool
  pub is_done : Bool
  pub is_awaited : Bool

-- The calls of SendInventory, and the waits in seconds that ran to their end.
pub data RetryEvent : Type 0 where
  tried : Bool → RetryEvent
  waited : ℕ → RetryEvent

abbrev pub max_attempts : ℕ
max_attempts = 3

-- The loop from one attempt on, with the attempts that the bound leaves.
abbrev pub retry_from : ℕ → (ℕ → Attempt) → ℕ → ℕ → List RetryEvent
retry_from zero world attempt delay = []
retry_from (suc left) world attempt delay =
    let a = world attempt in
    let rest = retry_from left world (attempt + 1) (delay * 3) in
    tried a.is_sent
    ∷ (if a.is_sent || (attempt == max_attempts || (a.is_done || not a.is_awaited))
        then []
        else waited delay ∷ rest)

unfoldable pub send_with_retry : (ℕ → Attempt) → List RetryEvent
send_with_retry world = retry_from max_attempts world 1 1

abbrev pub attempts : List RetryEvent → ℕ
attempts [] = 0
attempts (tried _ ∷ es) = suc (attempts es)
attempts (waited _ ∷ es) = attempts es

abbrev pub waits : List RetryEvent → List ℕ
waits [] = []
waits (tried _ ∷ es) = waits es
waits (waited n ∷ es) = n ∷ waits es

-- An attempt that succeeds is the last event.
abbrev pub ends_on_success : List RetryEvent → Bool
ends_on_success [] = true
ends_on_success (tried true ∷ []) = true
ends_on_success (tried true ∷ (_ ∷ _)) = false
ends_on_success (tried false ∷ es) = ends_on_success es
ends_on_success (waited _ ∷ es) = ends_on_success es

-- Whatever happens to them, there are one to three attempts to send an inventory, none after one
-- that succeeded, with a wait of one second before the second and of three before the third, and no other.
pub send_with_retry-waits :
    (world : ℕ → Attempt)
    → (1 ≤ attempts (send_with_retry world))
      × (attempts (send_with_retry world) ≤ 3)
      × (waits (send_with_retry world) ≡ take (attempts (send_with_retry world) - 1) (1 ∷ 3 ∷ []))
      × (ends_on_success (send_with_retry world) ≡ true)
unfolding send_with_retry
send_with_retry-waits world = ground (arith)
