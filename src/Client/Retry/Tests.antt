-- ===== src/Client/Retry/Tests.antt =====
-- Two failures and a success.
use power_manage_sdk.Client.Retry.{
  Attempt, tried, waited, send_with_retry, attempts, waits, ends_on_success, send_with_retry-waits,
}
use power_manage_sdk.Prelude.{◌≡◌, refl, ℕ, ◌≤◌, true, false, [], ◌∷◌, ◌==◌}

-- The third attempt succeeds.
abbrev flaky : ℕ → Attempt
flaky n = record { is_sent = n == 3; is_done = false; is_awaited = true }

sent_at_last :
    send_with_retry flaky ≡ tried false ∷ waited 1 ∷ tried false ∷ waited 3 ∷ tried true ∷ []
unfolding send_with_retry
sent_at_last = refl

send_with_retry-waits_example :
    (1 ≤ attempts (send_with_retry flaky))
    × (attempts (send_with_retry flaky) ≤ 3)
    × (waits (send_with_retry flaky) ≡ 1 ∷ 3 ∷ [])
    × (ends_on_success (send_with_retry flaky) ≡ true)
unfolding send_with_retry
send_with_retry-waits_example = send_with_retry-waits flaky
