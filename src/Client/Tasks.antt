-- ===== src/Client/Tasks.antt =====
-- The goroutines that dispatchServerMessage starts for inventory requests and key revocations.
use power_manage_sdk.Client.Messages.{
  Body, RevokeLuksDeviceKey, request_inventory, revoke_luks_device_key, inventory,
  revoke_luks_device_key_result,
}
use power_manage_sdk.Client.State.{Client, Handler, Call, returned, Outside, send, calling}
use power_manage_sdk.Prelude.{ℕ, zero, suc, ◌-◌, Bool, Option, none, some, List, [], ◌∷◌}

abbrev pub remove_at {ℓ} : {A : Type ℓ} → List A → ℕ → List A
remove_at [] i = []
remove_at (x ∷ xs) zero = xs
remove_at (x ∷ xs) (suc i) = x ∷ remove_at xs i

abbrev pub get_elem? {ℓ} : {A : Type ℓ} → List A → ℕ → Option A
get_elem? [] i = none
get_elem? (x ∷ xs) zero = some x
get_elem? (x ∷ xs) (suc i) = get_elem? xs i

-- `SendInventory` of what the handler collected.
unfoldable pub send_collected : Outside → Client → Call (Option Body) → Client
send_collected o c (returned (some b)) = (send o c (inventory b)).0
send_collected o c _ = c

unfoldable pub collect_with : Outside → Client → Option (Body → Call (Option Body)) → Body → Client
collect_with o c none req = c
collect_with o c (some on_request_inventory) req =
    send_collected o (calling c (request_inventory (some req))) (on_request_inventory req)

-- The goroutine of the `i`-th inventory request, to its end; the slot is given back on a panic too.
unfoldable pub finish_inventory : Handler → Outside → Client → ℕ → Client
finish_inventory h o c i = elim (get_elem? c.inv_tasks i) [
  | none ↦ c
  | some req ↦
      let free = record c { inv_sem = c.inv_sem - 1; inv_tasks = remove_at c.inv_tasks i } in
      collect_with o free h.on_request_inventory req
]

-- `SendRevokeLuksDeviceKeyResult`; after a panic or no handler nothing is sent.
unfoldable pub send_revoked : Outside → Client → Body → Call (Bool × Body) → Client
send_revoked o c id (returned (success, text)) =
    (send o c (revoke_luks_device_key_result id success text)).0
send_revoked o c id _ = c

unfoldable pub revoke_with :
    Outside
    → Client
    → Option (RevokeLuksDeviceKey → Call (Bool × Body))
    → RevokeLuksDeviceKey
    → Client
revoke_with o c none req = c
revoke_with o c (some on_revoke) req =
    send_revoked o (calling c (revoke_luks_device_key (some req))) req.action_id (on_revoke req)

unfoldable pub finish_revocation : Handler → Outside → Client → ℕ → Client
finish_revocation h o c i = elim (get_elem? c.luks_revoke_tasks i) [
  | none ↦ c
  | some req ↦
      let free = record c {
        luks_revoke_sem = c.luks_revoke_sem - 1;
        luks_revoke_tasks = remove_at c.luks_revoke_tasks i;
      } in
      revoke_with o free h.on_revoke_luks_device_key req
]
