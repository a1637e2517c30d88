-- ===== src/Client/Run/Invariant.antt =====
-- The bounds of the client, and what stands behind each receipt.
use power_manage_sdk.Client.Delivery.{hand_to}
use power_manage_sdk.Client.Heartbeat.{min_heartbeat_interval, max_heartbeat_interval}
use power_manage_sdk.Client.Messages.{AgentPayload, ManifestDelivery, delivery_receipt}
use power_manage_sdk.Client.Pending.Open.{AllOpen}
use power_manage_sdk.Client.State.{
  Client, Handler, Event, handed, called, asked, sends, returned, delivery_queue_depth,
  inventory_dispatch_concurrency, luks_revoke_dispatch_concurrency,
}
use power_manage_sdk.Prelude.{
  ℕ, ◌≤◌, ◌≡◌, Option, none, some, List, [], ◌∷◌, Bytes, ℤ, pos, negsuc, length,
}

abbrev pub waiting : Option (List ManifestDelivery) → ℕ
waiting none = 0
waiting (some q) = length q

abbrev pub IsInterval : ℤ → Type 0
IsInterval (pos d) = (min_heartbeat_interval ≤ d) × (d ≤ max_heartbeat_interval)
IsInterval (negsuc _) = ⊥

abbrev pub IsUpdate : Option (Option ℤ) → Type 0
IsUpdate none = Unit
IsUpdate (some none) = Unit
IsUpdate (some (some d)) = IsInterval d

-- The handler was called on a delivery with this ID and returned nil, or the agent has asked for
-- its receipt.
pub data IsConfirmed (h : Handler) (id : Bytes) : List Event → Type 0 where
  here :
      {e : Event} {l : List Event} (d : ManifestDelivery)
      → e ≡ handed d
      → d.delivery_id ≡ id
      → hand_to h d ≡ returned tt
      → IsConfirmed h id (e ∷ l)
  wanted : {e : Event} {l : List Event} → e ≡ asked id → IsConfirmed h id (e ∷ l)
  later : {e : Event} {l : List Event} → IsConfirmed h id l → IsConfirmed h id (e ∷ l)

abbrev pub BackedSend : Handler → AgentPayload → List Event → Type 0
BackedSend h (delivery_receipt id) l = IsConfirmed h id l
BackedSend h _ l = Unit

-- Each receipt comes after the record that it confirms, or after the call that asks for it.
abbrev pub Backed : Handler → List Event → Type 0
Backed h [] = Unit
Backed h (handed d ∷ l) = Backed h l
Backed h (called p ∷ l) = Backed h l
Backed h (asked id ∷ l) = Backed h l
Backed h (sends m r ∷ l) = BackedSend h m.payload l × Backed h l

pub record Inv (h : Handler) (c : Client) : Type 0 where
  pub queue_bounded : waiting c.delivery_ch ≤ delivery_queue_depth
  pub inv_slots : c.inv_sem ≡ length c.inv_tasks
  pub inv_bounded : c.inv_sem ≤ inventory_dispatch_concurrency
  pub luks_slots : c.luks_revoke_sem ≡ length c.luks_revoke_tasks
  pub luks_bounded : c.luks_revoke_sem ≤ luks_revoke_dispatch_concurrency
  pub heartbeat_bounded : IsUpdate c.heartbeat_update
  pub pending_open : AllOpen c.chans c.next_chan c.pending
  pub receipts_backed : Backed h c.log
