-- ===== src/Client/Run.antt =====
-- Run: what can happen to a client while its receive loop, its delivery worker, the goroutines
-- of the dispatcher and the agent's own calls interleave.
pub mod Invariant
pub mod Frames
pub mod Responses
pub mod Slots
pub mod Reachable
pub mod Order
pub mod Drain
use power_manage_sdk.Client.Delivery.{hand_to, work}
use power_manage_sdk.Client.Dispatch.{dispatch_server_message}
use power_manage_sdk.Client.Heartbeat.{take_heartbeat_update}
use power_manage_sdk.Client.Messages.{
  AgentPayload, ManifestDelivery, delivery_receipt, hello, ServerMessage,
}
use power_manage_sdk.Client.Pending.{
  register_pending, unregister_pending, deliver_pending, close, empty_chan,
}
use power_manage_sdk.Client.State.{
  Client, Handler, Event, handed, returned, Outside, SendError, send, send_delivery_receipt, asked,
}
use power_manage_sdk.Client.Tasks.{finish_inventory, finish_revocation}
use power_manage_sdk.Prelude.{
  ℕ, ◌≡◌, Bool, true, false, Option, none, some, List, [], ◌∷◌, ◌++◌, Bytes, if◌then◌else◌,
}

-- The fields of NewClient that a run uses, with the identity that WithAuth sets.
unfoldable pub new_client : (device_id auth_token : Bytes) → Client
new_client device_id auth_token = record {
  device_id = device_id;
  auth_token = auth_token;
  connected = false;
  delivery_ch = none;
  pending = [];
  chans = λ n. empty_chan;
  next_chan = 0;
  heartbeat_update = none;
  inv_sem = 0;
  inv_tasks = [];
  luks_revoke_sem = 0;
  luks_revoke_tasks = [];
  log = [];
}

-- `Connect`; `none` is "already connected".
unfoldable pub connect : Client → Option Client
connect c = if c.connected then none else some (record c { connected = true })

-- `arch` is `runtime.GOARCH`.
unfoldable pub send_hello :
    Outside → Client → (hostname agent_version arch : Bytes) → Client × Option SendError
send_hello o c hostname agent_version arch =
    send o c (hello c.device_id c.auth_token hostname agent_version arch)

-- The channels are made once the hello is sent.
abbrev pub after_hello : Client × Option SendError → Option Client
after_hello (c, some _) = none
after_hello (c, none) = some (record c { heartbeat_update = some none; delivery_ch = some [] })

-- Run up to its receive loop, if connecting and the hello succeed.
unfoldable pub begin_run : Outside → Client → (hostname agent_version arch : Bytes) → Option Client
begin_run o c hostname agent_version arch = elim (connect c) [
  | none ↦ none
  | some c' ↦ after_hello (send_hello o c' hostname agent_version arch)
]

-- What Run leaves behind when it returns, before it closes the stream.
unfoldable pub end_run : Client → Client
end_run c = record c { heartbeat_update = none; delivery_ch = none }

abbrev pub is_receipt : AgentPayload → Bool
is_receipt (delivery_receipt _) = true
is_receipt _ = false

-- The steps of a client. A round of the worker is one step, or two where others come in between:
-- the call of the handler, and the receipt once that has returned nil.
pub data Step (h : Handler) (t u : Client) : Type 0 where
  -- The receive loop dispatches one message.
  receives :
      (o : Outside) (m : Option ServerMessage)
      → u ≡ (dispatch_server_message h o t m).0
      → Step h t u
  -- The delivery worker takes one delivery.
  works : (o : Outside) (cancelled : Bool) → u ≡ work h o cancelled t → Step h t u
  takes :
      (d : ManifestDelivery) (q : List ManifestDelivery)
      → t.delivery_ch ≡ some (d ∷ q)
      → u ≡ record t { delivery_ch = some q; log = handed d ∷ t.log }
      → Step h t u
  receipts :
      (o : Outside) (d : ManifestDelivery) (since before : List Event)
      → t.log ≡ since ++ (handed d ∷ before)
      → hand_to h d ≡ returned tt
      → u ≡ (send_delivery_receipt o t d.delivery_id).0
      → Step h t u
  -- A goroutine of the dispatcher ends.
  collects : (o : Outside) (i : ℕ) → u ≡ finish_inventory h o t i → Step h t u
  revokes : (o : Outside) (i : ℕ) → u ≡ finish_revocation h o t i → Step h t u
  -- A correlated request starts or ends.
  registers : (id : Bytes) → u ≡ (register_pending t id).0 → Step h t u
  -- Outside of Run, the receiver of StartReceiver delivers a response.
  delivers : (m : ServerMessage) (found : Bool) → deliver_pending t m ≡ some (u, found) → Step h t u
  unregisters : (id : Bytes) → u ≡ unregister_pending t id → Step h t u
  -- The heartbeat goroutine takes a new interval.
  resets : u ≡ (take_heartbeat_update t).0 → Step h t u
  -- The agent asks for a receipt, as it does for the deliveries that Sync gives it.
  confirms :
      (o : Outside) (id : Bytes)
      → u ≡ (send_delivery_receipt o (record t { log = asked id ∷ t.log }) id).0
      → Step h t u
  -- Any other message is sent.
  speaks : (o : Outside) (p : AgentPayload) → is_receipt p ≡ false → u ≡ (send o t p).0 → Step h t u
  connects : connect t ≡ some u → Step h t u
  -- Run returns, the stream is closed, and Run is called again.
  ends : u ≡ end_run t → Step h t u
  closes : u ≡ close t → Step h t u
  begins :
      (o : Outside) (hostname agent_version arch : Bytes)
      → begin_run o t hostname agent_version arch ≡ some u
      → Step h t u

pub data Reach (h : Handler) (s : Client) : Client → Type 0 where
  here : Reach h s s
  next : {t u : Client} → Reach h s t → Step h t u → Reach h s u
