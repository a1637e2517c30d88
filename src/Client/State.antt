-- ===== src/Client/State.antt =====
-- The Client struct, what surrounds it, and send.
use power_manage_sdk.Client.Messages.{
  Body, Error, ManifestDelivery, RevokeLuksDeviceKey, Payload, ServerMessage, AgentPayload,
  AgentMessage, Welcome, delivery_receipt,
}
use power_manage_sdk.Prelude.{
  ℕ, Bool, true, false, Option, none, some, List, ◌∷◌, Bytes, ℤ, if◌then◌else◌,
}

-- A buffered channel of capacity one for a correlated response.
pub record Chan : Type 0 where
  pub buffer : Option ServerMessage
  pub closed : Bool

pub data SendError : Type 0 where
  not_connected : SendError
  failed_send : Error → SendError

-- What the rest of the process and the peer can see, newest first.
pub data Event : Type 0 where
  -- The handler was called on a delivery.
  handed : ManifestDelivery → Event
  -- Another method of the handler was called on a payload.
  called : Payload → Event
  -- The agent asked for a receipt itself, by SendDeliveryReceipt.
  asked : Bytes → Event
  -- `send` was called on a message, and returned this.
  sends : AgentMessage → Option SendError → Event

pub record Client : Type 0 where
  pub device_id : Bytes
  pub auth_token : Bytes
  -- `stream != nil`.
  pub connected : Bool
  -- `deliveryCh`: the deliveries queued, oldest first; `none` when no Run is active.
  pub delivery_ch : Option (List ManifestDelivery)
  -- `pendingRequests`, its channels by number.
  pub pending : List (Bytes × ℕ)
  pub chans : ℕ → Chan
  pub next_chan : ℕ
  -- `heartbeatUpdate`: nil, or the value that the channel of capacity one holds.
  pub heartbeat_update : Option (Option ℤ)
  -- Tokens in `invSem` and `luksRevokeSem`, with the goroutines that hold them.
  pub inv_sem : ℕ
  pub inv_tasks : List Body
  pub luks_revoke_sem : ℕ
  pub luks_revoke_tasks : List RevokeLuksDeviceKey
  pub log : List Event

abbrev pub inventory_dispatch_concurrency : ℕ
inventory_dispatch_concurrency = 2

abbrev pub luks_revoke_dispatch_concurrency : ℕ
luks_revoke_dispatch_concurrency = 2

abbrev pub delivery_queue_depth : ℕ
delivery_queue_depth = 256

-- A call of a handler method: a value, an error, or a panic.
pub data Call (A : Type 0) : Type 0 where
  returned : A → Call A
  failed : Error → Call A
  panicked : Call A

pub record TerminalHandler : Type 0 where
  pub on_terminal_start : Body → Call (Unit {0})
  pub on_terminal_input : Body → Call (Unit {0})
  pub on_terminal_resize : Body → Call (Unit {0})
  pub on_terminal_stop : Body → Call (Unit {0})

-- StreamHandler, and the interfaces that a handler may implement besides: what each call ends with.
-- That a method is called stands in the log; what it sends meanwhile are steps of their own.
pub record Handler : Type 0 where
  pub on_welcome : Welcome → Call (Unit {0})
  pub on_manifest_delivery : ManifestDelivery → Call (Unit {0})
  pub on_query : Body → Call (Option Body)
  pub on_error : Error → Call (Unit {0})
  pub streaming : Option (ManifestDelivery → Call (Unit {0}))
  pub on_revoke_luks_device_key : Option (RevokeLuksDeviceKey → Call (Bool × Bytes))
  pub on_log_query : Option (Body → Call (Option Body))
  pub on_request_inventory : Option (Body → Call (Option Body))
  pub terminal : Option TerminalHandler

-- What code outside the client answers during one step: how `stream.Send` or the context ends a
-- send, what `NewULID` draws, and what the validator finds wrong with a payload.
pub record Outside : Type 0 where
  pub link : AgentMessage → Option Error
  pub ulid : Bytes
  pub validator : Option (Payload → Option Error)

abbrev failed_with : Option Error → Option SendError
failed_with none = none
failed_with (some e) = some (failed_send e)

abbrev outcome : Outside → Client → AgentMessage → Option SendError
outcome o c m = if c.connected then failed_with (o.link m) else some not_connected

-- `send`; its lock is in SendLock.
unfoldable pub send : Outside → Client → AgentPayload → Client × Option SendError
send o c p =
    let m : AgentMessage = record { id = o.ulid; payload = p } in
    let r = outcome o c m in (record c { log = sends m r ∷ c.log }, r)

-- The call of a method of the handler.
abbrev pub calling : Client → Payload → Client
calling c p = record c { log = called p ∷ c.log }

-- `SendDeliveryReceipt`.
unfoldable pub send_delivery_receipt : Outside → Client → Bytes → Client × Option SendError
send_delivery_receipt o c delivery_id = send o c (delivery_receipt delivery_id)

-- `validateInbound`; a client with no validator accepts everything.
unfoldable pub validate_inbound : Outside → Payload → Bool
validate_inbound o p = elim o.validator [
  | none ↦ true
  | some check ↦ elim (check p) [ none ↦ true | some e ↦ false ]
]
