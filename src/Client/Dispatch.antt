-- ===== src/Client/Dispatch.antt =====
-- dispatchServerMessage, one function for each kind of arm. The result is the error returned to
-- Run, which ends the connection; a panic is recovered and returns none.
pub mod Laws
use power_manage_sdk.Client.Delivery.{enqueue, run_manifest_delivery}
use power_manage_sdk.Client.Heartbeat.{apply_welcome_heartbeat}
use power_manage_sdk.Client.Messages.{
  Body, Error, Welcome, ManifestDelivery, RevokeLuksDeviceKey, Payload, welcome, manifest_delivery,
  query, log_query, request_inventory, error, sync_state, get_luks_key, store_luks_key,
  store_lps_passwords, validate_luks_token, revoke_luks_device_key, terminal_start, terminal_input,
  terminal_resize, terminal_stop, unknown, ServerMessage, AgentPayload, query_result,
  log_query_result, inventory, revoke_luks_device_key_result,
}
use power_manage_sdk.Client.Pending.{deliver_pending}
use power_manage_sdk.Client.State.{
  Client, Handler, Call, returned, failed, panicked, Outside, SendError, send, calling,
  validate_inbound, inventory_dispatch_concurrency, luks_revoke_dispatch_concurrency,
  TerminalHandler,
}
use power_manage_sdk.Prelude.{
  ℕ, zero, suc, ◌+◌, ◌-◌, Bool, true, false, Option, none, some, List, [], ◌∷◌, ◌++◌, if◌then◌else◌,
  ltb,
}

-- The `fmt.Errorf` wrappers.
pub data DispatchError : Type 0 where
  handle_welcome handle_query handle_error handle_log_query : Error → DispatchError
  handle_terminal_start handle_terminal_input : Error → DispatchError
  handle_terminal_resize handle_terminal_stop : Error → DispatchError
  send_query_result send_log_query_result : SendError → DispatchError

abbrev pub Outcome : Type 0
Outcome = Client × Option DispatchError

-- The error of a call whose value is not used.
abbrev pub fault : (Error → DispatchError) → Call (Unit {0}) → Option DispatchError
fault f (returned _) = none
fault f (failed e) = some (f e)
fault f panicked = none

abbrev send_fault : (SendError → DispatchError) → Option SendError → Option DispatchError
send_fault f none = none
send_fault f (some e) = some (f e)

-- Answers a query: the handler's error is fatal, a nil result is not sent, a failed send is fatal.
unfoldable pub answer :
    Outside
    → Client
    → (Body → AgentPayload)
    → (Error → DispatchError)
    → (SendError → DispatchError)
    → Call (Option Body)
    → Outcome
answer o c reply f g (failed e) = (c, some (f e))
answer o c reply f g panicked = (c, none)
answer o c reply f g (returned none) = (c, none)
answer o c reply f g (returned (some r)) = let (c', e) = send o c (reply r) in (c', send_fault g e)

unfoldable pub on_welcome_frame : Handler → Client → Welcome → Outcome
on_welcome_frame h c w = (
  calling (apply_welcome_heartbeat c w) (welcome (some w)),
  fault handle_welcome (h.on_welcome w),
)

unfoldable pub on_delivery_frame : Handler → Outside → Client → ManifestDelivery → Outcome
on_delivery_frame h o c d = elim c.delivery_ch [
  | none ↦ (run_manifest_delivery h o c d, none)
  | some q ↦ (record c { delivery_ch = some (enqueue q d) }, none)
]

-- An error with no waiter goes to the handler.
unfoldable pub uncorrelated : Handler → Error → Client × Bool → Outcome
uncorrelated h e (c, true) = (c, none)
uncorrelated h e (c, false) = (calling c (error (some e)), fault handle_error (h.on_error e))

-- The panic is that of a send on a closed channel.
unfoldable pub on_error_frame : Handler → Client → ServerMessage → Error → Outcome
on_error_frame h c m e = elim (deliver_pending c m) [
  | none ↦ (c, none)
  | some r ↦ uncorrelated h e r
]

unfoldable pub on_response_frame : Client → ServerMessage → Outcome
on_response_frame c m = elim (deliver_pending c m) [ none ↦ (c, none) | some (c', _) ↦ (c', none) ]

-- The non-blocking claim of a slot, and the goroutine that holds it.
unfoldable pub on_inventory_frame : Handler → Client → Body → Outcome
on_inventory_frame h c req = elim h.on_request_inventory [
  | none ↦ (c, none)
  | some _ ↦
      if ltb c.inv_sem inventory_dispatch_concurrency
      then (record c { inv_sem = c.inv_sem + 1; inv_tasks = c.inv_tasks ++ (req ∷ []) }, none)
      else (c, none)
]

unfoldable pub on_revoke_frame : Handler → Client → RevokeLuksDeviceKey → Outcome
on_revoke_frame h c req = elim h.on_revoke_luks_device_key [
  | none ↦ (c, none)
  | some _ ↦
      if ltb c.luks_revoke_sem luks_revoke_dispatch_concurrency
      then (
        record c {
          luks_revoke_sem = c.luks_revoke_sem + 1;
          luks_revoke_tasks = c.luks_revoke_tasks ++ (req ∷ []);
        },
        none,
      )
      else (c, none)
]

-- A handler without the method ignores the query.
unfoldable pub log_query_with :
    Outside → Client → Option (Body → Call (Option Body)) → Body → Outcome
log_query_with o c none q = (c, none)
log_query_with o c (some on_log_query) q =
    answer o (calling c (log_query (some q))) log_query_result handle_log_query
      send_log_query_result (on_log_query q)

abbrev pub on_log_query_frame : Handler → Outside → Client → Body → Outcome
on_log_query_frame h o c q = log_query_with o c h.on_log_query q

unfoldable pub on_terminal_frame :
    Option TerminalHandler
    → Client
    → (TerminalHandler → Body → Call (Unit {0}))
    → (Error → DispatchError)
    → (Option Body → Payload)
    → Body
    → Outcome
on_terminal_frame none c method f p b = (c, none)
on_terminal_frame (some t) c method f p b = (calling c (p (some b)), fault f (method t b))

-- A payload that `validateInbound` refuses is dropped.
abbrev pub if_valid : Outside → Client → Payload → Outcome → Outcome
if_valid o c p r = if validate_inbound o p then r else (c, none)

unfoldable pub dispatch_payload : Handler → Outside → Client → ServerMessage → Payload → Outcome
dispatch_payload h o c m (welcome (some w)) = on_welcome_frame h c w
dispatch_payload h o c m (manifest_delivery (some d)) =
    if_valid o c (manifest_delivery (some d)) (on_delivery_frame h o c d)
dispatch_payload h o c m (query (some q)) = if_valid o c (query (some q)) (
    answer o (calling c (query (some q))) query_result handle_query send_query_result
      (h.on_query q))
dispatch_payload h o c m (error (some e)) = on_error_frame h c m e
dispatch_payload h o c m (sync_state _) = on_response_frame c m
dispatch_payload h o c m (get_luks_key _) = on_response_frame c m
dispatch_payload h o c m (store_luks_key _) = on_response_frame c m
dispatch_payload h o c m (store_lps_passwords _) = on_response_frame c m
dispatch_payload h o c m (validate_luks_token _) = on_response_frame c m
dispatch_payload h o c m (request_inventory (some b)) =
    if_valid o c (request_inventory (some b)) (on_inventory_frame h c b)
dispatch_payload h o c m (log_query (some q)) =
    if_valid o c (log_query (some q)) (on_log_query_frame h o c q)
dispatch_payload h o c m (revoke_luks_device_key (some r)) =
    if_valid o c (revoke_luks_device_key (some r)) (on_revoke_frame h c r)
dispatch_payload h o c m (terminal_start (some b)) = if_valid o c (terminal_start (some b)) (
    on_terminal_frame h.terminal c (λ t. t.on_terminal_start) handle_terminal_start terminal_start
      b)
dispatch_payload h o c m (terminal_input (some b)) = if_valid o c (terminal_input (some b)) (
    on_terminal_frame h.terminal c (λ t. t.on_terminal_input) handle_terminal_input terminal_input
      b)
dispatch_payload h o c m (terminal_resize (some b)) = if_valid o c (terminal_resize (some b)) (
    on_terminal_frame h.terminal c (λ t. t.on_terminal_resize) handle_terminal_resize
      terminal_resize b)
dispatch_payload h o c m (terminal_stop (some b)) =
    if_valid o c (terminal_stop (some b)) (
      on_terminal_frame h.terminal c (λ t. t.on_terminal_stop) handle_terminal_stop terminal_stop b)
dispatch_payload h o c m _ = (c, none)

-- A nil message panics at its first field.
unfoldable pub dispatch_server_message : Handler → Outside → Client → Option ServerMessage → Outcome
dispatch_server_message h o c none = (c, none)
dispatch_server_message h o c (some m) = dispatch_payload h o c m m.payload
