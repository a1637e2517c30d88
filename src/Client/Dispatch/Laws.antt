-- ===== src/Client/Dispatch/Laws.antt =====
-- What the dispatcher does with a command that its validator refuses.
use power_manage_sdk.Client.Messages.{
  Payload, manifest_delivery, query, log_query, request_inventory, revoke_luks_device_key,
  terminal_start, terminal_input, terminal_resize, terminal_stop, ServerMessage,
}
use power_manage_sdk.Client.Dispatch.{dispatch_payload, dispatch_server_message}
use power_manage_sdk.Client.State.{Client, Handler, Outside, validate_inbound}
use power_manage_sdk.Prelude.{◌≡◌, arith, Bool, true, false, none, some}

-- The messages that ask the agent to do something.
abbrev pub is_command : Payload → Bool
is_command (manifest_delivery _) = true
is_command (query _) = true
is_command (request_inventory _) = true
is_command (log_query _) = true
is_command (revoke_luks_device_key _) = true
is_command (terminal_start _) = true
is_command (terminal_input _) = true
is_command (terminal_resize _) = true
is_command (terminal_stop _) = true
is_command _ = false

refused :
    (h : Handler) (o : Outside) (c : Client) (m : ServerMessage) (x : Payload)
    → is_command x ≡ true
    → validate_inbound o x ≡ false
    → dispatch_payload h o c m x ≡ (c, none)
unfolding dispatch_payload
refused h o c m (manifest_delivery (some d)) k v = rw v
refused h o c m (query (some q)) k v = rw v
refused h o c m (request_inventory (some b)) k v = rw v
refused h o c m (log_query (some q)) k v = rw v
refused h o c m (revoke_luks_device_key (some r)) k v = rw v
refused h o c m (terminal_start (some b)) k v = rw v
refused h o c m (terminal_input (some b)) k v = rw v
refused h o c m (terminal_resize (some b)) k v = rw v
refused h o c m (terminal_stop (some b)) k v = rw v
refused h o c m _ k v = ground arith

-- A command that the validator refuses changes nothing, the log included in which every call of
-- the handler and every send stands: no method of the handler is called, nothing is sent, queued
-- or started, and the connection goes on.
pub dispatch_refused :
    (h : Handler) (o : Outside) (c : Client) (m : ServerMessage)
    → is_command m.payload ≡ true
    → validate_inbound o m.payload ≡ false
    → dispatch_server_message h o c (some m) ≡ (c, none)
unfolding dispatch_server_message
dispatch_refused h o c m k v = refused h o c m m.payload k v
