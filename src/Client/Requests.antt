-- ===== src/Client/Requests.antt =====
-- The correlated requests of client.go: register the ID, send under it, wait, unregister. What
-- happens to the client during the wait is the business of Run: a request is its two halves.
pub mod Laws
use power_manage_sdk.Client.Messages.{
  Body, Error, AgentMessage, AgentPayload, get_luks_key_request, store_luks_key_request,
  store_lps_passwords_request, validate_luks_token_request, sync_request, Payload, get_luks_key,
  store_luks_key, store_lps_passwords, validate_luks_token, sync_state, SyncState,
  ValidateLuksTokenResponse, ServerMessage, get_error,
}
use power_manage_sdk.Client.Pending.{register_pending, unregister_pending}
use power_manage_sdk.Client.State.{Client, Outside, SendError, send, validate_inbound}
use power_manage_sdk.Prelude.{
  ℕ, Bool, true, false, Option, none, some, List, [], ◌∷◌, Bytes, Result, ok, err, ◌>>=◌,
  if◌then◌else◌,
}

pub data RequestError : Type 0 where
  send_request : SendError → RequestError
  context_done server_error : Error → RequestError
  stream_closed unexpected_response invalid_response rejected empty_batch : RequestError

-- What the `select` of a waiting request receives.
pub data Arrival : Type 0 where
  cancelled : Error → Arrival
  closed : Arrival
  arrived : Payload → Arrival

-- Up to the wait; a send that fails ends the request, and its ID is forgotten.
unfoldable pub begin_request : Outside → Client → AgentPayload → Client × Option RequestError
begin_request o c p =
    let (registered, n) = register_pending c o.ulid in
    let (sent, failure) = send o registered p in
    elim failure [
      | none ↦ (sent, none)
      | some e ↦ (unregister_pending sent o.ulid, some (send_request e))
    ]

-- The deferred unregisterPending.
abbrev pub end_request : Client → Bytes → Client
end_request c id = unregister_pending c id

-- The branches that all requests share; `read` takes the response of the request's own kind.
unfoldable pub resolve :
    {A : Type 0} → (Payload → Result RequestError A) → Arrival → Result RequestError A
resolve read (cancelled e) = err (context_done e)
resolve read closed = err stream_closed
resolve read (arrived p) = elim (get_error p) [ some e ↦ err (server_error e) | none ↦ read p ]

abbrev checked : {A : Type 0} → Outside → Payload → A → Result RequestError A
checked o p a = if validate_inbound o p then ok a else err invalid_response

unfoldable pub luks_key : Outside → Payload → Result RequestError Body
luks_key o (get_luks_key (some b)) = checked o (get_luks_key (some b)) b
luks_key o _ = err unexpected_response

unfoldable pub luks_stored : Payload → Result RequestError (Unit {0})
luks_stored (store_luks_key (some success)) = if success then ok tt else err rejected
luks_stored _ = err unexpected_response

unfoldable pub passwords_stored : Payload → Result RequestError (Unit {0})
passwords_stored (store_lps_passwords (some success)) = if success then ok tt else err rejected
passwords_stored _ = err unexpected_response

unfoldable pub token_validated : Outside → Payload → Result RequestError ValidateLuksTokenResponse
token_validated o (validate_luks_token (some r)) = checked o (validate_luks_token (some r)) r
token_validated o _ = err unexpected_response

unfoldable pub state_synced : Outside → Payload → Result RequestError SyncState
state_synced o (sync_state (some s)) = checked o (sync_state (some s)) s
state_synced o _ = err unexpected_response

abbrev pub ask_luks_key : Outside → Client → Bytes → Client × Option RequestError
ask_luks_key o c action_id = begin_request o c (get_luks_key_request action_id)

abbrev pub ask_store_luks_key :
    Outside
    → Client
    → (action_id device_path : Bytes) (passphrase reason : Body) → Client × Option RequestError
ask_store_luks_key o c action_id device_path passphrase reason =
    begin_request o c (store_luks_key_request action_id device_path passphrase reason)

-- An empty batch is refused before anything is registered.
unfoldable pub ask_store_lps_passwords :
    Outside → Client → Bytes → List Body → Client × Option RequestError
ask_store_lps_passwords o c action_id [] = (c, some empty_batch)
ask_store_lps_passwords o c action_id (r ∷ rs) =
    begin_request o c (store_lps_passwords_request action_id (r ∷ rs))

abbrev pub ask_validate_luks_token : Outside → Client → Bytes → Client × Option RequestError
ask_validate_luks_token o c token = begin_request o c (validate_luks_token_request token)

abbrev pub ask_sync : Outside → Client → Client × Option RequestError
ask_sync o c = begin_request o c sync_request
