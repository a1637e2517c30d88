-- ===== src/Client/Messages.antt =====
-- The frames of AgentService.Stream that client.go reads and writes
-- (proto/powermanage/v1/agent.proto). What no code of client.go looks into is one byte string.
use power_manage_sdk.Prelude.{Bool, Option, none, List, Bytes, ℤ}

abbrev pub Body : Type 0
Body = Bytes

-- The text of an error that comes from outside the client.
abbrev pub Error : Type 0
Error = Bytes

-- `heartbeat_interval` in nanoseconds; `none` when unset.
pub record Welcome : Type 0 where
  pub heartbeat_interval : Option ℤ

pub record ManifestDelivery : Type 0 where
  pub delivery_id : Bytes
  pub manifest : Body

pub record RevokeLuksDeviceKey : Type 0 where
  pub action_id : Bytes
  pub rest : Body

pub record SyncState : Type 0 where
  pub deliveries : List ManifestDelivery
  pub sync_interval_minutes : ℤ
  pub maintenance_window : Option Body

pub record ValidateLuksTokenResponse : Type 0 where
  pub action_id : Bytes
  pub device_path : Bytes
  pub min_length : ℤ
  pub complexity : ℤ

-- The oneof of ServerMessage; `none` is a variant whose inner message is nil.
pub data Payload : Type 0 where
  welcome : Option Welcome → Payload
  manifest_delivery : Option ManifestDelivery → Payload
  query log_query request_inventory : Option Body → Payload
  error : Option Error → Payload
  sync_state : Option SyncState → Payload
  get_luks_key : Option Body → Payload
  store_luks_key store_lps_passwords : Option Bool → Payload
  validate_luks_token : Option ValidateLuksTokenResponse → Payload
  revoke_luks_device_key : Option RevokeLuksDeviceKey → Payload
  terminal_start terminal_input terminal_resize terminal_stop : Option Body → Payload
  unknown : Payload

pub record ServerMessage : Type 0 where
  pub id : Bytes
  pub payload : Payload

-- The oneof of AgentMessage.
pub data AgentPayload : Type 0 where
  hello : (device_id auth_token hostname agent_version arch : Bytes) → AgentPayload
  heartbeat : AgentPayload
  action_result manifest_result output_chunk query_result log_query_result : Body → AgentPayload
  security_alert inventory terminal_output terminal_state_change : Body → AgentPayload
  delivery_receipt : Bytes → AgentPayload
  get_luks_key_request : Bytes → AgentPayload
  store_luks_key_request : (action_id device_path : Bytes) (passphrase reason : Body) → AgentPayload
  store_lps_passwords_request : Bytes → List Body → AgentPayload
  validate_luks_token_request : Bytes → AgentPayload
  sync_request : AgentPayload
  revoke_luks_device_key_result : Bytes → Bool → Bytes → AgentPayload

pub record AgentMessage : Type 0 where
  pub id : Bytes
  pub payload : AgentPayload

-- The generated getters: `none` on another variant and on a nil inner message.
abbrev pub get_error : Payload → Option Error
get_error (error e) = e
get_error _ = none
