-- ===== src/Client/Heartbeat.antt =====
-- applyWelcomeHeartbeat and the update channel of the heartbeat goroutine.
use power_manage_sdk.Client.Messages.{Welcome}
use power_manage_sdk.Client.State.{Client}
use power_manage_sdk.Prelude.{
  ℕ, ◌*◌, ◌^◌, Option, none, some, ℤ, pos, negsuc, if◌then◌else◌, ltb, ◌==◌,
}

-- In nanoseconds.
abbrev pub min_heartbeat_interval : ℕ
min_heartbeat_interval = 5 * 10 ^ 9

abbrev pub max_heartbeat_interval : ℕ
max_heartbeat_interval = 300 * 10 ^ 9

-- The interval that a Welcome asks for, within the bounds; `none` is "keep the present one".
unfoldable pub requested_interval : Welcome → Option ℕ
requested_interval w = elim w.heartbeat_interval [
  | none ↦ none
  | some (negsuc _) ↦ none
  | some (pos d) ↦
      if d == 0
      then none
      else let raised = if ltb d min_heartbeat_interval then min_heartbeat_interval else d in
        some (if ltb max_heartbeat_interval raised then max_heartbeat_interval else raised)
]

-- A stale value is drained, so the channel holds the latest one.
unfoldable pub apply_welcome_heartbeat : Client → Welcome → Client
unfolding requested_interval
apply_welcome_heartbeat c w = elim (requested_interval w) [
  | none ↦ c
  | some d ↦ elim c.heartbeat_update [
    | none ↦ c
    | some _ ↦ record c { heartbeat_update = some (some (pos d)) }
  ]
]

-- `case d := <-hbUpdate: ticker.Reset(d)`: the value received, if there is one.
unfoldable pub take_heartbeat_update : Client → Client × Option ℤ
take_heartbeat_update c = elim c.heartbeat_update [
  | none ↦ (c, none)
  | some v ↦ (record c { heartbeat_update = some none }, v)
]
