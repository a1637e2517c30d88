-- ===== src/Client/SendLock/Tests.antt =====
-- One send that holds the lock.
use power_manage_sdk.Client.Messages.{AgentMessage, heartbeat}
use power_manage_sdk.Client.SendLock.{
  SendState, idle, next as then_, calls, acquires, Serialized, SendReach-Serialized,
}
use power_manage_sdk.Prelude.{refl, arith, true, [], ◌∷◌, codes}

abbrev beat : AgentMessage
beat = record { id = codes "01"; payload = heartbeat }

abbrev empty : SendState
empty = record { send_sem = 0; waiting = []; in_flight = []; wire = []; acquired = [] }

abbrev called : SendState
called = record empty { waiting = beat ∷ [] }

abbrev held : SendState
held = record empty { send_sem = 1; in_flight = (beat, true) ∷ []; acquired = beat ∷ [] }

SendReach-Serialized_example : Serialized held
SendReach-Serialized_example = SendReach-Serialized (
    then_ {s = called} (then_ {s = empty} (idle refl) (calls beat refl))
      (acquires [] [] beat refl (omega arith) refl))
