-- ===== src/Client/Delivery.antt =====
-- runManifestDelivery, the delivery queue and its single worker.
use power_manage_sdk.Client.Messages.{ManifestDelivery}
use power_manage_sdk.Client.State.{
  Client, Handler, Call, returned, failed, panicked, Outside, handed, send_delivery_receipt,
  delivery_queue_depth,
}
use power_manage_sdk.Prelude.{Bool, none, some, List, [], ◌∷◌, ◌++◌, if◌then◌else◌, ltb, length}

-- The streaming method where the handler has it.
unfoldable pub hand_to : Handler → ManifestDelivery → Call (Unit {0})
hand_to h d = elim h.streaming [
  | none ↦ h.on_manifest_delivery d
  | some on_manifest_delivery_with_streaming ↦ on_manifest_delivery_with_streaming d
]

-- An error or a panic of the handler leaves the delivery with no receipt; the result of sending
-- the receipt is logged only.
unfoldable pub run_manifest_delivery : Handler → Outside → Client → ManifestDelivery → Client
run_manifest_delivery h o c d =
    let begun = record c { log = handed d ∷ c.log } in
    elim (hand_to h d) [
      | panicked ↦ begun
      | failed _ ↦ begun
      | returned _ ↦ (send_delivery_receipt o begun d.delivery_id).0
    ]

-- The non-blocking send on `deliveryCh`: a full queue drops the delivery.
unfoldable pub enqueue : List ManifestDelivery → ManifestDelivery → List ManifestDelivery
enqueue q d = if ltb (length q) delivery_queue_depth then q ++ (d ∷ []) else q

-- One round of the worker; with its context cancelled it drains the queue unhandled.
unfoldable pub work : Handler → Outside → (cancelled : Bool) → Client → Client
work h o cancelled c = elim c.delivery_ch [
  | none ↦ c
  | some [] ↦ c
  | some (d ∷ q) ↦
      let taken = record c { delivery_ch = some q } in
      if cancelled then taken else run_manifest_delivery h o taken d
]
