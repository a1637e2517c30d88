-- ===== src/Client/Tests.antt =====
-- Runs of the client on concrete messages, and the theorems at them.
use Prim.Native.String.{String}
use power_manage_sdk.Client.Delivery.{hand_to, run_manifest_delivery, enqueue, work}
use power_manage_sdk.Client.Dispatch.Laws.{dispatch_refused}
use power_manage_sdk.Client.Dispatch.{on_delivery_frame, dispatch_payload, dispatch_server_message}
use power_manage_sdk.Client.Heartbeat.{requested_interval}
use power_manage_sdk.Client.Messages.{
  Body, ManifestDelivery, Payload, welcome, manifest_delivery, request_inventory, sync_state,
  get_luks_key, query, ServerMessage, AgentMessage, heartbeat, sync_request, delivery_receipt,
  store_luks_key, store_lps_passwords,
}
use power_manage_sdk.Client.Pending.Correlation.{
  deliver_all, first_with, register_pending-first_with, close-offer_on,
}
use power_manage_sdk.Client.Pending.{find_pending, register_pending, look_up, offer_on, close}
use power_manage_sdk.Client.Run.Drain.{rounds, HasRoom, skipped, turns-rounds}
use power_manage_sdk.Client.Run.Invariant.{Inv}
use power_manage_sdk.Client.Run.Order.{
  Turn, arrives, works, turns, arrivals, handed_in_order, turns_in_order,
}
use power_manage_sdk.Client.Run.Reachable.{run-Inv}
use power_manage_sdk.Client.Run.{
  new_client, begin_run, connect, send_hello, Reach, here, next, receives, confirms, closes, begins,
}
use power_manage_sdk.Client.State.{
  Client, Handler, returned, failed, Outside, send, validate_inbound, sends, handed, asked,
  send_delivery_receipt,
}
use power_manage_sdk.Prelude.{
  ◌≡◌, refl, arith, true, false, none, some, List, [], ◌∷◌, ◌++◌, codes, pos, if◌then◌else◌, equal,
}

abbrev recording : Handler
recording = record {
  on_welcome = λ w. returned tt;
  on_manifest_delivery =
      λ d. if equal d.delivery_id (codes "bad") then failed (codes "disk full") else returned tt;
  on_query = λ q. returned none;
  on_error = λ e. returned tt;
  streaming = none;
  on_revoke_luks_device_key = none;
  on_log_query = none;
  on_request_inventory = some (λ b. returned (some b));
  terminal = none;
}

abbrev pub network : Outside
network = record { link = λ m. none; ulid = codes "01"; validator = none }

abbrev strict : Outside
strict = record network { validator = some (λ p. some (codes "invalid")) }

abbrev pub started : Client
started = record {
  device_id = codes "dev";
  auth_token = codes "tok";
  connected = true;
  delivery_ch = some [];
  pending = [];
  chans = λ n. record { buffer = none; closed = false };
  next_chan = 0;
  heartbeat_update = some none;
  inv_sem = 0;
  inv_tasks = [];
  luks_revoke_sem = 0;
  luks_revoke_tasks = [];
  log =
      sends
        (record {
          id = codes "01";
          payload =
              power_manage_sdk.Client.Messages.hello (codes "dev") (codes "tok") (codes "host")
                (codes "1.0") (codes "amd64");
        })
        none
      ∷ [];
}

hello_sent :
    begin_run network
      (new_client (codes "dev") (codes "tok"))
      (codes "host")
      (codes "1.0")
      (codes "amd64")
    ≡ some started
unfolding begin_run new_client connect send_hello send
hello_sent = refl

abbrev delivery : String → ManifestDelivery
delivery id = record { delivery_id = codes id; manifest = [] }

abbrev message : Payload → ServerMessage
message p = record { id = codes "r1"; payload = p }

-- A delivery that the handler does not record gets no receipt.
receipts :
    (work recording network false
      (dispatch_server_message recording network started
        (some (message (manifest_delivery (some (delivery "d1")))))).0).log
    ≡ sends (record { id = codes "01"; payload = delivery_receipt (codes "d1") }) none
      ∷ handed (delivery "d1")
      ∷ started.log
unfolding work run_manifest_delivery hand_to send_delivery_receipt send dispatch_server_message
    dispatch_payload on_delivery_frame enqueue validate_inbound equal
receipts = refl

no_receipt :
    (work recording network false
      (dispatch_server_message recording network started
        (some (message (manifest_delivery (some (delivery "bad")))))).0).log
    ≡ handed (delivery "bad") ∷ started.log
unfolding work run_manifest_delivery hand_to send_delivery_receipt send dispatch_server_message
    dispatch_payload on_delivery_frame enqueue validate_inbound equal
no_receipt = refl

clamps : requested_interval (record { heartbeat_interval = some (pos 1) }) ≡ some 5_000_000_000
unfolding requested_interval
clamps = refl

abbrev flood : Client
flood =
    (dispatch_server_message recording network started
      (some (message (request_inventory (some []))))).0

-- The receipt of a delivery that Sync gave.
abbrev synced : Client
synced =
    (send_delivery_receipt network (record flood { log = asked (codes "d0") ∷ flood.log })
      (codes "d0")).0

abbrev fresh : Client
fresh = new_client (codes "dev") (codes "tok")

synced_reached : Reach recording fresh (close synced)
unfolding new_client
synced_reached =
    next
      (next
        (next (next here (begins network (codes "host") (codes "1.0") (codes "amd64") hello_sent))
          (receives network (some (message (request_inventory (some [])))) refl))
        (confirms network (codes "d0") refl))
      (closes refl)

run-Inv_example : Inv recording (close synced)
run-Inv_example = run-Inv recording (codes "dev") (codes "tok") (close synced) synced_reached

abbrev schedule : List Turn
schedule =
    arrives (delivery "d1")
    ∷ works
    ∷ arrives (delivery "bad")
    ∷ arrives (delivery "d3")
    ∷ works
    ∷ []

turns_in_order_example :
    (q' : List ManifestDelivery) × ((turns recording network started schedule).delivery_ch
      ≡ some q')
    × (handed_in_order (turns recording network started schedule).log ++ q' ≡ arrivals schedule)
turns_in_order_example = turns_in_order recording network started schedule [] refl (omega arith)

schedule_room : HasRoom recording network started schedule
unfolding work run_manifest_delivery hand_to send_delivery_receipt send on_delivery_frame enqueue
    equal
schedule_room = (omega arith, (tt, (omega arith, (omega arith, (tt, tt)))))

turns-rounds_example :
    ((turns recording network started (schedule ++ rounds 9)).delivery_ch ≡ some [])
    × (handed_in_order (turns recording network started (schedule ++ rounds 9)).log
        ≡ arrivals schedule)
    × ((skipped recording network 9 (turns recording network started schedule)).delivery_ch
        ≡ some [])
    × ((skipped recording network 9 (turns recording network started schedule)).log
        ≡ (turns recording network started schedule).log)
turns-rounds_example =
    turns-rounds recording network started schedule [] 9 refl (omega arith) schedule_room
      (omega arith)

abbrev answers : List ServerMessage
answers =
    record { id = codes "r0"; payload = sync_state none }
    ∷ message (get_luks_key none)
    ∷ message (sync_state none)
    ∷ []

register_pending-first_with_example :
    (c' : Client) × (deliver_all (register_pending started (codes "r1")).0 answers ≡ some c')
    × ((c'.chans (register_pending started (codes "r1")).1).buffer
        ≡ first_with (codes "r1") none answers)
register_pending-first_with_example = register_pending-first_with started (codes "r1") answers tt

abbrev pub waiting_client : Client
waiting_client = record started { pending = (codes "r1", 0) ∷ []; next_chan = 1 }

close-offer_on_example : offer_on (close waiting_client) 0 (message (sync_state none)) ≡ none
close-offer_on_example =
    close-offer_on waiting_client (message (sync_state none)) 0 refl
      (unfold look_up find_pending equal in refl)

dispatch_refused_example :
    dispatch_server_message recording strict started (some (message (query (some []))))
    ≡ (started, none)
dispatch_refused_example =
    dispatch_refused recording strict started (message (query (some []))) refl
      (unfold validate_inbound in refl)
