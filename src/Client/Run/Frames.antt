-- ===== src/Client/Run/Frames.antt =====
-- Each operation keeps the invariant of the client.
use power_manage_sdk.Client.Delivery.{hand_to, run_manifest_delivery, enqueue, work}
use power_manage_sdk.Client.Heartbeat.{
  requested_interval, apply_welcome_heartbeat, take_heartbeat_update,
}
use power_manage_sdk.Client.Messages.{
  Body, Error, Payload, welcome, Welcome, ManifestDelivery, AgentPayload, delivery_receipt,
}
use power_manage_sdk.Client.Run.{is_receipt}
use power_manage_sdk.Client.Run.Invariant.{
  IsInterval, here, wanted, later, IsConfirmed, BackedSend, Backed, Inv,
}
use power_manage_sdk.Client.State.{
  Client, Handler, Event, Outside, Call, returned, failed, panicked, handed, called, asked, calling,
  send, send_delivery_receipt, SendError, delivery_queue_depth,
}
use power_manage_sdk.Client.Dispatch.{DispatchError, answer, on_welcome_frame, on_delivery_frame}
use power_manage_sdk.Prelude.{
  ℕ, ◌≤◌, ◌≡◌, refl, arith, Bool, true, false, Option, none, some, List, [], ◌∷◌, ◌++◌, Bytes, pos,
  length, length-append, ◌⊎◌, inl, inr, Option-cases,
}

Call-cases :
    {A : Type 0} (r : Call A)
    → ((a : A) × (r ≡ returned a)) ⊎ ((e : Error) × (r ≡ failed e)) ⊎ (r ≡ panicked)
Call-cases (returned a) = inl (a, refl)
Call-cases (failed e) = inr (inl (e, refl))
Call-cases panicked = inr (inr refl)

module _ (h : Handler) where
  logged-Inv : (c : Client) (l : List Event) → Backed h l → Inv h c → Inv h (record c { log = l })
  logged-Inv c l b v = ground arith

  queued-Inv :
      (c : Client) (q : List ManifestDelivery)
      → length q ≤ delivery_queue_depth
      → Inv h c
      → Inv h (record c { delivery_ch = some q })
  queued-Inv c q b v = ground arith

  send-Inv :
      (o : Outside) (c : Client) (p : AgentPayload)
      → BackedSend h p c.log
      → Inv h c
      → Inv h (send o c p).0
  unfolding send
  send-Inv o c p b v = ground arith

  not_receipt : (p : AgentPayload) (l : List Event) → is_receipt p ≡ false → BackedSend h p l
  not_receipt (delivery_receipt id) l e = cc
  not_receipt _ l e = tt

  pub send_other-Inv :
      (o : Outside) (c : Client) (p : AgentPayload)
      → is_receipt p ≡ false
      → Inv h c
      → Inv h (send o c p).0
  send_other-Inv o c p e v = send-Inv o c p (not_receipt p c.log e) v

  pub run_manifest_delivery-Inv :
      (o : Outside) (c : Client) (d : ManifestDelivery)
      → Inv h c
      → Inv h (run_manifest_delivery h o c d)
  unfolding run_manifest_delivery send_delivery_receipt
  run_manifest_delivery-Inv o c d v =
      let begun = logged-Inv c (handed d ∷ c.log) v.receipts_backed v in
      elim (Call-cases (hand_to h d)) [
        | inl (tt, e) ↦
            rw (e, run_manifest_delivery)
              (send-Inv o (record c { log = handed d ∷ c.log }) (delivery_receipt d.delivery_id)
                (here d refl refl e) begun)
        | inr (inl (_, e)) ↦ rw (e, run_manifest_delivery) begun
        | inr (inr e) ↦ rw (e, run_manifest_delivery) begun
      ]

  -- The same in two steps.
  pub take-Inv :
      (c : Client) (d : ManifestDelivery) (q : List ManifestDelivery)
      → c.delivery_ch ≡ some (d ∷ q)
      → Inv h c
      → Inv h (record c { delivery_ch = some q; log = handed d ∷ c.log })
  take-Inv c d q e v =
      logged-Inv (record c { delivery_ch = some q }) (handed d ∷ c.log) v.receipts_backed
        (queued-Inv c q (ground (arith, v.queue_bounded)) v)

  IsConfirmed-since :
      (d : ManifestDelivery) (since before : List Event)
      → hand_to h d ≡ returned tt
      → IsConfirmed h d.delivery_id (since ++ (handed d ∷ before))
  IsConfirmed-since d [] before r = here d refl refl r
  IsConfirmed-since d (e ∷ since) before r = later (IsConfirmed-since d since before r)

  pub receipt-Inv :
      (o : Outside) (c : Client) (d : ManifestDelivery) (since before : List Event)
      → c.log ≡ since ++ (handed d ∷ before)
      → hand_to h d ≡ returned tt
      → Inv h c
      → Inv h (send_delivery_receipt o c d.delivery_id).0
  unfolding send_delivery_receipt
  receipt-Inv o c d since before e r v =
      send-Inv o c (delivery_receipt d.delivery_id) (rw e (IsConfirmed-since d since before r)) v

  length-enqueue :
      (q : List ManifestDelivery) (d : ManifestDelivery)
      → length q ≤ delivery_queue_depth
      → length (enqueue q d) ≤ delivery_queue_depth
  unfolding enqueue
  length-enqueue q d b = ground (arith, length-append q (d ∷ []))

  pub on_delivery_frame-Inv :
      (o : Outside) (c : Client) (d : ManifestDelivery)
      → Inv h c
      → Inv h (on_delivery_frame h o c d).0
  unfolding on_delivery_frame
  on_delivery_frame-Inv o c d v = elim (Option-cases c.delivery_ch) [
    | inl e ↦ rw (e, on_delivery_frame) (run_manifest_delivery-Inv o c d v)
    | inr (q, e) ↦
        rw (e, on_delivery_frame)
          (queued-Inv c (enqueue q d) (length-enqueue q d (ground (arith, v.queue_bounded))) v)
  ]

  work_on-Inv :
      (o : Outside) (cancelled : Bool) (c : Client) (ch : Option (List ManifestDelivery))
      → c.delivery_ch ≡ ch
      → Inv h c
      → Inv h (work h o cancelled c)
  unfolding work
  work_on-Inv o cancelled c none e v = rw (e, work) v
  work_on-Inv o cancelled c (some []) e v = rw (e, work) v
  work_on-Inv o true c (some (d ∷ q)) e v =
      rw (e, work) (queued-Inv c q (ground (arith, v.queue_bounded)) v)
  work_on-Inv o false c (some (d ∷ q)) e v =
      rw (e, work)
        (run_manifest_delivery-Inv o (record c { delivery_ch = some q }) d
          (queued-Inv c q (ground (arith, v.queue_bounded)) v))

  pub work-Inv :
      (o : Outside) (cancelled : Bool) (c : Client) → Inv h c → Inv h (work h o cancelled c)
  unfolding work
  work-Inv o cancelled c v = work_on-Inv o cancelled c c.delivery_ch refl v

  requested_interval-IsInterval :
      (w : Welcome) (d : ℕ) → requested_interval w ≡ some d → IsInterval (pos d)
  unfolding requested_interval
  requested_interval-IsInterval w d e = ground arith

  updated-Inv :
      (c : Client) (d : ℕ)
      → IsInterval (pos d)
      → Inv h c
      → Inv h (record c { heartbeat_update = some (some (pos d)) })
  updated-Inv c d b v = ground arith

  apply_welcome-Inv : (c : Client) (w : Welcome) → Inv h c → Inv h (apply_welcome_heartbeat c w)
  unfolding apply_welcome_heartbeat
  apply_welcome-Inv c w v = elim (Option-cases (requested_interval w)) [
    | inl e ↦ rw (e, apply_welcome_heartbeat) v
    | inr (d, e) ↦
        let within = requested_interval-IsInterval w d e in
        elim (Option-cases c.heartbeat_update) [
          | inl f ↦ rw (e, apply_welcome_heartbeat) (rw (f, apply_welcome_heartbeat) v)
          | inr (_, f) ↦
              rw (e, apply_welcome_heartbeat)
                (rw (f, apply_welcome_heartbeat) (updated-Inv c d within v))
        ]
  ]

  -- A receipt that the agent asks for.
  pub asked-Inv :
      (o : Outside) (c : Client) (id : Bytes)
      → Inv h c
      → Inv h (send_delivery_receipt o (record c { log = asked id ∷ c.log }) id).0
  unfolding send_delivery_receipt
  asked-Inv o c id v =
      send-Inv o (record c { log = asked id ∷ c.log }) (delivery_receipt id) (wanted refl)
        (logged-Inv c (asked id ∷ c.log) v.receipts_backed v)

  pub calling-Inv : (c : Client) (p : Payload) → Inv h c → Inv h (calling c p)
  calling-Inv c p v = logged-Inv c (called p ∷ c.log) v.receipts_backed v

  pub on_welcome_frame-Inv : (c : Client) (w : Welcome) → Inv h c → Inv h (on_welcome_frame h c w).0
  unfolding on_welcome_frame
  on_welcome_frame-Inv c w v =
      calling-Inv (apply_welcome_heartbeat c w) (welcome (some w)) (apply_welcome-Inv c w v)

  pub take_heartbeat_update-Inv : (c : Client) → Inv h c → Inv h (take_heartbeat_update c).0
  unfolding take_heartbeat_update
  take_heartbeat_update-Inv c v = ground arith

  pub answer-Inv :
      (o : Outside) (c : Client) (reply : Body → AgentPayload) (f : Error → DispatchError)
      (g : SendError → DispatchError) (r : Call (Option Body))
      → ((b : Body) → is_receipt (reply b) ≡ false)
      → Inv h c
      → Inv h (answer o c reply f g r).0
  unfolding answer
  answer-Inv o c reply f g (failed e) n v = v
  answer-Inv o c reply f g panicked n v = v
  answer-Inv o c reply f g (returned none) n v = v
  answer-Inv o c reply f g (returned (some b)) n v = send_other-Inv o c (reply b) (n b) v
