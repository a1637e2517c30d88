-- ===== src/Client/Run/Reachable.antt =====
-- The dispatcher keeps the invariant, and so does every step of a run.
use power_manage_sdk.Client.Messages.{
  Body, Error, Payload, hello, welcome, manifest_delivery, query, log_query, request_inventory,
  error, sync_state, get_luks_key, store_luks_key, store_lps_passwords, validate_luks_token,
  revoke_luks_device_key, terminal_start, terminal_input, terminal_resize, terminal_stop,
  ServerMessage, query_result, log_query_result,
}
use power_manage_sdk.Client.Run.{
  new_client, connect, send_hello, after_hello, begin_run, Step, receives, works, collects, revokes,
  registers, unregisters, resets, takes, receipts, delivers, connects, confirms, speaks, ends,
  closes, begins, end_run, Reach, here, next,
}
use power_manage_sdk.Client.Pending.{close}
use power_manage_sdk.Client.Run.Frames.{
  send_other-Inv, on_delivery_frame-Inv, work-Inv, on_welcome_frame-Inv, take_heartbeat_update-Inv,
  answer-Inv, calling-Inv, asked-Inv, take-Inv, receipt-Inv,
}
use power_manage_sdk.Client.Run.Responses.{
  deliver_pending-Inv, on_response_frame-Inv, on_error_frame-Inv, register_pending-Inv,
  unregister_pending-Inv,
}
use power_manage_sdk.Client.Run.Slots.{
  on_inventory_frame-Inv, on_revoke_frame-Inv, finish_inventory-Inv, finish_revocation-Inv,
}
use power_manage_sdk.Client.Run.Invariant.{Inv}
use power_manage_sdk.Client.State.{
  Client, Handler, Outside, Call, SendError, TerminalHandler, validate_inbound,
}
use power_manage_sdk.Client.Dispatch.{
  DispatchError, Outcome, if_valid, log_query_with, dispatch_payload, dispatch_server_message,
  handle_query, handle_log_query, send_query_result, send_log_query_result, on_terminal_frame,
}
use power_manage_sdk.Prelude.{
  ◌≡◌, refl, sym, ◌∙◌, arith, Option, none, some, [], Bytes, Option-cases, inl, inr, Bool-cases,
}

module _ (h : Handler) where
  if_valid-Inv :
      (o : Outside) (c : Client) (p : Payload) (r : Outcome)
      → Inv h c
      → Inv h r.0
      → Inv h (if_valid o c p r).0
  if_valid-Inv o c p r v w = elim (Bool-cases (validate_inbound o p)) [
    | inl e ↦ rw e w
    | inr e ↦ rw e v
  ]

  log_query_with-Inv :
      (o : Outside) (c : Client) (f : Option (Body → Call (Option Body))) (q : Body)
      → Inv h c
      → Inv h (log_query_with o c f q).0
  unfolding log_query_with
  log_query_with-Inv o c none q v = v
  log_query_with-Inv o c (some f) q v =
      answer-Inv h o _ log_query_result handle_log_query send_log_query_result (f q) (λ b. refl)
        (calling-Inv h c (log_query (some q)) v)

  on_terminal_frame-Inv :
      (t : Option TerminalHandler) (c : Client) (method : TerminalHandler → Body → Call (Unit {0}))
      (f : Error → DispatchError) (p : Option Body → Payload) (b : Body)
      → Inv h c
      → Inv h (on_terminal_frame t c method f p b).0
  unfolding on_terminal_frame
  on_terminal_frame-Inv none c method f p b v = v
  on_terminal_frame-Inv (some t) c method f p b v = calling-Inv h c (p (some b)) v

  pub dispatch_payload-Inv :
      (o : Outside) (c : Client) (m : ServerMessage) (p : Payload)
      → Inv h c
      → Inv h (dispatch_payload h o c m p).0
  unfolding dispatch_payload
  dispatch_payload-Inv o c m (welcome (some w)) v = on_welcome_frame-Inv h c w v
  dispatch_payload-Inv o c m (manifest_delivery (some d)) v =
      if_valid-Inv o c _ _ v (on_delivery_frame-Inv h o c d v)
  dispatch_payload-Inv o c m (query (some q)) v = if_valid-Inv o c _ _ v (
      answer-Inv h o _ query_result handle_query send_query_result (h.on_query q) (λ b. refl)
        (calling-Inv h c (query (some q)) v))
  dispatch_payload-Inv o c m (error (some e)) v = on_error_frame-Inv h c m e v
  dispatch_payload-Inv o c m (sync_state _) v = on_response_frame-Inv h c m v
  dispatch_payload-Inv o c m (get_luks_key _) v = on_response_frame-Inv h c m v
  dispatch_payload-Inv o c m (store_luks_key _) v = on_response_frame-Inv h c m v
  dispatch_payload-Inv o c m (store_lps_passwords _) v = on_response_frame-Inv h c m v
  dispatch_payload-Inv o c m (validate_luks_token _) v = on_response_frame-Inv h c m v
  dispatch_payload-Inv o c m (request_inventory (some b)) v =
      if_valid-Inv o c _ _ v (on_inventory_frame-Inv h c b v)
  dispatch_payload-Inv o c m (log_query (some q)) v =
      if_valid-Inv o c _ _ v (log_query_with-Inv o c h.on_log_query q v)
  dispatch_payload-Inv o c m (revoke_luks_device_key (some r)) v =
      if_valid-Inv o c _ _ v (on_revoke_frame-Inv h c r v)
  dispatch_payload-Inv o c m (terminal_start (some b)) v =
      if_valid-Inv o c _ _ v (on_terminal_frame-Inv h.terminal c _ _ _ b v)
  dispatch_payload-Inv o c m (terminal_input (some b)) v =
      if_valid-Inv o c _ _ v (on_terminal_frame-Inv h.terminal c _ _ _ b v)
  dispatch_payload-Inv o c m (terminal_resize (some b)) v =
      if_valid-Inv o c _ _ v (on_terminal_frame-Inv h.terminal c _ _ _ b v)
  dispatch_payload-Inv o c m (terminal_stop (some b)) v =
      if_valid-Inv o c _ _ v (on_terminal_frame-Inv h.terminal c _ _ _ b v)
  dispatch_payload-Inv o c m _ v = v

  -- Whatever the server sends, and whatever the handler does, one dispatch keeps the bounds.
  pub dispatch_server_message-Inv :
      (o : Outside) (c : Client) (m : Option ServerMessage)
      → Inv h c
      → Inv h (dispatch_server_message h o c m).0
  unfolding dispatch_server_message
  dispatch_server_message-Inv o c none v = v
  dispatch_server_message-Inv o c (some m) v = dispatch_payload-Inv o c m m.payload v

  end_run-Inv : (c : Client) → Inv h c → Inv h (end_run c)
  unfolding end_run
  end_run-Inv c v = ground arith

  close-Inv : (c : Client) → Inv h c → Inv h (close c)
  unfolding close
  close-Inv c v = ground arith

  connect-Inv : (c s : Client) → Inv h c → connect c ≡ some s → Inv h s
  unfolding connect
  connect-Inv c s v e = ground arith

  -- What a new run begins with.
  begun-Inv :
      (c : Client)
      → Inv h c
      → Inv h (record c { heartbeat_update = some none; delivery_ch = some [] })
  begun-Inv c v = ground arith

  after_hello-Inv :
      (r : Client × Option SendError) (s : Client) → Inv h r.0 → after_hello r ≡ some s → Inv h s
  after_hello-Inv (c, some _) s v e = cc
  after_hello-Inv (c, none) s v e = ground (arith, begun-Inv c v)

  pub begin_run-Inv :
      (o : Outside) (hostname agent_version arch : Bytes) (c s : Client)
      → Inv h c
      → begin_run o c hostname agent_version arch ≡ some s
      → Inv h s
  unfolding begin_run send_hello
  begin_run-Inv o hostname agent_version arch c s v e = elim (Option-cases (connect c)) [
    | inl f ↦ ground arith
    | inr (c', f) ↦
        after_hello-Inv (send_hello o c' hostname agent_version arch) s
          (send_other-Inv h o c' (hello c'.device_id c'.auth_token hostname agent_version arch) refl
            (connect-Inv c c' v f))
          (rw (f, begin_run) at e)
  ]

  new_client-Inv : (device_id auth_token : Bytes) → Inv h (new_client device_id auth_token)
  unfolding new_client
  new_client-Inv device_id auth_token = ground arith

  Step-Inv : {t u : Client} → Step h t u → Inv h t → Inv h u
  Step-Inv {t} (receives o m e) v = rw e (dispatch_server_message-Inv o t m v)
  Step-Inv {t} (works o b e) v = rw e (work-Inv h o b t v)
  Step-Inv {t} (takes d q f e) v = rw e (take-Inv h t d q f v)
  Step-Inv {t} (receipts o d since before f r e) v = rw e (receipt-Inv h o t d since before f r v)
  Step-Inv {t} {u} (delivers m found e) v =
      let (r, e', kept) = deliver_pending-Inv h t m v in
      let same : some (u, found) ≡ some r = sym e ∙ e' in
      let reached : u ≡ r.0 = ground arith in rw reached kept
  Step-Inv {t} {u} (connects e) v = connect-Inv t u v e
  Step-Inv {t} (collects o i e) v = rw e (finish_inventory-Inv h o t i v)
  Step-Inv {t} (revokes o i e) v = rw e (finish_revocation-Inv h o t i v)
  Step-Inv {t} (registers id e) v = rw e (register_pending-Inv h t id v)
  Step-Inv {t} (unregisters id e) v = rw e (unregister_pending-Inv h t id v)
  Step-Inv {t} (resets e) v = rw e (take_heartbeat_update-Inv h t v)
  Step-Inv {t} (confirms o id e) v = rw e (asked-Inv h o t id v)
  Step-Inv {t} (ends e) v = rw e (end_run-Inv t v)
  Step-Inv {t} (closes e) v = rw e (close-Inv t v)
  Step-Inv {t} {u} (begins o host version arch e) v = begin_run-Inv o host version arch t u v e
  Step-Inv {t} (speaks o p n e) v = rw e (send_other-Inv h o t p n v)

  pub Reach-Inv : {s t : Client} → Inv h s → Reach h s t → Inv h t
  Reach-Inv v here = v
  Reach-Inv v (next r st) = Step-Inv st (Reach-Inv v r)

  -- In every state that a client can reach from its making, by runs that begin, end and begin
  -- again and by any interleaving of their steps with the agent's own calls: at most 256
  -- deliveries wait, at most two inventory and two revocation goroutines run, each holding one
  -- slot, the heartbeat update lies between five seconds and five minutes, every pending channel
  -- is open, and each receipt sent is for a delivery on which the handler returned nil before, or
  -- one that the agent itself has asked for by SendDeliveryReceipt.
  pub run-Inv :
      (device_id auth_token : Bytes) (t : Client)
      → Reach h (new_client device_id auth_token) t
      → Inv h t
  run-Inv device_id auth_token t r = Reach-Inv (new_client-Inv device_id auth_token) r
