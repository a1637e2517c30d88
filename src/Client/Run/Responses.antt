-- ===== src/Client/Run/Responses.antt =====
-- The pending requests: every channel that the map names stays open.
use power_manage_sdk.Client.Messages.{Error, error, ServerMessage}
use power_manage_sdk.Client.Pending.{
  empty_chan, update_chan, find_pending, delete_pending, register_pending, unregister_pending,
  stored, look_up, offer_on, deliver_pending,
}
use power_manage_sdk.Client.Pending.Open.{
  AllOpen-find, AllOpen-update, AllOpen-mono, AllOpen-delete, offer_open, stored_open,
}
use power_manage_sdk.Client.Run.Frames.{calling-Inv}
use power_manage_sdk.Client.Run.Invariant.{Inv}
use power_manage_sdk.Client.State.{Client, Handler, Chan}
use power_manage_sdk.Client.Dispatch.{on_error_frame, uncorrelated, on_response_frame}
use power_manage_sdk.Prelude.{
  ℕ, ◌+◌, ◌≡◌, refl, arith, Bool, true, false, some, Bytes, inl, inr, Option-cases,
}

module _ (h : Handler) where
  -- With every pending channel open, `deliverPending` does not panic, and keeps them open.
  pub deliver_pending-Inv :
      (c : Client) (m : ServerMessage)
      → Inv h c
      → (r : Client × Bool) × (deliver_pending c m ≡ some r) × Inv h r.0
  unfolding deliver_pending look_up offer_on
  deliver_pending-Inv c m v = elim (Option-cases (find_pending m.id c.pending)) [
    | inl e ↦ ((c, false), rw (e, deliver_pending), v)
    | inr (k, e) ↦
        let open_ = AllOpen-find c.chans c.next_chan m.id c.pending k v.pending_open e in
        let ch = stored (c.chans k) m (c.chans k).buffer in
        let offered = offer_open (c.chans k) m open_ in
        (
          (record c { chans = update_chan c.chans k ch }, true),
          rw (e, deliver_pending) (rw (offered, deliver_pending)),
          opened-Inv c k ch (stored_open (c.chans k) m (c.chans k).buffer open_) v,
        )
  ]
    where
      opened-Inv :
          (c : Client) (k : ℕ) (ch : Chan)
          → ch.closed ≡ false
          → Inv h c
          → Inv h (record c { chans = update_chan c.chans k ch })
      opened-Inv c k ch e v = record {
        queue_bounded = v.queue_bounded;
        inv_slots = v.inv_slots;
        inv_bounded = v.inv_bounded;
        luks_slots = v.luks_slots;
        luks_bounded = v.luks_bounded;
        heartbeat_bounded = v.heartbeat_bounded;
        pending_open = AllOpen-update c.chans c.next_chan k ch c.pending e v.pending_open;
        receipts_backed = v.receipts_backed;
      }

  pub register_pending-Inv : (c : Client) (id : Bytes) → Inv h c → Inv h (register_pending c id).0
  unfolding register_pending
  register_pending-Inv c id v = record {
    queue_bounded = v.queue_bounded;
    inv_slots = v.inv_slots;
    inv_bounded = v.inv_bounded;
    luks_slots = v.luks_slots;
    luks_bounded = v.luks_bounded;
    heartbeat_bounded = v.heartbeat_bounded;
    pending_open = (
      omega arith,
      ground arith,
      AllOpen-update c.chans (c.next_chan + 1) c.next_chan empty_chan (delete_pending id c.pending)
          refl
          (AllOpen-mono c.chans c.next_chan (delete_pending id c.pending)
            (AllOpen-delete c.chans c.next_chan id c.pending v.pending_open)),
    );
    receipts_backed = v.receipts_backed;
  }

  pub unregister_pending-Inv : (c : Client) (id : Bytes) → Inv h c → Inv h (unregister_pending c id)
  unfolding unregister_pending
  unregister_pending-Inv c id v = record {
    queue_bounded = v.queue_bounded;
    inv_slots = v.inv_slots;
    inv_bounded = v.inv_bounded;
    luks_slots = v.luks_slots;
    luks_bounded = v.luks_bounded;
    heartbeat_bounded = v.heartbeat_bounded;
    pending_open = AllOpen-delete c.chans c.next_chan id c.pending v.pending_open;
    receipts_backed = v.receipts_backed;
  }

  pub on_response_frame-Inv :
      (c : Client) (m : ServerMessage) → Inv h c → Inv h (on_response_frame c m).0
  unfolding on_response_frame
  on_response_frame-Inv c m v =
      let ((c', matched), e, kept) = deliver_pending-Inv c m v in rw (e, on_response_frame) kept

  uncorrelated-Inv : (x : Error) (r : Client × Bool) → Inv h r.0 → Inv h (uncorrelated h x r).0
  unfolding uncorrelated
  uncorrelated-Inv x (c, true) v = v
  uncorrelated-Inv x (c, false) v = calling-Inv h c (error (some x)) v

  pub on_error_frame-Inv :
      (c : Client) (m : ServerMessage) (x : Error) → Inv h c → Inv h (on_error_frame h c m x).0
  unfolding on_error_frame
  on_error_frame-Inv c m x v =
      let (r, e, kept) = deliver_pending-Inv c m v in
      rw (e, on_error_frame) (uncorrelated-Inv x r kept)
