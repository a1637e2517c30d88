-- ===== src/Client/Run/Slots.antt =====
-- The slots of the inventory and revocation goroutines.
use power_manage_sdk.Client.Messages.{
  Body, RevokeLuksDeviceKey, request_inventory, revoke_luks_device_key, inventory,
  revoke_luks_device_key_result,
}
use power_manage_sdk.Client.Run.Frames.{send_other-Inv, calling-Inv}
use power_manage_sdk.Client.Run.Invariant.{Inv}
use power_manage_sdk.Client.State.{Client, Handler, Outside, Call, returned}
use power_manage_sdk.Client.Dispatch.{on_inventory_frame, on_revoke_frame}
use power_manage_sdk.Client.Tasks.{
  get_elem?, remove_at, send_collected, finish_inventory, collect_with, revoke_with, send_revoked,
  finish_revocation,
}
use power_manage_sdk.Prelude.{
  ℕ, zero, suc, ◌-◌, ◌≡◌, refl, ap, arith, Bool, Option, none, some, List, [], ◌∷◌, Bytes, length,
  length-append, inl, inr, Option-cases,
}

length-remove_at :
    {A : Type 0} (xs : List A) (i : ℕ) (x : A)
    → get_elem? xs i ≡ some x
    → length xs ≡ suc (length (remove_at xs i))
length-remove_at [] i x e = cc
length-remove_at (y ∷ xs) zero x e = refl
length-remove_at (y ∷ xs) (suc i) x e = ap suc (length-remove_at xs i x e)

module _ (h : Handler) where
  pub on_inventory_frame-Inv :
      (c : Client) (b : Body) → Inv h c → Inv h (on_inventory_frame h c b).0
  unfolding on_inventory_frame
  on_inventory_frame-Inv c b v = ground (arith, length-append c.inv_tasks (b ∷ []))

  pub on_revoke_frame-Inv :
      (c : Client) (r : RevokeLuksDeviceKey) → Inv h c → Inv h (on_revoke_frame h c r).0
  unfolding on_revoke_frame
  on_revoke_frame-Inv c r v = ground (arith, length-append c.luks_revoke_tasks (r ∷ []))

  send_collected-Inv :
      (o : Outside) (c : Client) (r : Call (Option Body)) → Inv h c → Inv h (send_collected o c r)
  unfolding send_collected
  send_collected-Inv o c (returned (some b)) v = send_other-Inv h o c (inventory b) refl v
  send_collected-Inv o c _ v = v

  send_revoked-Inv :
      (o : Outside) (c : Client) (id : Bytes) (r : Call (Bool × Bytes))
      → Inv h c
      → Inv h (send_revoked o c id r)
  unfolding send_revoked
  send_revoked-Inv o c id (returned (s, t)) v =
      send_other-Inv h o c (revoke_luks_device_key_result id s t) refl v
  send_revoked-Inv o c id _ v = v

  free_inventory-Inv :
      (c : Client) (i : ℕ) (b : Body)
      → get_elem? c.inv_tasks i ≡ some b
      → Inv h c
      → Inv h (record c { inv_sem = c.inv_sem - 1; inv_tasks = remove_at c.inv_tasks i })
  free_inventory-Inv c i b e v = ground (arith, length-remove_at c.inv_tasks i b e)

  free_revocation-Inv :
      (c : Client) (i : ℕ) (r : RevokeLuksDeviceKey)
      → get_elem? c.luks_revoke_tasks i ≡ some r
      → Inv h c
      → Inv h (record c {
        luks_revoke_sem = c.luks_revoke_sem - 1;
        luks_revoke_tasks = remove_at c.luks_revoke_tasks i;
      })
  free_revocation-Inv c i r e v = ground (arith, length-remove_at c.luks_revoke_tasks i r e)

  collect_with-Inv :
      (o : Outside) (c : Client) (f : Option (Body → Call (Option Body))) (b : Body)
      → Inv h c
      → Inv h (collect_with o c f b)
  unfolding collect_with
  collect_with-Inv o c none b v = v
  collect_with-Inv o c (some f) b v =
      send_collected-Inv o _ (f b) (calling-Inv h c (request_inventory (some b)) v)

  revoke_with-Inv :
      (o : Outside) (c : Client) (f : Option (RevokeLuksDeviceKey → Call (Bool × Bytes)))
      (r : RevokeLuksDeviceKey)
      → Inv h c
      → Inv h (revoke_with o c f r)
  unfolding revoke_with
  revoke_with-Inv o c none r v = v
  revoke_with-Inv o c (some f) r v =
      send_revoked-Inv o _ r.action_id (f r) (calling-Inv h c (revoke_luks_device_key (some r)) v)

  pub finish_inventory-Inv :
      (o : Outside) (c : Client) (i : ℕ) → Inv h c → Inv h (finish_inventory h o c i)
  unfolding finish_inventory
  finish_inventory-Inv o c i v = elim (Option-cases (get_elem? c.inv_tasks i)) [
    | inl e ↦ rw (e, finish_inventory) v
    | inr (b, e) ↦
        rw (e, finish_inventory)
          (collect_with-Inv o _ h.on_request_inventory b (free_inventory-Inv c i b e v))
  ]

  pub finish_revocation-Inv :
      (o : Outside) (c : Client) (i : ℕ) → Inv h c → Inv h (finish_revocation h o c i)
  unfolding finish_revocation
  finish_revocation-Inv o c i v = elim (Option-cases (get_elem? c.luks_revoke_tasks i)) [
    | inl e ↦ rw (e, finish_revocation) v
    | inr (r, e) ↦
        rw (e, finish_revocation)
          (revoke_with-Inv o _ h.on_revoke_luks_device_key r (free_revocation-Inv c i r e v))
  ]
