-- ===== src/Client/Requests/Laws.antt =====
-- What a request leaves in the client, and when it succeeds.
use power_manage_sdk.Client.Messages.{
  Body, AgentPayload, Payload, get_luks_key, error, store_luks_key, store_lps_passwords,
}
use power_manage_sdk.Client.Pending.{
  find_pending, delete_pending, register_pending, unregister_pending,
}
use power_manage_sdk.Client.Requests.{
  RequestError, send_request, Arrival, cancelled, closed, arrived, begin_request, end_request,
  resolve, luks_key, luks_stored, passwords_stored,
}
use power_manage_sdk.Client.State.{Client, Outside, sends, SendError, send, validate_inbound}
use power_manage_sdk.Prelude.{
  ℕ, ◌≡◌, ◌↔◌, refl, sym, ap, ◌∙◌, arith, true, false, Option, none, some, List, [], ◌∷◌, Bytes,
  Result, ok, if◌then◌else◌, equal, equal_refl, equal_iff, Bool-cases, Option-cases, inl, inr,
}

find-delete : (id : Bytes) (m : List (Bytes × ℕ)) → find_pending id (delete_pending id m) ≡ none
unfolding find_pending delete_pending
find-delete id [] = refl
find-delete id ((k, n) ∷ m) = ground (arith, find-delete id m)

module _ (o : Outside) (c : Client) (p : AgentPayload) where
  asked_log :
      (r : Option SendError)
      → (send o (register_pending c o.ulid).0 p).1 ≡ r
      → (send o (register_pending c o.ulid).0 p).0.log
        ≡ sends (record { id = o.ulid; payload = p }) r ∷ c.log
  unfolding send register_pending
  asked_log r e = ap (λ x. sends (record { id = o.ulid; payload = p }) x ∷ c.log) e

  asked_pending :
      find_pending o.ulid (send o (register_pending c o.ulid).0 p).0.pending ≡ some c.next_chan
  unfolding send register_pending find_pending
  asked_pending = rw (equal_refl o.ulid)

-- How a begun request stands: waiting on its own channel, or failed with nothing registered.
abbrev pub Begun : Outside → Client → AgentPayload → Client → Option RequestError → Type 0
Begun o c p c' none =
    (c'.log ≡ sends (record { id = o.ulid; payload = p }) none ∷ c.log)
    × (find_pending o.ulid c'.pending ≡ some c.next_chan)
Begun o c p c' (some x) =
    (e : SendError) × (x ≡ send_request e)
    × (c'.log ≡ sends (record { id = o.ulid; payload = p }) (some e) ∷ c.log)
    × (find_pending o.ulid c'.pending ≡ none)

-- A request sends one message, under the ID that it has registered. If the send succeeds, that
-- ID stands for the request's new channel; if it fails, the request fails with the error of the
-- send and the ID is forgotten.
pub begin_request-Begun :
    (o : Outside) (c : Client) (p : AgentPayload)
    → Begun o c p (begin_request o c p).0 (begin_request o c p).1
unfolding begin_request unregister_pending
begin_request-Begun o c p = elim (Option-cases (send o (register_pending c o.ulid).0 p).1) [
  | inl e ↦ rw (e, begin_request) (asked_log o c p none e, asked_pending o c p)
  | inr (x, e) ↦ rw (e, begin_request) (x, refl, asked_log o c p (some x) e, find-delete o.ulid _)
]

find-delete_other :
    (id k : Bytes) (m : List (Bytes × ℕ))
    → equal id k ≡ false
    → find_pending k (delete_pending id m) ≡ find_pending k m
unfolding find_pending delete_pending
find-delete_other id k [] h = refl
find-delete_other id k ((j, n) ∷ m) h = ground (arith, equal_iff j id, find-delete_other id k m h)

-- When a request ends its ID stands for nothing, and every other ID for what it did before.
pub end_request-find_pending :
    (c : Client) (id k : Bytes)
    → find_pending k (end_request c id).pending
      ≡ (if equal id k then none else find_pending k c.pending)
unfolding unregister_pending
end_request-find_pending c id k = elim (Bool-cases (equal id k)) [
  | inl same ↦ rw same (
      ap (λ j. find_pending j (delete_pending id c.pending)) (sym ((equal_iff id k).0 same))
      ∙ find-delete id c.pending)
  | inr other ↦ rw other (find-delete_other id k c.pending other)
]

-- A request that succeeds has read a response.
resolve-eq-ok :
    {A : Type 0} (read : Payload → Result RequestError A) (a : Arrival) (x : A)
    → resolve read a ≡ ok x
    → (p : Payload) × (a ≡ arrived p) × (read p ≡ ok x)
unfolding resolve
resolve-eq-ok read (cancelled e) x h = cc
resolve-eq-ok read closed x h = cc
resolve-eq-ok read (arrived (error (some e))) x h = cc
resolve-eq-ok read (arrived (error none)) x h = (error none, refl, h)
resolve-eq-ok read (arrived p) x h = (p, refl, h)

luks_key-eq-ok :
    (o : Outside) (p : Payload) (b : Body)
    → luks_key o p ≡ ok b
    → (p ≡ get_luks_key (some b)) × (validate_inbound o p ≡ true)
unfolding luks_key
luks_key-eq-ok o (get_luks_key (some x)) b h = ground arith
luks_key-eq-ok o p b h = cc

luks_stored-eq-ok : (p : Payload) → luks_stored p ≡ ok tt → p ≡ store_luks_key (some true)
unfolding luks_stored
luks_stored-eq-ok (store_luks_key (some true)) h = refl
luks_stored-eq-ok (store_luks_key (some false)) h = cc
luks_stored-eq-ok p h = cc

passwords_stored-eq-ok :
    (p : Payload) → passwords_stored p ≡ ok tt → p ≡ store_lps_passwords (some true)
unfolding passwords_stored
passwords_stored-eq-ok (store_lps_passwords (some true)) h = refl
passwords_stored-eq-ok (store_lps_passwords (some false)) h = cc
passwords_stored-eq-ok p h = cc

-- A request for a key succeeds exactly when the response that arrives is of its kind, holds a
-- body and passes the validator; the key returned is that body. In particular a server error,
-- another kind of response, a closed stream or a context that is done fails it.
pub luks_key_ok :
    (o : Outside) (a : Arrival) (b : Body)
    → (resolve (luks_key o) a ≡ ok b) ↔ (
        (a ≡ arrived (get_luks_key (some b))) × (validate_inbound o (get_luks_key (some b)) ≡ true))
unfolding resolve luks_key
luks_key_ok o a b = (
  λ h.
      let (p, came, read) = resolve-eq-ok (luks_key o) a b h in
      let (kind, valid) = luks_key-eq-ok o p b read in
      (came ∙ ap arrived kind, ap (validate_inbound o) (sym kind) ∙ valid),
  λ (came, valid). rw came (rw valid),
)

-- A store of a key or of rotated passwords succeeds exactly when the server's own response says so.
pub stored_ok :
    (a : Arrival)
    → ((resolve luks_stored a ≡ ok tt) ↔ (a ≡ arrived (store_luks_key (some true))))
      × ((resolve passwords_stored a ≡ ok tt) ↔ (a ≡ arrived (store_lps_passwords (some true))))
unfolding resolve luks_stored passwords_stored
stored_ok a = (
  (
    λ h.
        let (p, came, read) = resolve-eq-ok luks_stored a tt h in
        came ∙ ap arrived (luks_stored-eq-ok p read),
    λ e. rw e,
  ),
  (
    λ h.
        let (p, came, read) = resolve-eq-ok passwords_stored a tt h in
        came ∙ ap arrived (passwords_stored-eq-ok p read),
    λ e. rw e,
  ),
)
