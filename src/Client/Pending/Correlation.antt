-- ===== src/Client/Pending/Correlation.antt =====
-- A waiter gets the first response with its ID; what a Close between the lookup and the send does.
use power_manage_sdk.Client.Messages.{ServerMessage}
use power_manage_sdk.Client.Pending.{
  empty_chan, update_chan, find_pending, delete_pending, register_pending, stored, offer, look_up,
  offer_on, deliver_pending, close_all, closed_at, close,
}
use power_manage_sdk.Client.Pending.Open.{
  AllOpen, AllOpen-find, AllOpen-update, AllOpen-mono, AllOpen-delete, offer_open, stored_open,
}
use power_manage_sdk.Client.State.{Client, Chan}
use power_manage_sdk.Prelude.{
  ℕ, ◌+◌, ◌≡◌, ◌≢◌, refl, sym, ap, ◌∙◌, arith, Bool, true, false, Option, none, some, List, [], ◌∷◌,
  Bytes, inl, inr, Option-cases, Bool-cases, equal, equal_iff, equal_refl, ==_iff, if◌then◌else◌,
  ◌==◌,
}

-- Messages delivered one after another; `none` if one of them panics.
abbrev pub deliver_all : Client → List ServerMessage → Option Client
deliver_all c [] = some c
deliver_all c (m ∷ ms) = elim (deliver_pending c m) [
  | none ↦ none
  | some (c', _) ↦ deliver_all c' ms
]

-- What is in the buffer, or else the first message with the ID.
abbrev pub first_with : Bytes → Option ServerMessage → List ServerMessage → Option ServerMessage
first_with id (some m) ms = some m
first_with id none [] = none
first_with id none (m ∷ ms) = if equal id m.id then some m else first_with id none ms

-- Only `id` stands for channel `n`.
abbrev OnlyFor : Bytes → ℕ → List (Bytes × ℕ) → Type 0
OnlyFor id n [] = Unit
OnlyFor id n ((k, j) ∷ m) = (j ≡ n → k ≡ id) × OnlyFor id n m

OnlyFor-below :
    (id : Bytes) (n : ℕ) (f : ℕ → Chan) (m : List (Bytes × ℕ)) → AllOpen f n m → OnlyFor id n m
OnlyFor-below id n f [] a = tt
OnlyFor-below id n f ((k, j) ∷ m) (below, _, a) =
    (λ e. absurd (omega arith), OnlyFor-below id n f m a)

OnlyFor-find :
    (id : Bytes) (n : ℕ) (m : List (Bytes × ℕ)) (k : Bytes)
    → OnlyFor id n m
    → find_pending k m ≡ some n
    → k ≡ id
unfolding find_pending
OnlyFor-find id n [] k u e = cc
OnlyFor-find id n ((i, j) ∷ m) k (only, u) e = elim (Bool-cases (equal i k)) [
  | inl hit ↦ sym ((equal_iff i k).0 hit) ∙ only (ground arith)
  | inr miss ↦ OnlyFor-find id n m k u (ground arith)
]

record Waits (c : Client) (id : Bytes) (n : ℕ) (b : Option ServerMessage) : Type 0 where
  open_ : AllOpen c.chans c.next_chan c.pending
  only : OnlyFor id n c.pending
  waiting : find_pending id c.pending ≡ some n
  buffer : (c.chans n).buffer ≡ b

some-eq : (a b : ℕ) → ◌≡◌ {A = Option ℕ} (some a) (some b) → a ≡ b
some-eq a b e = ground arith

hit_buffer :
    (ch : Chan) (id : Bytes) (m : ServerMessage) (b : Option ServerMessage)
    → equal id m.id ≡ true
    → ch.buffer ≡ b
    → (stored ch m b).buffer ≡ first_with id b (m ∷ [])
unfolding stored
hit_buffer ch id m none h e = rw h
hit_buffer ch id m (some x) h e = e

miss_buffer :
    (id : Bytes) (m : ServerMessage) (b : Option ServerMessage)
    → equal id m.id ≡ false
    → b ≡ first_with id b (m ∷ [])
miss_buffer id m none h = rw h
miss_buffer id m (some x) h = refl

not_equal : (a b : Bytes) → a ≢ b → equal a b ≡ false
not_equal a b n = elim (Bool-cases (equal a b)) [
  | inl h ↦ absurd (n ((equal_iff a b).0 h))
  | inr h ↦ h
]

-- The waiter's channel after a message went to channel `k`.
written :
    (c : Client) (id : Bytes) (n : ℕ) (b : Option ServerMessage) (m : ServerMessage) (k : ℕ)
    → Waits c id n b
    → find_pending m.id c.pending ≡ some k
    → (update_chan c.chans k (stored (c.chans k) m (c.chans k).buffer) n).buffer
      ≡ first_with id b (m ∷ [])
written c id n b m k w e = elim (Bool-cases (n == k)) [
  | inl hit ↦
      let same : n ≡ k = (==_iff n k).0 hit in
      let named = OnlyFor-find id n c.pending m.id w.only (e ∙ ap some (sym same)) in
      rw hit (
        ap (λ j. (stored (c.chans j) m (c.chans j).buffer).buffer) (sym same)
        ∙ ap (λ x. (stored (c.chans n) m x).buffer) w.buffer
        ∙ hit_buffer (c.chans n) id m b ((equal_iff id m.id).1 (sym named)) w.buffer)
  | inr miss ↦
      let other = not_equal id m.id (λ same. cc (
        miss,
        (==_iff n k).1 (some-eq n k (sym w.waiting ∙ ap (λ i. find_pending i c.pending) same ∙ e)),
      )) in
      rw miss (w.buffer ∙ miss_buffer id m b other)
]

-- One message: the channels stay open, and the waiter's buffer is filled by its ID alone.
Waits-deliver :
    (c : Client) (id : Bytes) (n : ℕ) (b : Option ServerMessage) (m : ServerMessage)
    → Waits c id n b
    → (c' : Client) × (x : Bool) × (deliver_pending c m ≡ some (c', x))
      × Waits c' id n (first_with id b (m ∷ []))
unfolding deliver_pending look_up offer_on
Waits-deliver c id n b m w = elim (Option-cases (find_pending m.id c.pending)) [
  | inl e ↦
      let other =
        not_equal id m.id (λ same. cc (w.waiting, e, ap (λ i. find_pending i c.pending) same)) in
      (
        c,
        false,
        rw (e, deliver_pending),
        record {
          open_ = w.open_;
          only = w.only;
          waiting = w.waiting;
          buffer = w.buffer ∙ miss_buffer id m b other;
        },
      )
  | inr (k, e) ↦
      let open_ = AllOpen-find c.chans c.next_chan m.id c.pending k w.open_ e in
      let ch = stored (c.chans k) m (c.chans k).buffer in
      (
        record c { chans = update_chan c.chans k ch },
        true,
        rw (e, deliver_pending) (rw (offer_open (c.chans k) m open_, deliver_pending)),
        record {
          open_ =
              AllOpen-update c.chans c.next_chan k ch c.pending
                (stored_open (c.chans k) m (c.chans k).buffer open_) w.open_;
          only = w.only;
          waiting = w.waiting;
          buffer = written c id n b m k w e;
        },
      )
]

first_with-cons :
    (id : Bytes) (b : Option ServerMessage) (m : ServerMessage) (ms : List ServerMessage)
    → first_with id (first_with id b (m ∷ [])) ms ≡ first_with id b (m ∷ ms)
first_with-cons id none m ms = ground arith
first_with-cons id (some x) m ms = refl

Waits-deliver_all :
    (c : Client) (id : Bytes) (n : ℕ) (b : Option ServerMessage) (ms : List ServerMessage)
    → Waits c id n b
    → (c' : Client) × (deliver_all c ms ≡ some c') × ((c'.chans n).buffer ≡ first_with id b ms)
Waits-deliver_all c id n none [] w = (c, refl, w.buffer)
Waits-deliver_all c id n (some x) [] w = (c, refl, w.buffer)
Waits-deliver_all c id n b (m ∷ ms) w =
    let (c1, x, e, w1) = Waits-deliver c id n b m w in
    let (c2, e2, buffer) = Waits-deliver_all c1 id n (first_with id b (m ∷ [])) ms w1 in
    (c2, rw (e, deliver_all) e2, buffer ∙ first_with-cons id b m ms)

register_pending-Waits :
    (c : Client) (id : Bytes)
    → AllOpen c.chans c.next_chan c.pending
    → Waits (register_pending c id).0 id c.next_chan none
unfolding register_pending find_pending
register_pending-Waits c id a =
    let kept = AllOpen-delete c.chans c.next_chan id c.pending a in
    record {
      open_ = (
        omega arith,
        ground arith,
        AllOpen-update c.chans (c.next_chan + 1) c.next_chan empty_chan
            (delete_pending id c.pending) refl
            (AllOpen-mono c.chans c.next_chan (delete_pending id c.pending) kept),
      );
      only = (λ e. refl, OnlyFor-below id c.next_chan c.chans (delete_pending id c.pending) kept);
      waiting = rw (equal_refl id);
      buffer = ground arith;
    }

-- A request that registers its ID while all pending channels are open gets, whatever messages
-- are delivered after that, the first one with its ID and no other; none of the deliveries
-- panics, and a second response with the ID is dropped.
pub register_pending-first_with :
    (c : Client) (id : Bytes) (ms : List ServerMessage)
    → AllOpen c.chans c.next_chan c.pending
    → (c' : Client) × (deliver_all (register_pending c id).0 ms ≡ some c')
      × ((c'.chans (register_pending c id).1).buffer ≡ first_with id none ms)
register_pending-first_with c id ms a =
    let (c', e, buffer) =
      Waits-deliver_all (register_pending c id).0 id c.next_chan none ms
        (register_pending-Waits c id a) in
    (c', e, unfold register_pending in buffer)

close_all-closed :
    (f : ℕ → Chan) (m : List (Bytes × ℕ)) (n : ℕ)
    → (f n).closed ≡ true
    → (close_all f m n).closed ≡ true
unfolding close_all
close_all-closed f [] n h = h
close_all-closed f ((k, j) ∷ m) n h = close_all-closed (closed_at f j) m n (ground arith)

close_all-find :
    (f : ℕ → Chan) (m : List (Bytes × ℕ)) (id : Bytes) (n : ℕ)
    → find_pending id m ≡ some n
    → (close_all f m n).closed ≡ true
unfolding close_all find_pending
close_all-find f [] id n e = cc
close_all-find f ((k, j) ∷ m) id n e = elim (Bool-cases (equal k id)) [
  | inl hit ↦ close_all-closed (closed_at f j) m n (ground arith)
  | inr miss ↦ close_all-find (closed_at f j) m id n (ground arith)
]

-- When `deliverPending` has found a waiter and `Close` runs before the send, the send is on a
-- closed channel, which panics.
pub close-offer_on :
    (c : Client) (m : ServerMessage) (n : ℕ)
    → c.connected ≡ true
    → look_up c m ≡ some n
    → offer_on (close c) n m ≡ none
unfolding close look_up offer_on offer
close-offer_on c m n up e = ground (arith, close_all-find c.chans c.pending m.id n e)
