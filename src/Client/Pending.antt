-- ===== src/Client/Pending.antt =====
-- registerPending, unregisterPending, deliverPending and the part of Close that cancels them.
-- A channel is its number, so a waiter keeps its channel when the map forgets it.
pub mod Open
pub mod Correlation
use power_manage_sdk.Client.Messages.{ServerMessage}
use power_manage_sdk.Client.State.{Chan, Client}
use power_manage_sdk.Prelude.{
  ℕ, ◌+◌, Bool, true, false, not, Option, none, some, List, [], ◌∷◌, Bytes, if◌then◌else◌, ◌==◌,
  equal,
}

abbrev pub empty_chan : Chan
empty_chan = record { buffer = none; closed = false }

abbrev pub update_chan : (ℕ → Chan) → ℕ → Chan → ℕ → Chan
update_chan f k ch j = if j == k then ch else f j

-- `m[id]`.
unfoldable pub find_pending : Bytes → List (Bytes × ℕ) → Option ℕ
unfolding equal
find_pending id [] = none
find_pending id ((k, n) ∷ m) = if equal k id then some n else find_pending id m

-- `delete(m, id)`.
unfoldable pub delete_pending : Bytes → List (Bytes × ℕ) → List (Bytes × ℕ)
unfolding equal
delete_pending id [] = []
delete_pending id ((k, n) ∷ m) =
    if equal k id then delete_pending id m else (k, n) ∷ delete_pending id m

-- The new client and the number of the channel made.
unfoldable pub register_pending : Client → Bytes → Client × ℕ
register_pending c id = (
  record c {
    pending = (id, c.next_chan) ∷ delete_pending id c.pending;
    chans = update_chan c.chans c.next_chan empty_chan;
    next_chan = c.next_chan + 1;
  },
  c.next_chan,
)

unfoldable pub unregister_pending : Client → Bytes → Client
unregister_pending c id = record c { pending = delete_pending id c.pending }

-- A full buffer drops the message.
unfoldable pub stored : Chan → ServerMessage → Option ServerMessage → Chan
stored ch m none = record ch { buffer = some m }
stored ch m (some _) = ch

-- `select { case ch <- msg: default: }`; `none` is the panic of a send on a closed channel.
unfoldable pub offer : Chan → ServerMessage → Option Chan
unfolding stored
offer ch m = if ch.closed then none else some (stored ch m ch.buffer)

-- The lookup of `deliverPending`, under its lock.
unfoldable pub look_up : Client → ServerMessage → Option ℕ
look_up c m = find_pending m.id c.pending

-- Its send on the channel found, with the lock given back.
unfoldable pub offer_on : Client → ℕ → ServerMessage → Option Client
unfolding offer
offer_on c n m = elim (offer (c.chans n) m) [
  | none ↦ none
  | some ch ↦ some (record c { chans = update_chan c.chans n ch })
]

-- `deliverPending` with nothing in between: the client and whether the ID matched, or a panic.
unfoldable pub deliver_pending : Client → ServerMessage → Option (Client × Bool)
unfolding look_up offer_on
deliver_pending c m = elim (look_up c m) [
  | none ↦ some (c, false)
  | some n ↦ elim (offer_on c n m) [ none ↦ none | some c' ↦ some (c', true) ]
]

-- `close(ch)`.
abbrev pub closed_at : (ℕ → Chan) → ℕ → ℕ → Chan
closed_at f n = update_chan f n (record { buffer = (f n).buffer; closed = true })

-- The loop of `Close` over the map.
unfoldable pub close_all : (ℕ → Chan) → List (Bytes × ℕ) → ℕ → Chan
close_all f [] = f
close_all f ((k, n) ∷ m) = close_all (closed_at f n) m

unfoldable pub close : Client → Client
unfolding close_all
close c =
    if c.connected
    then record c { pending = []; chans = close_all c.chans c.pending; connected = false }
    else c
