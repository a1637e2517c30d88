-- ===== src/Client/SendLock.antt =====
-- send: the slot of `sendSem`, the goroutine that holds it, and callers that give up.
mod Tests
use power_manage_sdk.Client.Messages.{AgentMessage}
use power_manage_sdk.Prelude.{
  ℕ, ◌+◌, ◌-◌, ◌≤◌, ◌<◌, ◌≡◌, refl, arith, Bool, true, false, List, [], ◌∷◌, ◌++◌, length,
  append-nil, ap, sym, ◌∙◌, length-append,
}

-- `waiting` callers queue for the slot; `in_flight` are the goroutines inside `stream.Send`,
-- with whether their caller still waits for the result; `wire` is what was sent, oldest first;
-- `acquired` lists the messages in the order in which their senders took the slot.
pub record SendState : Type 0 where
  pub send_sem : ℕ
  pub waiting : List AgentMessage
  pub in_flight : List (AgentMessage × Bool)
  pub wire : List AgentMessage
  pub acquired : List AgentMessage

-- A channel of capacity one takes a token only when empty.
pub data SendStep (s t : SendState) : Type 0 where
  -- A caller comes with a live context.
  calls : (m : AgentMessage) → t ≡ record s { waiting = m ∷ s.waiting } → SendStep s t
  -- The first `select`: one caller, any of them, takes the slot and starts its goroutine.
  acquires :
      (before after : List AgentMessage) (m : AgentMessage)
      → s.waiting ≡ before ++ (m ∷ after)
      → s.send_sem < 1
      → t ≡ record s {
        send_sem = s.send_sem + 1;
        waiting = before ++ after;
        in_flight = (m, true) ∷ s.in_flight;
        acquired = s.acquired ++ (m ∷ []);
      }
      → SendStep s t
  -- Or its context ends first.
  gives_up :
      (before after : List AgentMessage) (m : AgentMessage)
      → s.waiting ≡ before ++ (m ∷ after)
      → t ≡ record s { waiting = before ++ after }
      → SendStep s t
  -- The second `select`: the context ends during the send; the goroutine keeps the slot.
  abandons :
      (before after : List (AgentMessage × Bool)) (m : AgentMessage)
      → s.in_flight ≡ before ++ ((m, true) ∷ after)
      → t ≡ record s { in_flight = before ++ ((m, false) ∷ after) }
      → SendStep s t
  -- A `stream.Send` returns, and only then the slot is given back.
  completes :
      (before after : List (AgentMessage × Bool)) (m : AgentMessage) (awaited : Bool)
      → s.in_flight ≡ before ++ ((m, awaited) ∷ after)
      → t ≡ record s {
        send_sem = s.send_sem - 1;
        in_flight = before ++ after;
        wire = s.wire ++ (m ∷ []);
      }
      → SendStep s t

pub data SendReach : SendState → Type 0 where
  idle :
      {s : SendState}
      → s ≡ record { send_sem = 0; waiting = []; in_flight = []; wire = []; acquired = [] }
      → SendReach s
  next : {s t : SendState} → SendReach s → SendStep s t → SendReach t

abbrev pub sending : List (AgentMessage × Bool) → List AgentMessage
sending [] = []
sending ((m, _) ∷ l) = m ∷ sending l

pub record Serialized (s : SendState) : Type 0 where
  pub slots : s.send_sem ≡ length s.in_flight
  pub one_at_a_time : length s.in_flight ≤ 1
  pub in_order : s.acquired ≡ s.wire ++ sending s.in_flight

-- The only way to split a list of at most one.
singleton-split :
    (l before after : List (AgentMessage × Bool)) (x : AgentMessage × Bool)
    → length l ≤ 1
    → l ≡ before ++ (x ∷ after)
    → (before ≡ []) × (after ≡ []) × (l ≡ x ∷ [])
singleton-split l [] after x h e = ground arith
singleton-split l (y ∷ before) after x h e =
    absurd (omega (arith, ap length e, length-append before (x ∷ after)))

order_acquired :
    (l : List (AgentMessage × Bool)) (wire acquired : List AgentMessage) (m : AgentMessage)
    → length l ≡ 0
    → acquired ≡ wire ++ sending l
    → acquired ++ (m ∷ []) ≡ wire ++ sending ((m, true) ∷ l)
order_acquired [] wire acquired m e h = ap (λ a. a ++ (m ∷ [])) (h ∙ append-nil wire)
order_acquired (x ∷ l) wire acquired m e h = absurd (omega arith)

SendStep-Serialized : {s t : SendState} → SendStep s t → Serialized s → Serialized t
SendStep-Serialized (calls m e) v =
    rw e (record { slots = v.slots; one_at_a_time = v.one_at_a_time; in_order = v.in_order })
SendStep-Serialized {s} (acquires before after m w free e) v =
    let empty : length s.in_flight ≡ 0 = omega (arith, v.slots) in
    rw e (record {
      slots = omega (arith, v.slots);
      one_at_a_time = omega arith;
      in_order = order_acquired s.in_flight s.wire s.acquired m empty v.in_order;
    })
SendStep-Serialized (gives_up before after m w e) v =
    rw e (record { slots = v.slots; one_at_a_time = v.one_at_a_time; in_order = v.in_order })
SendStep-Serialized {s} (abandons before after m w e) v =
    let (b, a, l) = singleton-split s.in_flight before after (m, true) v.one_at_a_time w in
    rw (e, b, a)
      (record {
        slots = v.slots ∙ ap length l;
        one_at_a_time = omega arith;
        in_order = v.in_order ∙ ap (λ x. s.wire ++ sending x) l;
      })
SendStep-Serialized {s} (completes before after m aw w e) v =
    let (b, a, l) = singleton-split s.in_flight before after (m, aw) v.one_at_a_time w in
    rw (e, b, a)
      (record {
        slots = omega (arith, v.slots, ap length l);
        one_at_a_time = omega arith;
        in_order = v.in_order ∙ ap (λ x. s.wire ++ sending x) l ∙ sym (append-nil _);
      })

-- Whatever callers come and give up, at most one send is on the stream at a time, and messages
-- reach the stream in the order in which their senders took the slot.
pub SendReach-Serialized : {s : SendState} → SendReach s → Serialized s
SendReach-Serialized (idle e) =
    rw e (record { slots = refl; one_at_a_time = omega arith; in_order = refl })
SendReach-Serialized (next r st) = SendStep-Serialized st (SendReach-Serialized r)
