-- ===== src/Client/Run/Order.antt =====
-- The delivery queue and its worker, as a FIFO that hands each delivery over once.
use power_manage_sdk.Client.Delivery.{run_manifest_delivery, enqueue, work}
use power_manage_sdk.Client.Dispatch.{on_delivery_frame}
use power_manage_sdk.Client.Messages.{ManifestDelivery}
use power_manage_sdk.Client.State.{
  Client, Handler, Event, Outside, handed, called, asked, sends, send, send_delivery_receipt,
  delivery_queue_depth,
}
use power_manage_sdk.Prelude.{
  ◌+◌, ◌≤◌, ◌≡◌, refl, sym, ap, ◌∙◌, arith, true, false, some, List, [], ◌∷◌, ◌++◌, length,
  length-append, append_assoc, append-nil, ltb, lt→ltb,
}

-- The deliveries that the handler was called on, oldest first.
abbrev pub handed_in_order : List Event → List ManifestDelivery
handed_in_order [] = []
handed_in_order (handed d ∷ l) = handed_in_order l ++ (d ∷ [])
handed_in_order (called _ ∷ l) = handed_in_order l
handed_in_order (asked _ ∷ l) = handed_in_order l
handed_in_order (sends _ _ ∷ l) = handed_in_order l

-- A delivery arrives on the receive loop, or the worker makes a round, its context not done.
pub data Turn : Type 0 where
  arrives : ManifestDelivery → Turn
  works : Turn

abbrev pub arrivals : List Turn → List ManifestDelivery
arrivals [] = []
arrivals (arrives d ∷ ts) = d ∷ arrivals ts
arrivals (works ∷ ts) = arrivals ts

pub arrivals-cons :
    (t : Turn) (ts : List Turn) → arrivals (t ∷ []) ++ arrivals ts ≡ arrivals (t ∷ ts)
arrivals-cons (arrives d) ts = refl
arrivals-cons works ts = refl

pub length-arrivals :
    (t : Turn) (ts : List Turn)
    → length (arrivals (t ∷ ts)) ≡ length (arrivals (t ∷ [])) + length (arrivals ts)
length-arrivals (arrives d) ts = omega arith
length-arrivals works ts = omega arith

module _ (h : Handler) (o : Outside) where
  abbrev pub turn : Client → Turn → Client
  turn c (arrives d) = (on_delivery_frame h o c d).0
  turn c works = work h o false c

  abbrev pub turns : Client → List Turn → Client
  turns c [] = c
  turns c (t ∷ ts) = turns (turn c t) ts

  pub handed-run :
      (c : Client) (d : ManifestDelivery)
      → (handed_in_order (run_manifest_delivery h o c d).log ≡ handed_in_order c.log ++ (d ∷ []))
        × ((run_manifest_delivery h o c d).delivery_ch ≡ c.delivery_ch)
  unfolding run_manifest_delivery send_delivery_receipt send
  handed-run c d = ground arith

  -- The queue and what was handed over, after one turn.
  pub turn_lem :
      (c : Client) (t : Turn) (q : List ManifestDelivery)
      → c.delivery_ch ≡ some q
      → length q + length (arrivals (t ∷ [])) ≤ delivery_queue_depth
      → (q' : List ManifestDelivery) × ((turn c t).delivery_ch ≡ some q')
        × (length q' ≤ length q + length (arrivals (t ∷ [])))
        × (handed_in_order (turn c t).log ++ q' ≡ handed_in_order c.log ++ q ++ arrivals (t ∷ []))
  unfolding on_delivery_frame work enqueue
  turn_lem c (arrives d) q e room =
      let free : ltb (length q) delivery_queue_depth ≡ true = lt→ltb _ _ (omega arith) in
      (
        q ++ (d ∷ []),
        rw (e, on_delivery_frame) (rw free),
        omega (arith, length-append q (d ∷ [])),
        rw (e, on_delivery_frame) (sym (append_assoc _ q (d ∷ []))),
      )
  turn_lem c works [] e room = (
    [],
    rw (e, work) e,
    omega arith,
    rw (e, work) (sym (append-nil (handed_in_order c.log ++ []))),
  )
  turn_lem c works (d ∷ q) e room =
      let (order, kept) = handed-run (record c { delivery_ch = some q }) d in
      (
        q,
        rw (e, work) kept,
        omega arith,
        rw (e, work) (rw order (append_assoc _ (d ∷ []) q ∙ sym (append-nil _))),
      )

  -- While the queue has room for all that arrives, however arrivals and rounds of the worker
  -- interleave, what was handed over and what still waits is what was there before followed by
  -- the arrivals: none is lost, repeated or overtaken.
  pub turns_in_order :
      (c : Client) (ts : List Turn) (q : List ManifestDelivery)
      → c.delivery_ch ≡ some q
      → length q + length (arrivals ts) ≤ delivery_queue_depth
      → (q' : List ManifestDelivery) × ((turns c ts).delivery_ch ≡ some q')
        × (handed_in_order (turns c ts).log ++ q' ≡ (handed_in_order c.log ++ q) ++ arrivals ts)
  turns_in_order c [] q e room = (q, e, sym (append-nil _))
  turns_in_order c (t ∷ ts) q e room =
      let (q1, e1, len1, order1) = turn_lem c t q e (omega (arith, length-arrivals t ts)) in
      let (q2, e2, order2) =
        turns_in_order (turn c t) ts q1 e1 (omega (arith, length-arrivals t ts)) in
      (
        q2,
        e2,
        order2
            ∙ ap (λ l. l ++ arrivals ts) order1
            ∙ append_assoc _ (arrivals (t ∷ [])) (arrivals ts)
            ∙ ap (◌++◌ (handed_in_order c.log ++ q)) (arrivals-cons t ts),
      )
