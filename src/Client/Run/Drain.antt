-- ===== src/Client/Run/Drain.antt =====
-- The worker of the delivery queue gets through it.
use power_manage_sdk.Client.Delivery.{work}
use power_manage_sdk.Client.Messages.{ManifestDelivery}
use power_manage_sdk.Client.State.{Client, Handler, Outside, delivery_queue_depth}
use power_manage_sdk.Client.Run.Invariant.{waiting}
use power_manage_sdk.Client.Run.Order.{
  arrivals-cons, Turn, arrives, works, arrivals, turn, turns, turn_lem, handed_in_order, handed-run,
  length-arrivals,
}
use power_manage_sdk.Prelude.{
  ℕ, zero, suc, ◌+◌, ◌≤◌, ◌<◌, true, drop, ◌≡◌, refl, sym, ap, ◌∙◌, arith, some, List, [], ◌∷◌,
  ◌++◌, length, append_assoc, append-nil,
}

-- That many rounds of the worker, and no arrival.
abbrev pub rounds : ℕ → List Turn
rounds zero = []
rounds (suc n) = works ∷ rounds n

module _ (h : Handler) (o : Outside) where
  turns-append :
      (c : Client) (ts us : List Turn) → turns h o c (ts ++ us) ≡ turns h o (turns h o c ts) us
  turns-append c [] us = refl
  turns-append c (t ∷ ts) us = turns-append (turn h o c t) ts us

  -- There is room for each arrival when it comes.
  abbrev pub RoomFor : Client → Turn → Type 0
  RoomFor c (arrives d) = waiting c.delivery_ch < delivery_queue_depth
  RoomFor c works = Unit

  abbrev pub HasRoom : Client → List Turn → Type 0
  HasRoom c [] = Unit
  HasRoom c (t ∷ ts) = RoomFor c t × HasRoom (turn h o c t) ts

  free_for :
      (c : Client) (t : Turn) (q : List ManifestDelivery)
      → c.delivery_ch ≡ some q
      → waiting c.delivery_ch ≤ delivery_queue_depth
      → RoomFor c t
      → length q + length (arrivals (t ∷ [])) ≤ delivery_queue_depth
  free_for c (arrives d) q e full room = ground arith
  free_for c works q e full room = ground arith

  -- With room for each arrival, none is lost, repeated or overtaken.
  turns_with_room :
      (c : Client) (ts : List Turn) (q : List ManifestDelivery)
      → c.delivery_ch ≡ some q
      → length q ≤ delivery_queue_depth
      → HasRoom c ts
      → (q' : List ManifestDelivery) × ((turns h o c ts).delivery_ch ≡ some q')
        × (length q' ≤ length q + length (arrivals ts))
        × (handed_in_order (turns h o c ts).log ++ q' ≡ (handed_in_order c.log ++ q) ++ arrivals ts)
  turns_with_room c [] q e full room = (q, e, omega arith, sym (append-nil _))
  turns_with_room c (t ∷ ts) q e full (now, room) =
      let free = free_for c t q e (ground arith) now in
      let (q1, e1, len1, order1) = turn_lem h o c t q e free in
      let (q2, e2, len2, order2) = turns_with_room (turn h o c t) ts q1 e1 (omega arith) room in
      (
        q2,
        e2,
        omega (arith, length-arrivals t ts),
        order2
            ∙ ap (λ (l : List ManifestDelivery). l ++ arrivals ts) order1
            ∙ append_assoc _ (arrivals (t ∷ [])) (arrivals ts)
            ∙ ap (◌++◌ (handed_in_order c.log ++ q)) (arrivals-cons t ts),
      )

  work_takes :
      (c : Client) (d : ManifestDelivery) (q : List ManifestDelivery)
      → c.delivery_ch ≡ some (d ∷ q)
      → ((turn h o c works).delivery_ch ≡ some q)
        × (handed_in_order (turn h o c works).log ≡ handed_in_order c.log ++ (d ∷ []))
  unfolding work
  work_takes c d q e =
      let (order, kept) = handed-run h o (record c { delivery_ch = some q }) d in
      (rw (e, work) kept, rw (e, work) order)

  work_idle : (c : Client) → c.delivery_ch ≡ some [] → turn h o c works ≡ c
  unfolding work
  work_idle c e = rw (e, work) cc

  -- As many rounds as there are deliveries, or more, hand over all of them, in order.
  rounds_drain :
      (n : ℕ) (c : Client) (q : List ManifestDelivery)
      → c.delivery_ch ≡ some q
      → length q ≤ n
      → ((turns h o c (rounds n)).delivery_ch ≡ some [])
        × (handed_in_order (turns h o c (rounds n)).log ≡ handed_in_order c.log ++ q)
  rounds_drain zero c [] e enough = (e, sym (append-nil _))
  rounds_drain zero c (d ∷ q) e enough = elim enough [ ]
  rounds_drain (suc n) c [] e enough =
      let (empty, order) = rounds_drain n c [] e (omega arith) in
      let idle = work_idle c e in
      (
        ap (λ (t : Client). (turns h o t (rounds n)).delivery_ch) idle ∙ empty,
        ap (λ (t : Client). handed_in_order (turns h o t (rounds n)).log) idle ∙ order,
      )
  rounds_drain (suc n) c (d ∷ q) e enough =
      let (left, first) = work_takes c d q e in
      let (empty, order) = rounds_drain n (turn h o c works) q left (omega arith) in
      (
        empty,
        order
            ∙ ap (λ (l : List ManifestDelivery). l ++ q) first
            ∙ append_assoc (handed_in_order c.log) (d ∷ []) q,
      )

  -- Rounds of the worker whose context is done.
  abbrev pub skipped : ℕ → Client → Client
  skipped zero c = c
  skipped (suc n) c = skipped n (work h o true c)

  skip_one :
      (c : Client) (q : List ManifestDelivery)
      → c.delivery_ch ≡ some q
      → ((work h o true c).delivery_ch ≡ some (drop 1 q)) × ((work h o true c).log ≡ c.log)
  unfolding work
  skip_one c [] e = (rw (e, work) e, rw (e, work) refl)
  skip_one c (d ∷ q) e = (rw (e, work) refl, rw (e, work) refl)

  rounds_skip :
      (n : ℕ) (c : Client) (q : List ManifestDelivery)
      → c.delivery_ch ≡ some q
      → length q ≤ n
      → ((skipped n c).delivery_ch ≡ some []) × ((skipped n c).log ≡ c.log)
  rounds_skip zero c [] e enough = (e, refl)
  rounds_skip zero c (d ∷ q) e enough = elim enough [ ]
  rounds_skip (suc n) c q e enough =
      let (left, same) = skip_one c q e in
      let (empty, kept) = rounds_skip n (work h o true c) (drop 1 q) left (shorter q enough) in
      (empty, kept ∙ same)
    where
      shorter : (q : List ManifestDelivery) → length q ≤ suc n → length (drop 1 q) ≤ n
      shorter [] le = omega arith
      shorter (d ∷ q) le = omega arith

  -- While the context of the worker is not done, whatever finds room in the queue when it arrives
  -- is handed over in the end: after as many rounds of the worker as there are deliveries, however
  -- arrivals and rounds came before, the queue is empty and the handler was called on each of them
  -- once, in the order of arrival. Once the context is done, as many rounds empty the queue too,
  -- and nothing that still waits is handed over or receipted.
  pub turns-rounds :
      (c : Client) (ts : List Turn) (q : List ManifestDelivery) (n : ℕ)
      → c.delivery_ch ≡ some q
      → length q ≤ delivery_queue_depth
      → HasRoom c ts
      → length q + length (arrivals ts) ≤ n
      → ((turns h o c (ts ++ rounds n)).delivery_ch ≡ some [])
        × (handed_in_order (turns h o c (ts ++ rounds n)).log
            ≡ (handed_in_order c.log ++ q) ++ arrivals ts)
        × ((skipped n (turns h o c ts)).delivery_ch ≡ some [])
        × ((skipped n (turns h o c ts)).log ≡ (turns h o c ts).log)
  turns-rounds c ts q n e full room enough =
      let (left, waits, bound, order) = turns_with_room c ts q e full room in
      let few : length left ≤ n = omega arith in
      let (empty, handed) = rounds_drain n (turns h o c ts) left waits few in
      let (gone, kept) = rounds_skip n (turns h o c ts) left waits few in
      let split = turns-append c ts (rounds n) in
      (
        ap (λ (t : Client). t.delivery_ch) split ∙ empty,
        ap (λ (t : Client). handed_in_order t.log) split ∙ handed ∙ order,
        gone,
        kept,
      )
