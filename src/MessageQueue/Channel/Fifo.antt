-- ===== src/MessageQueue/Channel/Fifo.antt =====
-- src/shared/message_queue.rs: what is taken from the receiving queue of a channel.
use cobalt_rs.Common.{
  ℕ, ◌+◌, ◌≤◌, ◌<◌, ◌≡◌, refl, sym, ap, ap₂, subst, ◌∙◌, inl, inr, List, [], ◌∷◌, ◌++◌, All,
  All-map, length, take, contains, arith, false,
}
use cobalt_rs.Config.{Config}
use cobalt_rs.Message.{Message, ordered}
use cobalt_rs.MessageQueue.{new, receive_messages}
use cobalt_rs.MessageQueue.Heap.{orders}
use cobalt_rs.MessageQueue.Sends.{of_kind}
use cobalt_rs.MessageQueue.Ordering.{count_up, Elem, InWindow, receive_messages_in_order}
use cobalt_rs.MessageQueue.Channel.{Link, Reach}
use cobalt_rs.MessageQueue.Channel.Invariant.{Inv}
use cobalt_rs.MessageQueue.Channel.Preserved.{Reach-Inv}

cons_parts : (x y : ℕ) (xs ys : List ℕ) → x ∷ xs ≡ y ∷ ys → (x ≡ y) × (xs ≡ ys)
cons_parts x y xs ys h = (cc, cc)

-- The ids of messages that are counted up lie behind the first one.
Elem-from :
    (base : ℕ) (m : Message) (xs : List Message)
    → orders xs ≡ count_up base (length xs)
    → Elem m xs
    → base ≤ m.order
Elem-from base m [] h e = absurd e
Elem-from base m (x ∷ xs) h (inl e) =
    let (first, rest) = cons_parts x.order base (orders xs) (count_up (base + 1) (length xs)) h in
    omega (arith, ap (λ (m : Message). m.order) e, first)
Elem-from base m (x ∷ xs) h (inr e) =
    let (first, rest) = cons_parts x.order base (orders xs) (count_up (base + 1) (length xs)) h in
    let lo = Elem-from (base + 1) m xs rest e in omega arith

pub Elem-below :
    (base : ℕ) (m : Message) (xs : List Message)
    → orders xs ≡ count_up base (length xs)
    → Elem m xs
    → m.order < base + length xs
Elem-below base m [] h e = absurd e
Elem-below base m (x ∷ xs) h (inl e) =
    let (first, rest) = cons_parts x.order base (orders xs) (count_up (base + 1) (length xs)) h in
    omega (arith, ap (λ (m : Message). m.order) e, first)
Elem-below base m (x ∷ xs) h (inr e) =
    let (first, rest) = cons_parts x.order base (orders xs) (count_up (base + 1) (length xs)) h in
    let hi = Elem-below (base + 1) m xs rest e in omega arith

-- Messages with ids behind that of `x`, each one of `x ∷ xs`, are among `xs`.
beyond :
    (base : ℕ) (x : Message) (xs ms : List Message)
    → x.order < base
    → orders ms ≡ count_up base (length ms)
    → All (λ m. Elem m (x ∷ xs)) ms
    → All (λ m. Elem m xs) ms
beyond base x xs [] lt h e = tt
beyond base x xs (m ∷ ms) lt h e =
    let (first, rest) = cons_parts m.order base (orders ms) (count_up (base + 1) (length ms)) h in
    (not_first e.0 first, beyond (base + 1) x xs ms (omega arith) rest e.1)
  where
    not_first : Elem m (x ∷ xs) → m.order ≡ base → Elem m xs
    not_first (inl same) first = absurd (omega (arith, ap (λ (m : Message). m.order) same))
    not_first (inr there) first = there

-- Messages with the ids of the first ones, each one of the others, are the first ones.
prefix :
    (base : ℕ) (ms sent : List Message)
    → orders ms ≡ count_up base (length ms)
    → orders sent ≡ count_up base (length sent)
    → All (λ m. Elem m sent) ms
    → ms ≡ take (length ms) sent
prefix base [] sent h k e = refl
prefix base (m ∷ ms) [] h k e = absurd e.0
prefix base (m ∷ ms) (x ∷ sent) h k (inl e, es) =
    let (first, rest) = cons_parts m.order base (orders ms) (count_up (base + 1) (length ms)) h in
    let (first', rest') =
      cons_parts x.order base (orders sent) (count_up (base + 1) (length sent)) k in
    ap₂ ◌∷◌ e
      (prefix (base + 1) ms sent rest rest' (beyond (base + 1) x sent ms (omega arith) rest es))
prefix base (m ∷ ms) (x ∷ sent) h k (inr e, es) =
    let (first, rest) = cons_parts m.order base (orders ms) (count_up (base + 1) (length ms)) h in
    let (first', rest') =
      cons_parts x.order base (orders sent) (count_up (base + 1) (length sent)) k in
    let lo = Elem-from (base + 1) m sent rest' e in absurd (omega arith)

zero_add : (n : ℕ) → 0 + n ≡ n
zero_add n = omega arith

module _ {F : Type 0} where
  -- What has been taken of ordered messages, and those that wait to be taken.
  abbrev pub delivered : Link F → List Message
  delivered l = l.taken ++ of_kind ordered l.receiver.recv_queue

  arrived_ids :
      (l : Link F) {d : Config F} → length l.sent ≤ 2048 → Inv d l → All (InWindow 0) l.arrived
  arrived_ids l few v =
      All-map (λ m e. (omega arith, omega (arith, Elem-below 0 m l.sent v.sent_ids e))) l.arrived
        v.arrived_from

  -- Two new queues are a channel that keeps the order, whatever happens to the packets between them:
  -- those that were written may be lost and put back, arrive late, in another order or several times. At any time the ordered
  -- messages that the receiver has handed out are the first ones of those that were given to the
  -- sender, in their order and each once, and they end only where the next one has not arrived yet.
  -- At most 2048 ordered messages are sent, so that the ids do not wrap around; each payload is below
  -- 64 KiB, and the quotas fit in the available bytes of each packet. The calls are `send`,
  -- `send_packet`, `lost_packet`, `receive_packet` and `received`.
  pub Reach-in_order :
      {c d : Config F} (l : Link F)
      → Reach c d l
      → length l.sent ≤ 2048
      → (delivered l ≡ take l.receiver.remote_order_id l.sent)
        × (contains l.receiver.remote_order_id (orders l.arrived) ≡ false)
  unfolding new
  Reach-in_order {c} {d} l reach few =
      let v = Reach-Inv reach few in
      let x = receive_messages l.arrived (new d) in
      let (handed, over, queue, remote) =
        receive_messages_in_order (new d) l.arrived refl refl (omega arith) (arrived_ids l few v)
          v.arrived_kind in
      let at = sym v.follows.remote_eq ∙ remote in
      let count : l.receiver.remote_order_id ≡ length handed = at ∙ zero_add (length handed) in
      (
        sym v.follows.queue_eq
            ∙ queue
            ∙ prefix 0 handed l.sent over.ids v.sent_ids
                (All-map (λ m e. arrived_sent l.sent m l.arrived v.arrived_from e) handed over.from)
            ∙ ap (λ n. take n l.sent) (sym count),
        ap (λ n. contains n (orders l.arrived)) at ∙ over.complete,
      )
    where
      arrived_sent :
          (sent : List Message) (m : Message) (ms : List Message)
          → All (λ m. Elem m sent) ms
          → Elem m ms
          → Elem m sent
      arrived_sent sent m [] h e = absurd e
      arrived_sent sent m (x ∷ ms) h (inl e) = subst (λ t. Elem t sent) (sym e) h.0
      arrived_sent sent m (x ∷ ms) h (inr e) = arrived_sent sent m ms h.1 e
