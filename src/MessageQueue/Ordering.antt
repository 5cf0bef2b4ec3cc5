-- ===== src/MessageQueue/Ordering.antt =====
-- src/shared/message_queue.rs: the order of messages of the kind `Ordered`. The ids of this file
-- lie in a window of half the range, which does not cross the point where ids wrap around.
pub mod Window
pub mod Arrivals
pub use Window.{count_up, Elem, InWindow, next_order_id_lem, orders-snoc}
use Window.{Good}
use Arrivals.{Inv, Settled, nothing_left, receive_messages-Settled}
use cobalt_rs.Common.{
  ℕ, zero, suc, ◌+◌, ◌≤◌, ◌<◌, ◌≡◌, refl, sym, ap, ap₂, subst, ◌∙◌, ◌≢◌, ◌⊎◌, inl, inr, List, [],
  ◌∷◌, ◌++◌, true, false, ◌==◌, ltb, arith, length, All, contains, Bool-cases, ==_iff, ltb→lt,
  All-append, length-append, append_assoc, append-nil,
}
use cobalt_rs.Message.{Message, ordered}
use cobalt_rs.MessageQueue.{
  MessageQueue, next_order_id, order_is_more_recent, heap_push, set_remove, release,
  receive_ordered_message, receive_message, receive_messages,
}
use cobalt_rs.MessageQueue.Heap.{
  orders, Above, Above-mono, contains-Above, contains-set_remove, contains-heap_push,
  heap_push-Above, heap_push-All,
}
use mathlib.Core.List.{map-append}

-- What a queue hands over: the messages with the ids base, base + 1, … for as long as one of
-- `ms` has the next id, each of them one of `ms`.
pub record HandsOver (base : ℕ) (ms handed : List Message) : Type 0 where
  pub ids : orders handed ≡ count_up base (length handed)
  pub from : All (λ m. Elem m ms) handed
  pub complete : contains (base + length handed) (orders ms) ≡ false

self_Elem : (ms : List Message) → All (λ m. Elem m ms) ms
self_Elem [] = tt
self_Elem (m ∷ ms) = (inl refl, later ms (self_Elem ms))
  where
    later : (xs : List Message) → All (λ x. Elem x ms) xs → All (λ x. Elem x (m ∷ ms)) xs
    later [] h = tt
    later (x ∷ xs) h = (inr h.0, later xs h.1)

Good-All :
    (base : ℕ) (everything ms : List Message)
    → All (InWindow base) ms
    → All (λ m. Elem m everything) ms
    → All (Good base everything) ms
Good-All base everything [] w e = tt
Good-All base everything (m ∷ ms) w e = ((w.0, e.0), Good-All base everything ms w.1 e.1)

abbrev pub DeliversRun : {F : Type 0} → MessageQueue F → List Message → Type 0
DeliversRun q ms =
    (handed : List Message) × HandsOver q.remote_order_id ms handed
    × ((receive_messages ms q).recv_queue ≡ q.recv_queue ++ handed)
    × ((receive_messages ms q).remote_order_id ≡ q.remote_order_id + length handed)

-- Ordered messages that arrive in any order and any number of times, with ids from a window of
-- 2048 that starts at the next expected id and ends before ids wrap around: the queue hands over
-- exactly the longest run of ids without a gap, in order and each once.
pub receive_messages_in_order :
    {F : Type 0} (q : MessageQueue F) (ms : List Message)
    → q.o_recv_heap ≡ []
    → q.o_recv_set ≡ []
    → q.remote_order_id + 2048 ≤ 4095
    → All (InWindow q.remote_order_id) ms
    → All (λ m. m.kind ≡ ordered) ms
    → DeliversRun q ms
receive_messages_in_order q ms heap set fits window kinds =
    let (handed, v) =
      receive_messages-Settled q.remote_order_id q.recv_queue ms fits ms q
        (Good-All q.remote_order_id ms ms window (self_Elem ms)) kinds
        (
          [],
          record {
            delivered = sym (append-nil q.recv_queue);
            ids = refl;
            from = tt;
            remote = omega arith;
            remote_le = omega arith;
            heap_above = rw heap tt;
            heap_good = rw heap tt;
            set_heap = λ x. rw (heap, set) refl;
            seen = λ x h. inr (inr h);
          },
        ) in
    (
      handed,
      record {
        ids = v.ids;
        from = v.from;
        complete = nothing_left q.remote_order_id q.recv_queue ms handed _ v;
      },
      v.delivered,
      v.remote,
    )
