-- ===== src/MessageQueue/WrapAround.antt =====
-- src/shared/message_queue.rs: the heap of early messages where ids wrap around.
use cobalt_rs.Common.{
  ℕ, ◌+◌, ◌<◌, ◌≡◌, refl, sym, ap, subst, ◌∙◌, ◌≢◌, List, [], ◌∷◌, ◌++◌, true, false, arith, All,
  contains, ==_ne, ==_iff,
}
use cobalt_rs.Message.{MessageKind, Message, ordered}
use cobalt_rs.MessageQueue.{
  MessageQueue, next_order_id, order_is_more_recent, heap_push, release, receive_ordered_message,
  receive_message, receive_messages,
}

-- Messages that are not the next one do not reach the application.
waits :
    {F : Type 0} (k : MessageKind) (m : Message) (q : MessageQueue F)
    → k ≡ ordered
    → m.order ≢ q.remote_order_id
    → ((receive_message k m q).recv_queue ≡ q.recv_queue)
      × ((receive_message k m q).remote_order_id ≡ q.remote_order_id)
unfolding receive_message receive_ordered_message
waits k m q e h =
    subst
      (λ t.
        ((receive_message t m q).recv_queue ≡ q.recv_queue)
        × ((receive_message t m q).remote_order_id ≡ q.remote_order_id))
      (sym e) (ground arith, ground arith)

run_waits :
    {F : Type 0} (r : ℕ) (ms : List Message) (q : MessageQueue F)
    → q.remote_order_id ≡ r
    → All (λ m. (m.kind ≡ ordered) × (m.order ≢ r)) ms
    → (receive_messages ms q).recv_queue ≡ q.recv_queue
unfolding receive_messages
run_waits r [] q e h = refl
run_waits r (m ∷ ms) q e h =
    let (kept, still) = waits m.kind m q h.0.0 (λ t. h.0.1 (t ∙ e)) in
    run_waits r ms (receive_message m.kind m q) (still ∙ e) h.1 ∙ kept

early :
    {F : Type 0} (m : Message) (q : MessageQueue F)
    → m.order ≢ q.remote_order_id
    → order_is_more_recent m.order q.remote_order_id ≡ true
    → contains m.order q.o_recv_set ≡ false
    → receive_ordered_message m q
      ≡ record q { o_recv_set = m.order ∷ q.o_recv_set; o_recv_heap = heap_push m q.o_recv_heap }
unfolding receive_ordered_message
early m q h recent fresh = rw (==_ne _ _ h, recent, fresh)

blocked :
    {F : Type 0} (m least : Message) (heap : List Message) (q : MessageQueue F)
    → q.o_recv_heap ≡ least ∷ heap
    → m.order ≡ q.remote_order_id
    → least.order ≢ next_order_id q.remote_order_id
    → receive_ordered_message m q ≡ record q {
      recv_queue = q.recv_queue ++ m ∷ [];
      remote_order_id = next_order_id q.remote_order_id;
    }
unfolding receive_ordered_message release
blocked m least heap q e o h = rw (e, (==_iff _ _).1 o, ==_ne _ _ h)

receive_as_ordered :
    {F : Type 0} (m : Message) (ms : List Message) (q : MessageQueue F)
    → m.kind ≡ ordered
    → receive_messages (m ∷ ms) q ≡ receive_messages ms (receive_ordered_message m q)
unfolding receive_messages receive_message
receive_as_ordered m ms q e = ap (λ t. receive_messages ms (receive_message t m q)) e

more_recent_next : (r : ℕ) → order_is_more_recent (r + 1) r ≡ true
unfolding order_is_more_recent
more_recent_next r = ground arith

more_recent_zero : (r : ℕ) → 2048 < r → order_is_more_recent 0 r ≡ true
unfolding order_is_more_recent
more_recent_zero r h = ground arith

push_two :
    (next zero_id : Message) (heap : List Message)
    → heap ≡ []
    → zero_id.order < next.order
    → heap_push zero_id (heap_push next heap) ≡ zero_id ∷ next ∷ []
unfolding heap_push
push_two next zero_id heap e h = rw e (ground arith)

-- The ordered messages with the ids r + 1 and 0 come early, then the one with the id r, which is
-- due, where r is in the upper half of the range and below the largest id. Then the message with
-- the id r + 1 is due and at hand, and is not handed over; nor is any later message, unless one
-- with the id r + 1 comes once more.
pub wrap_around_stalls :
    {F : Type 0} (q : MessageQueue F) (due next zero_id : Message) (later : List Message)
    → q.o_recv_heap ≡ []
    → q.o_recv_set ≡ []
    → 2048 < q.remote_order_id
    → q.remote_order_id < 4095
    → (due.kind ≡ ordered) × (due.order ≡ q.remote_order_id)
    → (next.kind ≡ ordered) × (next.order ≡ q.remote_order_id + 1)
    → (zero_id.kind ≡ ordered) × (zero_id.order ≡ 0)
    → All (λ m. (m.kind ≡ ordered) × (m.order ≢ q.remote_order_id + 1)) later
    → (receive_messages (next ∷ zero_id ∷ due ∷ later) q).recv_queue ≡ q.recv_queue ++ due ∷ []
wrap_around_stalls {F} q due next zero_id later heap set lo hi (dk, d) (nk, n) (zk, z) rest =
    let r : ℕ = q.remote_order_id in
    let q1 : MessageQueue F = record q {
      o_recv_set = next.order ∷ q.o_recv_set;
      o_recv_heap = heap_push next q.o_recv_heap;
    } in
    let q2 : MessageQueue F = record q1 {
      o_recv_set = zero_id.order ∷ q1.o_recv_set;
      o_recv_heap = heap_push zero_id q1.o_recv_heap;
    } in
    let q3 : MessageQueue F = record q2 {
      recv_queue = q.recv_queue ++ due ∷ [];
      remote_order_id = next_order_id r;
    } in
    let step1 : receive_ordered_message next q ≡ q1 =
      early next q (omega arith) (rw n (more_recent_next r)) (rw set refl) in
    let step2 : receive_ordered_message zero_id q1 ≡ q2 =
      early zero_id q1 (omega arith) (rw z (more_recent_zero r lo)) (rw set (ground arith)) in
    let step3 : receive_ordered_message due q2 ≡ q3 =
      blocked due zero_id (next ∷ []) q2 (push_two next zero_id q.o_recv_heap heap (omega arith)) d
        (omega (arith, due_next r hi)) in
    ap (λ x. x.recv_queue)
      (receive_as_ordered next (zero_id ∷ due ∷ later) q nk
        ∙ ap (receive_messages (zero_id ∷ due ∷ later)) step1
        ∙ receive_as_ordered zero_id (due ∷ later) q1 zk
        ∙ ap (receive_messages (due ∷ later)) step2
        ∙ receive_as_ordered due later q2 dk
        ∙ ap (receive_messages later) step3)
    ∙ run_waits (r + 1) later q3 (due_next r hi) rest
  where
    due_next : (r : ℕ) → r < 4095 → next_order_id r ≡ r + 1
    due_next r h = unfold next_order_id in ground arith
