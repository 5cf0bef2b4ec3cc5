-- ===== src/MessageQueue/Ordering/Arrivals.antt =====
-- src/shared/message_queue.rs: a queue while ordered messages arrive.
use cobalt_rs.Common.{
  ℕ, suc, ◌+◌, ◌≤◌, ◌<◌, ◌≡◌, refl, sym, ap, subst, ◌∙◌, ◌⊎◌, inl, inr, List, [], ◌∷◌, ◌++◌, true,
  false, ◌==◌, ltb, arith, length, All, contains, Bool-cases, ==_iff, ltb→lt, All-append,
  length-append, append_assoc,
}
use cobalt_rs.Message.{Message, ordered}
use cobalt_rs.MessageQueue.{
  MessageQueue, next_order_id, heap_push, set_remove, release, receive_ordered_message,
  receive_message, receive_messages,
}
use cobalt_rs.MessageQueue.Heap.{
  orders, Above, Above-mono, contains-Above, contains-set_remove, contains-heap_push,
  heap_push-Above, heap_push-All,
}
use cobalt_rs.MessageQueue.Ordering.Window.{
  count_up, Elem, next_order_id_lem, more_recent_in_window, Good, orders-snoc,
}

module _ {F : Type 0} (base : ℕ) (start everything : List Message) where
  -- After the messages of `everything` but those of `pending`: `handed` is what was handed over
  -- behind `start`, and the heap holds what came early, all ids above `floor`.
  pub record Inv (floor : ℕ) (pending handed : List Message) (q : MessageQueue F) : Type 0 where
    pub delivered : q.recv_queue ≡ start ++ handed
    pub ids : orders handed ≡ count_up base (length handed)
    pub from : All (λ m. Elem m everything) handed
    pub remote : q.remote_order_id ≡ base + length handed
    pub remote_le : q.remote_order_id ≤ base + 2048
    pub heap_above : Above floor q.o_recv_heap
    pub heap_good : All (Good base everything) q.o_recv_heap
    pub set_heap : (x : ℕ) → contains x q.o_recv_set ≡ contains x (orders q.o_recv_heap)
    pub seen :
        (x : ℕ)
        → contains x (orders everything) ≡ true
        → (x < q.remote_order_id)
          ⊎ (contains x (orders q.o_recv_heap) ≡ true)
          ⊎ (contains x (orders pending) ≡ true)

  abbrev pub Settled : List Message → MessageQueue F → Type 0
  Settled pending q = (handed : List Message) × Inv q.remote_order_id pending handed q

  pub nothing_left :
      (handed : List Message) (q : MessageQueue F)
      → Inv q.remote_order_id [] handed q
      → contains (base + length handed) (orders everything) ≡ false
  nothing_left handed q v = rw (← v.remote) (
      ground (
        arith,
        v.seen q.remote_order_id,
        contains-Above q.remote_order_id q.remote_order_id q.o_recv_heap v.heap_above,
      ))

  module _ (fits : base + 2048 ≤ 4095) where
    -- One round of the loop over the heap.
    round_Inv :
        (floor : ℕ) (pending handed : List Message) (msg : Message) (heap : List Message)
        (q : MessageQueue F)
        → q.o_recv_heap ≡ msg ∷ heap
        → q.remote_order_id ≡ suc floor
        → msg.order ≡ q.remote_order_id
        → Inv floor pending handed q
        → Inv (suc floor) pending (handed ++ msg ∷ []) (record q {
          o_recv_set = set_remove q.remote_order_id q.o_recv_set;
          o_recv_heap = heap;
          recv_queue = q.recv_queue ++ msg ∷ [];
          remote_order_id = next_order_id q.remote_order_id;
        })
    round_Inv floor pending handed msg heap q e r o v =
        let above : Above floor (msg ∷ heap) = subst (Above floor) e v.heap_above in
        let good : All (Good base everything) (msg ∷ heap) =
          subst (All (Good base everything)) e v.heap_good in
        let next = next_order_id_lem q.remote_order_id (omega arith) in
        record {
          delivered = ap (λ t. t ++ msg ∷ []) v.delivered ∙ append_assoc start handed (msg ∷ []);
          ids = orders-snoc base handed msg v.ids (o ∙ v.remote);
          from = All-append _ handed (msg ∷ []) v.from (good.0.1, tt);
          remote = omega (arith, v.remote, next, length-append handed (msg ∷ []));
          remote_le = omega (arith, next, good.0.0.1);
          heap_above = Above-mono heap (omega arith) above.1;
          heap_good = good.1;
          set_heap = λ x. ground (
            arith,
            contains-set_remove x q.remote_order_id q.o_recv_set,
            v.set_heap x ∙ ap (λ t. contains x (orders t)) e,
            contains-Above msg.order x heap above.1,
          );
          seen = λ x h. ground (arith, v.seen x h, ap (λ t. contains x (orders t)) e, next);
        }

    at_rest :
        (floor : ℕ) (pending handed : List Message) (q : MessageQueue F)
        → Above q.remote_order_id q.o_recv_heap
        → Inv floor pending handed q
        → Settled pending q
    at_rest floor pending handed q above v = (
      handed,
      record {
        delivered = v.delivered;
        ids = v.ids;
        from = v.from;
        remote = v.remote;
        remote_le = v.remote_le;
        heap_above = above;
        heap_good = v.heap_good;
        set_heap = v.set_heap;
        seen = v.seen;
      },
    )

    release-Settled :
        (floor : ℕ) (pending handed heap : List Message) (q : MessageQueue F)
        → q.o_recv_heap ≡ heap
        → q.remote_order_id ≡ suc floor
        → Inv floor pending handed q
        → Settled pending (release heap q)
    unfolding release
    release-Settled floor pending handed [] q e r v = at_rest floor pending handed q (rw e tt) v
    release-Settled floor pending handed (msg ∷ heap) q e r v =
        elim (Bool-cases (msg.order == q.remote_order_id)) [
          | inl t ↦
              let o : msg.order ≡ q.remote_order_id = (==_iff _ _).0 t in
              let bound : q.remote_order_id < 4095 =
                let good : All (Good base everything) (msg ∷ heap) =
                  subst (All (Good base everything)) e v.heap_good in
                omega (arith, good.0.0.1) in
              rw t (
                release-Settled (suc floor) pending (handed ++ msg ∷ []) heap _ refl
                  (omega (arith, next_order_id_lem q.remote_order_id bound))
                  (round_Inv floor pending handed msg heap q e r o v))
          | inr f ↦
              let above : Above floor (msg ∷ heap) = subst (Above floor) e v.heap_above in
              rw f (at_rest floor pending handed q (rw e (ground arith, above.1)) v)
        ]

    -- A message that is the next one: the queue before the loop over the heap.
    accept_Inv :
        (pending handed : List Message) (m : Message) (q : MessageQueue F)
        → Good base everything m
        → m.order ≡ q.remote_order_id
        → Inv q.remote_order_id (m ∷ pending) handed q
        → Inv q.remote_order_id pending (handed ++ m ∷ []) (record q {
          recv_queue = q.recv_queue ++ m ∷ [];
          remote_order_id = next_order_id q.remote_order_id;
        })
    accept_Inv pending handed m q g o v =
        let next = next_order_id_lem q.remote_order_id (omega (arith, g.0.1)) in
        record {
          delivered = ap (λ t. t ++ m ∷ []) v.delivered ∙ append_assoc start handed (m ∷ []);
          ids = orders-snoc base handed m v.ids (o ∙ v.remote);
          from = All-append _ handed (m ∷ []) v.from (g.1, tt);
          remote = omega (arith, v.remote, next, length-append handed (m ∷ []));
          remote_le = omega (arith, next, g.0.1);
          heap_above = v.heap_above;
          heap_good = v.heap_good;
          set_heap = v.set_heap;
          seen = λ x h. ground (arith, v.seen x h, next);
        }

    -- A message that came early.
    keep_Inv :
        (pending handed : List Message) (m : Message) (q : MessageQueue F)
        → Good base everything m
        → q.remote_order_id < m.order
        → contains m.order q.o_recv_set ≡ false
        → Inv q.remote_order_id (m ∷ pending) handed q
        → Inv q.remote_order_id pending handed (record q {
          o_recv_set = m.order ∷ q.o_recv_set;
          o_recv_heap = heap_push m q.o_recv_heap;
        })
    keep_Inv pending handed m q g later fresh v = record {
      delivered = v.delivered;
      ids = v.ids;
      from = v.from;
      remote = v.remote;
      remote_le = v.remote_le;
      heap_above =
          heap_push-Above q.remote_order_id m q.o_recv_heap v.heap_above later
            (sym (v.set_heap m.order) ∙ fresh);
      heap_good = heap_push-All _ m q.o_recv_heap v.heap_good g;
      set_heap = λ x. ground (arith, contains-heap_push x m q.o_recv_heap, v.set_heap x);
      seen = λ x h. ground (arith, contains-heap_push x m q.o_recv_heap, v.seen x h);
    }

    -- A message that was there before.
    drop_Inv :
        (pending handed : List Message) (m : Message) (q : MessageQueue F)
        → (m.order < q.remote_order_id) ⊎ (contains m.order (orders q.o_recv_heap) ≡ true)
        → Inv q.remote_order_id (m ∷ pending) handed q
        → Inv q.remote_order_id pending handed q
    drop_Inv pending handed m q old v = record {
      delivered = v.delivered;
      ids = v.ids;
      from = v.from;
      remote = v.remote;
      remote_le = v.remote_le;
      heap_above = v.heap_above;
      heap_good = v.heap_good;
      set_heap = v.set_heap;
      seen = λ x h. ground (arith, v.seen x h, old);
    }

    receive_Settled :
        (pending : List Message) (m : Message) (q : MessageQueue F)
        → Good base everything m
        → Settled (m ∷ pending) q
        → Settled pending (receive_ordered_message m q)
    unfolding receive_ordered_message
    receive_Settled pending m q g (handed, v) = elim (Bool-cases (m.order == q.remote_order_id)) [
      | inl t ↦
          let o : m.order ≡ q.remote_order_id = (==_iff _ _).0 t in
          rw t (
            release-Settled q.remote_order_id pending (handed ++ m ∷ []) q.o_recv_heap _ refl
              (omega (arith, g.0.1, next_order_id_lem q.remote_order_id))
              (accept_Inv pending handed m q g o v))
      | inr f ↦
          let recent =
            more_recent_in_window base m.order q.remote_order_id g.0.0 g.0.1
              (omega (arith, v.remote)) v.remote_le (ground arith) in
          elim (Bool-cases (ltb q.remote_order_id m.order)) [
            | inl later ↦ elim (Bool-cases (contains m.order q.o_recv_set)) [
              | inl old ↦
                  rw (f, recent, later, old)
                    (handed, drop_Inv pending handed m q (inr (sym (v.set_heap m.order) ∙ old)) v)
              | inr fresh ↦
                  rw (f, recent, later, fresh)
                    (handed, keep_Inv pending handed m q g (ltb→lt _ _ later) fresh v)
            ]
            | inr past ↦
                rw (f, recent, past) (handed, drop_Inv pending handed m q (inl (ground arith)) v)
          ]
    ]

    pub receive_messages-Settled :
        (ms : List Message) (q : MessageQueue F)
        → All (Good base everything) ms
        → All (λ m. m.kind ≡ ordered) ms
        → Settled ms q
        → Settled [] (receive_messages ms q)
    unfolding receive_messages receive_message
    receive_messages-Settled [] q g k s = s
    receive_messages-Settled (m ∷ ms) q g k s =
        receive_messages-Settled ms _ g.1 k.1
          (subst (λ t. Settled ms (receive_message t m q)) (sym k.0) (receive_Settled ms m q g.0 s))
