-- ===== src/MessageQueue/Follows.antt =====
-- src/shared/message_queue.rs: the ordered messages of a queue that receives messages of all kinds.
use cobalt_rs.Common.{
  ◌≡◌, refl, sym, ap, ap₂, subst, ◌∙◌, List, [], ◌∷◌, ◌++◌, append_assoc, All, ◌==◌, Bool-cases,
  inl, inr, not, ◌&&◌, contains, append-nil, if◌then◌else◌,
}
use cobalt_rs.Message.{MessageKind, instant, reliable, ordered, Message}
use cobalt_rs.MessageQueue.{
  MessageQueue, heap_push, release, receive_ordered_message, receive_message, receive_messages,
  order_is_more_recent, set_remove, next_order_id,
}
use cobalt_rs.MessageQueue.Heap.{heap_push-All}
use cobalt_rs.MessageQueue.Sends.{is_kind, HasKind, of_kind, of_kind-append}

module _ (taken : List Message) where
  snoc_ordered :
      (xs ms : List Message) (m : Message)
      → m.kind ≡ ordered
      → xs ≡ taken ++ of_kind ordered ms
      → xs ++ m ∷ [] ≡ taken ++ of_kind ordered (ms ++ m ∷ [])
  snoc_ordered xs ms m k h =
      ap (λ t. t ++ m ∷ []) h
      ∙ append_assoc taken (of_kind ordered ms) (m ∷ [])
      ∙ ap (◌++◌ taken)
          (ap (◌++◌ (of_kind ordered ms)) one ∙ sym (of_kind-append ordered ms (m ∷ [])))
    where
      one : m ∷ [] ≡ of_kind ordered (m ∷ [])
      one = rw k refl

  snoc_other :
      (xs ms : List Message) (m : Message)
      → of_kind ordered (m ∷ []) ≡ []
      → xs ≡ taken ++ of_kind ordered ms
      → xs ≡ taken ++ of_kind ordered (ms ++ m ∷ [])
  snoc_other xs ms m none h =
      h
      ∙ ap (◌++◌ taken) (
          sym (append-nil (of_kind ordered ms))
          ∙ ap (◌++◌ (of_kind ordered ms)) (sym none)
          ∙ sym (of_kind-append ordered ms (m ∷ [])))

alone :
    (m : Message) {k : MessageKind}
    → m.kind ≡ k
    → of_kind ordered (m ∷ []) ≡ (if is_kind ordered k then m ∷ [] else [])
alone m e = ap (λ k. if is_kind ordered k then m ∷ [] else []) e

module _ {F : Type 0} (taken : List Message) where
  -- `x` has received the ordered messages of `q`, and still has those that were taken from `q`.
  pub record Follows (q x : MessageQueue F) : Type 0 where
    pub queue_eq : x.recv_queue ≡ taken ++ of_kind ordered q.recv_queue
    pub remote_eq : x.remote_order_id ≡ q.remote_order_id
    pub heap_eq : x.o_recv_heap ≡ q.o_recv_heap
    pub set_eq : x.o_recv_set ≡ q.o_recv_set
    pub heap_kind : All (HasKind ordered) q.o_recv_heap

  release-Follows :
      (heap : List Message) (q x : MessageQueue F)
      → All (HasKind ordered) heap
      → Follows q x
      → Follows (release heap q) (release heap x)
  unfolding release
  release-Follows [] q x k f = f
  release-Follows (m ∷ heap) q x k f =
      let same : (m.order == x.remote_order_id) ≡ (m.order == q.remote_order_id) =
        ap (◌==◌ m.order) f.remote_eq in
      elim (Bool-cases (m.order == q.remote_order_id)) [
        | inl t ↦
            rw (t, same ∙ t, release)
              (release-Follows heap _ _ k.1 (record {
                queue_eq = snoc_ordered taken x.recv_queue q.recv_queue m k.0 f.queue_eq;
                remote_eq = ap next_order_id f.remote_eq;
                heap_eq = refl;
                set_eq = ap₂ set_remove f.remote_eq f.set_eq;
                heap_kind = k.1;
              }))
        | inr t ↦ rw (t, same ∙ t, release) f
      ]

  receive_ordered_message-Follows :
      (m : Message) (q x : MessageQueue F)
      → m.kind ≡ ordered
      → Follows q x
      → Follows (receive_ordered_message m q) (receive_ordered_message m x)
  unfolding receive_ordered_message
  receive_ordered_message-Follows m q x k f =
      let same : (m.order == x.remote_order_id) ≡ (m.order == q.remote_order_id) =
        ap (◌==◌ m.order) f.remote_eq in
      let keep : (order_is_more_recent m.order x.remote_order_id
            && not (contains m.order x.o_recv_set))
          ≡ (order_is_more_recent m.order q.remote_order_id
              && not (contains m.order q.o_recv_set)) =
        ap₂ (λ r s. order_is_more_recent m.order r && not (contains m.order s)) f.remote_eq
          f.set_eq in
      elim (Bool-cases (m.order == q.remote_order_id)) [
        | inl t ↦
            rw (t, same ∙ t)
              (subst
                (λ h.
                  Follows
                    (release q.o_recv_heap (record q {
                      recv_queue = q.recv_queue ++ m ∷ [];
                      remote_order_id = next_order_id q.remote_order_id;
                    }))
                    (release h (record x {
                      recv_queue = x.recv_queue ++ m ∷ [];
                      remote_order_id = next_order_id x.remote_order_id;
                    })))
                (sym f.heap_eq)
                (release-Follows q.o_recv_heap _ _ f.heap_kind (record {
                  queue_eq = snoc_ordered taken x.recv_queue q.recv_queue m k f.queue_eq;
                  remote_eq = ap next_order_id f.remote_eq;
                  heap_eq = f.heap_eq;
                  set_eq = f.set_eq;
                  heap_kind = f.heap_kind;
                })))
        | inr t ↦
            elim (Bool-cases (
              order_is_more_recent m.order q.remote_order_id
              && not (contains m.order q.o_recv_set))) [
                | inl u ↦
                    rw (t, same ∙ t, u, keep ∙ u)
                      (record {
                        queue_eq = f.queue_eq;
                        remote_eq = f.remote_eq;
                        heap_eq = ap (heap_push m) f.heap_eq;
                        set_eq = ap (◌∷◌ m.order) f.set_eq;
                        heap_kind = heap_push-All (HasKind ordered) m q.o_recv_heap f.heap_kind k;
                      })
                | inr u ↦ rw (t, same ∙ t, u, keep ∙ u) f
              ]
      ]

  other_kind :
      (m : Message) (q x : MessageQueue F)
      → of_kind ordered (m ∷ []) ≡ []
      → Follows q x
      → Follows (record q { recv_queue = q.recv_queue ++ m ∷ [] }) x
  other_kind m q x other f = record {
    queue_eq = snoc_other taken x.recv_queue q.recv_queue m other f.queue_eq;
    remote_eq = f.remote_eq;
    heap_eq = f.heap_eq;
    set_eq = f.set_eq;
    heap_kind = f.heap_kind;
  }

  receive_message-Follows :
      (k : MessageKind) (m : Message) (q x : MessageQueue F)
      → m.kind ≡ k
      → Follows q x
      → Follows (receive_message k m q) (receive_messages (of_kind ordered (m ∷ [])) x)
  unfolding receive_message receive_messages
  receive_message-Follows instant m q x e f =
      subst (λ t. Follows (receive_message instant m q) (receive_messages t x)) (sym (alone m e))
        (other_kind m q x (alone m e) f)
  receive_message-Follows reliable m q x e f =
      subst (λ t. Follows (receive_message reliable m q) (receive_messages t x)) (sym (alone m e))
        (other_kind m q x (alone m e) f)
  receive_message-Follows ordered m q x e f =
      subst (λ t. Follows (receive_message ordered m q) (receive_messages t x)) (sym (alone m e))
        (subst (λ k. Follows (receive_ordered_message m q) (receive_message k m x)) (sym e)
          (receive_ordered_message-Follows m q x e f))

  pub receive_messages-append :
      (ms ns : List Message) (q : MessageQueue F)
      → receive_messages (ms ++ ns) q ≡ receive_messages ns (receive_messages ms q)
  unfolding receive_messages
  receive_messages-append [] ns q = refl
  receive_messages-append (m ∷ ms) ns q = receive_messages-append ms ns (receive_message m.kind m q)

  -- The queue that receives the ordered messages only follows the queue that receives them all.
  pub receive_messages-Follows :
      (ms : List Message) (q x : MessageQueue F)
      → Follows q x
      → Follows (receive_messages ms q) (receive_messages (of_kind ordered ms) x)
  unfolding receive_messages
  receive_messages-Follows [] q x f = f
  receive_messages-Follows (m ∷ ms) q x f =
      subst (Follows (receive_messages (m ∷ ms) q))
        (sym (receive_messages-append (of_kind ordered (m ∷ [])) (of_kind ordered ms) x)
          ∙ ap (λ t. receive_messages t x) (sym (of_kind-append ordered (m ∷ []) ms)))
        (receive_messages-Follows ms _ _ (receive_message-Follows m.kind m q x refl f))
