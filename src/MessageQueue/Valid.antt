-- ===== src/MessageQueue/Valid.antt =====
-- src/shared/message_queue.rs: what always holds of a message queue.
use cobalt_rs.Common.{
  ℕ, ◌^◌, ◌<◌, ◌≡◌, refl, sym, ap, subst, List, [], ◌∷◌, All, length, arith, All-append,
  All-append_right, All-map, ◌==◌, Bool-cases, inl, inr, ◌&&◌, not, contains,
}
use cobalt_rs.Config.{Config}
use cobalt_rs.Message.{MessageKind, instant, reliable, ordered, Message, IsWellFormed}
use cobalt_rs.MessageQueue.{
  MessageQueue, next_order_id, new, outgoing, send, release, receive_ordered_message,
  receive_message, receive_messages, lose_message, lose_messages, order_is_more_recent,
}
use cobalt_rs.MessageQueue.Sends.{KindsMatch, Sends, of_kind}
use cobalt_rs.MessageQueue.Delivery.{WellFormed}

-- A message that may wait in the queue of the kind `k`.
pub record Fit (k : MessageKind) (m : Message) : Type 0 where
  pub kind_eq : m.kind ≡ k
  pub well : IsWellFormed m

next_order_id-lt : (id : ℕ) → id < 4096 → next_order_id id < 4096
unfolding next_order_id
next_order_id-lt id h = ground arith

module _ {F : Type 0} where
  -- The ids are in range, and each outgoing queue holds well-formed messages of its own kind.
  pub record IsValid (q : MessageQueue F) : Type 0 where
    pub local_lt : q.local_order_id < 4096
    pub remote_lt : q.remote_order_id < 4096
    pub fit_i : All (Fit instant) q.i_queue
    pub fit_r : All (Fit reliable) q.r_queue
    pub fit_o : All (Fit ordered) q.o_queue

  pub new-IsValid : (c : Config F) → IsValid (new c)
  unfolding new
  new-IsValid c = record {
    local_lt = omega arith;
    remote_lt = omega arith;
    fit_i = tt;
    fit_r = tt;
    fit_o = tt;
  }

  outgoing-Fit :
      (k : MessageKind) (payload : List ℕ) (q : MessageQueue F)
      → q.local_order_id < 4096
      → length payload < 2 ^ 16
      → Fit k (outgoing k payload q)
  unfolding outgoing
  outgoing-Fit k payload q h p = record {
    kind_eq = refl;
    well = record { order_lt = h; size_lt = omega arith; exact = omega arith };
  }

  pub send-IsValid :
      (k : MessageKind) (payload : List ℕ) (q : MessageQueue F)
      → length payload < 2 ^ 16
      → IsValid q
      → IsValid (send k payload q)
  unfolding send
  send-IsValid instant payload q p v = record {
    local_lt = v.local_lt;
    remote_lt = v.remote_lt;
    fit_i =
        All-append (Fit instant) q.i_queue (outgoing instant payload q ∷ []) v.fit_i
          (outgoing-Fit instant payload q v.local_lt p, tt);
    fit_r = v.fit_r;
    fit_o = v.fit_o;
  }
  send-IsValid reliable payload q p v = record {
    local_lt = v.local_lt;
    remote_lt = v.remote_lt;
    fit_i = v.fit_i;
    fit_r =
        All-append (Fit reliable) q.r_queue (outgoing reliable payload q ∷ []) v.fit_r
          (outgoing-Fit reliable payload q v.local_lt p, tt);
    fit_o = v.fit_o;
  }
  send-IsValid ordered payload q p v = record {
    local_lt = next_order_id-lt q.local_order_id v.local_lt;
    remote_lt = v.remote_lt;
    fit_i = v.fit_i;
    fit_r = v.fit_r;
    fit_o =
        All-append (Fit ordered) q.o_queue (outgoing ordered payload q ∷ []) v.fit_o
          (outgoing-Fit ordered payload q v.local_lt p, tt);
  }

  release-IsValid :
      (heap : List Message) (q : MessageQueue F) → IsValid q → IsValid (release heap q)
  unfolding release
  release-IsValid [] q v = v
  release-IsValid (m ∷ heap) q v = elim (Bool-cases (m.order == q.remote_order_id)) [
    | inl t ↦ rw t (
        release-IsValid heap _ (record {
          local_lt = v.local_lt;
          remote_lt = next_order_id-lt q.remote_order_id v.remote_lt;
          fit_i = v.fit_i;
          fit_r = v.fit_r;
          fit_o = v.fit_o;
        }))
    | inr f ↦ rw f v
  ]

  -- Only the ids and the outgoing queues matter.
  pub same_queues :
      (q q' : MessageQueue F)
      → q'.local_order_id < 4096
      → q'.remote_order_id < 4096
      → q'.i_queue ≡ q.i_queue
      → q'.r_queue ≡ q.r_queue
      → q'.o_queue ≡ q.o_queue
      → IsValid q
      → IsValid q'
  same_queues q q' l r ei er eo v = record {
    local_lt = l;
    remote_lt = r;
    fit_i = subst (All (Fit instant)) (sym ei) v.fit_i;
    fit_r = subst (All (Fit reliable)) (sym er) v.fit_r;
    fit_o = subst (All (Fit ordered)) (sym eo) v.fit_o;
  }

  receive_ordered_message-IsValid :
      (m : Message) (q : MessageQueue F) → IsValid q → IsValid (receive_ordered_message m q)
  unfolding receive_ordered_message
  receive_ordered_message-IsValid m q v = elim (Bool-cases (m.order == q.remote_order_id)) [
    | inl t ↦ rw t (
        release-IsValid q.o_recv_heap _ (
          same_queues q _ v.local_lt (next_order_id-lt q.remote_order_id v.remote_lt) refl refl refl
            v))
    | inr f ↦
        elim (Bool-cases
          (order_is_more_recent m.order q.remote_order_id && not (contains m.order q.o_recv_set))) [
            | inl t ↦ rw (f, t) (same_queues q _ v.local_lt v.remote_lt refl refl refl v)
            | inr t ↦ rw (f, t) v
          ]
  ]

  receive_message-IsValid :
      (k : MessageKind) (m : Message) (q : MessageQueue F)
      → IsValid q
      → IsValid (receive_message k m q)
  unfolding receive_message
  receive_message-IsValid instant m q v = same_queues q _ v.local_lt v.remote_lt refl refl refl v
  receive_message-IsValid reliable m q v = same_queues q _ v.local_lt v.remote_lt refl refl refl v
  receive_message-IsValid ordered m q v = receive_ordered_message-IsValid m q v

  pub receive_messages-IsValid :
      (ms : List Message) (q : MessageQueue F) → IsValid q → IsValid (receive_messages ms q)
  unfolding receive_messages
  receive_messages-IsValid [] q v = v
  receive_messages-IsValid (m ∷ ms) q v =
      receive_messages-IsValid ms _ (receive_message-IsValid m.kind m q v)

  lose_message-IsValid :
      (k : MessageKind) (m : Message) (q : MessageQueue F)
      → m.kind ≡ k
      → IsWellFormed m
      → IsValid q
      → IsValid (lose_message k m q)
  unfolding lose_message
  lose_message-IsValid instant m q e w v = v
  lose_message-IsValid reliable m q e w v = record {
    local_lt = v.local_lt;
    remote_lt = v.remote_lt;
    fit_i = v.fit_i;
    fit_r = (record { kind_eq = e; well = w }, v.fit_r);
    fit_o = v.fit_o;
  }
  lose_message-IsValid ordered m q e w v = record {
    local_lt = v.local_lt;
    remote_lt = v.remote_lt;
    fit_i = v.fit_i;
    fit_r = v.fit_r;
    fit_o = (record { kind_eq = e; well = w }, v.fit_o);
  }

  pub lose_messages-IsValid :
      (ms : List Message) (q : MessageQueue F)
      → All IsWellFormed ms
      → IsValid q
      → IsValid (lose_messages ms q)
  unfolding lose_messages
  lose_messages-IsValid [] q w v = v
  lose_messages-IsValid (m ∷ ms) q w v =
      lose_messages-IsValid ms _ w.1 (lose_message-IsValid m.kind m q refl w.0 v)

  pub Sends-IsValid :
      {q q' : MessageQueue F} {p p' : List ℕ} {n n' : ℕ} (out : List Message)
      → Sends q p n q' p' n' out
      → IsValid q
      → IsValid q'
  Sends-IsValid {q} {q'} out s v = record {
    local_lt = rw (ap (λ x. x.local_order_id) s.others) v.local_lt;
    remote_lt = rw (ap (λ x. x.remote_order_id) s.others) v.remote_lt;
    fit_i =
        All-append_right _ (of_kind instant out) q'.i_queue
          (subst (All (Fit instant)) s.sends_i v.fit_i);
    fit_r =
        All-append_right _ (of_kind reliable out) q'.r_queue
          (subst (All (Fit reliable)) s.sends_r v.fit_r);
    fit_o =
        All-append_right _ (of_kind ordered out) q'.o_queue
          (subst (All (Fit ordered)) s.sends_o v.fit_o);
  }

  pub IsValid-KindsMatch : {q : MessageQueue F} → IsValid q → KindsMatch q
  IsValid-KindsMatch {q} v = record {
    all_i = All-map (λ m h. h.kind_eq) q.i_queue v.fit_i;
    all_r = All-map (λ m h. h.kind_eq) q.r_queue v.fit_r;
    all_o = All-map (λ m h. h.kind_eq) q.o_queue v.fit_o;
  }

  pub IsValid-WellFormed : {q : MessageQueue F} → IsValid q → WellFormed q
  IsValid-WellFormed {q} v = record {
    well_i = All-map (λ m h. h.well) q.i_queue v.fit_i;
    well_r = All-map (λ m h. h.well) q.r_queue v.fit_r;
    well_o = All-map (λ m h. h.well) q.o_queue v.fit_o;
  }
