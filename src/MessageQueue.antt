-- ===== src/MessageQueue.antt =====
-- src/shared/message_queue.rs: the queue that sends and receives the messages of a connection.
-- A `VecDeque` is a list, its front first. The binary heap is the list of its messages, the least
-- order id first, so `peek` is the head and `pop` the tail; the hash set is a list of ids.
pub mod Writer
pub mod Sends
pub mod Sending
pub mod Heap
pub mod Ordering
pub mod WrapAround
pub mod Loss
pub mod Delivery
pub mod Valid
pub mod Histories
pub mod Frame
pub mod Inbox
pub mod Follows
pub mod Channel
use Writer.{Written, write_message, write_messages}
use cobalt_rs.Common.{
  ℕ, zero, suc, ◌+◌, ◌%◌, ◌^◌, ◌-◌, ◌≤◌, ◌<◌, ◌/◌, ◌≡◌, List, [], ◌∷◌, ◌++◌, Bool, true, false,
  ◌&&◌, ◌||◌, not, ltb, leb, ◌==◌, if◌then◌else◌, map, length, contains, Outcome, done, panic,
  stuck, ◌>>=◌, Option, none, some,
}
use cobalt_rs.Config.{Config, FloatOps}
use cobalt_rs.Message.{
  MessageKind, instant, reliable, ordered, Message, max_order_id, messages_from_packet,
}

pub record MessageQueue (F : Type 0) : Type 0 where
  pub config : Config F
  pub local_order_id : ℕ
  pub remote_order_id : ℕ
  pub i_queue : List Message
  pub r_queue : List Message
  pub o_queue : List Message
  pub recv_queue : List Message
  pub o_recv_heap : List Message
  pub o_recv_set : List ℕ

-- `id += 1; if id == MAX_ORDER_ID { id = 0 }`
unfoldable pub next_order_id : ℕ → ℕ
next_order_id id = if id + 1 == max_order_id then 0 else id + 1

unfoldable pub order_is_more_recent : ℕ → ℕ → Bool
order_is_more_recent a b =
    (ltb b a && leb (a - b) (max_order_id / 2)) || (ltb a b && ltb (max_order_id / 2) (b - a))

-- `BinaryHeap::push`
unfoldable pub heap_push : Message → List Message → List Message
heap_push m [] = m ∷ []
heap_push m (x ∷ heap) = if ltb x.order m.order then x ∷ heap_push m heap else m ∷ x ∷ heap

-- `HashSet::remove`
unfoldable pub set_remove : ℕ → List ℕ → List ℕ
set_remove id [] = []
set_remove id (x ∷ xs) = if x == id then set_remove id xs else x ∷ set_remove id xs

-- `MessageIterator::next`
unfoldable pub next : List Message → Option (List ℕ) × List Message
next [] = (none, [])
next (m ∷ messages) = (some m.bytes, messages)

module _ {F : Type 0} where
  unfoldable pub new : Config F → MessageQueue F
  new config = record {
    config = config;
    local_order_id = 0;
    remote_order_id = 0;
    i_queue = [];
    r_queue = [];
    o_queue = [];
    recv_queue = [];
    o_recv_heap = [];
    o_recv_set = [];
  }

  unfoldable pub set_config : Config F → MessageQueue F → MessageQueue F
  set_config config q = record q { config = config }

  -- A loop over `received()` that takes everything.
  unfoldable pub received : MessageQueue F → List (List ℕ) × MessageQueue F
  received q = (map (λ m. m.bytes) q.recv_queue, record q { recv_queue = [] })

  unfoldable pub dismiss : MessageQueue F → MessageQueue F
  dismiss q = record q { recv_queue = [] }

  -- The message that `send` makes; its size is cast to a `u16`.
  unfoldable pub outgoing : MessageKind → List ℕ → MessageQueue F → Message
  outgoing kind payload q = record {
    kind = kind;
    order = q.local_order_id;
    size = length payload % 2 ^ 16;
    bytes = payload;
  }

  unfoldable pub send : MessageKind → List ℕ → MessageQueue F → MessageQueue F
  unfolding outgoing next_order_id
  send instant payload q = record q { i_queue = q.i_queue ++ outgoing instant payload q ∷ [] }
  send reliable payload q = record q { r_queue = q.r_queue ++ outgoing reliable payload q ∷ [] }
  send ordered payload q = record q {
    o_queue = q.o_queue ++ outgoing ordered payload q ∷ [];
    local_order_id = next_order_id q.local_order_id;
  }

  -- The loop over the heap: while its least message is the next expected one, hand that over.
  unfoldable pub release : List Message → MessageQueue F → MessageQueue F
  unfolding next_order_id set_remove
  release [] q = q
  release (msg ∷ heap) q =
      let rest = release heap (record q {
        o_recv_set = set_remove q.remote_order_id q.o_recv_set;
        o_recv_heap = heap;
        recv_queue = q.recv_queue ++ msg ∷ [];
        remote_order_id = next_order_id q.remote_order_id;
      }) in
      if msg.order == q.remote_order_id then rest else q

  unfoldable pub receive_ordered_message : Message → MessageQueue F → MessageQueue F
  unfolding release next_order_id order_is_more_recent heap_push
  receive_ordered_message m q =
      if m.order == q.remote_order_id
      then release q.o_recv_heap (record q {
        recv_queue = q.recv_queue ++ m ∷ [];
        remote_order_id = next_order_id q.remote_order_id;
      })
      else if order_is_more_recent m.order q.remote_order_id && not (contains m.order q.o_recv_set)
      then record q { o_recv_set = m.order ∷ q.o_recv_set; o_recv_heap = heap_push m q.o_recv_heap }
      else q

  unfoldable pub receive_message : MessageKind → Message → MessageQueue F → MessageQueue F
  unfolding receive_ordered_message
  receive_message instant m q = record q { recv_queue = q.recv_queue ++ m ∷ [] }
  receive_message reliable m q = record q { recv_queue = q.recv_queue ++ m ∷ [] }
  receive_message ordered m q = receive_ordered_message m q

  unfoldable pub receive_messages : List Message → MessageQueue F → MessageQueue F
  unfolding receive_message
  receive_messages [] q = q
  receive_messages (m ∷ ms) q = receive_messages ms (receive_message m.kind m q)

  unfoldable pub receive_packet : List ℕ → MessageQueue F → MessageQueue F
  unfolding receive_messages messages_from_packet
  receive_packet packet q = receive_messages (messages_from_packet packet) q

  unfoldable pub lose_message : MessageKind → Message → MessageQueue F → MessageQueue F
  lose_message instant m q = q
  lose_message reliable m q = record q { r_queue = m ∷ q.r_queue }
  lose_message ordered m q = record q { o_queue = m ∷ q.o_queue }

  unfoldable pub lose_messages : List Message → MessageQueue F → MessageQueue F
  unfolding lose_message
  lose_messages [] q = q
  lose_messages (m ∷ ms) q = lose_messages ms (lose_message m.kind m q)

  unfoldable pub lost_packet : List ℕ → MessageQueue F → MessageQueue F
  unfolding lose_messages messages_from_packet
  lost_packet packet q = lose_messages (messages_from_packet packet) q

  unfoldable pub reset : MessageQueue F → MessageQueue F
  reset q = record q {
    local_order_id = 0;
    remote_order_id = 0;
    i_queue = [];
    r_queue = [];
    o_queue = [];
    recv_queue = [];
    o_recv_heap = [];
    o_recv_set = [];
  }

  -- `(available as f32 / 100.0 * quota) as usize`
  unfoldable pub quota_bytes : FloatOps F → ℕ → F → ℕ
  quota_bytes o available quota =
      o.to_nat (o.fmul (o.fdiv (o.of_nat available) (o.of_nat 100)) quota)

  -- One pass of the loop that fills the packet, with the flag `more`.
  unfoldable pub fill_round :
      ℕ → MessageQueue F → List ℕ → ℕ → Outcome (MessageQueue F × List ℕ × ℕ × Bool)
  unfolding write_message
  fill_round available q packet written = do
    i ← write_message q.i_queue packet available written
    r ← write_message q.r_queue i.packet available i.written
    o ← write_message q.o_queue r.packet available r.written
    done (
      record q { i_queue = i.queue; r_queue = r.queue; o_queue = o.queue },
      o.packet,
      o.written,
      (i.more || r.more || o.more),
    )

  unfoldable pub fill_loop : ℕ → ℕ → MessageQueue F → List ℕ → ℕ → Outcome (MessageQueue F × List ℕ)
  unfolding fill_round
  fill_loop zero available q packet written = stuck
  fill_loop (suc fuel) available q packet written = do
    (q', packet', written', more) ← fill_round available q packet written
    elim more [ true ↦ fill_loop fuel available q' packet' written' | false ↦ done (q', packet') ]

  abbrev pub queued : MessageQueue F → ℕ
  queued q = length q.i_queue + length q.r_queue + length q.o_queue

  -- A pass that does not end the loop takes a message, so one pass more than there are messages
  -- is enough.
  unfoldable pub send_packet :
      FloatOps F → MessageQueue F → List ℕ → ℕ → Outcome (MessageQueue F × List ℕ)
  unfolding write_messages fill_loop quota_bytes
  send_packet ops q packet available = do
    i ← write_messages q.i_queue packet (quota_bytes ops available q.config.message_quota_instant) 0
    r ←
        write_messages q.r_queue i.packet
          (quota_bytes ops available q.config.message_quota_reliable) i.written
    o ←
        write_messages q.o_queue r.packet (quota_bytes ops available q.config.message_quota_ordered)
          r.written
    let q' = record q { i_queue = i.queue; r_queue = r.queue; o_queue = o.queue }
    fill_loop (suc (queued q')) available q' o.packet o.written
