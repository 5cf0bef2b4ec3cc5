-- ===== src/Connection.antt =====
-- src/shared/connection.rs: a connection and its operations. Those that call the clock take its
-- readings; packets are lists of bytes. `receive_packet` and `send_packet` have modules of their own.

pub mod Receive
pub mod Send
pub mod Machine
pub mod Steady
pub mod Names
pub mod Uses
pub mod Invariant
pub mod Waiting
pub mod Delivery
pub mod Unreceived
pub mod Closing
pub mod Ready
pub mod Histories
use cobalt_rs.Common.{
  ℕ, ◌+◌, ◌*◌, ◌/◌, ◌%◌, ◌^◌, max, List, [], ◌∷◌, ◌++◌, Bool, true, false, ◌&&◌, ltb, leb, ◌==◌,
  if◌then◌else◌, Option, none, some, map, length, get_or,
}
use cobalt_rs.Config.{Config, FloatOps}
use cobalt_rs.Message.{MessageKind}
use cobalt_rs.MessageQueue
use cobalt_rs.MessageQueue.{MessageQueue}
use cobalt_rs.Sequence.{u32_from_bytes}
use cobalt_rs.Traits.{Clock, Env}

abbrev pub packet_header_size : ℕ
packet_header_size = 14

abbrev pub closure_packet_data : List ℕ
closure_packet_data = 0 ∷ 128 ∷ 85 ∷ 85 ∷ 85 ∷ 85 ∷ []

pub data PacketState : Type 0 where
  unknown acked lost : PacketState

pub record SentPacketAck : Type 0 where
  pub seq : ℕ
  pub time : ℕ
  pub state : PacketState
  pub packet : Option (List ℕ)

pub data ConnectionState : Type 0 where
  connecting connected failed_to_connect lost closing closed : ConnectionState

pub data ConnectionEvent : Type 0 where
  connected failed_to_connect : ConnectionEvent
  lost closed : Bool → ConnectionEvent
  message : List ℕ → ConnectionEvent
  packet_lost : List ℕ → ConnectionEvent
  congestion_state_changed : Bool → ConnectionEvent

pub record Connection (F R M A : Type 0) : Type 0 where
  pub config : Config F
  pub random_id : ℕ
  pub state : ConnectionState
  pub local_address : A
  pub peer_address : A
  pub remote_seq_number : ℕ
  pub local_seq_number : ℕ
  pub smoothed_rtt : F
  pub last_receive_time : ℕ
  pub last_send_time : ℕ
  pub recv_ack_queue : List ℕ
  pub sent_ack_queue : List SentPacketAck
  pub sent_packets : ℕ
  pub recv_packets : ℕ
  pub lost_packets : ℕ
  pub acked_packets : ℕ
  pub message_queue : MessageQueue F
  pub rate_limiter : R
  pub packet_modifier : M
  pub events : List ConnectionEvent

-- `packet[i]`, where the length was checked before.
unfoldable pub byte_at : List ℕ → ℕ → ℕ
byte_at packet i = get_or packet i 0

-- `&packet[0..4] == &config.protocol_header`
unfoldable pub has_protocol_header : {F : Type 0} → Config F → List ℕ → Bool
unfolding byte_at
has_protocol_header config packet =
    byte_at packet 0 == config.protocol_header.0
    && byte_at packet 1 == config.protocol_header.1
    && byte_at packet 2 == config.protocol_header.2
    && byte_at packet 3 == config.protocol_header.3

unfoldable pub id_from_packet : {F : Type 0} → Config F → List ℕ → Option ℕ
unfolding has_protocol_header u32_from_bytes byte_at
id_from_packet config packet =
    if leb 8 (length packet) && has_protocol_header config packet
    then some
        (u32_from_bytes (byte_at packet 4) (byte_at packet 5) (byte_at packet 6) (byte_at packet 7))
    else none

-- `x.wrapping_add(1)` on a `u32`.
unfoldable pub wrapping_inc : ℕ → ℕ
wrapping_inc x = (x + 1) % 2 ^ 32

-- `(b.as_secs() as f32) * 1000.0 + (b.subsec_nanos() / 1000000) as f32`
unfoldable pub float_millis : {F : Type 0} → FloatOps F → ℕ → F
float_millis o d =
    o.fadd (o.fmul (o.of_nat (d / 10 ^ 9)) (o.of_nat 1000)) (o.of_nat (d % 10 ^ 9 / 1000000))

unfoldable pub moving_average : {F : Type 0} → FloatOps F → F → ℕ → F
unfolding float_millis
moving_average o a d =
    let b = float_millis o d in o.fmax (o.fsub a (o.fmul (o.fsub a b) o.tenth)) (o.of_nat 0)

abbrev pub state_open : ConnectionState → Bool
state_open closing = true
state_open connecting = true
state_open ConnectionState.connected = true
state_open _ = false

module _ {F R M A : Type 0} where
  -- The id is a random number, and the clock is read twice.
  unfoldable pub new : FloatOps F → Config F → ℕ → A → A → R → M → Clock → Connection F R M A
  new ops config random local_addr peer_addr rate_limiter packet_modifier clock = record {
    config = config;
    random_id = random;
    state = connecting;
    local_address = local_addr;
    peer_address = peer_addr;
    local_seq_number = 0;
    remote_seq_number = 0;
    smoothed_rtt = ops.of_nat 0;
    last_receive_time = clock 0;
    last_send_time = clock 1;
    recv_ack_queue = [];
    sent_ack_queue = [];
    sent_packets = 0;
    recv_packets = 0;
    acked_packets = 0;
    lost_packets = 0;
    message_queue = MessageQueue.new config;
    rate_limiter = rate_limiter;
    packet_modifier = packet_modifier;
    events = [];
  }

  unfoldable pub is_open : Connection F R M A → Bool
  is_open c = state_open c.state

  unfoldable pub congested : Env F R M → Connection F R M A → Bool
  congested e c = e.limiter.congested c.rate_limiter

  unfoldable pub set_id : ℕ → Connection F R M A → Connection F R M A
  set_id id c = record c { random_id = id }

  unfoldable pub rtt : FloatOps F → Connection F R M A → ℕ
  rtt o c = o.to_nat (o.ceil c.smoothed_rtt)

  unfoldable pub packet_loss : FloatOps F → Connection F R M A → F
  packet_loss o c =
      o.fmul (o.fdiv (o.of_nat 100) (o.of_nat (max c.sent_packets 1))) (o.of_nat c.lost_packets)

  unfoldable pub set_peer_addr : A → Connection F R M A → Connection F R M A
  set_peer_addr addr c = record c { peer_address = addr }

  unfoldable pub set_config : Config F → Connection F R M A → Connection F R M A
  set_config config c = record c {
    config = config;
    message_queue = MessageQueue.set_config config c.message_queue;
  }

  unfoldable pub send : MessageKind → List ℕ → Connection F R M A → Connection F R M A
  send kind payload c = record c { message_queue = MessageQueue.send kind payload c.message_queue }

  -- The events that are drained, with a message event for each message in the queue.
  unfoldable pub events : Connection F R M A → List ConnectionEvent × Connection F R M A
  events c =
      let (messages, queue) = MessageQueue.received c.message_queue in
      (c.events ++ map message messages, record c { events = []; message_queue = queue })

  unfoldable pub push_event : ConnectionEvent → Connection F R M A → Connection F R M A
  push_event e c = record c { events = c.events ++ e ∷ [] }

  unfoldable pub reset : Env F R M → Clock → Connection F R M A → Connection F R M A
  reset e clock c = record c {
    state = connecting;
    local_seq_number = 0;
    remote_seq_number = 0;
    smoothed_rtt = e.ops.of_nat 0;
    last_receive_time = clock 0;
    last_send_time = clock 1;
    recv_ack_queue = [];
    sent_ack_queue = [];
    sent_packets = 0;
    recv_packets = 0;
    acked_packets = 0;
    lost_packets = 0;
    message_queue = MessageQueue.reset c.message_queue;
    rate_limiter = e.limiter.reset_limiter c.rate_limiter (λ i. clock (i + 2));
  }

  unfoldable pub close : Connection F R M A → Connection F R M A
  close c = record c { state = closing }
