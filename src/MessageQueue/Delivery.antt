-- ===== src/MessageQueue/Delivery.antt =====
-- A packet from one queue to another.
use cobalt_rs.Common.{
  ℕ, ◌+◌, ◌≤◌, ◌≡◌, ap, subst, ◌∙◌, List, [], ◌∷◌, ◌++◌, All, length, length-append, done, arith,
  drop, drop-append_exact, if◌then◌else◌, All-append_left,
}
use cobalt_rs.Config.{FloatOps}
use cobalt_rs.Message.{
  MessageKind, instant, reliable, ordered, Message, IsWellFormed, serialize_all,
  messages_from_packet,
}
use cobalt_rs.Message.RoundTrip.{messages_from_packet-serialize_all}
use cobalt_rs.MessageQueue.{MessageQueue, receive_messages, receive_packet, send_packet}
use cobalt_rs.MessageQueue.Writer.Laws.{length-serialize_all}
use cobalt_rs.MessageQueue.Sends.{KindsMatch, Sends, of_kind, is_kind}
use cobalt_rs.MessageQueue.Sending.{QuotasFit, send_packet_lem}

-- A property of all messages of each kind is one of all messages.
All-of_kinds :
    (P : Message → Type 0) (ms : List Message)
    → All P (of_kind instant ms)
    → All P (of_kind reliable ms)
    → All P (of_kind ordered ms)
    → All P ms
All-of_kinds P [] i r o = tt
All-of_kinds P (m ∷ ms) i r o =
    let (h, i', r', o') = by_kind m.kind i r o in (h, All-of_kinds P ms i' r' o')
  where
    part : MessageKind → MessageKind → Type 0
    part k t = All P (if is_kind k t then m ∷ of_kind k ms else of_kind k ms)

    by_kind :
        (t : MessageKind)
        → part instant t
        → part reliable t
        → part ordered t
        → P m
          × All P (of_kind instant ms)
          × All P (of_kind reliable ms)
          × All P (of_kind ordered ms)
    by_kind instant i' r' o' = (i'.0, i'.1, r', o')
    by_kind reliable i' r' o' = (r'.0, i', r'.1, o')
    by_kind ordered i' r' o' = (o'.0, i', r', o'.1)

module _ {F : Type 0} where
  pub record WellFormed (q : MessageQueue F) : Type 0 where
    pub well_i : All IsWellFormed q.i_queue
    pub well_r : All IsWellFormed q.r_queue
    pub well_o : All IsWellFormed q.o_queue

  pub Sends-IsWellFormed :
      {q q' : MessageQueue F} {packet packet' : List ℕ} {n n' : ℕ} (out : List Message)
      → WellFormed q
      → Sends q packet n q' packet' n' out
      → All IsWellFormed out
  Sends-IsWellFormed {q' = q'} out w s =
      All-of_kinds IsWellFormed out
        (All-append_left _ (of_kind instant out) q'.i_queue
          (subst (All IsWellFormed) s.sends_i w.well_i))
        (All-append_left _ (of_kind reliable out) q'.r_queue
          (subst (All IsWellFormed) s.sends_r w.well_r))
        (All-append_left _ (of_kind ordered out) q'.o_queue
          (subst (All IsWellFormed) s.sends_o w.well_o))

  abbrev pub Delivers : FloatOps F → MessageQueue F → MessageQueue F → List ℕ → ℕ → Type 0
  Delivers ops q p header available =
      (q' : MessageQueue F) × (packet : List ℕ) × (out : List Message) × (send_packet ops q header
          available
        ≡ done (q', packet))
      × (length packet ≤ length header + available)
      × (receive_packet (drop (length header) packet) p ≡ receive_messages out p)
      × (q.i_queue ≡ of_kind instant out ++ q'.i_queue)
      × (q.r_queue ≡ of_kind reliable out ++ q'.r_queue)
      × (q.o_queue ≡ of_kind ordered out ++ q'.o_queue)

  -- A queue whose outgoing queues hold well-formed messages of their own kinds (order id below 4096,
  -- payload below 64 KiB), and whose quotas together fit in the available bytes, writes a packet behind any header, and another queue receives
  -- what follows the header: the packet has grown by `available` bytes at most, the receiver
  -- processes the very messages that left the sender's queues, in the packet's order, and per kind
  -- that is the order in which they were queued.
  pub send_packet-receive_packet :
      (ops : FloatOps F) (q p : MessageQueue F) (header : List ℕ) (available : ℕ)
      → KindsMatch q
      → WellFormed q
      → QuotasFit ops q available
      → Delivers ops q p header available
  unfolding receive_packet
  send_packet-receive_packet ops q p header available k w fit =
      let (q', packet, written, out, run, s, within, full) =
        send_packet_lem ops q header available k fit in
      let well = Sends-IsWellFormed out w s in
      let payload : drop (length header) packet ≡ serialize_all out =
        ap (drop (length header)) s.appended ∙ drop-append_exact header (serialize_all out) in
      (
        q',
        packet,
        out,
        run,
        omega (
          arith,
          ap length s.appended,
          length-append header (serialize_all out),
          length-serialize_all out well,
          s.counted,
        ),
        ap (λ t. receive_messages (messages_from_packet t) p) payload
            ∙ ap (λ t. receive_messages t p) (messages_from_packet-serialize_all out well),
        s.sends_i,
        s.sends_r,
        s.sends_o,
      )
