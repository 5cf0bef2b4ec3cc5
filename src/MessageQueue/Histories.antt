-- ===== src/MessageQueue/Histories.antt =====
-- src/shared/message_queue.rs: what holds of a message queue after any history of calls.
use mathlib.Core.Option.{some-injective}
use cobalt_rs.Common.{
  ℕ, zero, suc, ◌^◌, ◌<◌, ◌≡◌, refl, sym, ap, subst, ◌∙◌, List, [], ◌∷◌, All, length, drop, some,
  done, arith, get_elem?, done-injective, drop-append_exact,
}
use cobalt_rs.Message.{serialize_all}
use cobalt_rs.Message.RoundTrip.{messages_from_packet-serialize_all}
use cobalt_rs.MessageQueue.Delivery.{Sends-IsWellFormed}
use cobalt_rs.Config.{Config, FloatOps}
use cobalt_rs.Message.{MessageKind, IsWellFormed, messages_from_packet}
use cobalt_rs.MessageQueue.{
  MessageQueue, new, set_config, received, dismiss, send, receive_packet, lost_packet, reset,
  send_packet,
}
use cobalt_rs.MessageQueue.Sending.{QuotasFit, send_packet_lem}
use cobalt_rs.MessageQueue.Valid.{
  IsValid, new-IsValid, send-IsValid, same_queues, receive_messages-IsValid, lose_messages-IsValid,
  Sends-IsValid, IsValid-KindsMatch, IsValid-WellFormed,
}

get_elem-All {ℓ} :
    {A : Type ℓ} (P : A → Type 0) (xs : List A) (i : ℕ) (x : A)
    → All P xs
    → get_elem? xs i ≡ some x
    → P x
get_elem-All P [] i x all at = cc
get_elem-All P (y ∷ xs) zero x all at = subst P (some-injective y x at) all.0
get_elem-All P (y ∷ xs) (suc i) x all at = get_elem-All P xs i x all.1 at

module _ {F : Type 0} where
  -- A packet that is written: the queue stays valid, and what follows the header is parsed into
  -- well-formed messages.
  send_packet-IsValid :
      (ops : FloatOps F) (q : MessageQueue F) {q' : MessageQueue F} (header : List ℕ)
      (available : ℕ) {packet : List ℕ}
      → QuotasFit ops q available
      → send_packet ops q header available ≡ done (q', packet)
      → IsValid q
      → IsValid q' × All IsWellFormed (messages_from_packet (drop (length header) packet))
  send_packet-IsValid ops q {q'} header available {packet} fit run v =
      let (q1, packet1, written, out, run1, s, within, full) =
        send_packet_lem ops q header available (IsValid-KindsMatch v) fit in
      let well = Sends-IsWellFormed out (IsValid-WellFormed v) s in
      let same = done-injective (sym run1 ∙ run) in
      let payload : drop (length header) packet ≡ serialize_all out =
        ap (λ x. drop (length header) x.1) (sym same)
        ∙ ap (drop (length header)) s.appended
        ∙ drop-append_exact header (serialize_all out) in
      (
        subst IsValid (ap (λ x. x.0) same) (Sends-IsValid out s v),
        subst (All IsWellFormed)
            (sym (ap messages_from_packet payload ∙ messages_from_packet-serialize_all out well))
            well,
      )

  -- A new queue after calls, and the payloads of the packets that it has written. Payloads of
  -- messages are below 64 KiB, the quotas fit in the available bytes, any packet is received, and a
  -- packet that is lost is one that was written.
  pub data Reach : MessageQueue F → List (List ℕ) → Type 0 where
    starts : (c : Config F) → Reach (new c) []
    sends :
        {q : MessageQueue F} {payloads : List (List ℕ)} (k : MessageKind) (payload : List ℕ)
        → Reach q payloads
        → length payload < 2 ^ 16
        → Reach (send k payload q) payloads
    writes :
        {q q' : MessageQueue F} {payloads : List (List ℕ)} {packet : List ℕ} (ops : FloatOps F)
        (header : List ℕ) (available : ℕ)
        → Reach q payloads
        → QuotasFit ops q available
        → send_packet ops q header available ≡ done (q', packet)
        → Reach q' (drop (length header) packet ∷ payloads)
    receives :
        {q : MessageQueue F} {payloads : List (List ℕ)} (packet : List ℕ)
        → Reach q payloads
        → Reach (receive_packet packet q) payloads
    loses :
        {q : MessageQueue F} {payloads : List (List ℕ)} (i : ℕ) (payload : List ℕ)
        → Reach q payloads
        → get_elem? payloads i ≡ some payload
        → Reach (lost_packet payload q) payloads
    hands_out :
        {q : MessageQueue F} {payloads : List (List ℕ)}
        → Reach q payloads
        → Reach (received q).1 payloads
    dismisses :
        {q : MessageQueue F} {payloads : List (List ℕ)}
        → Reach q payloads
        → Reach (dismiss q) payloads
    resets :
        {q : MessageQueue F} {payloads : List (List ℕ)}
        → Reach q payloads
        → Reach (reset q) payloads
    set_configs :
        {q : MessageQueue F} {payloads : List (List ℕ)} (c : Config F)
        → Reach q payloads
        → Reach (set_config c q) payloads

  Reach-both :
      {q : MessageQueue F} {payloads : List (List ℕ)}
      → Reach q payloads
      → IsValid q × All (λ p. All IsWellFormed (messages_from_packet p)) payloads
  unfolding receive_packet lost_packet received dismiss reset set_config
  Reach-both (starts c) = (new-IsValid c, tt)
  Reach-both (sends {q} k payload reach h) =
      let (v, well) = Reach-both reach in (send-IsValid k payload q h v, well)
  Reach-both (writes {q} ops header available reach fit run) =
      let (v, well) = Reach-both reach in
      let (v', written) = send_packet-IsValid ops q header available fit run v in
      (v', (written, well))
  Reach-both (receives {q} packet reach) =
      let (v, well) = Reach-both reach in
      (receive_messages-IsValid (messages_from_packet packet) q v, well)
  Reach-both (loses {q} {payloads} i payload reach at) =
      let (v, well) = Reach-both reach in
      let lost : All IsWellFormed (messages_from_packet payload) =
        get_elem-All (λ p. All IsWellFormed (messages_from_packet p)) payloads i payload well at in
      (lose_messages-IsValid (messages_from_packet payload) q lost v, well)
  Reach-both (hands_out {q} reach) =
      let (v, well) = Reach-both reach in
      (same_queues q _ v.local_lt v.remote_lt refl refl refl v, well)
  Reach-both (dismisses {q} reach) =
      let (v, well) = Reach-both reach in
      (same_queues q _ v.local_lt v.remote_lt refl refl refl v, well)
  Reach-both (resets reach) = (
    record { local_lt = omega arith; remote_lt = omega arith; fit_i = tt; fit_r = tt; fit_o = tt },
    (Reach-both reach).1,
  )
  Reach-both (set_configs {q} c reach) =
      let (v, well) = Reach-both reach in
      (same_queues q _ v.local_lt v.remote_lt refl refl refl v, well)

  -- Whatever calls are made on a new queue, its order ids stay below 4096, and its outgoing queues
  -- hold messages of their own kinds that the wire format can carry, those of lost packets included.
  -- The payloads given to `send` are below 64 KiB, the quotas fit in the available bytes, and what is
  -- lost is the payload of a packet that the queue wrote.
  pub Reach-IsValid : {q : MessageQueue F} {payloads : List (List ℕ)} → Reach q payloads → IsValid q
  Reach-IsValid reach = (Reach-both reach).0
