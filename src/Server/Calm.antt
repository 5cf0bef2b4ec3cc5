-- ===== src/Server/Calm.antt =====
-- src/server.rs: connections whose events the server can map.
use cobalt_rs.Common.{
  ℕ, ◌≤◌, ◌<◌, ◌≡◌, refl, sym, subst, ◌∙◌, List, [], ◌∷◌, ◌++◌, map, All, Bool, true, false,
  Bool-cases, inl, inr, Returns, given, after,
}
use cobalt_rs.Traits.{Clock, Env}
use cobalt_rs.MessageQueue
use cobalt_rs.Connection as Peer
use cobalt_rs.Connection.{
  Connection, ConnectionState, connecting, failed_to_connect, closing, ConnectionEvent,
  id_from_packet, push_event, packet_header_size, byte_at, has_protocol_header,
}
use cobalt_rs.Connection.Receive.{
  receive_packet, receive_in_state, lose_payload, receive_payload, has_closure_data,
}
use cobalt_rs.Connection.Steady.{Steady, Unmoved, receive_packet-Unmoved}
use cobalt_rs.Connection.Invariant.{IsValid}
use cobalt_rs.Connection.Invariant.Accept.{IsByte, receive_packet_lem}
use cobalt_rs.Server.{ServerEvent, map_event, map_events, map_connection_events}

-- None of the events is a failure to connect, which the server takes for unreachable.
abbrev pub no_failure : List ConnectionEvent → Bool
no_failure [] = true
no_failure (ConnectionEvent.failed_to_connect ∷ es) = false
no_failure (_ ∷ es) = no_failure es

no_failure-snoc :
    (e : ConnectionEvent) (es : List ConnectionEvent)
    → no_failure (e ∷ []) ≡ true
    → no_failure (es ++ e ∷ []) ≡ no_failure es
no_failure-snoc e [] h = h
no_failure-snoc e (ConnectionEvent.connected ∷ es) h = no_failure-snoc e es h
no_failure-snoc e (ConnectionEvent.failed_to_connect ∷ es) h = refl
no_failure-snoc e (ConnectionEvent.lost b ∷ es) h = no_failure-snoc e es h
no_failure-snoc e (ConnectionEvent.closed b ∷ es) h = no_failure-snoc e es h
no_failure-snoc e (ConnectionEvent.message p ∷ es) h = no_failure-snoc e es h
no_failure-snoc e (ConnectionEvent.packet_lost p ∷ es) h = no_failure-snoc e es h
no_failure-snoc e (ConnectionEvent.congestion_state_changed b ∷ es) h = no_failure-snoc e es h

-- Events without a failure, and then messages, are mapped.
map_events-Returns :
    (id : ℕ) (es : List ConnectionEvent) (payloads : List (List ℕ)) (out : List ServerEvent)
    → no_failure es ≡ true
    → Returns {0, 0} (map_events id (es ++ map ConnectionEvent.message payloads) out) (λ r. Unit)
unfolding map_events map_event
map_events-Returns id [] [] out h = given tt
map_events-Returns id [] (p ∷ payloads) out h = map_events-Returns id [] payloads _ refl
map_events-Returns id (ConnectionEvent.connected ∷ es) payloads out h =
    map_events-Returns id es payloads _ h
map_events-Returns id (ConnectionEvent.failed_to_connect ∷ es) payloads out h = cc
map_events-Returns id (ConnectionEvent.lost b ∷ es) payloads out h =
    map_events-Returns id es payloads _ h
map_events-Returns id (ConnectionEvent.closed b ∷ es) payloads out h =
    map_events-Returns id es payloads _ h
map_events-Returns id (ConnectionEvent.message p ∷ es) payloads out h =
    map_events-Returns id es payloads _ h
map_events-Returns id (ConnectionEvent.packet_lost p ∷ es) payloads out h =
    map_events-Returns id es payloads _ h
map_events-Returns id (ConnectionEvent.congestion_state_changed b ∷ es) payloads out h =
    map_events-Returns id es payloads _ h

module _ {F R M A : Type 0} where
  -- What the loop needs of a connection.
  pub record Fine (now : ℕ) (k : Connection F R M A) : Type 0 where
    pub valid : IsValid now k
    pub rate : 0 < k.config.send_rate
    pub calm : no_failure k.events ≡ true

  abbrev calm : Connection F R M A → Bool
  calm k = no_failure k.events

  calm-Steady : Steady calm
  unfolding lose_payload push_event
  calm-Steady = record {
    on_ack = λ c n t. refl;
    on_loss = λ c n. refl;
    on_return = λ c packet. no_failure-snoc _ c.events refl;
  }

  receive_in_state-calm :
      (s : ConnectionState) (packet : List ℕ) (c : Connection F R M A)
      → no_failure (receive_in_state s packet c).0.events ≡ no_failure c.events
  unfolding receive_in_state push_event
  receive_in_state-calm ConnectionState.lost packet c = refl
  receive_in_state-calm ConnectionState.closed packet c = refl
  receive_in_state-calm failed_to_connect packet c = refl
  receive_in_state-calm closing packet c = refl
  receive_in_state-calm connecting packet c =
      no_failure-snoc ConnectionEvent.connected c.events refl
  receive_in_state-calm ConnectionState.connected packet c =
      elim (Bool-cases (has_closure_data packet)) [
        | inl t ↦ rw t (no_failure-snoc (ConnectionEvent.closed true) c.events refl)
        | inr t ↦ rw t refl
      ]

  calm-Unmoved : (e : Env F R M) → Unmoved e calm
  unfolding receive_payload
  calm-Unmoved e = record {
    steady = calm-Steady;
    on_state = receive_in_state-calm;
    on_accept = λ c now seq. refl;
    on_payload = λ c payload sent acks n. refl;
  }

  -- A packet of bytes keeps a connection fine.
  pub receive_packet-Fine :
      (e : Env F R M) (packet : List ℕ) (before : ℕ) (clock : Clock) (k : Connection F R M A)
      → All IsByte packet
      → before ≤ clock 0
      → Fine before k
      → Returns (receive_packet e packet clock k) (λ r. Fine (clock 0) r.0)
  receive_packet-Fine e packet before clock k is_bytes later fine =
      let (r, run, v) =
        receive_packet_lem e packet before clock k fine.rate is_bytes later fine.valid in
      (
        r,
        run,
        record {
          valid = v.0;
          rate = subst (λ c. 0 < c.send_rate) (sym v.1) fine.rate;
          calm = receive_packet-Unmoved e calm (calm-Unmoved e) packet clock k run ∙ fine.calm;
        },
      )

  pub map_connection_events-Fine :
      (es : List ServerEvent) (now : ℕ) (k : Connection F R M A)
      → Fine now k
      → Returns (map_connection_events es k) (λ r. Fine now r.1)
  unfolding map_connection_events Peer.events MessageQueue.received
  map_connection_events-Fine es now k fine =
      after
        (map_events-Returns k.random_id k.events (map (λ m. m.bytes) k.message_queue.recv_queue) es
          fine.calm)
        (λ r u. given (record {
          valid = record {
            local_lt = fine.valid.local_lt;
            remote_lt = fine.valid.remote_lt;
            received = fine.valid.received;
            acks_le = fine.valid.acks_le;
            sent = fine.valid.sent;
            kinds = record {
              all_i = fine.valid.kinds.all_i;
              all_r = fine.valid.kinds.all_r;
              all_o = fine.valid.kinds.all_o;
            };
          };
          rate = fine.rate;
          calm = refl;
        }))
