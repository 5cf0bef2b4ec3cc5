-- ===== src/Server/Fine.antt =====
-- src/server.rs: the parts of the loop over the datagrams, and the connections of the server.
use cobalt_rs.Common.{
  ℕ, ◌≤◌, ◌<◌, ◌≡◌, refl, sym, subst, ◌∙◌, List, [], ◌∷◌, All, arith, Option, none, some, Bool,
  true, false, not, ◌&&◌, Bool-cases, inl, inr, if◌then◌else◌, ◌==◌, done, Returns, given, after,
}
use cobalt_rs.Common.{All-map, unwrap}
use mathlib.Core.Option.{some-injective}
use cobalt_rs.Config.{Config}
use cobalt_rs.Traits.{Clock}
use cobalt_rs.MessageQueue
use cobalt_rs.Connection as Peer
use cobalt_rs.Connection.{
  Connection, ConnectionState, connecting, failed_to_connect, closing, ConnectionEvent,
  id_from_packet, push_event, packet_header_size, byte_at, has_protocol_header,
}
use cobalt_rs.Connection.Invariant.Accept.{IsByte, IsValid-mono}
use cobalt_rs.Client.{Host, connection_of}
use cobalt_rs.Server.{Server, Table, lookup, insert, map_connection_events}
use cobalt_rs.Server.Receive.{receive_known, receive_new}
use cobalt_rs.Server.Calm.{Fine, receive_packet-Fine, map_connection_events-Fine}

module _ {F R M A : Type 0} where
  -- All connections are fine.
  abbrev pub AllFine : ℕ → Table (Connection F R M A) → Type 0
  AllFine now t = All (λ x. Fine now x.1) t

  Fine-mono : {before now : ℕ} (k : Connection F R M A) → before ≤ now → Fine before k → Fine now k
  Fine-mono k h fine = record {
    valid = IsValid-mono k h fine.valid;
    rate = fine.rate;
    calm = fine.calm;
  }

  pub AllFine-mono :
      {before now : ℕ} (t : Table (Connection F R M A))
      → before ≤ now
      → AllFine before t
      → AllFine now t
  AllFine-mono t h all = All-map (λ x fine. Fine-mono x.1 h fine) t all

  pub lookup-AllFine :
      (now id : ℕ) (t : Table (Connection F R M A)) (k : Connection F R M A)
      → AllFine now t
      → lookup id t ≡ some k
      → Fine now k
  lookup-AllFine now id [] k all at = cc
  lookup-AllFine now id ((key, k1) ∷ t) k all at = elim (Bool-cases (key == id)) [
    | inl same ↦ subst (Fine now) (some-injective k1 k (sym (rw same refl) ∙ at)) all.0
    | inr other ↦ lookup-AllFine now id t k all.1 (sym (rw other refl) ∙ at)
  ]

  insert-AllFine :
      (now id : ℕ) (k : Connection F R M A) (t : Table (Connection F R M A))
      → Fine now k
      → AllFine now t
      → AllFine now (insert id k t)
  insert-AllFine now id k [] fine all = (fine, tt)
  insert-AllFine now id k ((key, k1) ∷ t) fine all = elim (Bool-cases (key == id)) [
    | inl same ↦ rw (same, insert) (fine, all.1)
    | inr other ↦ rw (other, insert) (all.0, insert-AllFine now id k t fine all.1)
  ]

module _ {F R M S A : Type 0} where
  new-Fine :
      (h : Host F R M S A) (config : Config F) (random id now : ℕ) (local_addr addr : A)
      (clock : Clock)
      → 0 < config.send_rate
      → Fine now (Peer.set_id id (connection_of h config random local_addr addr clock))
  unfolding Peer.set_id connection_of Peer.new MessageQueue.new
  new-Fine h config random id now local_addr addr clock rate = record {
    valid = record {
      local_lt = omega arith;
      remote_lt = omega arith;
      received = tt;
      acks_le = omega arith;
      sent = tt;
      kinds = record { all_i = tt; all_r = tt; all_o = tt };
    };
    rate = rate;
    calm = refl;
  }

  -- After a part of the loop: the connections, and what it leaves alone.
  pub record Kept (now : ℕ) (s s' : Server F R M S A) : Type 0 where
    pub fine : AllFine now s'.connections
    pub same_config : s'.config ≡ s.config
    pub same_local : s'.local_address ≡ s.local_address

  pub receive_known-Kept :
      (h : Host F R M S A) (clock : Clock) (id : ℕ) (addr : A) (packet : List ℕ) (before : ℕ)
      (k : Connection F R M A) (s : Server F R M S A)
      → All IsByte packet
      → before ≤ clock 0
      → Fine before k
      → AllFine before s.connections
      → Returns (receive_known h clock id addr packet k s) (λ s'. Kept (clock 0) s s')
  unfolding receive_known Peer.set_peer_addr
  receive_known-Kept h clock id addr packet before k s is_bytes later fine all =
      after (receive_packet-Fine h.env packet before clock k is_bytes later fine) (λ r f.
        after
          (map_connection_events-Fine s.events (clock 0) _
            (moved_Fine (r.1 && not (h.same_addr addr r.0.peer_address)) r.0 f))
          (λ m g. given (record {
            fine =
                insert-AllFine (clock 0) id m.1 s.connections g
                  (AllFine-mono s.connections later all);
            same_config = refl;
            same_local = refl;
          })))
    where
      moved_Fine :
          (moved : Bool) (k : Connection F R M A)
          → Fine (clock 0) k
          → Fine (clock 0) (if moved then Peer.set_peer_addr addr k else k)
      moved_Fine true k f = record {
        valid = record {
          local_lt = f.valid.local_lt;
          remote_lt = f.valid.remote_lt;
          received = f.valid.received;
          acks_le = f.valid.acks_le;
          sent = f.valid.sent;
          kinds = f.valid.kinds;
        };
        rate = f.rate;
        calm = f.calm;
      }
      moved_Fine false k f = f

  pub receive_new-Kept :
      (h : Host F R M S A) (clocks : ℕ → Clock) (random id : ℕ) (addr local_addr : A)
      (packet : List ℕ) (before : ℕ) (s : Server F R M S A)
      → All IsByte packet
      → before ≤ clocks 1 0
      → 0 < s.config.send_rate
      → s.local_address ≡ some local_addr
      → AllFine before s.connections
      → Returns (receive_new h clocks random id addr packet s) (λ s'. Kept (clocks 1 0) s s')
  unfolding receive_new
  receive_new-Kept h clocks random id addr local_addr packet before s is_bytes later rate here all =
      after (local_known s.local_address here) (λ a same.
        after
          (receive_packet-Fine h.env packet before (clocks 1)
            (Peer.set_id id (connection_of h s.config random a addr (clocks 0))) is_bytes later
            (new-Fine h s.config random id before a addr (clocks 0) rate))
          (λ r f. after (mapped r.1 r.0 f) (λ m g. given (record {
            fine =
                insert-AllFine (clocks 1 0) id m.1 s.connections g
                  (AllFine-mono s.connections later all);
            same_config = refl;
            same_local = refl;
          }))))
    where
      local_known : (o : Option A) → o ≡ some local_addr → Returns (unwrap o) (λ a. a ≡ local_addr)
      local_known none e = cc
      local_known (some a) e = given (some-injective a local_addr e)

      mapped :
          (consumed : Bool) (k1 : Connection F R M A)
          → Fine (clocks 1 0) k1
          → Returns
              (if consumed then map_connection_events s.events k1 else done (s.events, k1))
              (λ m. Fine (clocks 1 0) m.1)
      mapped true k1 f = map_connection_events-Fine s.events (clocks 1 0) k1 f
      mapped false k1 f = given f
