-- ===== src/Connection/Machine.antt =====
-- The states of a connection: which steps the operations take, and which events tell of them.
pub mod Receiving
pub mod Sending
pub mod Steps
use cobalt_rs.Common.{
  ℕ, ◌+◌, ◌-◌, ◌<◌, ◌≡◌, refl, sym, ap, subst, ◌∙◌, ◌≢◌, ◌⊎◌, inl, inr, Bool, true, false, List, [],
  ◌∷◌, ◌++◌, arith, Outcome, done, ltb, length, All, All-append, append-nil, append_assoc, returns,
  Bool-cases, ◌==◌, if◌then◌else◌,
}
use cobalt_rs.Traits.{Clock, Env, Socket}
use cobalt_rs.Connection.{
  Connection, ConnectionState, connecting, failed_to_connect, closing, ConnectionEvent, reset,
  close, is_open, state_open, push_event, has_protocol_header,
}
use cobalt_rs.Connection.Receive.{
  has_closure_data, receive_in_state, update_receive_state, receive_packet,
}
use cobalt_rs.Connection.Send.{send_in_state, update_send_state, send_packet, fail_with}

-- A step of the state by a packet that arrives (`by_packet`) or by the time that has passed, with
-- the event that it emits.
pub data Edge : ConnectionState → ConnectionState → ConnectionEvent → Type 0 where
  establish : Edge connecting ConnectionState.connected ConnectionEvent.connected
  fail : Edge connecting failed_to_connect ConnectionEvent.failed_to_connect
  lose :
      (by_remote : Bool)
      → Edge ConnectionState.connected ConnectionState.lost (ConnectionEvent.lost by_remote)
  close_remote : Edge ConnectionState.connected ConnectionState.closed (ConnectionEvent.closed true)
  close_local : Edge closing ConnectionState.closed (ConnectionEvent.closed false)

-- Events that tell of no step.
abbrev pub IsNote : ConnectionEvent → Type 0
IsNote (ConnectionEvent.packet_lost payload) = Unit
IsNote (ConnectionEvent.congestion_state_changed congested) = Unit
IsNote _ = ⊥

module _ {F R M A : Type 0} where
  -- `c'` is in the state of `c`, and has the further events `notes`.
  pub record Quiet (c c' : Connection F R M A) (notes : List ConnectionEvent) : Type 0 where
    pub same : c'.state ≡ c.state
    pub noted : c'.events ≡ c.events ++ notes
    pub all_notes : All IsNote notes

  -- One step, and its event.
  pub record Stepped (c c' : Connection F R M A) (event : ConnectionEvent) : Type 0 where
    pub edge : Edge c.state c'.state event
    pub told : c'.events ≡ c.events ++ event ∷ []

  pub quiet :
      {c c' : Connection F R M A} → c'.state ≡ c.state → c'.events ≡ c.events → Quiet c c' []
  quiet {c} s e = record { same = s; noted = e ∙ sym (append-nil c.events); all_notes = tt }

  pub Quiet-trans :
      {c c' c'' : Connection F R M A} (ms ns : List ConnectionEvent)
      → Quiet c c' ms
      → Quiet c' c'' ns
      → Quiet c c'' (ms ++ ns)
  Quiet-trans {c} ms ns s t = record {
    same = t.same ∙ s.same;
    noted = t.noted ∙ ap (λ x. x ++ ns) s.noted ∙ append_assoc c.events ms ns;
    all_notes = All-append IsNote ms ns s.all_notes t.all_notes;
  }

  -- At most one step, whose event comes before the notes.
  abbrev pub Moves : Connection F R M A → Connection F R M A → Type 0
  Moves c c' =
      ((notes : List ConnectionEvent) × Quiet c c' notes)
      ⊎ ((m : Connection F R M A) × (event : ConnectionEvent) × (notes : List ConnectionEvent)
          × Stepped c m event
          × Quiet m c' notes)

  -- A check of the state, which steps or leaves the connection alone.
  abbrev pub Checked : Connection F R M A → Connection F R M A → Type 0
  Checked c c' =
      ((c'.state ≡ c.state) × (c'.events ≡ c.events))
      ⊎ ((event : ConnectionEvent) × Stepped c c' event)

  pub Checked-Quiet :
      {c c' c'' : Connection F R M A} (notes : List ConnectionEvent)
      → Checked c c'
      → Quiet c' c'' notes
      → Moves c c''
  Checked-Quiet notes (inl (s, e)) q = inl (notes, Quiet-trans [] notes (quiet s e) q)
  Checked-Quiet {c' = c'} notes (inr (event, st)) q = inr (c', event, notes, st, q)

  receive_in_state-Checked :
      (s : ConnectionState) (packet : List ℕ) (c : Connection F R M A)
      → c.state ≡ s
      → Checked c (receive_in_state s packet c).0
  unfolding receive_in_state push_event
  receive_in_state-Checked ConnectionState.lost packet c h = inl (refl, refl)
  receive_in_state-Checked ConnectionState.closed packet c h = inl (refl, refl)
  receive_in_state-Checked failed_to_connect packet c h = inl (refl, refl)
  receive_in_state-Checked closing packet c h = inl (refl, refl)
  receive_in_state-Checked connecting packet c h =
      inr (ConnectionEvent.connected, record { edge = rw h establish; told = refl })
  receive_in_state-Checked ConnectionState.connected packet c h =
      elim (Bool-cases (has_closure_data packet)) [
        | inl t ↦
            rw t
              (inr (ConnectionEvent.closed true, record { edge = rw h close_remote; told = refl }))
        | inr t ↦ rw t (inl (refl, refl))
      ]

  pub update_receive_state-Checked :
      (packet : List ℕ) (c : Connection F R M A) → Checked c (update_receive_state packet c).0
  unfolding update_receive_state
  update_receive_state-Checked packet c = elim (Bool-cases (has_protocol_header c.config packet)) [
    | inl t ↦ rw t (receive_in_state-Checked c.state packet c refl)
    | inr t ↦ rw t (inl (refl, refl))
  ]

  pub send_in_state-Checked :
      (s : ConnectionState) (rt st : ℕ) (c : Connection F R M A)
      → c.state ≡ s
      → Checked c (send_in_state s rt st c).0
  unfolding send_in_state fail_with push_event
  send_in_state-Checked ConnectionState.lost rt st c h = inl (refl, refl)
  send_in_state-Checked ConnectionState.closed rt st c h = inl (refl, refl)
  send_in_state-Checked failed_to_connect rt st c h = inl (refl, refl)
  send_in_state-Checked connecting rt st c h =
      elim (Bool-cases (ltb c.config.connection_init_threshold rt)) [
        | inl t ↦
            rw t (inr (ConnectionEvent.failed_to_connect, record { edge = rw h fail; told = refl }))
        | inr t ↦ rw t (inl (refl, refl))
      ]
  send_in_state-Checked ConnectionState.connected rt st c h =
      elim (Bool-cases (ltb c.config.connection_drop_threshold rt)) [
        | inl t ↦
            rw t (inr (ConnectionEvent.lost true, record { edge = rw h (lose true); told = refl }))
        | inr t ↦ elim (Bool-cases (ltb c.config.connection_drop_threshold st)) [
          | inl u ↦
              rw (t, u)
                (inr (ConnectionEvent.lost false, record { edge = rw h (lose false); told = refl }))
          | inr u ↦ rw (t, u) (inl (refl, refl))
        ]
      ]
  send_in_state-Checked closing rt st c h =
      elim (Bool-cases (ltb c.config.connection_closing_threshold rt)) [
        | inl t ↦
            rw t
              (inr (ConnectionEvent.closed false, record { edge = rw h close_local; told = refl }))
        | inr t ↦ rw t (inl (refl, refl))
      ]
