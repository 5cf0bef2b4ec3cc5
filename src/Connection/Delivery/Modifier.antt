-- ===== src/Connection/Delivery/Modifier.antt =====
-- src/shared/connection.rs and packet_modifier.rs: a packet that is modified, and its header.
use cobalt_rs.Common.{
  ℕ, zero, suc, ◌≤◌, ◌<◌, ◌≡◌, refl, ◌∙◌, inl, inr, List, [], ◌∷◌, ◌++◌, Bool, true, false, ◌&&◌,
  leb, length, take, drop, arith, Option, none, some, Option-cases, if◌then◌else◌,
}
use mathlib.Core.Option
use cobalt_rs.Sequence.{u32_from_bytes}
use cobalt_rs.Traits.{Env, PacketModifier}
use cobalt_rs.Connection.{
  Connection, packet_header_size, has_protocol_header, id_from_packet, byte_at,
}
use cobalt_rs.Connection.Send.{modify_packet}
use cobalt_rs.Config.{Config}

byte_at-take :
    (n i : ℕ) (packet rest : List ℕ)
    → i < n
    → n ≤ length packet
    → byte_at (take n packet ++ rest) i ≡ byte_at packet i
unfolding byte_at
byte_at-take zero i packet rest h l = omega arith
byte_at-take (suc n) i [] rest h l = omega arith
byte_at-take (suc n) zero (x ∷ packet) rest h l = refl
byte_at-take (suc n) (suc i) (x ∷ packet) rest h l =
    byte_at-take n i packet rest (omega arith) (omega arith)

drop-take :
    (n : ℕ) (packet rest : List ℕ) → n ≤ length packet → drop n (take n packet ++ rest) ≡ rest
drop-take zero packet rest l = refl
drop-take (suc n) [] rest l = ground arith
drop-take (suc n) (x ∷ packet) rest l = drop-take n packet rest (omega arith)

take-drop : (n : ℕ) (packet rest : List ℕ) → n ≤ length packet → n ≤ length (take n packet ++ rest)
take-drop zero packet rest l = omega arith
take-drop (suc n) [] rest l = omega arith
take-drop (suc n) (x ∷ packet) rest l = omega (arith, take-drop n packet rest (omega arith))

-- The payload `p` after a modifier, which gives nothing where it changes nothing.
abbrev pub changed : Option (List ℕ) → List ℕ → List ℕ
changed modified p = Option.get_or modified p

-- Whatever the states, `incoming` undoes `outgoing`.
abbrev pub Undoes : {F M : Type 0} → PacketModifier F M → Type 0
Undoes {M = M} modifier =
    (m m' : M) (p : List ℕ)
    → changed (modifier.incoming m' (changed (modifier.outgoing m p).0 p)).0
        (changed (modifier.outgoing m p).0 p)
      ≡ p

module _ {F : Type 0} where
  pub has_header-id :
      (config : Config F) (packet : List ℕ) (id : ℕ)
      → id_from_packet config packet ≡ some id
      → has_protocol_header config packet ≡ true
  unfolding id_from_packet
  has_header-id config packet id h =
      by_case (leb 8 (length packet)) (has_protocol_header config packet) h
    where
      by_case :
          (a b : Bool)
          → (if a && b
              then some (
                  u32_from_bytes
                    (byte_at packet 4)
                    (byte_at packet 5)
                    (byte_at packet 6)
                    (byte_at packet 7))
              else none)
            ≡ some id
          → b ≡ true
      by_case true true h' = refl
      by_case true false h' = cc
      by_case false b h' = cc

  pub same_header :
      (config config' : Config F) (packet packet' : List ℕ)
      → config'.protocol_header ≡ config.protocol_header
      → ((i : ℕ) → i < packet_header_size → byte_at packet' i ≡ byte_at packet i)
      → has_protocol_header config' packet' ≡ has_protocol_header config packet
  unfolding has_protocol_header
  same_header config config' packet packet' e same =
      rw (e, same 0 (omega arith), same 1 (omega arith), same 2 (omega arith), same 3 (omega arith))
        refl

module _ {F R M A : Type 0} where
  -- A modified packet keeps its header.
  pub record Modified (e : Env F R M) (c : Connection F R M A) (written packet : List ℕ)
      : Type 0 where
    pub still_long : packet_header_size ≤ length packet
    pub same_bytes : (i : ℕ) → i < packet_header_size → byte_at packet i ≡ byte_at written i
    pub new_payload :
        drop packet_header_size packet
        ≡ changed
            (e.modifier.outgoing c.packet_modifier (drop packet_header_size written)).0
            (drop packet_header_size written)

  pub modify_packet-Modified :
      (e : Env F R M) (written : List ℕ) (c : Connection F R M A)
      → packet_header_size ≤ length written
      → Modified e c written (modify_packet e written c).1
  unfolding modify_packet
  modify_packet-Modified e written c l =
      elim (Option-cases
        (e.modifier.outgoing c.packet_modifier (drop packet_header_size written)).0) [
          | inl n ↦
              rw (n, modify_packet)
                (record { still_long = l; same_bytes = λ i h. refl; new_payload = rw n refl })
          | inr (payload, n) ↦
              rw (n, modify_packet)
                (record {
                  still_long = take-drop 14 written payload l;
                  same_bytes = λ i h. byte_at-take 14 i written payload h l;
                  new_payload = drop-take 14 written payload l ∙ rw n refl;
                })
        ]
