-- ===== src/Traits.antt =====
-- src/traits: what a connection is given. A method with `&mut self` returns the new value; one that
-- reads the clock is given the readings, by their number.
use cobalt_rs.Common.{ℕ, List, Bool, Option, none}
use cobalt_rs.Config.{Config, FloatOps}

-- The clock's reading at each point of a call that reads it.
abbrev pub Clock : Type 0
Clock = ℕ → ℕ

pub record RateLimiter (F R : Type 0) : Type 0 where
  pub new_limiter : Config F → Clock → R
  pub update : R → ℕ → F → Clock → R
  pub congested : R → Bool
  pub should_send : R → Bool
  pub reset_limiter : R → Clock → R

pub record PacketModifier (F M : Type 0) : Type 0 where
  pub new_modifier : Config F → M
  pub outgoing : M → List ℕ → Option (List ℕ) × M
  pub incoming : M → List ℕ → Option (List ℕ) × M

-- A socket of the type `S` and its addresses. `none` is an error of any kind.
pub record Socket (S A : Type 0) : Type 0 where
  pub new_socket : A → ℕ → Option S
  pub try_recv : S → Option (A × List ℕ) × S
  pub send_to : S → List ℕ → A → Option ℕ × S
  pub local_addr : S → Option A

-- What the code of a connection is generic in.
pub record Env (F R M : Type 0) : Type 0 where
  pub ops : FloatOps F
  pub limiter : RateLimiter F R
  pub modifier : PacketModifier F M

-- src/shared/noop_packet_modifier.rs, with the trait's default methods.
pub data NoopPacketModifier : Type 0 where
  noop : NoopPacketModifier

unfoldable pub default_outgoing : {M : Type 0} → M → List ℕ → Option (List ℕ) × M
default_outgoing m payload = (none, m)

unfoldable pub default_incoming : {M : Type 0} → M → List ℕ → Option (List ℕ) × M
default_incoming m payload = (none, m)

abbrev pub noop_packet_modifier : {F : Type 0} → PacketModifier F NoopPacketModifier
unfolding default_outgoing default_incoming
noop_packet_modifier = record {
  new_modifier = λ c. noop;
  outgoing = default_outgoing;
  incoming = default_incoming;
}
