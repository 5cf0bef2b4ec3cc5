-- ===== src/Common/Panics.antt =====
-- What a run of the code comes to: a value, or a panic (an arithmetic overflow under overflow
-- checks, an index out of range, `unwrap` of nothing, `unreachable!`). `stuck` is no outcome of
-- the code: a loop of the model ran out of fuel.
use Prim.Native.Nat.{ℕ, ◌-◌, ◌/◌, ◌≤◌}
use mathlib.Core.Bool.{true}
use native.Mathlib.Omega.{arith}
use mathlib.Core.Path.{◌≡◌, refl, ap}
use mathlib.Core.Option.{Option, none, some}
use cobalt_rs.Common.Tests.{leb, ◌==◌, if◌then◌else◌}

pub data Outcome {ℓ} (A : Type ℓ) : Type ℓ where
  done : A → Outcome A
  panic : Outcome A
  stuck : Outcome A

infixl 5 ◌>>=◌ ◌>>◌
abbrev pub ◌>>=◌ {ℓ κ} : {A : Type ℓ} {B : Type κ} → Outcome A → (A → Outcome B) → Outcome B
done a >>= f = f a
panic >>= f = panic
stuck >>= f = stuck

abbrev pub ◌>>◌ {ℓ κ} : {A : Type ℓ} {B : Type κ} → Outcome A → Outcome B → Outcome B
m >> k = m >>= λ _. k

-- `a - b` on unsigned numbers.
abbrev pub checked_sub : ℕ → ℕ → Outcome ℕ
checked_sub a b = if leb b a then done (a - b) else panic

-- `a / b`, which panics for 0.
abbrev pub checked_div : ℕ → ℕ → Outcome ℕ
checked_div a b = if b == 0 then panic else done (a / b)

-- `o.unwrap()`.
abbrev pub unwrap {ℓ} : {A : Type ℓ} → Option A → Outcome A
unwrap none = panic
unwrap (some a) = done a

from_done {ℓ} : {A : Type ℓ} → A → Outcome A → A
from_done d (done a) = a
from_done d panic = d
from_done d stuck = d

pub done-injective {ℓ} : {A : Type ℓ} {a b : A} → done a ≡ done b → a ≡ b
unfolding from_done
done-injective {a = a} h = ap (from_done a) h

-- A sequence that returns: its first part returns, and what follows it does.
pub returns {ℓ κ} :
    {A : Type ℓ} {B : Type κ} (first : Outcome A) {next : A → Outcome B} {r : B}
    → (first >>= next) ≡ done r
    → (x : A) × (first ≡ done x) × (next x ≡ done r)
returns (done x) run = (x, refl, run)
returns panic run = cc
returns stuck run = cc

-- The code returns, and what it returns satisfies `P`.
abbrev pub Returns {ℓ κ} : {A : Type ℓ} → Outcome A → (A → Type κ) → Type (ℓ ⊔ κ)
Returns {A = A} o P = (x : A) × (o ≡ done x) × P x

pub given {ℓ κ} : {A : Type ℓ} {P : A → Type κ} {x : A} → P x → Returns (done x) P
given {x = x} p = (x, refl, p)

pub after {ℓ κ μ ν} :
    {A : Type ℓ} {B : Type κ} {P : A → Type μ} {Q : B → Type ν} {first : Outcome A}
    {next : A → Outcome B}
    → Returns first P
    → ((x : A) → P x → Returns (next x) Q)
    → Returns (first >>= next) Q
after r step = let (x, e, p) = r in rw e (step x p)

pub checked_sub-Returns : (a b : ℕ) → b ≤ a → Returns (checked_sub a b) (λ d. d ≡ a - b)
checked_sub-Returns a b h = let yes : leb b a ≡ true = ground arith in rw yes (given refl)
