-- ===== src/MessageQueue/Ordering/Window.antt =====
-- src/shared/message_queue.rs: order ids in a window of half their range.
use cobalt_rs.Common.{
  ℕ, zero, suc, ◌+◌, ◌≤◌, ◌<◌, ◌≡◌, sym, ap, ap₂, ◌∙◌, ◌≢◌, ◌⊎◌, List, [], ◌∷◌, ◌++◌, ltb, arith,
  length, length-append,
}
use cobalt_rs.Message.{Message}
use cobalt_rs.MessageQueue.{next_order_id, order_is_more_recent}
use cobalt_rs.MessageQueue.Heap.{orders}
use mathlib.Core.List.{map-append}

-- base, base + 1, …: `n` ids.
abbrev pub count_up : ℕ → ℕ → List ℕ
count_up base zero = []
count_up base (suc n) = base ∷ count_up (base + 1) n

count_up-suc : (base n : ℕ) → count_up base (suc n) ≡ count_up base n ++ (base + n) ∷ []
count_up-suc base zero = ap (λ t. t ∷ []) (omega arith)
count_up-suc base (suc n) =
    ap (◌∷◌ base)
      (count_up-suc (base + 1) n ∙ ap (λ t. count_up (base + 1) n ++ t ∷ []) (omega arith))

abbrev pub Elem : Message → List Message → Type 0
Elem m [] = ⊥
Elem m (x ∷ xs) = (m ≡ x) ⊎ Elem m xs

-- The ids that can be told apart when the next expected one is at `base` at first.
abbrev pub InWindow : ℕ → Message → Type 0
InWindow base m = (base ≤ m.order) × (m.order < base + 2048)

pub next_order_id_lem : (id : ℕ) → id < 4095 → next_order_id id ≡ id + 1
unfolding next_order_id
next_order_id_lem id h = ground arith

pub more_recent_in_window :
    (base a r : ℕ)
    → base ≤ a
    → a < base + 2048
    → base ≤ r
    → r ≤ base + 2048
    → a ≢ r
    → order_is_more_recent a r ≡ ltb r a
unfolding order_is_more_recent
more_recent_in_window base a r h1 h2 h3 h4 ne = ground arith

abbrev pub Good : ℕ → List Message → Message → Type 0
Good base everything m = InWindow base m × Elem m everything

pub orders-snoc :
    (base : ℕ) (ms : List Message) (m : Message)
    → orders ms ≡ count_up base (length ms)
    → m.order ≡ base + length ms
    → orders (ms ++ m ∷ []) ≡ count_up base (length (ms ++ m ∷ []))
orders-snoc base ms m h e =
    map-append (λ (x : Message). x.order) ms (m ∷ [])
    ∙ ap₂ (λ (s : List ℕ) (t : ℕ). s ++ t ∷ []) h e
    ∙ sym (count_up-suc base (length ms))
    ∙ ap (count_up base) {x = suc (length ms)} (omega (arith, length-append ms (m ∷ [])))
