-- ===== src/MessageQueue/Heap.antt =====
-- The heap and the set of messages that wait for their turn.
use cobalt_rs.Common.{
  ℕ, ◌≤◌, ◌<◌, ◌≡◌, refl, List, [], ◌∷◌, false, ◌||◌, ◌==◌, ltb, if◌then◌else◌, arith, All, map,
  contains, Bool-cases, inl, inr,
}
use cobalt_rs.Message.{Message}
use cobalt_rs.MessageQueue.{heap_push, set_remove}

abbrev pub orders : List Message → List ℕ
orders ms = map (λ m. m.order) ms

-- The order ids rise, and all are above `n`.
abbrev pub Above : ℕ → List Message → Type 0
Above n [] = Unit {0}
Above n (m ∷ ms) = (n < m.order) × Above m.order ms

pub Above-mono : {n k : ℕ} (ms : List Message) → k ≤ n → Above n ms → Above k ms
Above-mono [] h a = tt
Above-mono (m ∷ ms) h a = (omega arith, a.1)

pub contains-Above :
    (n k : ℕ) (ms : List Message) → Above n ms → k ≤ n → contains k (orders ms) ≡ false
contains-Above n k [] a h = refl
contains-Above n k (m ∷ ms) a h = ground (arith, contains-Above m.order k ms a.1)

pub contains-set_remove :
    (x id : ℕ) (s : List ℕ)
    → contains x (set_remove id s) ≡ (if x == id then false else contains x s)
unfolding set_remove
contains-set_remove x id [] = ground arith
contains-set_remove x id (y ∷ s) = ground (arith, contains-set_remove x id s)

pub contains-heap_push :
    (x : ℕ) (m : Message) (heap : List Message)
    → contains x (orders (heap_push m heap)) ≡ (x == m.order || contains x (orders heap))
unfolding heap_push
contains-heap_push x m [] = refl
contains-heap_push x m (y ∷ heap) = ground (arith, contains-heap_push x m heap)

pub heap_push-Above :
    (n : ℕ) (m : Message) (heap : List Message)
    → Above n heap
    → n < m.order
    → contains m.order (orders heap) ≡ false
    → Above n (heap_push m heap)
unfolding heap_push
heap_push-Above n m [] a h e = (h, tt)
heap_push-Above n m (y ∷ heap) a h e = ground (arith, heap_push-Above y.order m heap a.1)

pub heap_push-All {ℓ} :
    (P : Message → Type ℓ) (m : Message) (heap : List Message)
    → All P heap
    → P m
    → All P (heap_push m heap)
unfolding heap_push
heap_push-All P m [] a h = (h, tt)
heap_push-All P m (y ∷ heap) a h = elim (Bool-cases (ltb y.order m.order)) [
  | inl e ↦ rw e (a.0, heap_push-All P m heap a.1 h)
  | inr e ↦ rw e (h, a)
]
