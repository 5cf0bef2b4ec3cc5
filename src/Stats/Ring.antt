-- ===== src/Stats/Ring.antt =====
-- A ring of numbers that holds the last ones, newest last, and their sum: the abstract view of one
-- of the two counts of src/shared/stats.rs.
use cobalt_rs.Common.{
  ℕ, zero, suc, ◌+◌, ◌-◌, ◌%◌, ◌≤◌, ◌<◌, ◌≡◌, ◌≢◌, refl, sym, ap, ◌∙◌, List, [], ◌∷◌, some, length,
  arith, ltb, if◌then◌else◌, take, get_or, get_elem?, Bool-cases, inl, inr, ==_iff, ◌==◌,
}
use native.Mathlib.Nat.{mod-lt, mod_self, mod-eq_of_lt}
use cobalt_rs.Stats.{update_at, replicate}

abbrev pub sum : List ℕ → ℕ
sum [] = 0
sum (x ∷ xs) = x + sum xs

-- The index of the number that was put in `k` ticks before the last one.
abbrev pub slot : ℕ → ℕ → ℕ → ℕ
slot n tick k = if ltb k tick then tick - 1 - k else tick + n - 1 - k

-- The ring has the numbers `history`, newest first, and `total` is the sum of all but the oldest
-- of its `n` numbers.
pub record Ring (n tick : ℕ) (ring history : List ℕ) (total : ℕ) : Type 0 where
  pub size : length ring ≡ n
  pub two : 2 ≤ n
  pub tick_lt : tick < n
  pub slots : (k : ℕ) → k < n → get_elem? ring (slot n tick k) ≡ some (get_or history k 0)
  pub window : total ≡ sum (take (n - 1) history)

pub next_tick : (n tick : ℕ) → tick < n → (tick + 1) % n ≡ (if tick + 1 == n then 0 else tick + 1)
next_tick n tick h = elim (Bool-cases (tick + 1 == n)) [
  | inl t ↦ rw t (ap (λ x. x % n) ((==_iff _ _).0 t) ∙ mod_self n)
  | inr t ↦ let less : tick + 1 < n = ground arith in rw t (mod-eq_of_lt less)
]

sum-take-suc : (m : ℕ) (h : List ℕ) → sum (take (suc m) h) ≡ sum (take m h) + get_or h m 0
sum-take-suc zero [] = refl
sum-take-suc (suc m) [] = refl
sum-take-suc zero (x ∷ h) = omega arith
sum-take-suc (suc m) (x ∷ h) = omega (arith, sum-take-suc m h)

pub length-update_at : (i : ℕ) (f : ℕ → ℕ) (xs : List ℕ) → length (update_at i f xs) ≡ length xs
length-update_at i f [] = refl
length-update_at zero f (x ∷ xs) = refl
length-update_at (suc i) f (x ∷ xs) = ap suc (length-update_at i f xs)

get-update_same :
    (i b : ℕ) (xs : List ℕ) → i < length xs → get_elem? (update_at i (λ x. b) xs) i ≡ some b
get-update_same i b [] h = ground arith
get-update_same zero b (x ∷ xs) h = refl
get-update_same (suc i) b (x ∷ xs) h = get-update_same i b xs (omega arith)

get-update_other :
    (i j b : ℕ) (xs : List ℕ) → i ≢ j → get_elem? (update_at i (λ x. b) xs) j ≡ get_elem? xs j
get-update_other i j b [] h = refl
get-update_other zero zero b (x ∷ xs) h = ground (arith, h refl)
get-update_other zero (suc j) b (x ∷ xs) h = refl
get-update_other (suc i) zero b (x ∷ xs) h = refl
get-update_other (suc i) (suc j) b (x ∷ xs) h = get-update_other i j b xs (λ e. h (ap suc e))

-- What leaves the window at the next tick.
abbrev pub oldest : ℕ → List ℕ → ℕ
oldest n history = get_or history (n - 2) 0

pub Ring-oldest :
    {n tick total : ℕ} {ring history : List ℕ}
    → Ring n tick ring history total
    → (get_elem? ring ((tick + 1) % n) ≡ some (oldest n history))
      × (total ≡ sum (take (n - 2) history) + oldest n history)
Ring-oldest {n} {tick} {total} {ring} {history} r =
    let at : (tick + 1) % n ≡ slot n tick (n - 2) =
      next_tick n tick r.tick_lt ∙ ground (arith, r.two, r.tick_lt) in
    let more : n - 1 ≡ suc (n - 2) = omega (arith, r.two) in
    (
      ap (get_elem? ring) at ∙ r.slots (n - 2) (omega (arith, r.two)),
      r.window ∙ ap (λ m. sum (take m history)) more ∙ sum-take-suc (n - 2) history,
    )

pub Ring-step :
    {n tick total : ℕ} {ring history : List ℕ} (b total' : ℕ)
    → Ring n tick ring history total
    → total' ≡ b + sum (take (n - 2) history)
    → Ring n ((tick + 1) % n) (update_at tick (λ x. b) ring) (b ∷ history) total'
Ring-step {n} {tick} {total} {ring} {history} b total' r e = record {
  size = length-update_at tick (λ x. b) ring ∙ r.size;
  two = r.two;
  tick_lt = mod-lt (tick + 1) (omega (arith, r.two));
  slots = moved;
  window =
      let more : n - 1 ≡ suc (n - 2) = omega (arith, r.two) in
      e ∙ ap (λ m. sum (take m (b ∷ history))) (sym more);
}
  where
    moved :
        (k : ℕ)
        → k < n
        → get_elem? (update_at tick (λ x. b) ring) (slot n ((tick + 1) % n) k)
          ≡ some (get_or (b ∷ history) k 0)
    moved zero h =
        let at : slot n ((tick + 1) % n) 0 ≡ tick =
          ap (λ t. slot n t 0) (next_tick n tick r.tick_lt) ∙ ground (arith, r.two, r.tick_lt) in
        ap (get_elem? (update_at tick (λ x. b) ring)) at
        ∙ get-update_same tick b ring (omega (arith, r.size, r.tick_lt))
    moved (suc k) h =
        let at : slot n ((tick + 1) % n) (suc k) ≡ slot n tick k =
          ap (λ t. slot n t (suc k)) (next_tick n tick r.tick_lt)
          ∙ ground (arith, r.two, r.tick_lt) in
        ap (get_elem? (update_at tick (λ x. b) ring)) at
        ∙ get-update_other tick (slot n tick k) b ring (λ t. ground (arith, r.tick_lt))
        ∙ r.slots k (omega arith)

get_elem-replicate : (n i : ℕ) → i < n → get_elem? (replicate {A = ℕ} n 0) i ≡ some 0
get_elem-replicate zero i h = ground arith
get_elem-replicate (suc n) zero h = refl
get_elem-replicate (suc n) (suc i) h = get_elem-replicate n i (omega arith)

length-replicate : (n : ℕ) → length (replicate {A = ℕ} n 0) ≡ n
length-replicate zero = refl
length-replicate (suc n) = ap suc (length-replicate n)

take_nil : (m : ℕ) → sum (take m []) ≡ 0
take_nil zero = refl
take_nil (suc m) = refl

pub Ring-new : (n : ℕ) → 2 ≤ n → Ring n 0 (replicate {A = ℕ} n 0) [] 0
Ring-new n h = record {
  size = length-replicate n;
  two = h;
  tick_lt = omega arith;
  slots = λ k l. get_elem-replicate n (slot n 0 k) (ground arith);
  window = sym (take_nil (n - 1));
}

pub Ring-cast :
    {n n' t t' total total' : ℕ} {ring ring' history : List ℕ}
    → n' ≡ n
    → t' ≡ t
    → ring' ≡ ring
    → total' ≡ total
    → Ring n t ring history total
    → Ring n' t' ring' history total'
Ring-cast e f g h r = rw (e, f, g, h) r
