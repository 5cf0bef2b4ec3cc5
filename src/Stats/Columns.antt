-- ===== src/Stats/Columns.antt =====
-- src/shared/stats.rs: one count of all buckets, as a list of numbers.
use cobalt_rs.Common.{get_elem?, ℕ, zero, suc, ◌≡◌, refl, ap, List, [], ◌∷◌, some, map, arith}
use cobalt_rs.Stats.{Stats, replicate, update_at, default_stats}

pub get_elem-map :
    (f : Stats → ℕ) (xs : List Stats) (i x : ℕ)
    → get_elem? (map f xs) i ≡ some x
    → (b : Stats) × (get_elem? xs i ≡ some b) × (f b ≡ x)
get_elem-map f [] i x h = ground arith
get_elem-map f (b ∷ xs) zero x h = (b, refl, ground (arith, h))
get_elem-map f (b ∷ xs) (suc i) x h = get_elem-map f xs i x h

pub map-update_at :
    (f : Stats → ℕ) (g : Stats → Stats) (x i : ℕ) (xs : List Stats)
    → ((b : Stats) → f (g b) ≡ x)
    → map f (update_at i g xs) ≡ update_at i (λ y. x) (map f xs)
map-update_at f g x i [] h = refl
map-update_at f g x zero (b ∷ xs) h = ap (λ y. y ∷ map f xs) (h b)
map-update_at f g x (suc i) (b ∷ xs) h = ap (λ ys. f b ∷ ys) (map-update_at f g x i xs h)

pub map-update_same :
    (f : Stats → ℕ) (g : Stats → Stats) (i : ℕ) (xs : List Stats)
    → ((b : Stats) → f (g b) ≡ f b)
    → map f (update_at i g xs) ≡ map f xs
map-update_same f g i [] h = refl
map-update_same f g zero (b ∷ xs) h = ap (λ y. y ∷ map f xs) (h b)
map-update_same f g (suc i) (b ∷ xs) h = ap (λ ys. f b ∷ ys) (map-update_same f g i xs h)

pub map-replicate :
    (f : Stats → ℕ) (n : ℕ)
    → f default_stats ≡ 0
    → map f (replicate n default_stats) ≡ replicate n 0
map-replicate f zero h = refl
map-replicate f (suc n) h = rw (h, map-replicate f n h) refl
