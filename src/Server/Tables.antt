-- ===== src/Server/Tables.antt =====
-- src/server.rs: the laws of the tables by connection id, in place of those of `HashMap`.
use cobalt_rs.Common.{
  ℕ, ◌≡◌, refl, sym, List, [], ◌∷◌, map, Option, none, some, true, false, ◌==◌, if◌then◌else◌,
  arith, contains, All, Bool-cases, inl, inr, ◌∙◌, ap,
}
use mathlib.Core.Option
use cobalt_rs.Server.{Table, lookup, remove, insert}

module _ {V : Type 0} where
  pub lookup-insert :
      (j id : ℕ) (v : V) (t : Table V)
      → lookup j (insert id v t) ≡ (if id == j then some v else lookup j t)
  lookup-insert j id v [] = refl
  lookup-insert j id v ((key, w) ∷ t) = ground (arith, lookup-insert j id v t)

  pub lookup-remove :
      (j id : ℕ) (t : Table V) → lookup j (remove id t) ≡ (if id == j then none else lookup j t)
  lookup-remove j id [] = ground arith
  lookup-remove j id ((key, w) ∷ t) = ground (arith, lookup-remove j id t)

  -- No key occurs twice.
  abbrev pub UniqueKeys : Table V → Type 0
  UniqueKeys [] = Unit
  UniqueKeys ((key, v) ∷ t) = (lookup key t ≡ none) × UniqueKeys t

  pub insert-UniqueKeys : (id : ℕ) (v : V) (t : Table V) → UniqueKeys t → UniqueKeys (insert id v t)
  insert-UniqueKeys id v [] u = (refl, tt)
  insert-UniqueKeys id v ((key, w) ∷ t) u = elim (Bool-cases (key == id)) [
    | inl same ↦ rw (same, insert) (ground arith, u.1)
    | inr other ↦
        rw (other, insert) (ground (arith, lookup-insert key id v t), insert-UniqueKeys id v t u.1)
  ]

  -- The ids are those of different entries.
  abbrev pub AllPresent : List ℕ → Table V → Type 0
  AllPresent [] t = Unit
  AllPresent (id ∷ ids) t =
      ((v : V) × (lookup id t ≡ some v)) × (contains id ids ≡ false) × AllPresent ids t

  pub AllPresent-absent :
      (id : ℕ) (ids : List ℕ) (t : Table V)
      → lookup id t ≡ none
      → AllPresent ids t
      → contains id ids ≡ false
  AllPresent-absent id [] t n p = refl
  AllPresent-absent id (x ∷ ids) t n p =
      let rest = AllPresent-absent id ids t n p.2 in let there = p.0.1 in ground arith

module _ {V W : Type 0} (f : V → W) where
  abbrev pub map_values : Table V → Table W
  map_values = map (λ x. (x.0, f x.1))

  pub lookup-map_values :
      (j : ℕ) (t : Table V) → lookup j (map_values t) ≡ Option.map f (lookup j t)
  lookup-map_values j [] = refl
  lookup-map_values j ((key, v) ∷ t) = ground (arith, lookup-map_values j t)

-- Ids of entries stay so if every entry that a table has is one of the other.
pub AllPresent-mono :
    {V W : Type 0} (ids : List ℕ) (t : Table V) (t' : Table W)
    → ((j : ℕ) (v : V)
        → contains j ids ≡ true
        → lookup j t ≡ some v
        → (w : W) × (lookup j t' ≡ some w))
    → AllPresent ids t
    → AllPresent ids t'
AllPresent-mono [] t t' keep p = tt
AllPresent-mono (id ∷ ids) t t' keep p = (
  keep id p.0.0 (ground arith) p.0.1,
  p.1,
  AllPresent-mono ids t t' (λ j v h. keep j v (ground arith)) p.2,
)

module _ {V : Type 0} where
  pub remove-UniqueKeys : (id : ℕ) (t : Table V) → UniqueKeys t → UniqueKeys (remove id t)
  remove-UniqueKeys id [] u = tt
  remove-UniqueKeys id ((key, w) ∷ t) u = elim (Bool-cases (key == id)) [
    | inl same ↦ rw (same, remove) (remove-UniqueKeys id t u.1)
    | inr other ↦
        rw (other, remove) (ground (arith, lookup-remove key id t), remove-UniqueKeys id t u.1)
  ]

  -- The keys are taken out one after the other.
  abbrev pub remove_all : List ℕ → Table V → Table V
  remove_all [] t = t
  remove_all (id ∷ ids) t = remove_all ids (remove id t)

  pub lookup-remove_all :
      (j : ℕ) (ids : List ℕ) (t : Table V)
      → lookup j (remove_all ids t) ≡ (if contains j ids then none else lookup j t)
  lookup-remove_all j [] t = refl
  lookup-remove_all j (id ∷ ids) t =
      ground (arith, lookup-remove_all j ids (remove id t), lookup-remove j id t)

  pub remove_all-UniqueKeys :
      (ids : List ℕ) (t : Table V) → UniqueKeys t → UniqueKeys (remove_all ids t)
  remove_all-UniqueKeys [] t u = u
  remove_all-UniqueKeys (id ∷ ids) t u =
      remove_all-UniqueKeys ids (remove id t) (remove-UniqueKeys id t u)

  -- Ids that are present stay so if another is taken out.
  pub remove-AllPresent :
      (id : ℕ) (ids : List ℕ) (t : Table V)
      → contains id ids ≡ false
      → AllPresent ids t
      → AllPresent ids (remove id t)
  remove-AllPresent id [] t n p = tt
  remove-AllPresent id (x ∷ ids) t n p = (
    (p.0.0, (let there = p.0.1 in ground (arith, lookup-remove x id t))),
    p.1,
    remove-AllPresent id ids t (ground arith) p.2,
  )

  -- What holds of all that is found holds of all entries.
  pub lookup-All :
      (P : ℕ → V → Type 0) (t : Table V)
      → UniqueKeys t
      → ((j : ℕ) (v : V) → lookup j t ≡ some v → P j v)
      → All (λ x. P x.0 x.1) t
  lookup-All P [] u h = tt
  lookup-All P ((key, v) ∷ t) u h = (
    h key v (ground arith),
    lookup-All P t u.1 (λ j w at. h j w (let none_here = u.0 in ground arith)),
  )

module _ {V W : Type 0} (f : V → W) where
  pub UniqueKeys-map_values : (t : Table V) → UniqueKeys t → UniqueKeys (map_values f t)
  UniqueKeys-map_values [] u = tt
  UniqueKeys-map_values ((key, v) ∷ t) u =
      (lookup-map_values f key t ∙ ap (Option.map f) u.0, UniqueKeys-map_values t u.1)

  pub map_values-UniqueKeys : (t : Table V) → UniqueKeys (map_values f t) → UniqueKeys t
  map_values-UniqueKeys [] u = tt
  map_values-UniqueKeys ((key, v) ∷ t) u =
      (absent (lookup key t) (sym (lookup-map_values f key t) ∙ u.0), map_values-UniqueKeys t u.1)
    where
      absent : (o : Option V) → Option.map f o ≡ none → o ≡ none
      absent none h = refl
      absent (some w) h = cc

pub map_values-after :
    {V W X : Type 0} (f : V → W) (g : W → X) (t : Table V)
    → map_values g (map_values f t) ≡ map_values (λ v. g (f v)) t
map_values-after f g [] = refl
map_values-after f g ((key, v) ∷ t) = ap (λ r. (key, g (f v)) ∷ r) (map_values-after f g t)
