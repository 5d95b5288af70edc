-- ===== src/Stats/Reservoir.antt =====
-- Stats/ReservoirSampler.hpp: a weighted sample of a stream. The key of an item, which the code draws
-- at random by the item's weight and only compares with others, is a number ordered like the keys.
pub mod Largest
pub mod Drawn
use clboss.Base.{
  ℕ, zero, suc, ◌+◌, List, [], ◌∷◌, ◌++◌, Option, none, some, ltb, ◌==◌, if◌then◌else◌, length,
  get_elem?,
}

module _ {ℓ} (Sample : Type ℓ) where
  pub record ReservoirSampler : Type ℓ where
    pub max_selected : ℕ
    pub selected : List Sample
    pub keys : List ℕ

-- The loop that finds the smallest key, from the index `i` on, where `min_i` is the best so far and
-- `min_key` is its key.
pub min_from : ℕ → ℕ → ℕ → List ℕ → ℕ × ℕ
min_from i min_i min_key [] = (min_i, min_key)
min_from i min_i min_key (k ∷ ks) =
    if ltb k min_key then min_from (i + 1) i k ks else min_from (i + 1) min_i min_key ks

-- `v[i] = x`.
pub set_at {ℓ} : {A : Type ℓ} → ℕ → A → List A → List A
set_at i x [] = []
set_at zero x (y ∷ ys) = x ∷ ys
set_at (suc i) x (y ∷ ys) = y ∷ set_at i x ys

module _ {ℓ} {A : Type ℓ} where
  pub create : ℕ → ReservoirSampler A
  create max = record { max_selected = max; selected = []; keys = [] }

  -- `clear(max_selected_)`.
  pub clear : ℕ → ReservoirSampler A → ReservoirSampler A
  clear max r = record { max_selected = max; selected = []; keys = [] }

  pub replace_min : A → ℕ → ReservoirSampler A → ReservoirSampler A
  replace_min s key r = elim r.keys [
    | [] ↦ r
    | k ∷ ks ↦
        let (min_i, min_key) = min_from 1 0 k ks in
        if ltb min_key key
        then record r { selected = set_at min_i s r.selected; keys = set_at min_i key r.keys }
        else r
  ]

  pub add : A → ℕ → ReservoirSampler A → ReservoirSampler A
  add s key r =
      if r.max_selected == 0
      then r
      else if ltb (length r.selected) r.max_selected
      then record r { selected = r.selected ++ s ∷ []; keys = r.keys ++ key ∷ [] }
      else replace_min s key r

  pub add_all : List (A × ℕ) → ReservoirSampler A → ReservoirSampler A
  add_all [] r = r
  add_all ((s, key) ∷ rest) r = add_all rest (add s key r)
