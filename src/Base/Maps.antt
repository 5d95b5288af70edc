-- ===== src/Base/Maps.antt =====
-- `std::map` and `std::set` with keys that are ordered like numbers: association lists in the order
-- of their keys, which is the order of iteration.
use clboss.Base.{
  ℕ, suc, ◌+◌, ◌≤◌, ◌<◌, ◌≡◌, refl, Bool, true, false, List, [], ◌∷◌, Option, none, some, arith,
  ltb, ◌==◌, if◌then◌else◌, length, map, count,
}

module _ {ℓ} {V : Type ℓ} where
  -- `m.find(k)`.
  abbrev pub lookup : ℕ → List (ℕ × V) → Option V
  lookup k [] = none
  lookup k ((j, w) ∷ m) = if j == k then some w else lookup k m

  -- `m[k] = v`.
  abbrev pub assign : ℕ → V → List (ℕ × V) → List (ℕ × V)
  assign k v [] = (k, v) ∷ []
  assign k v ((j, w) ∷ m) =
      if j == k then (k, v) ∷ m else if ltb k j then (k, v) ∷ (j, w) ∷ m else (j, w) ∷ assign k v m

  abbrev pub keys : List (ℕ × V) → List ℕ
  keys = map (λ e. e.0)

  -- The keys rise strictly, and all are above a bound.
  abbrev pub Above : ℕ → List (ℕ × V) → Type 0
  Above b [] = Unit {0}
  Above b ((k, v) ∷ m) = (b ≤ k) × Above (suc k) m

  pub assign-Above :
      (b k : ℕ) (v : V) (m : List (ℕ × V)) → b ≤ k → Above b m → Above b (assign k v m)
  assign-Above b k v [] h a = (h, tt)
  assign-Above b k v ((j, w) ∷ m) h a = ground (arith, assign-Above (suc j) k v m)

  pub Above-mono : (a b : ℕ) (m : List (ℕ × V)) → a ≤ b → Above b m → Above a m
  Above-mono a b [] h s = tt
  Above-mono a b ((k, v) ∷ m) h s = (omega arith, s.1)

  pub lookup-Above : (b k : ℕ) (m : List (ℕ × V)) → Above b m → k < b → lookup k m ≡ none
  lookup-Above b k [] a h = refl
  lookup-Above b k ((j, w) ∷ m) a h = ground (arith, lookup-Above (suc j) k m)

  pub lookup-assign :
      (b i k : ℕ) (v : V) (m : List (ℕ × V))
      → Above b m
      → lookup i (assign k v m) ≡ (if k == i then some v else lookup i m)
  lookup-assign b i k v [] a = refl
  lookup-assign b i k v ((j, w) ∷ m) a =
      ground (arith, lookup-assign (suc j) i k v m, lookup-Above (suc j) i m)

  -- A new key adds one entry.
  pub count-keys-assign :
      (i k : ℕ) (v : V) (m : List (ℕ × V))
      → count k (keys m) ≡ 0
      → count i (keys (assign k v m)) ≡ count i (keys m) + (if k == i then 1 else 0)
  count-keys-assign i k v [] h = omega arith
  count-keys-assign i k v ((j, w) ∷ m) h = ground (arith, count-keys-assign i k v m)

  pub length-assign :
      (k : ℕ) (v : V) (m : List (ℕ × V))
      → count k (keys m) ≡ 0
      → length (assign k v m) ≡ length m + 1
  length-assign k v [] h = omega arith
  length-assign k v ((j, w) ∷ m) h = ground (arith, length-assign k v m)

-- `m[k]` read: a missing key gives the value that a new entry starts with.
abbrev pub value_or {ℓ} : {V : Type ℓ} → V → ℕ → List (ℕ × V) → V
value_or d k m = elim (lookup k m) [ some v ↦ v | none ↦ d ]

-- `s.insert(k)` on a set.
abbrev pub insert : ℕ → List ℕ → List ℕ
insert k [] = k ∷ []
insert k (j ∷ s) = if j == k then j ∷ s else if ltb k j then k ∷ j ∷ s else j ∷ insert k s

-- `s.count(k) != 0`.
abbrev pub contains : ℕ → List ℕ → Bool
contains k [] = false
contains k (j ∷ s) = if j == k then true else contains k s

pub count-insert :
    (i k : ℕ) (s : List ℕ)
    → count k s ≡ 0
    → count i (insert k s) ≡ count i s + (if k == i then 1 else 0)
count-insert i k [] h = omega arith
count-insert i k (j ∷ s) h = ground (arith, count-insert i k s)

pub contains-eq_count : (k : ℕ) (s : List ℕ) → contains k s ≡ ltb 0 (count k s)
contains-eq_count k [] = refl
contains-eq_count k (j ∷ s) = ground (arith, contains-eq_count k s)
