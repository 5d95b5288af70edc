-- ===== src/Stats/Reservoir/Drawn.antt =====
-- Each key of the reservoir stands by its own item, and all of them come from the stream.
use clboss.Base.{
  ℕ, zero, suc, ◌+◌, ◌≤◌, ◌≡◌, refl, Bool, List, [], ◌∷◌, ◌++◌, arith, ltb, ◌==◌, if◌then◌else◌,
  length, count_if, Bool-cases, List-cases, inl, inr,
}
use clboss.Stats.Reservoir.{ReservoirSampler, min_from, set_at, create, replace_min, add, add_all}
use clboss.Stats.Reservoir.Largest.{IsLargest, add-IsLargest}

module _ {ℓ} {A : Type ℓ} where
  -- The items with their keys.
  abbrev pub pairs : List A → List ℕ → List (A × ℕ)
  pairs [] ks = []
  pairs (x ∷ xs) [] = []
  pairs (x ∷ xs) (k ∷ ks) = (x, k) ∷ pairs xs ks

  module _ (q : A × ℕ → Bool) where
    abbrev one : A → ℕ → ℕ
    one s key = if q (s, key) then 1 else 0

    pairs-append :
        (xs : List A) (ks : List ℕ) (s : A) (key : ℕ)
        → length xs ≡ length ks
        → count_if q (pairs (xs ++ s ∷ []) (ks ++ key ∷ [])) ≤ count_if q (pairs xs ks) + one s key
    pairs-append [] [] s key h = omega arith
    pairs-append [] (k ∷ ks) s key h = absurd (omega (arith, h))
    pairs-append (x ∷ xs) [] s key h = absurd (omega (arith, h))
    pairs-append (x ∷ xs) (k ∷ ks) s key h =
        omega (arith, pairs-append xs ks s key (omega (arith, h)))

    pairs-set_at :
        (i : ℕ) (xs : List A) (ks : List ℕ) (s : A) (key : ℕ)
        → count_if q (pairs (set_at i s xs) (set_at i key ks))
          ≤ count_if q (pairs xs ks) + one s key
    unfolding set_at
    pairs-set_at i [] ks s key = omega arith
    pairs-set_at zero (x ∷ xs) [] s key = omega arith
    pairs-set_at (suc i) (x ∷ xs) [] s key = omega arith
    pairs-set_at zero (x ∷ xs) (k ∷ ks) s key = omega arith
    pairs-set_at (suc i) (x ∷ xs) (k ∷ ks) s key = omega (arith, pairs-set_at i xs ks s key)

    replace_min-pairs :
        (s : A) (key : ℕ) (r : ReservoirSampler A)
        → count_if q (pairs (replace_min s key r).selected (replace_min s key r).keys)
          ≤ count_if q (pairs r.selected r.keys) + one s key
    unfolding replace_min
    replace_min-pairs s key r = elim (List-cases r.keys) [
      | inl e ↦ let same : replace_min s key r ≡ r = ground (arith, e) in rw same (omega arith)
      | inr (k, ks, e) ↦ elim (Bool-cases (ltb (min_from 1 0 k ks).1 key)) [
        | inl less ↦
            let i : ℕ = (min_from 1 0 k ks).0 in
            let same : replace_min s key r ≡ record {
              max_selected = r.max_selected;
              selected = set_at i s r.selected;
              keys = set_at i key r.keys;
            } =
              ground (arith, e, less) in
            rw same (pairs-set_at i r.selected r.keys s key)
        | inr more ↦
            let same : replace_min s key r ≡ r = ground (arith, e, more) in rw same (omega arith)
      ]
    ]

    add-pairs :
        (s : A) (key : ℕ) (r : ReservoirSampler A)
        → length r.selected ≡ length r.keys
        → count_if q (pairs (add s key r).selected (add s key r).keys)
          ≤ count_if q (pairs r.selected r.keys) + one s key
    unfolding add
    add-pairs s key r h = elim (Bool-cases (r.max_selected == 0)) [
      | inl e ↦ rw (e, add) (omega arith)
      | inr e ↦ elim (Bool-cases (ltb (length r.selected) r.max_selected)) [
        | inl room ↦ rw (e, room, add) (pairs-append r.selected r.keys s key h)
        | inr full ↦ rw (e, full, add) (replace_min-pairs s key r)
      ]
    ]

    adds-pairs :
        (max : ℕ) (items : List (A × ℕ)) (seen : List ℕ) (r : ReservoirSampler A)
        → IsLargest max seen r
        → count_if q (pairs (add_all items r).selected (add_all items r).keys)
          ≤ count_if q (pairs r.selected r.keys) + count_if q items
    unfolding add_all
    adds-pairs max [] seen r v = omega arith
    adds-pairs max ((s, key) ∷ rest) seen r v = omega (
      arith,
      adds-pairs max rest (key ∷ seen) (add s key r) (add-IsLargest max key s seen r v),
      add-pairs s key r v.paired,
    )

    -- Any test on items with their keys passes at most as often on what the sampler holds after a
    -- stream as on the stream: each item stands by its own key, and none is made up or held twice.
    pub add_all-pairs :
        (max : ℕ) (items : List (A × ℕ))
        → count_if q (pairs (add_all items (create max)).selected (add_all items (create max)).keys)
          ≤ count_if q items
    unfolding create
    add_all-pairs max items = omega (
      arith,
      adds-pairs max items [] (create max) (record {
        bound = refl;
        filled = omega arith;
        paired = refl;
        largest = λ t. omega arith;
      }),
    )
