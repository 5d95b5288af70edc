-- ===== src/Stats/Reservoir/Largest.antt =====
-- The reservoir keeps the items with the largest keys.
use mathlib.Core.List.{append-nil, append_assoc}
use clboss.Base.{
  sym, ◌∙◌, ℕ, zero, suc, ◌+◌, ◌≤◌, ◌<◌, ◌≡◌, refl, ap, min, inl, inr, List, [], ◌∷◌, ◌++◌, some,
  map, arith, ltb, leb, ◌==◌, if◌then◌else◌, length, length-append, get_elem?, count_if,
  count_if-append, Bool-cases, List-cases,
}
use clboss.Stats.Reservoir.{ReservoirSampler, min_from, set_at, create, replace_min, add, add_all}

-- How many keys reach a level.
abbrev pub reaching : ℕ → List ℕ → ℕ
reaching t = count_if (λ k. leb t k)

-- What the search for the smallest finds: an index of it, and that no key is below it.
record IsMin (ks : List ℕ) (found : ℕ × ℕ) : Type 0 where
  at : get_elem? ks found.0 ≡ some found.1
  lowest : (t : ℕ) → t ≤ found.1 → reaching t ks ≡ length ks

set_at-reaching :
    (i x k t : ℕ) (ks : List ℕ)
    → get_elem? ks i ≡ some k
    → reaching t (set_at i x ks) + (if leb t k then 1 else 0)
      ≡ reaching t ks + (if leb t x then 1 else 0)
unfolding set_at
set_at-reaching i x k t [] e = absurd (ground arith)
set_at-reaching zero x k t (y ∷ ys) e = let same : y ≡ k = ground arith in rw same (omega arith)
set_at-reaching (suc i) x k t (y ∷ ys) e = omega (arith, set_at-reaching i x k t ys e)

length-set_at {ℓ} : {A : Type ℓ} (i : ℕ) (x : A) (xs : List A) → length (set_at i x xs) ≡ length xs
unfolding set_at
length-set_at i x [] = refl
length-set_at zero x (y ∷ ys) = refl
length-set_at (suc i) x (y ∷ ys) = ap suc (length-set_at i x ys)

get_elem?-front :
    (front back : List ℕ) (k : ℕ) → get_elem? (front ++ k ∷ back) (length front) ≡ some k
get_elem?-front [] back k = refl
get_elem?-front (x ∷ front) back k = get_elem?-front front back k

-- One more key that has been passed.
pass :
    (t min_key k : ℕ) (front : List ℕ)
    → (t ≤ min_key → reaching t front ≡ length front)
    → t ≤ min_key
    → t ≤ k
    → reaching t (front ++ k ∷ []) ≡ length (front ++ k ∷ [])
pass t min_key k front low h l =
    ground
      (arith, low h, length-append front (k ∷ []), count_if-append (λ j. leb t j) front (k ∷ []))

-- The loop, behind the keys that it has passed.
min_from-IsMin :
    (xs front ks : List ℕ) (i min_i min_key : ℕ)
    → xs ≡ front ++ ks
    → i ≡ length front
    → get_elem? xs min_i ≡ some min_key
    → ((t : ℕ) → t ≤ min_key → reaching t front ≡ length front)
    → IsMin xs (min_from i min_i min_key ks)
unfolding min_from
min_from-IsMin xs front [] i min_i min_key whole at e low =
    let same : xs ≡ front = whole ∙ append-nil front in
    record { at = e; lowest = λ t h. ap (reaching t) same ∙ low t h ∙ sym (ap length same) }
min_from-IsMin xs front (k ∷ ks) i min_i min_key whole at e low =
    let front' = front ++ k ∷ [] in
    let whole' : xs ≡ front' ++ ks = whole ∙ sym (append_assoc front (k ∷ []) ks) in
    let at' : i + 1 ≡ length front' = omega (arith, at, length-append front (k ∷ [])) in
    elim (Bool-cases (ltb k min_key)) [
      | inl less ↦ rw less (
          min_from-IsMin xs front' ks (i + 1) i k whole' at'
            (rw (whole, at) (get_elem?-front front ks k))
            (λ t h. pass t min_key k front (low t) (ground arith) h))
      | inr more ↦ rw more (
          min_from-IsMin xs front' ks (i + 1) min_i min_key whole' at' e
            (λ t h. pass t min_key k front (low t) h (ground arith)))
    ]

-- The reservoir after the keys `seen`: it is as full as they allow, and of any level it has as many
-- keys that reach it as there is room for.
pub record IsLargest {ℓ} {A : Type ℓ} (max : ℕ) (seen : List ℕ) (r : ReservoirSampler A)
    : Type 0 where
  pub bound : r.max_selected ≡ max
  pub filled : length r.keys ≡ min max (length seen)
  pub paired : length r.selected ≡ length r.keys
  pub largest : (t : ℕ) → reaching t r.keys ≡ min max (reaching t seen)

reaching-le : (t : ℕ) (ks : List ℕ) → reaching t ks ≤ length ks
reaching-le t [] = omega arith
reaching-le t (k ∷ ks) = ground (arith, reaching-le t ks)

-- The keys in front of those seen before, the last first.
abbrev reverse_onto : List ℕ → List ℕ → List ℕ
reverse_onto [] seen = seen
reverse_onto (k ∷ ks) seen = reverse_onto ks (k ∷ seen)

length-reverse_onto : (ks seen : List ℕ) → length (reverse_onto ks seen) ≡ length ks + length seen
length-reverse_onto [] seen = omega arith
length-reverse_onto (k ∷ ks) seen = omega (arith, length-reverse_onto ks (k ∷ seen))

reaching-reverse_onto :
    (t : ℕ) (ks seen : List ℕ) → reaching t (reverse_onto ks seen) ≡ reaching t ks + reaching t seen
reaching-reverse_onto t [] seen = omega arith
reaching-reverse_onto t (k ∷ ks) seen = omega (arith, reaching-reverse_onto t ks (k ∷ seen))

module _ {ℓ} {A : Type ℓ} where
  replace_min-IsLargest :
      (max key : ℕ) (s : A) (seen : List ℕ) (r : ReservoirSampler A)
      → 0 < max
      → length r.keys ≡ max
      → IsLargest max seen r
      → IsLargest max (key ∷ seen) (replace_min s key r)
  unfolding replace_min
  replace_min-IsLargest max key s seen r pos full v = elim (List-cases r.keys) [
    | inl e ↦ absurd (ground (arith, e, full, pos))
    | inr (k, ks, e) ↦
        let found = min_from 1 0 k ks in
        let is_min : IsMin r.keys found =
          min_from-IsMin r.keys (k ∷ []) ks 1 0 k e refl (rw e refl) (λ t h. ground (arith, h)) in
        elim (Bool-cases (ltb found.1 key)) [
          | inl less ↦
              rw (e, less, replace_min)
                (record {
                  bound = v.bound;
                  filled = omega (arith, length-set_at found.0 key r.keys, full, v.filled);
                  paired = omega (
                    arith,
                    length-set_at found.0 key r.keys,
                    length-set_at found.0 s r.selected,
                    v.paired,
                  );
                  largest = λ t. ground (
                    arith,
                    set_at-reaching found.0 key found.1 t r.keys is_min.at,
                    v.largest t,
                    is_min.lowest t,
                    reaching-le t r.keys,
                    reaching-le t (set_at found.0 key r.keys),
                    length-set_at found.0 key r.keys,
                    full,
                    less,
                  );
                })
          | inr more ↦
              rw (e, more, replace_min)
                (record {
                  bound = v.bound;
                  filled = omega (arith, full, v.filled);
                  paired = v.paired;
                  largest = λ t.
                      ground
                        (arith, v.largest t, is_min.lowest t, reaching-le t r.keys, full, more);
                })
        ]
  ]

  pub add-IsLargest :
      (max key : ℕ) (s : A) (seen : List ℕ) (r : ReservoirSampler A)
      → IsLargest max seen r
      → IsLargest max (key ∷ seen) (add s key r)
  unfolding add
  add-IsLargest max key s seen r v = elim (Bool-cases (r.max_selected == 0)) [
    | inl e ↦
        rw (e, add)
          (record {
            bound = v.bound;
            filled = ground (arith, e, v.bound, v.filled);
            paired = v.paired;
            largest = λ t. ground (arith, e, v.bound, v.largest t);
          })
    | inr e ↦ elim (Bool-cases (ltb (length r.selected) r.max_selected)) [
      | inl room ↦
          rw (e, room, add)
            (record {
              bound = v.bound;
              filled =
                  ground
                    (arith, length-append r.keys (key ∷ []), room, v.bound, v.filled, v.paired);
              paired = omega (
                arith,
                length-append r.keys (key ∷ []),
                length-append r.selected (s ∷ []),
                v.paired,
              );
              largest = λ t. ground (
                arith,
                count_if-append (λ k. leb t k) r.keys (key ∷ []),
                room,
                v.bound,
                v.filled,
                v.paired,
                v.largest t,
                reaching-le t seen,
              );
            })
      | inr full ↦
          rw (e, full, add)
            (replace_min-IsLargest max key s seen r (ground (arith, e, v.bound))
              (ground (arith, full, v.bound, v.filled, v.paired)) v)
    ]
  ]

  adds-IsLargest :
      (max : ℕ) (items : List (A × ℕ)) (seen : List ℕ) (r : ReservoirSampler A)
      → IsLargest max seen r
      → IsLargest max (reverse_onto (map (λ i. i.1) items) seen) (add_all items r)
  unfolding add_all
  adds-IsLargest max [] seen r v = v
  adds-IsLargest max ((s, key) ∷ rest) seen r v =
      adds-IsLargest max rest (key ∷ seen) (add s key r) (add-IsLargest max key s seen r v)

  -- After a stream of items with keys, a sampler of size `max` holds as many keys as the stream
  -- gives, but at most `max`, an item for each, and for every level as many keys that reach it as
  -- the stream has, but at most `max`: those that it holds are the largest.
  pub add_all-IsLargest :
      (max : ℕ) (items : List (A × ℕ))
      → let keys = map (λ i. i.1) items in
        let r = add_all items (create max) in
        (length r.keys ≡ min max (length keys))
        × (length r.selected ≡ length r.keys)
        × ((t : ℕ) → reaching t r.keys ≡ min max (reaching t keys))
  unfolding create
  add_all-IsLargest max items =
      let keys = map (λ (i : A × ℕ). i.1) items in
      let v = adds-IsLargest max items [] (create max) (record {
        bound = refl;
        filled = omega arith;
        paired = refl;
        largest = λ t. omega arith;
      }) in
      (
        omega (arith, v.filled, length-reverse_onto keys []),
        v.paired,
        λ t. omega (arith, v.largest t, reaching-reverse_onto t keys []),
      )
