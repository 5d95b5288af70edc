-- ===== src/Base/Sorting.antt =====
-- What a sort promises: keys that rise along the list, and items of one key in their old order.
use mathlib.Core.List.{append-nil, append_assoc}
use clboss.Base.{
  ℕ, ◌≤◌, ◌<◌, ◌≡◌, refl, sym, ◌+◌, inl, inr, Bool, List, [], ◌∷◌, ◌++◌, map, arith, ltb, ◌==◌,
  if◌then◌else◌, Bool-cases, keep_if, count_if,
}

-- Every key is at least the bound, and no key is below the one before it.
abbrev pub AscendingFrom : ℕ → List ℕ → Type 0
AscendingFrom b [] = Unit {0}
AscendingFrom b (k ∷ ks) = (b ≤ k) × AscendingFrom k ks

module _ {ℓ} {A : Type ℓ} (key : A → ℕ) where
  -- `ys` is `xs` sorted by the key, stably.
  pub record IsStableSort (xs ys : List A) : Type ℓ where
    pub ascending : AscendingFrom 0 (map key ys)
    pub stable : (z : ℕ) → keep_if (λ x. key x == z) ys ≡ keep_if (λ x. key x == z) xs

  -- Put an item behind all whose keys are not larger.
  unfoldable pub insert_behind : A → List A → List A
  insert_behind a [] = a ∷ []
  insert_behind a (x ∷ xs) = if ltb (key a) (key x) then a ∷ x ∷ xs else x ∷ insert_behind a xs

  pub insert_behind-ascending :
      (b : ℕ) (a : A) (xs : List A)
      → b ≤ key a
      → AscendingFrom b (map key xs)
      → AscendingFrom b (map key (insert_behind a xs))
  unfolding insert_behind
  insert_behind-ascending b a [] h s = (h, tt)
  insert_behind-ascending b a (x ∷ xs) h s = ground (arith, insert_behind-ascending (key x) a xs)

  keep_none :
      (b z : ℕ) (xs : List A)
      → z < b
      → AscendingFrom b (map key xs)
      → keep_if (λ x. key x == z) xs ≡ []
  keep_none b z [] h s = refl
  keep_none b z (x ∷ xs) h s = ground (arith, keep_none (key x) z xs)

  pub insert_behind-stable :
      (b z : ℕ) (a : A) (xs : List A)
      → AscendingFrom b (map key xs)
      → keep_if (λ x. key x == z) (insert_behind a xs)
        ≡ keep_if (λ x. key x == z) xs ++ (if key a == z then a ∷ [] else [])
  unfolding insert_behind
  insert_behind-stable b z a [] s = ground arith
  insert_behind-stable b z a (x ∷ xs) s = elim (Bool-cases (key x == z)) [
    | inl e ↦
        ground (
          arith,
          append-nil (keep_if (λ x. key x == z) xs),
          insert_behind-stable (key x) z a xs s.1,
        )
    | inr e ↦ ground (
      arith,
      append-nil (keep_if (λ x. key x == z) xs),
      insert_behind-stable (key x) z a xs s.1,
      keep_none (key x) z xs,
    )
  ]

  pub insert_behind-count :
      (p : A → Bool) (a : A) (xs : List A) → count_if p (insert_behind a xs) ≡ count_if p (a ∷ xs)
  unfolding insert_behind
  insert_behind-count p a [] = refl
  insert_behind-count p a (x ∷ xs) = ground (arith, insert_behind-count p a xs)

  -- Insertion sort: the items one after the other.
  abbrev pub insert_all : List A → List A → List A
  insert_all [] done = done
  insert_all (x ∷ xs) done = insert_all xs (insert_behind x done)

  pub insert_all-ascending :
      (xs done : List A)
      → AscendingFrom 0 (map key done)
      → AscendingFrom 0 (map key (insert_all xs done))
  insert_all-ascending [] done s = s
  insert_all-ascending (x ∷ xs) done s =
      insert_all-ascending xs (insert_behind x done)
        (insert_behind-ascending 0 x done (omega arith) s)

  pub insert_all-stable :
      (z : ℕ) (xs done : List A)
      → AscendingFrom 0 (map key done)
      → keep_if (λ x. key x == z) (insert_all xs done)
        ≡ keep_if (λ x. key x == z) done ++ keep_if (λ x. key x == z) xs
  insert_all-stable z [] done s = sym (append-nil (keep_if (λ x. key x == z) done))
  insert_all-stable z (x ∷ xs) done s = ground (
    arith,
    insert_all-stable z xs (insert_behind x done)
        (insert_behind-ascending 0 x done (omega arith) s),
    insert_behind-stable 0 z x done s,
    append_assoc (keep_if (λ x. key x == z) done) (x ∷ []) (keep_if (λ x. key x == z) xs),
    append-nil (keep_if (λ x. key x == z) done),
  )

  pub insert_all-count :
      (p : A → Bool) (xs done : List A)
      → count_if p (insert_all xs done) ≡ count_if p done + count_if p xs
  insert_all-count p [] done = omega arith
  insert_all-count p (x ∷ xs) done =
      omega (arith, insert_all-count p xs (insert_behind x done), insert_behind-count p x done)
