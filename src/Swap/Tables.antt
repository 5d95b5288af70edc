-- ===== src/Swap/Tables.antt =====
-- Counting the rows of a table after a query.
use clboss.Base.{
  ◌+◌, ◌≤◌, ◌<◌, ◌≡◌, ◌∙◌, refl, inl, inr, Bool, true, false, ◌&&◌, List, [], ◌∷◌, none, some,
  arith, not, if◌then◌else◌, keep_if, count_if, count_if-map, Bool-cases, Option-cases,
}
use clboss.Swap.{update_where, last_where}

module _ {ℓ} {A : Type ℓ} where
  pub count_if-le :
      (q r : A → Bool) (xs : List A)
      → ((x : A) → q x ≡ true → r x ≡ true)
      → count_if q xs ≤ count_if r xs
  count_if-le q r [] h = omega arith
  count_if-le q r (x ∷ xs) h = elim (Bool-cases (q x)) [
    | inl e ↦ rw (e, h x e) (omega (arith, count_if-le q r xs h))
    | inr e ↦ rw e (omega (arith, count_if-le q r xs h))
  ]

  -- A test passes on the rows that an update leaves where one passes on those before it.
  pub count_if-update :
      (q r p : A → Bool) (f : A → A) (xs : List A)
      → ((x : A) → q (if p x then f x else x) ≡ true → r x ≡ true)
      → count_if q (update_where p f xs) ≤ count_if r xs
  count_if-update q r p f xs h = omega (
    arith,
    count_if-map q (λ x. if p x then f x else x) xs,
    count_if-le (λ x. q (if p x then f x else x)) r xs h,
  )

  pub count_if-or :
      (q r s : A → Bool) (xs : List A)
      → ((x : A) → q x ≡ true → r x ≡ false → s x ≡ true)
      → count_if q xs ≤ count_if r xs + count_if s xs
  count_if-or q r s [] h = omega arith
  count_if-or q r s (x ∷ xs) h = ground (arith, count_if-or q r s xs h, h x)

  pub count_if-keep_if-le :
      (q p : A → Bool) (xs : List A) → count_if q (keep_if p xs) ≤ count_if q xs
  count_if-keep_if-le q p [] = omega arith
  count_if-keep_if-le q p (x ∷ xs) = ground (arith, count_if-keep_if-le q p xs)

  -- What the deletion does not meet, it keeps.
  pub count_if-keep_if-same :
      (q p : A → Bool) (xs : List A)
      → ((x : A) → q x ≡ true → p x ≡ true)
      → count_if q (keep_if p xs) ≡ count_if q xs
  count_if-keep_if-same q p [] h = refl
  count_if-keep_if-same q p (x ∷ xs) h = ground (arith, count_if-keep_if-same q p xs h, h x)

  pub last_where-none : (p : A → Bool) (xs : List A) → last_where p xs ≡ none → count_if p xs ≡ 0
  last_where-none p [] h = refl
  last_where-none p (x ∷ xs) h = elim (Option-cases (last_where p xs)) [
    | inl e ↦ ground (arith, last_where-none p xs e)
    | inr (y, e) ↦ absurd (ground (arith, e))
  ]

  pub last_where-test : (p : A → Bool) (xs : List A) (x : A) → last_where p xs ≡ some x → p x ≡ true
  last_where-test p [] x h = cc
  last_where-test p (y ∷ ys) x h = elim (Option-cases (last_where p ys)) [
    | inl e ↦ ground (arith, e)
    | inr (z, e) ↦ ground (arith, e, last_where-test p ys z e)
  ]

  -- The row that is found is among the rows.
  pub last_where-count :
      (p q : A → Bool) (xs : List A) (x : A)
      → last_where p xs ≡ some x
      → q x ≡ true
      → 0 < count_if (λ y. p y && q y) xs
  last_where-count p q [] x h t = cc
  last_where-count p q (y ∷ ys) x h t = elim (Option-cases (last_where p ys)) [
    | inl e ↦ elim (Bool-cases (p y)) [
      | inl e' ↦ let same : y ≡ x = ground (arith, h, e, e') in rw (e', same, t) (omega arith)
      | inr e' ↦ absurd (ground (arith, h, e, e'))
    ]
    | inr (z, e) ↦
        let same : z ≡ x = ground (arith, h, e) in
        omega (arith, last_where-count p q ys x (e ∙ rw same refl) t)
  ]

  -- Deleting the row takes it from the count.
  pub count_if-deleted :
      (p q : A → Bool) (xs : List A)
      → count_if q (keep_if (λ x. not (p x)) xs) + count_if (λ x. p x && q x) xs ≡ count_if q xs
  count_if-deleted p q [] = refl
  count_if-deleted p q (x ∷ xs) = ground (arith, count_if-deleted p q xs)

  -- Where at most one row passes, it is the one that is found.
  pub count_if-only :
      (p q : A → Bool) (xs : List A) (x : A)
      → last_where p xs ≡ some x
      → count_if p xs ≤ 1
      → count_if (λ y. p y && q y) xs ≡ (if q x then 1 else 0)
  count_if-only p q [] x h one = cc
  count_if-only p q (y ∷ ys) x h one = elim (Option-cases (last_where p ys)) [
    | inl e ↦ elim (Bool-cases (p y)) [
      | inl e' ↦
          let same : y ≡ x = ground (arith, h, e, e') in
          let none_left = last_where-none p ys e in
          rw (e', same)
            (omega
              (arith, none_left, count_if-le (λ y. p y && q y) p ys (λ y h. ground (arith, h))))
      | inr e' ↦ absurd (ground (arith, h, e, e'))
    ]
    | inr (z, e) ↦
        let same : z ≡ x = ground (arith, h, e) in
        let more : 0 < count_if p ys = omega (
          arith,
          last_where-count p p ys z e (last_where-test p ys z e),
          count_if-le (λ y. p y && p y) p ys (λ y h. ground (arith, h)),
        ) in
        elim (Bool-cases (p y)) [
          | inl e' ↦ absurd (ground (arith, one, e', more))
          | inr e' ↦
              rw e'
                (omega (arith, count_if-only p q ys x (e ∙ rw same refl) (ground (arith, one, e'))))
        ]
  ]
