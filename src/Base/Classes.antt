-- ===== src/Base/Classes.antt =====
-- Lists put together from the classes of a key, lowest first: a stable sort.
use mathlib.Core.List.{append-nil, append_assoc}
use clboss.Base.{
  ℕ, zero, suc, ◌+◌, ◌≤◌, ◌<◌, ◌≡◌, refl, Bool, false, ◌&&◌, List, [], ◌∷◌, ◌++◌, map, arith, ltb,
  leb, ◌==◌, if◌then◌else◌, keep_if, Bool-cases, inl, inr, count_if, count_if-append, SameItems,
}
use clboss.Base.Sorting.{AscendingFrom, IsStableSort}

module _ {ℓ} {A : Type ℓ} where
  pub keep_if-append :
      (p : A → Bool) (xs ys : List A) → keep_if p (xs ++ ys) ≡ keep_if p xs ++ keep_if p ys
  keep_if-append p [] ys = refl
  keep_if-append p (x ∷ xs) ys = ground (arith, keep_if-append p xs ys)

  pub keep_if-cong :
      (p q : A → Bool) (xs : List A) → ((x : A) → p x ≡ q x) → keep_if p xs ≡ keep_if q xs
  keep_if-cong p q [] h = refl
  keep_if-cong p q (x ∷ xs) h = rw (h x, keep_if-cong p q xs h) refl

  pub keep_if-keep_if :
      (p q : A → Bool) (xs : List A)
      → keep_if p (keep_if q xs) ≡ keep_if (λ x. if q x then p x else false) xs
  keep_if-keep_if p q [] = refl
  keep_if-keep_if p q (x ∷ xs) = ground (arith, keep_if-keep_if p q xs)

  keep_if_never : (p : A → Bool) (xs : List A) → ((x : A) → p x ≡ false) → keep_if p xs ≡ []
  keep_if_never p [] h = refl
  keep_if_never p (x ∷ xs) h = rw (h x) (keep_if_never p xs h)

module _ {ℓ} {A : Type ℓ} (key : A → ℕ) where
  -- The classes of the keys b, b + 1, ..., b + n - 1.
  abbrev pub classes : ℕ → ℕ → List A → List A
  classes b zero xs = []
  classes b (suc n) xs = keep_if (λ x. key x == b) xs ++ classes (suc b) n xs

  class-class :
      (z b : ℕ) (xs : List A)
      → keep_if (λ x. key x == z) (keep_if (λ x. key x == b) xs)
        ≡ (if b == z then keep_if (λ x. key x == z) xs else [])
  class-class z b [] = ground arith
  class-class z b (x ∷ xs) = ground (arith, class-class z b xs)

  ascending_front :
      (b : ℕ) (xs ys : List A)
      → AscendingFrom b (map key ys)
      → AscendingFrom b (map key (keep_if (λ x. key x == b) xs ++ ys))
  ascending_front b [] ys h = h
  ascending_front b (x ∷ xs) ys h = elim (Bool-cases (key x == b)) [
    | inl e ↦ let k : key x ≡ b = ground arith in rw (e, k) (omega arith, ascending_front b xs ys h)
    | inr e ↦ rw e (ascending_front b xs ys h)
  ]

  AscendingFrom-mono : (a b : ℕ) (ks : List ℕ) → a ≤ b → AscendingFrom b ks → AscendingFrom a ks
  AscendingFrom-mono a b [] h s = tt
  AscendingFrom-mono a b (k ∷ ks) h s = (omega arith, s.1)

  classes-ascending : (b n : ℕ) (xs : List A) → AscendingFrom b (map key (classes b n xs))
  classes-ascending b zero xs = tt
  classes-ascending b (suc n) xs =
      ascending_front b xs (classes (suc b) n xs)
        (AscendingFrom-mono b (suc b) _ (omega arith) (classes-ascending (suc b) n xs))

  class-classes :
      (z b n : ℕ) (xs : List A)
      → keep_if (λ x. key x == z) (classes b n xs)
        ≡ (if leb b z && ltb z (b + n) then keep_if (λ x. key x == z) xs else [])
  class-classes z b zero xs = ground arith
  class-classes z b (suc n) xs = ground (
    arith,
    keep_if-append (λ x. key x == z) (keep_if (λ x. key x == b) xs) (classes (suc b) n xs),
    class-class z b xs,
    class-classes z (suc b) n xs,
    append-nil (keep_if (λ x. key x == z) xs),
  )

  pub classes-IsStableSort :
      (n : ℕ) (xs : List A) → ((x : A) → key x < n) → IsStableSort key xs (classes 0 n xs)
  classes-IsStableSort n xs h = record {
    ascending = classes-ascending 0 n xs;
    stable = λ z. elim (Bool-cases (ltb z n)) [
      | inl e ↦ ground (arith, class-classes z 0 n xs)
      | inr e ↦ ground (
        arith,
        class-classes z 0 n xs,
        keep_if_never (λ x. key x == z) xs (λ x. ground (arith, h x)),
      )
    ];
  }

  in_classes : ℕ → ℕ → (A → Bool) → A → Bool
  in_classes b n p x = if leb b (key x) && ltb (key x) (b + n) then p x else false

  count-class :
      (p : A → Bool) (b n : ℕ) (xs : List A)
      → count_if p (keep_if (λ x. key x == b) xs) + count_if (in_classes (suc b) n p) xs
        ≡ count_if (in_classes b (suc n) p) xs
  unfolding in_classes
  count-class p b n [] = omega arith
  count-class p b n (x ∷ xs) = ground (arith, count-class p b n xs)

  count-none : (p : A → Bool) (b : ℕ) (xs : List A) → count_if (in_classes b 0 p) xs ≡ 0
  unfolding in_classes
  count-none p b [] = refl
  count-none p b (x ∷ xs) = ground (arith, count-none p b xs)

  count-classes :
      (p : A → Bool) (b n : ℕ) (xs : List A)
      → count_if p (classes b n xs) ≡ count_if (in_classes b n p) xs
  count-classes p b zero xs = omega (arith, count-none p b xs)
  count-classes p b (suc n) xs = omega (
    arith,
    count_if-append p (keep_if (λ x. key x == b) xs) (classes (suc b) n xs),
    count-classes p (suc b) n xs,
    count-class p b n xs,
  )

  count-all :
      (p : A → Bool) (n : ℕ) (xs : List A)
      → ((x : A) → key x < n)
      → count_if (in_classes 0 n p) xs ≡ count_if p xs
  unfolding in_classes
  count-all p n [] h = refl
  count-all p n (x ∷ xs) h = ground (arith, h x, count-all p n xs h)

  pub classes-SameItems :
      (n : ℕ) (xs : List A) → ((x : A) → key x < n) → SameItems xs (classes 0 n xs)
  classes-SameItems n xs h p = omega (arith, count-classes p 0 n xs, count-all p n xs h)

-- One more item at the end of what was kept so far.
pub push_kept {ℓ} :
    {A : Type ℓ} (b : Bool) (p : A) (now before rest : List A)
    → now ≡ before ++ (if b then p ∷ [] else [])
    → now ++ rest ≡ before ++ (if b then p ∷ rest else rest)
push_kept b p now before rest e = rw e (elim (Bool-cases b) [
  | inl q ↦ rw q (append_assoc before (p ∷ []) rest)
  | inr q ↦ rw q (append_assoc before [] rest)
])
