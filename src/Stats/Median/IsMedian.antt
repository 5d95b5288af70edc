-- ===== src/Stats/Median/IsMedian.antt =====
-- What `finalize` finds is the weighted median of what was added.
use clboss.Base.{
  ℕ, ◌+◌, ◌*◌, ◌^◌, ◌≤◌, ◌<◌, ◌≡◌, ◌⊎◌, inl, inr, refl, sym, ap, ◌∙◌, Bool, true, false, List, [],
  ◌∷◌, ◌++◌, Option, none, some, arith, ltb, leb, ◌==◌, if◌then◌else◌, length, map, Bool-cases,
  List-cases,
}
use mathlib.Core.List.{append-nil, append_assoc}
use clboss.Base.Sorting.{AscendingFrom, insert_behind, insert_all, insert_all-ascending}
use clboss.Ln.Amount
use clboss.Ln.Amount.Laws.{add_exact}
use clboss.Stats.Median.{Entry, WeightedMedian, no_samples, add, add_all, find_median, finalize}

-- The weights of the samples that pass a test, together.
abbrev pub weight_if : (ℕ → Bool) → List Entry → ℕ
weight_if p [] = 0
weight_if p (e ∷ es) = (if p e.s then e.w else 0) + weight_if p es

abbrev pub weight : List Entry → ℕ
weight = weight_if (λ s. true)

abbrev pub weight_below : ℕ → List Entry → ℕ
weight_below s = weight_if (λ t. ltb t s)

abbrev pub weight_upto : ℕ → List Entry → ℕ
weight_upto s = weight_if (λ t. leb t s)

weight_if-insert_behind :
    (p : ℕ → Bool) (e : Entry) (es : List Entry)
    → weight_if p (insert_behind (λ e. e.s) e es) ≡ weight_if p (e ∷ es)
unfolding insert_behind
weight_if-insert_behind p e [] = refl
weight_if-insert_behind p e (x ∷ xs) = ground (arith, weight_if-insert_behind p e xs)

weight_if-insert_all :
    (p : ℕ → Bool) (es done : List Entry)
    → weight_if p (insert_all (λ e. e.s) es done) ≡ weight_if p done + weight_if p es
weight_if-insert_all p [] done = omega arith
weight_if-insert_all p (e ∷ es) done = omega (
  arith,
  weight_if-insert_all p es (insert_behind (λ e. e.s) e done),
  weight_if-insert_behind p e done,
)

-- Nothing lies below the bound of a sorted list.
none_below :
    (s b : ℕ) (es : List Entry)
    → s ≤ b
    → AscendingFrom b (map (λ e. e.s) es)
    → weight_below s es ≡ 0
none_below s b [] h a = refl
none_below s b (e ∷ es) h (a0, rises) =
    ground (arith, h, a0, none_below s e.s es (omega (arith, h, a0)) rises)

-- What the loop finds when samples of the weight `before` are behind it.
Finds : ℕ → ℕ → ℕ → List Entry → Option ℕ → Type 0
Finds total before b es found =
    ((found ≡ none) × (2 * (before + weight es) ≤ total))
    ⊎ ((s : ℕ) × (found ≡ some s)
        × (b ≤ s)
        × (2 * (before + weight_below s es) ≤ total)
        × (total < 2 * (before + weight_upto s es)))

twice_exact :
    (before running w : ℕ) (first : Bool)
    → 2 * (before + w) < 2 ^ 64
    → (if first then 0 else running) ≡ 2 * before
    → Amount.add (if first then w else Amount.add running w) w ≡ 2 * (before + w)
twice_exact before running w true fits run = omega (arith, add_exact w w (omega (arith, fits)), run)
twice_exact before running w false fits run =
    rw
      (
        add_exact running w (omega (arith, fits, run)),
        add_exact (running + w) w (omega (arith, fits, run)),
      )
      (omega (arith, run))

Finds-step :
    (total before b : ℕ) (e : Entry) (es : List Entry) (found : Option ℕ)
    → b ≤ e.s
    → Finds total (before + e.w) e.s es found
    → Finds total before b (e ∷ es) found
unfolding Finds
Finds-step total before b e es found h (inl (f, low)) = inl (f, omega (arith, low))
Finds-step total before b e es found h (inr (s, f, lower, low, high)) =
    inr (s, f, omega (arith, h, lower), ground (arith, low), ground (arith, high, lower))

find_median-Finds :
    (total before b running : ℕ) (first : Bool) (es : List Entry)
    → 2 * (before + weight es) < 2 ^ 64
    → 2 * before ≤ total
    → (if first then 0 else running) ≡ 2 * before
    → AscendingFrom b (map (λ e. e.s) es)
    → Finds total before b es (find_median total first running es)
unfolding Finds find_median
find_median-Finds total before b running first [] fits low run a = inl (refl, omega (arith, low))
find_median-Finds total before b running first (e ∷ es) fits low run (a0, rises) =
    let twice = twice_exact before running e.w first (omega (arith, fits)) run in
    elim (Bool-cases (ltb total (2 * (before + e.w)))) [
      | inl here ↦
          rw (twice, here)
            (inr (
              e.s,
              refl,
              a0,
              omega (arith, low, none_below e.s e.s (e ∷ es) (omega arith) (omega arith, rises)),
              ground (arith, here),
            ))
      | inr later ↦
          let behind : 2 * (before + e.w) ≤ total = ground (arith, later) in
          rw (twice, later)
            (Finds-step total before b e es (find_median total false (2 * (before + e.w)) es) a0 (
              find_median-Finds total (before + e.w) e.s (2 * (before + e.w)) false es
                (omega (arith, fits)) behind refl rises))
    ]

-- The samples that were added, and their weight.
add_all-samples : (es : List Entry) (m : WeightedMedian) → (add_all es m).samples ≡ m.samples ++ es
unfolding add_all add
add_all-samples [] m = sym (append-nil m.samples)
add_all-samples (e ∷ es) m = add_all-samples es (add e m) ∙ append_assoc m.samples (e ∷ []) es

weight_if-append :
    (p : ℕ → Bool) (es fs : List Entry) → weight_if p (es ++ fs) ≡ weight_if p es + weight_if p fs
weight_if-append p [] fs = omega arith
weight_if-append p (e ∷ es) fs = omega (arith, weight_if-append p es fs)

add-weight :
    (e : Entry) (m : WeightedMedian)
    → m.total_weight ≡ weight m.samples
    → m.total_weight + e.w < 2 ^ 64
    → (add e m).total_weight ≡ weight (add e m).samples
unfolding add
add-weight e m h fits = elim (List-cases m.samples) [
  | inl empty ↦
      let first : (length m.samples == 0) ≡ true = rw empty refl in
      rw first (omega (arith, weight_if-append (λ s. true) m.samples (e ∷ []), ap weight empty))
  | inr (x, xs, more) ↦
      let later : (length m.samples == 0) ≡ false = ground (arith, more) in
      rw (later, add_exact m.total_weight e.w fits)
        (omega (arith, h, weight_if-append (λ s. true) m.samples (e ∷ [])))
]

add_all-weight :
    (es : List Entry) (m : WeightedMedian)
    → m.total_weight ≡ weight m.samples
    → m.total_weight + weight es < 2 ^ 64
    → (add_all es m).total_weight ≡ weight (add_all es m).samples
unfolding add_all add
add_all-weight [] m h fits = h
add_all-weight (e ∷ es) m h fits =
    let now = add-weight e m h (omega (arith, fits)) in
    add_all-weight es (add e m) now
      (omega (arith, fits, h, now, weight_if-append (λ s. true) m.samples (e ∷ [])))

-- The median splits the weight: at most half lies below it, more than half at or below it.
pub IsMedian : ℕ → List Entry → Type 0
IsMedian s items =
    (2 * weight_below s items ≤ weight items) × (weight items < 2 * weight_upto s items)

-- When twice the weight of the samples fits 64 bits, `finalize` after adding them returns a sample
-- value that has at most half of the weight below it and more than half at or below it, or it
-- returns none and the samples have no weight.
pub finalize-IsMedian :
    (items : List Entry)
    → 2 * weight items < 2 ^ 64
    → ((finalize (add_all items no_samples) ≡ none) × (weight items ≡ 0))
      ⊎ ((s : ℕ) × (finalize (add_all items no_samples) ≡ some s) × IsMedian s items)
unfolding finalize IsMedian Finds
finalize-IsMedian items fits =
    let m : WeightedMedian = add_all items no_samples in
    let all : m.samples ≡ items = add_all-samples items no_samples in
    let total : m.total_weight ≡ weight items =
      add_all-weight items no_samples refl (omega (arith, fits)) ∙ ap weight all in
    let same : (p : ℕ → Bool)
        → weight_if p (insert_all (λ e. e.s) m.samples []) ≡ weight_if p items =
      λ p. omega (arith, weight_if-insert_all p m.samples [], ap (weight_if p) all) in
    elim (find_median-Finds m.total_weight 0 0 m.total_weight true
      (insert_all (λ e. e.s) m.samples []) (omega (arith, fits, same (λ s. true))) (omega arith)
      refl (insert_all-ascending (λ e. e.s) m.samples [] tt)) [
        | inl (f, low) ↦ inl (f, omega (arith, low, total, same (λ s. true)))
        | inr (s, f, lower, low, high) ↦ inr (
          s,
          f,
          (
            omega (arith, low, total, same (λ t. ltb t s)),
            omega (arith, high, total, same (λ t. leb t s)),
          ),
        )
      ]
