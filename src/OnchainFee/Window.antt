-- ===== src/OnchainFee/Window.antt =====
-- Which samples the table holds.
use mathlib.Core.List.{append-nil, append_assoc}
use clboss.Base.{
  ℕ, zero, suc, ◌+◌, ◌-◌, ◌≤◌, ◌≡◌, ◌∙◌, refl, sym, ap, inl, inr, List, [], ◌∷◌, ◌++◌, none, some,
  arith, ltb, length, drop, length-append, Bool-cases,
}
use clboss.OnchainFee.{
  OnchainFeeMonitor, Event, started, retried, ticked, max_num_samples, num_initial_samples,
  initial_sample, fill_samples, initialize_sample_data, create, check_num_samples, add_sample,
  on_init, on_timer, retry, step, run,
}

-- The newest items.
abbrev pub keep_last : ℕ → List ℕ → List ℕ
keep_last k xs = drop (length xs - k) xs

-- The feerates that the timer brought.
abbrev pub sampled : List Event → List ℕ
sampled [] = []
sampled (ticked (some feerate) ∷ es) = feerate ∷ sampled es
sampled (ticked none ∷ es) = sampled es
sampled (started feerate ∷ es) = sampled es
sampled (retried feerate ∷ es) = sampled es

drop-append : (k : ℕ) (xs ys : List ℕ) → k ≤ length xs → drop k (xs ++ ys) ≡ drop k xs ++ ys
drop-append zero xs ys h = refl
drop-append (suc k) [] ys h = absurd (omega (arith, h))
drop-append (suc k) (x ∷ xs) ys h = drop-append k xs ys (omega (arith, h))

drop-nil : (n : ℕ) → drop {A = ℕ} n [] ≡ []
drop-nil zero = refl
drop-nil (suc n) = refl

drop-drop : (i j n : ℕ) (xs : List ℕ) → n ≡ j + i → drop i (drop j xs) ≡ drop n xs
drop-drop i zero n xs h = ap (λ k. drop k xs) (omega (arith, h))
drop-drop i (suc j) zero xs h = absurd (omega (arith, h))
drop-drop i (suc j) (suc n) [] h = drop-nil i
drop-drop i (suc j) (suc n) (x ∷ xs) h = drop-drop i j n xs (omega (arith, h))

length-drop : (k : ℕ) (xs : List ℕ) → length (drop k xs) ≡ length xs - k
length-drop zero xs = omega arith
length-drop (suc k) [] = omega arith
length-drop (suc k) (x ∷ xs) = omega (arith, length-drop k xs)

add_sample-eq :
    (f : ℕ) (samples : List ℕ)
    → add_sample f samples ≡ keep_last max_num_samples (samples ++ f ∷ [])
unfolding add_sample check_num_samples
add_sample-eq f samples = elim (Bool-cases (ltb 2016 (length (samples ++ f ∷ [])))) [
  | inl e ↦ rw e refl
  | inr e ↦
      let fits : length (samples ++ f ∷ []) - 2016 ≡ 0 = ground (arith, e) in rw (e, fits) refl
]

keep_last-append :
    (k : ℕ) (xs : List ℕ) (f : ℕ)
    → keep_last k (keep_last k xs ++ f ∷ []) ≡ keep_last k (xs ++ f ∷ [])
keep_last-append k xs f =
    let j : ℕ = length xs - k in
    let ys : List ℕ = drop j xs ++ f ∷ [] in
    let whole : ys ≡ drop j (xs ++ f ∷ []) = sym (drop-append j xs (f ∷ []) (omega arith)) in
    let total : length (xs ++ f ∷ []) - k ≡ j + (length ys - k) =
      omega
        (arith, length-append xs (f ∷ []), length-append (drop j xs) (f ∷ []), length-drop j xs) in
    ap (λ zs. drop (length ys - k) zs) whole
    ∙ drop-drop (length ys - k) j (length (xs ++ f ∷ []) - k) (xs ++ f ∷ []) total

step-window :
    (e : Event) (m : OnchainFeeMonitor) (all : List ℕ)
    → m.samples ≡ keep_last max_num_samples all
    → (step e m).samples ≡ keep_last max_num_samples (all ++ sampled (e ∷ []))
unfolding step on_init on_timer retry
step-window (started none) m all h = rw (append-nil all) h
step-window (started (some f)) m all h = rw (append-nil all) h
step-window (retried none) m all h = rw (append-nil all) h
step-window (retried (some f)) m all h = rw (append-nil all) h
step-window (ticked none) m all h = rw (append-nil all) h
step-window (ticked (some f)) m all h =
    rw (add_sample-eq f m.samples, h) (keep_last-append max_num_samples all f)

sampled-cons : (e : Event) (es : List Event) → sampled (e ∷ es) ≡ sampled (e ∷ []) ++ sampled es
sampled-cons (started f) es = refl
sampled-cons (retried f) es = refl
sampled-cons (ticked none) es = refl
sampled-cons (ticked (some f)) es = refl

steps-window :
    (es : List Event) (m : OnchainFeeMonitor) (all : List ℕ)
    → m.samples ≡ keep_last max_num_samples all
    → (run es m).samples ≡ keep_last max_num_samples (all ++ sampled es)
unfolding run
steps-window [] m all h = rw (append-nil all) h
steps-window (e ∷ es) m all h =
    rw (sampled-cons e es, ← append_assoc all (sampled (e ∷ [])) (sampled es))
      (steps-window es (step e m) (all ++ sampled (e ∷ [])) (step-window e m all h))

length-fill_samples : (n : ℕ) (xs : List ℕ) → length (fill_samples n xs) ≡ length xs + n
unfolding fill_samples
length-fill_samples zero xs = omega arith
length-fill_samples (suc n) xs = omega (
  arith,
  length-fill_samples n (xs ++ initial_sample ∷ []),
  length-append xs (initial_sample ∷ []),
)

-- From a table of at most 2016 rows, after any events the table holds the newest 2016 of the rows
-- that it had, with the initial samples that were missing, followed by the feerates that the timer
-- brought.
pub run-window :
    (rows : List ℕ) (es : List Event)
    → length rows ≤ max_num_samples
    → (run es (create rows)).samples
      ≡ keep_last max_num_samples (initialize_sample_data rows ++ sampled es)
unfolding create initialize_sample_data
run-window rows es h =
    let fits : length (initialize_sample_data rows) - 2016 ≡ 0 =
      omega (arith, h, length-fill_samples (num_initial_samples - length rows) rows) in
    steps-window es (create rows) (initialize_sample_data rows) (rw fits refl)
