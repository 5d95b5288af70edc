-- ===== src/Creator/Planner/Check.antt =====
-- `Planner::Impl::check_results`: it never fails an assertion, and what it leaves.
use clboss.Base.{
  ℕ, ◌+◌, ◌-◌, ◌*◌, ◌/◌, ◌%◌, ◌≤◌, ◌<◌, ◌≡◌, refl, subst, ◌⊎◌, inl, inr, true, false, ◌&&◌, [], ◌∷◌,
  some, min, arith, ltb, ◌==◌, Bool-cases, Option-cases, length, All,
}
use clboss.Ln.Amount.{gt, ge}
use clboss.Creator.Planner.{Plan, Planner, divide, share_out, check_results}
use clboss.Creator.Planner.Loop.{InRange, Inv}
use clboss.Creator.Planner.Divide.{IsRaised, divide-IsRaised, divide-none}
use clboss.Creator.Planner.Deduct.{IsChoice, IsChecked, deduct_one-IsChecked}

module _ (s : Planner) (v : Inv s.proposals s) where
  cleared-IsChecked : IsChecked s (record s { result = [] })
  cleared-IsChecked = record {
    within = tt;
    fresh = λ k. omega (arith, v.fresh k);
    leaves = inl refl;
    pair = λ p. inl refl;
  }

  kept-IsChecked :
      (s.result ≡ []) ⊎ (s.remaining ≡ 0) ⊎ (s.min_remaining ≤ s.remaining)
      → (s.result ≡ []) ⊎ (2 ≤ length s.result) ⊎ (s.at_least_2 ≡ false)
      → IsChecked s s
  kept-IsChecked left two = record {
    within = v.within;
    fresh = λ k. omega (arith, v.fresh k);
    leaves = ground (arith, left, v.spent);
    pair = λ p. ground (arith, two);
  }

  divided-IsChecked :
      (copy : Plan)
      → IsRaised s.min_amount s.max_amount s.remaining s.result copy
      → 2 ≤ length s.result ⊎ s.at_least_2 ≡ false
      → IsChecked s (record s { result = copy })
  divided-IsChecked copy r two = record {
    within = r.raised_within;
    fresh = λ k. omega (arith, v.fresh k, r.raised_count k);
    leaves = inr (inl (omega (arith, r.raised_sum, v.spent)));
    pair = λ p. ground (arith, two, r.raised_length);
  }

  length_zero : (m : Plan) → (length m == 0) ≡ true → m ≡ []
  length_zero [] h = refl
  length_zero (e ∷ m) h = ground arith

  All-upper :
      (m : Plan)
      → All (λ e. InRange s.min_amount s.max_amount e.1) m
      → All (λ e. e.1 ≤ s.max_amount) m
  All-upper [] h = tt
  All-upper (e ∷ m) h = (h.0.1, All-upper m h.1)

  -- Dividing hands out all that remains.
  shares : (n r : ℕ) → 0 < n → r / n * n + min (r % n - 0) n ≡ r
  shares n r h = grind arith

  share_out-IsChecked :
      (choose : ℕ → ℕ)
      → IsChoice choose
      → 0 < length s.result
      → s.remaining < s.min_remaining
      → (s.remaining < s.min_amount) ⊎ (s.proposals ≡ [])
      → 2 ≤ length s.result ⊎ s.at_least_2 ≡ false
      → (t : Planner) × (share_out choose s ≡ some t) × IsChecked s t
  unfolding share_out
  share_out-IsChecked choose lawful pos small stop two =
      let n = length s.result in
      let d = s.remaining / n in
      let r = s.remaining % n in
      let whole = shares n s.remaining pos in
      elim (Option-cases (divide 0 d r s.max_amount s.result)) [
        | inr (copy, e) ↦ (
          record s { result = copy },
          rw (e, share_out),
          divided-IsChecked copy
              (subst (λ extra. IsRaised s.min_amount s.max_amount extra s.result copy) whole
                (divide-IsRaised 0 d r s.min_amount s.max_amount s.result copy v.config.word
                  (grind (arith, v.config.room, v.config.word)) v.within e))
              two,
        )
        | inl e ↦
            let big =
              divide-none 0 d r s.max_amount s.remaining s.result (grind arith) v.config.word
                (omega (arith, v.config.room, v.config.word)) (All-upper s.result v.within) e in
            let (t, q, c) = deduct_one-IsChecked s v choose lawful small stop two big in
            (t, rw (e, share_out) q, c)
      ]

  -- After the loop, `check_results` ends on every branch.
  pub check_results-IsChecked :
      (choose : ℕ → ℕ)
      → IsChoice choose
      → (s.remaining < s.min_amount) ⊎ (s.proposals ≡ [])
      → (t : Planner) × (check_results choose s ≡ some t) × IsChecked s t
  unfolding check_results
  check_results-IsChecked choose lawful stop =
      elim (Bool-cases (s.at_least_2 && ltb (length s.result) 2)) [
        | inl few ↦ (record s { result = [] }, rw few, cleared-IsChecked)
        | inr enough ↦
            let two : 2 ≤ length s.result ⊎ s.at_least_2 ≡ false = ground arith in
            elim (Bool-cases (gt s.remaining 0)) [
              | inr spent ↦
                  (s, rw (enough, spent), kept-IsChecked (inr (inl (ground arith))) (inr two))
              | inl rest ↦ elim (Bool-cases (length s.result == 0)) [
                | inl nobody ↦
                    let e = length_zero s.result nobody in
                    (s, rw (enough, rest, nobody), kept-IsChecked (inl e) (inl e))
                | inr some_result ↦ elim (Bool-cases (ge s.remaining s.min_remaining)) [
                  | inl reserve ↦ (
                    s,
                    rw (enough, rest, some_result, reserve),
                    kept-IsChecked (inr (inr (ground arith))) (inr two),
                  )
                  | inr small ↦
                      let (t, e, c) =
                        share_out-IsChecked choose lawful (ground arith) (ground arith) stop two in
                      (t, rw (enough, rest, some_result, small) e, c)
                ]
              ]
            ]
      ]
