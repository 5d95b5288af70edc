-- ===== src/Creator/Planner/Divide.antt =====
-- The dry run of `Planner::Impl::check_results`, which divides what is left among all results.
use clboss.Base.{
  ℕ, suc, ◌+◌, ◌-◌, ◌*◌, ◌≤◌, ◌<◌, ◌^◌, ◌≡◌, refl, ap, [], ◌∷◌, none, some, min, arith, ltb, length,
  All, count, count_if, Option-cases, inl, inr,
}
use clboss.Base.Maps.{keys, Above}
use clboss.Ln.Amount.{Amount}
use clboss.Ln.Amount.Laws.{add_exact}
use clboss.Creator.Planner.{Plan, divide}
use clboss.Creator.Planner.Sums.{total_of}
use clboss.Creator.Planner.Loop.{InRange}

-- `m'` is `m` with every amount raised and still within the limits, `extra` more in all.
pub record IsRaised (lo hi extra : Amount) (m m' : Plan) : Type 0 where
  pub raised_sum : total_of m' ≡ total_of m + extra
  pub raised_within : All (λ e. InRange lo hi e.1) m'
  pub raised_length : length m' ≡ length m
  pub raised_count : (k : ℕ) → count k (keys m') ≡ count k (keys m)
  pub raised_sorted : (b : ℕ) → Above b m → Above b m'

-- What a dry run that succeeds does at the entry in front.
record IsStep (i d r hi a : ℕ) (n : ℕ) (m m' : Plan) : Type 0 where
  rest : Plan
  goes_on : divide (i + 1) d r hi m ≡ some rest
  sum : Amount
  sum_is : sum ≡ a + d + min (r - i) 1
  sum_fits : sum ≤ hi
  is_cons : m' ≡ (n, sum) ∷ rest

divide-IsStep :
    (i d r hi n a : ℕ) (m m' : Plan)
    → a < 2 ^ 63
    → d + 1 < 2 ^ 63
    → divide i d r hi ((n, a) ∷ m) ≡ some m'
    → IsStep i d r hi a n m m'
unfolding divide
divide-IsStep i d r hi n a m m' h k e = elim (Option-cases (divide (i + 1) d r hi m)) [
  | inl none_left ↦ absurd (ground arith)
  | inr (rest, q) ↦ record {
    rest = rest;
    goes_on = q;
    sum = a + d + min (r - i) 1;
    sum_is = refl;
    sum_fits = ground (arith, add_exact d 1, add_exact a d, add_exact a (d + 1));
    is_cons = ground (arith, add_exact d 1, add_exact a d, add_exact a (d + 1));
  }
]

-- The first `r - i` entries get one unit more than the others.
pub divide-IsRaised :
    (i d r lo hi : ℕ) (m m' : Plan)
    → hi < 2 ^ 63
    → d + 1 < 2 ^ 63
    → All (λ e. InRange lo hi e.1) m
    → divide i d r hi m ≡ some m'
    → IsRaised lo hi (d * length m + min (r - i) (length m)) m m'
divide-IsRaised i d r lo hi [] m' h k v e =
    let e' : m' ≡ [] = unfold divide in ground arith in
    rw e' (record {
      raised_sum = omega arith;
      raised_within = tt;
      raised_length = refl;
      raised_count = λ k. refl;
      raised_sorted = λ b a. a;
    })
divide-IsRaised i d r lo hi ((n, a) ∷ m) m' h k v e =
    let s = divide-IsStep i d r hi n a m m' (omega arith) k e in
    let ih = divide-IsRaised (i + 1) d r lo hi m s.rest h k v.1 s.goes_on in
    rw s.is_cons (record {
      raised_sum = omega (arith, ih.raised_sum, s.sum_is);
      raised_within = (omega (arith, s.sum_is, s.sum_fits), ih.raised_within);
      raised_length = ap suc ih.raised_length;
      raised_count = λ j. omega (arith, ih.raised_count j);
      raised_sorted = λ b w. (w.0, ih.raised_sorted (suc n) w.1);
    })

-- A dry run that fails has met an amount that the whole of what is left would take past the limit.
pub divide-none :
    (i d r hi rest : ℕ) (m : Plan)
    → d + min r 1 ≤ rest
    → hi < 2 ^ 63
    → rest < 2 ^ 63
    → All (λ e. e.1 ≤ hi) m
    → divide i d r hi m ≡ none
    → 0 < count_if (λ e. ltb hi (e.1 + rest)) m
unfolding divide
divide-none i d r hi rest [] h k l v e = cc
divide-none i d r hi rest ((n, a) ∷ m) h k l v e = ground (
  arith,
  add_exact d 1,
  add_exact a d,
  add_exact a (d + 1),
  divide-none (i + 1) d r hi rest m h k l v.1,
)
