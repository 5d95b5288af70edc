-- ===== src/Creator/Planner.antt =====
-- Boss/Mod/ChannelCreator/Planner.cpp: how the funds are divided among the proposals. A node
-- identifier is a number, ordered like the 33 bytes that it stands for. The dowser and the random
-- choice are arguments; `Ev::memoize` makes the dowser answer alike each time.
pub mod Sums
pub mod Loop
pub mod Divide
pub mod Deduct
pub mod Check
pub mod Outcome
pub mod Members
use clboss.Base.{
  is_empty, ℕ, ◌+◌, ◌*◌, ◌/◌, ◌%◌, Bool, true, false, ◌&&◌, List, [], ◌∷◌, Option, none, some, ltb,
  ◌==◌, if◌then◌else◌, length, get_elem?, keep_if, map,
}
use clboss.Base.Maps.{assign, keys, insert, value_or}
use clboss.Ln.Amount.{Amount, add, sub, times, half, lt, gt, le, ge}
use mathlib.Core.Option

abbrev pub NodeId : Type 0
NodeId = ℕ

-- A proposed node and its patron.
abbrev pub Proposal : Type 0
Proposal = NodeId × NodeId

abbrev pub Plan : Type 0
Plan = List (NodeId × Amount)

abbrev pub Dowser : Type 0
Dowser = NodeId → NodeId → Amount

pub record Planner : Type 0 where
  pub total : Amount
  pub remaining : Amount
  pub proposals : List Proposal
  pub at_least_2 : Bool
  pub min_amount : Amount
  pub max_amount : Amount
  pub min_remaining : Amount
  pub result : Plan
  pub rejected : List NodeId

-- The constructor; `none` is a failed assertion.
unfoldable pub create : Amount → List Proposal → ℕ → Amount → Amount → Amount → Option Planner
create amount proposals existing_channels min_amount max_amount min_remaining =
    if le (times min_amount 2) amount && le (add min_amount min_remaining) max_amount
    then some (record {
      total = amount;
      remaining = amount;
      proposals = proposals;
      at_least_2 = ltb existing_channels 2;
      min_amount = min_amount;
      max_amount = max_amount;
      min_remaining = min_remaining;
      result = [];
      rejected = [];
    })
    else none

-- How much of a dowsed amount is granted.
unfoldable pub granted : Planner → Amount → Amount
granted s dowsed =
    let capped = if gt dowsed s.max_amount then s.max_amount else dowsed in
    let amt = if gt capped s.remaining then s.remaining else capped in
    if s.at_least_2 && (length s.result == 0) && gt amt (half s.remaining)
    then half s.remaining
    else amt

-- The body of the loop, at the proposal in front.
unfoldable pub take_proposal : Dowser → Planner → Proposal → Planner
take_proposal dowser s (node, patron) =
    let amt = dowser node patron in
    let grant = granted s amt in
    if lt amt s.min_amount
    then record s { rejected = insert node s.rejected }
    else record s { result = assign node grant s.result; remaining = sub s.remaining grant }

-- The list is the queue; what is left of it goes back into the state when the loop ends.
unfoldable pub core_run : Dowser → List Proposal → Planner → Planner
core_run dowser [] s = record s { proposals = [] }
core_run dowser (p ∷ ps) s =
    if lt s.remaining s.min_amount
    then record s { proposals = p ∷ ps }
    else core_run dowser ps (take_proposal dowser s p)

-- The dry run that divides what is left among everyone; `none` is `can_divide == false`.
unfoldable pub divide : ℕ → ℕ → ℕ → Amount → Plan → Option Plan
divide i divided_ms remainder_ms max_amount [] = some []
divide i divided_ms remainder_ms max_amount ((n, a) ∷ m) =
    let divided = if ltb i remainder_ms then add divided_ms 1 else divided_ms in
    let sum = add a divided in
    let rest = divide (i + 1) divided_ms remainder_ms max_amount m in
    if gt sum max_amount then none else Option.map (λ r. (n, sum) ∷ r) rest

-- The results that `needed` can be deducted from.
unfoldable pub deductible : Amount → Amount → Plan → List NodeId
deductible min_amount needed m = keys (keep_if (λ e. le (add min_amount needed) e.1) m)

-- The next proposal gets all that was made to remain.
unfoldable pub spend_target : Amount → Planner → List Proposal → Planner
spend_target target s [] = s
spend_target target s ((node, patron) ∷ ps) = record s {
  result = assign node target s.result;
  proposals = ps;
  remaining = 0;
}

unfoldable pub deduct_target : Planner → Amount
deduct_target s = if is_empty s.proposals then s.min_remaining else s.min_amount

-- `choose n` is what the uniform distribution over 0 .. n - 1 draws. `none` is the failed assertion
-- that some result can be deducted from.
unfoldable pub deduct_one : (ℕ → ℕ) → Planner → Option Planner
unfolding deduct_target
deduct_one choose s =
    let target = deduct_target s in
    let needed = sub target s.remaining in
    let for_deduct = deductible s.min_amount needed s.result in
    elim (get_elem? for_deduct (choose (length for_deduct))) [
      | none ↦ none
      | some to_deduct ↦ some (
          spend_target target
            (record s {
              result = assign to_deduct (sub (value_or 0 to_deduct s.result) needed) s.result;
              remaining = target;
            })
            s.proposals)
    ]

-- Divide what is left among everyone, or else deduct from one.
unfoldable pub share_out : (ℕ → ℕ) → Planner → Option Planner
share_out choose s =
    let n = length s.result in
    elim (divide 0 (s.remaining / n) (s.remaining % n) s.max_amount s.result) [
      | some copy ↦ some (record s { result = copy })
      | none ↦ deduct_one choose s
    ]

unfoldable pub check_results : (ℕ → ℕ) → Planner → Option Planner
check_results choose s =
    let n = length s.result in
    if s.at_least_2 && ltb n 2
    then some (record s { result = [] })
    else if gt s.remaining 0
    then if n == 0
      then some s
      else if ge s.remaining s.min_remaining
      then some s
      else share_out choose s
    else some s

unfoldable pub add_rejected : List NodeId → Plan → Plan
add_rejected [] m = m
add_rejected (n ∷ ns) m = add_rejected ns (assign n 0 m)

-- The constructor and `run`, together.
unfoldable pub plan :
    Dowser → (ℕ → ℕ) → Amount → List Proposal → ℕ → Amount → Amount → Amount → Option Plan
plan dowser choose amount proposals existing_channels min_amount max_amount min_remaining =
    elim (create amount proposals existing_channels min_amount max_amount min_remaining) [
      | none ↦ none
      | some s ↦
          Option.map (λ t. add_rejected t.rejected t.result)
            (check_results choose (core_run dowser s.proposals s))
    ]
