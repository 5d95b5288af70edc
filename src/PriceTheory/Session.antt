-- ===== src/PriceTheory/Session.antt =====
-- Sequences of the transactions on the card table.
use clboss.Base.{ℕ, ◌≤◌, ◌≡◌, refl, List, [], ◌∷◌, Option, none, some, arith, All, SameItems}
use clboss.Base.Integers.{ℤ, distance}
use clboss.Creator.Planner.{NodeId}
use clboss.PriceTheory.{
  Card, Db, get_price, update_10_minutes, forward_fee, get_center_price, initial_price,
}
use clboss.PriceTheory.Draw.{get_price-returns}
use clboss.PriceTheory.Game.{IsGame, update_10_minutes-IsGame, forward_fee-IsGame}
use clboss.PriceTheory.Round.{get_price-IsGame}

-- A request comes with the random shuffle and the choice among equals that it meets.
pub data Event : Type 0 where
  asked : NodeId → (List Card → Option Card) → (List ℤ → List ℤ) → Event
  ticked : List NodeId → Event
  earned : NodeId → ℕ → Event

abbrev pub IsLawful : Event → Type 0
IsLawful (asked n best shuffle) = (ps : List ℤ) → SameItems ps (shuffle ps)
IsLawful (ticked connected) = Unit {0}
IsLawful (earned n fee) = Unit {0}

-- `none` would be a request that does not return.
pub step : Event → Db → Option Db
step (asked n best shuffle) db = elim (get_price best shuffle 2 n db) [
  | none ↦ none
  | some r ↦ some r.1
]
step (ticked connected) db = some (update_10_minutes connected db)
step (earned n fee) db = some (forward_fee n fee db)

pub run : List Event → Db → Option Db
run [] db = some db
run (e ∷ es) db = elim (step e db) [ none ↦ none | some next ↦ run es next ]

abbrev pub no_cards : Db
no_cards = record { centerprice = []; cards = [] }

no_cards-IsGame : IsGame no_cards
no_cards-IsGame = record {
  centers = tt;
  ids = λ i. omega arith;
  single = λ n. omega arith;
  near = λ n. refl;
}

-- A table of one card whose price is near the initial one.
pub one_card-IsGame :
    (c : Card)
    → distance c.price initial_price ≤ 2
    → IsGame (record { centerprice = []; cards = c ∷ [] })
unfolding get_center_price
one_card-IsGame c h = record {
  centers = tt;
  ids = λ i. ground arith;
  single = λ n. ground arith;
  near = λ n. ground (arith, h);
}

step-IsGame :
    (e : Event) (db : Db)
    → IsLawful e
    → IsGame db
    → (next : Db) × (step e db ≡ some next) × IsGame next
unfolding step
step-IsGame (asked n best shuffle) db h g =
    let (price, next, q, f) = get_price-returns best shuffle h n db in
    (next, rw (q, step) refl, get_price-IsGame best shuffle h 2 n db price next g q)
step-IsGame (ticked connected) db h g =
    (update_10_minutes connected db, refl, update_10_minutes-IsGame connected db g)
step-IsGame (earned n fee) db h g = (forward_fee n fee db, refl, forward_fee-IsGame n fee db g)

runs-IsGame :
    (es : List Event) (db : Db)
    → All IsLawful es
    → IsGame db
    → (last : Db) × (run es db ≡ some last) × IsGame last
unfolding run
runs-IsGame [] db h g = (db, refl, g)
runs-IsGame (e ∷ es) db h g =
    let (next, q, g') = step-IsGame e db h.0 g in
    let (last, r, g'') = runs-IsGame es next h.1 g' in (last, rw (q, run) r, g'')

-- From the empty table, any sequence of requests, ticks and fees whose shuffles keep the prices
-- runs to its end, and leaves unique ids, at most one card in play for each node, and no card more
-- than two steps off the centre of its node.
pub run-IsGame :
    (es : List Event) → All IsLawful es → (last : Db) × (run es no_cards ≡ some last) × IsGame last
run-IsGame es h = runs-IsGame es no_cards h no_cards-IsGame
