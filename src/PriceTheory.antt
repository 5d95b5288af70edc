-- ===== src/PriceTheory.antt =====
-- Boss/Mod/FeeModderByPriceTheory.cpp: the game of cards that finds the price of each node. The
-- database is a value; each of its transactions is one function. The shuffle, and the row that SQL
-- returns first among the discarded cards that earned most, are arguments.
pub mod Deal
pub mod Draw
pub mod Game
pub mod Near
pub mod Round
pub mod Session
use clboss.Base.{
  ℕ, zero, suc, ◌+◌, Bool, true, false, ◌&&◌, List, [], ◌∷◌, ◌++◌, Option, none, some, map, max,
  ltb, ◌==◌, if◌then◌else◌, not, keep_if, count_if,
}
use clboss.Base.Maps.{lookup, assign}
use clboss.Base.Integers.{ℤ, pos, add_nat, sub_nat, is_spent}
use clboss.Creator.Planner.{NodeId}

abbrev pub initial_price : ℤ
initial_price = pos 0

abbrev pub initial_lifetime : ℤ
initial_lifetime = pos 288

abbrev pub max_step : ℕ
max_step = 2

pub data CardPos : Type 0 where
  deck in_play discarded : CardPos

pub record Card : Type 0 where
  pub id : ℕ
  pub node : NodeId
  pub at : CardPos
  pub deckorder : ℕ
  pub price : ℤ
  pub lifetime : ℤ
  pub earnings : ℕ

pub record Db : Type 0 where
  pub centerprice : List (NodeId × ℤ)
  pub cards : List Card

abbrev pub is_at : CardPos → CardPos → Bool
is_at deck p = elim p [ deck ↦ true | in_play ↦ false | discarded ↦ false ]
is_at in_play p = elim p [ deck ↦ false | in_play ↦ true | discarded ↦ false ]
is_at discarded p = elim p [ deck ↦ false | in_play ↦ false | discarded ↦ true ]

-- `WHERE node = :node AND pos = :pos`.
abbrev pub selects : NodeId → CardPos → Card → Bool
selects n p c = c.node == n && is_at p c.at

abbrev pub first {ℓ} : {A : Type ℓ} → List A → Option A
first [] = none
first (x ∷ xs) = some x

pub fetch_in_play : NodeId → Db → Option ℤ
fetch_in_play n db = elim (first (keep_if (selects n in_play) db.cards)) [
  | none ↦ none
  | some c ↦ some c.price
]

pub get_cards_left : NodeId → Db → ℕ
get_cards_left n db = count_if (selects n deck) db.cards

pub get_center_price : NodeId → Db → ℤ
get_center_price n db = elim (lookup n db.centerprice) [ none ↦ initial_price | some price ↦ price ]

-- `ORDER BY deckorder DESC`: the first of the rows. No two cards of a deck have the same order.
pub top_card : List Card → Option Card
top_card [] = none
top_card (c ∷ cs) = elim (top_card cs) [
  | none ↦ some c
  | some d ↦ some (if ltb c.deckorder d.deckorder then d else c)
]

-- `SET pos = :CardPos_InPlay WHERE id = :id`.
pub put_in_play : ℕ → List Card → List Card
put_in_play i = map (λ c. if c.id == i then record c { at = in_play } else c)

-- SQL gives a new row an id above all others.
pub max_id : List Card → ℕ
max_id [] = 0
max_id (c ∷ cs) = max c.id (max_id cs)

pub insert_card : NodeId → ℕ → ℤ → List Card → List Card
insert_card n i price cards =
    cards
    ++ (record {
      id = max_id cards + 1;
      node = n;
      at = deck;
      deckorder = i;
      price = price;
      lifetime = initial_lifetime;
      earnings = 0;
    })
      ∷ []

pub insert_cards : NodeId → ℕ → List ℤ → List Card → List Card
insert_cards n i [] cards = cards
insert_cards n i (price ∷ prices) cards =
    insert_cards n (i + 1) prices (insert_card n i price cards)

-- The steps that the loop over `i` still adds, `left` of them.
pub generate_steps : ℤ → ℕ → ℕ → List ℤ
generate_steps centerprice i zero = []
generate_steps centerprice i (suc left) =
    add_nat centerprice (i + 1)
    ∷ sub_nat centerprice (i + 1)
    ∷ generate_steps centerprice (i + 1) left

pub generate : ℤ → List ℤ
generate centerprice = centerprice ∷ generate_steps centerprice 0 max_step

-- `ORDER BY earnings DESC`: the rows that may come first.
pub top_earnings : List Card → ℕ
top_earnings [] = 0
top_earnings (c ∷ cs) = max c.earnings (top_earnings cs)

pub top_earners : List Card → List Card
top_earners cs = keep_if (λ c. c.earnings == top_earnings cs) cs

module _ (best : List Card → Option Card) (shuffle : List ℤ → List ℤ) where
  pub update_centerprice : NodeId → Db → Db
  update_centerprice n db = elim (best (top_earners (keep_if (selects n discarded) db.cards))) [
    | none ↦ record db { centerprice = assign n initial_price db.centerprice }
    | some c ↦
        if c.earnings == 0 then db else record db { centerprice = assign n c.price db.centerprice }
  ]

  pub reshuffle_deck : NodeId → Db → Db
  reshuffle_deck n db =
      let kept = keep_if (λ c. not (c.node == n)) db.cards in
      record db { cards = insert_cards n 0 (shuffle (generate (get_center_price n db))) kept }

  pub end_game_round : NodeId → Db → Db
  end_game_round n db = reshuffle_deck n (update_centerprice n db)

  -- The recursion runs on fuel.
  pub draw_a_card : ℕ → NodeId → Db → Option Db
  draw_a_card zero n db = none
  draw_a_card (suc fuel) n db =
      let again = draw_a_card fuel n (end_game_round n db) in
      elim (top_card (keep_if (selects n deck) db.cards)) [
        | some c ↦ some (record db { cards = put_in_play c.id db.cards })
        | none ↦ again
      ]

  -- The recursion runs on fuel, and so does each draw, on two.
  pub get_price : ℕ → NodeId → Db → Option (ℤ × Db)
  get_price zero n db = none
  get_price (suc fuel) n db = elim (fetch_in_play n db) [
    | some price ↦ some (price, db)
    | none ↦ elim (draw_a_card 2 n db) [ none ↦ none | some drawn ↦ get_price fuel n drawn ]
  ]

-- `SET lifetime = lifetime - 1` at the card of one connected node that is in play.
pub age : NodeId → List Card → List Card
age n = map (λ c. if selects n in_play c then record c { lifetime = sub_nat c.lifetime 1 } else c)

pub age_all : List NodeId → List Card → List Card
age_all [] cards = cards
age_all (n ∷ ns) cards = age_all ns (age n cards)

pub discard_spent : List Card → List Card
discard_spent =
    map (λ c. if is_at in_play c.at && is_spent c.lifetime then record c { at = discarded } else c)

pub update_10_minutes : List NodeId → Db → Db
update_10_minutes connected db = record db { cards = discard_spent (age_all connected db.cards) }

pub forward_fee : NodeId → ℕ → Db → Db
forward_fee n fee db = record db {
  cards =
      map (λ c. if selects n in_play c then record c { earnings = c.earnings + fee } else c)
        db.cards;
}
