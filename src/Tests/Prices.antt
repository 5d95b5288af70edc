-- ===== src/Tests/Prices.antt =====
-- The game of prices (Boss/Mod/FeeModderByPriceTheory.cpp) at concrete inputs.
use clboss.Base.{
  ◌≤◌, ◌<◌, ◌≡◌, ◌⊎◌, refl, Bool, true, List, [], ◌∷◌, Option, none, some, arith, keep_if, count_if,
  SameItems,
}
use clboss.Base.Integers.{ℤ, pos, distance}
use clboss.PriceTheory.{
  Card, Db, first, selects, discarded, initial_price, fetch_in_play, get_center_price,
  reshuffle_deck, end_game_round, get_price,
}
use clboss.PriceTheory.Deal.{IsDealt, five_around, reshuffle_deck-IsDealt}
use clboss.PriceTheory.Draw.{get_price-returns}
use clboss.PriceTheory.Game.{IsGame}
use clboss.PriceTheory.Round.{end_game_round-walk}
use clboss.PriceTheory.Session.{
  Event, asked, ticked, earned, run, no_cards, one_card-IsGame, run-IsGame,
}

-- A shuffle: the first two cards change places.
abbrev swap : List ℤ → List ℤ
swap (a ∷ b ∷ rest) = b ∷ a ∷ rest
swap few = few

swap-SameItems : (ps : List ℤ) → SameItems ps (swap ps)
swap-SameItems [] q = refl
swap-SameItems (a ∷ []) q = refl
swap-SameItems (a ∷ b ∷ rest) q = omega arith

abbrev best : List Card → Option Card
best = first

best-member :
    (cs : List Card) (c : Card) (p : Card → Bool)
    → best cs ≡ some c
    → p c ≡ true
    → 0 < count_if p cs
best-member [] c p e h = absurd (ground arith)
best-member (d ∷ cs) c p e h = let same : d ≡ c = ground arith in rw (same, h) (omega arith)

best-empty : (cs : List Card) → best cs ≡ none → cs ≡ []
best-empty [] e = refl
best-empty (d ∷ cs) e = absurd (ground arith)

abbrev played : List Event
played =
    asked 7 best swap
    ∷ ticked (7 ∷ 8 ∷ [])
    ∷ earned 7 500
    ∷ asked 8 best swap
    ∷ asked 7 best swap
    ∷ []

run-IsGame_example : (last : Db) × (run played no_cards ≡ some last) × IsGame last
run-IsGame_example =
    run-IsGame played (swap-SameItems, (tt, (tt, (swap-SameItems, (swap-SameItems, tt)))))

get_price-returns_example :
    (price : ℤ) × (db : Db) × (get_price best swap 2 7 no_cards ≡ some (price, db))
    × (fetch_in_play 7 db ≡ some price)
get_price-returns_example = get_price-returns best swap swap-SameItems 7 no_cards

reshuffle_deck-IsDealt_example :
    IsDealt 7
      (five_around (get_center_price 7 no_cards))
      no_cards.cards
      (reshuffle_deck best swap 7 no_cards).cards
reshuffle_deck-IsDealt_example = reshuffle_deck-IsDealt swap swap-SameItems best 7 no_cards

-- The node 7 earned with the price 2, and has no card left.
abbrev spent_card : Card
spent_card = record {
  id = 4;
  node = 7;
  at = discarded;
  deckorder = 0;
  price = pos 2;
  lifetime = pos 0;
  earnings = 100;
}

abbrev spent : Db
spent = record { centerprice = []; cards = spent_card ∷ [] }

end_game_round-walk_example :
    (distance (get_center_price 7 (end_game_round best swap 7 spent)) (get_center_price 7 spent)
      ≤ 2)
    ⊎ ((get_center_price 7 (end_game_round best swap 7 spent) ≡ initial_price)
        × (keep_if (selects 7 discarded) spent.cards ≡ []))
end_game_round-walk_example =
    end_game_round-walk best swap swap-SameItems best-member best-empty 7 spent
      (one_card-IsGame spent_card (omega arith))
