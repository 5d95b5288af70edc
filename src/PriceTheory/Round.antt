-- ===== src/PriceTheory/Round.antt =====
-- What `end_game_round` and `get_price` keep true of the card table, and how far the centre moves.
use mathlib.Core.Path.{ap₂}
use clboss.Base.{
  ℕ, zero, suc, ◌≤◌, ◌<◌, ◌≡◌, ◌≢◌, refl, ap, ◌∙◌, ◌⊎◌, inl, inr, Bool, true, false, not, List, [],
  Option, none, some, arith, ltb, ◌==◌, keep_if, count_if, SameItems, Option-cases, Bool-cases,
  ==_refl,
}
use clboss.Base.Maps.{assign, Above, assign-Above, lookup-assign}
use clboss.Base.Integers.{ℤ, distance, distance_self}
use clboss.Creator.Planner.{NodeId}
use clboss.PriceTheory.{
  top_earners, deck, in_play, discarded, Card, Db, selects, initial_price, insert_cards, top_card,
  put_in_play, fetch_in_play, generate, get_center_price, update_centerprice, reshuffle_deck,
  end_game_round, draw_a_card, get_price,
}
use clboss.PriceTheory.Deal.{insert_cards-count, count_if_never, kept_never}
use clboss.PriceTheory.Game.{IsGame, is_far, play-IsGame}
use clboss.PriceTheory.Near.{
  top_earners-empty, top_earners-le, insert_cards-ids, generate-near, kept-le, no_fetch, centered,
  best_near,
}

module _ (best : List Card → Option Card) (shuffle : List ℤ → List ℤ)
    (shuffles : (ps : List ℤ) → SameItems ps (shuffle ps)) where
  dealt_near :
      (n : NodeId) (center : ℤ) (cs : List Card)
      → count_if
          (is_far n center)
          (insert_cards n 0 (shuffle (generate center)) (keep_if (λ c. not (c.node == n)) cs))
        ≡ 0
  dealt_near n center cs = omega (
    arith,
    insert_cards-count (is_far n center) (λ p. ltb 2 (distance p center)) n 0
        (shuffle (generate center)) (keep_if (λ c. not (c.node == n)) cs)
        (λ k order price. rw (==_refl n) refl),
    kept_never n (is_far n center) cs (λ c h. rw h refl),
    shuffles (generate center) (λ p. ltb 2 (distance p center)),
    generate-near center,
  )

  -- A new deck is near the centre, whatever the cards of the node were before.
  reshuffle_deck-IsGame :
      (n : NodeId) (db : Db)
      → Above 0 db.centerprice
      → ((i : ℕ) → count_if (λ c. c.id == i) db.cards ≤ 1)
      → ((m : NodeId) → count_if (selects m in_play) db.cards ≤ 1)
      → ((m : NodeId) → n ≢ m → count_if (is_far m (get_center_price m db)) db.cards ≡ 0)
      → IsGame (reshuffle_deck best shuffle n db)
  unfolding reshuffle_deck get_center_price
  reshuffle_deck-IsGame n db a ids single near =
      let prices = shuffle (generate (get_center_price n db)) in
      let kept = keep_if (λ c. not (c.node == n)) db.cards in
      record {
        centers = a;
        ids =
            insert_cards-ids n 0 prices kept
              (λ k. omega (arith, ids k, kept-le n (λ c. c.id == k) db.cards));
        single = λ m. omega (
          arith,
          insert_cards-count (selects m in_play) (λ p. false) n 0 prices kept
              (λ k order price. ground arith),
          count_if_never (λ (p : ℤ). false) prices (λ p. refl),
          kept-le n (selects m in_play) db.cards,
          single m,
        );
        near = λ m. elim (Bool-cases (n == m)) [
          | inl e ↦
              let same : n ≡ m = ground arith in
              rw (← same) (dealt_near n (get_center_price n db) db.cards)
          | inr e ↦ omega (
            arith,
            insert_cards-count (is_far m (get_center_price m db)) (λ p. false) n 0 prices kept
                (λ k order price. rw e refl),
            count_if_never (λ (p : ℤ). false) prices (λ p. refl),
            kept-le n (is_far m (get_center_price m db)) db.cards,
            near m (ground arith),
          )
        ];
      }

  -- The centre stays, or is set to the initial price or to that of the best discarded card.
  Recentered : NodeId → Db → Db → Type 0
  Recentered n db db' =
      (db' ≡ db)
      ⊎ ((price : ℤ) × (db' ≡ record db { centerprice = assign n price db.centerprice })
          × (((best (top_earners (keep_if (selects n discarded) db.cards)) ≡ none)
                × (price ≡ initial_price))
              ⊎ ((c : Card) × (best (top_earners (keep_if (selects n discarded) db.cards)) ≡ some c)
                  × (price ≡ c.price))))

  update_centerprice-Recentered :
      (n : NodeId) (db : Db) → Recentered n db (update_centerprice best shuffle n db)
  unfolding Recentered update_centerprice
  update_centerprice-Recentered n db =
      elim (Option-cases (best (top_earners (keep_if (selects n discarded) db.cards)))) [
        | inl e ↦ inr (initial_price, rw (e, update_centerprice) refl, inl (e, refl))
        | inr (c, e) ↦ elim (Bool-cases (c.earnings == 0)) [
          | inl z ↦ inl (rw (e, z, update_centerprice) refl)
          | inr z ↦ inr (c.price, rw (e, z, update_centerprice) refl, inr (c, e, refl))
        ]
      ]

  Recentered-others :
      (n m : NodeId) (db db' : Db)
      → Above 0 db.centerprice
      → Recentered n db db'
      → (db'.cards ≡ db.cards)
        × Above 0 db'.centerprice
        × (n ≢ m → get_center_price m db' ≡ get_center_price m db)
  unfolding Recentered get_center_price
  Recentered-others n m db db' a (inl e) = rw e (refl, a, λ h. refl)
  Recentered-others n m db db' a (inr (price, e, from)) = rw e (
    refl,
    assign-Above 0 n price db.centerprice (omega arith) a,
    λ h. ground (arith, lookup-assign 0 m n price db.centerprice a),
  )

  pub end_game_round-IsGame :
      (n : NodeId) (db : Db) → IsGame db → IsGame (end_game_round best shuffle n db)
  unfolding end_game_round
  end_game_round-IsGame n db g =
      let db' = update_centerprice best shuffle n db in
      let moved = update_centerprice-Recentered n db in
      let (cards, above, same) = Recentered-others n n db db' g.centers moved in
      reshuffle_deck-IsGame n db' above
        (λ i. omega (arith, ap (count_if (λ c. c.id == i)) cards, g.ids i))
        (λ m. omega (arith, ap (count_if (selects m in_play)) cards, g.single m))
        (λ m h.
          let (cs, ab, kept) = Recentered-others n m db db' g.centers moved in
          ap₂ (λ z cs'. count_if (is_far m z) cs') (kept h) cs ∙ g.near m)

  end_game_round_free :
      (n : NodeId) (db : Db)
      → count_if (selects n in_play) (end_game_round best shuffle n db).cards ≡ 0
  unfolding end_game_round reshuffle_deck
  end_game_round_free n db =
      let db' = update_centerprice best shuffle n db in
      let prices = shuffle (generate (get_center_price n db')) in
      omega (
        arith,
        insert_cards-count (selects n in_play) (λ p. false) n 0 prices
            (keep_if (λ c. not (c.node == n)) db'.cards) (λ k order price. ground arith),
        count_if_never (λ (p : ℤ). false) prices (λ p. refl),
        kept_never n (selects n in_play) db'.cards (λ c h. rw h refl),
      )

  draw_a_card-IsGame :
      (fuel : ℕ) (n : NodeId) (db db' : Db)
      → IsGame db
      → count_if (selects n in_play) db.cards ≡ 0
      → draw_a_card best shuffle fuel n db ≡ some db'
      → IsGame db'
  unfolding draw_a_card
  draw_a_card-IsGame zero n db db' g free e = absurd (ground arith)
  draw_a_card-IsGame (suc fuel) n db db' g free e =
      elim (Option-cases (top_card (keep_if (selects n deck) db.cards))) [
        | inl e1 ↦
            draw_a_card-IsGame fuel n (end_game_round best shuffle n db) db'
              (end_game_round-IsGame n db g) (end_game_round_free n db) (ground (arith, e, e1))
        | inr (d, e1) ↦
            let same : db' ≡ record db { cards = put_in_play d.id db.cards } =
              ground (arith, e, e1) in
            rw same (play-IsGame n db d g free e1)
      ]

  -- Asking for a price keeps the card table in order: ids stay unique, each node has at most one
  -- card in play, and no card is more than two steps off the centre of its node.
  pub get_price-IsGame :
      (fuel : ℕ) (n : NodeId) (db : Db) (price : ℤ) (db' : Db)
      → IsGame db
      → get_price best shuffle fuel n db ≡ some (price, db')
      → IsGame db'
  unfolding get_price
  get_price-IsGame zero n db price db' g e = absurd (ground arith)
  get_price-IsGame (suc fuel) n db price db' g e = elim (Option-cases (fetch_in_play n db)) [
    | inr (p, e1) ↦ let same : db' ≡ db = ground (arith, e, e1) in rw same g
    | inl e1 ↦ elim (Option-cases (draw_a_card best shuffle 2 n db)) [
      | inl e2 ↦ absurd (ground (arith, e, e1, e2))
      | inr (drawn, e2) ↦
          get_price-IsGame fuel n drawn price db'
            (draw_a_card-IsGame 2 n db drawn g (no_fetch n db e1) e2) (ground (arith, e, e1, e2))
    ]
  ]

  -- If the shuffle keeps the prices, and the best of some discarded cards is one of them, a round
  -- of a table in order moves the centre by at most two steps, or no card was discarded and the
  -- centre becomes the initial price.
  pub end_game_round-walk :
      ((cs : List Card) (c : Card) (p : Card → Bool)
        → best cs ≡ some c
        → p c ≡ true
        → 0 < count_if p cs)
      → ((cs : List Card) → best cs ≡ none → cs ≡ [])
      → (n : NodeId) (db : Db) → IsGame db
      → let center = get_center_price n (end_game_round best shuffle n db) in
        (distance center (get_center_price n db) ≤ 2)
        ⊎ ((center ≡ initial_price) × (keep_if (selects n discarded) db.cards ≡ []))
  unfolding end_game_round reshuffle_deck Recentered get_center_price
  end_game_round-walk member empty n db g = elim (update_centerprice-Recentered n db) [
    | inl e ↦ inl (rw e (omega (arith, distance_self (get_center_price n db))))
    | inr (price, e, inl (none_left, init)) ↦ inr (
      rw (e, init) (centered n initial_price db g.centers),
      top_earners-empty _ (empty _ none_left),
    )
    | inr (price, e, inr (c, is_best, of_card)) ↦ inl (
        rw (e, of_card, centered n c.price db g.centers)
          (best_near n c db g (λ far. omega (
            arith,
            member (top_earners (keep_if (selects n discarded) db.cards)) c
                (λ d. ltb 2 (distance d.price (get_center_price n db))) is_best far,
            top_earners-le (λ d. ltb 2 (distance d.price (get_center_price n db)))
                (keep_if (selects n discarded) db.cards),
          ))))
  ]
