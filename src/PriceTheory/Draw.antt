-- ===== src/PriceTheory/Draw.antt =====
-- Drawing a card: `draw_a_card` and `get_price` return, and what they put in play.
use clboss.Base.{
  ℕ, suc, ◌≤◌, ◌<◌, ◌≡◌, refl, ◌∙◌, inl, inr, Bool, true, ◌&&◌, List, [], ◌∷◌, Option, none, some,
  arith, ltb, ◌==◌, if◌then◌else◌, keep_if, count_if, count_if-map, length, SameItems, Option-cases,
  Bool-cases, ==_refl,
}
use clboss.Base.Integers.{ℤ}
use clboss.Creator.Planner.{NodeId}
use clboss.PriceTheory.{
  deck, in_play, Card, Db, selects, first, top_card, put_in_play, fetch_in_play, generate,
  generate_steps, update_centerprice, end_game_round, draw_a_card, get_price,
}
use clboss.PriceTheory.Deal.{count_if-keep_if, count_if_always, reshuffle_deck-IsDealt}

first-some {ℓ} :
    {A : Type ℓ} (q : A → Bool) (xs : List A)
    → 0 < count_if q xs
    → (x : A) × (first (keep_if q xs) ≡ some x)
first-some q [] h = absurd (omega (arith, h))
first-some q (x ∷ xs) h = elim (Bool-cases (q x)) [
  | inl e ↦ (x, rw e refl)
  | inr e ↦ rw e (first-some q xs (ground (arith, h)))
]

top_card-some : (c : Card) (cs : List Card) → (d : Card) × (top_card (c ∷ cs) ≡ some d)
unfolding top_card
top_card-some c cs = elim (Option-cases (top_card cs)) [
  | inl e ↦ (c, rw e refl)
  | inr (d, e) ↦ (if ltb c.deckorder d.deckorder then d else c, rw e refl)
]

top_of : (cs : List Card) → 0 < length cs → (d : Card) × (top_card cs ≡ some d)
top_of [] h = absurd (omega (arith, h))
top_of (c ∷ cs) h = top_card-some c cs

-- The top card is one of the cards.
pub top_card-count :
    (p : Card → Bool) (cs : List Card) (d : Card)
    → top_card cs ≡ some d
    → p d ≡ true
    → 0 < count_if p cs
unfolding top_card
top_card-count p [] d e h = absurd (ground arith)
top_card-count p (c ∷ cs) d e h = elim (Option-cases (top_card cs)) [
  | inl q ↦ let same : c ≡ d = ground arith in rw (same, h) (omega arith)
  | inr (b, q) ↦ elim (Bool-cases (ltb c.deckorder b.deckorder)) [
    | inl l ↦
        let same : b ≡ d = ground (arith, e, q, l) in
        ground (arith, top_card-count p cs b q (rw same h))
    | inr l ↦ let same : c ≡ d = ground (arith, e, q, l) in rw (same, h) (omega arith)
  ]
]

-- A card of the node that is put in play is in play.
put_in_play-count :
    (i : ℕ) (n : NodeId) (cs : List Card)
    → count_if (λ c. (c.node == n) && (c.id == i)) cs
      ≤ count_if (selects n in_play) (put_in_play i cs)
unfolding put_in_play
put_in_play-count i n [] = omega arith
put_in_play-count i n (c ∷ cs) = ground (arith, put_in_play-count i n cs)

selected_node :
    (n : NodeId) (i : ℕ) (cs : List Card)
    → count_if (λ c. selects n deck c && (c.id == i)) cs
      ≤ count_if (λ c. (c.node == n) && (c.id == i)) cs
selected_node n i [] = omega arith
selected_node n i (c ∷ cs) = ground (arith, selected_node n i cs)

-- After a card of the node's deck is put in play, the node has a card in play.
pub put_in_play-fetch :
    (n : NodeId) (cs : List Card) (d : Card)
    → top_card (keep_if (selects n deck) cs) ≡ some d
    → (c : Card) × (first (keep_if (selects n in_play) (put_in_play d.id cs)) ≡ some c)
put_in_play-fetch n cs d e = first-some (selects n in_play) (put_in_play d.id cs) (
    omega (
      arith,
      top_card-count (λ c. c.id == d.id) (keep_if (selects n deck) cs) d e (==_refl d.id),
      count_if-keep_if (λ c. c.id == d.id) (selects n deck) cs,
      selected_node n d.id cs,
      put_in_play-count d.id n cs,
    ))

module _ (best : List Card → Option Card) (shuffle : List ℤ → List ℤ)
    (shuffles : (ps : List ℤ) → SameItems ps (shuffle ps)) where
  -- A new round deals five cards.
  pub end_game_round-deck :
      (n : NodeId) (db : Db)
      → length (keep_if (selects n deck) (end_game_round best shuffle n db).cards) ≡ 5
  unfolding end_game_round generate generate_steps
  end_game_round-deck n db =
      let db' = update_centerprice best shuffle n db in
      let d = reshuffle_deck-IsDealt shuffle shuffles best n db' in
      let at_hand = keep_if (selects n deck) (end_game_round best shuffle n db).cards in
      omega (
        arith,
        d.priced (λ p. true),
        count_if-map (λ (p : ℤ). true) (λ (c : Card). c.price) at_hand,
        count_if_always at_hand,
      )

  abbrev Playing : NodeId → Db → Type 0
  Playing n db = (price : ℤ) × (fetch_in_play n db ≡ some price)

  draw_again :
      (fuel : ℕ) (n : NodeId) (db : Db)
      → top_card (keep_if (selects n deck) db.cards) ≡ none
      → draw_a_card best shuffle (suc fuel) n db
        ≡ draw_a_card best shuffle fuel n (end_game_round best shuffle n db)
  unfolding draw_a_card
  draw_again fuel n db e = rw (e, draw_a_card) refl

  draw_now :
      (fuel : ℕ) (n : NodeId) (db : Db) (d : Card)
      → top_card (keep_if (selects n deck) db.cards) ≡ some d
      → draw_a_card best shuffle (suc fuel) n db
        ≡ some (record db { cards = put_in_play d.id db.cards })
  unfolding draw_a_card
  draw_now fuel n db d e = rw (e, draw_a_card) refl

  draw_top :
      (fuel : ℕ) (n : NodeId) (db : Db)
      → 0 < length (keep_if (selects n deck) db.cards)
      → (db' : Db) × (draw_a_card best shuffle (suc fuel) n db ≡ some db') × Playing n db'
  unfolding fetch_in_play
  draw_top fuel n db h =
      let (d, e) = top_of (keep_if (selects n deck) db.cards) h in
      let (c, f) = put_in_play-fetch n db.cards d e in
      (
        record db { cards = put_in_play d.id db.cards },
        draw_now fuel n db d e,
        (c.price, rw (f, fetch_in_play) refl),
      )

  -- With fuel for one more round, a draw puts a card of the node in play.
  draw_a_card-returns :
      (n : NodeId) (db : Db)
      → (db' : Db) × (draw_a_card best shuffle 2 n db ≡ some db') × Playing n db'
  draw_a_card-returns n db = elim (Option-cases (top_card (keep_if (selects n deck) db.cards))) [
    | inl e ↦
        let db1 = end_game_round best shuffle n db in
        let (db', q, plays) = draw_top 0 n db1 (omega (arith, end_game_round-deck n db)) in
        (db', draw_again 1 n db e ∙ q, plays)
    | inr (d, e) ↦
        let (c, f) = put_in_play-fetch n db.cards d e in
        (
          record db { cards = put_in_play d.id db.cards },
          draw_now 1 n db d e,
          (c.price, unfold fetch_in_play in rw (f, fetch_in_play) refl),
        )
  ]

  -- If the shuffle keeps the prices, `get_price` returns, whatever the database holds: fuel two is
  -- enough for it, and two for each draw. It returns the price of the card that is in play
  -- afterwards.
  pub get_price-returns :
      (n : NodeId) (db : Db)
      → (price : ℤ) × (db' : Db) × (get_price best shuffle 2 n db ≡ some (price, db'))
        × (fetch_in_play n db' ≡ some price)
  unfolding get_price
  get_price-returns n db = elim (Option-cases (fetch_in_play n db)) [
    | inl e ↦
        let (db', q, (price, f)) = draw_a_card-returns n db in
        (price, db', rw (e, q, f, get_price) refl, f)
    | inr (price, e) ↦ (price, db, rw (e, get_price) refl, e)
  ]
