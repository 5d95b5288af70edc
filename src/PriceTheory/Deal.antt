-- ===== src/PriceTheory/Deal.antt =====
-- What a new round deals: `reshuffle_deck`.
use clboss.Base.{
  ℕ, ◌+◌, ◌≡◌, refl, Bool, true, false, ◌&&◌, not, List, [], ◌∷◌, Option, map, arith, ◌==◌, keep_if,
  count_if, count_if-append, count_if-map, SameItems, length, ==_refl,
}
use clboss.Base.Integers.{ℤ, add_nat, sub_nat}
use clboss.Creator.Planner.{NodeId}
use clboss.PriceTheory.{
  deck, Card, Db, selects, initial_lifetime, max_id, insert_card, insert_cards, generate,
  generate_steps, get_center_price, reshuffle_deck,
}

-- A card as it is dealt.
abbrev pub dealt : ℕ → NodeId → ℕ → ℤ → Card
dealt i n order price = record {
  id = i;
  node = n;
  at = deck;
  deckorder = order;
  price = price;
  lifetime = initial_lifetime;
  earnings = 0;
}

-- A test on the new cards that only the price decides.
pub insert_cards-count :
    (q : Card → Bool) (r : ℤ → Bool) (n : NodeId) (i : ℕ) (prices : List ℤ) (cards : List Card)
    → ((k order : ℕ) (price : ℤ) → q (dealt k n order price) ≡ r price)
    → count_if q (insert_cards n i prices cards) ≡ count_if q cards + count_if r prices
unfolding insert_cards insert_card
insert_cards-count q r n i [] cards h = omega arith
insert_cards-count q r n i (p ∷ ps) cards h = ground (
  arith,
  insert_cards-count q r n (i + 1) ps (insert_card n i p cards) h,
  count_if-append q cards (dealt (max_id cards + 1) n i p ∷ []),
  h (max_id cards + 1) i p,
)

pub count_if-keep_if {ℓ} :
    {A : Type ℓ} (p q : A → Bool) (xs : List A)
    → count_if p (keep_if q xs) ≡ count_if (λ x. q x && p x) xs
count_if-keep_if p q [] = refl
count_if-keep_if p q (x ∷ xs) = ground (arith, count_if-keep_if p q xs)

pub count_if-cong {ℓ} :
    {A : Type ℓ} (p q : A → Bool) (xs : List A)
    → ((x : A) → p x ≡ q x)
    → count_if p xs ≡ count_if q xs
count_if-cong p q [] h = refl
count_if-cong p q (x ∷ xs) h = rw (h x, count_if-cong p q xs h) refl

pub count_if_never {ℓ} :
    {A : Type ℓ} (p : A → Bool) (xs : List A) → ((x : A) → p x ≡ false) → count_if p xs ≡ 0
count_if_never p [] h = refl
count_if_never p (x ∷ xs) h = rw (h x) (omega (arith, count_if_never p xs h))

pub count_if_always {ℓ} : {A : Type ℓ} (xs : List A) → count_if (λ x. true) xs ≡ length xs
count_if_always [] = refl
count_if_always (x ∷ xs) = omega (arith, count_if_always xs)

-- None of the cards that are kept is of the node.
pub kept_never :
    (n : NodeId) (q : Card → Bool) (cards : List Card)
    → ((c : Card) → (c.node == n) ≡ false → q c ≡ false)
    → count_if q (keep_if (λ c. not (c.node == n)) cards) ≡ 0
kept_never n q [] h = refl
kept_never n q (c ∷ cs) h = ground (arith, h c, kept_never n q cs h)

-- A price, and those one and two steps above and below it.
abbrev pub five_around : ℤ → List ℤ
five_around center =
    sub_nat center 2 ∷ sub_nat center 1 ∷ center ∷ add_nat center 1 ∷ add_nat center 2 ∷ []

generate-five : (center : ℤ) → SameItems (generate center) (five_around center)
unfolding generate generate_steps
generate-five center f = ground arith

-- The cards after a new round: the node has one card in its deck for each of the prices, and no
-- other card, and the cards of all other nodes stay.
pub record IsDealt (n : NodeId) (prices : List ℤ) (old new : List Card) : Type 0 where
  pub priced : SameItems (map (λ c. c.price) (keep_if (selects n deck) new)) prices
  pub all_decked : count_if (λ c. c.node == n) new ≡ count_if (selects n deck) new
  pub others :
      (q : Card → Bool)
      → count_if (λ c. not (c.node == n) && q c) new ≡ count_if (λ c. not (c.node == n) && q c) old

module _ (shuffle : List ℤ → List ℤ) (shuffles : (ps : List ℤ) → SameItems ps (shuffle ps)) where
  -- If the shuffle keeps the prices, then after a reshuffle the deck of the node has exactly five
  -- prices, the centre and those one and two steps below and above it, the node has no card
  -- elsewhere, and any test passes on as many cards of the other nodes as before.
  pub reshuffle_deck-IsDealt :
      (best : List Card → Option Card) (n : NodeId) (db : Db)
      → IsDealt n
          (five_around (get_center_price n db))
          db.cards
          (reshuffle_deck best shuffle n db).cards
  unfolding reshuffle_deck
  reshuffle_deck-IsDealt best n db =
      let prices = generate (get_center_price n db) in
      let kept = keep_if (λ c. not (c.node == n)) db.cards in
      let new = insert_cards n 0 (shuffle prices) kept in
      record {
        priced = λ f. ground (
          arith,
          count_if-map f (λ (c : Card). c.price) (keep_if (selects n deck) new),
          count_if-keep_if (λ c. f c.price) (selects n deck) new,
          insert_cards-count (λ c. selects n deck c && f c.price) f n 0 (shuffle prices) kept
              (λ k order price. ground (arith, ==_refl n)),
          kept_never n (λ c. selects n deck c && f c.price) db.cards (λ c h. ground arith),
          shuffles prices f,
          generate-five (get_center_price n db) f,
        );
        all_decked = omega (
          arith,
          insert_cards-count (λ c. c.node == n) (λ p. true) n 0 (shuffle prices) kept
              (λ k order price. ==_refl n),
          insert_cards-count (selects n deck) (λ p. true) n 0 (shuffle prices) kept
              (λ k order price. ground (arith, ==_refl n)),
          kept_never n (λ c. c.node == n) db.cards (λ c h. h),
          kept_never n (selects n deck) db.cards (λ c h. ground arith),
        );
        others = λ q. omega (
          arith,
          insert_cards-count (λ c. not (c.node == n) && q c) (λ p. false) n 0 (shuffle prices) kept
              (λ k order price. ground (arith, ==_refl n)),
          count_if_never (λ (p : ℤ). false) (shuffle prices) (λ p. refl),
          count_if-keep_if (λ c. not (c.node == n) && q c) (λ c. not (c.node == n)) db.cards,
          count_if-cong (λ c. not (c.node == n) && (not (c.node == n) && q c))
              (λ c. not (c.node == n) && q c) db.cards (λ c. ground arith),
        );
      }
