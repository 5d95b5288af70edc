-- ===== src/PriceTheory/Near.antt =====
-- Cards and their distance from the centre price, when they are dealt, kept and chosen.
use clboss.Base.{
  inl, inr, le_cases, ℕ, ◌+◌, ◌≤◌, ◌<◌, ◌≡◌, refl, Bool, true, ◌&&◌, not, List, [], ◌∷◌, none,
  arith, ltb, ◌==◌, keep_if, count_if, count_if-append, ==_refl,
}
use clboss.Base.Maps.{assign, Above, lookup-assign}
use clboss.Base.Integers.{ℤ, distance, distance-add_nat, distance-sub_nat, distance_self}
use clboss.Creator.Planner.{NodeId}
use clboss.PriceTheory.{
  top_earnings, top_earners, in_play, discarded, Card, Db, selects, first, max_id, insert_card,
  insert_cards, fetch_in_play, generate, generate_steps, get_center_price,
}
use clboss.PriceTheory.Deal.{dealt, count_if-keep_if}
use clboss.PriceTheory.Game.{IsGame, is_far}

above_max_id : (k : ℕ) (cs : List Card) → max_id cs < k → count_if (λ c. c.id == k) cs ≡ 0
unfolding max_id
above_max_id k [] h = refl
above_max_id k (c ∷ cs) h = ground (arith, above_max_id k cs)

pub insert_cards-ids :
    (n : NodeId) (i : ℕ) (prices : List ℤ) (cs : List Card)
    → ((k : ℕ) → count_if (λ c. c.id == k) cs ≤ 1)
    → (k : ℕ) → count_if (λ c. c.id == k) (insert_cards n i prices cs) ≤ 1
unfolding insert_cards insert_card
insert_cards-ids n i [] cs h k = h k
insert_cards-ids n i (p ∷ ps) cs h k =
    insert_cards-ids n (i + 1) ps (insert_card n i p cs)
      (λ j. ground (
        arith,
        count_if-append (λ c. c.id == j) cs (dealt (max_id cs + 1) n i p ∷ []),
        h j,
        above_max_id j cs,
      ))
      k

-- The steps around a centre stay near it.
pub generate-near : (center : ℤ) → count_if (λ p. ltb 2 (distance p center)) (generate center) ≡ 0
unfolding generate generate_steps
generate-near center =
    rw
      (
        distance_self center,
        distance-add_nat center 1,
        distance-sub_nat center 1,
        distance-add_nat center 2,
        distance-sub_nat center 2,
      )
      refl

-- Cards that a deal keeps are counted at most as often as before.
pub kept-le :
    (n : NodeId) (q : Card → Bool) (cs : List Card)
    → count_if q (keep_if (λ c. not (c.node == n)) cs) ≤ count_if q cs
kept-le n q [] = omega arith
kept-le n q (c ∷ cs) = ground (arith, kept-le n q cs)

pub no_fetch :
    (n : NodeId) (db : Db) → fetch_in_play n db ≡ none → count_if (selects n in_play) db.cards ≡ 0
unfolding fetch_in_play
no_fetch n db e = go db.cards (ground (arith, e))
  where
    go :
        (cs : List Card)
        → first (keep_if (selects n in_play) cs) ≡ none
        → count_if (selects n in_play) cs ≡ 0
    go [] h = refl
    go (c ∷ cs) h = ground (arith, go cs)

-- The centre of a node after it is set.
pub centered :
    (n : NodeId) (price : ℤ) (db : Db)
    → Above 0 db.centerprice
    → get_center_price n (record db { centerprice = assign n price db.centerprice }) ≡ price
unfolding get_center_price
centered n price db a =
    rw (lookup-assign 0 n n price db.centerprice a, ==_refl n, get_center_price) refl

selects_far :
    (n : NodeId) (center : ℤ) (cs : List Card)
    → count_if (λ c. selects n discarded c && ltb 2 (distance c.price center)) cs
      ≤ count_if (is_far n center) cs
selects_far n center [] = omega arith
selects_far n center (c ∷ cs) = ground (arith, selects_far n center cs)

-- A card that stands for one of the discarded is near the centre.
pub best_near :
    (n : NodeId) (c : Card) (db : Db)
    → IsGame db
    → (ltb 2 (distance c.price (get_center_price n db)) ≡ true
        → 0
          < count_if
              (λ d. ltb 2 (distance d.price (get_center_price n db)))
              (keep_if (selects n discarded) db.cards))
    → distance c.price (get_center_price n db) ≤ 2
best_near n c db g h = ground (
  arith,
  h,
  g.near n,
  count_if-keep_if (λ d. ltb 2 (distance d.price (get_center_price n db))) (selects n discarded)
      db.cards,
  selects_far n (get_center_price n db) db.cards,
)

kept-fewer {ℓ} :
    {A : Type ℓ} (p q : A → Bool) (xs : List A) → count_if p (keep_if q xs) ≤ count_if p xs
kept-fewer p q [] = omega arith
kept-fewer p q (x ∷ xs) = ground (arith, kept-fewer p q xs)

-- A card earned the most, if there is any.
top_earner :
    (m : ℕ) (c : Card) (cs : List Card)
    → m ≡ top_earnings (c ∷ cs)
    → 0 < count_if (λ d. d.earnings == m) (c ∷ cs)
unfolding top_earnings
top_earner m c [] e = ground (arith, e)
top_earner m c (d ∷ cs) e = elim (le_cases (top_earnings (d ∷ cs)) c.earnings) [
  | inl more ↦
      let same : c.earnings ≡ m = omega (arith, e, more) in rw (same, ==_refl m) (omega arith)
  | inr less ↦ omega (arith, top_earner m d cs (omega (arith, e, less)))
]

keep_if_nothing {ℓ} :
    {A : Type ℓ} (p : A → Bool) (xs : List A) → keep_if p xs ≡ [] → count_if p xs ≡ 0
keep_if_nothing p [] h = refl
keep_if_nothing p (x ∷ xs) h = ground (arith, h, keep_if_nothing p xs)

pub top_earners-empty : (cs : List Card) → top_earners cs ≡ [] → cs ≡ []
unfolding top_earners
top_earners-empty [] h = refl
top_earners-empty (c ∷ cs) h = absurd (
    omega (
      arith,
      top_earner (top_earnings (c ∷ cs)) c cs refl,
      keep_if_nothing (λ d. d.earnings == top_earnings (c ∷ cs)) (c ∷ cs) h,
    ))

-- A card that passes a test among those that earned most does so among all.
pub top_earners-le :
    (p : Card → Bool) (cs : List Card) → count_if p (top_earners cs) ≤ count_if p cs
unfolding top_earners
top_earners-le p cs = kept-fewer p (λ c. c.earnings == top_earnings cs) cs
