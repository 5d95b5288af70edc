-- ===== src/PriceTheory/Game.antt =====
-- What stays true of the card table throughout.
use clboss.Base.{
  ℕ, ◌+◌, ◌≤◌, ◌<◌, ◌≡◌, ◌≢◌, refl, ◌∙◌, inl, inr, Bool, ◌&&◌, List, [], ◌∷◌, some, map, arith, ltb,
  ◌==◌, if◌then◌else◌, keep_if, count_if, count_if-map, Bool-cases, ==_refl,
}
use clboss.Base.Maps.{Above}
use clboss.Base.Integers.{ℤ, sub_nat, is_spent, distance}
use clboss.Creator.Planner.{NodeId}
use clboss.PriceTheory.{
  deck, in_play, discarded, is_at, Card, Db, selects, top_card, put_in_play, get_center_price, age,
  age_all, discard_spent, update_10_minutes, forward_fee,
}
use clboss.PriceTheory.Deal.{count_if-keep_if, count_if-cong}
use clboss.PriceTheory.Draw.{top_card-count}

-- A card of the node with a price more than two steps off a centre.
abbrev pub is_far : NodeId → ℤ → Card → Bool
is_far n center c = c.node == n && ltb 2 (distance c.price center)

-- Ids are unique, a node has at most one card in play, and no card is far from its node's centre.
pub record IsGame (db : Db) : Type 0 where
  pub centers : Above 0 db.centerprice
  pub ids : (i : ℕ) → count_if (λ c. c.id == i) db.cards ≤ 1
  pub single : (n : NodeId) → count_if (selects n in_play) db.cards ≤ 1
  pub near : (n : NodeId) → count_if (is_far n (get_center_price n db)) db.cards ≡ 0

-- A test that does not see what a change does to a card.
count_if-change :
    (q : Card → Bool) (f : Card → Card) (cs : List Card)
    → ((c : Card) → q (f c) ≡ q c)
    → count_if q (map f cs) ≡ count_if q cs
count_if-change q f cs h = count_if-map q f cs ∙ count_if-cong (λ c. q (f c)) q cs h

-- The same for a change that a condition guards.
count_if-change_when :
    (q s : Card → Bool) (f : Card → Card) (cs : List Card)
    → ((c : Card) → q (f c) ≡ q c)
    → count_if q (map (λ c. if s c then f c else c) cs) ≡ count_if q cs
count_if-change_when q s f cs h =
    count_if-change q (λ c. if s c then f c else c) cs
      (λ c. elim (Bool-cases (s c)) [ inl e ↦ rw e (h c) | inr e ↦ rw e refl ])

pub forward_fee-IsGame :
    (n : NodeId) (fee : ℕ) (db : Db) → IsGame db → IsGame (forward_fee n fee db)
unfolding forward_fee get_center_price
forward_fee-IsGame n fee db g =
    let pay : Card → Card = λ c. record c { earnings = c.earnings + fee } in
    let same : (q : Card → Bool)
        → ((c : Card) → q (pay c) ≡ q c)
        → count_if q (forward_fee n fee db).cards ≡ count_if q db.cards =
      λ q. count_if-change_when q (selects n in_play) pay db.cards in
    record {
      centers = g.centers;
      ids = λ i. omega (arith, same (λ c. c.id == i) (λ c. refl), g.ids i);
      single = λ m. omega (arith, same (selects m in_play) (λ c. refl), g.single m);
      near = λ m. same (is_far m (get_center_price m db)) (λ c. refl) ∙ g.near m;
    }

age_all-count :
    (q : Card → Bool) (ns : List NodeId) (cs : List Card)
    → ((c : Card) (life : ℤ) → q (record c { lifetime = life }) ≡ q c)
    → count_if q (age_all ns cs) ≡ count_if q cs
unfolding age_all age
age_all-count q [] cs h = refl
age_all-count q (n ∷ ns) cs h =
    age_all-count q ns (age n cs) h
    ∙ count_if-change_when q (selects n in_play) (λ c. record c { lifetime = sub_nat c.lifetime 1 })
        cs (λ c. h c (sub_nat c.lifetime 1))

discard_spent-single :
    (n : NodeId) (cs : List Card)
    → count_if (selects n in_play) (discard_spent cs) ≤ count_if (selects n in_play) cs
unfolding discard_spent
discard_spent-single n [] = omega arith
discard_spent-single n (c ∷ cs) = ground (arith, discard_spent-single n cs)

pub update_10_minutes-IsGame :
    (ns : List NodeId) (db : Db) → IsGame db → IsGame (update_10_minutes ns db)
unfolding update_10_minutes discard_spent get_center_price
update_10_minutes-IsGame ns db g =
    let aged = age_all ns db.cards in
    let spent : Card → Bool = λ c. is_at in_play c.at && is_spent c.lifetime in
    let drop : Card → Card = λ c. record c { at = discarded } in
    record {
      centers = g.centers;
      ids = λ i. omega (
        arith,
        count_if-change_when (λ c. c.id == i) spent drop aged (λ c. refl),
        age_all-count (λ c. c.id == i) ns db.cards (λ c life. refl),
        g.ids i,
      );
      single = λ m. omega (
        arith,
        discard_spent-single m aged,
        age_all-count (selects m in_play) ns db.cards (λ c life. refl),
        g.single m,
      );
      near = λ m.
          count_if-change_when (is_far m (get_center_price m db)) spent drop aged (λ c. refl)
          ∙ age_all-count (is_far m (get_center_price m db)) ns db.cards (λ c life. refl)
          ∙ g.near m;
    }

-- Putting a card in play can only add cards with its id to those in play.
put_in_play-single :
    (i : ℕ) (n : NodeId) (cs : List Card)
    → count_if (selects n in_play) (put_in_play i cs)
      ≤ count_if (selects n in_play) cs + count_if (λ c. c.node == n && (c.id == i)) cs
unfolding put_in_play
put_in_play-single i n [] = omega arith
put_in_play-single i n (c ∷ cs) = ground (arith, put_in_play-single i n cs)

id_nodes :
    (i : ℕ) (n m : NodeId) (cs : List Card)
    → n ≢ m
    → count_if (λ c. c.node == n && (c.id == i)) cs + count_if (λ c. c.node == m && (c.id == i)) cs
      ≤ count_if (λ c. c.id == i) cs
id_nodes i n m [] h = omega arith
id_nodes i n m (c ∷ cs) h = ground (arith, id_nodes i n m cs h)

id_node :
    (i : ℕ) (n : NodeId) (cs : List Card)
    → count_if (λ c. c.node == n && (c.id == i)) cs ≤ count_if (λ c. c.id == i) cs
id_node i n [] = omega arith
id_node i n (c ∷ cs) = ground (arith, id_node i n cs)

deck_id :
    (i : ℕ) (n : NodeId) (cs : List Card)
    → count_if (λ c. selects n deck c && (c.id == i)) cs
      ≤ count_if (λ c. c.node == n && (c.id == i)) cs
deck_id i n [] = omega arith
deck_id i n (c ∷ cs) = ground (arith, deck_id i n cs)

pub play-IsGame :
    (n : NodeId) (db : Db) (d : Card)
    → IsGame db
    → count_if (selects n in_play) db.cards ≡ 0
    → top_card (keep_if (selects n deck) db.cards) ≡ some d
    → IsGame (record db { cards = put_in_play d.id db.cards })
unfolding put_in_play get_center_price
play-IsGame n db d g free e =
    let put : Card → Card = λ c. record c { at = in_play } in
    let chosen : Card → Bool = λ c. c.id == d.id in
    let mine : 0 < count_if (λ c. c.node == n && (c.id == d.id)) db.cards = omega (
      arith,
      top_card-count chosen (keep_if (selects n deck) db.cards) d e (==_refl d.id),
      count_if-keep_if chosen (selects n deck) db.cards,
      deck_id d.id n db.cards,
    ) in
    record {
      centers = g.centers;
      ids = λ i.
          omega
            (arith, count_if-change_when (λ c. c.id == i) chosen put db.cards (λ c. refl), g.ids i);
      single = λ m. elim (Bool-cases (n == m)) [
        | inl e1 ↦
            let same : n ≡ m = ground arith in
            rw (← same) (
              omega (
                arith,
                put_in_play-single d.id n db.cards,
                free,
                id_node d.id n db.cards,
                g.ids d.id,
              ))
        | inr e1 ↦ omega (
          arith,
          put_in_play-single d.id m db.cards,
          g.single m,
          g.ids d.id,
          mine,
          id_nodes d.id n m db.cards (ground arith),
        )
      ];
      near = λ m.
          count_if-change_when (is_far m (get_center_price m db)) chosen put db.cards (λ c. refl)
          ∙ g.near m;
    }
