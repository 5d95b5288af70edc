-- ===== src/Graph/Dijkstra/Rising.antt =====
-- The closed set: it is no larger than the number of nodes.
use clboss.Base.{ℕ, suc, ◌+◌, ◌≤◌, ◌<◌, ◌≡◌, refl, false, List, [], ◌∷◌, arith, length}
use clboss.Base.Maps.{contains, insert}

-- A set of numbers below a bound, in ascending order, is no larger than the bound.
abbrev pub Rising : ℕ → ℕ → List ℕ → Type 0
Rising b size [] = Unit {0}
Rising b size (x ∷ s) = (b ≤ x) × (x < size) × Rising (suc x) size s

pub Rising-length : (b size : ℕ) (s : List ℕ) → b ≤ size → Rising b size s → b + length s ≤ size
Rising-length b size [] h r = omega (arith, h)
Rising-length b size (x ∷ s) h (r0, r1, r) =
    omega (arith, r0, Rising-length (suc x) size s (omega (arith, r1)) r)

pub insert-Rising :
    (b size u : ℕ) (s : List ℕ) → b ≤ u → u < size → Rising b size s → Rising b size (insert u s)
insert-Rising b size u [] h h' r = (h, h', tt)
insert-Rising b size u (x ∷ s) h h' (r0, r1, r) =
    ground (arith, h, h', r0, r1, insert-Rising (suc x) size u s)

pub length-insert :
    (u : ℕ) (s : List ℕ) → contains u s ≡ false → length (insert u s) ≡ suc (length s)
length-insert u [] h = refl
length-insert u (x ∷ s) h = ground (arith, h, length-insert u s)
