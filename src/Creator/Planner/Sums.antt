-- ===== src/Creator/Planner/Sums.antt =====
-- Sums and bounds over a plan, and what assigning an entry does to them.
use clboss.Base.{ℕ, suc, ◌+◌, ◌≡◌, [], ◌∷◌, some, arith, length, All, count}
use clboss.Base.Maps.{lookup, assign, keys, Above, lookup-Above}
use clboss.Ln.Amount.{Amount}
use clboss.Creator.Planner.{Plan}

abbrev pub total_of : Plan → Amount
total_of [] = 0
total_of (e ∷ m) = e.1 + total_of m

pub total_of-assign :
    (k : ℕ) (v : Amount) (m : Plan)
    → count k (keys m) ≡ 0
    → total_of (assign k v m) ≡ total_of m + v
total_of-assign k v [] h = omega arith
total_of-assign k v ((j, w) ∷ m) h = ground (arith, total_of-assign k v m)

pub total_of-reassign :
    (b k : ℕ) (v w : Amount) (m : Plan)
    → Above b m
    → lookup k m ≡ some w
    → total_of (assign k v m) + w ≡ total_of m + v
total_of-reassign b k v w [] a h = cc
total_of-reassign b k v w ((j, x) ∷ m) a h =
    ground (arith, total_of-reassign (suc j) k v w m, lookup-Above (suc j) k m)

pub count-keys-reassign :
    (b i k : ℕ) (v w : Amount) (m : Plan)
    → Above b m
    → lookup k m ≡ some w
    → count i (keys (assign k v m)) ≡ count i (keys m)
count-keys-reassign b i k v w [] a h = cc
count-keys-reassign b i k v w ((j, x) ∷ m) a h =
    ground (arith, count-keys-reassign (suc j) i k v w m, lookup-Above (suc j) k m)

pub length-reassign :
    (b k : ℕ) (v w : Amount) (m : Plan)
    → Above b m
    → lookup k m ≡ some w
    → length (assign k v m) ≡ length m
length-reassign b k v w [] a h = cc
length-reassign b k v w ((j, x) ∷ m) a h =
    ground (arith, length-reassign (suc j) k v w m, lookup-Above (suc j) k m)

pub All-assign {ℓ} :
    (P : ℕ × Amount → Type ℓ) (k : ℕ) (v : Amount) (m : Plan)
    → P (k, v)
    → All P m
    → All P (assign k v m)
All-assign P k v [] h a = (h, tt)
All-assign P k v ((j, w) ∷ m) h a = ground (arith, All-assign P k v m h a.1)

pub lookup-All {ℓ} :
    (P : Amount → Type ℓ) (k : ℕ) (v : Amount) (m : Plan)
    → All (λ e. P e.1) m
    → lookup k m ≡ some v
    → P v
lookup-All P k v [] a h = cc
lookup-All P k v ((j, w) ∷ m) a h = ground (arith, lookup-All P k v m a.1)
