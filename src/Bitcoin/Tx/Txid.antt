-- ===== src/Bitcoin/Tx/Txid.antt =====
-- Two transactions with the same id are the same, apart from their witnesses, or SHA256 has a collision.
use mathlib.Core.List.{reverse-reverse, List-discrete}
use native.Mathlib.Decide.{ℕ_discrete}
use clboss.Base.{
  ℕ, suc, ◌≡◌, ◌≢◌, ◌∙◌, ◌⊎◌, inl, inr, refl, ap, sym, List, [], ◌∷◌, ◌++◌, some, arith, map,
  reverse, length, All,
}
use clboss.Bitcoin.Tx.{TxIn, Tx, strip, strip_witnesses, write_tx, read_tx, get_txid}
use clboss.Bitcoin.Tx.RoundTrip.{IsTxIn, IsTx, read_tx-write_tx}

abbrev pub Collision : (List ℕ → List ℕ) → Type 0
Collision sha256 = (a : List ℕ) × (b : List ℕ) × (a ≢ b) × (sha256 a ≡ sha256 b)

strip-length : (inputs : List TxIn) → length (map strip inputs) ≡ length inputs
strip-length [] = refl
strip-length (i ∷ is) = ap (λ n. suc n) (strip-length is)

strip_twice : (inputs : List TxIn) → map strip (map strip inputs) ≡ map strip inputs
strip_twice [] = refl
strip_twice (i ∷ is) = ap (λ is. strip i ∷ is) (strip_twice is)

strip-IsTxIn : (inputs : List TxIn) → All IsTxIn inputs → All IsTxIn (map strip inputs)
strip-IsTxIn [] h = tt
strip-IsTxIn (i ∷ is) (h, h') = (
  record {
    txid_size = h.txid_size;
    out_fits = h.out_fits;
    script_fits = h.script_fits;
    sequence_fits = h.sequence_fits;
    witness_fits = omega arith;
  },
  strip-IsTxIn is h',
)

pub strip-IsTx : (v : Tx) → IsTx v → IsTx (strip_witnesses v)
strip-IsTx v h = record {
  version_fits = h.version_fits;
  has_input = omega (arith, strip-length v.inputs, h.has_input);
  inputs_fit = omega (arith, strip-length v.inputs, h.inputs_fit);
  inputs_valid = strip-IsTxIn v.inputs h.inputs_valid;
  outputs_fit = h.outputs_fit;
  outputs_valid = h.outputs_valid;
  lock_time_fits = h.lock_time_fits;
}

write_tx-injective : (v w : Tx) → IsTx v → IsTx w → write_tx v ≡ write_tx w → v ≡ w
write_tx-injective v w h h' e =
    let same : some (v, []) ≡ some (w, []) =
      sym (read_tx-write_tx v [] h) ∙ ap (λ s. read_tx (s ++ [])) e ∙ read_tx-write_tx w [] h' in
    cc same

module _ (sha256 : List ℕ → List ℕ) where
  unhashed : (a b : List ℕ) → sha256 a ≡ sha256 b → (a ≡ b) ⊎ Collision sha256
  unhashed a b e = elim (List-discrete ℕ_discrete a b) [
    | yes same ↦ inl same
    | no other ↦ inr (a, b, other, e)
  ]

  -- Signing leaves the id as it is.
  pub get_txid-strip_witnesses : (v : Tx) → get_txid sha256 (strip_witnesses v) ≡ get_txid sha256 v
  unfolding get_txid
  get_txid-strip_witnesses v =
      ap (λ is. reverse (sha256 (sha256 (write_tx (record v { inputs = is })))))
        (strip_twice v.inputs)

  -- When two valid transactions have the same id, they are equal once their witnesses are
  -- stripped, or there are two different byte strings with the same SHA256.
  pub get_txid_commits :
      (v w : Tx)
      → IsTx v
      → IsTx w
      → get_txid sha256 v ≡ get_txid sha256 w
      → (strip_witnesses v ≡ strip_witnesses w) ⊎ Collision sha256
  unfolding get_txid
  get_txid_commits v w h h' e =
      let a = write_tx (strip_witnesses v) in
      let b = write_tx (strip_witnesses w) in
      let outer : sha256 (sha256 a) ≡ sha256 (sha256 b) =
        sym (reverse-reverse (sha256 (sha256 a)))
        ∙ ap reverse e
        ∙ reverse-reverse (sha256 (sha256 b)) in
      elim (unhashed (sha256 a) (sha256 b) outer) [
        | inr found ↦ inr found
        | inl inner ↦ elim (unhashed a b inner) [
          | inr found ↦ inr found
          | inl same ↦ inl (
              write_tx-injective (strip_witnesses v) (strip_witnesses w) (strip-IsTx v h)
                (strip-IsTx w h') same)
        ]
      ]
