-- ===== src/Bitcoin/Tx/RoundTrip.antt =====
-- What is written of a transaction is read back.
use mathlib.Core.List.{append_assoc, reverse-reverse}
use clboss.Base.{
  ℕ, ◌+◌, ◌%◌, ◌^◌, ◌≡◌, ◌<◌, ◌∙◌, refl, ap, sym, subst, Bool, true, false, List, [], ◌∷◌, ◌++◌,
  Option, some, arith, if◌then◌else◌, map, reverse, length, All, All-map, map_same, length-reverse,
}
use clboss.Bitcoin.Le.{write_le32, write_le_amount}
use clboss.Bitcoin.Le.RoundTrip.{read_le32-write_le32, read_le_amount-write_le_amount}
use clboss.Bitcoin.VarInt.{write_varint, read_varint-write_varint, read_varint_zero}
use clboss.Bitcoin.Tx.{
  TxIn, TxOut, Tx, read_bytes, read_each, write_each, write_txid, read_txid, write_sized,
  read_sized, write_witness_field, read_witness_field, write_tx_in, read_tx_in, write_tx_out,
  read_tx_out, is_segwit, witnesses_of, write_tx, read_marked, read_inputs_size, read_witnesses,
  read_tx, strip,
}

-- Whatever follows is left.
abbrev Reads {ℓ} :
    {A B : Type ℓ} → (List ℕ → Option (B × List ℕ)) → (A → List ℕ) → (A → B) → A → Type ℓ
Reads read write f x = (rest : List ℕ) → read (write x ++ rest) ≡ some (f x, rest)

module _ {ℓ} {A B : Type ℓ} (read : List ℕ → Option (B × List ℕ)) (write : A → List ℕ)
    (f : A → B) where
  read_each-write_each :
      (xs : List A) (rest : List ℕ)
      → All (Reads read write f) xs
      → read_each read (length xs) (write_each write xs ++ rest) ≡ some (map f xs, rest)
  unfolding read_each write_each
  read_each-write_each [] rest h = refl
  read_each-write_each (x ∷ xs) rest h =
      rw
        (
          append_assoc (write x) (write_each write xs) rest,
          h.0 (write_each write xs ++ rest),
          read_each-write_each xs rest h.1,
        )
        refl

read_bytes-length : (bs rest : List ℕ) → read_bytes (length bs) (bs ++ rest) ≡ some (bs, rest)
unfolding read_bytes
read_bytes-length [] rest = refl
read_bytes-length (b ∷ bs) rest = rw (read_bytes-length bs rest) refl

read_sized-write_sized :
    (bs rest : List ℕ) → length bs < 2 ^ 64 → read_sized (write_sized bs ++ rest) ≡ some (bs, rest)
read_sized-write_sized bs rest h =
    rw
      (
        append_assoc (write_varint (length bs)) bs rest,
        read_varint-write_varint (length bs) (bs ++ rest) h,
      )
      (read_bytes-length bs rest)

-- The sizes fit.
abbrev pub IsWitness : List (List ℕ) → Type 0
IsWitness ws = (length ws < 2 ^ 64) × All (λ w. length w < 2 ^ 64) ws

pub record IsTxIn (v : TxIn) : Type 0 where
  pub txid_size : length v.prev_txid ≡ 32
  pub out_fits : v.prev_out < 2 ^ 32
  pub script_fits : length v.script_sig < 2 ^ 64
  pub sequence_fits : v.n_sequence < 2 ^ 32
  pub witness_fits : IsWitness v.witness

-- Whole satoshis.
abbrev pub IsTxOut : TxOut → Type 0
IsTxOut v = (v.amount + 999 < 2 ^ 64) × (v.amount % 1000 ≡ 0) × (length v.script_pub_key < 2 ^ 64)

pub record IsTx (v : Tx) : Type 0 where
  pub version_fits : v.n_version < 2 ^ 32
  pub has_input : 0 < length v.inputs
  pub inputs_fit : length v.inputs < 2 ^ 64
  pub inputs_valid : All IsTxIn v.inputs
  pub outputs_fit : length v.outputs < 2 ^ 64
  pub outputs_valid : All IsTxOut v.outputs
  pub lock_time_fits : v.n_lock_time < 2 ^ 32

witness-read :
    (ws : List (List ℕ)) (rest : List ℕ)
    → IsWitness ws
    → read_witness_field (write_witness_field ws ++ rest) ≡ some (ws, rest)
unfolding read_witness_field write_witness_field
witness-read ws rest (h, h') =
    let read_all =
      read_each-write_each read_sized write_sized (λ w. w) ws rest
        (All-map (λ w. length w < 2 ^ 64) (Reads read_sized write_sized (λ w. w)) ws
          (λ w h rest. read_sized-write_sized w rest h) h') in
    rw
      (
        append_assoc (write_varint (length ws)) (write_each write_sized ws) rest,
        read_varint-write_varint (length ws) (write_each write_sized ws ++ rest) h,
      )
      (read_all ∙ ap (λ ws. some (ws, rest)) (map_same ws))

txid-read :
    (id rest : List ℕ) → length id ≡ 32 → read_txid (write_txid id ++ rest) ≡ some (id, rest)
unfolding read_txid write_txid
txid-read id rest h =
    let size : length (reverse id) ≡ 32 = length-reverse id ∙ h in
    let bytes : read_bytes 32 (reverse id ++ rest) ≡ some (reverse id, rest) =
      subst (λ n. read_bytes n (reverse id ++ rest) ≡ some (reverse id, rest)) size
        (read_bytes-length (reverse id) rest) in
    rw (bytes, reverse-reverse id) refl

input-read :
    (v : TxIn) (rest : List ℕ)
    → IsTxIn v
    → read_tx_in (write_tx_in v ++ rest) ≡ some (strip v, rest)
unfolding read_tx_in write_tx_in
input-read v rest h =
    let tail = write_le32 v.n_sequence ++ rest in
    let script = write_sized v.script_sig ++ tail in
    rw
      (
        append_assoc (write_txid v.prev_txid)
            (write_le32 v.prev_out ++ (write_sized v.script_sig ++ write_le32 v.n_sequence)) rest,
        append_assoc (write_le32 v.prev_out) (write_sized v.script_sig ++ write_le32 v.n_sequence)
            rest,
        append_assoc (write_sized v.script_sig) (write_le32 v.n_sequence) rest,
        txid-read v.prev_txid (write_le32 v.prev_out ++ script) h.txid_size,
        read_le32-write_le32 v.prev_out script h.out_fits,
        read_sized-write_sized v.script_sig tail h.script_fits,
        read_le32-write_le32 v.n_sequence rest h.sequence_fits,
      )
      refl

output-read :
    (v : TxOut) (rest : List ℕ) → IsTxOut v → read_tx_out (write_tx_out v ++ rest) ≡ some (v, rest)
unfolding read_tx_out write_tx_out
output-read v rest (fits, whole, script_fits) =
    let script = write_sized v.script_pub_key ++ rest in
    let (w, e, low, high, round) = read_le_amount-write_le_amount v.amount script fits in
    let same : w ≡ v.amount = omega (arith, low, high, round, whole) in
    rw
      (
        append_assoc (write_le_amount v.amount) (write_sized v.script_pub_key) rest,
        e,
        read_sized-write_sized v.script_pub_key rest script_fits,
        same,
      )
      refl

-- The witnesses come back to their inputs.
witnesses-read :
    (inputs : List TxIn) (rest : List ℕ)
    → All IsTxIn inputs
    → read_witnesses (map strip inputs) (witnesses_of inputs ++ rest) ≡ some (inputs, rest)
unfolding read_witnesses write_each
witnesses-read [] rest h = refl
witnesses-read (i ∷ is) rest (h, h') =
    rw
      (
        append_assoc (write_witness_field i.witness) (witnesses_of is) rest,
        witness-read i.witness (witnesses_of is ++ rest) h.witness_fits,
        witnesses-read is rest h',
      )
      refl

-- Without a witness nothing is stripped.
strip-same : (inputs : List TxIn) → is_segwit inputs ≡ false → map strip inputs ≡ inputs
strip-same [] h = refl
strip-same (i ∷ is) h =
    let bare : i.witness ≡ [] = ground (arith, h) in
    let one : strip i ≡ i = ap (λ ws. record i { witness = ws }) (sym bare) in
    cc (one, strip-same is (ground (arith, h)))

-- The number of inputs, and whether the mark stands before it.
size-read :
    (segwit : Bool) (n : ℕ) (rest : List ℕ)
    → 0 < n
    → n < 2 ^ 64
    → read_inputs_size ((if segwit then 0 ∷ 1 ∷ [] else []) ++ (write_varint n ++ rest))
      ≡ some (segwit, n, rest)
unfolding read_inputs_size read_marked
size-read true n rest pos fits =
    rw (read_varint_zero (1 ∷ (write_varint n ++ rest)), read_varint-write_varint n rest fits) refl
size-read false n rest pos fits = ground (arith, pos, read_varint-write_varint n rest fits)

-- The end of a transaction: the witnesses, if there are any.
signed-read :
    (inputs : List TxIn) (segwit : Bool) (rest : List ℕ)
    → is_segwit inputs ≡ segwit
    → All IsTxIn inputs
    → (if segwit
        then read_witnesses
            (map strip inputs)
            ((if segwit then witnesses_of inputs else []) ++ rest)
        else some (map strip inputs, (if segwit then witnesses_of inputs else []) ++ rest))
      ≡ some (inputs, rest)
signed-read inputs true rest e h = witnesses-read inputs rest h
signed-read inputs false rest e h = ap (λ is. some (is, rest)) (strip-same inputs e)

-- A transaction with at least one input, sizes that fit 64 bits, numbers that fit 32 bits, ids of
-- 32 bytes, and outputs of whole satoshis at least 1000 millisatoshis below 2^64 that is written
-- is read back, witnesses included, and what follows it is left.
pub read_tx-write_tx :
    (v : Tx) (rest : List ℕ) → IsTx v → read_tx (write_tx v ++ rest) ≡ some (v, rest)
unfolding read_tx write_tx
read_tx-write_tx v rest h =
    let segwit : Bool = is_segwit v.inputs in
    let ins = write_each write_tx_in v.inputs in
    let outs = write_each write_tx_out v.outputs in
    let signed : List ℕ = if segwit then witnesses_of v.inputs else [] in
    let lock = write_le32 v.n_lock_time in
    let s6 = signed ++ (lock ++ rest) in
    let s4 = write_varint (length v.outputs) ++ (outs ++ s6) in
    let s2 = write_varint (length v.inputs) ++ (ins ++ s4) in
    rw
      (
        append_assoc (write_le32 v.n_version) _ rest,
        append_assoc (if segwit then 0 ∷ 1 ∷ [] else []) _ rest,
        append_assoc (write_varint (length v.inputs)) _ rest,
        append_assoc ins _ rest,
        append_assoc (write_varint (length v.outputs)) _ rest,
        append_assoc outs _ rest,
        append_assoc signed lock rest,
        read_le32-write_le32 v.n_version ((if segwit then 0 ∷ 1 ∷ [] else []) ++ s2) h.version_fits,
        size-read segwit (length v.inputs) (ins ++ s4) h.has_input h.inputs_fit,
        read_each-write_each read_tx_in write_tx_in strip v.inputs s4 (
            All-map IsTxIn (Reads read_tx_in write_tx_in strip) v.inputs
              (λ i h rest. input-read i rest h) h.inputs_valid),
        read_varint-write_varint (length v.outputs) (outs ++ s6) h.outputs_fit,
        read_each-write_each read_tx_out write_tx_out (λ o. o) v.outputs s6
            (All-map IsTxOut (Reads read_tx_out write_tx_out (λ o. o)) v.outputs
              (λ o h rest. output-read o rest h) h.outputs_valid),
        map_same v.outputs,
        signed-read v.inputs segwit (lock ++ rest) refl h.inputs_valid,
        read_le32-write_le32 v.n_lock_time rest h.lock_time_fits,
      )
      refl
