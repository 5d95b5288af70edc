-- ===== src/Bitcoin/Tx.antt =====
-- Bitcoin/Tx.cpp, TxIn.cpp, TxOut.cpp, WitnessField.cpp and TxId.cpp: transactions on streams and as
-- hexadecimal text, and their ids. A stream is the list of its bytes, as in Bitcoin/Le.antt. SHA256 is
-- an argument.
pub mod RoundTrip
pub mod Text
pub mod Txid
use clboss.Base.{
  ℕ, zero, suc, Bool, true, false, ◌||◌, not, List, [], ◌∷◌, ◌++◌, Option, none, some, ◌==◌,
  if◌then◌else◌, map, reverse, length, is_empty, ◌>>=◌,
}
use clboss.Ln.Amount.{Amount}
use clboss.Bitcoin.Le.{write_le32, read_le32, write_le_amount, read_le_amount}
use clboss.Bitcoin.VarInt.{write_varint, read_varint}
use clboss.Util.Hex.{hexdump, hexread}

-- The bytes of a hash, as they are stored: in the order of the text.
abbrev pub TxId : Type 0
TxId = List ℕ

-- `witnesses` of WitnessField.
pub record TxIn : Type 0 where
  pub prev_txid : TxId
  pub prev_out : ℕ
  pub script_sig : List ℕ
  pub n_sequence : ℕ
  pub witness : List (List ℕ)

pub record TxOut : Type 0 where
  pub amount : Amount
  pub script_pub_key : List ℕ

pub record Tx : Type 0 where
  pub n_version : ℕ
  pub inputs : List TxIn
  pub outputs : List TxOut
  pub n_lock_time : ℕ

-- `for (auto& b : bytes) b = is.get();` after a `resize`.
pub read_bytes : ℕ → List ℕ → Option (List ℕ × List ℕ)
read_bytes zero is = some ([], is)
read_bytes (suc n) [] = none
read_bytes (suc n) (b ∷ is) = do (bs, rest) ← read_bytes n is; some (b ∷ bs, rest)

-- `for (auto& x : xs) is >> x;` after a `resize`.
pub read_each {ℓ} :
    {A : Type ℓ} → (List ℕ → Option (A × List ℕ)) → ℕ → List ℕ → Option (List A × List ℕ)
read_each read zero is = some ([], is)
read_each read (suc n) is = do
  (x, rest) ← read is
  (xs, rest2) ← read_each read n rest
  some (x ∷ xs, rest2)

-- `for (auto const& x : xs) os << x;`.
pub write_each {ℓ} : {A : Type ℓ} → (A → List ℕ) → List A → List ℕ
write_each write [] = []
write_each write (x ∷ xs) = write x ++ write_each write xs

pub write_txid : TxId → List ℕ
write_txid id = reverse id

pub read_txid : List ℕ → Option (TxId × List ℕ)
read_txid is = do (hash, rest) ← read_bytes 32 is; some (reverse hash, rest)

-- A size and as many bytes.
abbrev pub write_sized : List ℕ → List ℕ
write_sized bytes = write_varint (length bytes) ++ bytes

abbrev pub read_sized : List ℕ → Option (List ℕ × List ℕ)
read_sized is = do (len, rest) ← read_varint is; read_bytes len rest

pub write_witness_field : List (List ℕ) → List ℕ
write_witness_field ws = write_varint (length ws) ++ write_each write_sized ws

pub read_witness_field : List ℕ → Option (List (List ℕ) × List ℕ)
read_witness_field is = do (len, rest) ← read_varint is; read_each read_sized len rest

pub write_tx_in : TxIn → List ℕ
write_tx_in v =
    write_txid v.prev_txid
    ++ (write_le32 v.prev_out ++ (write_sized v.script_sig ++ write_le32 v.n_sequence))

-- The witness comes later.
pub read_tx_in : List ℕ → Option (TxIn × List ℕ)
read_tx_in is = do
  (prev_txid, is1) ← read_txid is
  (prev_out, is2) ← read_le32 is1
  (script_sig, is3) ← read_sized is2
  (n_sequence, is4) ← read_le32 is3
  some (
    record {
      prev_txid = prev_txid;
      prev_out = prev_out;
      script_sig = script_sig;
      n_sequence = n_sequence;
      witness = [];
    },
    is4,
  )

pub write_tx_out : TxOut → List ℕ
write_tx_out v = write_le_amount v.amount ++ write_sized v.script_pub_key

pub read_tx_out : List ℕ → Option (TxOut × List ℕ)
read_tx_out is = do
  (amount, is1) ← read_le_amount is
  (script, is2) ← read_sized is1
  some (record { amount = amount; script_pub_key = script }, is2)

abbrev pub is_segwit : List TxIn → Bool
is_segwit [] = false
is_segwit (i ∷ is) = not (is_empty i.witness) || is_segwit is

abbrev pub witnesses_of : List TxIn → List ℕ
witnesses_of = write_each (λ i. write_witness_field i.witness)

pub write_tx : Tx → List ℕ
write_tx v =
    let segwit = is_segwit v.inputs in
    write_le32 v.n_version
    ++ ((if segwit then 0 ∷ 1 ∷ [] else [])
        ++ (write_varint (length v.inputs)
            ++ (write_each write_tx_in v.inputs
                ++ (write_varint (length v.outputs)
                    ++ (write_each write_tx_out v.outputs
                        ++ ((if segwit then witnesses_of v.inputs else [])
                            ++ write_le32 v.n_lock_time))))))

-- The marker after a zero, and the actual number of inputs.
pub read_marked : List ℕ → Option (Bool × ℕ × List ℕ)
read_marked [] = none
read_marked (b ∷ is) =
    if b == 1 then (do (len, rest) ← read_varint is; some (true, len, rest)) else none

-- Whether witnesses follow, and the number of inputs.
pub read_inputs_size : List ℕ → Option (Bool × ℕ × List ℕ)
read_inputs_size is = do
  (len, rest) ← read_varint is
  if len == 0 then read_marked rest else some (false, len, rest)

-- `for (auto& i : v.inputs) is >> i.witness;`.
pub read_witnesses : List TxIn → List ℕ → Option (List TxIn × List ℕ)
read_witnesses [] is = some ([], is)
read_witnesses (i ∷ inputs) is = do
  (ws, rest) ← read_witness_field is
  (others, rest2) ← read_witnesses inputs rest
  some (record i { witness = ws } ∷ others, rest2)

pub read_tx : List ℕ → Option (Tx × List ℕ)
read_tx is = do
  (n_version, is1) ← read_le32 is
  (segwit, len, is2) ← read_inputs_size is1
  (inputs, is3) ← read_each read_tx_in len is2
  (out_len, is4) ← read_varint is3
  (outputs, is5) ← read_each read_tx_out out_len is4
  (signed, is6) ← if segwit then read_witnesses inputs is5 else some (inputs, is5)
  (n_lock_time, is7) ← read_le32 is6
  some (
    record { n_version = n_version; inputs = signed; outputs = outputs; n_lock_time = n_lock_time },
    is7,
  )

-- Invalid text, or text that is too long, is an exception.
pub of_string : List ℕ → Option Tx
of_string s = do buf ← hexread s; (v, rest) ← read_tx buf; elim rest [ [] ↦ some v | b ∷ bs ↦ none ]

pub to_string : Tx → List ℕ
to_string v = hexdump (write_tx v)

abbrev pub strip : TxIn → TxIn
strip i = record i { witness = [] }

abbrev pub strip_witnesses : Tx → Tx
strip_witnesses v = record v { inputs = map strip v.inputs }

-- The id is the reverse of the double hash.
pub get_txid : (List ℕ → List ℕ) → Tx → TxId
get_txid sha256 v = reverse (sha256 (sha256 (write_tx (strip_witnesses v))))
