-- ===== src/Tests/Transactions.antt =====
-- Transactions (Bitcoin/Tx.cpp) at concrete inputs.
use clboss.Base.{ℕ, ◌≡◌, ◌⊎◌, refl, sym, List, [], ◌∷◌, ◌++◌, some, arith, reverse}
use clboss.Bitcoin.Tx.{TxIn, Tx, write_tx, read_tx, of_string, to_string, strip_witnesses}
use clboss.Bitcoin.Tx.RoundTrip.{IsTx, read_tx-write_tx}
use clboss.Bitcoin.Tx.Text.{HasBytes, tx_of_string-to_string}
use clboss.Bitcoin.Tx.Txid.{Collision, strip-IsTx, get_txid-strip_witnesses, get_txid_commits}

abbrev previous : List ℕ
previous =
    1 ∷ 2 ∷ 3 ∷ 4 ∷ 5 ∷ 6 ∷ 7 ∷ 8 ∷ 9 ∷ 10 ∷ 11 ∷ 12 ∷ 13 ∷ 14 ∷ 15 ∷ 16 ∷ 17 ∷ 18 ∷ 19 ∷ 20 ∷ 21
    ∷ 22 ∷ 23 ∷ 24 ∷ 25 ∷ 26 ∷ 27 ∷ 28 ∷ 29 ∷ 30 ∷ 31 ∷ 255 ∷ []

abbrev signed_input : TxIn
signed_input = record {
  prev_txid = previous;
  prev_out = 1;
  script_sig = [];
  n_sequence = 4294967295;
  witness = (48 ∷ 69 ∷ []) ∷ (2 ∷ 3 ∷ 4 ∷ []) ∷ [];
}

-- Pays 70000 satoshis.
abbrev payment : Tx
payment = record {
  n_version = 2;
  inputs = signed_input ∷ [];
  outputs = record { amount = 70000000; script_pub_key = 0 ∷ 20 ∷ 171 ∷ [] } ∷ [];
  n_lock_time = 500000;
}

payment-IsTx : IsTx payment
payment-IsTx = record {
  version_fits = omega arith;
  has_input = omega arith;
  inputs_fit = omega arith;
  inputs_valid = (
    record {
      txid_size = refl;
      out_fits = omega arith;
      script_fits = omega arith;
      sequence_fits = omega arith;
      witness_fits = omega arith;
    },
    tt,
  );
  outputs_fit = omega arith;
  outputs_valid = omega arith;
  lock_time_fits = omega arith;
}

read_tx-write_tx_example : read_tx (write_tx payment ++ 9 ∷ []) ≡ some (payment, 9 ∷ [])
read_tx-write_tx_example = read_tx-write_tx payment (9 ∷ []) payment-IsTx

payment-HasBytes : HasBytes payment
payment-HasBytes = omega arith

tx_of_string-to_string_example : of_string (to_string payment) ≡ some payment
tx_of_string-to_string_example = tx_of_string-to_string payment payment-IsTx payment-HasBytes

-- A function in the place of SHA256. The payment has the id that it had before it was signed.
abbrev toy_hash : List ℕ → List ℕ
toy_hash bytes = reverse bytes

get_txid_commits_example :
    (strip_witnesses payment ≡ strip_witnesses (strip_witnesses payment)) ⊎ Collision toy_hash
get_txid_commits_example =
    get_txid_commits toy_hash payment (strip_witnesses payment) payment-IsTx
      (strip-IsTx payment payment-IsTx) (sym (get_txid-strip_witnesses toy_hash payment))
