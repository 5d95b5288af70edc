-- ===== src/Bitcoin/Tx/Text.antt =====
-- Transactions as hexadecimal text.
use mathlib.Core.List.{append-nil}
use clboss.Base.{
  ℕ, ◌≡◌, ◌<◌, refl, subst, Bool, true, false, List, [], ◌∷◌, ◌++◌, some, arith, if◌then◌else◌,
  length, All, All-append, All-reverse,
}
use clboss.Bitcoin.Le.{IsBytes, write_le32, write_le_amount}
use clboss.Bitcoin.Le.RoundTrip.{write_le32-IsBytes, write_le_amount-IsBytes}
use clboss.Bitcoin.VarInt.{write_varint, write_varint-IsBytes}
use clboss.Util.Hex.RoundTrip.{hexread-hexdump}
use clboss.Bitcoin.Tx.{
  TxIn, TxOut, Tx, write_each, write_txid, write_sized, write_witness_field, write_tx_in,
  write_tx_out, is_segwit, witnesses_of, write_tx, read_tx, of_string, to_string,
}
use clboss.Bitcoin.Tx.RoundTrip.{IsTx, read_tx-write_tx}

both : (xs ys : List ℕ) → IsBytes xs → IsBytes ys → IsBytes (xs ++ ys)
both = All-append (λ b. b < 256)

each {ℓ κ} :
    {A : Type ℓ} (P : A → Type κ) (write : A → List ℕ) (xs : List A)
    → ((x : A) → P x → IsBytes (write x))
    → All P xs
    → IsBytes (write_each write xs)
unfolding write_each
each P write [] f h = tt
each P write (x ∷ xs) f (h, h') =
    both (write x) (write_each write xs) (f x h) (each P write xs f h')

-- The ids and scripts of a transaction are of bytes.
abbrev pub InBytes : TxIn → Type 0
InBytes v = IsBytes v.prev_txid × IsBytes v.script_sig × All IsBytes v.witness

abbrev pub HasBytes : Tx → Type 0
HasBytes v = All InBytes v.inputs × All (λ o. IsBytes o.script_pub_key) v.outputs

sized : (bs : List ℕ) → IsBytes bs → IsBytes (write_sized bs)
sized bs h = both (write_varint (length bs)) bs (write_varint-IsBytes (length bs)) h

input : (v : TxIn) → InBytes v → IsBytes (write_tx_in v)
unfolding write_tx_in write_txid
input v (id, script, witness) =
    both (write_txid v.prev_txid) _ (All-reverse (λ b. b < 256) v.prev_txid id) (
      both (write_le32 v.prev_out) _ (write_le32-IsBytes v.prev_out) (
        both (write_sized v.script_sig) _ (sized v.script_sig script)
          (write_le32-IsBytes v.n_sequence)))

output : (v : TxOut) → IsBytes v.script_pub_key → IsBytes (write_tx_out v)
unfolding write_tx_out
output v h =
    both (write_le_amount v.amount) _ (write_le_amount-IsBytes v.amount) (sized v.script_pub_key h)

witness : (v : TxIn) → InBytes v → IsBytes (write_witness_field v.witness)
unfolding write_witness_field
witness v (id, script, ws) =
    both (write_varint (length v.witness)) _ (write_varint-IsBytes (length v.witness))
      (each IsBytes write_sized v.witness sized ws)

if_signed : (segwit : Bool) (bs : List ℕ) → IsBytes bs → IsBytes (if segwit then bs else [])
if_signed true bs h = h
if_signed false bs h = tt

whole : (v : Tx) → HasBytes v → IsBytes (write_tx v)
unfolding write_tx
whole v (ins, outs) = both (write_le32 v.n_version) _ (write_le32-IsBytes v.n_version) (
    both (if is_segwit v.inputs then 0 ∷ 1 ∷ [] else []) _
      (if_signed (is_segwit v.inputs) (0 ∷ 1 ∷ []) (omega arith))
      (both (write_varint (length v.inputs)) _ (write_varint-IsBytes (length v.inputs)) (
        both (write_each write_tx_in v.inputs) _ (each InBytes write_tx_in v.inputs input ins) (
          both (write_varint (length v.outputs)) _ (write_varint-IsBytes (length v.outputs)) (
            both (write_each write_tx_out v.outputs) _
              (each (λ o. IsBytes o.script_pub_key) write_tx_out v.outputs output outs)
              (both (if is_segwit v.inputs then witnesses_of v.inputs else []) _
                (if_signed (is_segwit v.inputs) (witnesses_of v.inputs)
                  (each InBytes (λ i. write_witness_field i.witness) v.inputs witness ins))
                (write_le32-IsBytes v.n_lock_time)))))))

-- A transaction as `read_tx-write_tx` takes it, whose ids, scripts and witnesses are of bytes, is
-- read back from the hexadecimal text that it prints.
pub tx_of_string-to_string : (v : Tx) → IsTx v → HasBytes v → of_string (to_string v) ≡ some v
unfolding of_string to_string
tx_of_string-to_string v h bytes =
    let read : read_tx (write_tx v) ≡ some (v, []) =
      subst (λ s. read_tx s ≡ some (v, [])) (append-nil (write_tx v)) (read_tx-write_tx v [] h) in
    rw (hexread-hexdump (write_tx v) (whole v bytes), read) refl
