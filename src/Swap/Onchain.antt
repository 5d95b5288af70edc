-- ===== src/Swap/Onchain.antt =====
-- Funds that appear onchain complete a swap; with the payment on Lightning it is broadcast as completed.
use clboss.Base.{
  ℕ, Bool, true, ◌&&◌, List, [], ◌∷◌, ◌++◌, none, some, ◌==◌, if◌then◌else◌, not, keep_if,
}
use clboss.Ln.Amount.{Amount}
use clboss.Swap.{
  awaiting_result, Swap, OnchainCompletion, PayCompletion, SwapManager, Message, swap_response,
  swap_completed, on_onchain_funds_seen, is_state, holds, text_of, last_where, delete_swap,
}

unfoldable pub on_listfunds_result : List (ℕ × Amount) → SwapManager → SwapManager
on_listfunds_result outputs m = record m { onchain_funds = m.onchain_funds ++ outputs }

-- One for which the text is `"<Unknown>"`.
abbrev pub unknown_provider : ℕ
unknown_provider = 1

abbrev pub name_of : ℕ → List (ℕ × ℕ) → ℕ
name_of uuid [] = unknown_provider
name_of uuid (p ∷ ps) = if p.0 == uuid then p.1 else name_of uuid ps

abbrev pub awaits_at : ℕ → Swap → Bool
awaits_at address s = holds s.address address && is_state awaiting_result s.state

-- One turn of the loop.
unfoldable pub loop_onchain_funds : SwapManager → SwapManager × List Message
loop_onchain_funds m = elim m.onchain_funds [
  | [] ↦ (m, [])
  | fund ∷ rest ↦ elim (last_where (awaits_at fund.0) m.swaps) [
    | none ↦ (record m { onchain_funds = rest }, [])
    | some s ↦ (
      delete_swap s.uuid (record m {
        onchain_funds = rest;
        tasks =
            m.tasks
            ++ on_onchain_funds_seen (text_of s.payment_hash) fund.1 (name_of s.uuid m.providers)
              ∷ [];
      }),
      swap_response s.uuid true fund.1 ∷ [],
    )
  ]
]

abbrev pub is_comp_onchain : ℕ → OnchainCompletion → Bool
is_comp_onchain hash c = c.payment_hash == hash

abbrev pub is_comp_pay : ℕ → PayCompletion → Bool
is_comp_pay hash c = c.payment_hash == hash

-- `INSERT OR IGNORE`: an old record stays.
unfoldable pub on_pay_success : ℕ → Amount → SwapManager → SwapManager × List Message
on_pay_success hash sent m = elim (last_where (is_comp_onchain hash) m.comp_onchain) [
  | some c ↦ (
    record m { comp_onchain = keep_if (λ c. not (is_comp_onchain hash c)) m.comp_onchain },
    swap_completed sent c.amount_received c.provider_name ∷ [],
  )
  | none ↦ elim (last_where (is_comp_pay hash) m.comp_pay) [
    | some c ↦ (m, [])
    | none ↦ (
      record m { comp_pay = m.comp_pay ++ record { payment_hash = hash; amount_sent = sent } ∷ [] },
      [],
    )
  ]
]

unfoldable pub funds_seen : ℕ → Amount → ℕ → SwapManager → SwapManager × List Message
funds_seen hash received name m = elim (last_where (is_comp_pay hash) m.comp_pay) [
  | some c ↦ (
    record m { comp_pay = keep_if (λ c. not (is_comp_pay hash c)) m.comp_pay },
    swap_completed c.amount_sent received name ∷ [],
  )
  | none ↦ elim (last_where (is_comp_onchain hash) m.comp_onchain) [
    | some c ↦ (m, [])
    | none ↦ (
      record m {
        comp_onchain =
            m.comp_onchain
            ++ record { payment_hash = hash; amount_received = received; provider_name = name }
              ∷ [];
      },
      [],
    )
  ]
]
