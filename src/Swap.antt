-- ===== src/Swap.antt =====
-- Boss/Mod/SwapManager.cpp: swaps of offchain for onchain funds, kept in a database. This file has the
-- tables, the queues and the messages; the children have the handlers and what holds of them.
-- Texts (ids, addresses, hashes, invoices, names) are numbers, and zero is the empty text. Between two
-- waits of a greenthread its code is one function here; what a greenthread does after a wait is a task.
pub mod Address
pub mod Settle
pub mod Invoice
pub mod Onchain
pub mod Steps
pub mod Tables
pub mod Rows
pub mod Consistent
pub mod Found
pub mod Invariant
pub mod Reachable
pub mod Sharing
pub mod Custody
pub mod Reduction
pub mod Halves
pub mod Pairing
use clboss.Base.{
  ℕ, ◌≡◌, subst, Bool, true, false, List, [], ◌∷◌, Option, none, some, map, ◌==◌, if◌then◌else◌,
  not, keep_if,
}
use clboss.Ln.Amount.{Amount}

pub data State : Type 0 where
  needs_onchain_address needs_invoice awaiting_result : State

pub record Swap : Type 0 where
  pub uuid : ℕ
  pub amount : Amount
  pub min_amount : Amount
  pub state : State
  pub address : Option ℕ
  pub payment_hash : Option ℕ
  pub timeout : Option ℕ

pub record Quotation : Type 0 where
  pub score : ℕ
  pub provider : ℕ
  pub provider_name : ℕ

pub record OnchainCompletion : Type 0 where
  pub payment_hash : ℕ
  pub amount_received : Amount
  pub provider_name : ℕ

pub record PayCompletion : Type 0 where
  pub payment_hash : ℕ
  pub amount_sent : Amount

-- What a greenthread goes on with.
pub data Task : Type 0 where
  swap_reduce_or_fail : (uuid : ℕ) → Task
  on_onchain_funds_seen : (hash : ℕ) (received : Amount) (name : ℕ) → Task
  pop_invoice : Task

pub data Message : Type 0 where
  request_newaddr : Message
  solicit_swap_quotation : Amount → Message
  accept_swap_quotation : Amount → (address provider : ℕ) → Message
  pay_invoice : (invoice : ℕ) → Message
  request_listpays : (hash : ℕ) → Message
  swap_response : (uuid : ℕ) → Bool → Amount → Message
  swap_completed : (sent received : Amount) (name : ℕ) → Message

pub record SwapManager : Type 0 where
  pub swaps : List Swap
  pub addrcache : List ℕ
  pub providers : List (ℕ × ℕ)
  pub comp_onchain : List OnchainCompletion
  pub comp_pay : List PayCompletion
  pub getting_address : Bool
  pub getting_invoice : Bool
  pub address_queue : List ℕ
  pub invoice_queue : List ℕ
  pub quotations : List Quotation
  pub amount : Amount
  pub address : ℕ
  pub onchain_funds : List (ℕ × Amount)
  pub tasks : List Task

-- The state and the messages that were raised, in their order; `none` is an exception, a failed
-- assertion or the front of an empty queue.
abbrev pub Outcome : Type 0
Outcome = Option (SwapManager × List Message)

-- What holds of the state after an outcome, if there is one.
abbrev pub Ensures {ℓ} : (SwapManager → Type ℓ) → Outcome → Type ℓ
Ensures P none = Unit
Ensures P (some r) = P r.0

pub Ensures-some {ℓ} :
    (P : SwapManager → Type ℓ) (o : Outcome) (n : SwapManager) (out : List Message)
    → Ensures P o
    → o ≡ some (n, out)
    → P n
Ensures-some P o n out h e = subst (Ensures P) e h

abbrev pub is_state : State → State → Bool
is_state needs_onchain_address s = elim s [
  | needs_onchain_address ↦ true
  | needs_invoice ↦ false
  | awaiting_result ↦ false
]
is_state needs_invoice s = elim s [
  | needs_onchain_address ↦ false
  | needs_invoice ↦ true
  | awaiting_result ↦ false
]
is_state awaiting_result s = elim s [
  | needs_onchain_address ↦ false
  | needs_invoice ↦ false
  | awaiting_result ↦ true
]

-- `column = :value`: never for NULL.
abbrev pub holds : Option ℕ → ℕ → Bool
holds none v = false
holds (some w) v = w == v

abbrev pub text_of : Option ℕ → ℕ
text_of none = 0
text_of (some t) = t

-- `UPDATE ... WHERE`.
abbrev pub update_where {ℓ} : {A : Type ℓ} → (A → Bool) → (A → A) → List A → List A
update_where p f = map (λ x. if p x then f x else x)

abbrev pub has_uuid : ℕ → Swap → Bool
has_uuid u s = s.uuid == u

-- The row that a loop over the result reads last.
abbrev pub last_where {ℓ} : {A : Type ℓ} → (A → Bool) → List A → Option A
last_where p [] = none
last_where p (x ∷ xs) = elim (last_where p xs) [
  | some y ↦ some y
  | none ↦ if p x then some x else none
]

-- `DELETE FROM "SwapManager" WHERE uuid = :uuid`, which takes the row of the provider along.
abbrev pub delete_swap : ℕ → SwapManager → SwapManager
delete_swap u m = record m {
  swaps = keep_if (λ s. not (has_uuid u s)) m.swaps;
  providers = keep_if (λ p. not (p.0 == u)) m.providers;
}

-- At the first start; later ones find the tables as they are.
abbrev pub empty_manager : SwapManager
empty_manager = record {
  swaps = [];
  addrcache = [];
  providers = [];
  comp_onchain = [];
  comp_pay = [];
  getting_address = false;
  getting_invoice = false;
  address_queue = [];
  invoice_queue = [];
  quotations = [];
  amount = 0;
  address = 0;
  onchain_funds = [];
  tasks = [];
}
