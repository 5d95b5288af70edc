-- ===== src/Tests.antt =====
-- Runs of the definitions on concrete inputs, and the theorems at such inputs.
mod Channels
mod Fees
mod Graphs
mod Options
mod Prices
mod Sampling
mod Swaps
mod Text
mod Transactions
