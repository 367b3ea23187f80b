-- ===== src/Lib.antt =====
-- InvoFi: invoice financing contracts on Soroban. A registry holds invoices, a financing contract
-- offers on them, a repayment contract takes repayments and declares defaults, an insurance contract
-- is the coverage reserve that pays on default, and a reputation contract scores originators; what
-- they share is in one crate, common. This library models the shared crate and the financing, repayment,
-- insurance and reputation contracts.
--
-- The files and the code:
--   Prelude, Prelude/*: Booleans on the native numbers, signed integers (Rust's i128 before the range
--     check), lists (soroban_sdk::Vec), maps in key order (soroban_sdk::Map) and sums of balances.
--   Host, Host/*: how a call ends (a trap undoes the transaction, so an error carries no state), the
--     invocation (own address, ledger time, who has authorized), checked machine arithmetic, events.
--   Common/Types, Common/Domain, Common/Storage: the data and the instance storage of common/src/lib.rs.
--   Common/Governance (validate_signers, assert_threshold, assert_admin), with its laws in
--     Common/Threshold and Common/Signers.
--   Common/Version (parse_semantic_version), Common/Version/RoundTrip; Common/Upgrade (begin_upgrade,
--     complete_upgrade, rollback_target, commit_rollback), Common/UpgradeLaws.
--   Common/Transition (assert_transition and its history), Common/Lifecycle.
--   Common/Contract: set_signers, transfer_admin, pause, unpause, upgrade, post_upgrade, rollback,
--     which each contract repeats; Common/Contract/Administration has their invariant.
--   Common/Clients: the client traits of common/src/lib.rs, and the token contract, as records of
--     operations over an unknown state W. The contracts take them as parameters.
--   Reputation: reputation/src/lib.rs. Reputation/Decay, Records, Outcomes, Frequency, Disputes: laws;
--     Reputation/History: the entry points as one dispatcher, and their histories.
--   Insurance/State, Yield, Settings, Views, Reduction, Flat, Payout, Tiers/Stakes, Tiers/Payouts:
--     insurance/src/lib.rs (the storage; compute_yield and the banking; the settings; the loop that
--     reduces the stakes; stake and unstake; pay_out, reserve_payout and claim_payout; the same on the
--     tiers). Insurance/ReductionLaws, FlatBalance, Transfers, FlatPayout, Reservations, Settlement, Promises,
--     Claims: the flat pool's laws. Insurance/TierBalance, TierPayout, TierClaims, TierReservations:
--     the tiers' laws. Insurance/YieldLaws, Checkpoint, Prospective: the yield's laws. Insurance/Calls: the
--     entry points as one dispatcher, and sequences of transactions; Frames: what each leaves alone;
--     Solid, History and Pausing: the laws of all of them.
--   Common/Statuses: the derived equality of statuses. Host/Transactions: a sequence of transactions.
--     Prelude/MapSums: sums of a measure over a map.
--   Repayment/State, Interest, Owed, Repay, Reclaim, Settings, Views: repayment/src/lib.rs (the storage and
--     the payment history; pro_rata_interest, accrued_penalty, total_principal_repaid; the guards, what is
--     owed and the split of a payment; repay_invoice; mark_overdue and reclaim_invoice; the settings; the
--     views). Repayment/Formulas, Settled, Loans, Payments, Guards, Cleared, Payoff, Accrual, Defaults: laws.
--     Repayment/Calls: one dispatcher; Kept and History: its invariant and histories.
--   Financing/State, Offers, Acceptance, Negotiation, Rounds, Callbacks, Schedules, Settings, Views:
--     financing/src/lib.rs (the storage; create_offer and withdraw_offer; accept_offer, its settlement, and
--     reject_offer; the history of a negotiation; amend_offer, counter_offer and close_negotiation; what
--     the repayment contract calls; schedules; the settings; the views). Financing/Proposals, Consent,
--     Settling, Paging, Coverage, Installments: laws. Financing/Calls: one dispatcher. Financing/Books, BookSteps,
--     Steps, OfferSteps, SettlementSteps, SettingSteps, History: the statistics against the stored offers.
--   Protocol/Links: the clients of the insurance and the financing contract, filled by their models.
--     Protocol/Defaulting: reclaim_invoice with the insurance contract behind it. Protocol/Repaying:
--     repay_invoice with the financing contract behind it, after Crediting (the updates of the offer) and
--     Collecting (the transfers).
--   */Tests, */HistoryTests and Insurance/*Tests: concrete states, and the theorems on them.
--
-- Correspondence. A storage key is a field of the contract's record, named after the key; an absent
-- map or number is the empty map or zero, as all readers take it. An entry point is a function of the
-- invocation, its arguments and the state into a Result; a call of another contract also threads W.
-- repay_invoice and reclaim_invoice stand in steps that follow the order of the source: what is read and
-- checked, the split of the amount, the transfers, the record, the updates elsewhere, the events.
-- In Protocol, where a contract calls another, the invoker's own address has authorized the call.
-- Addresses, symbols and hashes are numbers. The loops over keys run over a snapshot, as in the source.
--
-- Fuel and bounds. The decay loop runs on `elapsed + 1` rounds, each of which takes a half-life off
-- `elapsed`, which is at least one second. total_principal_repaid reads at most 1000 records, as the
-- source does. All other loops recurse on a list.
-- An i128 lies between -2^127 and 2^127 - 1, a u32 below 2^32; out of range the operation traps.
--
-- Not modelled: the registry contract, which the others take as a parameter, and the event indexer;
-- time-to-live of storage entries, gas, and the contents of WebAssembly executables, which are opaque
-- hashes; reentrant calls, as a called contract changes only W.

pub mod Prelude
pub mod Host
pub mod Common
pub mod Reputation
pub mod Insurance
pub mod Repayment
pub mod Financing
pub mod Protocol
