-- ===== src/Repayment/State.antt =====
-- The storage of repayment/src/lib.rs, its constants, and the payment history.
use invofi_contracts.Prelude.{ℕ, Option, List, []}
use invofi_contracts.Prelude.Maps.{Map, ℕ_key, get_or, set}
use invofi_contracts.Host.Outcome.{Address, Symbol}
use invofi_contracts.Common.Types.{PaymentRecord}
use invofi_contracts.Common.Storage.{Storage}

abbrev pub secs_per_day : ℕ
secs_per_day = 86400

abbrev pub max_penalty_bps : ℕ
max_penalty_bps = 500

abbrev pub min_partial_payment_bps : ℕ
min_partial_payment_bps = 100

abbrev pub max_payments_per_invoice : ℕ
max_payments_per_invoice = 1000

-- One field for each key: the registry and the financing contract, the optional insurance and
-- reputation contracts, the penalty's parameters (zero when absent), the payments of each invoice.
pub record Repayment : Type 0 where
  pub store : Storage
  pub registry : Option Address
  pub financing : Option Address
  pub insadd : Option Address
  pub repadd : Option Address
  pub penbps : ℕ
  pub pencap : ℕ
  pub pays : Map Symbol (List PaymentRecord)

unfoldable pub load_payments : Symbol → Repayment → List PaymentRecord
load_payments invoice_id s = get_or [] invoice_id s.pays

unfoldable pub save_payments : Symbol → List PaymentRecord → Repayment → Repayment
save_payments invoice_id payments s = record s { pays = set invoice_id payments s.pays }

unfoldable pub load_penalty_config : Repayment → ℕ × ℕ
load_penalty_config s = (s.penbps, s.pencap)
