-- ===== src/Repayment/HistoryTests.antt =====
-- Concrete histories of the repayment contract, and a default.
use invofi_contracts.Prelude.{List, [], ◌∷◌, ℕ, refl, ◌≡◌, some, none}
use invofi_contracts.Prelude.Int.{pos}
use invofi_contracts.Host.Outcome.{ok, Invocation}
use invofi_contracts.Host.Transactions.{run_all}
use invofi_contracts.Common.Types.{Text, InvoiceStatus}
use invofi_contracts.Common.Storage.{empty_storage, publish}
use invofi_contracts.Common.Governance.{init_admin_config}
use invofi_contracts.Common.Version.{parse_semantic_version}
use invofi_contracts.Common.Upgrade.{initialize_contract_version}
use invofi_contracts.Common.Clients.{InsuranceClient}
use invofi_contracts.Host.Events.{word, text}
use invofi_contracts.Repayment.State.{Repayment}
use invofi_contracts.Repayment.Settings.{constructor}
use invofi_contracts.Repayment.Calls.{RepaymentCall, perform}
use invofi_contracts.Repayment.History.{run-IsKept_from_constructor}
use invofi_contracts.Repayment.Kept.{IsKept}
use invofi_contracts.Repayment.Tests.{loan_call, loan_registry, loan_financing, loan_reputation}
use invofi_contracts.Insurance.Tests.{counting_token}

-- An insurance that has nothing to pay.
abbrev pub poor_insurance : InsuranceClient ℕ
poor_insurance = record { pay_out = λ addr id who amt w. ok (pos 0, w) }

abbrev first_version : Text
first_version = b'0' ∷ b'.' ∷ b'1' ∷ b'.' ∷ b'0' ∷ []

abbrev deployed : Repayment
deployed = record {
  store =
      publish (word "contract_initialized" ∷ []) (text first_version ∷ [])
        (record (empty_storage 7) {
          admcfg = some (record { signers = 8 ∷ []; threshold = 1 });
          version = some first_version;
          token = some 50;
        });
  registry = some 61;
  financing = some 62;
  insadd = none;
  repadd = none;
  penbps = 0;
  pencap = 0;
  pays = [];
}

deploy : constructor 7 8 61 62 50 first_version ≡ ok deployed
unfolding constructor init_admin_config initialize_contract_version parse_semantic_version
deploy = refl

abbrev history : List (Invocation × RepaymentCall)
history =
    (loan_call, RepaymentCall.set_penalty (8 ∷ []) 10 2000)
    ∷ (loan_call, RepaymentCall.set_reputation (8 ∷ []) 64)
    ∷ (loan_call, RepaymentCall.repay_invoice 70 30 80 (pos 600000))
    ∷ (loan_call, RepaymentCall.repay_invoice 70 30 80 (pos 9000000))
    ∷ (loan_call, RepaymentCall.repay_invoice 70 30 80 (pos 550000))
    ∷ []

run-IsKept_from_constructor_example :
    IsKept
      (run_all
        (perform counting_token
          (loan_registry InvoiceStatus.financed)
          loan_financing
          poor_insurance
          loan_reputation)
        history
        (deployed, 0)).0
run-IsKept_from_constructor_example =
    run-IsKept_from_constructor counting_token (loan_registry InvoiceStatus.financed) loan_financing
      poor_insurance loan_reputation 7 8 61 62 50 first_version history 0 deploy
