-- ===== src/Insurance/HistoryTests.antt =====
-- A concrete history of the insurance contract.
use invofi_contracts.Prelude.{List, [], ◌∷◌, refl, ◌≡◌, some, none}
use invofi_contracts.Prelude.Int.{pos}
use invofi_contracts.Host.Outcome.{ok, Invocation}
use invofi_contracts.Common.Types.{Text}
use invofi_contracts.Common.Storage.{empty_storage, publish}
use invofi_contracts.Common.Governance.{init_admin_config}
use invofi_contracts.Common.Version.{parse_semantic_version}
use invofi_contracts.Common.Upgrade.{initialize_contract_version}
use invofi_contracts.Host.Events.{word, text}
use invofi_contracts.Insurance.State.{Insurance, InsuranceTier}
use invofi_contracts.Insurance.Settings.{constructor}
use invofi_contracts.Insurance.Calls.{PoolCall, run}
use invofi_contracts.Insurance.History.{run-IsSolid_from_constructor}
use invofi_contracts.Insurance.Solid.{IsSolid}
use invofi_contracts.Insurance.Tests.{counting_token, default_registry, call, pool}

abbrev first_version : Text
first_version = b'0' ∷ b'.' ∷ b'1' ∷ b'.' ∷ b'0' ∷ []

abbrev deployed : Insurance
deployed = record pool {
  store =
      publish (word "contract_initialized" ∷ []) (text first_version ∷ [])
        (record (empty_storage 7) {
          admcfg = some (record { signers = 8 ∷ []; threshold = 1 });
          version = some first_version;
          token = some 50;
        });
  paycall = none;
  registry = none;
  stakes = [];
  pooltot = pos 0;
}

deploy : constructor 7 8 50 first_version ≡ ok deployed
unfolding constructor init_admin_config initialize_contract_version parse_semantic_version
deploy = refl

abbrev history : List (Invocation × PoolCall)
history =
    (call, PoolCall.set_payout_caller (8 ∷ []) 60)
    ∷ (call, PoolCall.set_registry (8 ∷ []) 61)
    ∷ (call, PoolCall.stake 1 (pos 3000000))
    ∷ (call, PoolCall.stake_tier 2 InsuranceTier.aggressive (pos 2000000))
    ∷ (call, PoolCall.reserve_payout 30 (pos 1000000))
    ∷ (call, PoolCall.pay_out 70 4 (pos 500000))
    ∷ (call, PoolCall.claim_payout 30 4 (pos 400000))
    ∷ (call, PoolCall.unstake 1 (pos 9999999))
    ∷ []

run-IsSolid_from_constructor_example :
    IsSolid (run counting_token default_registry history (deployed, 0)).0
run-IsSolid_from_constructor_example =
    run-IsSolid_from_constructor counting_token default_registry 7 8 50 first_version 0 history
      deploy
