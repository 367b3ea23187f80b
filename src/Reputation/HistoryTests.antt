-- ===== src/Reputation/HistoryTests.antt =====
-- A concrete history of the reputation contract.
use invofi_contracts.Prelude.{◌≡◌, refl, true, some, none, List, [], ◌∷◌}
use invofi_contracts.Host.Outcome.{ok, Invocation}
use invofi_contracts.Host.Events.{word, text}
use invofi_contracts.Common.Types.{Text}
use invofi_contracts.Common.Storage.{empty_storage, publish}
use invofi_contracts.Common.Governance.{init_admin_config}
use invofi_contracts.Common.Version.{parse_semantic_version}
use invofi_contracts.Common.Upgrade.{initialize_contract_version}
use invofi_contracts.Reputation.{Reputation, constructor}
use invofi_contracts.Reputation.Outcomes.{RecordsAreSound}
use invofi_contracts.Reputation.History.{ReputationCall, run, run-RecordsAreSound_from_constructor}
use invofi_contracts.Reputation.Tests.{call, later}

abbrev first_version : Text
first_version = b'0' ∷ b'.' ∷ b'1' ∷ b'.' ∷ b'0' ∷ []

abbrev deployed : Reputation
deployed = record {
  store =
      publish (word "contract_initialized" ∷ []) (text first_version ∷ [])
        (record (empty_storage 7) {
          admcfg = some (record { signers = 8 ∷ []; threshold = 1 });
          version = some first_version;
        });
  recorder = none;
  records = [];
}

deploy : constructor 7 8 first_version ≡ ok deployed
unfolding constructor init_admin_config initialize_contract_version parse_semantic_version
deploy = refl

abbrev history : List (Invocation × ReputationCall)
history =
    (call, ReputationCall.set_recorder (8 ∷ []) 60)
    ∷ (call, ReputationCall.record_outcome 1 0)
    ∷ (later, ReputationCall.record_outcome 1 1)
    ∷ (later, ReputationCall.record_outcome 1 2)
    ∷ (later, ReputationCall.resolve_dispute (8 ∷ []) 1 true)
    ∷ []

run-RecordsAreSound_from_constructor_example : RecordsAreSound (run history deployed)
run-RecordsAreSound_from_constructor_example =
    run-RecordsAreSound_from_constructor 7 8 first_version history deploy
