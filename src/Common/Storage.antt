-- ===== src/Common/Storage.antt =====
-- The instance storage that every contract has, with the event log of the host: the pause flag, the
-- admin configuration, the version keys and the currency registry of common/src/lib.rs.
use invofi_contracts.Prelude.{Bool, false, not, Option, none, some, List, [], ◌∷◌, ◌++◌}
use invofi_contracts.Prelude.Maps.{Map, ℕ_key, get, set}
use invofi_contracts.Host.Outcome.{
  Address, Symbol, Hash, Result, Done, contract, paused, panicked, guard, unwrap,
}
use invofi_contracts.Host.Events.{Value, Event}
use invofi_contracts.Common.Types.{AdminConfig, PendingUpgrade, Text, TransitionRecord}

-- `executable` is the code that the host runs, `log` the events that it has recorded.
pub record Storage : Type 0 where
  pub admcfg : Option AdminConfig
  pub paused : Option Bool
  pub version : Option Text
  pub previous_version : Option Text
  pub previous_wasm : Option Hash
  pub pending_upgrade : Option PendingUpgrade
  pub curtok : Map Symbol Address
  pub token : Option Address
  pub trn_log : Map Symbol (List TransitionRecord)
  pub executable : Hash
  pub log : List Event

-- The storage of a contract at its deployment, before the constructor runs.
abbrev pub empty_storage : Hash → Storage
empty_storage wasm = record {
  admcfg = none;
  paused = none;
  version = none;
  previous_version = none;
  previous_wasm = none;
  pending_upgrade = none;
  curtok = [];
  token = none;
  trn_log = [];
  executable = wasm;
  log = [];
}

abbrev pub publish : List Value → List Value → Storage → Storage
publish topics content s = record s {
  log = s.log ++ record { topics = topics; content = content } ∷ [];
}

abbrev pub flag_or : Bool → Option Bool → Bool
flag_or d none = d
flag_or _ (some b) = b

-- `contract_is_paused`
abbrev pub contract_is_paused : Storage → Bool
contract_is_paused s = flag_or false s.paused

unfoldable pub assert_not_paused : Storage → Done
assert_not_paused s = guard (not (contract_is_paused s)) (contract paused)

unfoldable pub register_currency : Symbol → Address → Storage → Storage
register_currency currency token s = record s { curtok = set currency token s.curtok }

unfoldable pub get_currency_token : Symbol → Storage → Option Address
get_currency_token currency s = get currency s.curtok

abbrev pub token_or : Option Address → Option Address → Result Address
token_or (some addr) _ = unwrap (some addr) panicked
token_or none legacy = unwrap legacy panicked

-- The registered token of a currency, or the one token set by the constructor.
unfoldable pub resolve_token : Symbol → Storage → Result Address
unfolding get_currency_token
resolve_token currency s = token_or (get_currency_token currency s) s.token
