-- ===== src/Common/Transition.antt =====
-- The invoice state machine of common/src/lib.rs: the table of legal transitions, and the bounded
-- history that each accepted transition is recorded in.
use invofi_contracts.Prelude.{ℕ, Bool, true, false, List, [], ◌∷◌, ◌++◌, ltb, if◌then◌else◌}
use invofi_contracts.Prelude.Lists.{length, drop_first}
use invofi_contracts.Prelude.Maps.{ℕ_key, get_or, set}
use invofi_contracts.Host.Outcome.{
  Address, Symbol, Result, ok, Done, ◌>>◌, contract, invalid_transition, guard, Invocation,
}
use invofi_contracts.Host.Events.{word, symbol, number, address}
use invofi_contracts.Common.Types.{InvoiceStatus, TransitionRecord}
use invofi_contracts.Common.Storage.{Storage, publish}

-- The `matches!` of `validate_transition`.
unfoldable pub is_valid_transition : InvoiceStatus → InvoiceStatus → Bool
is_valid_transition InvoiceStatus.pending InvoiceStatus.cancelled = true
is_valid_transition InvoiceStatus.pending InvoiceStatus.financed = true
is_valid_transition InvoiceStatus.financed InvoiceStatus.repaid = true
is_valid_transition InvoiceStatus.financed InvoiceStatus.financed = true
is_valid_transition InvoiceStatus.financed InvoiceStatus.overdue = true
is_valid_transition InvoiceStatus.financed InvoiceStatus.disputed = true
is_valid_transition InvoiceStatus.overdue InvoiceStatus.defaulted = true
is_valid_transition InvoiceStatus.disputed InvoiceStatus.pending = true
is_valid_transition InvoiceStatus.disputed InvoiceStatus.financed = true
is_valid_transition InvoiceStatus.disputed InvoiceStatus.repaid = true
is_valid_transition InvoiceStatus.disputed InvoiceStatus.cancelled = true
is_valid_transition InvoiceStatus.disputed InvoiceStatus.defaulted = true
is_valid_transition _ _ = false

unfoldable pub validate_transition : InvoiceStatus → InvoiceStatus → Done
unfolding is_valid_transition
validate_transition from to = guard (is_valid_transition from to) (contract invalid_transition)

-- The discriminants of `InvoiceStatus`.
abbrev pub status_code : InvoiceStatus → ℕ
status_code InvoiceStatus.pending = 0
status_code InvoiceStatus.financed = 1
status_code InvoiceStatus.repaid = 2
status_code InvoiceStatus.overdue = 3
status_code InvoiceStatus.cancelled = 4
status_code InvoiceStatus.disputed = 5
status_code InvoiceStatus.defaulted = 6

-- `push_back`, then `pop_front` if the history is longer than 20.
unfoldable pub push_bounded : List TransitionRecord → TransitionRecord → List TransitionRecord
push_bounded history entry =
    let grown = history ++ entry ∷ [] in if ltb 20 (length grown) then drop_first grown else grown

unfoldable pub record_transition :
    Invocation → Symbol → InvoiceStatus → InvoiceStatus → Address → Storage → Storage
unfolding push_bounded
record_transition c invoice_id from to actor s =
    let entry : TransitionRecord = record {
      from_status = from;
      to_status = to;
      actor = actor;
      timestamp = c.now;
    } in
    record s {
      trn_log = set invoice_id (push_bounded (get_or [] invoice_id s.trn_log) entry) s.trn_log;
    }

unfoldable pub assert_transition :
    Invocation → Symbol → InvoiceStatus → InvoiceStatus → Address → Storage → Result Storage
unfolding validate_transition record_transition
assert_transition c invoice_id from to actor s = do
  validate_transition from to
  ok (
      record_transition c invoice_id from to actor (
        publish (word "inv_trx" ∷ symbol invoice_id ∷ [])
          (number (status_code from) ∷ number (status_code to) ∷ address actor ∷ []) s))

unfoldable pub get_transition_history : Symbol → Storage → List TransitionRecord
get_transition_history invoice_id s = get_or [] invoice_id s.trn_log
