-- ===== src/Host/Events.antt =====
-- `env.events().publish(topics, data)`: the events of a contract, oldest first.
use invofi_contracts.Prelude.{ℕ, Bool, List}
use invofi_contracts.Prelude.Int.{ℤ}
use Prim.Native.String.{String}

pub data Value : Type 0 where
  word : String → Value
  address symbol number hash : ℕ → Value
  amount : ℤ → Value
  flag : Bool → Value
  text : List ℕ → Value

pub record Event : Type 0 where
  pub topics : List Value
  pub content : List Value
