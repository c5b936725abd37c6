-- ===== src/Channels.antt =====
-- src/channels.hpp: what the plugins send one another. A block of the Antelope chain carries the
-- actions that concern the EVM; `int64_t` times and `uint32_t` numbers are natural numbers.
use eos_evm_node.Base.{ℕ, Bytes, Option, List, [], ◌∷◌, ◌++◌, reverse}

pub record NativeAction : Type 0 where
  pub ordinal : ℕ
  pub receiver : ℕ
  pub account : ℕ
  pub name : ℕ
  pub payload : Bytes

pub record NativeTrx : Type 0 where
  pub id : ℕ
  pub cpu_usage_us : ℕ
  pub elapsed : ℕ
  pub actions : List NativeAction

pub record NativeBlock : Type 0 where
  pub id : ℕ
  pub prev : ℕ
  pub block_num : ℕ
  pub timestamp : ℕ
  pub lib : ℕ
  pub new_config : Option NativeAction
  pub transactions : List NativeTrx

-- The order in which `for_each_action` visits the actions.
abbrev pub actions_of : List NativeTrx → List NativeAction
actions_of [] = []
actions_of (trx ∷ rest) = trx.actions ++ actions_of rest

-- The order in which `for_each_reverse_action` visits them: transactions from the last, and the
-- actions of each from the last.
abbrev pub reverse_actions_from : List NativeTrx → List NativeAction
reverse_actions_from [] = []
reverse_actions_from (trx ∷ rest) = reverse trx.actions ++ reverse_actions_from rest

abbrev pub reverse_actions_of : List NativeTrx → List NativeAction
reverse_actions_of trxs = reverse_actions_from (reverse trxs)
