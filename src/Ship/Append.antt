-- ===== src/Ship/Append.antt =====
-- From a block of the state history to a native block: `to_native` and `append_to_block` in
-- src/ship_receiver_plugin.cpp. Byte strings are decoded by abieos, so a block comes as its fields.
pub mod Sorted
pub mod Keyed
pub mod Ordered
pub mod Uniform
pub mod Taken
pub mod Batch
pub mod Built
pub mod From
pub mod Sourced
use eos_evm_node.Base.{
  ℕ, ◌+◌, ◌-◌, Bytes, Bool, true, false, not, ◌&&◌, ◌||◌, List, [], ◌∷◌, ◌++◌, reverse, Option,
  none, some, zero, suc, ltb, leb, ◌==◌, if◌then◌else◌, get_elem?, is_empty, last_of,
}
use eos_evm_node.Base.Action.{
  Action, Outcome, ok, throw, undefined, raise_if, modify, gets, pure, of_outcome,
  undefined_behaviour, ◌>>=◌, ◌>>◌,
}
use eos_evm_node.Channels.{NativeAction, NativeTrx, NativeBlock}

pub data ShipError : Type 0 where
  no_receipt : ShipError
  creator_is_zero : ShipError
  parent_not_before : ShipError
  parent_without_receipt : ShipError
  multiple_configchange : ShipError
  configchange_not_first : ShipError
  pushtx_with_configchange : ShipError
  mixed_in_transaction : ShipError
  mixed_in_block : ShipError

-- What is read of an action trace: `receipt` is the global sequence of the receipt.
pub record ActionTrace : Type 0 where
  pub action_ordinal : ℕ
  pub creator_action_ordinal : ℕ
  pub receipt : Option ℕ
  pub receiver : ℕ
  pub account : ℕ
  pub name : ℕ
  pub payload : Bytes

pub record TransactionTrace : Type 0 where
  pub id : ℕ
  pub executed : Bool
  pub cpu_usage_us : ℕ
  pub elapsed : ℕ
  pub action_traces : List ActionTrace

-- A block result: the number and id of its own position, the id of its parent's, the time of the
-- decoded block, and its decoded traces. The first three are optional.
pub record BlockResult : Type 0 where
  pub this_block : Option (ℕ × ℕ)
  pub prev_block : Option ℕ
  pub block : Option ℕ
  pub lib : ℕ
  pub traces : List TransactionTrace

-- `std::map<uint64_t, action_trace>`, sorted by its keys.
abbrev pub TraceMap : Type 0
TraceMap = List (ℕ × ActionTrace)

-- `map[key] = value`
unfoldable pub assign : ℕ → ActionTrace → TraceMap → TraceMap
assign key value [] = (key, value) ∷ []
assign key value ((k, v) ∷ rest) =
    let later = assign key value rest in
    if ltb key k
    then (key, value) ∷ (k, v) ∷ rest
    else (if key == k then (key, value) ∷ rest else (k, v) ∷ later)

-- What happens to the block while the actions of one transaction are visited: `pending` is
-- `native_trx.actions`, newest first.
pub record Building : Type 0 where
  pub block : NativeBlock
  pub open block use *
  pub pending : List NativeAction

abbrev pub native_action_of : ActionTrace → NativeAction
native_action_of act = record {
  ordinal = act.action_ordinal;
  receiver = act.receiver;
  account = act.account;
  name = act.name;
  payload = act.payload;
}

abbrev pub has_value : Option NativeAction → Bool
has_value none = false
has_value (some act) = true

-- Whether there is a last action, with another name.
abbrev pub back_differs : ℕ → List NativeAction → Bool
back_differs name [] = false
back_differs name (last ∷ older) = not (last.name == name)

-- The accounts and names of the source's constants, and the account of the contract.
module _ (core_account pushtx_n evmtx_n configchange_n : ℕ) where
  -- `find_if` over the receiver and the name.
  unfoldable pub has_evmtx : List ActionTrace → Bool
  has_evmtx [] = false
  has_evmtx (act ∷ rest) = (act.receiver == core_account && act.name == evmtx_n) || has_evmtx rest

  unfoldable pub action_to_search : List ActionTrace → ℕ
  unfolding has_evmtx
  action_to_search actions = if has_evmtx actions then evmtx_n else pushtx_n

  unfoldable pub is_relevant : ℕ → ActionTrace → Bool
  is_relevant search act =
      (act.name == search || act.name == configchange_n) && core_account == act.receiver

  unfoldable pub receipt_or : ShipError → Option ℕ → Outcome ShipError ℕ
  receipt_or e none = throw e
  receipt_or e (some global_sequence) = ok global_sequence

  -- The receipt of `actions[parent_act_index]`.
  unfoldable pub parent_sequence : Option ActionTrace → Outcome ShipError ℕ
  unfolding receipt_or
  parent_sequence none = undefined
  parent_sequence (some parent) = receipt_or parent_without_receipt parent.receipt

  -- The sequence of an `evmtx` at index `j`: that of the action that created it.
  unfoldable pub creator_sequence : ℕ → List ActionTrace → ℕ → Outcome ShipError ℕ
  unfolding parent_sequence
  creator_sequence j actions zero = throw creator_is_zero
  creator_sequence j actions (suc parent_act_index) =
      if leb j parent_act_index
      then throw parent_not_before
      else parent_sequence (get_elem? actions parent_act_index)

  unfoldable pub own_sequence : ℕ → List ActionTrace → ActionTrace → Option ℕ → Outcome ShipError ℕ
  unfolding creator_sequence
  own_sequence j actions act none = throw no_receipt
  own_sequence j actions act (some global_sequence) =
      if act.name == evmtx_n
      then creator_sequence j actions act.creator_action_ordinal
      else (if act.name == configchange_n then ok 0 else ok global_sequence)

  -- One round of the first loop, and the loop from index `j` on.
  unfoldable pub order_action :
      ℕ → ℕ → List ActionTrace → ActionTrace → Action TraceMap ShipError (Unit {0})
  unfolding is_relevant own_sequence
  order_action search j actions act =
      if is_relevant search act
      then (of_outcome (own_sequence j actions act act.receipt) >>= λ key. modify (assign key act))
      else pure tt

  unfoldable pub order_actions :
      ℕ → ℕ → List ActionTrace → List ActionTrace → Action TraceMap ShipError (Unit {0})
  unfolding order_action
  order_actions search j actions [] = pure tt
  order_actions search j actions (act ∷ rest) =
      order_action search j actions act >> order_actions search (suc j) actions rest

  unfoldable pub take_configchange : NativeAction → Action Building ShipError (Unit {0})
  take_configchange act = do
    configured ← gets (λ c. has_value c.block.new_config)
    raise_if configured multiple_configchange
    used ← gets (λ c. not (is_empty c.pending) || not (is_empty c.block.transactions))
    raise_if used configchange_not_first
    modify (λ c. record c { block = record (c.block) { new_config = some act } })

  unfoldable pub take_transaction : NativeAction → Action Building ShipError (Unit {0})
  take_transaction act = do
    configured ← gets (λ c. has_value c.block.new_config && act.name == pushtx_n)
    raise_if configured pushtx_with_configchange
    differs ← gets (λ c. back_differs act.name c.pending)
    raise_if differs mixed_in_transaction
    modify (λ c. record c { pending = act ∷ c.pending })

  unfoldable pub take_action : NativeAction → Action Building ShipError (Unit {0})
  unfolding take_configchange take_transaction
  take_action act =
      if act.name == configchange_n then take_configchange act else take_transaction act

  unfoldable pub take_actions : TraceMap → Action Building ShipError (Unit {0})
  unfolding take_action
  take_actions [] = pure tt
  take_actions ((sequence, act) ∷ rest) = take_action (native_action_of act) >> take_actions rest

  -- `block.transactions.back().actions.back().name != native_trx.actions.back().name`; an empty list
  -- has no `back()`. The first list comes from `front()` on, the second from `back()`.
  unfoldable pub names_agree : List NativeAction → List NativeAction → Outcome ShipError (Unit {0})
  names_agree [] pending = undefined
  names_agree (first ∷ rest) [] = undefined
  names_agree (first ∷ rest) (last ∷ older) =
      if (last_of first rest).name == last.name then ok tt else throw mixed_in_block

  unfoldable pub check_names : List NativeTrx → List NativeAction → Outcome ShipError (Unit {0})
  unfolding names_agree
  check_names [] pending = ok tt
  check_names (trx ∷ rest) pending = names_agree ((last_of trx rest).actions) pending

  -- From `if(ordered_action_traces.size())` on.
  unfoldable pub push_transaction :
      TransactionTrace → TraceMap → Action NativeBlock ShipError (Unit {0})
  unfolding take_actions check_names
  push_transaction trace [] block = (ok tt, block)
  push_transaction trace (first ∷ rest) block =
      let (taken, c) = take_actions (first ∷ rest) (record { block = block; pending = [] }) in
      (of_outcome taken
          >> of_outcome (check_names c.block.transactions c.pending)
          >> modify (λ b. record b {
            transactions =
                b.transactions
                ++ record {
                  id = trace.id;
                  cpu_usage_us = trace.cpu_usage_us;
                  elapsed = trace.elapsed;
                  actions = reverse c.pending;
                }
                  ∷ [];
          }))
        c.block

  unfoldable pub append_ordered :
      TransactionTrace
      → Outcome ShipError (Unit {0}) × TraceMap
      → Action NativeBlock ShipError (Unit {0})
  unfolding push_transaction
  append_ordered trace (ok done, ordered) = push_transaction trace ordered
  append_ordered trace (throw e, ordered) = of_outcome (throw e)
  append_ordered trace (undefined, ordered) = undefined_behaviour

  unfoldable pub append_to_block : TransactionTrace → Action NativeBlock ShipError (Unit {0})
  unfolding append_ordered order_actions action_to_search
  append_to_block trace = append_ordered trace (
      order_actions (action_to_search trace.action_traces) 0 trace.action_traces trace.action_traces
        [])

  -- The loop over the transactions, which passes over those that were not executed.
  unfoldable pub append_traces : List TransactionTrace → Action NativeBlock ShipError (Unit {0})
  unfolding append_to_block
  append_traces [] = pure tt
  append_traces (trace ∷ rest) =
      (if trace.executed then append_to_block trace else pure tt) >> append_traces rest

  -- From the position, the parent and the time of the block.
  unfoldable pub start_native_block : ℕ × ℕ → ℕ → ℕ → NativeBlock
  start_native_block (block_num, block_id) parent time = record {
    id = block_id;
    prev = parent;
    block_num = block_num;
    timestamp = time;
    lib = 0;
    new_config = none;
    transactions = [];
  }

  unfoldable pub finish_native :
      ℕ → Outcome ShipError (Unit {0}) × NativeBlock → Outcome ShipError (Option NativeBlock)
  finish_native lib (ok done, block) = ok (some (record block { lib = lib }))
  finish_native lib (throw e, block) = throw e
  finish_native lib (undefined, block) = undefined

  -- `*res.block` and `res.prev_block->block_id` are read without a test.
  unfoldable pub native_with :
      BlockResult → ℕ × ℕ → Option ℕ → Option ℕ → Outcome ShipError (Option NativeBlock)
  unfolding append_traces start_native_block finish_native
  native_with res position none parent = undefined
  native_with res position (some time) none = undefined
  native_with res position (some time) (some parent) =
      finish_native res.lib (append_traces res.traces (start_native_block position parent time))

  unfoldable pub native_at : BlockResult → Option (ℕ × ℕ) → Outcome ShipError (Option NativeBlock)
  unfolding native_with
  native_at res none = ok none
  native_at res (some position) = native_with res position res.block res.prev_block

  unfoldable pub to_native : BlockResult → Outcome ShipError (Option NativeBlock)
  unfolding native_at
  to_native res = native_at res res.this_block
