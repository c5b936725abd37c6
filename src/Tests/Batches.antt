-- ===== src/Tests/Batches.antt =====
-- The transactions of a native block of src/ship_receiver_plugin.cpp at concrete inputs.
use mathlib.Core.Option
use eos_evm_node.Base.{◌≡◌, refl, ◌⊎◌, inl, [], ◌∷◌, map, some, none, false}
use eos_evm_node.Base.Action.{Ends, ok, throw}
use eos_evm_node.Ship.Append.{
  append_to_block, append_traces, mixed_in_block, assign, TransactionTrace, BlockResult,
  native_action_of, to_native,
}
use eos_evm_node.Ship.Append.Batch.{IsBatch, OnlyConfigures, append_to_block-IsBatch}
use eos_evm_node.Ship.Append.Built.{append_traces-IsBatch}
use eos_evm_node.Ship.Append.Sourced.{IsSourced, to_native-IsSourced}
use eos_evm_node.Channels.{NativeBlock}
use eos_evm_node.Tests.Receivers.{action, trace_of, calls, empty_block}

abbrev plain : TransactionTrace
plain = trace_of (action 1 0 1 30 ∷ [])

append_traces_names :
    map
      (λ t. map (λ a. a.name) t.actions)
      ((append_traces 5 1 2 3 (trace_of calls ∷ trace_of calls ∷ []) empty_block).1.transactions)
    ≡ (2 ∷ 2 ∷ []) ∷ (2 ∷ 2 ∷ []) ∷ []
unfolding append_traces assign
append_traces_names = refl

append_traces_mixed :
    (append_traces 5 1 2 3 (trace_of calls ∷ plain ∷ []) empty_block).0 ≡ throw mixed_in_block
unfolding append_traces assign
append_traces_mixed = refl

-- Of two configurations in one transaction the last one is kept.
append_traces_two_configurations :
    let (r, b) =
      append_traces 5 1 2 3 (trace_of (action 1 0 3 7 ∷ action 2 0 3 8 ∷ []) ∷ []) empty_block in
    (r ≡ ok tt) × (Option.map (λ a. a.ordinal) b.new_config ≡ some 2)
unfolding append_traces assign
append_traces_two_configurations = (refl, refl)

append_to_block-IsBatch_example :
    Ends
      (λ _ b. IsBatch 3 b.transactions ⊎ OnlyConfigures b.transactions)
      (λ _ b. IsBatch 3 b.transactions)
      ⊥
      (append_to_block 5 1 2 3 plain empty_block)
append_to_block-IsBatch_example = append_to_block-IsBatch 5 1 2 3 plain empty_block (inl refl)

append_traces-IsBatch_example :
    Ends
      (λ _ b. IsBatch 3 b.transactions ⊎ OnlyConfigures b.transactions)
      (λ _ _. Unit)
      Unit
      (append_traces 5 1 2 3 (trace_of calls ∷ trace_of calls ∷ []) empty_block)
append_traces-IsBatch_example =
    append_traces-IsBatch 5 1 2 3 (trace_of calls ∷ trace_of calls ∷ []) empty_block
      (inl (inl refl))

abbrev result : BlockResult
result = record {
  this_block = some (101, 77);
  prev_block = some 76;
  block = some 14;
  lib = 90;
  traces = record (trace_of calls) { executed = false } ∷ trace_of calls ∷ [];
}

-- The transaction that was executed, with the later call first.
abbrev native : NativeBlock
native = record {
  id = 77;
  prev = 76;
  block_num = 101;
  timestamp = 14;
  lib = 90;
  new_config = none;
  transactions =
      record {
        id = 1;
        cpu_usage_us = 0;
        elapsed = 0;
        actions = native_action_of (action 4 2 2 11) ∷ native_action_of (action 3 1 2 21) ∷ [];
      }
      ∷ [];
}

native_of_result : to_native 5 1 2 3 result ≡ ok (some native)
unfolding to_native assign
native_of_result = refl

to_native-IsSourced_example : IsSourced 5 1 2 3 result native
to_native-IsSourced_example = to_native-IsSourced 5 1 2 3 result native native_of_result
