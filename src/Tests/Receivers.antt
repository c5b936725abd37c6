-- ===== src/Tests/Receivers.antt =====
-- The receiver of src/ship_receiver_plugin.cpp and the search of src/engine_plugin.cpp at concrete inputs.
use eos_evm_node.Base.{
  ℕ, ◌+◌, ◌≤◌, ◌≡◌, refl, ◌⊎◌, true, false, ◌||◌, ◌==◌, if◌then◌else◌, List, [], ◌∷◌, Option, none,
  some, arith, map, get_elem?,
}
use eos_evm_node.Base.Action.{undefined, Ends}
use eos_evm_node.Channels.{NativeBlock}
use eos_evm_node.Evm.{Header}
use eos_evm_node.Engine.{Database, get_canonical_block_at_height}
use eos_evm_node.Engine.Search.{IsLastBelow, find_block_with_valid_eos_id-IsLastBelow}
use eos_evm_node.Ship.Append.{
  ActionTrace, TransactionTrace, order_actions, append_to_block, append_traces, assign,
}
use eos_evm_node.Ship.Append.{Building, TraceMap, take_actions}
use eos_evm_node.Ship.Append.Uniform.{Uniform, take_actions-Uniform}
use eos_evm_node.Ship.Append.Ordered.{IsOrdered, Entered, order_actions-IsOrdered}
use eos_evm_node.Ship.Connection.{Receiver, resume_from}
use eos_evm_node.Ship.Connection.Retries.{resets, Tried, resets-quits, resume_from-bounds}
use eos_evm_node.Tests.Fixture.{native_at, evm_at}

-- Account 5; names 1 (pushtx), 2 (evmtx) and 3 (configchange).
abbrev pub action : ℕ → ℕ → ℕ → ℕ → ActionTrace
action ordinal creator name sequence = record {
  action_ordinal = ordinal;
  creator_action_ordinal = creator;
  receipt = some sequence;
  receiver = 5;
  account = 5;
  name = name;
  payload = ordinal ∷ [];
}

abbrev pub trace_of : List ActionTrace → TransactionTrace
trace_of actions = record {
  id = 1;
  executed = true;
  cpu_usage_us = 0;
  elapsed = 0;
  action_traces = actions;
}

-- Two calls whose events come in the opposite order.
abbrev pub calls : List ActionTrace
calls = action 1 0 1 20 ∷ action 2 0 1 10 ∷ action 3 1 2 21 ∷ action 4 2 2 11 ∷ []

abbrev pub empty_block : NativeBlock
empty_block = native_at 101 100 14 90 []

append_to_block_orders :
    map
      (λ t. map (λ a. a.ordinal) t.actions)
      ((append_to_block 5 1 2 3 (trace_of calls) empty_block).1.transactions)
    ≡ (4 ∷ 3 ∷ []) ∷ []
unfolding append_to_block assign
append_to_block_orders = refl

-- A transaction with nothing but a configuration leaves an entry without actions, and the next
-- transaction reads the last action of it.
append_traces_after_configchange :
    (append_traces 5 1 2 3 (trace_of (action 1 0 3 7 ∷ []) ∷ trace_of calls ∷ []) empty_block).0
    ≡ undefined
unfolding append_traces assign
append_traces_after_configchange = refl

order_actions-IsOrdered_example :
    Ends
      (λ _ m.
        IsOrdered 5 1 2 3 calls 2 m
        × ((j : ℕ) (act : ActionTrace)
            → get_elem? calls j ≡ some act
            → Entered 5 1 2 3 calls 2 j act m))
      (λ _ m. IsOrdered 5 1 2 3 calls 2 m)
      ⊥
      (order_actions 5 1 2 3 2 0 calls calls [])
order_actions-IsOrdered_example = order_actions-IsOrdered 5 1 2 3 2 calls

abbrev ordered_calls : TraceMap
ordered_calls = (10, action 4 2 2 11) ∷ (20, action 3 1 2 21) ∷ []

abbrev building : Building
building = record { block = empty_block; pending = [] }

take_actions-Uniform_example :
    Ends
      (λ _ d. (d.block.transactions ≡ []) × Uniform 3 d.pending)
      (λ _ d. d.block.transactions ≡ [])
      ⊥
      (take_actions 5 1 2 3 ordered_calls building)
take_actions-Uniform_example = take_actions-Uniform 5 1 2 3 ordered_calls building tt

abbrev receiver : Receiver
receiver = record {
  connected = true;
  retry_count = 0;
  max_retry = 2;
  last_lib = 90;
  last_block_num = 95;
  start_from_canonical_height = none;
  attempts = 1;
  quits = false;
}

resets-quits_example :
    ((n : ℕ) → n ≤ 2 → Tried n receiver (resets n receiver)) × ((resets 3 receiver).quits ≡ true)
resets-quits_example = resets-quits receiver refl refl refl (omega arith)

resume_from-bounds_example :
    (resume_from 90 95 ≤ 91)
    × (resume_from 90 95 ≤ 96)
    × ((resume_from 90 95 ≡ 91) ⊎ (resume_from 90 95 ≡ 96))
resume_from-bounds_example = resume_from-bounds 90 95 (omega arith) (omega arith)

-- Heights 3 and 4 have a header with no id.
abbrev header_of : ℕ → Option Header
header_of n =
    some (record ((evm_at n []).header) { prev_randao = if n == 3 || n == 4 then 0 else 100 + n })

abbrev db : Database ℕ
db = record {
  canonical_header = header_of;
  stored_evm_lib = some 9;
  head_header = some ((evm_at 4 []).header);
  block_by_number = λ n. some (evm_at n []);
}

get_canonical_block_at_height_run : get_canonical_block_at_height db none ≡ some (evm_at 2 [])
unfolding get_canonical_block_at_height
get_canonical_block_at_height_run = refl

find_block_with_valid_eos_id_example : (m : ℕ) × IsLastBelow db 4 m
find_block_with_valid_eos_id_example = find_block_with_valid_eos_id-IsLastBelow db 4
