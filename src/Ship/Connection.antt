-- ===== src/Ship/Connection.antt =====
-- Connecting and reconnecting to the state history, in src/ship_receiver_plugin.cpp. The network is
-- what it answers: whether an attempt fails, and the block that a read gives.
pub mod Retries
use eos_evm_node.Base.{
  ℕ, ◌+◌, ◌%◌, ◌^◌, Bool, true, false, List, [], ◌∷◌, Option, none, some, ltb, leb, if◌then◌else◌,
}
use eos_evm_node.Channels.{NativeBlock}
use eos_evm_node.Evm.{EvmBlock}
use eos_evm_node.Utils.{to_block_num}

-- The state of the receiver: `connected` says that `stream` is set, `quits` that `sys::error` was
-- called, and `attempts` counts the calls of `async_resolve`.
pub record Receiver : Type 0 where
  pub connected : Bool
  pub retry_count : ℕ
  pub max_retry : ℕ
  pub last_lib : ℕ
  pub last_block_num : ℕ
  pub start_from_canonical_height : Option ℕ
  pub attempts : ℕ
  pub quits : Bool

-- `init`
unfoldable pub initial : Option ℕ → ℕ → Receiver
initial input_start_height input_max_retry = record {
  connected = false;
  retry_count = 0;
  max_retry = input_max_retry;
  last_lib = 0;
  last_block_num = 0;
  start_from_canonical_height = input_start_height;
  attempts = 0;
  quits = false;
}

unfoldable pub resolve : Receiver → Receiver
resolve r = record r { connected = true; attempts = r.attempts + 1 }

-- `if (++retry_count > max_retry)`, on `uint32_t`.
unfoldable pub retry : Receiver → Receiver
unfolding resolve
retry r =
    let counted = record r { retry_count = (r.retry_count + 1) % 2 ^ 32 } in
    if ltb counted.max_retry counted.retry_count
    then record counted { quits = true }
    else resolve counted

-- The synchronous part of `reset_connection`, up to `async_resolve`.
unfoldable pub reset_connection : Receiver → Receiver
unfolding retry resolve
reset_connection r = if r.connected then retry r else resolve r

-- A successful read, before its block is published.
unfoldable pub record_read : NativeBlock → Receiver → Receiver
record_read block r = record r {
  last_lib = block.lib;
  last_block_num = block.block_num;
  retry_count = 0;
}

-- The block that `sync` asks for after a disconnection, on `uint32_t`.
unfoldable pub resume_from : ℕ → ℕ → ℕ
resume_from last_lib last_block_num =
    ((if ltb last_block_num last_lib then last_block_num else last_lib) + 1) % 2 ^ 32

-- The block that `sync` asks for at the first connection; `none` is `sys::error`.
unfoldable pub first_from : {Tx : Type 0} → Option (EvmBlock Tx) → Option ℕ
first_from none = none
first_from (some start_block) = some ((to_block_num start_block.header.prev_randao + 1) % 2 ^ 32)

unfoldable pub start_from : {Tx : Type 0} → Receiver → Option (EvmBlock Tx) → Option ℕ
unfolding resume_from first_from
start_from r start_block =
    if ltb 0 r.last_lib
    then some (resume_from r.last_lib r.last_block_num)
    else first_from start_block

-- `sync`, up to the request: the block that is asked for, or `none` where it has called `sys::error`.
unfoldable pub available : ℕ → Option ℕ → Option ℕ
available trace_begin_block none = none
available trace_begin_block (some start) = if ltb start trace_begin_block then none else some start

unfoldable pub sync_request : {Tx : Type 0} → ℕ → Receiver → Option (EvmBlock Tx) → Option ℕ
unfolding start_from available
sync_request trace_begin_block r start_block =
    available trace_begin_block (start_from r start_block)
