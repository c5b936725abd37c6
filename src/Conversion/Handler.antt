-- ===== src/Conversion/Handler.antt =====
-- The handler of the channel `native_blocks` and `load_head`, in src/block_conversion_plugin.cpp.
pub mod Ready
pub mod Append
pub mod Safety
pub mod Reached
pub mod Resend
use eos_evm_node.Base.{
  ℕ, ◌*◌, Bool, true, false, not, ◌&&◌, ◌||◌, List, [], ◌∷◌, Option, none, some, ltb, leb, ◌==◌,
  if◌then◌else◌,
}
use eos_evm_node.Base.Action.{
  Action, Outcome, ok, undefined, or_raise, pure, gets, modify, put, ◌>>=◌, ◌>>◌,
}
use eos_evm_node.Channels.{NativeBlock, actions_of}
use eos_evm_node.Evm.{EvmBlock, Header, BlockMapping, ChainConfig}
use eos_evm_node.External.{External}
use eos_evm_node.Utils.{to_block_num}
use eos_evm_node.Conversion.State.{
  State, Error, bad_optional_access, on_back, timestamp_to_evm_block_num, set_upper_bound,
}
use eos_evm_node.Conversion.Fork.{resolve_fork}
use eos_evm_node.Conversion.Extend.{extend}
use eos_evm_node.Conversion.Apply.{apply_config, add_transactions}
use eos_evm_node.Conversion.Prune.{prune}

-- `!native_blocks.empty() && native_blocks.back().id != new_block->prev`
unfoldable pub is_unlinked : NativeBlock → List NativeBlock → Bool
is_unlinked new_block [] = false
is_unlinked new_block (last ∷ older) = not (last.id == new_block.prev)

-- The native block that stands for the EVM block that the database ends with: only its id, number
-- and time are set.
unfoldable pub loaded_native : {Tx : Type 0} → EvmBlock Tx → NativeBlock
loaded_native start_block = record {
  id = start_block.header.prev_randao;
  prev = 0;
  block_num = to_block_num start_block.header.prev_randao;
  timestamp = start_block.header.timestamp * 1000000;
  lib = 0;
  new_config = none;
  transactions = [];
}

-- `load_head`, from what the engine answers; it also says whether it has called `sys::error`, which
-- asks the application to quit and goes on.
unfoldable pub load_head :
    {Tx : Type 0} → Option (EvmBlock Tx) → Option Header → State Tx → Bool × State Tx
unfolding loaded_native
load_head none genesis_header s = (true, s)
load_head (some start_block) none s = (
  true,
  record s {
    evm_blocks = start_block ∷ s.evm_blocks;
    native_blocks = loaded_native start_block ∷ s.native_blocks;
  },
)
load_head (some start_block) (some genesis_header) s =
    let contract = genesis_header.nonce in
    (
      contract == 0 || contract == 1000,
      record s {
        evm_blocks = start_block ∷ s.evm_blocks;
        native_blocks = loaded_native start_block ∷ s.native_blocks;
        bm = some (record { genesis_timestamp = genesis_header.timestamp; block_interval = 1 });
        evm_contract_name = contract;
      },
    )

module _ {Tx : Type 0} (ext : External Tx) (config : Option ChainConfig) where
  module _ (bm : BlockMapping) (engine_open : Bool) where
    unfoldable pub link : NativeBlock → Action (State Tx) Error Bool
    unfolding is_unlinked
    link new_block = do
      unlinked ← gets (λ s. is_unlinked new_block s.native_blocks)
      if unlinked then resolve_fork ext bm new_block else pure true

    -- From "Add transactions to the evm block" on.
    unfoldable pub fill_block : NativeBlock → Action (State Tx) Error (Unit {0})
    fill_block new_block = do
      version ← on_back (gets (λ b. ext.nonce_to_version b.header.nonce))
      apply_config ext engine_open new_block.new_config
      on_back (add_transactions ext version (actions_of new_block.transactions))
      on_back (modify (set_upper_bound new_block))
      prune ext bm new_block.lib

    -- From `native_blocks.push_back` to the end of the handler.
    unfoldable pub append_block : NativeBlock → Action (State Tx) Error (Unit {0})
    unfolding fill_block
    append_block new_block = do
      modify (λ s. record s { native_blocks = new_block ∷ s.native_blocks })
      contract ← gets (λ s. s.evm_contract_name)
      extend ext config bm contract (timestamp_to_evm_block_num ext bm new_block.timestamp)
      fill_block new_block

    -- The handler, where `bm` holds a value.
    unfoldable pub on_mapped_block : NativeBlock → Action (State Tx) Error (Unit {0})
    unfolding link append_block
    on_mapped_block new_block =
        if leb new_block.timestamp bm.genesis_timestamp
        then modify (λ s. record s { native_blocks = new_block ∷ [] })
        else (do goes_on ← link new_block; if goes_on then append_block new_block else pure tt)

  unfoldable pub on_native_block : Bool → NativeBlock → Action (State Tx) Error (Unit {0})
  unfolding on_mapped_block
  on_native_block engine_open new_block = do
    bm ← (λ s. or_raise s.bm bad_optional_access s)
    on_mapped_block bm engine_open new_block
