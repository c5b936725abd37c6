-- ===== src/Node/Start.antt =====
-- The start of the node: what `load_head` of src/block_conversion_plugin.cpp leaves for the blocks that
-- src/ship_receiver_plugin.cpp then asks for.
use eos_evm_node.Base.{
  ℕ, ◌+◌, ◌%◌, ◌^◌, ◌<◌, ◌≡◌, ◌≢◌, Bool, List, [], ◌∷◌, Option, some, if◌then◌else◌,
}
use eos_evm_node.Base.Action.{Outcome, ok, throw, pure, ◌>>=◌}
use eos_evm_node.Channels.{NativeBlock}
use eos_evm_node.Evm.{EvmBlock, Header, ChainConfig}
use eos_evm_node.External.{External}
use eos_evm_node.Conversion.State.{State, Error, unable_to_find_fork_block}
use eos_evm_node.Conversion.Handler.{loaded_native, append_block, on_native_block}
use eos_evm_node.Conversion.Handler.Append.{Stands}
use eos_evm_node.Conversion.Handler.Reached.{mapping_of}
use eos_evm_node.Blockchain.{Call, EngineError}
use eos_evm_node.Node.Agreement.{Agrees, idle}
use eos_evm_node.Ship.Connection.{initial, start_from}

module _ {Tx : Type 0} (ext : External Tx) (config : Option ChainConfig)
    (fails : List (Call Tx) → Call Tx → Option EngineError) (start_block : EvmBlock Tx)
    (genesis_header : Header) where
  -- What the first native block after the genesis leads to, in a state: one that names the start
  -- block's id as its parent is appended, any other one is passed over if it has this id itself, and
  -- else refused; the last two leave the state as it is.
  pub record Continues (s : State Tx) (engine_open : Bool) (new_block : NativeBlock) : Type 0 where
    pub linked :
        new_block.prev ≡ start_block.header.prev_randao
        → on_native_block ext config engine_open new_block s
          ≡ append_block ext config (mapping_of genesis_header) engine_open new_block s
    pub known :
        new_block.prev ≢ start_block.header.prev_randao
        → new_block.id ≡ start_block.header.prev_randao
        → on_native_block ext config engine_open new_block s ≡ (ok tt, s)
    pub foreign :
        new_block.prev ≢ start_block.header.prev_randao
        → new_block.id ≢ start_block.header.prev_randao
        → on_native_block ext config engine_open new_block s ≡ (throw unable_to_find_fork_block, s)

  pub record Resumes (s : State Tx) : Type 0 where
    pub newest : NativeBlock
    pub only_native : s.native_blocks ≡ newest ∷ []
    pub only_evm : s.evm_blocks ≡ start_block ∷ []
    pub stands : Stands ext (mapping_of genesis_header) newest s
    pub agrees : Agrees ext config fails start_block.header.number (idle s)
    -- A receiver that has just been made asks for the block after this one.
    pub requested :
        (height : Option ℕ) (max_retry : ℕ)
        → start_from (initial height max_retry) (some start_block)
          ≡ some ((newest.block_num + 1) % 2 ^ 32)
    pub continues :
        (engine_open : Bool) (new_block : NativeBlock)
        → genesis_header.timestamp < new_block.timestamp
        → Continues s engine_open new_block

  -- The state that `load_head` leaves of empty lists.
  abbrev left : State Tx → State Tx
  left s = record s {
    evm_blocks = start_block ∷ [];
    native_blocks = loaded_native start_block ∷ [];
    bm = some (mapping_of genesis_header);
    evm_contract_name = genesis_header.nonce;
  }

  -- What the handler does after the fork branch.
  abbrev after_link :
      Bool
      → NativeBlock
      → State Tx
      → Outcome Error Bool × State Tx
      → Outcome Error (Unit {0}) × State Tx
  after_link engine_open new_block s r =
      ((λ _. r) >>= λ going.
      if going
      then append_block ext config (mapping_of genesis_header) engine_open new_block
      else pure tt)
        (left s)
