-- ===== src/Node.antt =====
-- The plugins together: what src/block_conversion_plugin.cpp publishes goes, in this order, to the
-- subscriber in src/blockchain_plugin.cpp, through the channels of src/channels.hpp.
pub mod Queue
pub mod Agreement
pub mod Start
use eos_evm_node.Base.{
  ℕ, ◌+◌, Bool, true, false, List, [], ◌∷◌, reverse, Option, none, some, get_elem?,
}
use eos_evm_node.Base.Action.{Action, Outcome, ok, throw, undefined}
use eos_evm_node.Channels.{NativeBlock}
use eos_evm_node.Evm.{EvmBlock, ChainConfig}
use eos_evm_node.External.{External}
use eos_evm_node.Conversion.State.{State, Error}
use eos_evm_node.Conversion.Handler.{on_native_block}
use eos_evm_node.Dispatch.{dispatch}
use eos_evm_node.Blockchain.{Blockchain, Call, EngineError, on_evm_block}

-- `delivered` counts the published EVM blocks that the subscriber has had; `quits` says that the
-- application was asked to quit by the channel of native blocks.
pub record Node (Tx : Type 0) : Type 0 where
  pub conversion : State Tx
  pub chain : Blockchain Tx
  pub delivered : ℕ
  pub quits : Bool

module _ {Tx : Type 0} (ext : External Tx) (config : Option ChainConfig)
    (fails : List (Call Tx) → Call Tx → Option EngineError) where
  -- The subscriber of the channel of native blocks. It uses the execution engine where that has been
  -- opened.
  unfoldable pub callback : NativeBlock → Action (Node Tx) Error (Unit {0})
  callback new_block n =
      let (r, s) = on_native_block ext config n.chain.engine_open new_block n.conversion in
      (r, record n { conversion = s })

  unfoldable pub quit : Node Tx → Node Tx
  quit n = record n { quits = true }

  -- A native block is received.
  unfoldable pub receive : NativeBlock → Node Tx → Node Tx
  unfolding callback quit
  receive new_block n = (dispatch quit (callback new_block ∷ []) n).1

  -- The oldest published block that has not been delivered goes to the subscriber, which reads
  -- `get_evm_lib` when it runs.
  unfoldable pub deliver_block : Node Tx → Option (EvmBlock Tx) → Node Tx
  deliver_block n none = n
  deliver_block n (some block) = record n {
    chain = on_evm_block ext fails n.conversion.evm_lib block n.chain;
    delivered = n.delivered + 1;
  }

  unfoldable pub deliver : Node Tx → Node Tx
  unfolding deliver_block
  deliver n = deliver_block n (get_elem? (reverse n.conversion.published) n.delivered)
