-- ===== src/Conversion/Extend.antt =====
-- Extending the EVM chain up to the block of a received native block, in
-- src/block_conversion_plugin.cpp: `generate_new_evm_block` and the loop that publishes.
pub mod Chain
use eos_evm_node.Base.{
  ℕ, zero, suc, ◌+◌, ◌%◌, ◌^◌, false, List, [], ◌∷◌, Option, none, some, map, reverse, ltb, ◌==◌,
  if◌then◌else◌,
}
use mathlib.Core.Option
use eos_evm_node.Base.Action.{Action, Outcome, ok, undefined}
use eos_evm_node.Evm.{EvmBlock, Header, BlockMapping, ChainConfig}
use eos_evm_node.External.{External}
use eos_evm_node.Conversion.State.{State, Error}

-- `existing_config.value()._version.value()`, 0 where either is missing.
unfoldable pub configured_version : Option ChainConfig → ℕ
configured_version none = 0
configured_version (some config) = elim config.version [ none ↦ 0 | some v ↦ v ]

module _ {Tx : Type 0} (ext : External Tx) where
  -- The vector of transactions has its first entry first.
  unfoldable pub compute_transaction_root : List Tx → ℕ
  compute_transaction_root newest_first = ext.root_hash (map ext.encode_tx (reverse newest_first))

  module _ (config : Option ChainConfig) (bm : BlockMapping) (contract : ℕ) where
    unfoldable pub version_after : EvmBlock Tx → ℕ
    unfolding configured_version
    version_after last =
        if last.header.number == 0
        then configured_version config
        else ext.nonce_to_version last.header.nonce

    unfoldable pub new_header : EvmBlock Tx → Header
    unfolding version_after
    new_header last =
        ext.prepare_block_header ext.default_header bm contract (last.header.number + 1)
          (version_after last) (Option.map (λ fee. fee % 2 ^ 64) last.header.base_fee_per_gas)

    unfoldable pub generate_new_evm_block : EvmBlock Tx → EvmBlock Tx
    unfolding new_header
    generate_new_evm_block last = record {
      header = record (new_header last) {
        parent_hash = ext.header_hash last.header;
        transactions_root = ext.empty_root;
      };
      transactions = [];
      irreversible = false;
      consensus_parameter_index = last.consensus_parameter_index;
      gas_prices = last.gas_prices;
    }

    -- What the body of the loop does to the last block before it is published.
    unfoldable pub sealed_block : EvmBlock Tx → EvmBlock Tx
    unfolding compute_transaction_root
    sealed_block b = record b {
      header = record (b.header) { transactions_root = compute_transaction_root b.transactions };
    }

    -- One round: seal and publish the last block, and start the next one.
    unfoldable pub publish_back : EvmBlock Tx → List (EvmBlock Tx) → State Tx → State Tx
    unfolding sealed_block generate_new_evm_block
    publish_back last older s =
        let full = sealed_block last in
        record s {
          evm_blocks = generate_new_evm_block full ∷ full ∷ older;
          published = full ∷ s.published;
        }

    -- `while (evm_blocks.back().header.number < evm_num)`. The fuel bounds the rounds; with none
    -- left the call counts as undefined, which no call with fuel `evm_num` reaches.
    unfoldable pub extend_loop : ℕ → ℕ → List (EvmBlock Tx) → Action (State Tx) Error (Unit {0})
    unfolding publish_back
    extend_loop fuel evm_num [] s = (undefined, s)
    extend_loop zero evm_num (last ∷ older) s = (undefined, s)
    extend_loop (suc fuel) evm_num (last ∷ older) s =
        let s' = publish_back last older s in
        let rest = extend_loop fuel evm_num s'.evm_blocks s' in
        if ltb last.header.number evm_num then rest else (ok tt, s)

    unfoldable pub extend : ℕ → Action (State Tx) Error (Unit {0})
    unfolding extend_loop
    extend evm_num s = extend_loop (suc evm_num) evm_num s.evm_blocks s
