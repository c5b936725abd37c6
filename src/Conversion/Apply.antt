-- ===== src/Conversion/Apply.antt =====
-- Adding a native block's configuration and transactions to the EVM block, in
-- src/block_conversion_plugin.cpp. `SILKWORM_ASSERT` ends the call by `assertion_failed`:
-- silkworm aborts the process there, and no clause catches that.
pub mod Frame
pub mod Settled
pub mod Adds
pub mod Uniform
pub mod Complete
use eos_evm_node.Base.{
  ℕ, suc, ◌+◌, Bool, true, false, not, ◌&&◌, List, [], ◌∷◌, Option, none, some, ltb, leb, ◌==◌,
  if◌then◌else◌, is_empty,
}
use eos_evm_node.Base.Action.{
  Action, Outcome, ok, throw, undefined, raise, raise_if, undefined_behaviour, or_raise, of_outcome,
  pure, gets, modify, ◌>>=◌, ◌>>◌,
}
use eos_evm_node.Channels.{NativeAction}
use eos_evm_node.Evm.{
  EvmBlock, EvmtxType, EvmtxV1, EvmtxV3, evmtx_v1, evmtx_v3, rlpx_of, version_of, GasPrices,
  ConsensusParameterData, ConsensusParameters, consensus_parameter_data_v0,
}
use eos_evm_node.External.{External}
use eos_evm_node.Conversion.State.{
  State, Error, on_back, deserialize_tx, deserialize_config, config_in_the_middle,
  tx_version_below_block, tx_version_above_block, assertion_failed, gas_prices_differ,
  unable_to_decode, base_fee_differs, bad_variant_access,
}

-- What the visitor of the actions works on: `curr` and `block_version`.
pub record Current (Tx : Type 0) : Type 0 where
  pub block : EvmBlock Tx
  pub open block use *
  pub block_version : ℕ

unfoldable pub same_prices : GasPrices → GasPrices → Bool
same_prices p q = p.overhead_price == q.overhead_price && p.storage_price == q.storage_price

abbrev set_fee : {Tx : Type 0} → ℕ → EvmBlock Tx → EvmBlock Tx
set_fee fee b = record b { header = record (b.header) { base_fee_per_gas = some fee } }

unfoldable pub to_consensus_parameters : ConsensusParameterData → ConsensusParameters
to_consensus_parameters (consensus_parameter_data_v0 p) = record {
  gas_txnewaccount = p.gas_txnewaccount;
  gas_newaccount = p.gas_newaccount;
  gas_txcreate = p.gas_txcreate;
  gas_codedeposit = p.gas_codedeposit;
  gas_sset = p.gas_sset;
}

module _ {Tx : Type 0} (ext : External Tx) where
  -- A version below the block's is refused; one above it restarts an empty block's version.
  unfoldable pub check_version : ℕ → Action (Current Tx) Error (Unit {0})
  check_version tx_version c =
      if ltb tx_version c.block_version
      then (throw tx_version_below_block, c)
      else if ltb c.block_version tx_version
      then (if is_empty c.transactions
          then (
            ok tt,
            record c {
              block = record (c.block) {
                header = record (c.header) { nonce = ext.version_to_nonce tx_version };
              };
              block_version = tx_version;
            },
          )
          else (throw tx_version_above_block, c))
      else (ok tt, c)

  -- `if (block_version >= 3)`: an `evmtx_v3`, whose prices are the block's or start them.
  unfoldable pub set_block_prices :
      GasPrices → Option GasPrices → Action (Current Tx) Error (Unit {0})
  unfolding same_prices
  set_block_prices prices none c =
      (ok tt, record c { block = record (c.block) { gas_prices = some prices } })
  set_block_prices prices (some old) c =
      if same_prices old prices
      then (ok tt, c)
      else if is_empty c.transactions
      then (ok tt, record c { block = record (c.block) { gas_prices = some prices } })
      else (throw gas_prices_differ, c)

  unfoldable pub apply_v3 : EvmtxV3 → Action (Current Tx) Error (Unit {0})
  unfolding set_block_prices
  apply_v3 tx = do
    let prices : GasPrices = record {
      overhead_price = tx.overhead_price;
      storage_price = tx.storage_price;
    }
    (λ c. set_block_prices prices c.gas_prices c)
    modify (λ c. record c {
      block = set_fee (ext.calculate_base_fee_per_gas tx.overhead_price tx.storage_price) c.block;
    })

  unfoldable pub apply_prices_of : EvmtxType → Action (Current Tx) Error (Unit {0})
  unfolding apply_v3
  apply_prices_of (evmtx_v1 tx) = raise assertion_failed
  apply_prices_of (evmtx_v3 tx) = apply_v3 tx

  unfoldable pub apply_prices : EvmtxType → Action (Current Tx) Error (Unit {0})
  unfolding apply_prices_of
  apply_prices dtx c = if leb 3 c.block_version then apply_prices_of dtx c else (ok tt, c)

  -- `if (block_version >= 1 && block_version < 3)`: the base fee is the block's or starts it.
  unfoldable pub set_block_fee : ℕ → Option ℕ → Action (Current Tx) Error (Unit {0})
  set_block_fee fee none c = (ok tt, record c { block = set_fee fee c.block })
  set_block_fee fee (some old) c =
      if old == fee
      then (ok tt, c)
      else if is_empty c.transactions
      then (ok tt, record c { block = set_fee fee c.block })
      else (throw base_fee_differs, c)

  unfoldable pub apply_base_fee_of : EvmtxType → Action (Current Tx) Error (Unit {0})
  unfolding set_block_fee
  apply_base_fee_of (evmtx_v1 tx) c = set_block_fee tx.base_fee_per_gas c.header.base_fee_per_gas c
  apply_base_fee_of (evmtx_v3 tx) c = (throw bad_variant_access, c)

  unfoldable pub apply_base_fee : EvmtxType → Action (Current Tx) Error (Unit {0})
  unfolding apply_base_fee_of
  apply_base_fee dtx c =
      if leb 1 c.block_version && ltb c.block_version 3 then apply_base_fee_of dtx c else (ok tt, c)

  unfoldable pub append_tx : Tx → Current Tx → Current Tx
  append_tx tx c = record c { block = record (c.block) { transactions = tx ∷ c.transactions } }

  -- The visitor of one action, from the decoding of its transaction on.
  unfoldable pub decode_and_append : EvmtxType → Action (Current Tx) Error (Unit {0})
  unfolding append_tx
  decode_and_append dtx = do
    tx ← or_raise (ext.decode_tx (rlpx_of dtx)) unable_to_decode
    apply_base_fee dtx
    modify (append_tx tx)

  unfoldable pub add_parsed : EvmtxType → Action (Current Tx) Error (Unit {0})
  unfolding decode_and_append
  add_parsed dtx = do check_version (version_of dtx); apply_prices dtx; decode_and_append dtx

  unfoldable pub add_action : NativeAction → Action (Current Tx) Error (Unit {0})
  unfolding add_parsed
  add_action act = do dtx ← of_outcome (deserialize_tx ext act); add_parsed dtx

  unfoldable pub add_actions : List NativeAction → Action (Current Tx) Error (Unit {0})
  add_actions [] = pure tt
  add_actions (act ∷ acts) = add_action act >> add_actions acts

  -- The visits, with the block version of the block as it stands before the first. What is left
  -- in `curr` after a throw stays there.
  unfoldable pub add_transactions : ℕ → List NativeAction → Action (EvmBlock Tx) Error (Unit {0})
  unfolding add_actions
  add_transactions version acts b =
      let (r, c) = add_actions acts (record { block = b; block_version = version }) in (r, c.block)

  -- The database transaction is that of the execution engine, which does not exist before the
  -- first EVM block has been received.
  unfoldable pub update_parameters : Bool → ConsensusParameters → Action (State Tx) Error (Unit {0})
  update_parameters false params = undefined_behaviour
  update_parameters true params = modify (λ s. record s {
    parameter_writes = (ext.consensus_hash params, params) ∷ s.parameter_writes;
  })

  unfoldable pub write_config : Bool → ConsensusParameters → Action (State Tx) Error (Unit {0})
  unfolding update_parameters
  write_config engine_open params = do
    on_back
        (modify (λ b. record b { consensus_parameter_index = some (ext.consensus_hash params) }))
    update_parameters engine_open params

  -- `if (new_block->new_config.has_value())`.
  unfoldable pub apply_new_config : Bool → NativeAction → Action (State Tx) Error (Unit {0})
  unfolding to_consensus_parameters write_config
  apply_new_config engine_open act = do
    used ← on_back (gets (λ b. not (is_empty b.transactions)))
    raise_if used config_in_the_middle
    new_config ← of_outcome (deserialize_config ext act)
    write_config engine_open (to_consensus_parameters new_config)

  unfoldable pub apply_config : Bool → Option NativeAction → Action (State Tx) Error (Unit {0})
  unfolding apply_new_config
  apply_config engine_open none = pure tt
  apply_config engine_open (some act) = apply_new_config engine_open act
