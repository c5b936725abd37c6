-- ===== src/Evm.antt =====
-- EVM blocks, as far as this program reads and writes them (silkworm::Block), and the payloads of
-- the actions that the EVM contract receives (src/block_conversion_plugin.hpp).
-- A list that grows at its end in the source has its newest entry first: the head of
-- `transactions` is `transactions.back()`.
use eos_evm_node.Base.{ℕ, Bytes, Bool, Option, List}

pub record GasPrices : Type 0 where
  pub overhead_price : ℕ
  pub storage_price : ℕ

-- `rest` holds the header's fields that this program only passes on.
pub record Header : Type 0 where
  pub number : ℕ
  pub timestamp : ℕ
  pub parent_hash : ℕ
  pub transactions_root : ℕ
  pub prev_randao : ℕ
  pub nonce : ℕ
  pub base_fee_per_gas : Option ℕ
  pub rest : Bytes

pub record EvmBlock (Tx : Type 0) : Type 0 where
  pub header : Header
  pub transactions : List Tx
  pub irreversible : Bool
  pub consensus_parameter_index : Option ℕ
  pub gas_prices : Option GasPrices

-- eosevm::block_mapping, times in seconds.
pub record BlockMapping : Type 0 where
  pub genesis_timestamp : ℕ
  pub block_interval : ℕ

-- silkworm::ChainConfig: only `_version` is read.
pub record ChainConfig : Type 0 where
  pub version : Option ℕ

pub record Pushtx : Type 0 where
  pub miner : ℕ
  pub rlpx : Bytes

pub record EvmtxBase : Type 0 where
  pub eos_evm_version : ℕ
  pub rlpx : Bytes

pub record EvmtxV1 : Type 0 where
  pub base : EvmtxBase
  pub open base use *
  pub base_fee_per_gas : ℕ

pub record EvmtxV3 : Type 0 where
  pub base : EvmtxBase
  pub open base use *
  pub overhead_price : ℕ
  pub storage_price : ℕ

-- The variant `evmtx_type`.
pub data EvmtxType : Type 0 where
  evmtx_v1 : EvmtxV1 → EvmtxType
  evmtx_v3 : EvmtxV3 → EvmtxType

-- The two visits of the variant that every alternative answers.
abbrev pub rlpx_of : EvmtxType → Bytes
rlpx_of (evmtx_v1 tx) = tx.rlpx
rlpx_of (evmtx_v3 tx) = tx.rlpx

abbrev pub version_of : EvmtxType → ℕ
version_of (evmtx_v1 tx) = tx.eos_evm_version
version_of (evmtx_v3 tx) = tx.eos_evm_version

pub record GasParameterType : Type 0 where
  pub gas_txnewaccount : ℕ
  pub gas_newaccount : ℕ
  pub gas_txcreate : ℕ
  pub gas_codedeposit : ℕ
  pub gas_sset : ℕ

pub data ConsensusParameterData : Type 0 where
  consensus_parameter_data_v0 : GasParameterType → ConsensusParameterData

-- eosevm::ConsensusParameters.
pub record ConsensusParameters : Type 0 where
  pub gas_txnewaccount : ℕ
  pub gas_newaccount : ℕ
  pub gas_txcreate : ℕ
  pub gas_codedeposit : ℕ
  pub gas_sset : ℕ
