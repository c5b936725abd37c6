-- ===== src/External.antt =====
-- What the program calls and does not implement: the libraries silkworm, eosevm, abieos and ethash.
-- The models take a value of `External`; the laws that a theorem needs stand in `Laws`.
use Prim.Native.String.{String}
use eos_evm_node.Base.{ℕ, ◌^◌, ◌<◌, ◌≡◌, some, Bytes, Bool, Option, List}
use eos_evm_node.Evm.{
  Header, BlockMapping, Pushtx, EvmtxType, ConsensusParameterData, ConsensusParameters, version_of,
}

-- `Tx` is silkworm::Transaction.
pub record External (Tx : Type 0) : Type 0 where
  -- eosio::name of a text.
  pub eosio_name : String → ℕ
  -- eosevm::block_mapping::timestamp_to_evm_block_num, at a time in microseconds.
  pub mapped_block_num : BlockMapping → ℕ → ℕ
  -- eosevm::prepare_block_header: header, mapping, contract, number, version, base fee.
  pub prepare_block_header : Header → BlockMapping → ℕ → ℕ → ℕ → Option ℕ → Header
  pub default_header : Header
  pub header_hash : Header → ℕ
  -- silkworm::trie::root_hash over the encoded entries, and its value at no entry.
  pub root_hash : List Bytes → ℕ
  pub empty_root : ℕ
  -- rlp::encode without a wrapper, and rlp::decode_transaction with both wrappings allowed.
  pub encode_tx : Tx → Bytes
  pub decode_tx : Bytes → Option Tx
  pub keccak256 : Bytes → ℕ
  pub nonce_to_version : ℕ → ℕ
  pub version_to_nonce : ℕ → ℕ
  pub calculate_base_fee_per_gas : ℕ → ℕ → ℕ
  -- eosio::convert_from_bin; `none` is its exception.
  pub pushtx_from_bin : Bytes → Option Pushtx
  pub evmtx_from_bin : Bytes → Option EvmtxType
  pub config_from_bin : Bytes → Option ConsensusParameterData
  pub consensus_hash : ConsensusParameters → ℕ
  -- Whether the operands of a critical log line are evaluated, which its verbosity decides.
  pub logs_critical : Bool

-- The documented behaviour that theorems rely on.
pub record Laws {Tx : Type 0} (ext : External Tx) : Type 0 where
  -- Block numbers are `uint32_t`.
  pub mapped_u32 : (bm : BlockMapping) (t : ℕ) → ext.mapped_block_num bm t < 2 ^ 32
  -- The header is prepared for the number that is asked for.
  pub prepared_number :
      (h : Header) (bm : BlockMapping) (contract number version : ℕ) (fee : Option ℕ)
      → (ext.prepare_block_header h bm contract number version fee).number ≡ number

-- A version is a `uint64_t`, and the nonce of a header holds its 8 bytes.
pub record VersionLaws {Tx : Type 0} (ext : External Tx) : Type 0 where
  pub versions_u64 :
      (bytes : Bytes) (dtx : EvmtxType)
      → ext.evmtx_from_bin bytes ≡ some dtx
      → version_of dtx < 2 ^ 64
  pub nonce_round :
      (version : ℕ)
      → version < 2 ^ 64
      → ext.nonce_to_version (ext.version_to_nonce version) ≡ version
