-- ===== src/Conversion/State.antt =====
-- The state of `block_conversion_plugin_impl`, what its handler may throw, and its small helpers.
-- Both lists hold their newest block first: the head is `back()` and the last entry `front()`.
use eos_evm_node.Base.{
  ℕ, List, [], ◌∷◌, Option, none, some, leb, ◌==◌, if◌then◌else◌, ◌≢◌, ◌≡◌, subst, refl, ◌⊎◌, inl,
  inr, Option-cases, arith,
}
use eos_evm_node.Base.Action.{Action, Outcome, ok, throw, undefined}
use eos_evm_node.Channels.{NativeAction, NativeBlock}
use eos_evm_node.Evm.{
  EvmBlock, BlockMapping, Pushtx, EvmtxType, evmtx_v1, ConsensusParameterData, ConsensusParameters,
}
use eos_evm_node.External.{External}

-- `assertion_failed` is silkworm's abort of the process; the others are exceptions.
pub data Error : Type 0 where
  bad_optional_access : Error
  conversion_error : Error
  bad_variant_access : Error
  unable_to_find_fork_block : Error
  unable_to_remove_transactions : Error
  unable_to_remove_transaction : Error
  unable_to_set_upper_bound : Error
  config_in_the_middle : Error
  tx_version_below_block : Error
  tx_version_above_block : Error
  assertion_failed : Error
  gas_prices_differ : Error
  unable_to_decode : Error
  base_fee_differs : Error

-- The errors that a received block can cause by what it carries or by where it belongs. The others
-- would say that the plugin's own lists do not fit together.
abbrev pub FromInput : Error → Type 0
FromInput bad_optional_access = ⊥
FromInput unable_to_remove_transactions = ⊥
FromInput unable_to_remove_transaction = ⊥
FromInput unable_to_set_upper_bound = ⊥
FromInput _ = Unit

-- `published` is what went to the channel `evm_blocks`, `parameter_writes` what
-- `update_consensus_parameters` wrote, both the newest first.
pub record State (Tx : Type 0) : Type 0 where
  pub native_blocks : List NativeBlock
  pub evm_blocks : List (EvmBlock Tx)
  pub bm : Option BlockMapping
  pub evm_contract_name : ℕ
  pub evm_lib : ℕ
  pub published : List (EvmBlock Tx)
  pub parameter_writes : List (ℕ × ConsensusParameters)

-- Runs a call on the block that a reference to `evm_blocks.back()` names.
abbrev pub on_back_of :
    {Tx A : Type 0}
    → Action (EvmBlock Tx) Error A
    → State Tx
    → List (EvmBlock Tx)
    → Outcome Error A × State Tx
on_back_of m s [] = (undefined, s)
on_back_of m s (b ∷ older) = let (r, b') = m b in (r, record s { evm_blocks = b' ∷ older })

abbrev pub on_back : {Tx A : Type 0} → Action (EvmBlock Tx) Error A → Action (State Tx) Error A
on_back m s = on_back_of m s s.evm_blocks

converted : {A : Type 0} → Option A → Outcome Error A
converted none = throw conversion_error
converted (some a) = ok a

-- A `pushtx` counts as an `evmtx_v1` of version 0 with no base fee.
of_pushtx : Option Pushtx → Outcome Error EvmtxType
of_pushtx none = throw conversion_error
of_pushtx (some tx) = ok (
    evmtx_v1
      (record { base = record { eos_evm_version = 0; rlpx = tx.rlpx }; base_fee_per_gas = 0 }))

module _ {Tx : Type 0} (ext : External Tx) where
  -- The `assert` of the source is compiled out of a Release build, and logs only.
  unfoldable pub timestamp_to_evm_block_num : BlockMapping → ℕ → ℕ
  timestamp_to_evm_block_num bm timestamp_us = ext.mapped_block_num bm timestamp_us

  unfoldable pub deserialize_tx : NativeAction → Outcome Error EvmtxType
  unfolding of_pushtx converted
  deserialize_tx na =
      if na.name == ext.eosio_name "pushtx"
      then of_pushtx (ext.pushtx_from_bin na.payload)
      else converted (ext.evmtx_from_bin na.payload)

  pub deserialize_tx-ne-undefined : (na : NativeAction) → deserialize_tx na ≢ undefined
  unfolding deserialize_tx
  deserialize_tx-ne-undefined na h = ground arith

  pub deserialize_tx-FromInput :
      (na : NativeAction) {e : Error} → deserialize_tx na ≡ throw e → FromInput e
  unfolding deserialize_tx
  deserialize_tx-FromInput na h = subst FromInput (thrown na h) tt
    where
      thrown : (na : NativeAction) {e : Error} → deserialize_tx na ≡ throw e → conversion_error ≡ e
      thrown na h = ground arith

  unfoldable pub deserialize_config : NativeAction → Outcome Error ConsensusParameterData
  unfolding converted
  deserialize_config na = converted (ext.config_from_bin na.payload)

  -- Reading the configuration returns, or throws what the input caused.
  pub deserialize_config-cases :
      (na : NativeAction)
      → ((c : ConsensusParameterData) × (deserialize_config na ≡ ok c))
        ⊎ (deserialize_config na ≡ throw conversion_error)
  unfolding deserialize_config
  deserialize_config-cases na = elim (Option-cases (ext.config_from_bin na.payload)) [
    | inl bad ↦ inr (rw bad refl)
    | inr (c, good) ↦ inl (c, rw good refl)
  ]

-- The block's id goes to `prev_randao`; the EVM block is irreversible if the native block is.
unfoldable pub set_upper_bound : {Tx : Type 0} → NativeBlock → EvmBlock Tx → EvmBlock Tx
set_upper_bound native evm = record evm {
  header = record (evm.header) { prev_randao = native.id };
  irreversible = leb native.block_num native.lib;
}
