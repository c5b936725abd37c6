-- ===== src/Tests/Forks.antt =====
-- Versions and forks in src/block_conversion_plugin.cpp at concrete inputs.
use eos_evm_node.Conversion.Prune.{prune}
use eos_evm_node.Conversion.Apply.{
  add_action, apply_config, check_version, add_transactions, apply_base_fee, apply_prices,
}
use eos_evm_node.Conversion.Extend.{extend}
use eos_evm_node.Base.{arith, true, ℕ, ◌≡◌, refl, inl, false, [], ◌∷◌, none, some, All, find}
use eos_evm_node.Base.Action.{ok, throw, ◌>>◌}
use eos_evm_node.Channels.{NativeBlock, NativeAction}
use eos_evm_node.Conversion.State.{
  State, tx_version_below_block, deserialize_tx, timestamp_to_evm_block_num, set_upper_bound,
}
use eos_evm_node.Conversion.Fork.{
  resolve_fork, find_by_id, remove_transactions, drop_forked, remove_actions, remove_action,
}
use eos_evm_node.Conversion.Handler.{on_native_block}
use eos_evm_node.Conversion.Terms.Undone.{ComesFrom, resolve_fork-ComesFrom}
use eos_evm_node.Conversion.Terms.Fees.{AllTerms, on_native_block-AllTerms}
use eos_evm_node.Conversion.Handler.Append.{Took-Stands}
use eos_evm_node.Conversion.Handler.Resend.{receive_all, receive_all-resent}
use eos_evm_node.Tests.Chains.{first_native, second_native, third_native, state, state-Took}
use eos_evm_node.Tests.Fixture.{ext, native_at, evm_at, bm, trx_of}
use eos_evm_node.Tests.Terms.{versioned, evmtx, version_laws}

abbrev carrying : ℕ → ℕ → NativeAction → NativeBlock
carrying id prev act = native_at id prev 16 90 (record (trx_of 1) { actions = act ∷ [] } ∷ [])

-- One native block, in the EVM block of its second.
abbrev at_last : State ℕ
at_last = record {
  native_blocks = native_at 101 100 16 90 [] ∷ [];
  evm_blocks = evm_at 7 [] ∷ [];
  bm = some bm;
  evm_contract_name = 5;
  evm_lib = 0;
  published = [];
  parameter_writes = [];
}

abbrev newer : NativeBlock
newer = carrying 102 101 (evmtx 3 5 6 21)

abbrev older : NativeBlock
older = carrying 103 101 (evmtx 1 9 0 22)

-- Two blocks of the same parent: alone, the second one is taken in.
on_native_block_older : (on_native_block versioned none false older at_last).0 ≡ ok tt
unfolding on_native_block extend timestamp_to_evm_block_num apply_config add_transactions add_action
    deserialize_tx check_version apply_prices apply_base_fee prune
on_native_block_older = refl

-- After the first one, whose transaction has a higher version, it is refused: the fork takes the
-- transaction back and not the version.
on_native_block_older_after_newer :
    ((on_native_block versioned none false newer >> on_native_block versioned none false older)
      at_last).0
    ≡ throw tx_version_below_block
unfolding on_native_block extend timestamp_to_evm_block_num apply_config add_transactions add_action
    deserialize_tx check_version apply_prices apply_base_fee prune resolve_fork find_by_id find
    remove_transactions drop_forked set_upper_bound remove_actions remove_action
on_native_block_older_after_newer = refl

abbrev forked : State ℕ
forked = (on_native_block versioned none false newer at_last).1

resolve_fork-ComesFrom_example :
    ((resolve_fork versioned bm older forked).1.published ≡ forked.published)
    × All (ComesFrom forked.evm_blocks) (resolve_fork versioned bm older forked).1.evm_blocks
resolve_fork-ComesFrom_example = resolve_fork-ComesFrom versioned bm older forked

on_native_block-AllTerms_example :
    AllTerms versioned version_laws (on_native_block versioned none false newer at_last).1
on_native_block-AllTerms_example =
    on_native_block-AllTerms versioned version_laws none false newer at_last (tt, (inl refl, tt))

-- The two newest blocks of the list come again.
receive_all-resent_example :
    receive_all ext none true bm third_native state
      (Took-Stands ext bm third_native state state-Took)
      (second_native ∷ third_native ∷ [])
      state
    ≡ (ok tt, state)
receive_all-resent_example =
    receive_all-resent ext none true bm third_native state
      (Took-Stands ext bm third_native state state-Took) (second_native ∷ third_native ∷ [])
      (
        ((third_native ∷ [], first_native, [], refl), omega arith),
        ((([], second_native, first_native ∷ [], refl), omega arith), tt),
      )
