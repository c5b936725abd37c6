-- ===== src/Conversion/Fork.antt =====
-- The fork branch of the `native_blocks` handler: finding the block that a received block extends,
-- and taking back what came after it.
pub mod Rollback
pub mod Undo
pub mod Search
pub mod Unwind
pub mod Rewind
pub mod Resolve
use eos_evm_node.Base.{
  ℕ, ◌+◌, Bool, true, false, not, ◌&&◌, List, [], ◌∷◌, Option, none, some, reverse, ltb, ◌==◌,
  if◌then◌else◌, find, is_empty,
}
use eos_evm_node.Base.Action.{
  Action, Outcome, ok, throw, undefined, raise, undefined_behaviour, or_raise, of_outcome, pure,
  gets, modify, ◌>>=◌, ◌>>◌,
}
use eos_evm_node.Channels.{NativeAction, NativeTrx, NativeBlock, reverse_actions_of}
use eos_evm_node.Evm.{EvmBlock, BlockMapping, EvmtxType, rlpx_of}
use eos_evm_node.External.{External}
use eos_evm_node.Conversion.State.{
  State, Error, on_back, timestamp_to_evm_block_num, deserialize_tx, set_upper_bound,
  unable_to_find_fork_block, unable_to_remove_transactions, unable_to_remove_transaction,
  unable_to_set_upper_bound,
}

-- `while (!evm_blocks.empty() && fork_num < evm_blocks.back().header.number) pop_back()`
unfoldable pub drop_forked : {Tx : Type 0} → ℕ → List (EvmBlock Tx) → List (EvmBlock Tx)
drop_forked fork_num [] = []
drop_forked fork_num (b ∷ older) =
    if ltb fork_num b.header.number then drop_forked fork_num older else b ∷ older

-- The first block of the list, from `front()` on, that has the id.
unfoldable pub find_by_id : ℕ → List NativeBlock → Option NativeBlock
find_by_id id natives = find (λ nb. nb.id == id) (reverse natives)

module _ {Tx : Type 0} (ext : External Tx) where
  -- The visitor of one action: it must be the last transaction of the block.
  unfoldable pub pop_matching :
      EvmtxType → EvmBlock Tx → List Tx → Outcome Error (Unit {0}) × EvmBlock Tx
  pop_matching dtx b [] = (undefined, b)
  pop_matching dtx b (tx ∷ earlier) =
      if ext.keccak256 (rlpx_of dtx) == ext.keccak256 (ext.encode_tx tx)
      then (ok tt, record b { transactions = earlier })
      else (throw unable_to_remove_transaction, b)

  unfoldable pub remove_action : NativeAction → Action (EvmBlock Tx) Error (Unit {0})
  unfolding pop_matching
  remove_action act = do
    dtx ← of_outcome (deserialize_tx ext act)
    λ b. pop_matching dtx b b.transactions

  unfoldable pub remove_actions : List NativeAction → Action (EvmBlock Tx) Error (Unit {0})
  remove_actions [] = pure tt
  remove_actions (act ∷ acts) = remove_action act >> remove_actions acts

  module _ (bm : BlockMapping) where
    -- Whether the EVM block of a native block is not `evm_blocks.back()`. The log line of the
    -- branch that throws reads `evm_blocks.back()` also where the list is empty.
    unfoldable pub check_back : ℕ → Error → List (EvmBlock Tx) → Action (State Tx) Error (Unit {0})
    check_back num e [] = if ext.logs_critical then undefined_behaviour else raise e
    check_back num e (b ∷ older) = if num == b.header.number then pure tt else raise e

    -- The body of the loop over the forked native blocks, up to the `pop_back`.
    unfoldable pub remove_transactions :
        NativeBlock → NativeBlock → Action (State Tx) Error (Unit {0})
    unfolding check_back
    remove_transactions fork nb =
        let num = timestamp_to_evm_block_num ext bm nb.timestamp in
        if not (is_empty nb.transactions) && num == timestamp_to_evm_block_num ext bm fork.timestamp
        then (do
          blocks ← gets (λ s. s.evm_blocks)
          check_back num unable_to_remove_transactions blocks
          on_back (remove_actions (reverse_actions_of nb.transactions)))
        else pure tt

    -- `while (!native_blocks.empty() && native_blocks.back().id != fork_block->id)`, on the list
    -- that the state holds.
    unfoldable pub unwind : NativeBlock → List NativeBlock → Action (State Tx) Error (Unit {0})
    unwind fork [] = pure tt
    unwind fork (nb ∷ older) = if nb.id == fork.id then pure tt else (do
      remove_transactions fork nb
      modify (λ s. record s { native_blocks = older })
      unwind fork older)

    -- The check and the reset of the upper bound.
    unfoldable pub reset_upper_bound : List NativeBlock → Action (State Tx) Error (Unit {0})
    unfolding check_back
    reset_upper_bound [] = do
      blocks ← gets (λ s. s.evm_blocks)
      if is_empty blocks && not ext.logs_critical
          then raise unable_to_set_upper_bound
          else undefined_behaviour
    reset_upper_bound (nb ∷ older) = do
      blocks ← gets (λ s. s.evm_blocks)
      check_back (timestamp_to_evm_block_num ext bm nb.timestamp) unable_to_set_upper_bound blocks
      on_back (modify (set_upper_bound nb))

    -- From "Fork at Block" on.
    unfoldable pub roll_back : List NativeBlock → NativeBlock → Action (State Tx) Error Bool
    unfolding unwind reset_upper_bound
    roll_back natives fork = do
      modify (λ s. record s {
        evm_blocks = drop_forked (timestamp_to_evm_block_num ext bm fork.timestamp) s.evm_blocks;
      })
      unwind fork natives
      rest ← gets (λ s. s.native_blocks)
      reset_upper_bound rest
      pure true

    -- The search for the fork block.
    unfoldable pub roll_back_to :
        List NativeBlock → Option NativeBlock → Action (State Tx) Error Bool
    unfolding roll_back
    roll_back_to natives none = raise unable_to_find_fork_block
    roll_back_to natives (some fork) = roll_back natives fork

    -- The search for a duplicate, which ends the handler.
    unfoldable pub unless_known :
        Action (State Tx) Error Bool → Option NativeBlock → Action (State Tx) Error Bool
    unless_known k none = k
    unless_known k (some dup) = pure false

    -- The whole branch, for a block whose parent is not `native_blocks.back()`. It returns whether
    -- the handler goes on: it does not for a block that is already in the list.
    unfoldable pub resolve_fork : NativeBlock → Action (State Tx) Error Bool
    unfolding roll_back_to unless_known
    resolve_fork new_block s =
        let natives = s.native_blocks in
        unless_known (roll_back_to natives (find_by_id new_block.prev natives))
          (find_by_id new_block.id natives) s
