-- ===== src/Conversion/Fork/Undo.antt =====
-- Adding the transactions of a native block and taking them back, in
-- src/block_conversion_plugin.cpp.
use eos_evm_node.Base.{ℕ, ◌≡◌, subst, All, List}
use eos_evm_node.Base.Action.{ok, Ends}
use eos_evm_node.Channels.{NativeTrx, actions_of, reverse_actions_of}
use eos_evm_node.Evm.{EvmBlock}
use eos_evm_node.External.{External}
use eos_evm_node.Conversion.State.{FromInput}
use eos_evm_node.Conversion.Content.{Pushed, IsCanonical}
use eos_evm_node.Conversion.Apply.{add_transactions}
use eos_evm_node.Conversion.Apply.Frame.{SamePlace, add_transactions-Pushed}
use eos_evm_node.Conversion.Fork.{remove_actions}
use eos_evm_node.Conversion.Fork.Rollback.{with_txs, remove_native_transactions}

module _ {Tx : Type 0} (ext : External Tx) where
  -- Where adding a native block's transactions to an EVM block has returned, and each of them has,
  -- encoded again, the hash of the bytes that it came in, the reverse loops take them off again
  -- without a mismatch, and leave the list of transactions as it was before.
  pub remove_actions-add_transactions :
      (version : ℕ) (trxs : List NativeTrx) (b b' : EvmBlock Tx)
      → All (IsCanonical ext) (actions_of trxs)
      → add_transactions ext version (actions_of trxs) b ≡ (ok tt, b')
      → remove_actions ext (reverse_actions_of trxs) b' ≡ (ok tt, with_txs b' b.transactions)
  remove_actions-add_transactions version trxs b b' canonical run =
      remove_native_transactions ext trxs b' b.transactions canonical
        (subst
          (Ends (λ _ c. SamePlace b c × Pushed ext (actions_of trxs) b.transactions c.transactions)
            (λ e c. FromInput e × SamePlace b c) ⊥)
          run (add_transactions-Pushed ext version (actions_of trxs) b)).1
