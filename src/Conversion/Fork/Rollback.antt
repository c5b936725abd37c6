-- ===== src/Conversion/Fork/Rollback.antt =====
-- Taking the transactions of a forked native block off the EVM block, in
-- src/block_conversion_plugin.cpp: it undoes what adding them did.
use mathlib.Core.List.{reverse-cons, reverse-append, append-nil, append_assoc}
use eos_evm_node.Base.{◌≡◌, refl, sym, ap, ◌∙◌, All, List, [], ◌∷◌, ◌++◌, reverse, ==_self}
use eos_evm_node.Base.Action.{ok, >>=-eq-ok, >>=-ok}
use eos_evm_node.Channels.{
  NativeAction, NativeTrx, actions_of, reverse_actions_of, reverse_actions_from,
}
use eos_evm_node.Evm.{EvmBlock}
use eos_evm_node.External.{External}
use eos_evm_node.Conversion.Content.{Carries, Pushed, IsCanonical}
use eos_evm_node.Conversion.Fork.{remove_action, remove_actions}

reverse_actions_from-append :
    (xs ys : List NativeTrx)
    → reverse_actions_from (xs ++ ys) ≡ reverse_actions_from xs ++ reverse_actions_from ys
reverse_actions_from-append [] ys = refl
reverse_actions_from-append (x ∷ xs) ys =
    rw (reverse_actions_from-append xs ys) (sym (append_assoc (reverse x.actions) _ _))

-- The two nested reverse loops visit the actions of a block in exactly the opposite order of the two
-- forward loops.
pub reverse_actions_of_lem :
    (trxs : List NativeTrx) → reverse_actions_of trxs ≡ reverse (actions_of trxs)
reverse_actions_of_lem [] = refl
reverse_actions_of_lem (trx ∷ rest) =
    rw (reverse-cons trx rest, reverse_actions_from-append (reverse rest) (trx ∷ []))
      (rw (reverse_actions_of_lem rest, append-nil)
        (sym (reverse-append trx.actions (actions_of rest))))

abbrev pub with_txs : {Tx : Type 0} → EvmBlock Tx → List Tx → EvmBlock Tx
with_txs b txs = record b { transactions = txs }

module _ {Tx : Type 0} (ext : External Tx) where
  remove_actions-append :
      (xs ys : List NativeAction) (b c : EvmBlock Tx)
      → remove_actions ext xs b ≡ (ok tt, c)
      → remove_actions ext (xs ++ ys) b ≡ remove_actions ext ys c
  unfolding remove_actions
  remove_actions-append [] ys b c h =
      ap (λ (d : EvmBlock Tx). remove_actions ext ys d) (ap (λ r. r.1) h)
  remove_actions-append (x ∷ xs) ys b c h =
      let (u, b', first, rest) = >>=-eq-ok (remove_action ext x) (λ _. remove_actions ext xs) b h in
      >>=-ok (remove_action ext x) (λ _. remove_actions ext (xs ++ ys)) b first
      ∙ remove_actions-append xs ys b' c rest

  remove_action-Carries :
      (act : NativeAction) (b : EvmBlock Tx) (tx : Tx) (txs : List Tx)
      → IsCanonical ext act
      → Carries ext act tx
      → remove_action ext act (with_txs b (tx ∷ txs)) ≡ (ok tt, with_txs b txs)
  unfolding remove_action
  remove_action-Carries act b tx txs canonical (dtx, e, d) =
      rw (e, remove_action)
        (rw (canonical dtx tx e d) (rw (==_self (ext.keccak256 (ext.encode_tx tx)))))

  remove_actions-Pushed :
      (acts : List NativeAction) (b : EvmBlock Tx) (before after : List Tx)
      → All (IsCanonical ext) acts
      → Pushed ext acts before after
      → remove_actions ext (reverse acts) (with_txs b after) ≡ (ok tt, with_txs b before)
  unfolding remove_actions
  remove_actions-Pushed [] b before after canonical p = rw p
  remove_actions-Pushed (act ∷ acts) b before after canonical (tx, carries, p) =
      rw (reverse-cons act acts) (
        remove_actions-append (reverse acts) (act ∷ []) (with_txs b after)
          (with_txs b (tx ∷ before))
          (remove_actions-Pushed acts b (tx ∷ before) after canonical.1 p)
        ∙ >>=-ok (remove_action ext act) (λ _. remove_actions ext []) (with_txs b (tx ∷ before))
            (remove_action-Carries act b tx before canonical.0 carries))

  -- What the reverse loops over a native block remove is what the block had added.
  pub remove_native_transactions :
      (trxs : List NativeTrx) (b : EvmBlock Tx) (before : List Tx)
      → All (IsCanonical ext) (actions_of trxs)
      → Pushed ext (actions_of trxs) before b.transactions
      → remove_actions ext (reverse_actions_of trxs) b ≡ (ok tt, with_txs b before)
  remove_native_transactions trxs b before canonical p =
      rw (reverse_actions_of_lem trxs)
        (remove_actions-Pushed (actions_of trxs) b before b.transactions canonical p)
