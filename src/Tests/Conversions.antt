-- ===== src/Tests/Conversions.antt =====
-- The handler of src/block_conversion_plugin.cpp and its parts on the chains of `Chains`.
use eos_evm_node.Base.{ℕ, ◌≡◌, refl, inl, List, [], ◌∷◌, reverse, none, arith, true, map, find}
use eos_evm_node.Base.Action.{ok, Ends}
use eos_evm_node.Channels.{NativeTrx, NativeBlock, actions_of, reverse_actions_of}
use eos_evm_node.Evm.{EvmBlock}
use eos_evm_node.Conversion.State.{
  State, FromInput, timestamp_to_evm_block_num, deserialize_tx, set_upper_bound,
}
use eos_evm_node.Conversion.Content.{Pushed}
use eos_evm_node.Conversion.Invariant.{IsValid}
use eos_evm_node.Conversion.Fork.{
  resolve_fork, remove_actions, find_by_id, drop_forked, remove_transactions,
}
use eos_evm_node.Conversion.Fork.Resolve.{ForkEnds, resolve_fork-ForkEnds}
use eos_evm_node.Conversion.Fork.Rollback.{with_txs, reverse_actions_of_lem}
use eos_evm_node.Conversion.Fork.Undo.{remove_actions-add_transactions}
use eos_evm_node.Conversion.Extend.{extend}
use eos_evm_node.Conversion.Extend.Chain.{Extended, extend-Extended}
use eos_evm_node.Conversion.Apply.{
  add_transactions, apply_base_fee, apply_config, apply_prices, check_version, add_action,
}
use eos_evm_node.Conversion.Apply.Frame.{SamePlace, add_transactions-Pushed}
use eos_evm_node.Conversion.Prune.{prune}
use eos_evm_node.Conversion.Prune.Bounds.{Cut, prune-Cut}
use eos_evm_node.Conversion.Handler.{is_unlinked, on_native_block}
use eos_evm_node.Conversion.Handler.Append.{Stands, Took-Stands}
use eos_evm_node.Conversion.Handler.Safety.{Arrives, Handled, on_native_block-Good}
use eos_evm_node.Conversion.Handler.Reached.{here, next, Reached-Stands}
use eos_evm_node.Tests.Fixture.{ext, laws, bm, canonical, native_at, trx_of, push_action, evm_at}
use eos_evm_node.Tests.Chains.{
  first_native, second_native, third_native, natives, lower_evm, evm, state, third_height,
  chains-IsValid, state-Took,
}

-- A block that leaves the chain at `second_native`.
abbrev forked : NativeBlock
forked = native_at 104 102 17 103 (trx_of 14 ∷ [])

abbrev after : State ℕ
after = (on_native_block ext none true forked state).1

on_native_block_runs : (on_native_block ext none true forked state).0 ≡ ok tt
unfolding on_native_block resolve_fork find_by_id find remove_transactions
    timestamp_to_evm_block_num drop_forked extend set_upper_bound apply_config add_transactions
    add_action deserialize_tx check_version apply_prices apply_base_fee prune
on_native_block_runs = refl

on_native_block_natives : map (λ nb. nb.id) after.native_blocks ≡ 104 ∷ 102 ∷ 101 ∷ []
unfolding on_native_block resolve_fork find_by_id find remove_transactions
    timestamp_to_evm_block_num drop_forked extend set_upper_bound apply_config add_transactions
    add_action deserialize_tx check_version apply_prices apply_base_fee prune
on_native_block_natives = refl

on_native_block_evm : map (λ b. b.header.number) after.evm_blocks ≡ 8 ∷ 7 ∷ 6 ∷ 5 ∷ []
unfolding on_native_block resolve_fork find_by_id find remove_transactions
    timestamp_to_evm_block_num drop_forked extend set_upper_bound apply_config add_transactions
    add_action deserialize_tx check_version apply_prices apply_base_fee prune
on_native_block_evm = refl

on_native_block_txs :
    map (λ b. b.transactions) after.evm_blocks ≡ (14 ∷ []) ∷ [] ∷ (12 ∷ []) ∷ (11 ∷ []) ∷ []
unfolding on_native_block resolve_fork find_by_id find remove_transactions
    timestamp_to_evm_block_num drop_forked extend set_upper_bound apply_config add_transactions
    add_action deserialize_tx check_version apply_prices apply_base_fee prune
on_native_block_txs = refl

forked-Arrives : Arrives ext laws none bm true forked state
unfolding timestamp_to_evm_block_num is_unlinked
forked-Arrives = record {
  later = omega arith;
  after_genesis = omega arith;
  removable = (canonical (push_action 14), tt);
  can = inl refl;
  parent_time = ((λ _. omega arith), ((λ _. omega arith), ((λ _. omega arith), tt)));
  new_id = λ _. (omega arith, (omega arith, (omega arith, tt)));
}

on_native_block-Good_example :
    Ends
      (λ _ s'. Handled ext laws none bm forked state s')
      (λ e _. FromInput e)
      ⊥
      (on_native_block ext none true forked state)
on_native_block-Good_example =
    on_native_block-Good ext laws none bm true forked third_native state
      (Took-Stands ext bm third_native state state-Took) forked-Arrives

forked-run : on_native_block ext none true forked state ≡ (ok tt, after)
unfolding on_native_block resolve_fork find_by_id find remove_transactions
    timestamp_to_evm_block_num drop_forked extend set_upper_bound apply_config add_transactions
    add_action deserialize_tx check_version apply_prices apply_base_fee prune
forked-run = refl

Reached-Stands_example : (newest : NativeBlock) × Stands ext bm newest after
Reached-Stands_example =
    Reached-Stands ext laws none bm third_native state after
      (Took-Stands ext bm third_native state state-Took)
      (next true forked here forked-Arrives forked-run)

resolve_fork-ForkEnds_example :
    ForkEnds ext bm forked natives state (resolve_fork ext bm forked state)
resolve_fork-ForkEnds_example =
    resolve_fork-ForkEnds ext bm forked third_native (second_native ∷ first_native ∷ [])
      (evm_at 7 (13 ∷ [])) lower_evm chains-IsValid (λ e. absurd (omega (arith, e))) state refl refl

prune-Cut_example :
    (ns : List NativeBlock) × (es : List (EvmBlock ℕ)) × (k : ℕ) × (prune ext bm 103 state ≡ (
      ok tt,
      record state {
        native_blocks = third_native ∷ ns;
        evm_blocks = evm_at 7 (13 ∷ []) ∷ es;
        evm_lib = k;
      },
    ))
    × IsValid ext bm (third_native ∷ ns) (evm_at 7 (13 ∷ []) ∷ es)
    × Cut ext laws bm 103 state natives (third_native ∷ ns) evm (evm_at 7 (13 ∷ []) ∷ es) k
prune-Cut_example =
    prune-Cut ext laws bm 103 third_native (second_native ∷ first_native ∷ []) (evm_at 7 (13 ∷ []))
      lower_evm state refl refl chains-IsValid third_height

prune_drops : (prune ext bm 103 state).1.evm_lib ≡ 6
unfolding prune timestamp_to_evm_block_num
prune_drops = refl

extend-Extended_example :
    (s' : State ℕ) × (extend ext none bm 5 9 state ≡ (ok tt, s'))
    × Extended ext laws none bm 5 9 (evm_at 7 (13 ∷ [])) lower_evm state s'
extend-Extended_example =
    extend-Extended ext laws none bm 5 9 (evm_at 7 (13 ∷ [])) lower_evm state refl
      chains-IsValid.evm_chain

abbrev two_trxs : List NativeTrx
two_trxs = trx_of 21 ∷ trx_of 22 ∷ []

add_transactions-Pushed_example :
    Ends
      (λ _ b'.
        SamePlace (evm_at 7 (13 ∷ [])) b'
        × Pushed ext (actions_of two_trxs) (13 ∷ []) b'.transactions)
      (λ e b'. FromInput e × SamePlace (evm_at 7 (13 ∷ [])) b')
      ⊥
      (add_transactions ext 0 (actions_of two_trxs) (evm_at 7 (13 ∷ [])))
add_transactions-Pushed_example =
    add_transactions-Pushed ext 0 (actions_of two_trxs) (evm_at 7 (13 ∷ []))

abbrev filled : EvmBlock ℕ
filled = evm_at 7 (22 ∷ 21 ∷ 13 ∷ [])

filled_run : add_transactions ext 0 (actions_of two_trxs) (evm_at 7 (13 ∷ [])) ≡ (ok tt, filled)
unfolding add_transactions add_action deserialize_tx check_version apply_prices apply_base_fee
filled_run = refl

remove_actions-add_transactions_example :
    remove_actions ext (reverse_actions_of two_trxs) filled ≡ (ok tt, with_txs filled (13 ∷ []))
remove_actions-add_transactions_example =
    remove_actions-add_transactions ext 0 two_trxs (evm_at 7 (13 ∷ [])) filled
      (canonical (push_action 21), (canonical (push_action 22), tt)) filled_run

reverse_actions_of_example : reverse_actions_of two_trxs ≡ reverse (actions_of two_trxs)
reverse_actions_of_example = reverse_actions_of_lem two_trxs
