-- ===== src/Tests/Nodes.antt =====
-- The plugins together, from the start of the node on, at concrete blocks.
use eos_evm_node.Base.{
  ℕ, suc, ◌+◌, ◌≤◌, ◌≡◌, refl, ◌⊎◌, Bool, true, false, List, [], ◌∷◌, ◌++◌, map, none, some, arith,
}
use eos_evm_node.Base.Action.{Action, throw, Ends}
use eos_evm_node.Channels.{NativeBlock}
use eos_evm_node.Evm.{EvmBlock}
use eos_evm_node.Conversion.State.{State, timestamp_to_evm_block_num, deserialize_tx}
use eos_evm_node.Utils.{to_block_num}
use eos_evm_node.Conversion.Extend.{extend}
use eos_evm_node.Conversion.Prune.{prune}
use eos_evm_node.Conversion.Apply.{
  apply_config, add_transactions, add_action, check_version, apply_prices, apply_base_fee,
}
use eos_evm_node.Conversion.Handler.{load_head, on_native_block}
use eos_evm_node.Conversion.Delivery.Order.{Ordered, Delivered, on_native_block-Delivered}
use eos_evm_node.Blockchain.{on_evm_block}
use eos_evm_node.Blockchain.Pending.{inserted}
use eos_evm_node.Dispatch.{dispatch, RunsAll, dispatch-RunsAll}
use eos_evm_node.Node.{Node, receive, deliver}
use eos_evm_node.Node.Agreement.{
  Agrees, idle, load_head-Agrees, here, receives, delivers, Reaches-Ordered,
}
use eos_evm_node.Tests.Fixture.{ext, laws, native_at, trx_of, evm_at}

abbrev empty : State ℕ
empty = record {
  native_blocks = [];
  evm_blocks = [];
  bm = none;
  evm_contract_name = 0;
  evm_lib = 0;
  published = [];
  parameter_writes = [];
}

abbrev loaded : State ℕ
loaded = (load_head (some (evm_at 5 (11 ∷ []))) (some ((evm_at 0 []).header)) empty).1

abbrev first : Node ℕ
first = idle loaded

first-Agrees : Agrees ext none (λ _ _. none) 5 first
first-Agrees =
    load_head-Agrees ext none (λ _ _. none) (evm_at 5 (11 ∷ [])) ((evm_at 0 []).header) empty refl
      refl

abbrev incoming : NativeBlock
incoming = native_at 101 0 7 0 (trx_of 12 ∷ [])

on_native_block-Delivered_example :
    let s' = (on_native_block ext none false incoming loaded).1 in
    ((fresh : List (EvmBlock ℕ)) × (s'.published ≡ fresh ++ loaded.published)) × Delivered ext 5 s'
on_native_block-Delivered_example =
    on_native_block-Delivered ext laws none false 5 incoming loaded first-Agrees.ordered

abbrev last : Node ℕ
last =
    deliver ext none (λ _ _. none)
      (deliver ext none (λ _ _. none) (receive ext none (λ _ _. none) incoming first))

last_inserted : map (λ b. b.header.number) (inserted last.chain.calls) ≡ 6 ∷ 5 ∷ []
unfolding deliver receive dispatch on_native_block load_head extend timestamp_to_evm_block_num
    apply_config add_transactions add_action deserialize_tx check_version apply_prices
    apply_base_fee prune to_block_num on_evm_block
last_inserted = refl

Reaches-Ordered_example :
    ((waiting : List (EvmBlock ℕ)) × (last.conversion.published
        ≡ waiting ++ inserted last.chain.calls)
      × Ordered ext 5 (inserted last.chain.calls))
    ⊎ (last.chain.quits ≡ true)
Reaches-Ordered_example =
    Reaches-Ordered ext laws none (λ _ _. none) 5 first last first-Agrees
      (delivers (delivers (receives incoming here)))

-- Two callbacks, the first of which throws.
abbrev count_and_throw : Action ℕ Bool (Unit {0})
count_and_throw n = (throw true, suc n)

dispatch-RunsAll_example :
    Ends
      (λ _ n. RunsAll (λ n. n + 10) (count_and_throw ∷ count_and_throw ∷ []) 3 n × (3 ≤ n))
      (λ _ _. ⊥)
      ⊥
      (dispatch (λ n. n + 10) (count_and_throw ∷ count_and_throw ∷ []) 3)
dispatch-RunsAll_example =
    dispatch-RunsAll (λ n. n + 10) (λ n. 3 ≤ n) (λ n h. omega arith)
      (count_and_throw ∷ count_and_throw ∷ []) 3 ((λ n h. omega arith), ((λ n h. omega arith), tt))
      (omega arith)
