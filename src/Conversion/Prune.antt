-- ===== src/Conversion/Prune.antt =====
-- The last irreversible EVM block, and dropping what lies before it, in
-- src/block_conversion_plugin.cpp.
pub mod Split
pub mod Bounds
use eos_evm_node.Base.{
  ℕ, ◌+◌, ◌-◌, ◌%◌, ◌^◌, Bool, List, [], ◌∷◌, Option, none, some, reverse, ltb, if◌then◌else◌,
}
use mathlib.Core.Option
use eos_evm_node.Base.Action.{Action, Outcome, ok, throw, undefined}
use eos_evm_node.Channels.{NativeBlock}
use eos_evm_node.Evm.{EvmBlock, BlockMapping}
use eos_evm_node.External.{External}
use eos_evm_node.Conversion.State.{State, Error, timestamp_to_evm_block_num}

-- `std::upper_bound` at `lib` and the step back from it: on blocks sorted by number, which its
-- contract asks for, the last block that is not above `lib`. The list goes from `front()` on.
unfoldable pub last_irreversible : ℕ → List NativeBlock → Option NativeBlock
last_irreversible lib [] = none
last_irreversible lib (nb ∷ later) =
    if ltb lib nb.block_num
    then none
    else elim (last_irreversible lib later) [ none ↦ some nb | some best ↦ some best ]

-- `while (p(front())) pop_front()`, with the list from `front()` on; `none` where the list runs out,
-- since then `front()` is undefined.
unfoldable pub pop_front_while : {A : Type 0} → (A → Bool) → List A → Option (List A)
pop_front_while p [] = none
pop_front_while p (x ∷ xs) = if p x then pop_front_while p xs else some (x ∷ xs)

-- The same on a list that has its newest entry first.
unfoldable pub drop_oldest_while : {A : Type 0} → (A → Bool) → List A → Option (List A)
unfolding pop_front_while
drop_oldest_while p xs = Option.map reverse (pop_front_while p (reverse xs))

module _ {Tx : Type 0} (ext : External Tx) (bm : BlockMapping) where
  -- `timestamp_to_evm_block_num(*lib_timestamp) - 1` as a `uint32_t`.
  unfoldable pub evm_lib_at : ℕ → ℕ
  evm_lib_at timestamp = (timestamp_to_evm_block_num ext bm timestamp + 2 ^ 32 - 1) % 2 ^ 32

  unfoldable pub native_below : ℕ → NativeBlock → Bool
  native_below evm_lib nb = ltb (timestamp_to_evm_block_num ext bm nb.timestamp) evm_lib

  unfoldable pub evm_below : ℕ → EvmBlock Tx → Bool
  evm_below evm_lib b = ltb b.header.number evm_lib

  -- The three steps of `if (lib_timestamp)`.
  unfoldable pub drop_irreversible : ℕ → Action (State Tx) Error (Unit {0})
  unfolding drop_oldest_while native_below evm_below
  drop_irreversible evm_lib s = elim (drop_oldest_while (native_below evm_lib) s.native_blocks) [
    | none ↦ (undefined, s)
    | some natives ↦ elim (drop_oldest_while (evm_below evm_lib) s.evm_blocks) [
      | none ↦ (undefined, record s { native_blocks = natives })
      | some blocks ↦
          (ok tt, record s { native_blocks = natives; evm_blocks = blocks; evm_lib = evm_lib })
    ]
  ]

  unfoldable pub prune : ℕ → Action (State Tx) Error (Unit {0})
  unfolding drop_irreversible last_irreversible evm_lib_at
  prune lib s = elim (last_irreversible lib (reverse s.native_blocks)) [
    | none ↦ (ok tt, s)
    | some nb ↦ drop_irreversible (evm_lib_at nb.timestamp) s
  ]
