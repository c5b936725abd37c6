-- ===== src/Tests/Chains.antt =====
-- Two chains of three blocks each that belong together, with one transaction in each block.
use eos_evm_node.Base.{ℕ, ◌≡◌, refl, inl, List, [], ◌∷◌, some, arith}
use eos_evm_node.Channels.{NativeBlock}
use eos_evm_node.Evm.{EvmBlock, evmtx_v1}
use eos_evm_node.Conversion.State.{State, deserialize_tx, timestamp_to_evm_block_num}
use eos_evm_node.Conversion.Content.{Carries, num, Built}
use eos_evm_node.Conversion.Invariant.{IsValid}
use eos_evm_node.Conversion.Handler.Append.{Took}
use eos_evm_node.Tests.Fixture.{ext, bm, canonical, native_at, trx_of, push_action, evm_at}

abbrev pub first_native : NativeBlock
first_native = native_at 101 100 14 90 (trx_of 11 ∷ [])

abbrev pub second_native : NativeBlock
second_native = native_at 102 101 15 90 (trx_of 12 ∷ [])

abbrev pub third_native : NativeBlock
third_native = native_at 103 102 16 90 (trx_of 13 ∷ [])

abbrev pub natives : List NativeBlock
natives = third_native ∷ second_native ∷ first_native ∷ []

abbrev pub lower_evm : List (EvmBlock ℕ)
lower_evm = evm_at 6 (12 ∷ []) ∷ evm_at 5 (11 ∷ []) ∷ []

abbrev pub evm : List (EvmBlock ℕ)
evm = evm_at 7 (13 ∷ []) ∷ lower_evm

abbrev pub state : State ℕ
state = record {
  native_blocks = natives;
  evm_blocks = evm;
  bm = some bm;
  evm_contract_name = 5;
  evm_lib = 0;
  published = [];
  parameter_writes = [];
}

pub carries : (tx : ℕ) → Carries ext (push_action tx) tx
unfolding deserialize_tx
carries tx = (
  evmtx_v1 (record { base = record { eos_evm_version = 0; rlpx = tx ∷ [] }; base_fee_per_gas = 0 }),
  refl,
  refl,
)

first_height : num ext bm first_native ≡ 5
unfolding timestamp_to_evm_block_num
first_height = refl

second_height : num ext bm second_native ≡ 6
unfolding timestamp_to_evm_block_num
second_height = refl

pub third_height : num ext bm third_native ≡ 7
unfolding timestamp_to_evm_block_num
third_height = refl

Built-first : Built ext bm 5 natives (11 ∷ [])
unfolding timestamp_to_evm_block_num
Built-first = (
  11 ∷ [],
  (λ e. absurd (omega (arith, e))),
  (λ _. refl),
  (
    11 ∷ [],
    (λ e. absurd (omega (arith, e))),
    (λ _. refl),
    ([], (λ _. (11, carries 11, refl)), (λ h. absurd (h refl)), tt),
  ),
)

Built-second : Built ext bm 6 natives (12 ∷ [])
unfolding timestamp_to_evm_block_num
Built-second = (
  12 ∷ [],
  (λ e. absurd (omega (arith, e))),
  (λ _. refl),
  (
    [],
    (λ _. (12, carries 12, refl)),
    (λ h. absurd (h refl)),
    ([], (λ e. absurd (omega (arith, e))), (λ _. refl), tt),
  ),
)

Built-third : Built ext bm 7 natives (13 ∷ [])
unfolding timestamp_to_evm_block_num
Built-third = (
  [],
  (λ _. (13, carries 13, refl)),
  (λ h. absurd (h refl)),
  (
    [],
    (λ e. absurd (omega (arith, e))),
    (λ _. refl),
    ([], (λ e. absurd (omega (arith, e))), (λ _. refl), tt),
  ),
)

pub chains-IsValid : IsValid ext bm natives evm
chains-IsValid = record {
  native_chain = (refl, (refl, (tt, tt)));
  distinct = (
    (
      omega (arith, first_height, second_height, third_height),
      (omega (arith, first_height, second_height, third_height), tt),
    ),
    ((omega (arith, first_height, second_height, third_height), tt), (tt, tt)),
  );
  rising = (
    (
      omega (arith, first_height, second_height, third_height),
      (omega (arith, first_height, second_height, third_height), tt),
    ),
    ((omega (arith, first_height, second_height, third_height), tt), (tt, tt)),
  );
  positive = (
    omega (arith, first_height, second_height, third_height),
    (
      omega (arith, first_height, second_height, third_height),
      (omega (arith, first_height, second_height, third_height), tt),
    ),
  );
  removable = ((canonical _, tt), ((canonical _, tt), ((canonical _, tt), tt)));
  evm_chain = ((refl, refl), ((refl, refl), (tt, tt)));
  tip = inl third_height;
  covers = (
    omega (arith, first_height, second_height, third_height),
    (
      omega (arith, first_height, second_height, third_height),
      (omega (arith, first_height, second_height, third_height), tt),
    ),
  );
  built = (Built-third, (Built-second, (Built-first, tt)));
}

pub state-Took : Took ext bm third_native state
state-Took = record {
  older = second_native ∷ first_native ∷ [];
  back = evm_at 7 (13 ∷ []);
  rest = lower_evm;
  mapped = refl;
  en = refl;
  ee = refl;
  same_height = third_height;
  valid = chains-IsValid;
}
