-- ===== src/Tests/Resumes.antt =====
-- The block to resume from, in src/engine_plugin.cpp, and the variants of src/abi_utils.hpp at concrete
-- inputs.
use mathlib.Core.Option.{some-injective}
use eos_evm_node.Base.{
  ℕ, ◌+◌, ◌≡◌, refl, sym, ap, ◌↔◌, ◌||◌, ◌==◌, Bytes, [], ◌∷◌, Option, none, some, if◌then◌else◌,
}
use eos_evm_node.Base.Action.{ok}
use eos_evm_node.Evm.{Header, EvmBlock}
use eos_evm_node.Engine.{Database, get_canonical_block_at_height}
use eos_evm_node.Engine.Resume.{IsConsistent, IsResumed, get_canonical_block_at_height-IsResumed}
use eos_evm_node.Abi.{AbiType, abi_variant, verify_variant}
use eos_evm_node.Abi.Variant.{Holds, verify_variant-ok}
use eos_evm_node.Tests.Fixture.{evm_at}

-- Heights 3 and 4 have no id.
abbrev header_at : ℕ → Header
header_at n = record ((evm_at n []).header) {
  prev_randao = if n == 3 || n == 4 then 0 else 100 + n;
}

abbrev block_at : ℕ → EvmBlock ℕ
block_at n = record (evm_at n []) { header = header_at n }

abbrev db : Database ℕ
db = record {
  canonical_header = λ n. some (header_at n);
  stored_evm_lib = some 9;
  head_header = some (header_at 4);
  block_by_number = λ n. some (block_at n);
}

consistent : IsConsistent db
consistent = record {
  numbered = λ n h e. sym (ap (λ (x : Header). x.number) (some-injective (header_at n) h e));
  canonical = λ n b e. ap (λ (x : EvmBlock ℕ). some x.header) (some-injective (block_at n) b e);
}

resumes_at_2 : get_canonical_block_at_height db none ≡ some (block_at 2)
unfolding get_canonical_block_at_height
resumes_at_2 = refl

get_canonical_block_at_height-IsResumed_example : IsResumed db none (block_at 2)
get_canonical_block_at_height-IsResumed_example =
    get_canonical_block_at_height-IsResumed db consistent none (block_at 2) resumes_at_2

-- A number of one byte.
abbrev read_byte : Bytes → Option (ℕ × Bytes)
read_byte [] = none
read_byte (x ∷ rest) = some (x, rest)

abbrev result : AbiType
result = abi_variant "result" ("get_status_result_v0" ∷ "get_blocks_result_v0" ∷ [])

verify_variant-ok_example :
    (verify_variant read_byte result "get_blocks_result_v0" (1 ∷ 7 ∷ []) ≡ (ok tt, 7 ∷ []))
    ↔ Holds read_byte result "get_blocks_result_v0" (1 ∷ 7 ∷ []) (7 ∷ [])
verify_variant-ok_example =
    verify_variant-ok read_byte result "get_blocks_result_v0" (1 ∷ 7 ∷ []) (7 ∷ [])
