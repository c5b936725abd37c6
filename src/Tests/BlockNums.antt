-- ===== src/Tests/BlockNums.antt =====
-- The helpers of src/utils.hpp at concrete numbers.
use eos_evm_node.Base.{◌*◌, ◌+◌, ◌/◌, ◌^◌, ◌≡◌, refl, arith, some, none, [], ◌∷◌, Bytes}
use eos_evm_node.Utils.{endian_reverse_u32, to_block_num, checksum256_from_string}
use eos_evm_node.Utils.BlockNum.{endian_reverse_u32_involutive, to_block_num-high_bits}

endian_reverse_u32_swaps : endian_reverse_u32 0x01020304 ≡ 0x04030201
unfolding endian_reverse_u32
endian_reverse_u32_swaps = refl

endian_reverse_u32_involutive_example :
    endian_reverse_u32 (endian_reverse_u32 0xdeadbeef) ≡ 0xdeadbeef
endian_reverse_u32_involutive_example = endian_reverse_u32_involutive 0xdeadbeef (omega arith)

to_block_num-high_bits_example :
    to_block_num (0x01020304 * 2 ^ 224 + 9) ≡ (0x01020304 * 2 ^ 224 + 9) / 2 ^ 224
to_block_num-high_bits_example = to_block_num-high_bits (0x01020304 * 2 ^ 224 + 9) (omega arith)

-- Text of the wrong length gives no id.
checksum256_from_string_short :
    checksum256_from_string (λ (text : Bytes). some text) (1 ∷ 2 ∷ []) ≡ none
unfolding checksum256_from_string
checksum256_from_string_short = refl
