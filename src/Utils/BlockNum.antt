-- ===== src/Utils/BlockNum.antt =====
-- What `endian_reverse_u32` and `to_block_num` of src/utils.hpp compute.
use eos_evm_node.Base.{ℕ, ◌+◌, ◌*◌, ◌/◌, ◌%◌, ◌^◌, ◌<◌, ◌≡◌, arith}
use eos_evm_node.Base.Bits.{bit_and-byte_mask, bit_or-eq-add}
use eos_evm_node.Utils.{endian_reverse_u32, to_block_num, load_u32}

-- The four bytes in the opposite order, with no bit operation left.
abbrev swapped : ℕ → ℕ
swapped x =
    x / 2 ^ 24 % 256 + x / 2 ^ 16 % 256 * 2 ^ 8 + x / 2 ^ 8 % 256 * 2 ^ 16 + x % 256 * 2 ^ 24

endian_reverse_u32-bytes : (x : ℕ) → endian_reverse_u32 x ≡ swapped x
unfolding endian_reverse_u32
endian_reverse_u32-bytes x = rw (
  bit_and-byte_mask (x / 2 ^ 24),
  bit_and-byte_mask (x / 2 ^ 16),
  bit_and-byte_mask (x / 2 ^ 8),
  bit_and-byte_mask x,
  bit_or-eq-add 8 (x / 2 ^ 24 % 256) (x / 2 ^ 16 % 256) (omega arith),
  bit_or-eq-add 16 (x / 2 ^ 24 % 256 + x / 2 ^ 16 % 256 * 2 ^ 8) (x / 2 ^ 8 % 256) (omega arith),
  bit_or-eq-add 24 (x / 2 ^ 24 % 256 + x / 2 ^ 16 % 256 * 2 ^ 8 + x / 2 ^ 8 % 256 * 2 ^ 16)
      (x % 256) (omega arith),
)

-- Reversing the bytes of a 32-bit word twice gives the word back.
pub endian_reverse_u32_involutive :
    (x : ℕ) → x < 2 ^ 32 → endian_reverse_u32 (endian_reverse_u32 x) ≡ x
endian_reverse_u32_involutive x h =
    omega (arith, endian_reverse_u32-bytes x, endian_reverse_u32-bytes (endian_reverse_u32 x))

-- The block number of a 256-bit id is its highest 32 bits.
pub to_block_num-high_bits : (id : ℕ) → id < 2 ^ 256 → to_block_num id ≡ id / 2 ^ 224
unfolding to_block_num
to_block_num-high_bits id h = omega (arith, endian_reverse_u32-bytes (load_u32 id))
