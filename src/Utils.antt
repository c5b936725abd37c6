-- ===== src/Utils.antt =====
-- src/utils.hpp: hexadecimal text of ids, and the block number that an Antelope block id carries.
-- A 32-byte value (`eosio::checksum256`, `evmc::bytes32`) is the number that its bytes spell, the
-- first byte the highest. The host is little endian, as `reinterpret_cast<const uint32_t*>` needs.
pub mod BlockNum
use Prim.Native.Nat.{bit_and, bit_or}
use eos_evm_node.Base.{
  ℕ, ◌+◌, ◌-◌, ◌*◌, ◌/◌, ◌%◌, ◌^◌, Bytes, Option, none, some, length, ◌==◌, if◌then◌else◌, List, [],
  ◌∷◌,
}

-- Byte `i` of the 32 bytes.
abbrev pub byte_at : ℕ → ℕ → ℕ
byte_at id i = id / 256 ^ (31 - i) % 256

-- The first four bytes, read as a `uint32_t` in memory order.
abbrev pub load_u32 : ℕ → ℕ
load_u32 id = byte_at id 0 + byte_at id 1 * 2 ^ 8 + byte_at id 2 * 2 ^ 16 + byte_at id 3 * 2 ^ 24

unfoldable pub endian_reverse_u32 : ℕ → ℕ
endian_reverse_u32 x =
    bit_or
      (bit_or (bit_or (bit_and (x / 2 ^ 0x18) 0xff) (bit_and (x / 2 ^ 0x10) 0xff * 2 ^ 0x08))
        (bit_and (x / 2 ^ 0x08) 0xff * 2 ^ 0x10))
      (bit_and x 0xff * 2 ^ 0x18)

-- Both overloads of `to_block_num`, which differ only in the type that holds the bytes.
unfoldable pub to_block_num : ℕ → ℕ
unfolding endian_reverse_u32
to_block_num id = endian_reverse_u32 (load_u32 id)

-- The number that a string of bytes spells, the first byte the highest.
abbrev pub be_value : ℕ → Bytes → ℕ
be_value acc [] = acc
be_value acc (b ∷ bs) = be_value (acc * 256 + b) bs

-- `checksum256_from_string`; `from_hex` is silkworm's, and `none` is the thrown runtime_error.
unfoldable pub checksum256_from_string {ℓ} :
    {Text : Type ℓ} → (Text → Option Bytes) → Text → Option ℕ
checksum256_from_string from_hex s = checked (from_hex s)
  where
    checked : Option Bytes → Option ℕ
    checked none = none
    checked (some bytes) = if length bytes == 32 then some (be_value 0 bytes) else none
