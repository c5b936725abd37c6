-- ===== src/Engine.antt =====
-- The block from which the program resumes, in src/engine_plugin.cpp. The database is what it answers:
-- the canonical header of each height, the stored height, the head.
pub mod Search
pub mod Resume
pub mod Setup
pub mod Plugin
use eos_evm_node.Base.{
  ℕ, zero, suc, Bool, true, false, not, Option, none, some, ltb, ◌==◌, if◌then◌else◌,
}
use eos_evm_node.Evm.{Header, EvmBlock}

-- `silkworm::db::read_canonical_header`, the stored LIB, the head header and
-- `silkworm::db::read_block_by_number`, newest transaction first.
pub record Database (Tx : Type 0) : Type 0 where
  pub canonical_header : ℕ → Option Header
  pub stored_evm_lib : Option ℕ
  pub head_header : Option Header
  pub block_by_number : ℕ → Option (EvmBlock Tx)

-- `res && !is_zero(res->prev_randao)`
unfoldable pub has_eos_id : Option Header → Bool
has_eos_id none = false
has_eos_id (some header) = not (header.prev_randao == 0)

module _ {Tx : Type 0} (db : Database Tx) where
  -- The loop goes down from the height and ends at height 0, with whatever is there.
  unfoldable pub find_block_with_valid_eos_id : ℕ → Option Header
  unfolding has_eos_id
  find_block_with_valid_eos_id zero = db.canonical_header 0
  find_block_with_valid_eos_id (suc height) =
      let below = find_block_with_valid_eos_id height in
      if has_eos_id (db.canonical_header (suc height))
      then db.canonical_header (suc height)
      else below

  -- The lower of the stored height and the head.
  unfoldable pub capped : ℕ → Option Header → ℕ
  capped lib none = lib
  capped lib (some header) = if ltb header.number lib then header.number else lib

  -- The height that the search starts from, where no height is asked for.
  unfoldable pub default_height : Option ℕ → Option Header → Option ℕ
  unfolding capped
  default_height (some lib) header = some (capped lib header)
  default_height none none = none
  default_height none (some header) = some header.number

  unfoldable pub effective_height : Option ℕ → Option ℕ
  unfolding default_height
  effective_height (some height) = some height
  effective_height none = default_height db.stored_evm_lib db.head_header

  unfoldable pub block_of : Option Header → Option (EvmBlock Tx)
  block_of none = none
  block_of (some header) = db.block_by_number header.number

  unfoldable pub block_from : Option ℕ → Option (EvmBlock Tx)
  unfolding block_of find_block_with_valid_eos_id
  block_from none = none
  block_from (some target) = block_of (find_block_with_valid_eos_id target)

  unfoldable pub get_canonical_block_at_height : Option ℕ → Option (EvmBlock Tx)
  unfolding block_from effective_height
  get_canonical_block_at_height height = block_from (effective_height height)
