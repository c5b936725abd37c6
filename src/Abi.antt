-- ===== src/Abi.antt =====
-- src/abi_utils.hpp: looking up a type of an ABI, and checking which alternative of a variant a byte
-- stream holds. The ABI and the encoding belong to abieos.
pub mod Variant
use Prim.Native.String.{String}
use text.Mathlib.Text.{◌==◌ as str_eq}
use text.Mathlib.TextEquality.{eq_iff}
use eos_evm_node.Base.{
  ℕ, zero, suc, ◌≡◌, refl, ap, subst, ◌∙◌, ◌↔◌, false, Bool-cases, inl, inr, Bytes, List, [], ◌∷◌,
  Option, none, some, get_elem?, length, leb, if◌then◌else◌, arith,
}
use eos_evm_node.Base.Action.{Action, Outcome, ok, throw, raise, pure, ◌>>=◌}

-- `eosio::abi_type`, as far as it is read: a name, and the names of the alternatives of a variant.
pub data AbiType : Type 0 where
  abi_variant : String → List String → AbiType
  abi_other : String → AbiType

abbrev pub as_variant : AbiType → Option (List String)
as_variant (abi_variant name alternatives) = some alternatives
as_variant (abi_other name) = none

pub data AbiError : Type 0 where
  -- What `varuint32_from_bin` throws.
  stream_error : AbiError
  not_a_variant : AbiError
  not_expected : AbiError
  unknown_type : String → AbiError

-- `abi.abi_types`, an association list.
abbrev pub AbiTypes : Type 0
AbiTypes = List (String × AbiType)

unfoldable pub get_type : String → AbiTypes → Outcome AbiError AbiType
get_type n [] = throw (unknown_type n)
get_type n ((name, type) ∷ rest) =
    let later = get_type n rest in if str_eq name n then ok type else later

unfoldable pub index_of : Option (ℕ × Bytes) → Action Bytes AbiError ℕ
index_of none bin = (throw stream_error, bin)
index_of (some (index, rest)) bin = (ok index, rest)

-- `v->at(index).name != expected`, after the test of the index.
unfoldable pub check_alternative : String → Option String → Action Bytes AbiError (Unit {0})
check_alternative expected none = raise not_expected
check_alternative expected (some name) =
    if str_eq name expected then pure tt else raise not_expected

unfoldable pub check_variant : ℕ → String → Option (List String) → Action Bytes AbiError (Unit {0})
unfolding check_alternative
check_variant index expected none = raise not_a_variant
check_variant index expected (some v) =
    if leb (length v) index
    then raise not_expected
    else check_alternative expected (get_elem? v index)

-- `varuint32_from_bin` is eosio's: the number and the rest of the stream, or an exception.
module _ (varuint32_from_bin : Bytes → Option (ℕ × Bytes)) where
  unfoldable pub read_index : Action Bytes AbiError ℕ
  unfolding index_of
  read_index bin = index_of (varuint32_from_bin bin) bin

  -- The index is read before the type is looked at.
  unfoldable pub verify_variant : AbiType → String → Action Bytes AbiError (Unit {0})
  unfolding read_index check_variant
  verify_variant type expected =
      read_index >>= λ index. check_variant index expected (as_variant type)
