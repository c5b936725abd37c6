-- ===== src/Tests/Terms.antt =====
-- Version and fees of the current block of src/block_conversion_plugin.cpp at concrete inputs.
use eos_evm_node.Base.{
  All, ◌↔◌, ◌%◌, ◌^◌, ℕ, ◌≡◌, refl, ◌<◌, subst, Bool, true, false, inl, inr, Bytes, List, [], ◌∷◌,
  Option, none, some, arith, ◌==◌, if◌then◌else◌,
}
use eos_evm_node.Base.Action.{Ends, ok, throw}
use eos_evm_node.Channels.{NativeAction}
use eos_evm_node.Evm.{EvmBlock, EvmtxType, evmtx_v1, evmtx_v3, version_of}
use eos_evm_node.External.{External, VersionLaws}
use eos_evm_node.Conversion.State.{gas_prices_differ, tx_version_above_block, deserialize_tx}
use eos_evm_node.Conversion.Apply.{
  add_transactions, add_action, check_version, apply_prices, apply_base_fee,
}
use eos_evm_node.Conversion.Apply.Uniform.{Agreed, Left, at_version, add_transactions-Agreed}
use eos_evm_node.Conversion.Apply.Complete.{Accepted, Returns, add_transactions-Returns}
use eos_evm_node.Tests.Fixture.{ext, evm_at, push_action}

-- Version, first and second fee, and the transaction.
abbrev read_evmtx : Bytes → Option EvmtxType
read_evmtx (v ∷ a ∷ b ∷ tx ∷ []) =
    if v == 3
    then some (
        evmtx_v3 (record {
          base = record { eos_evm_version = v % 2 ^ 64; rlpx = tx ∷ [] };
          overhead_price = a;
          storage_price = b;
        }))
    else some (
        evmtx_v1 (record {
          base = record { eos_evm_version = v % 2 ^ 64; rlpx = tx ∷ [] };
          base_fee_per_gas = a;
        }))
read_evmtx bytes = none

abbrev pub versioned : External ℕ
versioned = record ext { evmtx_from_bin = read_evmtx }

abbrev IsVersioned : Option EvmtxType → Type 0
IsVersioned none = Unit
IsVersioned (some dtx) = version_of dtx < 2 ^ 64

read_evmtx-IsVersioned : (bytes : Bytes) → IsVersioned (read_evmtx bytes)
read_evmtx-IsVersioned (v ∷ a ∷ b ∷ tx ∷ []) = either (v == 3)
  where
    either :
        (is_v3 : Bool)
        → IsVersioned (
            if is_v3
            then some (
                evmtx_v3 (record {
                  base = record { eos_evm_version = v % 2 ^ 64; rlpx = tx ∷ [] };
                  overhead_price = a;
                  storage_price = b;
                }))
            else some (
                evmtx_v1 (record {
                  base = record { eos_evm_version = v % 2 ^ 64; rlpx = tx ∷ [] };
                  base_fee_per_gas = a;
                })))
    either true = omega arith
    either false = omega arith
read_evmtx-IsVersioned [] = tt
read_evmtx-IsVersioned (v ∷ []) = tt
read_evmtx-IsVersioned (v ∷ a ∷ []) = tt
read_evmtx-IsVersioned (v ∷ a ∷ b ∷ []) = tt
read_evmtx-IsVersioned (v ∷ a ∷ b ∷ tx ∷ c ∷ rest) = tt

pub version_laws : VersionLaws versioned
version_laws = record {
  versions_u64 = λ bytes dtx e. subst IsVersioned e (read_evmtx-IsVersioned bytes);
  nonce_round = λ version low. refl;
}

abbrev pub evmtx : ℕ → ℕ → ℕ → ℕ → NativeAction
evmtx version a b tx = record (push_action tx) { name = 8; payload = version ∷ a ∷ b ∷ tx ∷ [] }

abbrev priced : List NativeAction
priced = evmtx 3 5 6 21 ∷ evmtx 3 5 6 22 ∷ []

add_transactions_terms : add_transactions versioned 0 priced (evm_at 7 []) ≡ (
  ok tt,
  record (evm_at 7 (22 ∷ 21 ∷ [])) {
    header = record ((evm_at 7 []).header) { nonce = 3; base_fee_per_gas = some 11 };
    gas_prices = some (record { overhead_price = 5; storage_price = 6 });
  },
)
unfolding add_transactions add_action deserialize_tx check_version apply_prices apply_base_fee
add_transactions_terms = refl

add_transactions_price_change :
    (add_transactions versioned 0 (evmtx 3 5 6 21 ∷ evmtx 3 5 7 22 ∷ []) (evm_at 7 [])).0
    ≡ throw gas_prices_differ
unfolding add_transactions add_action deserialize_tx check_version apply_prices apply_base_fee
add_transactions_price_change = refl

add_transactions_version_change :
    (add_transactions versioned 0 (evmtx 1 5 0 21 ∷ evmtx 3 5 7 22 ∷ []) (evm_at 7 [])).0
    ≡ throw tx_version_above_block
unfolding add_transactions add_action deserialize_tx check_version apply_prices apply_base_fee
add_transactions_version_change = refl

-- The block has a transaction of version 1.
abbrev charged : EvmBlock ℕ
charged = record (evm_at 7 (13 ∷ [])) {
  header = record ((evm_at 7 []).header) { nonce = 1; base_fee_per_gas = some 9 };
}

add_transactions-Agreed_example :
    Ends
      (λ _ b'.
        (v : ℕ) × Agreed versioned
          (evmtx 1 9 0 21 ∷ evmtx 1 9 0 22 ∷ [])
          (at_version versioned 1 charged)
          (at_version versioned v b'))
      (λ _ b'.
        (v : ℕ) × Left versioned (at_version versioned 1 charged) (at_version versioned v b'))
      ⊥
      (add_transactions versioned 1 (evmtx 1 9 0 21 ∷ evmtx 1 9 0 22 ∷ []) charged)
add_transactions-Agreed_example =
    add_transactions-Agreed versioned 1 (evmtx 1 9 0 21 ∷ evmtx 1 9 0 22 ∷ []) charged
      (inr (inr (inl (omega arith, 9, refl))))

abbrev same_fee : List NativeAction
same_fee = evmtx 1 9 0 21 ∷ evmtx 1 9 0 22 ∷ []

add_transactions-Returns_example :
    Returns versioned (add_transactions versioned 1 same_fee charged)
    ↔ All (Accepted versioned (at_version versioned 1 charged)) same_fee
add_transactions-Returns_example =
    add_transactions-Returns versioned 1 same_fee charged refl (inr (inl (omega arith, 9, refl)))
