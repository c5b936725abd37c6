-- ===== src/Conversion/Terms/Undone.antt =====
-- What the fork branch of src/block_conversion_plugin.cpp leaves of the EVM blocks.
use eos_evm_node.Base.{◌≡◌, refl, sym, ap, ◌∙◌, ◌⊎◌, inl, inr, All, All-map, List, [], ◌∷◌, ◌++◌}
use mathlib.Core.List.{append_assoc}
use eos_evm_node.Channels.{NativeBlock}
use eos_evm_node.Evm.{EvmBlock, BlockMapping}
use eos_evm_node.External.{External}
use eos_evm_node.Conversion.State.{State, set_upper_bound}
use eos_evm_node.Conversion.Fork.{resolve_fork}
use eos_evm_node.Conversion.Quiet.{Undoable}
use eos_evm_node.Conversion.Quiet.Fork.{resolve_fork-Keeps}

-- The block `a` without its last transactions, and with the upper bound of another native block.
pub record IsUndone {Tx : Type 0} (a b : EvmBlock Tx) : Type 0 where
  pub same_number : b.header.number ≡ a.header.number
  pub same_parent : b.header.parent_hash ≡ a.header.parent_hash
  pub same_nonce : b.header.nonce ≡ a.header.nonce
  pub same_base_fee : b.header.base_fee_per_gas ≡ a.header.base_fee_per_gas
  pub same_gas_prices : b.gas_prices ≡ a.gas_prices
  pub same_index : b.consensus_parameter_index ≡ a.consensus_parameter_index
  pub undone : List Tx
  pub rest : a.transactions ≡ undone ++ b.transactions

-- The block is one of these, undone.
abbrev pub ComesFrom : {Tx : Type 0} → List (EvmBlock Tx) → EvmBlock Tx → Type 0
ComesFrom [] b = ⊥
ComesFrom (a ∷ others) b = IsUndone a b ⊎ ComesFrom others b

module _ {Tx : Type 0} where
  IsUndone-refl : (b : EvmBlock Tx) → IsUndone b b
  IsUndone-refl b = record {
    same_number = refl;
    same_parent = refl;
    same_nonce = refl;
    same_base_fee = refl;
    same_gas_prices = refl;
    same_index = refl;
    undone = [];
    rest = refl;
  }

  IsUndone-pop :
      (a b : EvmBlock Tx) (tx : Tx) (earlier : List Tx)
      → b.transactions ≡ tx ∷ earlier
      → IsUndone a b
      → IsUndone a (record b { transactions = earlier })
  IsUndone-pop a b tx earlier e h = record {
    same_number = h.same_number;
    same_parent = h.same_parent;
    same_nonce = h.same_nonce;
    same_base_fee = h.same_base_fee;
    same_gas_prices = h.same_gas_prices;
    same_index = h.same_index;
    undone = h.undone ++ tx ∷ [];
    rest = h.rest ∙ ap (λ t. h.undone ++ t) e ∙ sym (append_assoc h.undone (tx ∷ []) earlier);
  }

  IsUndone-bound :
      (a b : EvmBlock Tx) (nb : NativeBlock) → IsUndone a b → IsUndone a (set_upper_bound nb b)
  unfolding set_upper_bound
  IsUndone-bound a b nb h = record {
    same_number = h.same_number;
    same_parent = h.same_parent;
    same_nonce = h.same_nonce;
    same_base_fee = h.same_base_fee;
    same_gas_prices = h.same_gas_prices;
    same_index = h.same_index;
    undone = h.undone;
    rest = h.rest;
  }

  ComesFrom-map :
      (base : List (EvmBlock Tx)) (b c : EvmBlock Tx)
      → ((a : EvmBlock Tx) → IsUndone a b → IsUndone a c)
      → ComesFrom base b
      → ComesFrom base c
  ComesFrom-map [] b c f h = h
  ComesFrom-map (a ∷ others) b c f (inl h) = inl (f a h)
  ComesFrom-map (a ∷ others) b c f (inr h) = inr (ComesFrom-map others b c f h)

  ComesFrom-Undoable : (base : List (EvmBlock Tx)) → Undoable (ComesFrom base)
  ComesFrom-Undoable base = record {
    after_pop = λ b tx earlier e.
        ComesFrom-map base b (record b { transactions = earlier })
          (λ a. IsUndone-pop a b tx earlier e);
    after_bound = λ nb b. ComesFrom-map base b (set_upper_bound nb b) (λ a. IsUndone-bound a b nb);
  }

  All-ComesFrom : (base : List (EvmBlock Tx)) → All (ComesFrom base) base
  All-ComesFrom [] = tt
  All-ComesFrom (b ∷ others) =
      (inl (IsUndone-refl b), All-map others (λ c h. inr h) (All-ComesFrom others))

module _ {Tx : Type 0} (ext : External Tx) where
  -- Whether the fork branch returns, throws or is undefined, it publishes nothing, and each EVM block
  -- that is left was one before with the same number, parent, nonce, base fee, prices and index of
  -- consensus parameters, and with its first transactions. So what a transaction or a configuration
  -- on the fork has set of these stays.
  pub resolve_fork-ComesFrom :
      (bm : BlockMapping) (new_block : NativeBlock) (s : State Tx)
      → ((resolve_fork ext bm new_block s).1.published ≡ s.published)
        × All (ComesFrom s.evm_blocks) (resolve_fork ext bm new_block s).1.evm_blocks
  resolve_fork-ComesFrom bm new_block s =
      resolve_fork-Keeps ext s.published (ComesFrom s.evm_blocks) (ComesFrom-Undoable s.evm_blocks)
        bm new_block s (refl, All-ComesFrom s.evm_blocks)
