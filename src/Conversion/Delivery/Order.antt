-- ===== src/Conversion/Delivery/Order.antt =====
-- The order in which src/block_conversion_plugin.cpp publishes EVM blocks.
use eos_evm_node.Base.{
  ℕ, suc, ◌≡◌, refl, sym, ap, subst, ◌∙◌, ◌⊎◌, inl, inr, Bool, All, All-map, List, [], ◌∷◌, ◌++◌,
  Option,
}
use eos_evm_node.Base.Action.{Action, Keeps, Ends-Keeps}
use eos_evm_node.Channels.{NativeBlock}
use eos_evm_node.Evm.{EvmBlock, BlockMapping, ChainConfig}
use eos_evm_node.External.{External, Laws}
use eos_evm_node.Conversion.State.{State, Error, set_upper_bound}
use eos_evm_node.Conversion.Apply.Frame.{SamePlace, add_transactions-Pushed}
use eos_evm_node.Conversion.Apply.{add_transactions}
use eos_evm_node.Conversion.Fork.{resolve_fork}
use eos_evm_node.Conversion.Extend.{publish_back, sealed_block}
use eos_evm_node.Conversion.Extend.Chain.{new-Follows}
use eos_evm_node.Conversion.Handler.{fill_block, on_native_block}
use eos_evm_node.Conversion.Quiet.{Stable, Quiet, fill_block-Keeps}
use eos_evm_node.Conversion.Quiet.Handler.{Kept, on_native_block-Keeps}
use eos_evm_node.Conversion.Quiet.Fork.{resolve_fork-Keeps}

module _ {Tx : Type 0} (ext : External Tx) where
  -- A block of the list is the parent that `b` names, one height below it.
  abbrev pub HasParent : List (EvmBlock Tx) → EvmBlock Tx → Type 0
  HasParent [] b = ⊥
  HasParent (a ∷ earlier) b =
      ((b.header.number ≡ suc a.header.number) × (b.header.parent_hash ≡ ext.header_hash a.header))
      ⊎ HasParent earlier b

  -- The block is at the height where the node has started, or its parent went out before it.
  abbrev pub Anchored : ℕ → List (EvmBlock Tx) → EvmBlock Tx → Type 0
  Anchored start earlier b = (b.header.number ≡ start) ⊎ HasParent earlier b

  -- Each block went out after its parent. The newest comes first.
  abbrev pub Ordered : ℕ → List (EvmBlock Tx) → Type 0
  Ordered start [] = Unit
  Ordered start (b ∷ earlier) = Anchored start earlier b × Ordered start earlier

  abbrev pub Delivered : ℕ → State Tx → Type 0
  Delivered start s = Ordered start s.published × All (Anchored start s.published) s.evm_blocks

  -- Besides, `base` went out before.
  abbrev pub Since : List (EvmBlock Tx) → ℕ → State Tx → Type 0
  Since base start s =
      ((fresh : List (EvmBlock Tx)) × (s.published ≡ fresh ++ base)) × Delivered start s

  HasParent-moved :
      (earlier : List (EvmBlock Tx)) (b c : EvmBlock Tx)
      → SamePlace b c
      → HasParent earlier b
      → HasParent earlier c
  HasParent-moved [] b c p h = h
  HasParent-moved (a ∷ earlier) b c p (inl (n, h)) = inl (p.same_number ∙ n, p.same_parent ∙ h)
  HasParent-moved (a ∷ earlier) b c p (inr h) = inr (HasParent-moved earlier b c p h)

  Anchored-moved :
      (start : ℕ) (earlier : List (EvmBlock Tx)) (b c : EvmBlock Tx)
      → SamePlace b c
      → Anchored start earlier b
      → Anchored start earlier c
  Anchored-moved start earlier b c p (inl h) = inl (p.same_number ∙ h)
  Anchored-moved start earlier b c p (inr h) = inr (HasParent-moved earlier b c p h)

  Anchored-Stable : (start : ℕ) (earlier : List (EvmBlock Tx)) → Stable ext (Anchored start earlier)
  unfolding set_upper_bound
  Anchored-Stable start earlier = record {
    undoable = record {
      after_pop = λ b tx rest e. still b (record b { transactions = rest }) refl refl;
      after_bound = λ nb b. still b (set_upper_bound nb b) refl refl;
    };
    after_index = λ b index. still b (record b { consensus_parameter_index = index }) refl refl;
    after_fill = λ acts b h.
        Ends-Keeps _ _ (Anchored start earlier)
          (add_transactions ext (ext.nonce_to_version b.header.nonce) acts b)
          (add_transactions-Pushed ext (ext.nonce_to_version b.header.nonce) acts b)
          (λ _ c q. Anchored-moved start earlier b c q.0 h)
          (λ _ c q. Anchored-moved start earlier b c q.1 h);
  }
    where
      still :
          (b c : EvmBlock Tx)
          → c.header.number ≡ b.header.number
          → c.header.parent_hash ≡ b.header.parent_hash
          → Anchored start earlier b
          → Anchored start earlier c
      still b c n p = Anchored-moved start earlier b c (record { same_number = n; same_parent = p })

  Anchored-later :
      (start : ℕ) (a : EvmBlock Tx) (earlier : List (EvmBlock Tx)) (b : EvmBlock Tx)
      → Anchored start earlier b
      → Anchored start (a ∷ earlier) b
  Anchored-later start a earlier b (inl h) = inl h
  Anchored-later start a earlier b (inr h) = inr (inr h)

  module _ (base : List (EvmBlock Tx)) (start : ℕ) where
    abbrev P : List (EvmBlock Tx) → EvmBlock Tx → Type 0
    P published = Anchored start published

    -- A call that publishes nothing.
    Quiet-Since :
        {A : Type 0} (m : Action (State Tx) Error A)
        → ((published : List (EvmBlock Tx))
            → Keeps (Quiet ext published (Anchored start published)) m)
        → Keeps (Since base start) m
    Quiet-Since m h s ((fresh, grown), (ordered, anchored)) =
        let (same, kept) = h s.published s (refl, anchored) in
        (
          (fresh, same ∙ grown),
          (
            subst (Ordered start) (sym same) ordered,
            subst (λ t. All (Anchored start t) (m s).1.evm_blocks) (sym same) kept,
          ),
        )

    module _ (laws : Laws ext) (config : Option ChainConfig) (bm : BlockMapping)
        (contract : ℕ) where
      publish_back-Since :
          (last : EvmBlock Tx) (older : List (EvmBlock Tx)) (s : State Tx)
          → s.evm_blocks ≡ last ∷ older
          → Since base start s
          → Since base start (publish_back ext config bm contract last older s)
      unfolding publish_back sealed_block
      publish_back-Since last older s at ((fresh, grown), (ordered, anchored)) =
          let full : EvmBlock Tx = sealed_block ext config bm contract last in
          let held : All (Anchored start s.published) (last ∷ older) =
            subst (All (Anchored start s.published)) at anchored in
          let sent : Anchored start s.published full =
            Anchored-moved start s.published last full
              (record { same_number = refl; same_parent = refl }) held.0 in
          (
            (full ∷ fresh, ap (λ t. full ∷ t) grown),
            (
              (sent, ordered),
              (
                inr (inl (new-Follows ext laws config bm contract full older)),
                (
                  Anchored-later start full s.published full sent,
                  All-map older (λ b. Anchored-later start full s.published b) held.1,
                ),
              ),
            ),
          )

    Since-Kept :
        (laws : Laws ext) (config : Option ChainConfig) (engine_open : Bool)
        → Kept ext config engine_open (Since base start)
    Since-Kept laws config engine_open = record {
      natives_apart = λ s natives h. h;
      publishes = λ bm contract. publish_back-Since laws config bm contract;
      fills = λ bm new_block.
          Quiet-Since (fill_block ext config bm engine_open new_block) (λ published.
            fill_block-Keeps ext published (Anchored start published) bm
              (Anchored-Stable start published) engine_open new_block config);
      forks = λ bm new_block. Quiet-Since (resolve_fork ext bm new_block) (λ published.
          resolve_fork-Keeps ext published (Anchored start published)
            (Anchored-Stable start published).undoable bm new_block);
    }

  -- Where each EVM block kept, and each one published, is at the height where the node has started or
  -- has its parent published before it, the same holds after the handler has run on any native block,
  -- whether it returns, throws or is undefined, and what it has published comes on top of what was
  -- published before.
  pub on_native_block-Delivered :
      (laws : Laws ext) (config : Option ChainConfig) (engine_open : Bool) (start : ℕ)
      (new_block : NativeBlock) (s : State Tx)
      → Delivered start s
      → let s' = (on_native_block ext config engine_open new_block s).1 in
        ((fresh : List (EvmBlock Tx)) × (s'.published ≡ fresh ++ s.published)) × Delivered start s'
  on_native_block-Delivered laws config engine_open start new_block s h =
      on_native_block-Keeps ext config engine_open (Since s.published start)
        (Since-Kept s.published start laws config engine_open) new_block s (([], refl), h)
