-- ===== src/Conversion/Terms/Fees.antt =====
-- The fees of the EVM blocks, over the whole handler of src/block_conversion_plugin.cpp.
use eos_evm_node.Base.{
  ℕ, ◌≡◌, refl, sym, subst, inl, inr, Bool, true, All, List, ◌∷◌, Option, is_empty,
}
use eos_evm_node.Base.Action.{Action, Keeps, Ends-Keeps}
use eos_evm_node.Channels.{NativeAction, NativeBlock}
use eos_evm_node.Evm.{EvmBlock, BlockMapping, ChainConfig}
use eos_evm_node.External.{External, VersionLaws}
use eos_evm_node.Conversion.State.{State, Error, set_upper_bound}
use eos_evm_node.Conversion.Apply.{Current, add_actions, add_transactions}
use eos_evm_node.Conversion.Apply.Settled.{Settled}
use eos_evm_node.Conversion.Apply.Uniform.{Agreed, Left, at_version, add_actions-Agreed}
use eos_evm_node.Conversion.Extend.{publish_back, sealed_block, generate_new_evm_block}
use eos_evm_node.Conversion.Fork.{resolve_fork}
use eos_evm_node.Conversion.Handler.{fill_block, on_native_block}
use eos_evm_node.Conversion.Quiet.{Stable, Quiet, fill_block-Keeps}
use eos_evm_node.Conversion.Quiet.Fork.{resolve_fork-Keeps}
use eos_evm_node.Conversion.Quiet.Handler.{Kept, on_native_block-Keeps}
use eos_evm_node.Conversion.Terms.Version.{add_actions-Keeps}

module _ {Tx : Type 0} (ext : External Tx) (laws : VersionLaws ext) where
  -- The block has no transaction, or the fees that its version calls for: a base fee from version 1 to
  -- 2, and from version 3 on the prices and the base fee calculated from them.
  abbrev pub HasTerms : EvmBlock Tx → Type 0
  HasTerms b = Settled ext (at_version ext (ext.nonce_to_version b.header.nonce) b)

  HasTerms-fill :
      (acts : List NativeAction) (b : EvmBlock Tx)
      → HasTerms b
      → HasTerms (add_transactions ext (ext.nonce_to_version b.header.nonce) acts b).1
  unfolding add_transactions
  HasTerms-fill acts b h =
      subst (λ v. Settled ext (at_version ext v c.block))
        (sym (
          add_actions-Keeps ext laws acts (at_version ext (ext.nonce_to_version b.header.nonce) b)
            refl))
        settled
    where
      c : Current Tx
      c = (add_actions ext acts (at_version ext (ext.nonce_to_version b.header.nonce) b)).1

      settled : Settled ext c
      settled =
          Ends-Keeps
            (λ _ d. Agreed ext acts (at_version ext (ext.nonce_to_version b.header.nonce) b) d)
            (λ _ d. Left ext (at_version ext (ext.nonce_to_version b.header.nonce) b) d)
            (Settled ext)
            (add_actions ext acts (at_version ext (ext.nonce_to_version b.header.nonce) b))
            (add_actions-Agreed ext acts (at_version ext (ext.nonce_to_version b.header.nonce) b) h)
            (λ _ d k. k.settled) (λ _ d k. k.0)

  HasTerms-Stable : Stable ext HasTerms
  unfolding set_upper_bound
  HasTerms-Stable = record {
    undoable = record {
      after_pop = λ b tx earlier e. popped b tx earlier e;
      after_bound = λ nb b h. h;
    };
    after_index = λ b index h. h;
    after_fill = HasTerms-fill;
  }
    where
      popped :
          (b : EvmBlock Tx) (tx : Tx) (earlier : List Tx)
          → b.transactions ≡ tx ∷ earlier
          → HasTerms b
          → HasTerms (record b { transactions = earlier })
      popped b tx earlier e (inl empty) = absurd (filled empty)
        where
          filled : is_empty b.transactions ≡ true → ⊥
          filled h = cc
      popped b tx earlier e (inr fees) = inr fees

  -- All EVM blocks kept and published.
  abbrev pub AllTerms : State Tx → Type 0
  AllTerms s = All HasTerms s.published × All HasTerms s.evm_blocks

  quiet :
      {A : Type 0} (m : Action (State Tx) Error A)
      → ((published : List (EvmBlock Tx)) → Keeps (Quiet ext published HasTerms) m)
      → Keeps AllTerms m
  quiet m h s (out, kept) =
      let (same, still) = h s.published s (refl, kept) in
      (subst (All HasTerms) (sym same) out, still)

  AllTerms-Kept :
      (config : Option ChainConfig) (engine_open : Bool) → Kept ext config engine_open AllTerms
  unfolding publish_back sealed_block generate_new_evm_block
  AllTerms-Kept config engine_open = record {
    natives_apart = λ s natives h. h;
    publishes = λ bm contract last older s at h.
        published bm contract last older s (subst (All HasTerms) at h.1) h.0;
    fills = λ bm new_block. quiet (fill_block ext config bm engine_open new_block) (λ published.
        fill_block-Keeps ext published HasTerms bm HasTerms-Stable engine_open new_block config);
    forks = λ bm new_block. quiet (resolve_fork ext bm new_block) (λ published.
        resolve_fork-Keeps ext published HasTerms HasTerms-Stable.undoable bm new_block);
  }
    where
      published :
          (bm : BlockMapping) (contract : ℕ) (last : EvmBlock Tx) (older : List (EvmBlock Tx))
          (s : State Tx)
          → All HasTerms (last ∷ older)
          → All HasTerms s.published
          → AllTerms (publish_back ext config bm contract last older s)
      published bm contract last older s (h, hs) out = ((h, out), (inl refl, (h, hs)))

  -- Where all EVM blocks kept and published have no transactions or the fees that their version calls
  -- for, the same holds after the handler has run on any native block, whether it returns, throws or
  -- is undefined.
  pub on_native_block-AllTerms :
      (config : Option ChainConfig) (engine_open : Bool) (new_block : NativeBlock) (s : State Tx)
      → AllTerms s
      → AllTerms (on_native_block ext config engine_open new_block s).1
  on_native_block-AllTerms config engine_open new_block s h =
      on_native_block-Keeps ext config engine_open AllTerms (AllTerms-Kept config engine_open)
        new_block s h
