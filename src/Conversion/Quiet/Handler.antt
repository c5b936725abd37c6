-- ===== src/Conversion/Quiet/Handler.antt =====
-- The handler of src/block_conversion_plugin.cpp keeps what each of its parts keeps.
use eos_evm_node.Base.{
  ℕ, zero, suc, ◌≡◌, refl, inl, inr, Bool, true, Bool-cases, List, [], ◌∷◌, Option, none, some, ltb,
  leb, if◌then◌else◌,
}
use eos_evm_node.Base.Action.{Action, Keeps, >>=-Keeps, if-Keeps, ◌>>=◌, modify, pure, or_raise}
use eos_evm_node.Channels.{NativeBlock}
use eos_evm_node.Evm.{EvmBlock, BlockMapping, ChainConfig}
use eos_evm_node.External.{External}
use eos_evm_node.Conversion.State.{State, Error, bad_optional_access, timestamp_to_evm_block_num}
use eos_evm_node.Conversion.Fork.{resolve_fork}
use eos_evm_node.Conversion.Extend.{extend, extend_loop, publish_back}
use eos_evm_node.Conversion.Handler.{
  is_unlinked, link, fill_block, append_block, on_mapped_block, on_native_block,
}

module _ {Tx : Type 0} (ext : External Tx) (config : Option ChainConfig) (engine_open : Bool) where
  -- What the parts of the handler keep.
  pub record Kept (R : State Tx → Type 0) : Type 0 where
    pub natives_apart :
        (s : State Tx) (natives : List NativeBlock) → R s → R (record s { native_blocks = natives })
    pub publishes :
        (bm : BlockMapping) (contract : ℕ) (last : EvmBlock Tx) (older : List (EvmBlock Tx))
        (s : State Tx)
        → s.evm_blocks ≡ last ∷ older
        → R s
        → R (publish_back ext config bm contract last older s)
    pub fills :
        (bm : BlockMapping) (new_block : NativeBlock)
        → Keeps R (fill_block ext config bm engine_open new_block)
    pub forks :
        (bm : BlockMapping) (new_block : NativeBlock) → Keeps R (resolve_fork ext bm new_block)

  module _ (R : State Tx → Type 0) (kept : Kept R) where
    module _ (bm : BlockMapping) (contract : ℕ) where
      extend_loop-Keeps :
          (fuel evm_num : ℕ) (s : State Tx) (blocks : List (EvmBlock Tx))
          → s.evm_blocks ≡ blocks
          → R s
          → R (extend_loop ext config bm contract fuel evm_num blocks s).1
      unfolding extend_loop
      extend_loop-Keeps fuel evm_num s [] at h = h
      extend_loop-Keeps zero evm_num s (last ∷ older) at h = h
      extend_loop-Keeps (suc fuel) evm_num s (last ∷ older) at h =
          elim (Bool-cases (ltb last.header.number evm_num)) [
            | inl more ↦
                rw (more, extend_loop)
                  (extend_loop-Keeps fuel evm_num (publish_back ext config bm contract last older s)
                    ((publish_back ext config bm contract last older s).evm_blocks) refl
                    (kept.publishes bm contract last older s at h))
            | inr done ↦ rw (done, extend_loop) h
          ]

      extend-Keeps : (evm_num : ℕ) → Keeps R (extend ext config bm contract evm_num)
      unfolding extend
      extend-Keeps evm_num s h = extend_loop-Keeps (suc evm_num) evm_num s s.evm_blocks refl h

    module _ (bm : BlockMapping) where
      append_block-Keeps :
          (new_block : NativeBlock) → Keeps R (append_block ext config bm engine_open new_block)
      unfolding append_block
      append_block-Keeps new_block s h =
          >>=-Keeps R (λ _. fill_block ext config bm engine_open new_block)
            (λ _. kept.fills bm new_block)
            (extend ext config bm s.evm_contract_name
              (timestamp_to_evm_block_num ext bm new_block.timestamp))
            (extend-Keeps bm s.evm_contract_name
              (timestamp_to_evm_block_num ext bm new_block.timestamp))
            (record s { native_blocks = new_block ∷ s.native_blocks })
            (kept.natives_apart s (new_block ∷ s.native_blocks) h)

      link-Keeps : (new_block : NativeBlock) → Keeps R (link ext config bm engine_open new_block)
      unfolding link
      link-Keeps new_block s h =
          if-Keeps R (is_unlinked new_block s.native_blocks) (resolve_fork ext bm new_block)
            (pure true) (kept.forks bm new_block) (λ s h. h) s h

      abbrev go_on : NativeBlock → Bool → Action (State Tx) Error (Unit {0})
      go_on new_block goes_on =
          if goes_on then append_block ext config bm engine_open new_block else pure tt

      on_mapped_block-Keeps :
          (new_block : NativeBlock) → Keeps R (on_mapped_block ext config bm engine_open new_block)
      unfolding on_mapped_block
      on_mapped_block-Keeps new_block =
          if-Keeps R (leb new_block.timestamp bm.genesis_timestamp)
            (modify (λ s. record s { native_blocks = new_block ∷ [] }))
            (link ext config bm engine_open new_block >>= go_on new_block)
            (λ s. kept.natives_apart s (new_block ∷ []))
            (>>=-Keeps R (go_on new_block)
              (λ goes_on.
                if-Keeps R goes_on (append_block ext config bm engine_open new_block) (pure tt)
                  (append_block-Keeps new_block) (λ s h. h))
              (link ext config bm engine_open new_block) (link-Keeps new_block))

    pub on_native_block-Keeps :
        (new_block : NativeBlock) → Keeps R (on_native_block ext config engine_open new_block)
    unfolding on_native_block
    on_native_block-Keeps new_block =
        >>=-Keeps R (λ bm. on_mapped_block ext config bm engine_open new_block)
          (λ bm. on_mapped_block-Keeps bm new_block) (λ u. or_raise u.bm bad_optional_access u)
          λ u k. mapped u k u.bm
      where
        mapped :
            (u : State Tx)
            → R u
            → (o : Option BlockMapping) → R (or_raise {E = Error} o bad_optional_access u).1
        mapped u k none = k
        mapped u k (some bm) = k
