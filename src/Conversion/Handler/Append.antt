-- ===== src/Conversion/Handler/Append.antt =====
-- Taking a linked block in, in src/block_conversion_plugin.cpp: from `push_back` to the end of the
-- handler the two chains stay together, and no container is read where it is empty.
use mathlib.Core.Option.{some-ne-none}
use eos_evm_node.Base.{
  ℕ, ◌≤◌, ◌≡◌, refl, sym, ap, subst, ◌∙◌, ◌⊎◌, inl, inr, Bool, true, All, List, ◌∷◌, ◌++◌, Option,
  none, some, arith,
}
use eos_evm_node.Base.Action.{Action, Outcome, Ends, >>=-Ends, >>=-ok, ◌>>◌, ◌>>=◌, gets, modify}
use eos_evm_node.Channels.{NativeAction, NativeBlock, actions_of}
use eos_evm_node.Evm.{EvmBlock, BlockMapping, ChainConfig}
use eos_evm_node.External.{External, Laws}
use eos_evm_node.Conversion.State.{State, Error, FromInput, on_back, set_upper_bound}
use eos_evm_node.Conversion.Content.{num}
use eos_evm_node.Conversion.Invariant.{IsValid, NativeChain, Distinct, Rising, Removable}
use eos_evm_node.Conversion.Extend.{extend}
use eos_evm_node.Conversion.Extend.Chain.{Extended, extend-Extended}
use eos_evm_node.Conversion.Apply.{apply_config, add_transactions}
use eos_evm_node.Conversion.Prune.{prune}
use eos_evm_node.Conversion.Prune.Bounds.{prune-Cut}
use eos_evm_node.Conversion.Handler.{fill_block, append_block}
use eos_evm_node.Conversion.Handler.Ready.{
  Incoming, Ready, Stays, on_back-Ready, SamePlace-refl, apply_new_config-Stays,
  add_transactions-Ready, fresh_heights,
}

-- The database transaction is open, or the block carries no configuration.
abbrev pub CanConfigure : Bool → NativeBlock → Type 0
CanConfigure engine_open nb = (engine_open ≡ true) ⊎ (nb.new_config ≡ none)

module _ {Tx : Type 0} (ext : External Tx) (bm : BlockMapping) where
  -- The two chains of the state belong together, and the block is the newest native block.
  pub record Stands (newest : NativeBlock) (s : State Tx) : Type 0 where
    pub older : List NativeBlock
    pub back : EvmBlock Tx
    pub rest : List (EvmBlock Tx)
    pub mapped : s.bm ≡ some bm
    pub en : s.native_blocks ≡ newest ∷ older
    pub ee : s.evm_blocks ≡ back ∷ rest
    pub valid : IsValid ext bm (newest ∷ older) (back ∷ rest)

  -- In addition, the last EVM block is the one of this native block.
  pub record Took (new_block : NativeBlock) (s : State Tx) : Type 0 where
    pub older : List NativeBlock
    pub back : EvmBlock Tx
    pub rest : List (EvmBlock Tx)
    pub mapped : s.bm ≡ some bm
    pub en : s.native_blocks ≡ new_block ∷ older
    pub ee : s.evm_blocks ≡ back ∷ rest
    pub same_height : num ext bm new_block ≡ back.header.number
    pub valid : IsValid ext bm (new_block ∷ older) (back ∷ rest)

  abbrev pub Took-Stands : (nb : NativeBlock) (s : State Tx) → Took nb s → Stands nb s
  Took-Stands nb s t = record {
    older = t.older;
    back = t.back;
    rest = t.rest;
    mapped = t.mapped;
    en = t.en;
    ee = t.ee;
    valid = t.valid;
  }

  abbrev pub Takes : NativeBlock → Outcome Error (Unit {0}) × State Tx → Type 0
  Takes new_block = Ends (λ _ s. Took new_block s) (λ e _. FromInput e) ⊥

module _ {Tx : Type 0} (ext : External Tx) (laws : Laws ext) (config : Option ChainConfig)
    (bm : BlockMapping) (engine_open : Bool) where
  module _ (new_block : NativeBlock) (natives : List NativeBlock)
      (can : CanConfigure engine_open new_block) (incoming : Incoming ext bm new_block natives)
      (nc : NativeChain natives) (dis : Distinct natives) (ris : Rising ext bm natives)
      (pos : All (λ m. 1 ≤ num ext bm m) natives) (rem : All (Removable ext bm) natives) where
    apply_config-Stays :
        (s : State Tx)
        → Ready ext bm new_block natives natives s
        → Stays ext bm new_block natives natives
            (apply_config ext engine_open new_block.new_config s)
    unfolding apply_config
    apply_config-Stays s r = cases new_block.new_config can
      where
        cases :
            (c : Option NativeAction)
            → (engine_open ≡ true) ⊎ (c ≡ none)
            → Stays ext bm new_block natives natives (apply_config ext engine_open c s)
        cases none h = r
        cases (some act) (inl open_now) =
            rw open_now (apply_new_config-Stays ext bm new_block natives natives act s r)
        cases (some act) (inr absent) = absurd (some-ne-none act absent)

    Ready-IsValid :
        (s : State Tx)
        → (r : Ready ext bm new_block natives (new_block ∷ natives) s)
        → IsValid ext bm (new_block ∷ natives) (r.tip ∷ r.low)
    Ready-IsValid s r = record {
      native_chain = (incoming.linked, nc);
      distinct = (incoming.new_id, dis);
      rising = (incoming.later, ris);
      positive = (incoming.after_genesis, pos);
      removable = (incoming.removable, rem);
      evm_chain = r.chain;
      tip = inl r.same;
      covers = r.covers;
      built = r.built;
    }

    prune-Takes :
        (s : State Tx)
        → Ready ext bm new_block natives (new_block ∷ natives) s
        → Takes ext bm new_block (prune ext bm new_block.lib s)
    prune-Takes s r =
        let (kept, evm, k, run, valid, cut) =
          prune-Cut ext laws bm new_block.lib new_block natives r.tip r.low s r.en r.ee
            (Ready-IsValid s r) r.same in
        subst (Takes ext bm new_block) (sym run) (record {
          older = kept;
          back = r.tip;
          rest = evm;
          mapped = r.mapped;
          en = refl;
          ee = refl;
          same_height = r.same;
          valid = valid;
        })

    set_upper_bound-Stays :
        (s : State Tx)
        → Ready ext bm new_block natives (new_block ∷ natives) s
        → Stays ext bm new_block natives
            (new_block ∷ natives)
            (on_back (modify (set_upper_bound new_block)) s)
    unfolding set_upper_bound
    set_upper_bound-Stays s r =
        on_back-Ready ext bm new_block natives (modify (set_upper_bound new_block))
          (new_block ∷ natives) (new_block ∷ natives) s r
          (record { same_number = refl; same_parent = refl }, r.built)

    then_ :
        {A : Type 0} (m : Action (State Tx) Error A) (f : A → Action (State Tx) Error (Unit {0}))
        (s : State Tx) (Q : State Tx → Type 0)
        → Ends (λ _ s. Q s) (λ e _. FromInput e) ⊥ (m s)
        → ((a : A) (s' : State Tx) → Q s' → Takes ext bm new_block (f a s'))
        → Takes ext bm new_block ((m >>= f) s)
    then_ m f s Q h k =
        >>=-Ends (λ _ s. Q s) (λ _ s. Took ext bm new_block s) (λ e _. FromInput e) ⊥ f m s h k

    -- The calls of `fill_block`, and what is left to do after each.
    abbrev read_version : Action (State Tx) Error ℕ
    read_version = on_back (gets (λ b. ext.nonce_to_version b.header.nonce))

    abbrev configure : Action (State Tx) Error (Unit {0})
    configure = apply_config ext engine_open new_block.new_config

    abbrev transact : ℕ → Action (State Tx) Error (Unit {0})
    transact version = on_back (add_transactions ext version (actions_of new_block.transactions))

    abbrev bound : Action (State Tx) Error (Unit {0})
    bound = on_back (modify (set_upper_bound new_block))

    abbrev drop : Action (State Tx) Error (Unit {0})
    drop = prune ext bm new_block.lib

    -- Each call starts from what the one before has left.
    fill_block-Takes :
        (s : State Tx)
        → Ready ext bm new_block natives natives s
        → Takes ext bm new_block (fill_block ext config bm engine_open new_block s)
    unfolding fill_block
    fill_block-Takes s r =
        then_ read_version (λ v. configure >> (transact v >> (bound >> drop))) s
          (Ready ext bm new_block natives natives)
          (on_back-Ready ext bm new_block natives
            (gets (λ (b : EvmBlock Tx). ext.nonce_to_version b.header.nonce)) natives natives s r
            (SamePlace-refl ext bm new_block natives r.tip, r.built))
          λ version s r.
            then_ configure (λ _. transact version >> (bound >> drop)) s
              (Ready ext bm new_block natives natives) (apply_config-Stays s r)
              λ _ s r.
                then_ (transact version) (λ _. bound >> drop) s
                  (Ready ext bm new_block natives (new_block ∷ natives))
                  (add_transactions-Ready ext bm new_block natives version s r)
                  λ _ s r.
                    then_ bound (λ _. drop) s (Ready ext bm new_block natives (new_block ∷ natives))
                      (set_upper_bound-Stays s r) λ _ s r. prune-Takes s r

  -- A linked block, from the state that the handler finds on.
  module _ (new_block nb : NativeBlock) (older : List NativeBlock) (b : EvmBlock Tx)
      (rest : List (EvmBlock Tx)) (can : CanConfigure engine_open new_block)
      (incoming : Incoming ext bm new_block (nb ∷ older))
      (v : IsValid ext bm (nb ∷ older) (b ∷ rest)) where
    not_above : b.header.number ≤ num ext bm new_block
    not_above = elim v.tip [
      | inl same ↦ omega (arith, incoming.later.0)
      | inr single ↦ omega (arith, incoming.later.0, single.2)
    ]

    -- What the loop leaves is ready for the rest of the handler.
    Extended-Ready :
        (s s' : State Tx)
        → s.bm ≡ some bm
        → s.native_blocks ≡ new_block ∷ nb ∷ older
        → Extended ext laws config bm s.evm_contract_name (num ext bm new_block) b rest s s'
        → Ready ext bm new_block (nb ∷ older) (nb ∷ older) s'
    Extended-Ready s s' mapped en e = record {
      tip = e.tip;
      low = e.added ++ rest;
      mapped = ap (λ (t : State Tx). t.bm) e.others ∙ mapped;
      en = ap (λ (t : State Tx). t.native_blocks) e.others ∙ en;
      ee = e.blocks;
      same = omega (arith, e.height, e.rounds, not_above);
      chain = e.chained;
      covers =
          subst (λ k. All (λ m. k ≤ num ext bm m) (new_block ∷ nb ∷ older)) (sym e.oldest)
            (omega (arith, v.covers.0, incoming.later.0), v.covers);
      built = e.content (nb ∷ older) (fresh_heights ext bm nb older b rest v) v.built;
    }

    pub append_block-Takes :
        (s : State Tx)
        → s.bm ≡ some bm
        → s.native_blocks ≡ nb ∷ older
        → s.evm_blocks ≡ b ∷ rest
        → Takes ext bm new_block (append_block ext config bm engine_open new_block s)
    unfolding append_block
    append_block-Takes s mapped en ee =
        let pushed : State Tx = record s { native_blocks = new_block ∷ s.native_blocks } in
        let (s', run, e) =
          extend-Extended ext laws config bm s.evm_contract_name (num ext bm new_block) b rest
            pushed ee v.evm_chain in
        subst (Takes ext bm new_block)
          (sym (
            >>=-ok (extend ext config bm s.evm_contract_name (num ext bm new_block))
              (λ _. fill_block ext config bm engine_open new_block) pushed run))
          (fill_block-Takes new_block (nb ∷ older) can incoming v.native_chain v.distinct v.rising
            v.positive v.removable s'
            (Extended-Ready pushed s' mapped (ap (λ t. new_block ∷ t) en) e))
