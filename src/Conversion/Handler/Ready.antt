-- ===== src/Conversion/Handler/Ready.antt =====
-- The state while a linked block is taken in, in src/block_conversion_plugin.cpp: what the calls on the last EVM
-- block keep of it.
use eos_evm_node.Base.{
  ℕ, ◌≤◌, ◌<◌, ◌≡◌, ◌≢◌, refl, sym, subst, ◌∙◌, inl, inr, Bool, true, false, not, is_empty, All,
  All-map, List, [], ◌∷◌, some, arith,
}
use eos_evm_node.Base.Action.{
  Outcome, Action, Ends, Ends-mono, Ends-map, >>=-Ends, ◌>>◌, ◌>>=◌, gets, modify, raise_if,
  of_outcome,
}
use eos_evm_node.Channels.{NativeAction, NativeBlock, actions_of}
use eos_evm_node.Evm.{EvmBlock, BlockMapping, ConsensusParameters}
use eos_evm_node.External.{External}
use eos_evm_node.Conversion.State.{
  State, Error, FromInput, on_back, on_back_of, config_in_the_middle, deserialize_config,
  deserialize_config-cases,
}
use eos_evm_node.Conversion.Content.{num, Built, Built-elsewhere, Pushed}
use eos_evm_node.Conversion.Invariant.{
  IsValid, AllBuilt, EvmChain, EvmChain-below, EvmChain-replace, oldest_replace, Linked, Removable,
  oldest_number,
}
use eos_evm_node.Conversion.Apply.{
  apply_new_config, write_config, update_parameters, to_consensus_parameters, add_transactions,
}
use eos_evm_node.Conversion.Apply.Frame.{SamePlace, add_transactions-Pushed}

module _ {Tx : Type 0} (ext : External Tx) (bm : BlockMapping) where
  -- No native block has anything for a height above the last EVM block.
  pub fresh_heights :
      (nb : NativeBlock) (older : List NativeBlock) (b : EvmBlock Tx) (rest : List (EvmBlock Tx))
      → IsValid ext bm (nb ∷ older) (b ∷ rest)
      → (k : ℕ) → b.header.number < k
      → Built ext bm k (nb ∷ older) []
  fresh_heights nb older b rest v k above = elim v.tip [
    | inl same ↦
        Built-elsewhere ext bm k (nb ∷ older) []
          (λ e. omega arith, All-map older (λ m h e. omega arith) v.rising.0)
    | inr (single, idle, low) ↦
        ([], (λ _. rw idle refl), (λ _. refl), subst (λ t. Built ext bm k t []) (sym single) tt)
  ]

  -- What a received block must be like where it is linked to the last one: its id is new, and its
  -- time not before that of the block it follows.
  pub record Incoming (new_block : NativeBlock) (natives : List NativeBlock) : Type 0 where
    pub linked : Linked new_block natives
    pub new_id : All (λ m. m.id ≢ new_block.id) natives
    pub later : All (λ m. num ext bm m ≤ num ext bm new_block) natives
    pub after_genesis : 1 ≤ num ext bm new_block
    pub removable : Removable ext bm new_block

  module _ (new_block : NativeBlock) (natives : List NativeBlock) where
    -- The state while the block is taken in: its EVM block is the last one, and holds what the
    -- native blocks of `content` put there.
    pub record Ready (content : List NativeBlock) (s : State Tx) : Type 0 where
      pub tip : EvmBlock Tx
      pub low : List (EvmBlock Tx)
      pub mapped : s.bm ≡ some bm
      pub en : s.native_blocks ≡ new_block ∷ natives
      pub ee : s.evm_blocks ≡ tip ∷ low
      pub same : num ext bm new_block ≡ tip.header.number
      pub chain : EvmChain ext (tip ∷ low)
      pub covers : All (λ m. oldest_number tip low ≤ num ext bm m) (new_block ∷ natives)
      pub built : AllBuilt ext bm content (tip ∷ low)

    -- A call on the last EVM block that keeps its place in the chain.
    pub on_back-Ready :
        {A : Type 0} (m : Action (EvmBlock Tx) Error A) (content content' : List NativeBlock)
        (s : State Tx)
        → (r : Ready content s)
        → Ends
            (λ _ t. SamePlace r.tip t × AllBuilt ext bm content' (t ∷ r.low))
            (λ e _. FromInput e)
            ⊥
            (m r.tip)
        → Ends (λ _ s'. Ready content' s') (λ e _. FromInput e) ⊥ (on_back m s)
    on_back-Ready m content content' s r h =
        subst (λ t. Ends (λ _ s'. Ready content' s') (λ e _. FromInput e) ⊥ (on_back_of m s t))
          (sym r.ee)
          (Ends-map (λ t. record s { evm_blocks = t ∷ r.low }) (λ _ s'. Ready content' s')
            (λ e _. FromInput e) ⊥ (m r.tip)
            (Ends-mono _ _ _ _ ⊥ (m r.tip) h
              (λ _ t k. record {
                tip = t;
                low = r.low;
                mapped = r.mapped;
                en = r.en;
                ee = refl;
                same = r.same ∙ sym k.0.same_number;
                chain = EvmChain-replace ext r.tip t r.low k.0.same_number k.0.same_parent r.chain;
                covers =
                    All-map (new_block ∷ natives)
                      (λ m. oldest_replace r.tip t r.low k.0.same_number _) r.covers;
                built = k.1;
              })
              (λ _ _ k. k)))

    abbrev pub Stays : List NativeBlock → Outcome Error (Unit {0}) × State Tx → Type 0
    Stays content = Ends (λ _ s. Ready content s) (λ e _. FromInput e) ⊥

    pub SamePlace-refl : (b : EvmBlock Tx) → SamePlace b b
    SamePlace-refl b = record { same_number = refl; same_parent = refl }

    -- The second half of the configuration's branch, with an open database transaction.
    write_config-Stays :
        (content : List NativeBlock) (params : ConsensusParameters) (s : State Tx)
        → Ready content s
        → Stays content (write_config ext true params s)
    unfolding write_config
    write_config-Stays content params s r =
        >>=-Ends (λ _ s'. Ready content s') (λ _ s'. Ready content s') (λ e _. FromInput e) ⊥
          (λ _. update_parameters ext true params)
          (on_back (
            modify (λ (b : EvmBlock Tx). record b {
              consensus_parameter_index = some (ext.consensus_hash params);
            })))
          s
          (on_back-Ready
            (modify (λ (b : EvmBlock Tx). record b {
              consensus_parameter_index = some (ext.consensus_hash params);
            }))
            content content s r (record { same_number = refl; same_parent = refl }, r.built))
          λ _ t q. record {
            tip = q.tip;
            low = q.low;
            mapped = q.mapped;
            en = q.en;
            ee = q.ee;
            same = q.same;
            chain = q.chain;
            covers = q.covers;
            built = q.built;
          }

    pub apply_new_config-Stays :
        (content : List NativeBlock) (act : NativeAction) (s : State Tx)
        → Ready content s
        → Stays content (apply_new_config ext true act s)
    unfolding apply_new_config
    apply_new_config-Stays content act s r =
        >>=-Ends (λ _ s'. Ready content s') (λ _ s'. Ready content s') (λ e _. FromInput e) ⊥
          (λ used.
            raise_if used config_in_the_middle
            >> (of_outcome (deserialize_config ext act) >>= λ c.
                write_config ext true (to_consensus_parameters c)))
          (on_back (gets (λ b. not (is_empty b.transactions)))) s
          (on_back-Ready (gets (λ (b : EvmBlock Tx). not (is_empty b.transactions))) content content
            s r (SamePlace-refl r.tip, r.built))
          λ used t q. after_test used t q
      where
        after_test :
            (used : Bool) (t : State Tx)
            → Ready content t
            → Ends
                (λ _ s'. Ready content s')
                (λ e _. FromInput e)
                ⊥
                ((raise_if used config_in_the_middle
                    >> (of_outcome (deserialize_config ext act) >>= λ c.
                        write_config ext true (to_consensus_parameters c)))
                  t)
        after_test true t q = tt
        after_test false t q = elim (deserialize_config-cases ext act) [
          | inl (c, good) ↦ rw good (write_config-Stays content (to_consensus_parameters c) t q)
          | inr bad ↦ rw bad tt
        ]

    -- The transactions come on top of those of the native blocks before.
    built_after :
        (b t : EvmBlock Tx) (low : List (EvmBlock Tx))
        → num ext bm new_block ≡ b.header.number
        → EvmChain ext (b ∷ low)
        → AllBuilt ext bm natives (b ∷ low)
        → SamePlace b t
        → Pushed ext (actions_of new_block.transactions) b.transactions t.transactions
        → AllBuilt ext bm (new_block ∷ natives) (t ∷ low)
    built_after b t low same chain built place pushed = (
      (
        b.transactions,
        (λ _. pushed),
        (λ apart. absurd (apart (same ∙ sym place.same_number))),
        subst (λ k. Built ext bm k natives b.transactions) (sym place.same_number) built.0,
      ),
      built_below low (EvmChain-below ext b.header.number b low chain (omega arith)) built.1,
    )
      where
        built_below :
            (low : List (EvmBlock Tx))
            → All (λ a. a.header.number < b.header.number) low
            → AllBuilt ext bm natives low
            → AllBuilt ext bm (new_block ∷ natives) low
        built_below [] below h = tt
        built_below (a ∷ low) below h = (
          (a.transactions, (λ e. absurd (omega (arith, below.0))), (λ _. refl), h.0),
          built_below low below.1 h.1,
        )

    pub add_transactions-Ready :
        (version : ℕ) (s : State Tx)
        → Ready natives s
        → Stays
            (new_block ∷ natives)
            (on_back (add_transactions ext version (actions_of new_block.transactions)) s)
    add_transactions-Ready version s r =
        on_back-Ready (add_transactions ext version (actions_of new_block.transactions)) natives
          (new_block ∷ natives) s r
          (Ends-mono _ _ _ _ ⊥
            (add_transactions ext version (actions_of new_block.transactions) r.tip)
            (add_transactions-Pushed ext version (actions_of new_block.transactions) r.tip)
            (λ _ t k. (k.0, built_after r.tip t r.low r.same r.chain r.built k.0 k.1))
            (λ _ _ k. k.0))
