-- ===== src/Conversion/Quiet.antt =====
-- The parts of the handler in src/block_conversion_plugin.cpp that publish nothing, and what they
-- leave true of the EVM blocks whether they return or throw.
pub mod Fork
pub mod Handler
use eos_evm_node.Base.{
  ℕ, ◌≡◌, refl, sym, subst, Bool, true, false, not, Bool-cases, Option-cases, inl, inr, All,
  All-reverse, List, [], ◌∷◌, Option, none, some, reverse, is_empty, ◌==◌,
}
use mathlib.Core.Option.{some-injective}
use eos_evm_node.Base.Action.{
  Action, Keeps, >>=-Keeps, Leads, >>=-Leads, Ends-Keeps, ◌>>=◌, ◌>>◌, gets, modify, raise_if,
  of_outcome,
}
use eos_evm_node.Channels.{NativeAction, NativeBlock, actions_of}
use eos_evm_node.Evm.{EvmBlock, EvmtxType, BlockMapping, ChainConfig, ConsensusParameters, rlpx_of}
use eos_evm_node.External.{External}
use eos_evm_node.Conversion.State.{
  State, Error, config_in_the_middle, on_back, on_back_of, set_upper_bound, deserialize_tx,
  deserialize_config,
}
use eos_evm_node.Conversion.Fork.{pop_matching, remove_action, remove_actions}
use eos_evm_node.Conversion.Apply.{
  add_transactions, update_parameters, write_config, apply_new_config, apply_config,
  to_consensus_parameters,
}
use eos_evm_node.Conversion.Apply.Frame.{SamePlace, add_transactions-Pushed}
use eos_evm_node.Conversion.Prune.{
  prune, last_irreversible, drop_irreversible, drop_oldest_while, pop_front_while, evm_below,
  native_below, evm_lib_at,
}
use eos_evm_node.Conversion.Handler.{fill_block}

pop_front_while-All :
    {A : Type 0} (P : A → Type 0) (p : A → Bool) (xs : List A) {ys : List A}
    → All P xs
    → pop_front_while p xs ≡ some ys
    → All P ys
unfolding pop_front_while
pop_front_while-All P p [] h e = cc
pop_front_while-All P p (x ∷ xs) {ys} h e = elim (Bool-cases (p x)) [
  | inl more ↦ pop_front_while-All P p xs h.1 (rw more at e)
  | inr done ↦ subst (All P) (some-injective (x ∷ xs) ys (rw done at e)) h
]

-- `P` survives what the fork branch does to a block that it keeps.
pub record Undoable {Tx : Type 0} (P : EvmBlock Tx → Type 0) : Type 0 where
  pub after_pop :
      (b : EvmBlock Tx) (tx : Tx) (earlier : List Tx)
      → b.transactions ≡ tx ∷ earlier
      → P b
      → P (record b { transactions = earlier })
  pub after_bound : (nb : NativeBlock) (b : EvmBlock Tx) → P b → P (set_upper_bound nb b)

-- `P` survives all that the handler does to a block that it does not publish.
pub record Stable {Tx : Type 0} (ext : External Tx) (P : EvmBlock Tx → Type 0) : Type 0 where
  pub undoable : Undoable P
  pub after_index :
      (b : EvmBlock Tx) (index : Option ℕ)
      → P b
      → P (record b { consensus_parameter_index = index })
  pub after_fill :
      (acts : List NativeAction) (b : EvmBlock Tx)
      → P b
      → P (add_transactions ext (ext.nonce_to_version b.header.nonce) acts b).1

module _ {Tx : Type 0} (ext : External Tx) (published : List (EvmBlock Tx))
    (P : EvmBlock Tx → Type 0) where
  -- Nothing is published, and every EVM block satisfies the predicate.
  abbrev pub Quiet : State Tx → Type 0
  Quiet s = (s.published ≡ published) × All P s.evm_blocks

  drop_oldest_while-All :
      (p : EvmBlock Tx → Bool) (xs : List (EvmBlock Tx)) {ys : List (EvmBlock Tx)}
      → All P xs
      → drop_oldest_while p xs ≡ some ys
      → All P ys
  unfolding drop_oldest_while
  drop_oldest_while-All p xs {ys} h e = elim (Option-cases (pop_front_while p (reverse xs))) [
    | inl none_left ↦ absurd (cc (rw none_left at e))
    | inr (zs, run) ↦
        subst (All P) (some-injective (reverse zs) ys (rw run at e))
          (All-reverse P zs (pop_front_while-All P p (reverse xs) (All-reverse P xs h) run))
  ]

  pub on_back-Keeps :
      {A : Type 0} (m : Action (EvmBlock Tx) Error A) → Keeps P m → Keeps Quiet (on_back m)
  on_back-Keeps m h s q = on_head s.evm_blocks q.1
    where
      on_head : (blocks : List (EvmBlock Tx)) → All P blocks → Quiet (on_back_of m s blocks).1
      on_head [] k = q
      on_head (b ∷ older) k = (q.0, (h b k.0, k.1))

  module _ (undoable : Undoable P) where
    remove_action-Keeps : (act : NativeAction) → Keeps P (remove_action ext act)
    unfolding remove_action
    remove_action-Keeps act =
        >>=-Keeps P (λ dtx b. pop_matching ext dtx b b.transactions)
          (λ dtx b h. popped dtx b h b.transactions refl) (of_outcome (deserialize_tx ext act))
          (λ b h. h)
      where
        popped :
            (dtx : EvmtxType) (b : EvmBlock Tx)
            → P b
            → (txs : List Tx) → b.transactions ≡ txs
            → P (pop_matching ext dtx b txs).1
        popped dtx b h [] e = h
        popped dtx b h (tx ∷ earlier) e =
            elim (Bool-cases (ext.keccak256 (rlpx_of dtx) == ext.keccak256 (ext.encode_tx tx))) [
              | inl equal ↦ rw equal (undoable.after_pop b tx earlier e h)
              | inr other ↦ rw other h
            ]

    pub remove_actions-Keeps : (acts : List NativeAction) → Keeps P (remove_actions ext acts)
    unfolding remove_actions
    remove_actions-Keeps [] b h = h
    remove_actions-Keeps (act ∷ acts) b h =
        >>=-Keeps P (λ _. remove_actions ext acts) (λ _. remove_actions-Keeps acts)
          (remove_action ext act) (remove_action-Keeps act) b h

    pub set_upper_bound-Keeps :
        (nb : NativeBlock) → Keeps {E = Error} P (modify (set_upper_bound nb))
    set_upper_bound-Keeps nb b = undoable.after_bound nb b

  -- The last block satisfies more than the others.
  abbrev Held : (EvmBlock Tx → Type 0) → List (EvmBlock Tx) → Type 0
  Held H [] = Unit
  Held H (b ∷ older) = H b × All P older

  abbrev QuietAt : (EvmBlock Tx → Type 0) → State Tx → Type 0
  QuietAt H s = (s.published ≡ published) × Held H s.evm_blocks

  on_back-Leads :
      {A : Type 0} (H K : EvmBlock Tx → Type 0) (m : Action (EvmBlock Tx) Error A)
      → Leads H K m
      → Leads (QuietAt H) (QuietAt K) (on_back m)
  on_back-Leads H K m h s q = on_head s.evm_blocks refl q.1
    where
      on_head :
          (blocks : List (EvmBlock Tx))
          → s.evm_blocks ≡ blocks
          → Held H blocks
          → QuietAt K (on_back_of m s blocks).1
      on_head [] e k = (q.0, subst (Held K) (sym e) tt)
      on_head (b ∷ older) e k = (q.0, (h b k.0, k.1))

  Held-All : (blocks : List (EvmBlock Tx)) → Held P blocks → All P blocks
  Held-All [] h = tt
  Held-All (b ∷ older) h = h

  apply_config-Keeps :
      (H : EvmBlock Tx → Type 0)
      → ((b : EvmBlock Tx) (index : Option ℕ)
          → H b
          → H (record b { consensus_parameter_index = index }))
      → (engine_open : Bool) (config : Option NativeAction)
      → Keeps (QuietAt H) (apply_config ext engine_open config)
  unfolding apply_config apply_new_config write_config
  apply_config-Keeps H indexed engine_open none s q = q
  apply_config-Keeps H indexed engine_open (some act) s q =
      >>=-Keeps (QuietAt H)
        (λ used.
          raise_if used config_in_the_middle
          >> (of_outcome (deserialize_config ext act) >>= λ c.
              write_config ext engine_open (to_consensus_parameters c)))
        (λ used.
          >>=-Keeps (QuietAt H)
            (λ _. of_outcome (deserialize_config ext act) >>= λ c.
              write_config ext engine_open (to_consensus_parameters c))
            (λ _.
              >>=-Keeps (QuietAt H) (λ c. write_config ext engine_open (to_consensus_parameters c))
                (λ c. written (to_consensus_parameters c)) (of_outcome (deserialize_config ext act))
                (λ s q. q))
            (raise_if used config_in_the_middle) (λ s q. q))
        (on_back (gets (λ b. not (is_empty b.transactions)))) (on_back-Leads H H _ (λ b h. h)) s q
    where
      parameters :
          (engine_open : Bool) (params : ConsensusParameters)
          → Keeps (QuietAt H) (update_parameters ext engine_open params)
      parameters true params s q = q
      parameters false params s q = q

      written :
          (params : ConsensusParameters) → Keeps (QuietAt H) (write_config ext engine_open params)
      written params =
          >>=-Keeps (QuietAt H) (λ _. update_parameters ext engine_open params)
            (λ _. parameters engine_open params)
            (on_back (
              modify (λ (b : EvmBlock Tx). record b {
                consensus_parameter_index = some (ext.consensus_hash params);
              })))
            (on_back-Leads H H _ (λ b. indexed b (some (ext.consensus_hash params))))

  module _ (bm : BlockMapping) where
    prune-Keeps : (lib : ℕ) → Keeps Quiet (prune ext bm lib)
    unfolding prune drop_irreversible
    prune-Keeps lib s q = elim (Option-cases (last_irreversible lib (reverse s.native_blocks))) [
      | inl none_yet ↦ rw (none_yet, prune) q
      | inr (nb, found) ↦ rw (found, prune) (dropped (evm_lib_at ext bm nb.timestamp))
    ]
      where
        dropped : (k : ℕ) → Quiet (drop_irreversible ext bm k s).1
        dropped k =
            elim (Option-cases (drop_oldest_while (native_below ext bm k) s.native_blocks)) [
              | inl empty ↦ rw (empty, drop_irreversible) q
              | inr (natives, run) ↦
                  elim (Option-cases (drop_oldest_while (evm_below ext bm k) s.evm_blocks)) [
                    | inl empty ↦ rw (run, empty, drop_irreversible) q
                    | inr (blocks, left) ↦
                        rw (run, left, drop_irreversible)
                          (q.0, drop_oldest_while-All (evm_below ext bm k) s.evm_blocks q.1 left)
                  ]
            ]

    module _ (stable : Stable ext P) (engine_open : Bool) (new_block : NativeBlock) where
      -- What `fill_block` still has to do after each of its calls.
      abbrev bounded : Action (State Tx) Error (Unit {0})
      bounded = on_back (modify (set_upper_bound new_block)) >> prune ext bm new_block.lib

      abbrev added : ℕ → Action (State Tx) Error (Unit {0})
      added version =
          on_back (add_transactions ext version (actions_of new_block.transactions)) >> bounded

      abbrev configured : ℕ → Action (State Tx) Error (Unit {0})
      configured version = apply_config ext engine_open new_block.new_config >> added version

      -- The last block has the version.
      abbrev At : ℕ → EvmBlock Tx → Type 0
      At version b = P b × (ext.nonce_to_version b.header.nonce ≡ version)

      bounded-Keeps : Keeps Quiet bounded
      bounded-Keeps =
          >>=-Keeps Quiet (λ _. prune ext bm new_block.lib) (λ _. prune-Keeps new_block.lib)
            (on_back (modify (set_upper_bound new_block)))
            (on_back-Keeps (modify (set_upper_bound new_block))
              (set_upper_bound-Keeps stable.undoable new_block))

      added-Leads : (version : ℕ) → Leads (QuietAt (At version)) Quiet (added version)
      added-Leads version =
          >>=-Leads (QuietAt (At version)) Quiet Quiet (λ s q. q) (λ _. bounded)
            (λ _. bounded-Keeps)
            (on_back (add_transactions ext version (actions_of new_block.transactions)))
            λ s q.
              let (same, held) =
                on_back-Leads (At version) P
                  (add_transactions ext version (actions_of new_block.transactions)) filled s q in
              (same, Held-All _ held)
        where
          filled :
              Leads
                (At version)
                P
                (add_transactions ext version (actions_of new_block.transactions))
          filled b (h, e) =
              subst (λ v. P (add_transactions ext v (actions_of new_block.transactions) b).1) e
                (stable.after_fill (actions_of new_block.transactions) b h)

      configured-Leads : (version : ℕ) → Leads (QuietAt (At version)) Quiet (configured version)
      configured-Leads version =
          >>=-Leads (QuietAt (At version)) (QuietAt (At version)) Quiet
            (λ s q. (q.0, Held-All s.evm_blocks (weaken s.evm_blocks q.1))) (λ _. added version)
            (λ _. added-Leads version) (apply_config ext engine_open new_block.new_config)
            (apply_config-Keeps (At version) (λ b index h. (stable.after_index b index h.0, h.1))
              engine_open new_block.new_config)
        where
          weaken : (blocks : List (EvmBlock Tx)) → Held (At version) blocks → Held P blocks
          weaken [] h = tt
          weaken (b ∷ older) h = (h.0.0, h.1)

      pub fill_block-Keeps :
          (config : Option ChainConfig)
          → Keeps Quiet (fill_block ext config bm engine_open new_block)
      unfolding fill_block
      fill_block-Keeps config s q = from s.evm_blocks q.1
        where
          from :
              (blocks : List (EvmBlock Tx))
              → All P blocks
              → Quiet
                  (((λ _. on_back_of (gets (λ b. ext.nonce_to_version b.header.nonce)) s blocks)
                      >>= configured)
                    s).1
          from [] h = q
          from (b ∷ older) h =
              configured-Leads (ext.nonce_to_version b.header.nonce)
                (record s { evm_blocks = b ∷ older }) (q.0, ((h.0, refl), h.1))
