-- ===== src/Conversion/Apply/Frame.antt =====
-- What adding actions to the current block leaves alone, in src/block_conversion_plugin.cpp, and
-- which transactions it appends.
use eos_evm_node.Base.{
  ℕ, ◌≡◌, refl, List, [], ◌∷◌, Option, none, some, arith, inl, inr, Option-cases, ap,
}
use eos_evm_node.Base.Action.{
  Outcome, ok, throw, undefined, ◌>>◌, modify, Ends, Ends-mono, Ends-map, >>=-Ends,
}
use eos_evm_node.Channels.{NativeAction}
use eos_evm_node.Evm.{EvmBlock, EvmtxType, evmtx_v1, evmtx_v3, rlpx_of, version_of, GasPrices}
use eos_evm_node.External.{External}
use eos_evm_node.Conversion.State.{
  Error, deserialize_tx, deserialize_tx-ne-undefined, deserialize_tx-FromInput, FromInput,
}
use eos_evm_node.Conversion.Content.{Carries, Pushed}
use eos_evm_node.Conversion.Apply.{
  Current, check_version, set_block_prices, apply_prices, apply_base_fee, append_tx,
  decode_and_append, add_parsed, add_action, add_actions, add_transactions,
}

-- The place of the block in its chain is the same.
pub record SamePlace {Tx : Type 0} (b c : EvmBlock Tx) : Type 0 where
  pub same_number : c.header.number ≡ b.header.number
  pub same_parent : c.header.parent_hash ≡ b.header.parent_hash

pub SamePlace-trans :
    {Tx : Type 0} {a b c : EvmBlock Tx} → SamePlace a b → SamePlace b c → SamePlace a c
SamePlace-trans p q = ground arith

abbrev Same : {Tx : Type 0} → Current Tx → Current Tx → Type 0
Same c d = SamePlace c.block d.block × (d.transactions ≡ c.transactions)

module _ {Tx : Type 0} (ext : External Tx) where
  -- What a throw leaves: the block with what it had, and an error that the input caused.
  abbrev Stopped : Current Tx → Error → Current Tx → Type 0
  Stopped c e d = FromInput e × Same c d

  abbrev Keeps : Current Tx → Outcome Error (Unit {0}) × Current Tx → Type 0
  Keeps c = Ends (λ _ d. Same c d) (Stopped c) ⊥

  check_version-Keeps : (v : ℕ) (c : Current Tx) → Keeps c (check_version ext v c)
  unfolding check_version
  check_version-Keeps v c = ground arith

  set_block_prices-Keeps :
      (p : GasPrices) (o : Option GasPrices) (c : Current Tx) → Keeps c (set_block_prices ext p o c)
  unfolding set_block_prices
  set_block_prices-Keeps p none c = ground arith
  set_block_prices-Keeps p (some old) c = ground arith

  apply_prices-Keeps : (dtx : EvmtxType) (c : Current Tx) → Keeps c (apply_prices ext dtx c)
  unfolding apply_prices
  apply_prices-Keeps (evmtx_v1 tx) c = ground arith
  apply_prices-Keeps (evmtx_v3 tx) c = ground arith

  apply_base_fee-Keeps : (dtx : EvmtxType) (c : Current Tx) → Keeps c (apply_base_fee ext dtx c)
  unfolding apply_base_fee
  apply_base_fee-Keeps (evmtx_v1 tx) c = ground arith
  apply_base_fee-Keeps (evmtx_v3 tx) c = ground arith

  abbrev Appended : NativeAction → Current Tx → Unit {0} → Current Tx → Type 0
  Appended act c _ d =
      SamePlace c.block d.block
      × (tx : Tx) × Carries ext act tx
      × (d.transactions ≡ tx ∷ c.transactions)

  abbrev Appends : NativeAction → Current Tx → Outcome Error (Unit {0}) × Current Tx → Type 0
  Appends act c = Ends (Appended act c) (Stopped c) ⊥

  Keeps-after :
      (c d : Current Tx) (r : Outcome Error (Unit {0}) × Current Tx)
      → Same c d
      → Keeps d r
      → Keeps c r
  Keeps-after c d r h k =
      Ends-mono (λ _ e. Same d e) (λ _ e. Same c e) (Stopped d) (Stopped c) ⊥ r k
        (λ _ e s. ground arith) (λ _ e s. (s.0, ground arith))

  SamePlace-append :
      (b : EvmBlock Tx) (c : Current Tx) (tx : Tx)
      → SamePlace b c.block
      → SamePlace b (append_tx ext tx c).block
  unfolding append_tx
  SamePlace-append b c tx p = ground arith

  decode_and_append-Appends :
      (act : NativeAction) (dtx : EvmtxType) (c d : Current Tx)
      → deserialize_tx ext act ≡ ok dtx
      → Same c d
      → Appends act c (decode_and_append ext dtx d)
  unfolding decode_and_append
  decode_and_append-Appends act dtx c d e same = elim (Option-cases (ext.decode_tx (rlpx_of dtx))) [
    | inl bad ↦ rw bad (tt, same)
    | inr (tx, good) ↦ rw good (
        >>=-Ends (λ _ f. Same c f) (Appended act c) (Stopped c) ⊥ (λ _. modify (append_tx ext tx))
          (apply_base_fee ext dtx) d (Keeps-after c d _ same (apply_base_fee-Keeps dtx d))
          λ _ f s. (SamePlace-append c.block f tx s.0, tx, (dtx, e, good), ap (λ t. tx ∷ t) s.1))
  ]

  add_parsed-Appends :
      (act : NativeAction) (dtx : EvmtxType) (c : Current Tx)
      → deserialize_tx ext act ≡ ok dtx
      → Appends act c (add_parsed ext dtx c)
  unfolding add_parsed
  add_parsed-Appends act dtx c e =
      >>=-Ends (λ _ d. Same c d) (Appended act c) (Stopped c) ⊥
        (λ _. apply_prices ext dtx >> decode_and_append ext dtx)
        (check_version ext (version_of dtx)) c (check_version-Keeps (version_of dtx) c)
        λ _ d s.
          >>=-Ends (λ _ d. Same c d) (Appended act c) (Stopped c) ⊥ (λ _. decode_and_append ext dtx)
            (apply_prices ext dtx) d (Keeps-after c d _ s (apply_prices-Keeps dtx d))
            λ _ d s. decode_and_append-Appends act dtx c d e s

  add_action-Appends : (act : NativeAction) (c : Current Tx) → Appends act c (add_action ext act c)
  unfolding add_action
  add_action-Appends act c = parsed (deserialize_tx ext act) refl
    where
      parsed :
          (r : Outcome Error EvmtxType)
          → deserialize_tx ext act ≡ r
          → Appends act c (add_action ext act c)
      parsed undefined e = absurd (deserialize_tx-ne-undefined ext act e)
      parsed (throw x) e = rw e (
        deserialize_tx-FromInput ext act e,
        (record { same_number = refl; same_parent = refl }, refl),
      )
      parsed (ok dtx) e = rw e (add_parsed-Appends act dtx c e)

  -- The native block's actions, each of which is taken or ends the loop.
  abbrev AllAppended : List NativeAction → Current Tx → Unit {0} → Current Tx → Type 0
  AllAppended acts c _ d = SamePlace c.block d.block × Pushed ext acts c.transactions d.transactions

  add_actions-Appends :
      (acts : List NativeAction) (c : Current Tx)
      → Ends
          (AllAppended acts c)
          (λ e d. FromInput e × SamePlace c.block d.block)
          ⊥
          (add_actions ext acts c)
  unfolding add_actions
  add_actions-Appends [] c = (record { same_number = refl; same_parent = refl }, refl)
  add_actions-Appends (act ∷ acts) c =
      >>=-Ends (Appended act c) (AllAppended (act ∷ acts) c)
        (λ e d. FromInput e × SamePlace c.block d.block) ⊥ (λ _. add_actions ext acts)
        (add_action ext act) c
        (Ends-mono (Appended act c) (Appended act c) (Stopped c)
          (λ e d. FromInput e × SamePlace c.block d.block) ⊥ _ (add_action-Appends act c)
          (λ _ _ h. h) (λ _ _ h. (h.0, h.1.0)))
        λ _ d (place, tx, carries, e).
          Ends-mono (AllAppended acts d) (AllAppended (act ∷ acts) c)
            (λ e f. FromInput e × SamePlace d.block f.block)
            (λ e f. FromInput e × SamePlace c.block f.block) ⊥ _ (add_actions-Appends acts d)
            (λ _ f h. (SamePlace-trans place h.0, (tx, carries, rw e at (h.1))))
            (λ _ f h. (h.0, SamePlace-trans place h.1))

  -- Where adding a block's actions returns, their transactions come after those of the EVM block, one
  -- for each action and in their order; where it throws, the error is one of the input's. The block's
  -- number and parent stay in both cases, and nothing is undefined.
  pub add_transactions-Pushed :
      (version : ℕ) (acts : List NativeAction) (b : EvmBlock Tx)
      → Ends
          (λ _ b'. SamePlace b b' × Pushed ext acts b.transactions b'.transactions)
          (λ e b'. FromInput e × SamePlace b b')
          ⊥
          (add_transactions ext version acts b)
  unfolding add_transactions
  add_transactions-Pushed version acts b =
      Ends-map (λ c. c.block)
        (λ _ b'. SamePlace b b' × Pushed ext acts b.transactions b'.transactions)
        (λ e b'. FromInput e × SamePlace b b') ⊥ _
        (add_actions-Appends acts (record { block = b; block_version = version }))
