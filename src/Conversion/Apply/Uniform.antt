-- ===== src/Conversion/Apply/Uniform.antt =====
-- The transactions of one EVM block agree on its version and its fees, in
-- src/block_conversion_plugin.cpp.
use eos_evm_node.Base.{ℕ, ◌≡◌, refl, ◌∙◌, true, List, [], ◌∷◌, arith, ◌⊎◌, inl, inr, is_empty, All}
use eos_evm_node.Base.Action.{Outcome, ok, throw, undefined, Ends, Ends-mono, Ends-map, >>=-Ends}
use eos_evm_node.Channels.{NativeAction}
use eos_evm_node.Evm.{EvmBlock, EvmtxType, evmtx_v1, evmtx_v3}
use eos_evm_node.External.{External}
use eos_evm_node.Conversion.State.{Error, deserialize_tx, deserialize_tx-ne-undefined}
use eos_evm_node.Conversion.Apply.{Current, add_parsed, add_action, add_actions, add_transactions}
use eos_evm_node.Conversion.Apply.Settled.{
  SameTerms, SameTerms-refl, Moves-refl, SameTerms-trans, Settled, Tracks,
}
use eos_evm_node.Conversion.Apply.Adds.{
  Tracks-trans, Settled-Moves, FeesAgree-HasFees, Fits, Adds, Stopped, add_parsed-Adds,
}

module _ {Tx : Type 0} (ext : External Tx) where
  -- The action carries a transaction that fits.
  abbrev pub Bears : Current Tx → NativeAction → Type 0
  Bears c act = (dtx : EvmtxType) × (deserialize_tx ext act ≡ ok dtx) × Fits ext c dtx

  Adds-Bears :
      (act : NativeAction) (dtx : EvmtxType) (c d : Current Tx)
      → SameTerms c d
      → deserialize_tx ext act ≡ ok dtx
      → Fits ext c dtx
      → Bears d act
  Adds-Bears act (evmtx_v1 tx) c d t e (v, h) = (evmtx_v1 tx, e, (t.same_version ∙ v, ground arith))
  Adds-Bears act (evmtx_v3 tx) c d t e (v, h) = (evmtx_v3 tx, e, (t.same_version ∙ v, ground arith))

  abbrev Taken : NativeAction → Current Tx → Unit {0} → Current Tx → Type 0
  Taken act c _ d = (dtx : EvmtxType) × (deserialize_tx ext act ≡ ok dtx) × Adds ext dtx c d

  add_action-Taken :
      (act : NativeAction) (c : Current Tx)
      → Settled ext c
      → Ends (Taken act c) (Stopped ext c) ⊥ (add_action ext act c)
  unfolding add_action
  add_action-Taken act c s = parsed (deserialize_tx ext act) refl
    where
      parsed :
          (r : Outcome Error EvmtxType)
          → deserialize_tx ext act ≡ r
          → Ends (Taken act c) (Stopped ext c) ⊥ (add_action ext act c)
      parsed undefined e = absurd (deserialize_tx-ne-undefined ext act e)
      parsed (throw x) e = rw e (Moves-refl ext c)
      parsed (ok dtx) e = rw e (
          Ends-mono (λ _ d. Adds ext dtx c d) (Taken act c) (Stopped ext c) (Stopped ext c) ⊥
            (add_parsed ext dtx c) (add_parsed-Adds ext dtx c s) (λ _ d h. (dtx, e, h))
            (λ _ d h. h))

  -- After an exception: the version is still the one before or that of the nonce, the fees that it
  -- calls for are there, if there is a transaction, and a block that had transactions keeps its terms.
  abbrev pub Left : Current Tx → Current Tx → Type 0
  Left c d = Settled ext d × Tracks ext c d × ((is_empty c.transactions ≡ true) ⊎ SameTerms c d)

  -- What keeps the terms after a transaction was added.
  keeps_after :
      (dtx : EvmtxType) (c d e : Current Tx)
      → Adds ext dtx c d
      → (is_empty d.transactions ≡ true) ⊎ SameTerms d e
      → ((is_empty c.transactions ≡ true) ⊎ SameTerms c e) × SameTerms d e
  keeps_after dtx c d e a h = (both a.keeps, later h)
    where
      filled : d.transactions ≡ a.added.0 ∷ c.transactions → is_empty d.transactions ≡ true → ⊥
      filled e x = cc

      later : (is_empty d.transactions ≡ true) ⊎ SameTerms d e → SameTerms d e
      later (inl empty) = absurd (filled a.added.1 empty)
      later (inr t) = t

      both :
          (is_empty c.transactions ≡ true) ⊎ SameTerms c d
          → (is_empty c.transactions ≡ true) ⊎ SameTerms c e
      both (inl x) = inl x
      both (inr t) = inr (SameTerms-trans ext c d e t (later h))

  -- From `c` on, all actions were added and fit.
  pub record Agreed (acts : List NativeAction) (c d : Current Tx) : Type 0 where
    -- The fees of the version are there, if there is a transaction.
    pub settled : Settled ext d
    pub keeps : (is_empty c.transactions ≡ true) ⊎ SameTerms c d
    pub tracks : Tracks ext c d
    pub all_fit : All (Bears d) acts

  Agreed-cons :
      (act : NativeAction) (acts : List NativeAction) (dtx : EvmtxType) (c d e : Current Tx)
      → deserialize_tx ext act ≡ ok dtx
      → Adds ext dtx c d
      → Agreed acts d e
      → Agreed (act ∷ acts) c e
  Agreed-cons act acts dtx c d e carried a h =
      let (keeps, later) = keeps_after dtx c d e a h.keeps in
      record {
        settled = h.settled;
        keeps = keeps;
        tracks = Tracks-trans ext c d e a.tracks h.tracks;
        all_fit = (Adds-Bears act dtx d e later carried a.fits, h.all_fit);
      }

  pub add_actions-Agreed :
      (acts : List NativeAction) (c : Current Tx)
      → Settled ext c
      → Ends (λ _ d. Agreed acts c d) (λ _ d. Left c d) ⊥ (add_actions ext acts c)
  unfolding add_actions
  add_actions-Agreed [] c s = record {
    settled = s;
    keeps = inr (SameTerms-refl ext c);
    tracks = inl (refl, refl);
    all_fit = tt;
  }
  add_actions-Agreed (act ∷ acts) c s =
      >>=-Ends (Taken act c) (λ _ d. Agreed (act ∷ acts) c d) (λ _ d. Left c d) ⊥
        (λ _. add_actions ext acts) (add_action ext act) c
        (Ends-mono (Taken act c) (Taken act c) (Stopped ext c) (λ _ d. Left c d) ⊥ _
          (add_action-Taken act c s) (λ _ _ h. h)
          (λ _ d m. (Settled-Moves ext c d m s, m.tracks, m.keeps)))
        λ _ d (dtx, carried, a).
          Ends-mono (λ _ e. Agreed acts d e) (λ _ e. Agreed (act ∷ acts) c e) (λ _ e. Left d e)
            (λ _ e. Left c e) ⊥ _
            (add_actions-Agreed acts d (inr (FeesAgree-HasFees ext d dtx a.fits.1)))
            (λ _ e h. Agreed-cons act acts dtx c d e carried a h)
            (λ _ e h. (h.0, Tracks-trans ext c d e a.tracks h.1, (keeps_after dtx c d e a h.2).0))

  abbrev pub at_version : ℕ → EvmBlock Tx → Current Tx
  at_version version b = record { block = b; block_version = version }

  -- From an EVM block that has the fees its version calls for, if it has transactions, adding a native
  -- block's actions leaves such a block, whether it returns or throws, and nothing is undefined: there
  -- is a version, the one it started with while the nonce is unchanged, or one that the nonce of the
  -- block is made of, and the block has no transactions or the fees that this version calls for. If it
  -- returns, each action has this version; from version 1 to 2 each has the block's base fee, and from version 3 on the
  -- block's prices, from which its base fee is calculated. In both cases, a
  -- block that had transactions before keeps version, nonce, prices and base fee.
  pub add_transactions-Agreed :
      (version : ℕ) (acts : List NativeAction) (b : EvmBlock Tx)
      → Settled ext (at_version version b)
      → Ends
          (λ _ b'. (v : ℕ) × Agreed acts (at_version version b) (at_version v b'))
          (λ _ b'. (v : ℕ) × Left (at_version version b) (at_version v b'))
          ⊥
          (add_transactions ext version acts b)
  unfolding add_transactions
  add_transactions-Agreed version acts b s =
      Ends-map (λ c. c.block)
        (λ _ b'. (v : ℕ) × Agreed acts (at_version version b) (at_version v b'))
        (λ _ b'. (v : ℕ) × Left (at_version version b) (at_version v b')) ⊥ _
        (Ends-mono (λ _ d. Agreed acts (at_version version b) d)
          (λ _ d. (v : ℕ) × Agreed acts (at_version version b) (at_version v d.block))
          (λ _ d. Left (at_version version b) d)
          (λ _ d. (v : ℕ) × Left (at_version version b) (at_version v d.block)) ⊥ _
          (add_actions-Agreed acts (at_version version b) s) (λ _ d h. (d.block_version, h))
          (λ _ d h. (d.block_version, h)))
