-- ===== src/Conversion/Apply/Adds.antt =====
-- One action that is added to the current block, in src/block_conversion_plugin.cpp: its transaction
-- has the version and the fees of the block.
use eos_evm_node.Base.{
  ◌≡◌, sym, ◌∙◌, subst, true, ◌∷◌, arith, ◌⊎◌, inl, inr, Option-cases, ap, is_empty,
}
use eos_evm_node.Base.Action.{Outcome, ◌>>◌, modify, Ends, Ends-mono, >>=-Ends}
use eos_evm_node.Evm.{EvmtxType, evmtx_v1, evmtx_v3, rlpx_of, version_of}
use eos_evm_node.External.{External}
use eos_evm_node.Conversion.State.{Error}
use eos_evm_node.Conversion.Apply.{
  Current, check_version, apply_prices, apply_base_fee, append_tx, decode_and_append, add_parsed,
}
use eos_evm_node.Conversion.Apply.Settled.{
  SameTerms, SameTerms-trans, HasFees, Settled, Tracks, Moves, PricesAgree, FeesAgree,
  check_version-Moves, apply_prices-Moves, apply_base_fee-Moves,
}

module _ {Tx : Type 0} (ext : External Tx) where
  pub Tracks-trans : (c d e : Current Tx) → Tracks ext c d → Tracks ext d e → Tracks ext c e
  Tracks-trans c d e (inl (v, n)) (inl (v', n')) = inl (cc, cc)
  Tracks-trans c d e (inr n) (inl (v', n')) = inr cc
  Tracks-trans c d e p (inr n') = inr n'

  Moves-trans : (c d e : Current Tx) → Moves ext c d → Moves ext d e → Moves ext c e
  Moves-trans c d e p q = record {
    keeps = both p.keeps q.keeps;
    tracks = Tracks-trans c d e p.tracks q.tracks;
    same_transactions = cc;
  }
    where
      both :
          (is_empty c.transactions ≡ true) ⊎ SameTerms c d
          → (is_empty d.transactions ≡ true) ⊎ SameTerms d e
          → (is_empty c.transactions ≡ true) ⊎ SameTerms c e
      both (inl x) k = inl x
      both (inr h) (inl x) = inl (subst (λ t. is_empty t ≡ true) (p.same_transactions) x)
      both (inr h) (inr k) = inr (SameTerms-trans ext c d e h k)

  HasFees-SameTerms : (c d : Current Tx) → SameTerms c d → HasFees ext c → HasFees ext d
  HasFees-SameTerms c d t h = ground arith

  pub Settled-Moves : (c d : Current Tx) → Moves ext c d → Settled ext c → Settled ext d
  Settled-Moves c d m s = from m.keeps s
    where
      from : (is_empty c.transactions ≡ true) ⊎ SameTerms c d → Settled ext c → Settled ext d
      from k (inl x) = inl (subst (λ t. is_empty t ≡ true) (sym m.same_transactions) x)
      from (inl x) (inr h) = inl (subst (λ t. is_empty t ≡ true) (sym m.same_transactions) x)
      from (inr t) (inr h) = inr (HasFees-SameTerms c d t h)

  pub FeesAgree-HasFees : (c : Current Tx) (dtx : EvmtxType) → FeesAgree ext c dtx → HasFees ext c
  FeesAgree-HasFees c (evmtx_v1 tx) (inl low) = inl low
  FeesAgree-HasFees c (evmtx_v1 tx) (inr (v, fee)) = inr (inl (v, tx.base_fee_per_gas, fee))
  FeesAgree-HasFees c (evmtx_v3 tx) (inl low) = inl low
  FeesAgree-HasFees c (evmtx_v3 tx) (inr (v, p, fee)) = inr (inr (v, _, p, fee))

  -- The transaction has the version and the fees of the block.
  abbrev pub Fits : Current Tx → EvmtxType → Type 0
  Fits c dtx = (c.block_version ≡ version_of dtx) × FeesAgree ext c dtx

  -- A transaction was added that fits; the terms of a block that had some already stay.
  pub record Adds (dtx : EvmtxType) (c d : Current Tx) : Type 0 where
    pub keeps : (is_empty c.transactions ≡ true) ⊎ SameTerms c d
    pub tracks : Tracks ext c d
    pub fits : Fits d dtx
    pub added : (tx : Tx) × (d.transactions ≡ tx ∷ c.transactions)

  abbrev pub Stopped : Current Tx → Error → Current Tx → Type 0
  Stopped c e d = Moves ext c d

  append_tx-Adds :
      (dtx : EvmtxType) (tx : Tx) (c d : Current Tx)
      → Moves ext c d
      → Fits d dtx
      → Adds dtx c (append_tx ext tx d)
  unfolding append_tx
  append_tx-Adds dtx tx c d m f = record {
    keeps = appended m.keeps;
    tracks = m.tracks;
    fits = (f.0, agrees dtx f.1);
    added = (tx, ap (λ t. tx ∷ t) m.same_transactions);
  }
    where
      appended :
          (is_empty c.transactions ≡ true) ⊎ SameTerms c d
          → (is_empty c.transactions ≡ true) ⊎ SameTerms c (append_tx ext tx d)
      appended (inl x) = inl x
      appended (inr t) = inr (record {
        same_version = t.same_version;
        same_nonce = t.same_nonce;
        same_gas_prices = t.same_gas_prices;
        same_base_fee = t.same_base_fee;
      })

      agrees : (x : EvmtxType) → FeesAgree ext d x → FeesAgree ext (append_tx ext tx d) x
      agrees (evmtx_v1 x) h = h
      agrees (evmtx_v3 x) h = h

  -- How a stage of the visitor ends that starts after others.
  Moves-after :
      (Q : Current Tx → Type 0) (c d : Current Tx) (r : Outcome Error (Unit {0}) × Current Tx)
      → Moves ext c d
      → Ends (λ _ e. Moves ext d e × Q e) (Stopped d) ⊥ r
      → Ends (λ _ e. Moves ext c e × Q e) (Stopped c) ⊥ r
  Moves-after Q c d r m h =
      Ends-mono (λ _ e. Moves ext d e × Q e) (λ _ e. Moves ext c e × Q e) (Stopped d) (Stopped c) ⊥
        r h (λ _ e k. (Moves-trans c d e m k.0, k.1)) (λ _ e k. Moves-trans c d e m k)

  decode_and_append-Adds :
      (dtx : EvmtxType) (c d : Current Tx)
      → Moves ext c d
      → Settled ext d
      → d.block_version ≡ version_of dtx
      → PricesAgree ext d dtx
      → Ends (λ _ e. Adds dtx c e) (Stopped c) ⊥ (decode_and_append ext dtx d)
  unfolding decode_and_append
  decode_and_append-Adds dtx c d m s v p = elim (Option-cases (ext.decode_tx (rlpx_of dtx))) [
    | inl bad ↦ rw bad m
    | inr (tx, good) ↦ rw good (
        >>=-Ends
          (λ _ e. Moves ext c e × ((e.block_version ≡ d.block_version) × FeesAgree ext e dtx))
          (λ _ e. Adds dtx c e) (Stopped c) ⊥ (λ _. modify (append_tx ext tx))
          (apply_base_fee ext dtx) d
          (Moves-after (λ e. (e.block_version ≡ d.block_version) × FeesAgree ext e dtx) c d
            (apply_base_fee ext dtx d) m (apply_base_fee-Moves ext dtx d s p))
          λ _ e h. append_tx-Adds dtx tx c e h.0 (h.1.0 ∙ v, h.1.1))
  ]

  pub add_parsed-Adds :
      (dtx : EvmtxType) (c : Current Tx)
      → Settled ext c
      → Ends (λ _ d. Adds dtx c d) (Stopped c) ⊥ (add_parsed ext dtx c)
  unfolding add_parsed
  add_parsed-Adds dtx c s =
      >>=-Ends (λ _ d. Moves ext c d × (d.block_version ≡ version_of dtx)) (λ _ d. Adds dtx c d)
        (Stopped c) ⊥ (λ _. apply_prices ext dtx >> decode_and_append ext dtx)
        (check_version ext (version_of dtx)) c (check_version-Moves ext (version_of dtx) c)
        λ _ d h.
          >>=-Ends
            (λ _ e. Moves ext c e × ((e.block_version ≡ d.block_version) × PricesAgree ext e dtx))
            (λ _ e. Adds dtx c e) (Stopped c) ⊥ (λ _. decode_and_append ext dtx)
            (apply_prices ext dtx) d
            (Moves-after (λ e. (e.block_version ≡ d.block_version) × PricesAgree ext e dtx) c d
              (apply_prices ext dtx d) h.0 (apply_prices-Moves ext dtx d (Settled-Moves c d h.0 s)))
            λ _ e k.
              decode_and_append-Adds dtx c e k.0 (Settled-Moves c e k.0 s) (k.1.0 ∙ h.1) k.1.1
