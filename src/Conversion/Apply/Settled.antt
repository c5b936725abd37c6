-- ===== src/Conversion/Apply/Settled.antt =====
-- The version and the fees of the current block while transactions are added, in
-- src/block_conversion_plugin.cpp.
use eos_evm_node.Base.{
  ℕ, ◌≡◌, ◌≤◌, ◌<◌, refl, true, Option, none, some, arith, ◌⊎◌, inl, inr, Bool-cases, ltb, leb,
  is_empty,
}
use eos_evm_node.Base.Action.{Ends, Ends-mono}
use eos_evm_node.Evm.{EvmtxType, EvmtxV1, EvmtxV3, evmtx_v1, evmtx_v3, GasPrices}
use eos_evm_node.External.{External}
use eos_evm_node.Conversion.Apply.{
  Current, check_version, set_block_prices, same_prices, apply_v3, apply_prices_of, apply_prices,
  apply_base_fee, apply_base_fee_of, set_block_fee,
}

abbrev pub prices_of : EvmtxV3 → GasPrices
prices_of tx = record { overhead_price = tx.overhead_price; storage_price = tx.storage_price }

-- What the current block fixes for its transactions is the same.
pub record SameTerms {Tx : Type 0} (c d : Current Tx) : Type 0 where
  pub same_version : d.block_version ≡ c.block_version
  pub same_nonce : d.header.nonce ≡ c.header.nonce
  pub same_gas_prices : d.gas_prices ≡ c.gas_prices
  pub same_base_fee : d.header.base_fee_per_gas ≡ c.header.base_fee_per_gas

module _ {Tx : Type 0} (ext : External Tx) where
  -- The fees that the block's version calls for are there.
  abbrev pub HasFees : Current Tx → Type 0
  HasFees c =
      (c.block_version < 1)
      ⊎ ((c.block_version < 3) × (fee : ℕ) × (c.header.base_fee_per_gas ≡ some fee))
      ⊎ ((3 ≤ c.block_version)
          × (p : GasPrices) × (c.gas_prices ≡ some p)
          × (c.header.base_fee_per_gas
              ≡ some (ext.calculate_base_fee_per_gas p.overhead_price p.storage_price)))

  -- A block with transactions has its fees.
  abbrev pub Settled : Current Tx → Type 0
  Settled c = (is_empty c.transactions ≡ true) ⊎ HasFees c

  -- The version that is tracked is that of the nonce, or still the one before.
  abbrev pub Tracks : Current Tx → Current Tx → Type 0
  Tracks c d =
      ((d.block_version ≡ c.block_version) × (d.header.nonce ≡ c.header.nonce))
      ⊎ (d.header.nonce ≡ ext.version_to_nonce d.block_version)

  -- A block with transactions keeps its terms, and an empty one stays empty.
  pub record Moves (c d : Current Tx) : Type 0 where
    pub keeps : (is_empty c.transactions ≡ true) ⊎ SameTerms c d
    pub tracks : Tracks c d
    pub same_transactions : d.transactions ≡ c.transactions

  pub SameTerms-refl : (c : Current Tx) → SameTerms c c
  SameTerms-refl c = record {
    same_version = refl;
    same_nonce = refl;
    same_gas_prices = refl;
    same_base_fee = refl;
  }

  pub Moves-refl : (c : Current Tx) → Moves c c
  Moves-refl c = record {
    keeps = inr (SameTerms-refl c);
    tracks = inl (refl, refl);
    same_transactions = refl;
  }

  pub SameTerms-trans : (c d e : Current Tx) → SameTerms c d → SameTerms d e → SameTerms c e
  SameTerms-trans c d e p q = ground arith

  pub check_version-Moves :
      (v : ℕ) (c : Current Tx)
      → Ends (λ _ d. Moves c d × (d.block_version ≡ v)) (λ _ d. Moves c d) ⊥ (check_version ext v c)
  unfolding check_version
  check_version-Moves v c = ground arith

  -- The terms of one transaction are those of the block: prices from version 3 on.
  abbrev pub PricesAgree : Current Tx → EvmtxType → Type 0
  PricesAgree c (evmtx_v1 tx) = c.block_version < 3
  PricesAgree c (evmtx_v3 tx) =
      (c.block_version < 3)
      ⊎ ((3 ≤ c.block_version)
          × (c.gas_prices ≡ some (prices_of tx))
          × (c.header.base_fee_per_gas
              ≡ some (ext.calculate_base_fee_per_gas tx.overhead_price tx.storage_price)))

  -- The terms of one transaction are those of the block: a base fee from version 1 to 2, and prices
  -- from version 3 on, from which the base fee follows.
  abbrev pub FeesAgree : Current Tx → EvmtxType → Type 0
  FeesAgree c (evmtx_v1 tx) =
      (c.block_version < 1)
      ⊎ ((c.block_version < 3) × (c.header.base_fee_per_gas ≡ some tx.base_fee_per_gas))
  FeesAgree c (evmtx_v3 tx) =
      (c.block_version < 1)
      ⊎ ((3 ≤ c.block_version)
          × (c.gas_prices ≡ some (prices_of tx))
          × (c.header.base_fee_per_gas
              ≡ some (ext.calculate_base_fee_per_gas tx.overhead_price tx.storage_price)))

  apply_v3-Moves :
      (tx : EvmtxV3) (c : Current Tx) (o : Option GasPrices)
      → c.gas_prices ≡ o
      → 3 ≤ c.block_version
      → Settled c
      → Ends
          (λ _ d.
            Moves c d
            × (d.block_version ≡ c.block_version)
            × (d.gas_prices ≡ some (prices_of tx))
            × (d.header.base_fee_per_gas
                ≡ some (ext.calculate_base_fee_per_gas tx.overhead_price tx.storage_price)))
          (λ _ d. Moves c d)
          ⊥
          (apply_v3 ext tx c)
  unfolding apply_v3 set_block_prices same_prices
  apply_v3-Moves tx c none e low settled = ground arith
  apply_v3-Moves tx c (some old) e low settled = ground arith

  pub apply_prices-Moves :
      (dtx : EvmtxType) (c : Current Tx)
      → Settled c
      → Ends
          (λ _ d. Moves c d × ((d.block_version ≡ c.block_version) × PricesAgree d dtx))
          (λ _ d. Moves c d)
          ⊥
          (apply_prices ext dtx c)
  unfolding apply_prices apply_prices_of
  apply_prices-Moves (evmtx_v1 tx) c settled = ground arith
  apply_prices-Moves (evmtx_v3 tx) c settled = elim (Bool-cases (leb 3 c.block_version)) [
    | inl high ↦ rw high (
        Ends-mono _
          (λ _ d. Moves c d × ((d.block_version ≡ c.block_version) × PricesAgree d (evmtx_v3 tx)))
          (λ _ d. Moves c d) (λ _ d. Moves c d) ⊥ _
          (apply_v3-Moves tx c c.gas_prices refl (ground arith) settled)
          (λ _ d h. (h.0, (h.1, inr (ground arith)))) (λ _ d h. h))
    | inr low ↦ rw low (Moves-refl c, (refl, inl (ground arith)))
  ]

  set_block_fee-Moves :
      (tx : EvmtxV1) (c : Current Tx) (o : Option ℕ)
      → c.header.base_fee_per_gas ≡ o
      → 1 ≤ c.block_version
      → c.block_version < 3
      → Settled c
      → Ends
          (λ _ d. Moves c d × ((d.block_version ≡ c.block_version) × FeesAgree d (evmtx_v1 tx)))
          (λ _ d. Moves c d)
          ⊥
          (set_block_fee ext tx.base_fee_per_gas o c)
  unfolding set_block_fee
  set_block_fee-Moves tx c none e low high settled = ground arith
  set_block_fee-Moves tx c (some old) e low high settled = ground arith

  pub apply_base_fee-Moves :
      (dtx : EvmtxType) (c : Current Tx)
      → Settled c
      → PricesAgree c dtx
      → Ends
          (λ _ d. Moves c d × ((d.block_version ≡ c.block_version) × FeesAgree d dtx))
          (λ _ d. Moves c d)
          ⊥
          (apply_base_fee ext dtx c)
  unfolding apply_base_fee apply_base_fee_of
  apply_base_fee-Moves (evmtx_v1 tx) c settled below = elim (Bool-cases (leb 1 c.block_version)) [
    | inl one ↦ elim (Bool-cases (ltb c.block_version 3)) [
      | inl three ↦
          rw (one, three)
            (set_block_fee-Moves tx c c.header.base_fee_per_gas refl (ground arith) below settled)
      | inr more ↦ absurd (ground arith)
    ]
    | inr zero ↦ rw zero (Moves-refl c, (refl, inl (ground arith)))
  ]
  apply_base_fee-Moves (evmtx_v3 tx) c settled agree = ground arith
