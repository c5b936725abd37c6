-- ===== src/Conversion/Invariant.antt =====
-- The invariant of `block_conversion_plugin_impl`: two chains that belong together.
use eos_evm_node.Base.{
  ℕ, suc, ◌≤◌, ◌<◌, ◌≡◌, ◌≢◌, sym, ◌∙◌, subst₂, ◌⊎◌, All, All-prefix, All-map, last_of, List, [],
  ◌∷◌, ◌++◌, arith,
}
use eos_evm_node.Channels.{NativeBlock, actions_of}
use eos_evm_node.Evm.{EvmBlock, BlockMapping}
use eos_evm_node.External.{External}
use eos_evm_node.Conversion.Content.{num, Built, Built-append, IsCanonical}

abbrev pub Linked : NativeBlock → List NativeBlock → Type 0
Linked nb [] = Unit
Linked nb (parent ∷ older) = nb.prev ≡ parent.id

-- Each native block names the one before it as its parent.
abbrev pub NativeChain : List NativeBlock → Type 0
NativeChain [] = Unit
NativeChain (nb ∷ older) = Linked nb older × NativeChain older

-- No two native blocks share an id.
abbrev pub Distinct : List NativeBlock → Type 0
Distinct [] = Unit
Distinct (nb ∷ older) = All (λ m. m.id ≢ nb.id) older × Distinct older

abbrev pub oldest_number : {Tx : Type 0} → EvmBlock Tx → List (EvmBlock Tx) → ℕ
oldest_number b older = (last_of b older).header.number

module _ {Tx : Type 0} (ext : External Tx) where
  abbrev pub Follows : EvmBlock Tx → List (EvmBlock Tx) → Type 0
  Follows b [] = Unit
  Follows b (a ∷ older) =
      (b.header.number ≡ suc a.header.number) × (b.header.parent_hash ≡ ext.header_hash a.header)

  -- Heights go up by one, and each EVM block carries the hash of the header before it.
  abbrev pub EvmChain : List (EvmBlock Tx) → Type 0
  EvmChain [] = Unit
  EvmChain (b ∷ older) = Follows b older × EvmChain older

  module _ (bm : BlockMapping) where
    -- No native block belongs to an earlier EVM block than one before it.
    abbrev pub Rising : List NativeBlock → Type 0
    Rising [] = Unit
    Rising (nb ∷ older) = All (λ m. num ext bm m ≤ num ext bm nb) older × Rising older

    -- The last EVM block is the one of the last native block. Before the first block has been
    -- received it may be an earlier one, and the native block then carries no action.
    abbrev pub Tip : List NativeBlock → List (EvmBlock Tx) → Type 0
    Tip [] evm = ⊥
    Tip (nb ∷ older) [] = ⊥
    Tip (nb ∷ older) (b ∷ rest) =
        (num ext bm nb ≡ b.header.number)
        ⊎ ((older ≡ []) × (actions_of nb.transactions ≡ []) × (b.header.number ≤ num ext bm nb))

    -- The EVM blocks go back far enough for every native block.
    abbrev pub Covers : List (EvmBlock Tx) → List NativeBlock → Type 0
    Covers [] natives = Unit
    Covers (b ∷ older) natives = All (λ nb. oldest_number b older ≤ num ext bm nb) natives

    -- Every EVM block ends in the transactions of its native blocks.
    abbrev pub AllBuilt : List NativeBlock → List (EvmBlock Tx) → Type 0
    AllBuilt natives evm = All (λ b. Built ext bm b.header.number natives b.transactions) evm

    -- What a native block must be like for its transactions to be taken back.
    abbrev pub Removable : NativeBlock → Type 0
    Removable nb = All (IsCanonical ext) (actions_of nb.transactions)

    pub record IsValid (natives : List NativeBlock) (evm : List (EvmBlock Tx)) : Type 0 where
      pub native_chain : NativeChain natives
      pub distinct : Distinct natives
      pub rising : Rising natives
      pub positive : All (λ nb. 1 ≤ num ext bm nb) natives
      pub removable : All Removable natives
      pub evm_chain : EvmChain evm
      pub tip : Tip natives evm
      pub covers : Covers evm natives
      pub built : AllBuilt natives evm

-- Each part of the invariant holds of the newer blocks alone.
pub NativeChain-prefix : (xs ys : List NativeBlock) → NativeChain (xs ++ ys) → NativeChain xs
NativeChain-prefix [] ys h = tt
NativeChain-prefix (x ∷ []) ys h = (tt, tt)
NativeChain-prefix (x ∷ y ∷ xs) ys h = (h.0, NativeChain-prefix (y ∷ xs) ys h.1)

pub Distinct-prefix : (xs ys : List NativeBlock) → Distinct (xs ++ ys) → Distinct xs
Distinct-prefix [] ys h = tt
Distinct-prefix (x ∷ xs) ys h = (All-prefix (λ m. m.id ≢ x.id) xs ys h.0, Distinct-prefix xs ys h.1)

-- A block of the same height may stand for the newest.
pub oldest_replace :
    {Tx : Type 0} (c d : EvmBlock Tx) (older : List (EvmBlock Tx))
    → d.header.number ≡ c.header.number
    → (k : ℕ) → oldest_number c older ≤ k
    → oldest_number d older ≤ k
oldest_replace c d [] e k h = omega arith
oldest_replace c d (a ∷ older) e k h = h

module _ {Tx : Type 0} (ext : External Tx) where
  pub EvmChain-replace :
      (c d : EvmBlock Tx) (older : List (EvmBlock Tx))
      → d.header.number ≡ c.header.number
      → d.header.parent_hash ≡ c.header.parent_hash
      → EvmChain ext (c ∷ older)
      → EvmChain ext (d ∷ older)
  EvmChain-replace c d [] n p h = h
  EvmChain-replace c d (a ∷ older) n p h = ((n ∙ h.0.0, p ∙ h.0.1), h.1)

  -- The blocks under one of height `k` are lower.
  pub EvmChain-below :
      (k : ℕ) (c : EvmBlock Tx) (older : List (EvmBlock Tx))
      → EvmChain ext (c ∷ older)
      → c.header.number ≤ k
      → All (λ a. a.header.number < k) older
  EvmChain-below k c [] h e = tt
  EvmChain-below k c (a ∷ older) h e =
      (omega (arith, h.0.0), EvmChain-below k a older h.1 (omega (arith, h.0.0)))

  pub EvmChain-prefix : (xs ys : List (EvmBlock Tx)) → EvmChain ext (xs ++ ys) → EvmChain ext xs
  EvmChain-prefix [] ys h = tt
  EvmChain-prefix (x ∷ []) ys h = (tt, tt)
  EvmChain-prefix (x ∷ y ∷ xs) ys h = (h.0, EvmChain-prefix (y ∷ xs) ys h.1)

  -- A lower bound of the oldest height bounds them all.
  pub EvmChain-above :
      (k : ℕ) (x : EvmBlock Tx) (xs : List (EvmBlock Tx))
      → EvmChain ext (x ∷ xs)
      → k ≤ oldest_number x xs
      → All (λ b. k ≤ b.header.number) (x ∷ xs)
  EvmChain-above k x [] h low = (low, tt)
  EvmChain-above k x (y ∷ ys) h low =
      let rest : All (λ b. k ≤ b.header.number) (y ∷ ys) = EvmChain-above k y ys h.1 low in
      (omega (arith, h.0.0, rest.0), rest)

  -- The block before a prefix is the one below its oldest block.
  pub EvmChain-oldest :
      (b a : EvmBlock Tx) (kept dropped : List (EvmBlock Tx))
      → EvmChain ext (b ∷ kept ++ a ∷ dropped)
      → oldest_number b kept ≡ suc a.header.number
  EvmChain-oldest b a [] dropped h = h.0.0
  EvmChain-oldest b a (c ∷ kept) dropped h = EvmChain-oldest c a kept dropped h.1

  module _ (bm : BlockMapping) where
    pub Rising-prefix : (xs ys : List NativeBlock) → Rising ext bm (xs ++ ys) → Rising ext bm xs
    Rising-prefix [] ys h = tt
    Rising-prefix (x ∷ xs) ys h =
        (All-prefix (λ m. num ext bm m ≤ num ext bm x) xs ys h.0, Rising-prefix xs ys h.1)

    -- A lower bound of the oldest block bounds them all.
    pub Rising-above :
        (k : ℕ) (x : NativeBlock) (xs : List NativeBlock)
        → Rising ext bm (x ∷ xs)
        → k ≤ num ext bm (last_of x xs)
        → All (λ nb. k ≤ num ext bm nb) (x ∷ xs)
    Rising-above k x [] h low = (low, tt)
    Rising-above k x (y ∷ ys) h low =
        let rest : All (λ nb. k ≤ num ext bm nb) (y ∷ ys) = Rising-above k y ys h.1 low in
        (omega (arith, h.0.0, rest.0), rest)

    pub AllBuilt-prefix :
        (xs ys : List NativeBlock) (evm : List (EvmBlock Tx))
        → AllBuilt ext bm (xs ++ ys) evm
        → AllBuilt ext bm xs evm
    AllBuilt-prefix xs ys evm =
        All-map evm λ b. Built-append ext bm b.header.number xs ys b.transactions

    -- A block that keeps its height and its transactions keeps what they are made of.
    pub AllBuilt-replace :
        (natives : List NativeBlock) (c d : EvmBlock Tx) (older : List (EvmBlock Tx))
        → d.header.number ≡ c.header.number
        → d.transactions ≡ c.transactions
        → AllBuilt ext bm natives (c ∷ older)
        → AllBuilt ext bm natives (d ∷ older)
    AllBuilt-replace natives c d older n t h =
        (subst₂ (λ k txs. Built ext bm k natives txs) (sym n) (sym t) h.0, h.1)
