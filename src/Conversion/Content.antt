-- ===== src/Conversion/Content.antt =====
-- What the transactions of an EVM block are made of: the actions of the native blocks that belong
-- to it, in their order. Lists hold their newest entry first.
use eos_evm_node.Base.{ℕ, ◌≡◌, ◌≢◌, refl, All, List, [], ◌∷◌, ◌++◌, some}
use eos_evm_node.Base.Action.{ok}
use eos_evm_node.Channels.{NativeAction, NativeBlock, actions_of}
use eos_evm_node.Evm.{EvmtxType, BlockMapping, rlpx_of}
use eos_evm_node.External.{External}
use eos_evm_node.Conversion.State.{deserialize_tx, timestamp_to_evm_block_num}

module _ {Tx : Type 0} (ext : External Tx) where
  -- The action carries the transaction.
  abbrev pub Carries : NativeAction → Tx → Type 0
  Carries act tx =
      (dtx : EvmtxType) × (deserialize_tx ext act ≡ ok dtx)
      × (ext.decode_tx (rlpx_of dtx) ≡ some tx)

  -- The transactions of the actions, put one after the other on top of `before`, give `after`.
  abbrev pub Pushed : List NativeAction → List Tx → List Tx → Type 0
  Pushed [] before after = after ≡ before
  Pushed (act ∷ acts) before after = (tx : Tx) × Carries act tx × Pushed acts (tx ∷ before) after

  -- A transaction that the action carries has, encoded again, the hash of the action's bytes. This
  -- fails for one that came in an EIP-2718 wrapper, which the encoding leaves out.
  abbrev pub IsCanonical : NativeAction → Type 0
  IsCanonical act =
      (dtx : EvmtxType) (tx : Tx)
      → deserialize_tx ext act ≡ ok dtx
      → ext.decode_tx (rlpx_of dtx) ≡ some tx
      → ext.keccak256 (rlpx_of dtx) ≡ ext.keccak256 (ext.encode_tx tx)

  pub Pushed-append :
      (xs ys : List NativeAction) (a b c : List Tx)
      → Pushed xs a b
      → Pushed ys b c
      → Pushed (xs ++ ys) a c
  Pushed-append [] ys a b c p q = rw p at q
  Pushed-append (x ∷ xs) ys a b c (tx, carries, p) q =
      (tx, carries, Pushed-append xs ys (tx ∷ a) b c p q)

  module _ (bm : BlockMapping) where
    abbrev pub num : NativeBlock → ℕ
    num nb = timestamp_to_evm_block_num ext bm nb.timestamp

    -- The transactions on top of the list are those of the native blocks that belong to the EVM
    -- block of height `k`; blocks of other heights are passed over.
    abbrev pub Built : ℕ → List NativeBlock → List Tx → Type 0
    Built k [] txs = Unit
    Built k (nb ∷ older) txs =
        (before : List Tx) × (num nb ≡ k → Pushed (actions_of nb.transactions) before txs)
        × (num nb ≢ k → before ≡ txs)
        × Built k older before

    -- No native block belongs to the height, so nothing is asked of the transactions.
    pub Built-elsewhere :
        (k : ℕ) (natives : List NativeBlock) (txs : List Tx)
        → All (λ nb. num nb ≢ k) natives
        → Built k natives txs
    Built-elsewhere k [] txs h = tt
    Built-elsewhere k (nb ∷ older) txs h =
        (txs, (λ e. absurd (h.0 e)), (λ _. refl), Built-elsewhere k older txs h.1)

    -- Forgetting the oldest blocks keeps what is known.
    pub Built-append :
        (k : ℕ) (kept dropped : List NativeBlock) (txs : List Tx)
        → Built k (kept ++ dropped) txs
        → Built k kept txs
    Built-append k [] dropped txs h = tt
    Built-append k (nb ∷ kept) dropped txs (before, here, skip, h) =
        (before, here, skip, Built-append k kept dropped before h)
