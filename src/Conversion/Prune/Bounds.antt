-- ===== src/Conversion/Prune/Bounds.antt =====
-- Dropping what is irreversible, in src/block_conversion_plugin.cpp: the loops stop before their
-- lists run out, and what stays is exactly what lies at or above the height that is recorded.
use mathlib.Core.List.{append-nil}
use eos_evm_node.Base.{
  ℕ, ◌+◌, ◌≤◌, ◌<◌, ◌≡◌, refl, sym, ap, subst, ap₂, subst₂, ◌∙◌, ◌⊎◌, true, false, Option-cases,
  inl, inr, All, All-map, All-prefix, All-reverse, last_of, List, [], ◌∷◌, ◌++◌, reverse, none,
  some, arith, ltb→lt, ltb-false→le,
}
use eos_evm_node.Base.Action.{ok}
use eos_evm_node.Channels.{NativeBlock}
use eos_evm_node.Evm.{EvmBlock, BlockMapping}
use eos_evm_node.External.{External, Laws}
use eos_evm_node.Conversion.State.{State, timestamp_to_evm_block_num}
use eos_evm_node.Conversion.Content.{num}
use eos_evm_node.Conversion.Invariant.{
  IsValid, Rising-above, Rising-prefix, NativeChain-prefix, Distinct-prefix, EvmChain,
  EvmChain-prefix, EvmChain-oldest, EvmChain-above, AllBuilt-prefix, oldest_number,
}
use eos_evm_node.Conversion.Prune.Split.{drop_oldest_while-splits, last_irreversible-All}
use eos_evm_node.Conversion.Prune.{
  last_irreversible, drop_oldest_while, evm_lib_at, native_below, evm_below, drop_irreversible,
  prune,
}

module _ {Tx : Type 0} (ext : External Tx) (laws : Laws ext) (bm : BlockMapping) where
  evm_lib_at-eq :
      (nb : NativeBlock) → 1 ≤ num ext bm nb → evm_lib_at ext bm nb.timestamp + 1 ≡ num ext bm nb
  unfolding evm_lib_at timestamp_to_evm_block_num
  evm_lib_at-eq nb h = omega (arith, laws.mapped_u32 bm nb.timestamp)

  -- What `prune` leaves behind.
  pub record Pruned (evm_lib : ℕ) (natives kept_natives : List NativeBlock)
      (evm kept_evm : List (EvmBlock Tx)) : Type 0 where
    pub dropped_natives : List NativeBlock
    pub dropped_evm : List (EvmBlock Tx)
    pub natives_split : natives ≡ kept_natives ++ dropped_natives
    pub evm_split : evm ≡ kept_evm ++ dropped_evm
    pub natives_below : All (λ nb. num ext bm nb < evm_lib) dropped_natives
    pub evm_are_below : All (λ b. b.header.number < evm_lib) dropped_evm
    pub natives_stay : All (λ nb. evm_lib ≤ num ext bm nb) kept_natives
    pub evm_stay : All (λ b. evm_lib ≤ b.header.number) kept_evm

  abbrev AboveAll : ℕ → NativeBlock → List NativeBlock → Type 0
  AboveAll k nb kept = All (λ m. k ≤ num ext bm m) (nb ∷ kept)

  -- What the oldest kept EVM block covers.
  Covers-kept :
      (evm_lib : ℕ) (b : EvmBlock Tx) (kept dropped : List (EvmBlock Tx))
      (natives : List NativeBlock)
      → EvmChain ext (b ∷ kept ++ dropped)
      → All (λ a. a.header.number < evm_lib) dropped
      → All (λ m. evm_lib ≤ num ext bm m) natives
      → All (λ m. oldest_number b (kept ++ dropped) ≤ num ext bm m) natives
      → All (λ m. oldest_number b kept ≤ num ext bm m) natives
  Covers-kept evm_lib b kept [] natives chain below above covered =
      subst (λ t. All (λ m. oldest_number b t ≤ num ext bm m) natives) (append-nil kept) covered
  Covers-kept evm_lib b kept (a ∷ dropped) natives chain below above covered =
      All-map natives (λ m h. omega (arith, EvmChain-oldest ext b a kept dropped chain, below.0, h))
        above

  native_below-reads :
      (k : ℕ) (m : NativeBlock)
      → ((native_below ext bm k m ≡ true) → num ext bm m < k)
        × ((native_below ext bm k m ≡ false) → k ≤ num ext bm m)
        × (k ≤ num ext bm m → native_below ext bm k m ≡ false)
  unfolding native_below
  native_below-reads k m = (ltb→lt _ _, ltb-false→le _ _, λ h. ground arith)

  evm_below-reads :
      (k : ℕ) (b : EvmBlock Tx)
      → ((evm_below ext bm k b ≡ true) → b.header.number < k)
        × ((evm_below ext bm k b ≡ false) → k ≤ b.header.number)
        × (k ≤ b.header.number → evm_below ext bm k b ≡ false)
  unfolding evm_below
  evm_below-reads k b = (ltb→lt _ _, ltb-false→le _ _, λ h. ground arith)

  -- The newer parts of two lists that belong together still do, where the older parts lie below a
  -- height that the newer parts reach.
  module _ (nb : NativeBlock) (kn dn : List NativeBlock) (b : EvmBlock Tx)
      (ke de : List (EvmBlock Tx)) (evm_lib : ℕ) (v : IsValid ext bm (nb ∷ kn ++ dn) (b ∷ ke ++ de))
      (below_n : All (λ m. num ext bm m < evm_lib) dn)
      (below_e : All (λ a. a.header.number < evm_lib) de)
      (above_n : evm_lib ≤ num ext bm (last_of nb kn))
      (above_e : evm_lib ≤ oldest_number b ke) where
    kept-Pruned : Pruned evm_lib (nb ∷ kn ++ dn) (nb ∷ kn) (b ∷ ke ++ de) (b ∷ ke)
    kept-Pruned = record {
      dropped_natives = dn;
      dropped_evm = de;
      natives_split = refl;
      evm_split = refl;
      natives_below = below_n;
      evm_are_below = below_e;
      natives_stay =
          Rising-above ext bm evm_lib nb kn (Rising-prefix ext bm (nb ∷ kn) dn v.rising) above_n;
      evm_stay =
          EvmChain-above ext evm_lib b ke (EvmChain-prefix ext (b ∷ ke) de v.evm_chain) above_e;
    }

    kept-IsValid : num ext bm nb ≡ b.header.number → IsValid ext bm (nb ∷ kn) (b ∷ ke)
    kept-IsValid same = record {
      native_chain = NativeChain-prefix (nb ∷ kn) dn v.native_chain;
      distinct = Distinct-prefix (nb ∷ kn) dn v.distinct;
      rising = Rising-prefix ext bm (nb ∷ kn) dn v.rising;
      positive = All-prefix _ (nb ∷ kn) dn v.positive;
      removable = All-prefix _ (nb ∷ kn) dn v.removable;
      evm_chain = EvmChain-prefix ext (b ∷ ke) de v.evm_chain;
      tip = inl same;
      covers =
          Covers-kept evm_lib b ke de (nb ∷ kn) v.evm_chain below_e kept-Pruned.natives_stay
            (All-prefix _ (nb ∷ kn) dn v.covers);
      built = AllBuilt-prefix ext bm (nb ∷ kn) dn (b ∷ ke) (All-prefix _ (b ∷ ke) de v.built);
    }

  drop_irreversible-runs :
      (evm_lib : ℕ) (s : State Tx) (natives : List NativeBlock) (evm : List (EvmBlock Tx))
      → drop_oldest_while (native_below ext bm evm_lib) s.native_blocks ≡ some natives
      → drop_oldest_while (evm_below ext bm evm_lib) s.evm_blocks ≡ some evm
      → drop_irreversible ext bm evm_lib s
        ≡ (ok tt, record s { native_blocks = natives; evm_blocks = evm; evm_lib = evm_lib })
  unfolding drop_irreversible
  drop_irreversible-runs evm_lib s natives evm en ee = rw (en, ee, drop_irreversible) refl

  -- `drop_irreversible` keeps a part of either list.
  abbrev Drops :
      ℕ → State Tx → NativeBlock → List NativeBlock → EvmBlock Tx → List (EvmBlock Tx) → Type 0
  Drops evm_lib s nb older b rest =
      (natives : List NativeBlock) × (evm : List (EvmBlock Tx)) × (drop_irreversible ext bm evm_lib
          s
        ≡ (
          ok tt,
          record s { native_blocks = nb ∷ natives; evm_blocks = b ∷ evm; evm_lib = evm_lib },
        ))
      × IsValid ext bm (nb ∷ natives) (b ∷ evm)
      × Pruned evm_lib (nb ∷ older) (nb ∷ natives) (b ∷ rest) (b ∷ evm)

  module _ (nb : NativeBlock) (b : EvmBlock Tx) (s : State Tx) (evm_lib : ℕ)
      (same : num ext bm nb ≡ b.header.number) (low : evm_lib < num ext bm nb) where
    Drops-of_splits :
        (kn dn : List NativeBlock) (ke de : List (EvmBlock Tx))
        → drop_oldest_while (native_below ext bm evm_lib) s.native_blocks ≡ some (nb ∷ kn)
        → drop_oldest_while (evm_below ext bm evm_lib) s.evm_blocks ≡ some (b ∷ ke)
        → All (λ m. native_below ext bm evm_lib m ≡ true) dn
        → All (λ a. evm_below ext bm evm_lib a ≡ true) de
        → native_below ext bm evm_lib (last_of nb kn) ≡ false
        → evm_below ext bm evm_lib (last_of b ke) ≡ false
        → IsValid ext bm (nb ∷ kn ++ dn) (b ∷ ke ++ de)
        → Drops evm_lib s nb (kn ++ dn) b (ke ++ de)
    Drops-of_splits kn dn ke de run_n run_e below_n below_e stop_n stop_e v =
        let low_n : All (λ m. num ext bm m < evm_lib) dn =
          All-map dn (λ m. (native_below-reads evm_lib m).0) below_n in
        let low_e : All (λ (a : EvmBlock Tx). a.header.number < evm_lib) de =
          All-map de (λ a. (evm_below-reads evm_lib a).0) below_e in
        let high_n : evm_lib ≤ num ext bm (last_of nb kn) =
          (native_below-reads evm_lib (last_of nb kn)).1 stop_n in
        let high_e : evm_lib ≤ oldest_number b ke =
          (evm_below-reads evm_lib (last_of b ke)).1 stop_e in
        (
          kn,
          ke,
          drop_irreversible-runs evm_lib s (nb ∷ kn) (b ∷ ke) run_n run_e,
          kept-IsValid nb kn dn b ke de evm_lib v low_n low_e high_n high_e same,
          kept-Pruned nb kn dn b ke de evm_lib v low_n low_e high_n high_e,
        )

    drop_irreversible-Drops :
        (older : List NativeBlock) (rest : List (EvmBlock Tx))
        → s.native_blocks ≡ nb ∷ older
        → s.evm_blocks ≡ b ∷ rest
        → IsValid ext bm (nb ∷ older) (b ∷ rest)
        → Drops evm_lib s nb older b rest
    drop_irreversible-Drops older rest en ee v =
        let (kn, dn, run_n, split_n, below_n, stop_n) =
          drop_oldest_while-splits (native_below ext bm evm_lib) nb older
            ((native_below-reads evm_lib nb).2 (omega arith)) in
        let (ke, de, run_e, split_e, below_e, stop_e) =
          drop_oldest_while-splits (evm_below ext bm evm_lib) b rest
            ((evm_below-reads evm_lib b).2 (omega arith)) in
        subst₂ (λ xs ys. IsValid ext bm (nb ∷ xs) (b ∷ ys) → Drops evm_lib s nb xs b ys)
          (sym split_n) (sym split_e)
          (Drops-of_splits kn dn ke de
            (ap (drop_oldest_while (native_below ext bm evm_lib)) en ∙ run_n)
            (ap (drop_oldest_while (evm_below ext bm evm_lib)) ee ∙ run_e) below_n below_e stop_n
            stop_e)
          v

  -- How `prune` ends: it keeps everything where no block is irreversible yet, and otherwise drops
  -- what lies below the height before that of the last irreversible block.
  abbrev pub Cut :
      ℕ
      → State Tx
      → List NativeBlock
      → List NativeBlock
      → List (EvmBlock Tx)
      → List (EvmBlock Tx)
      → ℕ
      → Type 0
  Cut lib s natives kept_natives evm kept_evm k =
      ((last_irreversible lib (reverse natives) ≡ none)
        × (kept_natives ≡ natives)
        × (kept_evm ≡ evm)
        × (k ≡ s.evm_lib))
      ⊎ ((m : NativeBlock) × (last_irreversible lib (reverse natives) ≡ some m)
          × (k + 1 ≡ num ext bm m)
          × Pruned k natives kept_natives evm kept_evm)

  module _ (lib : ℕ) (nb : NativeBlock) (older : List NativeBlock) (b : EvmBlock Tx)
      (rest : List (EvmBlock Tx)) (s : State Tx) (en : s.native_blocks ≡ nb ∷ older)
      (ee : s.evm_blocks ≡ b ∷ rest) (v : IsValid ext bm (nb ∷ older) (b ∷ rest))
      (same : num ext bm nb ≡ b.header.number) where
    last_irreversible_bounds :
        {m : NativeBlock}
        → last_irreversible lib (reverse (nb ∷ older)) ≡ some m
        → (1 ≤ num ext bm m) × (num ext bm m ≤ num ext bm nb)
    last_irreversible_bounds found = (
      last_irreversible-All (λ m. 1 ≤ num ext bm m) lib _ (All-reverse _ (nb ∷ older) v.positive)
          found,
      last_irreversible-All (λ m. num ext bm m ≤ num ext bm nb) lib _
          (All-reverse _ (nb ∷ older) (omega arith, v.rising.0)) found,
    )

    prune-none :
        last_irreversible lib (reverse s.native_blocks) ≡ none → prune ext bm lib s ≡ (ok tt, s)
    unfolding prune
    prune-none e = rw (e, prune) refl

    prune-some :
        {m : NativeBlock}
        → last_irreversible lib (reverse s.native_blocks) ≡ some m
        → prune ext bm lib s ≡ drop_irreversible ext bm (evm_lib_at ext bm m.timestamp) s
    unfolding prune
    prune-some e = rw (e, prune) refl

    -- In a state where the two chains belong together and the last EVM block is the one of the last
    -- native block, the call returns, keeps both last blocks, and leaves two chains that belong
    -- together. Either no native block is found as the last irreversible one and nothing changes, or the
    -- height recorded is the one below the EVM block of the last irreversible native block, and exactly the oldest
    -- blocks below it are dropped.
    pub prune-Cut :
        (natives : List NativeBlock) × (evm : List (EvmBlock Tx)) × (k : ℕ) × (prune ext bm lib s
          ≡ (ok tt, record s { native_blocks = nb ∷ natives; evm_blocks = b ∷ evm; evm_lib = k }))
        × IsValid ext bm (nb ∷ natives) (b ∷ evm)
        × Cut lib s (nb ∷ older) (nb ∷ natives) (b ∷ rest) (b ∷ evm) k
    prune-Cut = elim (Option-cases (last_irreversible lib (reverse (nb ∷ older)))) [
      | inl none_yet ↦ (
        older,
        rest,
        s.evm_lib,
        prune-none (subst (λ t. last_irreversible lib (reverse t) ≡ none) (sym en) none_yet)
            ∙ ap₂ (λ ns es. (ok tt, record s { native_blocks = ns; evm_blocks = es })) en ee,
        v,
        inl (none_yet, refl, refl, refl),
      )
      | inr (m, found) ↦
          let k : ℕ = evm_lib_at ext bm m.timestamp in
          let (low, high) = last_irreversible_bounds found in
          let next : k + 1 ≡ num ext bm m = evm_lib_at-eq m low in
          let (natives, evm, run, v', cut) =
            drop_irreversible-Drops nb b s k same (omega arith) older rest en ee v in
          (
            natives,
            evm,
            k,
            prune-some (subst (λ t. last_irreversible lib (reverse t) ≡ some m) (sym en) found)
                ∙ run,
            v',
            inr (m, found, next, cut),
          )
    ]
