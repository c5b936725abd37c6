-- ===== src/Conversion/Fork/Unwind.antt =====
-- Removing the forked native blocks, in src/block_conversion_plugin.cpp: where the two lists belong
-- together, the loop takes exactly their transactions off the EVM block of the fork.
use eos_evm_node.Base.{
  ℕ, ◌≤◌, ◌<◌, ◌≡◌, ◌≢◌, refl, sym, ap, subst, ◌∙◌, Bool, false, not, ◌&&◌, Bool-cases, List-cases,
  inl, inr, All, is_empty, List, [], ◌∷◌, ◌++◌, arith, ◌==◌, ==→eq, ==-false→ne, ==_self,
  ne→==-false,
}
use eos_evm_node.Base.Action.{ok, >>=-ok, ◌>>◌, modify}
use eos_evm_node.Channels.{NativeBlock, actions_of, reverse_actions_of}
use eos_evm_node.Evm.{EvmBlock, BlockMapping}
use eos_evm_node.External.{External}
use eos_evm_node.Conversion.State.{State}
use eos_evm_node.Conversion.Content.{num, Built, Pushed}
use eos_evm_node.Conversion.Invariant.{AllBuilt, Removable}
use eos_evm_node.Conversion.Fork.{remove_actions, remove_transactions, check_back, unwind}
use eos_evm_node.Conversion.Fork.Rollback.{with_txs, remove_native_transactions}

and_false : (a b : Bool) → b ≡ false → (a && b) ≡ false
and_false a b h = ground arith

module _ {Tx : Type 0} (ext : External Tx) (bm : BlockMapping) (fork : NativeBlock) where
  abbrev with_evm : State Tx → List (EvmBlock Tx) → State Tx
  with_evm s evm = record s { evm_blocks = evm }

  with_evm-same :
      (s : State Tx) (c : EvmBlock Tx) (older : List (EvmBlock Tx)) (before : List Tx)
      → before ≡ c.transactions
      → with_evm s (c ∷ older) ≡ with_evm s (with_txs c before ∷ older)
  with_evm-same s c older before e = ap (λ t. with_evm s (with_txs c t ∷ older)) (sym e)

  -- One forked block: its transactions are on top of the EVM block if it belongs to it.
  remove_transactions-runs :
      (x : NativeBlock) (c : EvmBlock Tx) (older : List (EvmBlock Tx)) (before : List Tx)
      (s : State Tx)
      → c.header.number ≡ num ext bm fork
      → Removable ext bm x
      → (num ext bm x ≡ c.header.number
          → Pushed ext (actions_of x.transactions) before c.transactions)
      → (num ext bm x ≢ c.header.number → before ≡ c.transactions)
      → remove_transactions ext bm fork x (with_evm s (c ∷ older))
        ≡ (ok tt, with_evm s (with_txs c before ∷ older))
  unfolding remove_transactions check_back
  remove_transactions-runs x c older before s same removable here skip =
      elim (Bool-cases (num ext bm x == num ext bm fork)) [
        | inr apart ↦ rw (and_false (not (is_empty x.transactions)) _ apart) (
            ap (λ t. (ok tt, t))
              (with_evm-same s c older before (skip λ e. ==-false→ne _ _ apart (e ∙ same))))
        | inl together ↦ elim (List-cases x.transactions) [
          | inl empty ↦ rw empty (
              ap (λ t. (ok tt, t))
                (with_evm-same s c older before (
                  sym (
                    subst (λ t. Pushed ext (actions_of t) before c.transactions) empty
                      (here (==→eq _ _ together ∙ sym same))))))
          | inr (trx, more, full) ↦
              let level : num ext bm x ≡ c.header.number = ==→eq _ _ together ∙ sym same in
              let removed : remove_actions ext (reverse_actions_of x.transactions) c
                  ≡ (ok tt, with_txs c before) =
                remove_native_transactions ext x.transactions c before removable (here level) in
              rw (full, together, level, ==_self c.header.number, rw full at removed) refl
        ]
      ]

  abbrev pub with_lists : State Tx → List NativeBlock → List (EvmBlock Tx) → State Tx
  with_lists s natives evm = record s { native_blocks = natives; evm_blocks = evm }

  -- A block above a height holds nothing of it.
  AllBuilt-tail :
      (x : NativeBlock) (xs : List NativeBlock) (evm : List (EvmBlock Tx)) (k : ℕ)
      → k ≤ num ext bm x
      → All (λ a. a.header.number < k) evm
      → AllBuilt ext bm (x ∷ xs) evm
      → AllBuilt ext bm xs evm
  AllBuilt-tail x xs [] k high below h = tt
  AllBuilt-tail x xs (a ∷ evm) k high below ((before, here, skip, rest), h) = (
    subst (Built ext bm a.header.number xs) (skip (λ e. absurd (omega (arith, below.0)))) rest,
    AllBuilt-tail x xs evm k high below.1 h,
  )

  -- The whole loop: it stops at the fork block, with what the fork block's EVM block held of the
  -- blocks that are left.
  pub unwind-runs :
      (pre post : List NativeBlock) (c : EvmBlock Tx) (older : List (EvmBlock Tx)) (s : State Tx)
      → c.header.number ≡ num ext bm fork
      → All (λ m. m.id ≢ fork.id) pre
      → All (λ m. num ext bm fork ≤ num ext bm m) pre
      → All (Removable ext bm) pre
      → All (λ a. a.header.number < num ext bm fork) older
      → AllBuilt ext bm (pre ++ fork ∷ post) (c ∷ older)
      → (txs : List Tx) × (unwind ext bm fork
            (pre ++ fork ∷ post)
            (with_lists s (pre ++ fork ∷ post) (c ∷ older))
          ≡ (ok tt, with_lists s (fork ∷ post) (with_txs c txs ∷ older)))
        × AllBuilt ext bm (fork ∷ post) (with_txs c txs ∷ older)
  unfolding unwind
  unwind-runs [] post c older s same apart high removable below built =
      (c.transactions, rw (==_self fork.id) refl, built)
  unwind-runs (x ∷ pre) post c older s same apart high removable below
        ((before, here, skip, rest), others) =
      let xs : List NativeBlock = pre ++ fork ∷ post in
      let (txs, run, left) =
        unwind-runs pre post (with_txs c before) older s same apart.1 high.1 removable.1 below
          (rest, AllBuilt-tail x xs older (num ext bm fork) high.0 below others) in
      (
        txs,
        rw (ne→==-false _ _ apart.0) (
            >>=-ok (remove_transactions ext bm fork x)
              (λ _. modify (λ t. record t { native_blocks = xs }) >> unwind ext bm fork xs)
              (with_lists s (x ∷ xs) (c ∷ older))
              (remove_transactions-runs x c older before (with_lists s (x ∷ xs) (c ∷ older)) same
                removable.0 here skip)
            ∙ run),
        left,
      )
