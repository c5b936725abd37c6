-- ===== src/Conversion/Fork/Resolve.antt =====
-- The fork branch as a whole, in src/block_conversion_plugin.cpp: where the two chains belong
-- together, a block whose parent is known always finds its place.
use eos_evm_node.Base.{
  ◌≤◌, ◌≡◌, ◌≢◌, sym, ap, ap₂, subst, subst₂, ◌∙◌, ◌⊎◌, inl, inr, Bool, true, false, Option-cases,
  All, All-map, All-suffix, last_of, List, ◌∷◌, ◌++◌, none, some, arith,
}
use eos_evm_node.Base.Action.{ok, throw, Outcome, ◌>>◌}
use eos_evm_node.Channels.{NativeBlock}
use eos_evm_node.Evm.{EvmBlock, BlockMapping}
use eos_evm_node.External.{External}
use eos_evm_node.Conversion.State.{State, Error, unable_to_find_fork_block}
use eos_evm_node.Conversion.Content.{num}
use eos_evm_node.Conversion.Invariant.{IsValid, oldest_number}
use eos_evm_node.Conversion.Fork.{
  find_by_id, drop_forked, unwind, unless_known, roll_back_to, resolve_fork,
}
use eos_evm_node.Conversion.Fork.Search.{find_by_id-Splits, drop_forked-ForkedCut}
use eos_evm_node.Conversion.Fork.Unwind.{with_lists}
use eos_evm_node.Conversion.Fork.Rewind.{Resolved, after_search, finish, last_of-suffix}

module _ {Tx : Type 0} (ext : External Tx) where
  module _ (bm : BlockMapping) where
    -- The three ways the branch can end, and no other.
    abbrev pub ForkEnds :
        NativeBlock → List NativeBlock → State Tx → Outcome Error Bool × State Tx → Type 0
    ForkEnds new_block natives s r =
        ((dup : NativeBlock) × (find_by_id new_block.id natives ≡ some dup) × (r ≡ (ok false, s)))
        ⊎ (((find_by_id new_block.id natives ≡ none)
              × (find_by_id new_block.prev natives ≡ none)
              × (r ≡ (throw unable_to_find_fork_block, s)))
            ⊎ ((fork : NativeBlock) × (s' : State Tx) × (find_by_id new_block.id natives ≡ none)
                × (find_by_id new_block.prev natives ≡ some fork)
                × (fork.id ≡ new_block.prev)
                × (r ≡ (ok true, s'))
                × Resolved ext bm fork natives s s'))

    module _ (new_block nb : NativeBlock) (older : List NativeBlock) (b : EvmBlock Tx)
        (rest : List (EvmBlock Tx)) (v : IsValid ext bm (nb ∷ older) (b ∷ rest))
        (unlinked : nb.id ≢ new_block.prev) where
      heights : All (λ m. m.id ≡ new_block.prev → num ext bm m ≤ b.header.number) (nb ∷ older)
      heights = elim v.tip [
        | inl same ↦ ((λ e. absurd (unlinked e)), All-map older (λ m h e. omega arith) v.rising.0)
        | inr single ↦ (
          (λ e. absurd (unlinked e)),
          subst (All (λ m. m.id ≡ new_block.prev → num ext bm m ≤ b.header.number)) (sym single.0)
              tt,
        )
      ]

      resolve_fork-found :
          (s : State Tx) (natives : List NativeBlock) (evm : List (EvmBlock Tx)) (f : NativeBlock)
          → find_by_id new_block.id natives ≡ none
          → find_by_id new_block.prev natives ≡ some f
          → resolve_fork ext bm new_block (with_lists ext bm f s natives evm)
            ≡ (unwind ext bm f natives >> finish ext bm)
                (with_lists ext bm f s natives (drop_forked (num ext bm f) evm))
      unfolding resolve_fork
      resolve_fork-found s natives evm f fresh found =
          ap
            (λ o.
              unless_known ext bm (roll_back_to ext bm natives (find_by_id new_block.prev natives))
                o (with_lists ext bm f s natives evm))
            fresh
          ∙ ap (λ o. roll_back_to ext bm natives o (with_lists ext bm f s natives evm)) found

      resolve_fork-duplicate :
          (s : State Tx) (dup : NativeBlock)
          → find_by_id new_block.id s.native_blocks ≡ some dup
          → resolve_fork ext bm new_block s ≡ (ok false, s)
      unfolding resolve_fork
      resolve_fork-duplicate s dup known =
          ap
            (λ o.
              unless_known ext bm
                (roll_back_to ext bm s.native_blocks (find_by_id new_block.prev s.native_blocks)) o
                s)
            known

      resolve_fork-unknown :
          (s : State Tx)
          → find_by_id new_block.id s.native_blocks ≡ none
          → find_by_id new_block.prev s.native_blocks ≡ none
          → resolve_fork ext bm new_block s ≡ (throw unable_to_find_fork_block, s)
      unfolding resolve_fork
      resolve_fork-unknown s fresh unknown =
          ap
            (λ o.
              unless_known ext bm
                (roll_back_to ext bm s.native_blocks (find_by_id new_block.prev s.native_blocks)) o
                s)
            fresh
          ∙ ap (λ o. roll_back_to ext bm s.native_blocks o s) unknown

      -- The branch where the parent is found.
      resolve_found :
          (s : State Tx) (pre post : List NativeBlock) (f : NativeBlock)
          → find_by_id new_block.id (nb ∷ older) ≡ none
          → find_by_id new_block.prev (nb ∷ older) ≡ some f
          → nb ∷ older ≡ pre ++ f ∷ post
          → f.id ≡ new_block.prev
          → All (λ m. m.id ≢ f.id) pre
          → (s' : State Tx) × (resolve_fork ext bm new_block
                (with_lists ext bm f s (nb ∷ older) (b ∷ rest))
              ≡ (ok true, s'))
            × Resolved ext bm f (nb ∷ older) s s'
      resolve_found s pre post f fresh found split at apart =
          let high : num ext bm f ≤ b.header.number =
            (All-suffix (λ m. m.id ≡ new_block.prev → num ext bm m ≤ b.header.number) pre (f ∷ post)
                (subst (All (λ m. m.id ≡ new_block.prev → num ext bm m ≤ b.header.number)) split
                  heights)).0
              at in
          let low : All (λ nb. oldest_number b rest ≤ num ext bm nb) (pre ++ f ∷ post) =
            subst (All (λ nb. oldest_number b rest ≤ num ext bm nb)) split v.covers in
          let (c, lower, dropped, run, level, cut) =
            drop_forked-ForkedCut ext (num ext bm f) b rest v.evm_chain
              (All-suffix (λ nb. oldest_number b rest ≤ num ext bm nb) pre (f ∷ post) low).0 high in
          let oldest : oldest_number b rest ≡ oldest_number c lower =
            ap (λ t. (last_of c t).header.number) cut
            ∙ ap (λ (t : EvmBlock Tx). t.header.number) (last_of-suffix c c dropped lower) in
          let (s', go, r) =
            after_search ext bm pre post f dropped c lower s
              (subst₂ (λ xs ys. IsValid ext bm xs ys) split cut v)
              (subst (λ k. All (λ nb. k ≤ num ext bm nb) (pre ++ f ∷ post)) oldest low) level
              apart in
          (
            s',
            resolve_fork-found s (nb ∷ older) (b ∷ rest) f fresh found
                ∙ ap
                    (λ t.
                      (unwind ext bm f (nb ∷ older) >> finish ext bm)
                        (with_lists ext bm f s (nb ∷ older) t))
                    run
                ∙ ap
                    (λ t.
                      (unwind ext bm f t >> finish ext bm) (with_lists ext bm f s t (c ∷ lower)))
                    split
                ∙ go,
            subst (λ t. Resolved ext bm f t s s') (sym split) r,
          )

      -- In a state where the two chains belong together, and whose last native block is not the parent
      -- of the received block, the branch ends in one of three ways: a block that is in the list
      -- changes nothing and ends the handler; one whose parent is not in the list throws; for any
      -- other, both lists go back to the parent, still belong together, the last EVM block is the
      -- parent's, and the parent's id is its upper bound.
      pub resolve_fork-ForkEnds :
          (s : State Tx)
          → s.native_blocks ≡ nb ∷ older
          → s.evm_blocks ≡ b ∷ rest
          → ForkEnds new_block (nb ∷ older) s (resolve_fork ext bm new_block s)
      resolve_fork-ForkEnds s en ee = elim (Option-cases (find_by_id new_block.id (nb ∷ older))) [
        | inr (dup, known) ↦
            inl (dup, known, resolve_fork-duplicate s dup (ap (find_by_id new_block.id) en ∙ known))
        | inl fresh ↦ elim (Option-cases (find_by_id new_block.prev (nb ∷ older))) [
          | inl unknown ↦ inr (
              inl (
                fresh,
                unknown,
                resolve_fork-unknown s (ap (find_by_id new_block.id) en ∙ fresh)
                    (ap (find_by_id new_block.prev) en ∙ unknown),
              ))
          | inr (f, found) ↦
              let (pre, post, split, at, apart) =
                find_by_id-Splits new_block.prev (nb ∷ older) f v.distinct found in
              let (s', run, r) =
                resolve_found s pre post f fresh found split at
                  (All-map pre (λ m ne e. ne (e ∙ at)) apart) in
              inr (
                inr (
                  f,
                  s',
                  fresh,
                  found,
                  at,
                  ap (resolve_fork ext bm new_block) (ap₂ (with_lists ext bm f s) en ee) ∙ run,
                  r,
                ))
        ]
      ]
