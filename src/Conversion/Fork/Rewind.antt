-- ===== src/Conversion/Fork/Rewind.antt =====
-- Going back to the fork block, in src/block_conversion_plugin.cpp, from lists that are split at it: what
-- follows the search, and what it leaves.
use eos_evm_node.Base.{
  ◌≤◌, ◌≡◌, ◌≢◌, refl, sym, ◌∙◌, inl, Bool, true, All, All-map, All-prefix, All-suffix, last_of,
  List, [], ◌∷◌, ◌++◌, arith, ==_self,
}
use eos_evm_node.Base.Action.{Action, ok, >>=-ok, ◌>>=◌, ◌>>◌, gets, pure}
use eos_evm_node.Channels.{NativeBlock}
use eos_evm_node.Evm.{EvmBlock, BlockMapping}
use eos_evm_node.External.{External}
use eos_evm_node.Conversion.State.{State, Error, set_upper_bound}
use eos_evm_node.Conversion.Content.{num}
use eos_evm_node.Conversion.Invariant.{
  IsValid, EvmChain, Rising, NativeChain, Distinct, oldest_number, AllBuilt, AllBuilt-replace,
  EvmChain-below, EvmChain-replace, oldest_replace, Removable,
}
use eos_evm_node.Conversion.Fork.{check_back, reset_upper_bound, unwind}
use eos_evm_node.Conversion.Fork.Rollback.{with_txs}
use eos_evm_node.Conversion.Fork.Unwind.{with_lists, unwind-runs}

pub NativeChain-suffix : (xs ys : List NativeBlock) → NativeChain (xs ++ ys) → NativeChain ys
NativeChain-suffix [] ys h = h
NativeChain-suffix (x ∷ xs) ys h = NativeChain-suffix xs ys h.1

Distinct-suffix : (xs ys : List NativeBlock) → Distinct (xs ++ ys) → Distinct ys
Distinct-suffix [] ys h = h
Distinct-suffix (x ∷ xs) ys h = Distinct-suffix xs ys h.1

pub last_of-suffix {ℓ} :
    {A : Type ℓ} (d c : A) (xs ys : List A) → last_of d (xs ++ c ∷ ys) ≡ last_of c ys
last_of-suffix d c [] ys = refl
last_of-suffix d c (x ∷ xs) ys = last_of-suffix x c xs ys

module _ {Tx : Type 0} (ext : External Tx) where
  pub EvmChain-suffix : (xs ys : List (EvmBlock Tx)) → EvmChain ext (xs ++ ys) → EvmChain ext ys
  EvmChain-suffix [] ys h = h
  EvmChain-suffix (x ∷ xs) ys h = EvmChain-suffix xs ys h.1

  module _ (bm : BlockMapping) where
    Rising-suffix : (xs ys : List NativeBlock) → Rising ext bm (xs ++ ys) → Rising ext bm ys
    Rising-suffix [] ys h = h
    Rising-suffix (x ∷ xs) ys h = Rising-suffix xs ys h.1

    Rising-high :
        (pre : List NativeBlock) (f : NativeBlock) (post : List NativeBlock)
        → Rising ext bm (pre ++ f ∷ post)
        → All (λ m. num ext bm f ≤ num ext bm m) pre
    Rising-high [] f post h = tt
    Rising-high (x ∷ pre) f post h =
        ((All-suffix _ pre (f ∷ post) h.0).0, Rising-high pre f post h.1)

    -- What is left when the fork has been resolved at the block `f`.
    pub record Resolved (f : NativeBlock) (natives : List NativeBlock) (s s' : State Tx)
        : Type 0 where
      pub gone : List NativeBlock
      pub post : List NativeBlock
      pub back : EvmBlock Tx
      pub older : List (EvmBlock Tx)
      pub state : s' ≡ with_lists ext bm f s (f ∷ post) (back ∷ older)
      pub split : natives ≡ gone ++ f ∷ post
      pub same_height : num ext bm f ≡ back.header.number
      pub upper_bound : back.header.prev_randao ≡ f.id
      pub valid : IsValid ext bm (f ∷ post) (back ∷ older)

    reset_upper_bound-runs :
        (f : NativeBlock) (post : List NativeBlock) (c : EvmBlock Tx) (older : List (EvmBlock Tx))
        (s : State Tx)
        → c.header.number ≡ num ext bm f
        → reset_upper_bound ext bm (f ∷ post) (with_lists ext bm f s (f ∷ post) (c ∷ older))
          ≡ (ok tt, with_lists ext bm f s (f ∷ post) (set_upper_bound f c ∷ older))
    unfolding reset_upper_bound check_back
    reset_upper_bound-runs f post c older s same = rw (same, ==_self (num ext bm f)) refl

    set_upper_bound-place :
        (f : NativeBlock) (c : EvmBlock Tx)
        → ((set_upper_bound f c).header.number ≡ c.header.number)
          × ((set_upper_bound f c).header.parent_hash ≡ c.header.parent_hash)
          × ((set_upper_bound f c).transactions ≡ c.transactions)
          × ((set_upper_bound f c).header.prev_randao ≡ f.id)
    unfolding set_upper_bound
    set_upper_bound-place f c = (refl, refl, refl, refl)

    -- The invariant at the fork block.
    resolved-IsValid :
        (pre post : List NativeBlock) (f : NativeBlock) (dropped : List (EvmBlock Tx))
        (c d : EvmBlock Tx) (older : List (EvmBlock Tx))
        → NativeChain (pre ++ f ∷ post)
        → Distinct (pre ++ f ∷ post)
        → Rising ext bm (pre ++ f ∷ post)
        → All (λ nb. 1 ≤ num ext bm nb) (pre ++ f ∷ post)
        → All (Removable ext bm) (pre ++ f ∷ post)
        → EvmChain ext (c ∷ older)
        → All (λ nb. oldest_number c older ≤ num ext bm nb) (pre ++ f ∷ post)
        → (d.header.number ≡ c.header.number) × (d.header.parent_hash ≡ c.header.parent_hash)
        → num ext bm f ≡ d.header.number
        → AllBuilt ext bm (f ∷ post) (d ∷ older)
        → IsValid ext bm (f ∷ post) (d ∷ older)
    resolved-IsValid pre post f dropped c d older nc dis ris pos rem ec cov place same built =
        record {
          native_chain = NativeChain-suffix pre (f ∷ post) nc;
          distinct = Distinct-suffix pre (f ∷ post) dis;
          rising = Rising-suffix pre (f ∷ post) ris;
          positive = All-suffix _ pre (f ∷ post) pos;
          removable = All-suffix _ pre (f ∷ post) rem;
          evm_chain = EvmChain-replace ext c d older place.0 place.1 ec;
          tip = inl same;
          covers =
              All-map (f ∷ post) (λ m h. oldest_replace c d older place.0 _ h)
                (All-suffix _ pre (f ∷ post) cov);
          built = built;
        }

    -- What follows the loop.
    abbrev pub finish : Action (State Tx) Error Bool
    finish = gets (λ s. s.native_blocks) >>= λ left. reset_upper_bound ext bm left >> pure true

    -- The branch after the search, on lists that are split at the fork and at its height.
    pub after_search :
        (pre post : List NativeBlock) (f : NativeBlock) (dropped : List (EvmBlock Tx))
        (c : EvmBlock Tx) (older : List (EvmBlock Tx)) (s : State Tx)
        → IsValid ext bm (pre ++ f ∷ post) (dropped ++ c ∷ older)
        → All (λ nb. oldest_number c older ≤ num ext bm nb) (pre ++ f ∷ post)
        → c.header.number ≡ num ext bm f
        → All (λ m. m.id ≢ f.id) pre
        → (s' : State Tx) × ((unwind ext bm f (pre ++ f ∷ post) >> finish)
              (with_lists ext bm f s (pre ++ f ∷ post) (c ∷ older))
            ≡ (ok true, s'))
          × Resolved f (pre ++ f ∷ post) s s'
    after_search pre post f dropped c older s v cov same apart =
        let chain : EvmChain ext (c ∷ older) = EvmChain-suffix dropped (c ∷ older) v.evm_chain in
        let (txs, run, built) =
          unwind-runs ext bm f pre post c older s same apart (Rising-high pre f post v.rising)
            (All-prefix _ pre (f ∷ post) v.removable)
            (EvmChain-below ext (num ext bm f) c older chain (omega arith))
            (All-suffix _ dropped (c ∷ older) v.built) in
        let d : EvmBlock Tx = set_upper_bound f (with_txs c txs) in
        let (number, parent, content, upper) = set_upper_bound-place f (with_txs c txs) in
        (
          with_lists ext bm f s (f ∷ post) (d ∷ older),
          >>=-ok (unwind ext bm f (pre ++ f ∷ post)) (λ _. finish) _ run
              ∙ >>=-ok (reset_upper_bound ext bm (f ∷ post)) (λ _. pure true) _
                  (reset_upper_bound-runs f post (with_txs c txs) older s same),
          record {
            gone = pre;
            post = post;
            back = d;
            older = older;
            state = refl;
            split = refl;
            same_height = sym same ∙ sym number;
            upper_bound = upper;
            valid =
                resolved-IsValid pre post f dropped c d older v.native_chain v.distinct v.rising
                  v.positive v.removable chain cov (number, parent) (sym same ∙ sym number)
                  (AllBuilt-replace ext bm (f ∷ post) (with_txs c txs) d older number content
                    built);
          },
        )
