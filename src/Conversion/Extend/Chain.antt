-- ===== src/Conversion/Extend/Chain.antt =====
-- The loop that extends the EVM chain, in src/block_conversion_plugin.cpp: it ends, and publishes
-- the blocks that it completes in the order of their heights.
use mathlib.Core.List.{append_assoc}
use eos_evm_node.Base.{
  ℕ, suc, ◌+◌, ◌-◌, ◌<◌, ◌≡◌, refl, sym, ap, ◌∙◌, Bool-cases, inl, inr, All, List, [], ◌∷◌, ◌++◌,
  Option, arith, ltb, ltb→lt, ltb-false→le, length, length-append, All-append, subst, zero,
}
use eos_evm_node.Base.Action.{ok}
use eos_evm_node.Channels.{NativeBlock}
use eos_evm_node.Evm.{EvmBlock, BlockMapping, ChainConfig}
use eos_evm_node.External.{External, Laws}
use eos_evm_node.Conversion.State.{State}
use eos_evm_node.Conversion.Content.{Built}
use eos_evm_node.Conversion.Invariant.{EvmChain, Follows, AllBuilt, oldest_number}
use eos_evm_node.Conversion.Extend.{
  compute_transaction_root, generate_new_evm_block, sealed_block, publish_back, extend_loop, extend,
}

module _ {Tx : Type 0} (ext : External Tx) (laws : Laws ext) (config : Option ChainConfig)
    (bm : BlockMapping) (contract : ℕ) where
  -- What one call of the loop has done, from `last ∷ older` on.
  pub record Extended (evm_num : ℕ) (last : EvmBlock Tx) (older : List (EvmBlock Tx))
      (s s' : State Tx) : Type 0 where
    pub tip : EvmBlock Tx
    pub added : List (EvmBlock Tx)
    pub blocks : s'.evm_blocks ≡ tip ∷ added ++ older
    pub sent : s'.published ≡ added ++ s.published
    pub rounds : length added ≡ evm_num - last.header.number
    pub height : tip.header.number ≡ last.header.number + length added
    pub rooted :
        All (λ b. b.header.transactions_root ≡ compute_transaction_root ext b.transactions) added
    pub chained : EvmChain ext (tip ∷ added ++ older)
    pub others : s' ≡ record s { evm_blocks = s'.evm_blocks; published = s'.published }
    pub content :
        (natives : List NativeBlock)
        → ((k : ℕ) → last.header.number < k → Built ext bm k natives [])
        → AllBuilt ext bm natives (last ∷ older)
        → AllBuilt ext bm natives (tip ∷ added ++ older)
    pub oldest : oldest_number tip (added ++ older) ≡ oldest_number last older

  sealed-EvmChain :
      (last : EvmBlock Tx) (older : List (EvmBlock Tx))
      → EvmChain ext (last ∷ older)
      → EvmChain ext (sealed_block ext config bm contract last ∷ older)
  unfolding sealed_block
  sealed-EvmChain last [] h = h
  sealed-EvmChain last (a ∷ older) h = h

  sealed-oldest :
      (last : EvmBlock Tx) (older : List (EvmBlock Tx))
      → oldest_number (sealed_block ext config bm contract last) older ≡ oldest_number last older
  unfolding sealed_block
  sealed-oldest last [] = refl
  sealed-oldest last (a ∷ older) = refl

  pub new-Follows :
      (last : EvmBlock Tx) (older : List (EvmBlock Tx))
      → Follows ext (generate_new_evm_block ext config bm contract last) (last ∷ older)
  unfolding generate_new_evm_block
  new-Follows last older = (
    omega (arith, laws.prepared_number ext.default_header bm contract (last.header.number + 1) _ _),
    refl,
  )

  new-number :
      (last : EvmBlock Tx)
      → (generate_new_evm_block ext config bm contract last).header.number ≡ last.header.number + 1
  unfolding generate_new_evm_block
  new-number last = laws.prepared_number ext.default_header bm contract (last.header.number + 1) _ _

  new-content :
      (natives : List NativeBlock) (last : EvmBlock Tx) (older : List (EvmBlock Tx))
      → ((k : ℕ) → last.header.number < k → Built ext bm k natives [])
      → AllBuilt ext bm natives (last ∷ older)
      → let full = sealed_block ext config bm contract last in
        AllBuilt ext bm natives (generate_new_evm_block ext config bm contract full ∷ full ∷ older)
  unfolding sealed_block generate_new_evm_block
  new-content natives last older fresh h =
      (fresh _ (omega (arith, new-number (sealed_block ext config bm contract last))), h)

  -- One more round in front of the rounds that a smaller call has made.
  Extended-round :
      (evm_num : ℕ) (last : EvmBlock Tx) (older : List (EvmBlock Tx)) (s s' : State Tx)
      → last.header.number < evm_num
      → EvmChain ext (last ∷ older)
      → let full = sealed_block ext config bm contract last in
        Extended evm_num
          (generate_new_evm_block ext config bm contract full)
          (full ∷ older)
          (publish_back ext config bm contract last older s)
          s'
        → Extended evm_num last older s s'
  unfolding publish_back sealed_block
  Extended-round evm_num last older s s' below chain e = record {
    tip = e.tip;
    added = e.added ++ full ∷ [];
    blocks = e.blocks ∙ ap (λ t. e.tip ∷ t) joined;
    sent = e.sent ∙ sym (append_assoc e.added (full ∷ []) s.published);
    rounds = omega (arith, length-append e.added (full ∷ []), e.rounds, number);
    height = omega (arith, length-append e.added (full ∷ []), e.height, number);
    rooted = All-append _ e.added (full ∷ []) e.rooted (refl, tt);
    chained = subst (λ t. EvmChain ext (e.tip ∷ t)) joined e.chained;
    others = e.others;
    content = λ natives fresh h.
        subst (λ t. AllBuilt ext bm natives (e.tip ∷ t)) joined
          (e.content natives (λ k above. fresh k (omega (arith, number)))
            (new-content natives last older fresh h));
    oldest = ap (λ t. oldest_number e.tip t) (sym joined) ∙ e.oldest ∙ sealed-oldest last older;
  }
    where
      full : EvmBlock Tx
      full = sealed_block ext config bm contract last

      number :
          (generate_new_evm_block ext config bm contract full).header.number
          ≡ last.header.number + 1
      number = new-number full

      joined : e.added ++ full ∷ older ≡ (e.added ++ full ∷ []) ++ older
      joined = sym (append_assoc e.added (full ∷ []) older)

  -- With fuel beyond the heights that are missing, the loop ends by its test.
  pub extend_loop-Extended :
      (fuel evm_num : ℕ) (last : EvmBlock Tx) (older : List (EvmBlock Tx)) (s : State Tx)
      → s.evm_blocks ≡ last ∷ older
      → evm_num - last.header.number < fuel
      → EvmChain ext (last ∷ older)
      → (s' : State Tx) × (extend_loop ext config bm contract fuel evm_num (last ∷ older) s
          ≡ (ok tt, s'))
        × Extended evm_num last older s s'
  unfolding extend_loop publish_back
  extend_loop-Extended zero evm_num last older s at enough chain = absurd (omega arith)
  extend_loop-Extended (suc fuel) evm_num last older s at enough chain =
      elim (Bool-cases (ltb last.header.number evm_num)) [
        | inl more ↦
            let full : EvmBlock Tx = sealed_block ext config bm contract last in
            let (s', run, x) =
              extend_loop-Extended fuel evm_num (generate_new_evm_block ext config bm contract full)
                (full ∷ older) (publish_back ext config bm contract last older s) refl
                (omega (arith, ltb→lt _ _ more, new-number full))
                (new-Follows full older, sealed-EvmChain last older chain) in
            (s', rw more run, Extended-round evm_num last older s s' (ltb→lt _ _ more) chain x)
        | inr done ↦ (
          s,
          rw done refl,
          record {
            tip = last;
            added = [];
            blocks = at;
            sent = refl;
            rounds = omega (arith, ltb-false→le _ _ done);
            height = omega arith;
            rooted = tt;
            chained = chain;
            others = refl;
            content = λ natives fresh h. h;
            oldest = refl;
          },
        )
      ]

  -- On a chain of EVM blocks, the loop that the handler runs ends for every number asked for: the
  -- last block then has this number, unless it was there or beyond before; the blocks passed are
  -- published in order with their transaction roots, the chain stays linked by numbers and hashes,
  -- and what the transactions are made of is kept.
  pub extend-Extended :
      (evm_num : ℕ) (last : EvmBlock Tx) (older : List (EvmBlock Tx)) (s : State Tx)
      → s.evm_blocks ≡ last ∷ older
      → EvmChain ext (last ∷ older)
      → (s' : State Tx) × (extend ext config bm contract evm_num s ≡ (ok tt, s'))
        × Extended evm_num last older s s'
  unfolding extend
  extend-Extended evm_num last older s at chain =
      let (s', run, x) =
        extend_loop-Extended (suc evm_num) evm_num last older s at (omega arith) chain in
      (s', ap (λ t. extend_loop ext config bm contract (suc evm_num) evm_num t s) at ∙ run, x)
