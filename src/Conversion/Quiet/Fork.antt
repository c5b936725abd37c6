-- ===== src/Conversion/Quiet/Fork.antt =====
-- The fork branch in src/block_conversion_plugin.cpp, which publishes nothing.
use eos_evm_node.Base.{
  ℕ, true, not, ◌&&◌, Bool-cases, inl, inr, All, List, [], ◌∷◌, Option, none, some, is_empty, ltb,
  ◌==◌,
}
use eos_evm_node.Base.Action.{
  Action, Keeps, >>=-Keeps, if-Keeps, ◌>>=◌, ◌>>◌, gets, modify, pure, raise, undefined_behaviour,
}
use eos_evm_node.Channels.{NativeBlock, reverse_actions_of}
use eos_evm_node.Evm.{EvmBlock, BlockMapping}
use eos_evm_node.External.{External}
use eos_evm_node.Conversion.State.{
  State, Error, unable_to_remove_transactions, unable_to_set_upper_bound, on_back, set_upper_bound,
  timestamp_to_evm_block_num,
}
use eos_evm_node.Conversion.Fork.{
  drop_forked, find_by_id, remove_actions, check_back, remove_transactions, unwind,
  reset_upper_bound, roll_back, roll_back_to, unless_known, resolve_fork,
}
use eos_evm_node.Conversion.Quiet.{
  Undoable, Quiet, on_back-Keeps, remove_actions-Keeps, set_upper_bound-Keeps,
}

module _ {Tx : Type 0} (ext : External Tx) (published : List (EvmBlock Tx))
    (P : EvmBlock Tx → Type 0) (undoable : Undoable P) where
  abbrev Still : State Tx → Type 0
  Still = Quiet ext published P

  module _ (bm : BlockMapping) where
    drop_forked-All :
        (k : ℕ) (blocks : List (EvmBlock Tx)) → All P blocks → All P (drop_forked k blocks)
    unfolding drop_forked
    drop_forked-All k [] h = tt
    drop_forked-All k (b ∷ older) h = elim (Bool-cases (ltb k b.header.number)) [
      | inl above ↦ rw above (drop_forked-All k older h.1)
      | inr here ↦ rw here h
    ]

    check_back-Keeps :
        (k : ℕ) (e : Error) (blocks : List (EvmBlock Tx))
        → Keeps Still (check_back ext bm k e blocks)
    unfolding check_back
    check_back-Keeps k e [] s q =
        if-Keeps Still ext.logs_critical undefined_behaviour (raise e) (λ s q. q) (λ s q. q) s q
    check_back-Keeps k e (b ∷ older) s q =
        if-Keeps Still (k == b.header.number) (pure tt) (raise e) (λ s q. q) (λ s q. q) s q

    abbrev height : NativeBlock → ℕ
    height nb = timestamp_to_evm_block_num ext bm nb.timestamp

    module _ (fork nb : NativeBlock) where
      abbrev removed : Action (State Tx) Error (Unit {0})
      removed = on_back (remove_actions ext (reverse_actions_of nb.transactions))

      abbrev checked : List (EvmBlock Tx) → Action (State Tx) Error (Unit {0})
      checked blocks = check_back ext bm (height nb) unable_to_remove_transactions blocks >> removed

      remove_transactions-Keeps : Keeps Still (remove_transactions ext bm fork nb)
      unfolding remove_transactions
      remove_transactions-Keeps =
          if-Keeps Still (not (is_empty nb.transactions) && height nb == height fork)
            (gets (λ s. s.evm_blocks) >>= checked) (pure tt)
            (>>=-Keeps Still checked
              (λ blocks.
                >>=-Keeps Still (λ _. removed)
                  (λ _.
                    on_back-Keeps ext published P
                      (remove_actions ext (reverse_actions_of nb.transactions))
                      (remove_actions-Keeps ext published P undoable
                        (reverse_actions_of nb.transactions)))
                  (check_back ext bm (height nb) unable_to_remove_transactions blocks)
                  (check_back-Keeps (height nb) unable_to_remove_transactions blocks))
              (gets (λ s. s.evm_blocks)) (λ s q. q))
            (λ s q. q)

    unwind-Keeps :
        (fork : NativeBlock) (natives : List NativeBlock) → Keeps Still (unwind ext bm fork natives)
    unfolding unwind
    unwind-Keeps fork [] s q = q
    unwind-Keeps fork (nb ∷ older) s q =
        if-Keeps Still (nb.id == fork.id) (pure tt)
          (remove_transactions ext bm fork nb >>= λ _. popped) (λ s q. q)
          (>>=-Keeps Still (λ _. popped)
            (λ _.
              >>=-Keeps Still (λ _. unwind ext bm fork older) (λ _. unwind-Keeps fork older)
                (modify (λ s. record s { native_blocks = older })) (λ s q. q))
            (remove_transactions ext bm fork nb) (remove_transactions-Keeps fork nb))
          s q
      where
        popped : Action (State Tx) Error (Unit {0})
        popped = modify (λ s. record s { native_blocks = older }) >> unwind ext bm fork older

    module _ (nb : NativeBlock) where
      abbrev bound : Action (State Tx) Error (Unit {0})
      bound = on_back (modify (set_upper_bound nb))

      abbrev fits : List (EvmBlock Tx) → Action (State Tx) Error (Unit {0})
      fits blocks = check_back ext bm (height nb) unable_to_set_upper_bound blocks >> bound

    reset_upper_bound-Keeps :
        (natives : List NativeBlock) → Keeps Still (reset_upper_bound ext bm natives)
    unfolding reset_upper_bound
    reset_upper_bound-Keeps [] s q =
        if-Keeps Still (is_empty s.evm_blocks && not ext.logs_critical)
          (raise unable_to_set_upper_bound) undefined_behaviour (λ s q. q) (λ s q. q) s q
    reset_upper_bound-Keeps (nb ∷ older) s q =
        >>=-Keeps Still (λ _. bound nb)
          (λ _.
            on_back-Keeps ext published P (modify (set_upper_bound nb))
              (set_upper_bound-Keeps ext published P undoable nb))
          (check_back ext bm (height nb) unable_to_set_upper_bound s.evm_blocks)
          (check_back-Keeps (height nb) unable_to_set_upper_bound s.evm_blocks) s q

    roll_back-Keeps :
        (natives : List NativeBlock) (fork : NativeBlock)
        → Keeps Still (roll_back ext bm natives fork)
    unfolding roll_back
    roll_back-Keeps natives fork s q =
        >>=-Keeps Still
          (λ _. gets (λ s. s.native_blocks) >>= λ rest. reset_upper_bound ext bm rest >> pure true)
          (λ _ s q.
            >>=-Keeps Still (λ _. pure true) (λ _ s q. q) (reset_upper_bound ext bm s.native_blocks)
              (reset_upper_bound-Keeps s.native_blocks) s q)
          (unwind ext bm fork natives) (unwind-Keeps fork natives)
          (record s { evm_blocks = drop_forked (height fork) s.evm_blocks })
          (q.0, drop_forked-All (height fork) s.evm_blocks q.1)

    roll_back_to-Keeps :
        (natives : List NativeBlock) (o : Option NativeBlock)
        → Keeps Still (roll_back_to ext bm natives o)
    unfolding roll_back_to
    roll_back_to-Keeps natives none s q = q
    roll_back_to-Keeps natives (some fork) s q = roll_back-Keeps natives fork s q

    pub resolve_fork-Keeps : (new_block : NativeBlock) → Keeps Still (resolve_fork ext bm new_block)
    unfolding resolve_fork
    resolve_fork-Keeps new_block s q = known (find_by_id new_block.id s.native_blocks)
      where
        known :
            (o : Option NativeBlock)
            → Still
                (unless_known ext bm
                  (roll_back_to ext bm s.native_blocks (find_by_id new_block.prev s.native_blocks))
                  o
                  s).1
        known none =
            roll_back_to-Keeps s.native_blocks (find_by_id new_block.prev s.native_blocks) s q
        known (some dup) = q
