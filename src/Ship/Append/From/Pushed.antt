-- ===== src/Ship/Append/From/Pushed.antt =====
-- The loop over the transactions of `append_to_block` and its caller in src/ship_receiver_plugin.cpp
-- keeps the property.
use eos_evm_node.Base.{
  ℕ, ◌≡◌, inl, inr, true, Bool-cases, All, All-append, All-reverse, List, [], ◌∷◌, if◌then◌else◌,
}
use eos_evm_node.Base.Action.{
  Outcome, ok, throw, undefined, pure, modify, of_outcome, Ends, >>=-Ends, ◌>>◌,
}
use eos_evm_node.Channels.{NativeBlock}
use eos_evm_node.Ship.Append.Batch.{push}
use eos_evm_node.Ship.Append.{
  ActionTrace, TransactionTrace, TraceMap, Building, ShipError, is_relevant, order_actions,
  take_actions, check_names, push_transaction, append_ordered, action_to_search, append_to_block,
  append_traces,
}
use eos_evm_node.Ship.Append.From.{
  Each, ActionFrom, BlockFrom, Gathered, order_actions-Each, take_actions-Gathered,
}

module _ (core_account pushtx_n evmtx_n configchange_n : ℕ) where
  module _ (P : ActionTrace → Type 0) (origin : NativeBlock) where
    push_transaction-BlockFrom :
        (trace : TransactionTrace) (ordered : TraceMap) (b : NativeBlock)
        → Each P ordered
        → BlockFrom core_account pushtx_n evmtx_n configchange_n P origin b
        → Ends
            (λ _ b'. BlockFrom core_account pushtx_n evmtx_n configchange_n P origin b')
            (λ _ _. Unit)
            Unit
            (push_transaction core_account pushtx_n evmtx_n configchange_n trace ordered b)
    unfolding push_transaction
    push_transaction-BlockFrom trace [] b from h = h
    push_transaction-BlockFrom trace (entry ∷ rest) b from h =
        pushed (take_actions core_account pushtx_n evmtx_n configchange_n (entry ∷ rest) start) (
          take_actions-Gathered core_account pushtx_n evmtx_n configchange_n P origin (entry ∷ rest)
            start from (tt, h))
      where
        start : Building
        start = record { block = b; pending = [] }

        pushed :
            (r : Outcome ShipError (Unit {0}) × Building)
            → Ends
                (Gathered core_account pushtx_n evmtx_n configchange_n P origin)
                (λ _ _. Unit)
                Unit
                r
            → Ends
                (λ _ b'. BlockFrom core_account pushtx_n evmtx_n configchange_n P origin b')
                (λ _ _. Unit)
                Unit
                ((of_outcome r.0
                    >> of_outcome (
                        check_names core_account pushtx_n evmtx_n configchange_n
                          r.1.block.transactions r.1.pending)
                    >> modify (push core_account pushtx_n evmtx_n configchange_n trace r.1.pending))
                  r.1.block)
        pushed (throw e, c) k = tt
        pushed (undefined, c) k = tt
        pushed (ok done, c) k = agreed (
            check_names core_account pushtx_n evmtx_n configchange_n c.block.transactions c.pending)
          where
            agreed :
                (o : Outcome ShipError (Unit {0}))
                → Ends
                    (λ _ b'. BlockFrom core_account pushtx_n evmtx_n configchange_n P origin b')
                    (λ _ _. Unit)
                    Unit
                    ((of_outcome o
                        >> modify
                            (push core_account pushtx_n evmtx_n configchange_n trace c.pending))
                      c.block)
            agreed (ok done) = (
              k.1.0,
              k.1.1,
              All-append _ c.block.transactions _ k.1.2 (
                All-reverse (ActionFrom core_account pushtx_n evmtx_n configchange_n P origin)
                    c.pending k.0,
                tt,
              ),
            )
            agreed (throw e) = tt
            agreed undefined = tt

    append_to_block-BlockFrom :
        (trace : TransactionTrace) (b : NativeBlock)
        → All
            (λ act.
              is_relevant core_account pushtx_n evmtx_n configchange_n
                  (action_to_search core_account pushtx_n evmtx_n configchange_n
                    trace.action_traces)
                  act
                ≡ true
              → P act)
            trace.action_traces
        → BlockFrom core_account pushtx_n evmtx_n configchange_n P origin b
        → Ends
            (λ _ b'. BlockFrom core_account pushtx_n evmtx_n configchange_n P origin b')
            (λ _ _. Unit)
            Unit
            (append_to_block core_account pushtx_n evmtx_n configchange_n trace b)
    unfolding append_to_block append_ordered
    append_to_block-BlockFrom trace b good h =
        ordered
          (order_actions core_account pushtx_n evmtx_n configchange_n
            (action_to_search core_account pushtx_n evmtx_n configchange_n trace.action_traces) 0
            trace.action_traces trace.action_traces [])
          (order_actions-Each core_account pushtx_n evmtx_n configchange_n P origin
            (action_to_search core_account pushtx_n evmtx_n configchange_n trace.action_traces) 0
            trace.action_traces trace.action_traces [] good tt)
      where
        ordered :
            (r : Outcome ShipError (Unit {0}) × TraceMap)
            → Ends (λ _ m. Each P m) (λ _ _. Unit) Unit r
            → Ends
                (λ _ b'. BlockFrom core_account pushtx_n evmtx_n configchange_n P origin b')
                (λ _ _. Unit)
                Unit
                (append_ordered core_account pushtx_n evmtx_n configchange_n trace r b)
        ordered (ok done, m) from = push_transaction-BlockFrom trace m b from h
        ordered (throw e, m) from = tt
        ordered (undefined, m) from = tt

    pub append_traces-BlockFrom :
        (traces : List TransactionTrace) (b : NativeBlock)
        → All
            (λ trace.
              trace.executed ≡ true
              → All
                  (λ act.
                    is_relevant core_account pushtx_n evmtx_n configchange_n
                        (action_to_search core_account pushtx_n evmtx_n configchange_n
                          trace.action_traces)
                        act
                      ≡ true
                    → P act)
                  trace.action_traces)
            traces
        → BlockFrom core_account pushtx_n evmtx_n configchange_n P origin b
        → Ends
            (λ _ b'. BlockFrom core_account pushtx_n evmtx_n configchange_n P origin b')
            (λ _ _. Unit)
            Unit
            (append_traces core_account pushtx_n evmtx_n configchange_n traces b)
    unfolding append_traces
    append_traces-BlockFrom [] b good h = h
    append_traces-BlockFrom (trace ∷ rest) b good h =
        >>=-Ends (λ _ b'. BlockFrom core_account pushtx_n evmtx_n configchange_n P origin b')
          (λ _ b'. BlockFrom core_account pushtx_n evmtx_n configchange_n P origin b') (λ _ _. Unit)
          Unit (λ _. append_traces core_account pushtx_n evmtx_n configchange_n rest)
          (if trace.executed
            then append_to_block core_account pushtx_n evmtx_n configchange_n trace
            else pure tt)
          b
          (elim (Bool-cases trace.executed) [
            | inl executed ↦ rw executed (append_to_block-BlockFrom trace b (good.0 executed) h)
            | inr skipped ↦ rw skipped h
          ])
          (λ _ b' k. append_traces-BlockFrom rest b' good.1 k)
