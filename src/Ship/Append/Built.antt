-- ===== src/Ship/Append/Built.antt =====
-- All transactions of a native block, in src/ship_receiver_plugin.cpp.
use eos_evm_node.Base.{
  ℕ, ◌≡◌, sym, subst, ◌⊎◌, inl, inr, Bool, true, false, List, [], ◌∷◌, if◌then◌else◌,
}
use eos_evm_node.Base.Action.{
  Outcome, ok, throw, undefined, pure, Ends, Ends-mono, >>=-Ends, ◌>>◌, of_outcome, modify,
}
use eos_evm_node.Channels.{NativeAction, NativeBlock}
use eos_evm_node.Ship.Append.{
  Building, ShipError, TraceMap, TransactionTrace, take_actions, names_agree, check_names,
  push_transaction, append_ordered, append_to_block, append_traces, order_actions, action_to_search,
}
use eos_evm_node.Ship.Append.Uniform.{Uniform, take_actions-Uniform}
use eos_evm_node.Ship.Append.Batch.{IsBatch, OnlyConfigures, Grows, push, append_to_block-IsBatch}

module _ (core_account pushtx_n evmtx_n configchange_n : ℕ) where
  -- After a transaction without actions, no transaction is added.
  stuck :
      (trace : TransactionTrace) (pending : List NativeAction) (b : NativeBlock)
      → OnlyConfigures b.transactions
      → Ends
          (λ _ b'. OnlyConfigures b'.transactions)
          (λ _ _. Unit)
          Unit
          ((of_outcome
                (check_names core_account pushtx_n evmtx_n configchange_n b.transactions pending)
              >> modify (push core_account pushtx_n evmtx_n configchange_n trace pending))
            b)
  unfolding check_names names_agree
  stuck trace pending b (trx, one, empty) = rw (one, empty) tt

  push_transaction-OnlyConfigures :
      (trace : TransactionTrace) (ordered : TraceMap) (b : NativeBlock)
      → OnlyConfigures b.transactions
      → Ends
          (λ _ b'. OnlyConfigures b'.transactions)
          (λ _ _. Unit)
          Unit
          (push_transaction core_account pushtx_n evmtx_n configchange_n trace ordered b)
  unfolding push_transaction
  push_transaction-OnlyConfigures trace [] b h = h
  push_transaction-OnlyConfigures trace (entry ∷ rest) b h =
      from (take_actions core_account pushtx_n evmtx_n configchange_n (entry ∷ rest) start)
        (take_actions-Uniform core_account pushtx_n evmtx_n configchange_n (entry ∷ rest) start tt)
    where
      start : Building
      start = record { block = b; pending = [] }

      from :
          (r : Outcome ShipError (Unit {0}) × Building)
          → Ends
              (λ _ d. (d.block.transactions ≡ b.transactions) × Uniform configchange_n d.pending)
              (λ _ d. d.block.transactions ≡ b.transactions)
              ⊥
              r
          → Ends
              (λ _ b'. OnlyConfigures b'.transactions)
              (λ _ _. Unit)
              Unit
              ((of_outcome r.0
                  >> of_outcome (
                      check_names core_account pushtx_n evmtx_n configchange_n
                        r.1.block.transactions r.1.pending)
                  >> modify (push core_account pushtx_n evmtx_n configchange_n trace r.1.pending))
                r.1.block)
      from (ok done, c) (stay, uniform) =
          stuck trace c.pending c.block (subst OnlyConfigures (sym stay) h)
      from (throw e, c) stay = tt
      from (undefined, c) stay = tt

  abbrev IsBuilt : Unit {0} → NativeBlock → Type 0
  IsBuilt _ b = IsBatch configchange_n b.transactions ⊎ OnlyConfigures b.transactions

  append_to_block-IsBuilt :
      (trace : TransactionTrace) (b : NativeBlock)
      → IsBuilt tt b
      → Ends IsBuilt
          (λ _ _. Unit)
          Unit
          (append_to_block core_account pushtx_n evmtx_n configchange_n trace b)
  unfolding append_to_block append_ordered
  append_to_block-IsBuilt trace b (inl batch) =
      weaken _ (append_to_block-IsBatch core_account pushtx_n evmtx_n configchange_n trace b batch)
    where
      weaken :
          (r : Outcome ShipError (Unit {0}) × NativeBlock)
          → Grows core_account pushtx_n evmtx_n configchange_n r
          → Ends IsBuilt (λ _ _. Unit) Unit r
      weaken (ok done, b') h = h
      weaken (throw e, b') h = tt
      weaken (undefined, b') h = tt
  append_to_block-IsBuilt trace b (inr only) = from (
      order_actions core_account pushtx_n evmtx_n configchange_n
        (action_to_search core_account pushtx_n evmtx_n configchange_n trace.action_traces) 0
        trace.action_traces trace.action_traces [])
    where
      from :
          (r : Outcome ShipError (Unit {0}) × TraceMap)
          → Ends IsBuilt
              (λ _ _. Unit)
              Unit
              (append_ordered core_account pushtx_n evmtx_n configchange_n trace r b)
      from (ok done, ordered) =
          Ends-mono (λ _ b'. OnlyConfigures b'.transactions) IsBuilt (λ _ _. Unit) (λ _ _. Unit)
            Unit _ (push_transaction-OnlyConfigures trace ordered b only) (λ _ _ h. inr h)
            (λ _ _ h. h)
      from (throw e, ordered) = tt
      from (undefined, ordered) = tt

  -- Where the loop over the transactions of a block starts from a batch and returns, all actions of
  -- the block have one name, other than that of a configuration, and each transaction has an action;
  -- or the block has one transaction in all, without actions.
  pub append_traces-IsBatch :
      (traces : List TransactionTrace) (b : NativeBlock)
      → IsBatch configchange_n b.transactions ⊎ OnlyConfigures b.transactions
      → Ends
          (λ _ b'. IsBatch configchange_n b'.transactions ⊎ OnlyConfigures b'.transactions)
          (λ _ _. Unit)
          Unit
          (append_traces core_account pushtx_n evmtx_n configchange_n traces b)
  unfolding append_traces
  append_traces-IsBatch [] b h = h
  append_traces-IsBatch (trace ∷ rest) b h =
      >>=-Ends IsBuilt IsBuilt (λ _ _. Unit) Unit
        (λ _. append_traces core_account pushtx_n evmtx_n configchange_n rest)
        (if trace.executed
          then append_to_block core_account pushtx_n evmtx_n configchange_n trace
          else pure tt)
        b (either trace.executed) (λ _ b' k. append_traces-IsBatch rest b' k)
    where
      either :
          (executed : Bool)
          → Ends IsBuilt
              (λ _ _. Unit)
              Unit
              ((if executed
                  then append_to_block core_account pushtx_n evmtx_n configchange_n trace
                  else pure tt)
                b)
      either true = append_to_block-IsBuilt trace b h
      either false = h
