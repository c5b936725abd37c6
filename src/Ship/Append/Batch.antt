-- ===== src/Ship/Append/Batch.antt =====
-- The transactions of one native block, in src/ship_receiver_plugin.cpp: all their actions have the
-- same name.
use mathlib.Core.List.{reverse-cons}
use eos_evm_node.Base.{
  arith, ℕ, ◌≡◌, ◌≢◌, refl, sym, subst, ◌∙◌, ◌⊎◌, inl, inr, Bool-cases, All, All-map, All-append,
  All-reverse, All-last_of, List, [], ◌∷◌, ◌++◌, reverse, last_of, ◌==◌, ==→eq,
}
use eos_evm_node.Base.Action.{Outcome, ok, throw, undefined, Ends, ◌>>◌, of_outcome, modify}
use eos_evm_node.Channels.{NativeAction, NativeTrx, NativeBlock}
use eos_evm_node.Ship.Append.{
  Building, ShipError, TraceMap, TransactionTrace, take_actions, names_agree, check_names,
  push_transaction, append_ordered, append_to_block, order_actions, action_to_search,
}
use eos_evm_node.Ship.Append.Sorted.{Sorted, order_actions-Sorted}
use eos_evm_node.Ship.Append.Uniform.{Uniform, take_actions-Uniform}
use eos_evm_node.Ship.Append.Taken.{NonEmpty, Taken, take_actions-Taken}

-- The transaction has actions, all of the name.
abbrev pub Named : ℕ → NativeTrx → Type 0
Named name trx = NonEmpty trx.actions × All (λ a. a.name ≡ name) trx.actions

-- All actions of the transactions have one name, which is not that of a configuration, and no
-- transaction is without actions.
abbrev pub IsBatch : ℕ → List NativeTrx → Type 0
IsBatch configchange_n trxs =
    (trxs ≡ []) ⊎ ((name : ℕ) × (name ≢ configchange_n) × All (Named name) trxs)

-- The only transaction is without actions: it held a configuration and no more.
abbrev pub OnlyConfigures : List NativeTrx → Type 0
OnlyConfigures trxs = (trx : NativeTrx) × (trxs ≡ trx ∷ []) × (trx.actions ≡ [])

reverse-NonEmpty : (x : NativeAction) (xs : List NativeAction) → NonEmpty (reverse (x ∷ xs))
reverse-NonEmpty x xs = subst NonEmpty (sym (reverse-cons x xs)) (last-NonEmpty (reverse xs))
  where
    last-NonEmpty : (ys : List NativeAction) → NonEmpty (ys ++ x ∷ [])
    last-NonEmpty [] = tt
    last-NonEmpty (y ∷ ys) = tt

-- The transaction that `push_transaction` makes of the actions taken.
abbrev pub made : TransactionTrace → List NativeAction → NativeTrx
made trace pending = record {
  id = trace.id;
  cpu_usage_us = trace.cpu_usage_us;
  elapsed = trace.elapsed;
  actions = reverse pending;
}

made-Named :
    (trace : TransactionTrace) (name : ℕ) (last : NativeAction) (older : List NativeAction)
    → last.name ≡ name
    → All (λ a. a.name ≡ last.name) older
    → Named name (made trace (last ∷ older))
made-Named trace name last older e h = (
  reverse-NonEmpty last older,
  All-reverse (λ a. a.name ≡ name) (last ∷ older) (e, All-map older (λ a k. k ∙ e) h),
)

module _ (core_account pushtx_n evmtx_n configchange_n : ℕ) where
  -- What becomes of the transactions of the block.
  abbrev pub Grows : Outcome ShipError (Unit {0}) × NativeBlock → Type 0
  Grows =
      Ends (λ _ b. IsBatch configchange_n b.transactions ⊎ OnlyConfigures b.transactions)
        (λ _ b. IsBatch configchange_n b.transactions) ⊥

  abbrev pub push : TransactionTrace → List NativeAction → NativeBlock → NativeBlock
  push trace pending b = record b { transactions = b.transactions ++ made trace pending ∷ [] }

  names_agree-Grows :
      (trace : TransactionTrace) (trxs : List NativeTrx) (name : ℕ) (first : NativeAction)
      (rest : List NativeAction) (last : NativeAction) (older : List NativeAction) (b : NativeBlock)
      → b.transactions ≡ trxs
      → name ≢ configchange_n
      → All (Named name) trxs
      → All (λ a. a.name ≡ name) (first ∷ rest)
      → All (λ a. a.name ≡ last.name) older
      → Grows (
          (of_outcome (
                names_agree core_account pushtx_n evmtx_n configchange_n
                  (first ∷ rest)
                  (last ∷ older))
              >> modify (push trace (last ∷ older)))
            b)
  unfolding names_agree
  names_agree-Grows trace trxs name first rest last older b e ne h named same =
      elim (Bool-cases ((last_of first rest).name == last.name)) [
        | inl agree ↦
            let is_name : last.name ≡ name =
              sym (==→eq _ _ agree) ∙ All-last_of (λ a. a.name ≡ name) first rest named in
            rw (agree, e)
              (inl (
                inr (
                  name,
                  ne,
                  All-append (Named name) trxs _ h
                      (made-Named trace name last older is_name same, tt),
                )))
        | inr mixed ↦ rw (mixed, e) (inr (name, ne, h))
      ]

  check_names-Grows :
      (trace : TransactionTrace) (trxs : List NativeTrx) (pending : List NativeAction)
      (b : NativeBlock)
      → b.transactions ≡ trxs
      → Uniform configchange_n pending
      → IsBatch configchange_n trxs
      → NonEmpty pending ⊎ (trxs ≡ [])
      → Grows (
          (of_outcome (check_names core_account pushtx_n evmtx_n configchange_n trxs pending)
              >> modify (push trace pending))
            b)
  unfolding check_names
  check_names-Grows trace [] [] b e uniform batch taken = rw e (inr (made trace [], refl, refl))
  check_names-Grows trace [] (last ∷ older) b e (ne, same) batch taken =
      rw e (inl (inr (last.name, ne, (made-Named trace last.name last older refl same, tt))))
  check_names-Grows trace (trx ∷ rest) [] b e uniform batch (inl n) = absurd n
  check_names-Grows trace (trx ∷ rest) [] b e uniform batch (inr n) = cc
  check_names-Grows trace (trx ∷ rest) (last ∷ older) b e uniform (inl none_yet) taken = cc
  check_names-Grows trace (trx ∷ rest) (last ∷ older) b e (lne, same) (inr (name, ne, h)) taken =
      from ((last_of trx rest).actions) (All-last_of (Named name) trx rest h)
    where
      from :
          (actions : List NativeAction)
          → NonEmpty actions × All (λ a. a.name ≡ name) actions
          → Grows (
              (of_outcome (
                    names_agree core_account pushtx_n evmtx_n configchange_n actions (last ∷ older))
                  >> modify (push trace (last ∷ older)))
                b)
      from [] (n, k) = absurd n
      from (first ∷ later) (n, k) =
          names_agree-Grows trace (trx ∷ rest) name first later last older b e ne h k same

  push_transaction-Grows :
      (trace : TransactionTrace) (ordered : TraceMap) (b : NativeBlock)
      → IsBatch configchange_n b.transactions
      → Grows (push_transaction core_account pushtx_n evmtx_n configchange_n trace ordered b)
  unfolding push_transaction
  push_transaction-Grows trace [] b h = inl h
  push_transaction-Grows trace ((sequence, act) ∷ rest) b h =
      from
        (take_actions core_account pushtx_n evmtx_n configchange_n ((sequence, act) ∷ rest) start)
        (take_actions-Uniform core_account pushtx_n evmtx_n configchange_n ((sequence, act) ∷ rest)
          start tt)
        (take_actions-Taken core_account pushtx_n evmtx_n configchange_n sequence act rest start)
    where
      start : Building
      start = record { block = b; pending = [] }

      from :
          (r : Outcome ShipError (Unit {0}) × Building)
          → Ends
              (λ _ d. (d.block.transactions ≡ b.transactions) × Uniform configchange_n d.pending)
              (λ _ d. d.block.transactions ≡ b.transactions)
              ⊥
              r
          → Ends Taken (λ _ _. Unit) ⊥ r
          → Grows (
              (of_outcome r.0
                  >> of_outcome (
                      check_names core_account pushtx_n evmtx_n configchange_n
                        r.1.block.transactions r.1.pending)
                  >> modify (push trace r.1.pending))
                r.1.block)
      from (ok done, c) (stay, uniform) taken =
          check_names-Grows trace c.block.transactions c.pending c.block refl uniform
            (subst (IsBatch configchange_n) (sym stay) h) taken
      from (throw e, c) stay taken = subst (IsBatch configchange_n) (sym stay) h
      from (undefined, c) stay taken = absurd stay

  -- Where the transactions that a block has already are a batch (their actions have one name, other
  -- than that of a configuration, and each has an action), `append_to_block` is never undefined. If
  -- it returns, they are a batch still, or the block has a single transaction, without actions. If
  -- it throws, they are a batch.
  pub append_to_block-IsBatch :
      (trace : TransactionTrace) (b : NativeBlock)
      → IsBatch configchange_n b.transactions
      → Ends
          (λ _ b'. IsBatch configchange_n b'.transactions ⊎ OnlyConfigures b'.transactions)
          (λ _ b'. IsBatch configchange_n b'.transactions)
          ⊥
          (append_to_block core_account pushtx_n evmtx_n configchange_n trace b)
  unfolding append_to_block append_ordered
  append_to_block-IsBatch trace b h =
      from
        (order_actions core_account pushtx_n evmtx_n configchange_n
          (action_to_search core_account pushtx_n evmtx_n configchange_n trace.action_traces) 0
          trace.action_traces trace.action_traces [])
        (order_actions-Sorted core_account pushtx_n evmtx_n configchange_n
          (action_to_search core_account pushtx_n evmtx_n configchange_n trace.action_traces) 0
          trace.action_traces trace.action_traces [] (omega arith) tt)
    where
      from :
          (r : Outcome ShipError (Unit {0}) × TraceMap)
          → Ends (λ _ m. Sorted m) (λ _ m. Sorted m) ⊥ r
          → Grows (append_ordered core_account pushtx_n evmtx_n configchange_n trace r b)
      from (ok done, ordered) sorted = push_transaction-Grows trace ordered b h
      from (throw e, ordered) sorted = h
      from (undefined, ordered) sorted = absurd sorted
