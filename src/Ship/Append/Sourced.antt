-- ===== src/Ship/Append/Sourced.antt =====
-- Where the contents of a native block of src/ship_receiver_plugin.cpp come from.
use mathlib.Core.List.{Memᴰ}
use mathlib.Core.List.Memᴰ.{head, tail}
use eos_evm_node.Base.{
  ℕ, ◌≡◌, refl, sym, ap, subst, ◌⊎◌, inl, inr, true, ◌||◌, Bool-cases, All, All-map, List, [], ◌∷◌,
  Option, none, some, ◌==◌, ==→eq,
}
use eos_evm_node.Base.Action.{Outcome, ok, throw, undefined, Ends}
use eos_evm_node.Channels.{NativeBlock}
use eos_evm_node.Ship.Append.{
  ActionTrace, TransactionTrace, BlockResult, ShipError, is_relevant, action_to_search,
  append_traces, start_native_block, finish_native, native_at, native_with, to_native,
}
use eos_evm_node.Ship.Append.From.{ConfigFrom, ActionFrom, BlockFrom}
use eos_evm_node.Ship.Append.From.Pushed.{append_traces-BlockFrom}

members : {A : Type 0} (xs : List A) → All (λ x. Memᴰ x xs) xs
members [] = tt
members (x ∷ xs) = (head refl, All-map xs (λ y m. tail m) (members xs))

-- The block of an outcome.
abbrev contents : NativeBlock → Outcome ShipError (Option NativeBlock) → NativeBlock
contents other (ok none) = other
contents other (ok (some b)) = b
contents other (throw e) = other
contents other undefined = other

module _ (core_account pushtx_n evmtx_n configchange_n : ℕ) where
  -- The trace is of the contract's account, in an executed transaction, and has the name searched for
  -- in its transaction or that of a configuration.
  abbrev pub IsTaken : List TransactionTrace → ActionTrace → Type 0
  IsTaken traces act =
      (trace : TransactionTrace) × Memᴰ trace traces
      × (trace.executed ≡ true)
      × Memᴰ act trace.action_traces
      × (act.receiver ≡ core_account)
      × ((act.name
            ≡ action_to_search core_account pushtx_n evmtx_n configchange_n trace.action_traces)
          ⊎ (act.name ≡ configchange_n))

  relevant :
      (searched : ℕ) (act : ActionTrace)
      → is_relevant core_account pushtx_n evmtx_n configchange_n searched act ≡ true
      → (act.receiver ≡ core_account) × ((act.name ≡ searched) ⊎ (act.name ≡ configchange_n))
  unfolding is_relevant
  relevant searched act h = elim (Bool-cases (core_account == act.receiver)) [
    | inl own ↦ (
      sym (==→eq _ _ own),
      elim (Bool-cases (act.name == searched)) [
        | inl found ↦ inl (==→eq _ _ found)
        | inr apart ↦ elim (Bool-cases (act.name == configchange_n)) [
          | inl named ↦ inr (==→eq _ _ named)
          | inr neither ↦ absurd (cc (rw (apart, neither) at h))
        ]
      ],
    )
    | inr other ↦ elim (Bool-cases (act.name == searched || act.name == configchange_n)) [
      | inl either ↦ absurd (cc (rw (either, other) at h))
      | inr neither ↦ absurd (cc (rw neither at h))
    ]
  ]

  -- The block holds what the result has.
  pub record IsSourced (res : BlockResult) (b : NativeBlock) : Type 0 where
    pub position : ℕ × ℕ
    pub placed : res.this_block ≡ some position
    pub same_num : b.block_num ≡ position.0
    pub same_id : b.id ≡ position.1
    pub parent : ℕ
    pub has_parent : res.prev_block ≡ some parent
    pub same_prev : b.prev ≡ parent
    pub time : ℕ
    pub has_time : res.block ≡ some time
    pub same_time : b.timestamp ≡ time
    pub same_lib : b.lib ≡ res.lib
    pub configured :
        ConfigFrom core_account pushtx_n evmtx_n configchange_n
          (IsTaken res.traces)
          (start_native_block core_account pushtx_n evmtx_n configchange_n position parent time)
          b.new_config
    pub transacted :
        All
          (λ trx.
            All
              (ActionFrom core_account pushtx_n evmtx_n configchange_n (IsTaken res.traces) (
                start_native_block core_account pushtx_n evmtx_n configchange_n position parent
                  time))
              trx.actions)
          b.transactions

  started :
      (res : BlockResult) (position : ℕ × ℕ) (parent time : ℕ)
      → Ends
          (λ _ b.
            BlockFrom core_account pushtx_n evmtx_n configchange_n
              (IsTaken res.traces)
              (start_native_block core_account pushtx_n evmtx_n configchange_n position parent time)
              b)
          (λ _ _. Unit)
          Unit
          (append_traces core_account pushtx_n evmtx_n configchange_n res.traces
            (start_native_block core_account pushtx_n evmtx_n configchange_n position parent time))
  unfolding start_native_block
  started res position parent time =
      append_traces-BlockFrom core_account pushtx_n evmtx_n configchange_n (IsTaken res.traces)
        (start_native_block core_account pushtx_n evmtx_n configchange_n position parent time)
        res.traces
        (start_native_block core_account pushtx_n evmtx_n configchange_n position parent time)
        (All-map res.traces
          (λ trace m executed.
            All-map trace.action_traces
              (λ act n good.
                let (own, named) =
                  relevant
                    (action_to_search core_account pushtx_n evmtx_n configchange_n
                      trace.action_traces)
                    act good in
                (trace, m, executed, n, own, named))
              (members trace.action_traces))
          (members res.traces))
        ((refl, refl, refl, refl), tt, tt)

  -- A native block that is made of a result has its id, number, parent, time and last irreversible
  -- block. Its configuration and each of its actions are those of an action trace of the contract's
  -- account in an executed transaction of the result; the configuration has the name of one, and the
  -- actions the name searched for in their transaction and not that of a configuration.
  pub to_native-IsSourced :
      (res : BlockResult) (b : NativeBlock)
      → to_native core_account pushtx_n evmtx_n configchange_n res ≡ ok (some b)
      → IsSourced res b
  unfolding to_native native_at native_with finish_native start_native_block
  to_native-IsSourced res b h = at res.this_block refl h
    where
      finished :
          (position : ℕ × ℕ) (parent time : ℕ) (r : Outcome ShipError (Unit {0}) × NativeBlock)
          → res.this_block ≡ some position
          → res.prev_block ≡ some parent
          → res.block ≡ some time
          → Ends
              (λ _ b.
                BlockFrom core_account pushtx_n evmtx_n configchange_n
                  (IsTaken res.traces)
                  (start_native_block core_account pushtx_n evmtx_n configchange_n position parent
                    time)
                  b)
              (λ _ _. Unit)
              Unit
              r
          → finish_native core_account pushtx_n evmtx_n configchange_n res.lib r ≡ ok (some b)
          → IsSourced res b
      finished position parent time (throw e, b') placed p t ends eq = cc
      finished position parent time (undefined, b') placed p t ends eq = cc
      finished position parent time (ok done, b') placed p t ends eq =
          subst (IsSourced res) same (record {
            position = position;
            placed = placed;
            same_num = ends.0.2;
            same_id = ends.0.0;
            parent = parent;
            has_parent = p;
            same_prev = ends.0.1;
            time = time;
            has_time = t;
            same_time = ends.0.3;
            same_lib = refl;
            configured = ends.1;
            transacted = ends.2;
          })
        where
          same : record b' { lib = res.lib } ≡ b
          same = ap (contents b) eq

      within :
          (position : ℕ × ℕ) (block prev_block : Option ℕ)
          → res.this_block ≡ some position
          → res.block ≡ block
          → res.prev_block ≡ prev_block
          → native_with core_account pushtx_n evmtx_n configchange_n res position block prev_block
            ≡ ok (some b)
          → IsSourced res b
      within position none parent placed t p eq = cc
      within position (some time) none placed t p eq = cc
      within position (some time) (some parent) placed t p eq =
          finished position parent time
            (append_traces core_account pushtx_n evmtx_n configchange_n res.traces (
              start_native_block core_account pushtx_n evmtx_n configchange_n position parent time))
            placed p t (started res position parent time) eq

      at :
          (o : Option (ℕ × ℕ))
          → res.this_block ≡ o
          → native_at core_account pushtx_n evmtx_n configchange_n res o ≡ ok (some b)
          → IsSourced res b
      at none placed eq = cc
      at (some position) placed eq = within position res.block res.prev_block placed refl refl eq
