-- ===== src/Ship/Session/Memory.antt =====
-- What the receiver of src/ship_receiver_plugin.cpp remembers of the blocks it has published.
use eos_evm_node.Base.{
  ℕ, ◌≡◌, refl, Bool, true, false, Bool-cases, inl, inr, All, ◌+◌, ◌%◌, ◌^◌, List, [], ◌∷◌, Option,
  none, some, ltb,
}
use eos_evm_node.Base.Action.{Outcome, ok, throw, undefined, Ends, >>=-Ends}
use eos_evm_node.Channels.{NativeBlock}
use eos_evm_node.Evm.{EvmBlock}
use eos_evm_node.Ship.Append.{ShipError, BlockResult, to_native}
use eos_evm_node.Ship.Connection.{retry, resolve, reset_connection, record_read, sync_request}
use eos_evm_node.Ship.Session.{
  Session, Pending, idle, resolving, reading, Reply, failed, unexpected, replied, Answers,
  SessionError, reset, system_error, start_read, request_from, sync_status, sync, initial_read,
  after_connect, on_resolved, publish_native, on_read, run_callback, on_event, run_events,
}

module _ (core_account pushtx_n evmtx_n configchange_n : ℕ) where
  -- The block is made of a result.
  abbrev pub Made : NativeBlock → Type 0
  Made b =
      (res : BlockResult) × (to_native core_account pushtx_n evmtx_n configchange_n res
        ≡ ok (some b))

  -- The last irreversible block and the number are those of the newest block; none was published, the
  -- two are 0.
  abbrev pub Newest : List NativeBlock → ℕ → ℕ → Type 0
  Newest [] lib num = (lib ≡ 0) × (num ≡ 0)
  Newest (b ∷ older) lib num = (lib ≡ b.lib) × (num ≡ b.block_num)

  abbrev pub Remembers : Session → Type 0
  Remembers s =
      Newest s.published s.receiver.last_lib s.receiver.last_block_num × All Made s.published

  abbrev Keeps : Outcome SessionError (Unit {0}) × Session → Type 0
  Keeps = Ends (λ _ s. Remembers s) (λ _ s. Remembers s) Unit

  reset-Remembers : (s : Session) → Remembers s → Keeps (reset s)
  unfolding reset reset_connection retry resolve
  reset-Remembers s h = elim (Bool-cases s.receiver.connected) [
    | inl up ↦
        elim (Bool-cases (ltb s.receiver.max_retry ((s.receiver.retry_count + 1) % 2 ^ 32))) [
          | inl over ↦ rw (up, over) h
          | inr more ↦ rw (up, more) h
        ]
    | inr down ↦ rw down h
  ]

  request_from-Remembers :
      (send_fails : Bool) (start : Option ℕ) (s : Session)
      → Remembers s
      → Keeps (request_from send_fails start s)
  unfolding request_from system_error start_read
  request_from-Remembers send_fails none s h = h
  request_from-Remembers true (some start) s h = reset-Remembers s h
  request_from-Remembers false (some start) s h = h

  module _ {Tx : Type 0} where
    sync_status-Remembers :
        (send_fails : Bool) (start_block : Option (EvmBlock Tx)) (status : Reply ℕ) (s : Session)
        → Remembers s
        → Keeps (sync_status send_fails start_block status s)
    unfolding sync_status
    sync_status-Remembers send_fails start_block failed s h = reset-Remembers s h
    sync_status-Remembers send_fails start_block unexpected s h = h
    sync_status-Remembers send_fails start_block (replied trace_begin_block) s h =
        request_from-Remembers send_fails (sync_request trace_begin_block s.receiver start_block) s
          h

    after_connect-Remembers :
        (answers : Answers Tx) (s : Session) → Remembers s → Keeps (after_connect answers s)
    unfolding after_connect initial_read sync
    after_connect-Remembers answers s h = elim (Bool-cases answers.abi_loads) [
      | inl loads ↦ elim (Bool-cases answers.initial_read_fails) [
        | inl fails ↦ rw (loads, fails) (reset-Remembers s h)
        | inr reads ↦
            rw (loads, reads)
              (sync_status-Remembers answers.send_fails answers.start_block answers.status s h)
      ]
      | inr bad ↦ rw bad h
    ]

    on_resolved-Remembers :
        (answers : Answers Tx) (s : Session) → Remembers s → Keeps (on_resolved answers s)
    unfolding on_resolved
    on_resolved-Remembers answers s h = elim (Bool-cases answers.resolve_fails) [
      | inl fails ↦ rw fails (reset-Remembers s h)
      | inr resolves ↦ elim (Bool-cases answers.connect_fails) [
        | inl fails ↦ rw (resolves, fails) (reset-Remembers s h)
        | inr connects ↦ rw (resolves, connects) (after_connect-Remembers answers s h)
      ]
    ]

  publish_native-Remembers :
      (res : BlockResult) (o : Outcome ShipError (Option NativeBlock)) (s : Session)
      → to_native core_account pushtx_n evmtx_n configchange_n res ≡ o
      → Remembers s
      → Keeps (publish_native core_account pushtx_n evmtx_n configchange_n o s)
  unfolding publish_native system_error start_read record_read
  publish_native-Remembers res (throw e) s made h = h
  publish_native-Remembers res undefined s made h = tt
  publish_native-Remembers res (ok none) s made h = h
  publish_native-Remembers res (ok (some block)) s made h = ((refl, refl), ((res, made), h.1))

  on_read-Remembers :
      (read : Reply BlockResult) (s : Session)
      → Remembers s
      → Keeps (on_read core_account pushtx_n evmtx_n configchange_n read s)
  unfolding on_read
  on_read-Remembers failed s h = reset-Remembers s h
  on_read-Remembers unexpected s h = h
  on_read-Remembers (replied res) s h =
      publish_native-Remembers res (to_native core_account pushtx_n evmtx_n configchange_n res) s
        refl h

  module _ {Tx : Type 0} where
    on_event-Remembers :
        (answers : Answers Tx) (s : Session)
        → Remembers s
        → Keeps (on_event core_account pushtx_n evmtx_n configchange_n answers s)
    unfolding on_event run_callback
    on_event-Remembers answers s h = due s.pending
      where
        due :
            (p : Pending)
            → Keeps (
                run_callback core_account pushtx_n evmtx_n configchange_n p answers
                  (record s { pending = idle }))
        due idle = h
        due resolving = on_resolved-Remembers answers (record s { pending = idle }) h
        due reading = on_read-Remembers answers.read (record s { pending = idle }) h

    -- Where the receiver remembers the newest block that it has published, so it does after any
    -- callbacks, also where one throws: its last irreversible block and its number are those of this
    -- block, and all blocks published are made of results.
    pub run_events-Remembers :
        (events : List (Answers Tx)) (s : Session)
        → Remembers s
        → Ends
            (λ _ s'. Remembers s')
            (λ _ s'. Remembers s')
            Unit
            (run_events core_account pushtx_n evmtx_n configchange_n events s)
    unfolding run_events
    run_events-Remembers [] s h = h
    run_events-Remembers (answers ∷ rest) s h =
        >>=-Ends (λ _ s'. Remembers s') (λ _ s'. Remembers s') (λ _ s'. Remembers s') Unit
          (λ _. run_events core_account pushtx_n evmtx_n configchange_n rest)
          (on_event core_account pushtx_n evmtx_n configchange_n answers) s
          (on_event-Remembers answers s h) (λ _ s' k. run_events-Remembers rest s' k)
