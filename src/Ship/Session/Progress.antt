-- ===== src/Ship/Session/Progress.antt =====
-- What each callback of src/ship_receiver_plugin.cpp leaves behind: another operation, or a request to
-- quit; and how many callbacks can pass before a block has been read.
use eos_evm_node.Base.{
  ℕ, ◌+◌, ◌-◌, ◌*◌, ◌%◌, ◌^◌, ◌≤◌, ◌<◌, ◌≡◌, ◌≢◌, refl, ◌⊎◌, inl, inr, Bool, true, false,
  Bool-cases, ◌∷◌, Option, none, some, arith, ltb, if◌then◌else◌,
}
use eos_evm_node.Base.Action.{Outcome, ok, throw, undefined, pure, raise, Ends, Ends-mono, ◌>>=◌}
use eos_evm_node.Channels.{NativeBlock}
use eos_evm_node.Evm.{EvmBlock}
use eos_evm_node.Ship.Append.{ShipError, BlockResult, to_native}
use eos_evm_node.Ship.Connection.{
  Receiver, retry, resolve, reset_connection, record_read, sync_request,
}
use eos_evm_node.Ship.Session.{
  Session, Pending, idle, resolving, reading, Reply, failed, unexpected, replied, Answers,
  SessionError, bad_abi, gives_up, reset, system_error, start_read, request_from, sync_status, sync,
  initial_read, after_connect, on_resolved, publish_native, on_read,
}

-- A receiver with a stream, below the limit of its retries, which leaves room in 32 bits.
abbrev pub Sound : Receiver → Type 0
Sound r = (r.connected ≡ true) × (r.retry_count ≤ r.max_retry) × (r.max_retry + 1 < 2 ^ 32)

-- How many callbacks can still run before the receiver gives up, if none reads a block.
abbrev pub left_of : Pending → Receiver → ℕ
left_of idle r = 0
left_of resolving r = 2 * (r.max_retry - r.retry_count) + 2
left_of reading r = 2 * (r.max_retry - r.retry_count) + 1

abbrev pub left : Session → ℕ
left s = left_of s.pending s.receiver

-- Where nothing is left to wait for, the application was asked to quit.
abbrev pub Alive : Session → Type 0
Alive s = s.pending ≡ idle → s.receiver.quits ≡ true

-- What a callback leaves that has read no block: at most `bound` more of them.
abbrev pub Settles : ℕ → Session → Type 0
Settles bound s = (s.pending ≢ idle → Sound s.receiver) × Alive s × (left s ≤ bound)

-- After an exception no operation waits.
abbrev pub Stops : SessionError → Session → Type 0
Stops e s = s.pending ≡ idle

abbrev pub Quiet : ℕ → Outcome SessionError (Unit {0}) × Session → Type 0
Quiet bound = Ends (λ _ s. Settles bound s) Stops ⊥

reset-Quiet :
    (s : Session)
    → Sound s.receiver
    → Quiet (2 * (s.receiver.max_retry - s.receiver.retry_count)) (reset s)
unfolding reset gives_up reset_connection retry resolve
reset-Quiet s (up, low, room) =
    elim (Bool-cases (ltb s.receiver.max_retry ((s.receiver.retry_count + 1) % 2 ^ 32))) [
      | inl over ↦ simp (up, over) ((λ ne. absurd (ne refl)), (λ _. refl), omega arith)
      | inr more ↦
          simp (up, more) ((λ _. (refl, under more, room)), (λ e. absurd (cc e)), fewer more)
    ]
  where
    under :
        ltb s.receiver.max_retry ((s.receiver.retry_count + 1) % 2 ^ 32) ≡ false
        → (s.receiver.retry_count + 1) % 2 ^ 32 ≤ s.receiver.max_retry
    under more = ground arith

    fewer :
        ltb s.receiver.max_retry ((s.receiver.retry_count + 1) % 2 ^ 32) ≡ false
        → 2 * (s.receiver.max_retry - (s.receiver.retry_count + 1) % 2 ^ 32) + 2
          ≤ 2 * (s.receiver.max_retry - s.receiver.retry_count)
    fewer more = ground arith

Quiet-weaken :
    (m n : ℕ) (r : Outcome SessionError (Unit {0}) × Session) → m ≤ n → Quiet m r → Quiet n r
Quiet-weaken m n r low h =
    Ends-mono (λ _ s. Settles m s) (λ _ s. Settles n s) Stops Stops ⊥ r h
      (λ _ s k. (k.0, k.1, omega (arith, k.2))) (λ _ _ k. k)

-- What is left where the operation is `async_read`.
abbrev to_read : Receiver → ℕ
to_read r = left_of reading r

system_error-Quiet : (s : Session) (n : ℕ) → s.pending ≡ idle → Quiet n (system_error s)
unfolding system_error
system_error-Quiet s n e = ((λ ne. absurd (ne e)), (λ _. refl), rw e (omega arith))

module _ (s : Session) (sound : Sound s.receiver) (waits : s.pending ≡ idle) where
  reset-to_read : Quiet (to_read s.receiver) (reset s)
  reset-to_read =
      Quiet-weaken (2 * (s.receiver.max_retry - s.receiver.retry_count)) (to_read s.receiver)
        (reset s) (omega arith) (reset-Quiet s sound)

  request_from-Quiet :
      (send_fails : Bool) (start : Option ℕ)
      → Quiet (to_read s.receiver) (request_from send_fails start s)
  unfolding request_from start_read
  request_from-Quiet send_fails none = system_error-Quiet s (to_read s.receiver) waits
  request_from-Quiet true (some start) = reset-to_read
  request_from-Quiet false (some start) = ((λ _. sound), (λ e. absurd (cc e)), omega arith)

  module _ {Tx : Type 0} where
    sync_status-Quiet :
        (send_fails : Bool) (start_block : Option (EvmBlock Tx)) (status : Reply ℕ)
        → Quiet (to_read s.receiver) (sync_status send_fails start_block status s)
    unfolding sync_status
    sync_status-Quiet send_fails start_block failed = reset-to_read
    sync_status-Quiet send_fails start_block unexpected = waits
    sync_status-Quiet send_fails start_block (replied trace_begin_block) =
        request_from-Quiet send_fails (sync_request trace_begin_block s.receiver start_block)

    pub on_resolved-Quiet :
        (answers : Answers Tx) → Quiet (to_read s.receiver) (on_resolved answers s)
    unfolding on_resolved after_connect initial_read sync
    on_resolved-Quiet answers = resolved answers.resolve_fails
      where
        initial_read_ends :
            (b : Bool) → Quiet (to_read s.receiver) ((if b then reset else sync answers) s)
        initial_read_ends true = reset-to_read
        initial_read_ends false =
            sync_status-Quiet answers.send_fails answers.start_block answers.status

        loaded :
            (b : Bool)
            → Quiet (to_read s.receiver) (
                ((if b then pure answers.initial_read_fails else raise bad_abi) >>= λ ec2.
                if ec2 then reset else sync answers)
                  s)
        loaded true = initial_read_ends answers.initial_read_fails
        loaded false = waits

        connected :
            (b : Bool) → Quiet (to_read s.receiver) ((if b then reset else after_connect answers) s)
        connected true = reset-to_read
        connected false = loaded answers.abi_loads

        resolved :
            (b : Bool)
            → Quiet (to_read s.receiver) (
                (if b
                    then reset
                    else (if answers.connect_fails then reset else after_connect answers))
                  s)
        resolved true = reset-to_read
        resolved false = connected answers.connect_fails

module _ (core_account pushtx_n evmtx_n configchange_n : ℕ) where
  -- A block has been read and passed on.
  abbrev pub Reads : Reply BlockResult → Session → Session → Type 0
  Reads read s s' =
      (res : BlockResult) × (block : NativeBlock) × (read ≡ replied res)
      × (to_native core_account pushtx_n evmtx_n configchange_n res ≡ ok (some block))
      × (s'.published ≡ block ∷ s.published)

  -- The bytes of a message are such that `to_native` is undefined.
  abbrev pub Undefined : {Tx : Type 0} → Answers Tx → Type 0
  Undefined answers =
      (res : BlockResult) × (answers.read ≡ replied res)
      × (to_native core_account pushtx_n evmtx_n configchange_n res ≡ undefined)

  pub on_read-Settles :
      (s : Session) (read : Reply BlockResult)
      → Sound s.receiver
      → s.pending ≡ idle
      → Ends
          (λ _ s'.
            (s'.pending ≢ idle → Sound s'.receiver)
            × Alive s'
            × ((left s' ≤ 2 * (s.receiver.max_retry - s.receiver.retry_count)) ⊎ Reads read s s'))
          Stops
          ((res : BlockResult) × (read ≡ replied res)
            × (to_native core_account pushtx_n evmtx_n configchange_n res ≡ undefined))
          (on_read core_account pushtx_n evmtx_n configchange_n read s)
  unfolding on_read publish_native start_read record_read
  on_read-Settles s failed sound waits = Ends-mono' (reset s) (reset-Quiet s sound)
    where
      Ends-mono' :
          (r : Outcome SessionError (Unit {0}) × Session)
          → Quiet (2 * (s.receiver.max_retry - s.receiver.retry_count)) r
          → Ends
              (λ _ s'.
                (s'.pending ≢ idle → Sound s'.receiver)
                × Alive s'
                × ((left s' ≤ 2 * (s.receiver.max_retry - s.receiver.retry_count))
                    ⊎ Reads failed s s'))
              Stops
              ((res : BlockResult) × (failed ≡ replied res)
                × (to_native core_account pushtx_n evmtx_n configchange_n res ≡ undefined))
              r
      Ends-mono' (ok done, s') k = (k.0, k.1, inl k.2)
      Ends-mono' (throw e, s') k = k
      Ends-mono' (undefined, s') k = absurd k
  on_read-Settles s unexpected sound waits = waits
  on_read-Settles s (replied res) sound waits =
      published (to_native core_account pushtx_n evmtx_n configchange_n res) refl
    where
      published :
          (r : Outcome ShipError (Option NativeBlock))
          → to_native core_account pushtx_n evmtx_n configchange_n res ≡ r
          → Ends
              (λ _ s'.
                (s'.pending ≢ idle → Sound s'.receiver)
                × Alive s'
                × ((left s' ≤ 2 * (s.receiver.max_retry - s.receiver.retry_count))
                    ⊎ Reads (replied res) s s'))
              Stops
              ((res' : BlockResult) × (replied res ≡ replied res')
                × (to_native core_account pushtx_n evmtx_n configchange_n res' ≡ undefined))
              (publish_native core_account pushtx_n evmtx_n configchange_n r s)
      published (throw e) t = waits
      published undefined t = (res, refl, t)
      published (ok none) t = ((λ ne. absurd (ne waits)), (λ _. refl), inl (rw waits (omega arith)))
      published (ok (some block)) t = (
        (λ _. (sound.0, omega arith, sound.2)),
        (λ e. absurd (cc e)),
        inr (res, block, refl, t, refl),
      )
