-- ===== src/Ship/Session.antt =====
-- One connection after the other: the callbacks of src/ship_receiver_plugin.cpp and what the network
-- answers them. One asynchronous operation waits at a time, and its callback starts the next.
pub mod Progress
pub mod Stall
pub mod Memory
use eos_evm_node.Base.{
  ℕ, ◌+◌, ◌%◌, ◌^◌, Bool, true, false, ◌&&◌, List, [], ◌∷◌, Option, none, some, ltb, if◌then◌else◌,
}
use eos_evm_node.Base.Action.{
  Action, Outcome, ok, throw, undefined, raise, undefined_behaviour, gets, modify, pure, ◌>>=◌,
  ◌>>◌,
}
use eos_evm_node.Channels.{NativeBlock}
use eos_evm_node.Evm.{EvmBlock}
use eos_evm_node.Ship.Append.{ShipError, BlockResult, to_native}
use eos_evm_node.Ship.Connection.{Receiver, reset_connection, record_read, sync_request}

-- The operation whose callback is due: `async_resolve`, `async_read`, or none.
pub data Pending : Type 0 where
  idle resolving reading : Pending

-- `published` is what went to the channel of native blocks, newest first.
pub record Session : Type 0 where
  pub receiver : Receiver
  pub pending : Pending
  pub published : List NativeBlock

-- A message: it fails to come, is of another kind than asked for, or comes.
pub data Reply (A : Type 0) : Type 0 where
  failed : Reply A
  unexpected : Reply A
  replied : A → Reply A

-- What the network and the engine answer one callback. `connect_fails` covers the connection and the
-- handshake, `send_fails` the request for blocks; `abi_loads` says whether the first message, whatever
-- came of it, reads as an ABI. `status` holds the first block with traces.
pub record Answers (Tx : Type 0) : Type 0 where
  pub resolve_fails : Bool
  pub connect_fails : Bool
  pub initial_read_fails : Bool
  pub abi_loads : Bool
  pub status : Reply ℕ
  pub start_block : Option (EvmBlock Tx)
  pub send_fails : Bool
  pub read : Reply BlockResult

-- An exception leaves the callback, and no operation waits then.
pub data SessionError : Type 0 where
  bad_abi : SessionError
  bad_variant_access : SessionError
  in_block : ShipError → SessionError

-- Whether `reset_connection` returns before `async_resolve`.
unfoldable pub gives_up : Receiver → Bool
gives_up r = r.connected && ltb r.max_retry ((r.retry_count + 1) % 2 ^ 32)

unfoldable pub reset : Action Session SessionError (Unit {0})
unfolding gives_up
reset s = (
  ok tt,
  record s {
    receiver = reset_connection s.receiver;
    pending = if gives_up s.receiver then idle else resolving;
  },
)

-- `sys::error`, after which the callback returns.
unfoldable pub system_error : Action Session SessionError (Unit {0})
system_error s = (ok tt, record s { receiver = record (s.receiver) { quits = true } })

unfoldable pub start_read : Action Session SessionError (Unit {0})
start_read s = (ok tt, record s { pending = reading })

-- `send_get_blocks_request` and what follows; `none` says that `sys::error` comes first.
unfoldable pub request_from : Bool → Option ℕ → Action Session SessionError (Unit {0})
unfolding system_error reset start_read
request_from send_fails none = system_error
request_from send_fails (some start) = if send_fails then reset else start_read

module _ {Tx : Type 0} where
  unfoldable pub sync_status :
      Bool → Option (EvmBlock Tx) → Reply ℕ → Action Session SessionError (Unit {0})
  unfolding request_from reset
  sync_status send_fails start_block failed s = reset s
  sync_status send_fails start_block unexpected s = raise bad_variant_access s
  sync_status send_fails start_block (replied trace_begin_block) s =
      request_from send_fails (sync_request trace_begin_block s.receiver start_block) s

  unfoldable pub sync : Answers Tx → Action Session SessionError (Unit {0})
  unfolding sync_status
  sync answers = sync_status answers.send_fails answers.start_block answers.status

  -- `initial_read` loads the ABI before it returns the error code.
  unfoldable pub initial_read : Answers Tx → Action Session SessionError Bool
  initial_read answers =
      if answers.abi_loads then pure answers.initial_read_fails else raise bad_abi

  unfoldable pub after_connect : Answers Tx → Action Session SessionError (Unit {0})
  unfolding initial_read sync reset
  after_connect answers = initial_read answers >>= λ ec2. if ec2 then reset else sync answers

  -- The callback of `async_resolve`.
  unfoldable pub on_resolved : Answers Tx → Action Session SessionError (Unit {0})
  unfolding after_connect reset
  on_resolved answers =
      if answers.resolve_fails
      then reset
      else (if answers.connect_fails then reset else after_connect answers)

module _ (core_account pushtx_n evmtx_n configchange_n : ℕ) where
  unfoldable pub publish_native :
      Outcome ShipError (Option NativeBlock) → Action Session SessionError (Unit {0})
  unfolding system_error start_read
  publish_native (throw e) = raise (in_block e)
  publish_native undefined = undefined_behaviour
  publish_native (ok none) = system_error
  publish_native (ok (some block)) =
      modify
        (λ s. record s { receiver = record_read block s.receiver; published = block ∷ s.published })
      >> start_read

  -- The callback of `async_read`.
  unfoldable pub on_read : Reply BlockResult → Action Session SessionError (Unit {0})
  unfolding publish_native reset
  on_read failed = reset
  on_read unexpected = raise bad_variant_access
  on_read (replied res) =
      publish_native (to_native core_account pushtx_n evmtx_n configchange_n res)

  module _ {Tx : Type 0} where
    -- The callback of the operation that waits.
    unfoldable pub run_callback : Pending → Answers Tx → Action Session SessionError (Unit {0})
    unfolding on_resolved on_read
    run_callback idle answers = pure tt
    run_callback resolving answers = on_resolved answers
    run_callback reading answers = on_read answers.read

    unfoldable pub on_event : Answers Tx → Action Session SessionError (Unit {0})
    unfolding run_callback
    on_event answers s = run_callback s.pending answers (record s { pending = idle })

    unfoldable pub run_events : List (Answers Tx) → Action Session SessionError (Unit {0})
    unfolding on_event
    run_events [] = pure tt
    run_events (answers ∷ rest) = on_event answers >> run_events rest

-- `plugin_startup`
unfoldable pub startup : Receiver → Session
startup r = record {
  receiver = reset_connection r;
  pending = if gives_up r then idle else resolving;
  published = [];
}
