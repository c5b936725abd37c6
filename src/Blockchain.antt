-- ===== src/Blockchain.antt =====
-- The subscriber of the channel `evm_blocks`, in src/blockchain_plugin.cpp: it hands blocks to the
-- execution engine and has the chain verified from time to time.
pub mod Keeps
pub mod Pending
pub mod Quits
pub mod Shutdown
use eos_evm_node.Base.{
  ℕ, ◌+◌, ◌%◌, ◌^◌, Bool, true, false, not, ◌||◌, List, [], ◌∷◌, Option, none, some, ◌==◌,
  if◌then◌else◌,
}
use eos_evm_node.Base.Action.{
  Action, Outcome, ok, throw, undefined, gets, modify, pure, ◌>>=◌, ◌>>◌,
}
use eos_evm_node.Evm.{EvmBlock}
use eos_evm_node.External.{External}

-- What the plugin asks of silkworm's execution engine and its database, from its constructor on.
pub data Call (Tx : Type 0) : Type 0 where
  make_engine : Call Tx
  open_engine : Call Tx
  insert_block : EvmBlock Tx → Call Tx
  store_lib : ℕ → Call Tx
  verify_chain : ℕ → Call Tx
  stop_engine close_engine : Call Tx

-- What these calls may throw, as the three catch clauses tell it apart.
pub data EngineError : Type 0 where
  mdbx_exception std_exception unknown_exception : EngineError

-- `engine_open` says that `exec_engine` is not null, `quits` that `sys::error` was called; the calls come
-- newest first.
pub record Blockchain (Tx : Type 0) : Type 0 where
  pub engine_open : Bool
  pub block_count : ℕ
  pub calls : List (Call Tx)
  pub quits : Bool

-- `fails` is what the engine throws at a call, given the calls before, newest first.
module _ {Tx : Type 0} (ext : External Tx)
    (fails : List (Call Tx) → Call Tx → Option EngineError) where
  unfoldable pub answered : Option EngineError → Action (Blockchain Tx) EngineError (Unit {0})
  answered none c = (ok tt, c)
  answered (some e) c = (throw e, c)

  unfoldable pub ask : Call Tx → Action (Blockchain Tx) EngineError (Unit {0})
  unfolding answered
  ask call c = answered (fails c.calls call) (record c { calls = call ∷ c.calls })

  -- `if(!exec_engine)`: the pointer is set once the constructor has returned, before the engine is
  -- opened.
  unfoldable pub ensure_open : Action (Blockchain Tx) EngineError (Unit {0})
  unfolding ask
  ensure_open c =
      if c.engine_open
      then (ok tt, c)
      else (ask make_engine >> (modify (λ d. record d { engine_open = true }) >> ask open_engine)) c

  -- `size_t` is 64 bits wide.
  unfoldable pub count_block : Blockchain Tx → Blockchain Tx
  count_block c = record c { block_count = (c.block_count + 1) % 2 ^ 64 }

  -- The body of the test: `evm_lib` is what `block_conversion_plugin::get_evm_lib` answers.
  unfoldable pub verify : ℕ → EvmBlock Tx → Action (Blockchain Tx) EngineError (Unit {0})
  unfolding ask
  verify evm_lib block =
      ask (store_lib evm_lib)
      >> (ask (verify_chain (ext.header_hash block.header))
          >> modify (λ c. record c { block_count = 0 }))

  -- From the increment on.
  unfoldable pub verify_if_due : ℕ → EvmBlock Tx → Action (Blockchain Tx) EngineError (Unit {0})
  unfolding count_block verify
  verify_if_due evm_lib block c =
      let counted = count_block c in
      if counted.block_count % 5000 == 0 || not block.irreversible
      then verify evm_lib block counted
      else (ok tt, counted)

  -- The body of the `try`.
  unfoldable pub process_block : ℕ → EvmBlock Tx → Action (Blockchain Tx) EngineError (Unit {0})
  unfolding ensure_open verify_if_due ask
  process_block evm_lib block =
      ensure_open >> (ask (insert_block block) >> verify_if_due evm_lib block)

  -- The catch clauses.
  unfoldable pub caught : Outcome EngineError (Unit {0}) → Blockchain Tx → Blockchain Tx
  caught (ok done) c = c
  caught (throw mdbx_exception) c = record c { quits = true }
  caught (throw std_exception) c = record c { quits = true }
  caught (throw unknown_exception) c = record c { quits = true }
  caught undefined c = c

  unfoldable pub on_evm_block : ℕ → EvmBlock Tx → Blockchain Tx → Blockchain Tx
  unfolding process_block caught
  on_evm_block evm_lib block c = let (r, c') = process_block evm_lib block c in caught r c'

  -- `exec_engine` is a null pointer until an engine has been made.
  unfoldable pub shutdown : Action (Blockchain Tx) EngineError (Unit {0})
  unfolding ask
  shutdown c = if c.engine_open then (ask stop_engine >> ask close_engine) c else (undefined, c)
