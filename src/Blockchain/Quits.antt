-- ===== src/Blockchain/Quits.antt =====
-- The request to quit in src/blockchain_plugin.cpp is not taken back.
use eos_evm_node.Base.{ℕ, ◌≡◌, refl, Bool, true, false, List, Option, if◌then◌else◌}
use eos_evm_node.Base.Action.{Outcome, ok, throw, undefined, Keeps, >>=-Keeps, modify, ◌>>◌}
use eos_evm_node.Evm.{EvmBlock}
use eos_evm_node.External.{External}
use eos_evm_node.Blockchain.{
  Blockchain, Call, EngineError, mdbx_exception, std_exception, unknown_exception, make_engine,
  open_engine, insert_block, ask, ensure_open, verify_if_due, process_block, caught, on_evm_block,
}
use eos_evm_node.Blockchain.Keeps.{ask-Keeps, insert-Keeps}

module _ {Tx : Type 0} (ext : External Tx)
    (fails : List (Call Tx) → Call Tx → Option EngineError) where
  abbrev Quits : Blockchain Tx → Type 0
  Quits c = c.quits ≡ true

  process_block-Quits :
      (evm_lib : ℕ) (block : EvmBlock Tx) → Keeps Quits (process_block ext fails evm_lib block)
  unfolding process_block ensure_open
  process_block-Quits evm_lib block =
      >>=-Keeps Quits
        (λ _. ask ext fails (insert_block block) >> verify_if_due ext fails evm_lib block)
        (λ _. insert-Keeps ext fails Quits (λ _ _ p. p) (λ _ _ p. p) evm_lib block)
        (ensure_open ext fails) (λ c q. opened c q c.engine_open)
    where
      opened :
          (c : Blockchain Tx)
          → Quits c
          → (b : Bool)
          → Quits
              (if b
                then (ok tt, c)
                else (ask ext fails make_engine
                      >> (modify (λ d. record d { engine_open = true })
                          >> ask ext fails open_engine))
                    c).1
      opened c q true = q
      opened c q false =
          >>=-Keeps Quits
            (λ _. modify (λ d. record d { engine_open = true }) >> ask ext fails open_engine)
            (λ _ d h.
              ask-Keeps ext fails Quits (λ _ _ p. p) (λ _ _ p. p) open_engine
                (record d { engine_open = true }) h)
            (ask ext fails make_engine)
            (ask-Keeps ext fails Quits (λ _ _ p. p) (λ _ _ p. p) make_engine) c q

  -- Once the application was asked to quit, it stays so.
  pub on_evm_block-Quits :
      (evm_lib : ℕ) (block : EvmBlock Tx) (c : Blockchain Tx)
      → c.quits ≡ true
      → (on_evm_block ext fails evm_lib block c).quits ≡ true
  unfolding on_evm_block caught
  on_evm_block-Quits evm_lib block c q =
      after (process_block ext fails evm_lib block c) (process_block-Quits evm_lib block c q)
    where
      after :
          (r : Outcome EngineError (Unit {0}) × Blockchain Tx)
          → Quits r.1
          → Quits (caught ext fails r.0 r.1)
      after (ok done, d) q = q
      after (throw mdbx_exception, d) q = refl
      after (throw std_exception, d) q = refl
      after (throw unknown_exception, d) q = refl
      after (undefined, d) q = q
