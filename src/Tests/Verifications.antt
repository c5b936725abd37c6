-- ===== src/Tests/Verifications.antt =====
-- The subscriber of src/blockchain_plugin.cpp at concrete states.
use eos_evm_node.Base.{ℕ, ◌≡◌, refl, ◌⊎◌, true, false, List, [], ◌∷◌, Option, none, some, arith}
use eos_evm_node.Evm.{EvmBlock}
use eos_evm_node.Blockchain.{
  Blockchain, Call, EngineError, std_exception, make_engine, open_engine, insert_block, store_lib,
  verify_chain, stop_engine, close_engine, shutdown, on_evm_block,
}
use eos_evm_node.Blockchain.Pending.{pending, inserted, Counts, Refused, on_evm_block-Counts}
use eos_evm_node.Tests.Fixture.{ext, evm_at}
use eos_evm_node.Base.Action.{undefined}
use eos_evm_node.Blockchain.Shutdown.{received, Made, Stops, shutdown-received}

abbrev one_waits : Blockchain ℕ
one_waits = record {
  engine_open = true;
  block_count = 1;
  calls = insert_block (evm_at 4 []) ∷ [];
  quits = false;
}

-- An engine that fails to verify.
abbrev failing : List (Call ℕ) → Call ℕ → Option EngineError
failing before make_engine = none
failing before open_engine = none
failing before (insert_block block) = none
failing before (store_lib lib) = none
failing before (verify_chain hash) = some std_exception
failing before stop_engine = none
failing before close_engine = none

on_evm_block_verifies : (on_evm_block ext (λ _ _. none) 3 (evm_at 5 []) one_waits).block_count ≡ 0
unfolding on_evm_block
on_evm_block_verifies = refl

on_evm_block_fails : (on_evm_block ext failing 3 (evm_at 5 []) one_waits).quits ≡ true
unfolding on_evm_block
on_evm_block_fails = refl

on_evm_block-Counts_example :
    let d = on_evm_block ext failing 3 (evm_at 5 []) one_waits in
    (Counts d
      × (d.quits ≡ false)
      × ((evm_at 5 []).irreversible ≡ false → pending d.calls ≡ 0)
      × (inserted d.calls ≡ evm_at 5 [] ∷ evm_at 4 [] ∷ []))
    ⊎ (Refused ext failing d.calls × (d.quits ≡ true))
on_evm_block-Counts_example =
    on_evm_block-Counts ext failing 3 (evm_at 5 []) one_waits (refl, omega arith)

abbrev fresh : Blockchain ℕ
fresh = record { engine_open = false; block_count = 0; calls = []; quits = false }

abbrev one_block : List (ℕ × EvmBlock ℕ)
one_block = (3, evm_at 5 []) ∷ []

shutdown-received_example :
    let d = received ext failing one_block fresh in
    (Made ext failing d.calls × Stops ext failing d (shutdown ext failing d))
    ⊎ ((¬ Made ext failing d.calls)
        × ((shutdown ext failing d).0 ≡ undefined)
        × ((one_block ≡ []) ⊎ (d.quits ≡ true)))
shutdown-received_example = shutdown-received ext failing one_block fresh refl refl

-- The constructor of the engine throws, so the pointer stays null.
abbrev unmakeable : List (Call ℕ) → Call ℕ → Option EngineError
unmakeable before make_engine = some std_exception
unmakeable before call = none

shutdown_without_engine :
    (shutdown ext unmakeable (received ext unmakeable one_block fresh)).0 ≡ undefined
unfolding shutdown on_evm_block
shutdown_without_engine = refl
