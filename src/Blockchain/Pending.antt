-- ===== src/Blockchain/Pending.antt =====
-- How many blocks wait for their verification, and what an exception of the engine leads to, in
-- src/blockchain_plugin.cpp.
use eos_evm_node.Base.{
  ℕ, suc, ◌+◌, ◌%◌, ◌^◌, ◌<◌, ◌≡◌, refl, ap, Bool, true, false, not, ◌||◌, Option-cases, inl, inr,
  ◌⊎◌, List, [], ◌∷◌, Option, some, arith, ◌==◌, if◌then◌else◌,
}
use eos_evm_node.Base.Action.{Outcome, ok, throw, undefined, Ends, >>=-Ends, ◌>>◌, modify}
use eos_evm_node.Evm.{EvmBlock}
use eos_evm_node.External.{External}
use eos_evm_node.Blockchain.{
  Blockchain, Call, EngineError, mdbx_exception, std_exception, unknown_exception, make_engine,
  open_engine, insert_block, store_lib, verify_chain, stop_engine, close_engine, answered, ask,
  ensure_open, count_block, verify, verify_if_due, process_block, caught, on_evm_block,
}

module _ {Tx : Type 0} where
  -- The blocks inserted since the chain was last verified.
  abbrev pub pending : List (Call Tx) → ℕ
  pending [] = 0
  pending (make_engine ∷ calls) = pending calls
  pending (open_engine ∷ calls) = pending calls
  pending (insert_block block ∷ calls) = suc (pending calls)
  pending (store_lib lib ∷ calls) = pending calls
  pending (verify_chain hash ∷ calls) = 0
  pending (stop_engine ∷ calls) = pending calls
  pending (close_engine ∷ calls) = pending calls

  -- The blocks inserted, newest first.
  abbrev pub inserted : List (Call Tx) → List (EvmBlock Tx)
  inserted [] = []
  inserted (make_engine ∷ calls) = inserted calls
  inserted (open_engine ∷ calls) = inserted calls
  inserted (insert_block block ∷ calls) = block ∷ inserted calls
  inserted (store_lib lib ∷ calls) = inserted calls
  inserted (verify_chain hash ∷ calls) = inserted calls
  inserted (stop_engine ∷ calls) = inserted calls
  inserted (close_engine ∷ calls) = inserted calls

  -- The counter is right and below the bound.
  abbrev pub Counts : Blockchain Tx → Type 0
  Counts c = (c.block_count ≡ pending c.calls) × (c.block_count < 5000)

  module _ (ext : External Tx) (fails : List (Call Tx) → Call Tx → Option EngineError) where
    -- The newest call is one that the engine has refused.
    abbrev pub Refused : List (Call Tx) → Type 0
    Refused [] = ⊥
    Refused (call ∷ calls) = (e : EngineError) × (fails calls call ≡ some e)

    abbrev RefusedBy : EngineError → Blockchain Tx → Type 0
    RefusedBy e c = Refused c.calls

    ask-Ends :
        (Q : Unit {0} → Blockchain Tx → Type 0) (call : Call Tx) (c : Blockchain Tx)
        → Q tt (record c { calls = call ∷ c.calls })
        → Ends Q RefusedBy ⊥ (ask ext fails call c)
    unfolding ask answered
    ask-Ends Q call c h = elim (Option-cases (fails c.calls call)) [
      | inl fine ↦ rw fine h
      | inr (e, bad) ↦ rw bad (e, bad)
    ]

    -- What the handler has done once the block is inserted.
    abbrev Inserts : EvmBlock Tx → Blockchain Tx → Unit {0} → Blockchain Tx → Type 0
    Inserts block c _ d =
        (d.block_count ≡ c.block_count)
        × (d.quits ≡ c.quits)
        × (pending d.calls ≡ suc (pending c.calls))
        × (inserted d.calls ≡ block ∷ inserted c.calls)

    -- What it has done when it returns.
    abbrev Finishes : EvmBlock Tx → Blockchain Tx → Unit {0} → Blockchain Tx → Type 0
    Finishes block c _ d =
        Counts d
        × (d.quits ≡ c.quits)
        × (block.irreversible ≡ false → pending d.calls ≡ 0)
        × (inserted d.calls ≡ block ∷ inserted c.calls)

    abbrev Opened : Blockchain Tx → Unit {0} → Blockchain Tx → Type 0
    Opened c _ d =
        (d.block_count ≡ c.block_count)
        × (d.quits ≡ c.quits)
        × (pending d.calls ≡ pending c.calls)
        × (inserted d.calls ≡ inserted c.calls)

    ensure_open-Ends : (c : Blockchain Tx) → Ends (Opened c) RefusedBy ⊥ (ensure_open ext fails c)
    unfolding ensure_open
    ensure_open-Ends c = either c.engine_open
      where
        either :
            (b : Bool)
            → Ends (Opened c) RefusedBy ⊥ (
                if b
                then (ok tt, c)
                else (ask ext fails make_engine
                      >> (modify (λ d. record d { engine_open = true })
                          >> ask ext fails open_engine))
                    c)
        either true = (refl, refl, refl, refl)
        either false =
            >>=-Ends (Opened c) (Opened c) RefusedBy ⊥
              (λ _. modify (λ d. record d { engine_open = true }) >> ask ext fails open_engine)
              (ask ext fails make_engine) c
              (ask-Ends (Opened c) make_engine c (refl, refl, refl, refl))
              (λ _ d o. ask-Ends (Opened c) open_engine (record d { engine_open = true }) o)

    verify-Ends :
        (evm_lib : ℕ) (block : EvmBlock Tx) (c d : Blockchain Tx)
        → d.quits ≡ c.quits
        → inserted d.calls ≡ block ∷ inserted c.calls
        → Ends (Finishes block c) RefusedBy ⊥ (verify ext fails evm_lib block d)
    unfolding verify
    verify-Ends evm_lib block c d q i =
        >>=-Ends (λ _ e. e ≡ record d { calls = store_lib evm_lib ∷ d.calls }) (Finishes block c)
          RefusedBy ⊥
          (λ _.
            ask ext fails (verify_chain (ext.header_hash block.header))
            >> modify (λ c. record c { block_count = 0 }))
          (ask ext fails (store_lib evm_lib)) d
          (ask-Ends (λ _ e. e ≡ record d { calls = store_lib evm_lib ∷ d.calls })
            (store_lib evm_lib) d refl)
          (λ _ e same. rw same (
            >>=-Ends
              (λ _ f. f ≡ record d {
                calls = verify_chain (ext.header_hash block.header) ∷ store_lib evm_lib ∷ d.calls;
              })
              (Finishes block c) RefusedBy ⊥ (λ _. modify (λ c. record c { block_count = 0 }))
              (ask ext fails (verify_chain (ext.header_hash block.header)))
              (record d { calls = store_lib evm_lib ∷ d.calls })
              (ask-Ends
                (λ _ f. f ≡ record d {
                  calls = verify_chain (ext.header_hash block.header) ∷ store_lib evm_lib ∷ d.calls;
                })
                (verify_chain (ext.header_hash block.header))
                (record d { calls = store_lib evm_lib ∷ d.calls }) refl)
              (λ _ f same. rw same ((refl, omega arith), q, (λ _. refl), i))))

    verify_if_due-Ends :
        (evm_lib : ℕ) (block : EvmBlock Tx) (c d : Blockchain Tx)
        → Counts c
        → Inserts block c tt d
        → Ends (Finishes block c) RefusedBy ⊥ (verify_if_due ext fails evm_lib block d)
    unfolding verify_if_due count_block
    verify_if_due-Ends evm_lib block c d h (count, q, waits, i) =
        due (((d.block_count + 1) % 2 ^ 64) % 5000 == 0 || not block.irreversible) not_due
      where
        not_due :
            ((d.block_count + 1) % 2 ^ 64 % 5000 == 0 || not block.irreversible) ≡ false
            → (((d.block_count + 1) % 2 ^ 64 ≡ pending d.calls)
                × ((d.block_count + 1) % 2 ^ 64 < 5000))
              × (block.irreversible ≡ true)
        not_due e = ground arith

        due :
            (b : Bool)
            → (b ≡ false
                → (((d.block_count + 1) % 2 ^ 64 ≡ pending d.calls)
                    × ((d.block_count + 1) % 2 ^ 64 < 5000))
                  × (block.irreversible ≡ true))
            → Ends (Finishes block c) RefusedBy ⊥ (
                if b
                then verify ext fails evm_lib block
                    (record d { block_count = (d.block_count + 1) % 2 ^ 64 })
                else (ok tt, record d { block_count = (d.block_count + 1) % 2 ^ 64 }))
        due true k =
            verify-Ends evm_lib block c (record d { block_count = (d.block_count + 1) % 2 ^ 64 }) q
              i
        due false k = ((k refl).0, q, (λ open_end. absurd (cc ((k refl).1, open_end))), i)

    process_block-Ends :
        (evm_lib : ℕ) (block : EvmBlock Tx) (c : Blockchain Tx)
        → Counts c
        → Ends (Finishes block c) RefusedBy ⊥ (process_block ext fails evm_lib block c)
    unfolding process_block
    process_block-Ends evm_lib block c h =
        >>=-Ends (Opened c) (Finishes block c) RefusedBy ⊥
          (λ _. ask ext fails (insert_block block) >> verify_if_due ext fails evm_lib block)
          (ensure_open ext fails) c (ensure_open-Ends c)
          (λ _ d (count, q, waits, i).
            >>=-Ends (Inserts block c) (Finishes block c) RefusedBy ⊥
              (λ _. verify_if_due ext fails evm_lib block) (ask ext fails (insert_block block)) d
              (ask-Ends (Inserts block c) (insert_block block) d
                (count, q, ap suc waits, ap (λ t. block ∷ t) i))
              (λ _ e. verify_if_due-Ends evm_lib block c e h))

    -- Where the counter says how many inserted blocks wait for the verification of the chain, fewer
    -- than 5000: either the block is inserted next, the counter stays right and below 5000, none
    -- waits after a block that is not irreversible, and the application is not asked to quit; or the
    -- engine has refused the last call, and the application is asked to quit.
    pub on_evm_block-Counts :
        (evm_lib : ℕ) (block : EvmBlock Tx) (c : Blockchain Tx)
        → Counts c
        → let d = on_evm_block ext fails evm_lib block c in
          (Counts d
            × (d.quits ≡ c.quits)
            × (block.irreversible ≡ false → pending d.calls ≡ 0)
            × (inserted d.calls ≡ block ∷ inserted c.calls))
          ⊎ (Refused d.calls × (d.quits ≡ true))
    unfolding on_evm_block
    on_evm_block-Counts evm_lib block c h =
        caught-Ends (process_block ext fails evm_lib block c) (process_block-Ends evm_lib block c h)
      where
        caught-Ends :
            (r : Outcome EngineError (Unit {0}) × Blockchain Tx)
            → Ends (Finishes block c) RefusedBy ⊥ r
            → Finishes block c tt (caught ext fails r.0 r.1)
              ⊎ (Refused (caught ext fails r.0 r.1).calls
                  × ((caught ext fails r.0 r.1).quits ≡ true))
        caught-Ends (ok done, d) k = inl k
        caught-Ends (throw mdbx_exception, d) k = inr (k, refl)
        caught-Ends (throw std_exception, d) k = inr (k, refl)
        caught-Ends (throw unknown_exception, d) k = inr (k, refl)
        caught-Ends (undefined, d) k = absurd k
