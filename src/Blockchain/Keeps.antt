-- ===== src/Blockchain/Keeps.antt =====
-- What the calls of the subscriber in src/blockchain_plugin.cpp keep.
use eos_evm_node.Base.{
  ℕ, ◌%◌, inl, inr, Bool, true, false, not, ◌||◌, List, Option-cases, Option, if◌then◌else◌, ◌==◌,
  ◌∷◌,
}
use eos_evm_node.Base.Action.{ok, Keeps, >>=-Keeps, modify, ◌>>◌}
use eos_evm_node.Evm.{EvmBlock}
use eos_evm_node.External.{External}
use eos_evm_node.Blockchain.{
  Blockchain, Call, EngineError, insert_block, store_lib, verify_chain, answered, ask, count_block,
  verify, verify_if_due,
}

-- `P` is not about the counter, and one more call keeps it.
module _ {Tx : Type 0} (ext : External Tx) (fails : List (Call Tx) → Call Tx → Option EngineError)
    (P : Blockchain Tx → Type 0)
    (calls_apart : (c : Blockchain Tx) (call : Call Tx)
      → P c
      → P (record c { calls = call ∷ c.calls }))
    (count_apart : (c : Blockchain Tx) (n : ℕ) → P c → P (record c { block_count = n })) where
  pub ask-Keeps : (call : Call Tx) → Keeps P (ask ext fails call)
  unfolding ask answered
  ask-Keeps call c p = elim (Option-cases (fails c.calls call)) [
    | inl fine ↦ rw (fine, answered) (calls_apart c call p)
    | inr (e, bad) ↦ rw (bad, answered) (calls_apart c call p)
  ]

  verify-Keeps : (evm_lib : ℕ) (block : EvmBlock Tx) → Keeps P (verify ext fails evm_lib block)
  unfolding verify
  verify-Keeps evm_lib block =
      >>=-Keeps P
        (λ _.
          ask ext fails (verify_chain (ext.header_hash block.header))
          >> modify (λ c. record c { block_count = 0 }))
        (λ _.
          >>=-Keeps P (λ _. modify (λ c. record c { block_count = 0 })) (λ _ c p. count_apart c 0 p)
            (ask ext fails (verify_chain (ext.header_hash block.header)))
            (ask-Keeps (verify_chain (ext.header_hash block.header))))
        (ask ext fails (store_lib evm_lib)) (ask-Keeps (store_lib evm_lib))

  -- After the engine is open.
  pub insert-Keeps :
      (evm_lib : ℕ) (block : EvmBlock Tx)
      → Keeps P (ask ext fails (insert_block block) >> verify_if_due ext fails evm_lib block)
  unfolding verify_if_due count_block
  insert-Keeps evm_lib block =
      >>=-Keeps P (λ _. verify_if_due ext fails evm_lib block)
        (λ _ c p.
          due (count_block ext fails c) (count_apart c (count_block ext fails c).block_count p)
            ((count_block ext fails c).block_count % 5000 == 0 || not block.irreversible))
        (ask ext fails (insert_block block)) (ask-Keeps (insert_block block))
    where
      due :
          (c : Blockchain Tx)
          → P c
          → (b : Bool) → P (if b then verify ext fails evm_lib block c else (ok tt, c)).1
      due c p true = verify-Keeps evm_lib block c p
      due c p false = p
