-- ===== src/Engine/Search.antt =====
-- The search of src/engine_plugin.cpp for a block with an Antelope block id.
use eos_evm_node.Base.{
  ℕ, zero, suc, ◌≤◌, ◌<◌, ◌≡◌, refl, ◌⊎◌, inl, inr, true, false, Bool-cases, arith,
}
use eos_evm_node.Engine.{Database, has_eos_id, find_block_with_valid_eos_id}

module _ {Tx : Type 0} (db : Database Tx) where
  abbrev pub IsLastBelow : ℕ → ℕ → Type 0
  IsLastBelow start m =
      (m ≤ start)
      × (find_block_with_valid_eos_id db start ≡ db.canonical_header m)
      × ((k : ℕ) → m < k → k ≤ start → has_eos_id (db.canonical_header k) ≡ false)
      × ((has_eos_id (db.canonical_header m) ≡ true) ⊎ (m ≡ 0))

  -- The search ends, at the highest block from the start downwards that has an id, and at height 0
  -- where there is none.
  pub find_block_with_valid_eos_id-IsLastBelow : (start : ℕ) → (m : ℕ) × IsLastBelow start m
  unfolding find_block_with_valid_eos_id
  find_block_with_valid_eos_id-IsLastBelow zero =
      (0, (omega arith, refl, (λ k low high. absurd (omega arith)), inr refl))
  find_block_with_valid_eos_id-IsLastBelow (suc start) =
      elim (Bool-cases (has_eos_id (db.canonical_header (suc start)))) [
        | inl here ↦
            (suc start, (omega arith, rw here refl, (λ k low high. absurd (omega arith)), inl here))
        | inr missing ↦
            let (m, (low, found, skipped, stop)) = find_block_with_valid_eos_id-IsLastBelow start in
            (
              m,
              (
                omega arith,
                rw missing found,
                (λ k above high.
                    missing_at k
                      (elim (le_cases k start high) [
                        | inl e ↦ inl e
                        | inr h ↦ inr (skipped k above h)
                      ])
                      missing),
                stop,
              ),
            )
      ]
    where
      le_cases : (k start : ℕ) → k ≤ suc start → (k ≡ suc start) ⊎ (k ≤ start)
      le_cases k start h = ground arith

      missing_at :
          (k : ℕ)
          → (k ≡ suc start) ⊎ (has_eos_id (db.canonical_header k) ≡ false)
          → has_eos_id (db.canonical_header (suc start)) ≡ false
          → has_eos_id (db.canonical_header k) ≡ false
      missing_at k (inl e) missing = rw e missing
      missing_at k (inr h) missing = h
