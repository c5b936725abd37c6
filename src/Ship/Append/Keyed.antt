-- ===== src/Ship/Append/Keyed.antt =====
-- The sequences by which `append_to_block` of src/ship_receiver_plugin.cpp orders the actions.
use eos_evm_node.Base.{
  ℕ, zero, suc, ◌<◌, ◌≡◌, ◌≢◌, refl, sym, ◌∙◌, ◌⊎◌, inl, inr, Bool-cases, List, [], ◌∷◌, Option,
  none, some, arith, All, ltb, leb, ◌==◌, ==→eq, ==-false→ne, get_elem?,
}
use eos_evm_node.Base.Action.{Outcome, ok}
use eos_evm_node.Ship.Append.{
  ActionTrace, TraceMap, ShipError, assign, own_sequence, creator_sequence, parent_sequence,
  receipt_or,
}

-- The map has the entry.
abbrev pub Holds : ℕ → ActionTrace → TraceMap → Type 0
Holds k v [] = ⊥
Holds k v ((l, w) ∷ rest) = ((k ≡ l) × (v ≡ w)) ⊎ Holds k v rest

module _ (key : ℕ) (value : ActionTrace) where
  pub assign-Holds : (m : TraceMap) → Holds key value (assign key value m)
  unfolding assign
  assign-Holds [] = inl (refl, refl)
  assign-Holds ((l, v) ∷ rest) = elim (Bool-cases (ltb key l)) [
    | inl below ↦ rw below (inl (refl, refl))
    | inr up ↦ elim (Bool-cases (key == l)) [
      | inl same ↦ rw (up, same) (inl (refl, refl))
      | inr apart ↦ rw (up, apart) (inr (assign-Holds rest))
    ]
  ]

  -- Another entry stays, unless it has the same key.
  pub assign-Holds_kept :
      (k : ℕ) (v : ActionTrace) (m : TraceMap)
      → Holds k v m
      → (k ≡ key) ⊎ Holds k v (assign key value m)
  unfolding assign
  assign-Holds_kept k v [] h = absurd h
  assign-Holds_kept k v ((l, w) ∷ rest) h = elim (Bool-cases (ltb key l)) [
    | inl below ↦ rw below (inr (inr h))
    | inr up ↦ elim (Bool-cases (key == l)) [
      | inl same ↦
          rw (up, same)
            (elim h [ inl e ↦ inl (e.0 ∙ sym (==→eq key l same)) | inr later ↦ inr (inr later) ])
      | inr apart ↦
          rw (up, apart)
            (elim h [
              | inl e ↦ inr (inl e)
              | inr later ↦ elim (assign-Holds_kept k v rest later) [
                | inl hit ↦ inl hit
                | inr kept ↦ inr (inr kept)
              ]
            ])
    ]
  ]

  pub assign-All_kept :
      (P : ℕ × ActionTrace → Type 0) (m : TraceMap)
      → P (key, value)
      → All P m
      → All P (assign key value m)
  unfolding assign
  assign-All_kept P [] p h = (p, tt)
  assign-All_kept P ((l, v) ∷ rest) p h = elim (Bool-cases (ltb key l)) [
    | inl below ↦ rw below (p, h)
    | inr up ↦ elim (Bool-cases (key == l)) [
      | inl same ↦ rw (up, same) (p, h.1)
      | inr apart ↦ rw (up, apart) (h.0, assign-All_kept P rest p h.1)
    ]
  ]

module _ (core_account pushtx_n evmtx_n configchange_n : ℕ) where
  module _ (actions : List ActionTrace) where
    -- The action is there, and the sequence is that of its receipt.
    abbrev pub Recorded : Option ActionTrace → ℕ → Type 0
    Recorded o k = (act : ActionTrace) × (o ≡ some act) × (act.receipt ≡ some k)

    -- The creator, counted from 1, comes before the index.
    abbrev pub CreatedBy : ℕ → ℕ → ℕ → Type 0
    CreatedBy j creator k =
        (parent_index : ℕ) × (creator ≡ suc parent_index)
        × (parent_index < j)
        × Recorded (get_elem? actions parent_index) k

    -- The sequence of the action at an index: for an `evmtx` that of the earlier action that has
    -- created it, for a configuration 0, and for any other that of its own receipt.
    abbrev pub HasKey : ℕ → ActionTrace → ℕ → Type 0
    HasKey j act k =
        ((act.name ≡ evmtx_n) × CreatedBy j act.creator_action_ordinal k)
        ⊎ ((act.name ≢ evmtx_n) × (act.name ≡ configchange_n) × (k ≡ 0))
        ⊎ ((act.name ≢ evmtx_n) × (act.name ≢ configchange_n) × (act.receipt ≡ some k))

    receipt_or-eq_ok :
        (x : ShipError) (o : Option ℕ) (k : ℕ)
        → receipt_or core_account pushtx_n evmtx_n configchange_n x o ≡ ok k
        → o ≡ some k
    unfolding receipt_or
    receipt_or-eq_ok x none k e = cc
    receipt_or-eq_ok x (some n) k e = cc

    parent_sequence-eq_ok :
        (o : Option ActionTrace) (k : ℕ)
        → parent_sequence core_account pushtx_n evmtx_n configchange_n o ≡ ok k
        → Recorded o k
    unfolding parent_sequence
    parent_sequence-eq_ok none k e = cc
    parent_sequence-eq_ok (some parent) k e = (parent, refl, receipt_or-eq_ok _ parent.receipt k e)

    creator_sequence-eq_ok :
        (j creator k : ℕ)
        → creator_sequence core_account pushtx_n evmtx_n configchange_n j actions creator ≡ ok k
        → CreatedBy j creator k
    unfolding creator_sequence
    creator_sequence-eq_ok j zero k e = cc
    creator_sequence-eq_ok j (suc p) k e = elim (Bool-cases (leb j p)) [
      | inl late ↦ absurd (cc (rw late at e))
      | inr before ↦
          (p, refl, ground arith, parent_sequence-eq_ok (get_elem? actions p) k (rw before at e))
    ]

    pub own_sequence-HasKey :
        (j : ℕ) (act : ActionTrace) (receipt : Option ℕ) (k : ℕ)
        → act.receipt ≡ receipt
        → own_sequence core_account pushtx_n evmtx_n configchange_n j actions act receipt ≡ ok k
        → HasKey j act k
    unfolding own_sequence
    own_sequence-HasKey j act none k there e = cc
    own_sequence-HasKey j act (some n) k there e = elim (Bool-cases (act.name == evmtx_n)) [
      | inl pushed ↦
          inl (
            ==→eq _ _ pushed,
            creator_sequence-eq_ok j act.creator_action_ordinal k (rw pushed at e),
          )
      | inr other ↦ elim (Bool-cases (act.name == configchange_n)) [
        | inl config ↦
            let zero_is : ◌≡◌ {A = Outcome ShipError ℕ} (ok 0) (ok k) = rw (other, config) at e in
            inr (inl (==-false→ne _ _ other, ==→eq _ _ config, cc))
        | inr plain ↦
            let own_is : ◌≡◌ {A = Outcome ShipError ℕ} (ok n) (ok k) = rw (other, plain) at e in
            inr (inr (==-false→ne _ _ other, ==-false→ne _ _ plain, cc))
      ]
    ]
