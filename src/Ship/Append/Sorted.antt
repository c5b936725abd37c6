-- ===== src/Ship/Append/Sorted.antt =====
-- The order in which `append_to_block` of src/ship_receiver_plugin.cpp takes the actions.
use eos_evm_node.Base.{
  ℕ, zero, suc, ◌+◌, ◌<◌, ◌≡◌, refl, inl, inr, false, Bool-cases, List, [], ◌∷◌, Option, none, some,
  Option-cases, arith, All, All-map, ltb, leb, ltb→lt, ltb-false→le, ◌==◌, ==→eq, ==-false→ne,
  length, get_elem?,
}
use eos_evm_node.Base.Action.{
  Outcome, ok, throw, undefined, Ends, >>=-Ends, ◌>>=◌, of_outcome, modify,
}
use eos_evm_node.Ship.Append.{
  ActionTrace, TraceMap, ShipError, assign, order_action, order_actions, is_relevant, own_sequence,
  creator_sequence, parent_sequence, receipt_or,
}

-- The sequences go up, and none comes twice.
abbrev pub Sorted : TraceMap → Type 0
Sorted [] = Unit
Sorted ((k, v) ∷ rest) = All (λ e. k < e.0) rest × Sorted rest

assign-All :
    (k key : ℕ) (value : ActionTrace) (m : TraceMap)
    → k < key
    → All (λ e. k < e.0) m
    → All (λ e. k < e.0) (assign key value m)
unfolding assign
assign-All k key value [] low h = (low, tt)
assign-All k key value ((l, v) ∷ rest) low h = elim (Bool-cases (ltb key l)) [
  | inl below ↦ rw below (low, h)
  | inr up ↦ elim (Bool-cases (key == l)) [
    | inl same ↦ rw (up, same) (low, h.1)
    | inr apart ↦ rw (up, apart) (h.0, assign-All k key value rest low h.1)
  ]
]

pub assign-Sorted :
    (key : ℕ) (value : ActionTrace) (m : TraceMap) → Sorted m → Sorted (assign key value m)
unfolding assign
assign-Sorted key value [] h = (tt, tt)
assign-Sorted key value ((l, v) ∷ rest) h = elim (Bool-cases (ltb key l)) [
  | inl below ↦
      rw below ((ltb→lt _ _ below, All-map rest (λ e k. omega (arith, k, ltb→lt _ _ below)) h.0), h)
  | inr up ↦ elim (Bool-cases (key == l)) [
    | inl same ↦ rw (up, same) (All-map rest (λ e k. omega (arith, k, ==→eq _ _ same)) h.0, h.1)
    | inr apart ↦
        rw (up, apart)
          (
            assign-All l key value rest (omega (arith, ltb-false→le _ _ up, ==-false→ne _ _ apart))
                h.0,
            assign-Sorted key value rest h.1,
          )
  ]
]

get_elem?-some :
    {A : Type 0} (xs : List A) (i : ℕ) → i < length xs → (x : A) × (get_elem? xs i ≡ some x)
get_elem?-some [] i h = absurd (omega arith)
get_elem?-some (x ∷ xs) zero h = (x, refl)
get_elem?-some (x ∷ xs) (suc i) h = get_elem?-some xs i (omega arith)

abbrev pub IsDefined : {A : Type 0} → Outcome ShipError A → Type 0
IsDefined (ok a) = Unit
IsDefined (throw e) = Unit
IsDefined undefined = ⊥

module _ (core_account pushtx_n evmtx_n configchange_n : ℕ) where
  creator_sequence-IsDefined :
      (j creator : ℕ) (actions : List ActionTrace)
      → j < length actions
      → IsDefined (creator_sequence core_account pushtx_n evmtx_n configchange_n j actions creator)
  unfolding creator_sequence parent_sequence receipt_or
  creator_sequence-IsDefined j zero actions h = tt
  creator_sequence-IsDefined j (suc parent) actions h = elim (Bool-cases (leb j parent)) [
    | inl late ↦ rw late tt
    | inr before ↦
        let (act, found) = get_elem?-some actions parent (in_range j parent h before) in
        elim (Option-cases act.receipt) [
          | inl missing ↦ rw (before, found, missing) tt
          | inr (n, here) ↦ rw (before, found, here) tt
        ]
  ]
    where
      in_range :
          (i parent : ℕ) → i < length actions → leb i parent ≡ false → parent < length actions
      in_range i parent low before = ground arith

  pub own_sequence-IsDefined :
      (j : ℕ) (actions : List ActionTrace) (act : ActionTrace) (receipt : Option ℕ)
      → j < length actions
      → IsDefined (own_sequence core_account pushtx_n evmtx_n configchange_n j actions act receipt)
  unfolding own_sequence
  own_sequence-IsDefined j actions act none h = tt
  own_sequence-IsDefined j actions act (some n) h = elim (Bool-cases (act.name == evmtx_n)) [
    | inl pushed ↦ rw pushed (creator_sequence-IsDefined j act.creator_action_ordinal actions h)
    | inr other ↦ elim (Bool-cases (act.name == configchange_n)) [
      | inl config ↦ rw (other, config) tt
      | inr plain ↦ rw (other, plain) tt
    ]
  ]

  abbrev Orders : Outcome ShipError (Unit {0}) × TraceMap → Type 0
  Orders = Ends (λ _ m. Sorted m) (λ _ m. Sorted m) ⊥

  order_key :
      (act : ActionTrace) (m : TraceMap) (r : Outcome ShipError ℕ)
      → IsDefined r
      → Sorted m
      → Orders ((of_outcome r >>= λ key. modify (assign key act)) m)
  order_key act m (ok key) d h = assign-Sorted key act m h
  order_key act m (throw e) d h = h
  order_key act m undefined d h = elim d [ ]

  order_action-Orders :
      (search j : ℕ) (actions : List ActionTrace) (act : ActionTrace) (m : TraceMap)
      → j < length actions
      → Sorted m
      → Orders (order_action core_account pushtx_n evmtx_n configchange_n search j actions act m)
  unfolding order_action
  order_action-Orders search j actions act m low h =
      elim (Bool-cases (is_relevant core_account pushtx_n evmtx_n configchange_n search act)) [
        | inl taken ↦
            rw taken (order_key act m _ (own_sequence-IsDefined j actions act act.receipt low) h)
        | inr passed ↦ rw passed h
      ]

  -- From index `j` of a transaction's actions, with `rest` the actions from there on in number, and
  -- with a map in strict order, the loop never reads an action outside the list, and whether it
  -- throws or not, what it has collected is in the strict order of the global sequences.
  pub order_actions-Sorted :
      (search j : ℕ) (actions rest : List ActionTrace) (m : TraceMap)
      → j + length rest ≡ length actions
      → Sorted m
      → Ends
          (λ _ m'. Sorted m')
          (λ _ m'. Sorted m')
          ⊥
          (order_actions core_account pushtx_n evmtx_n configchange_n search j actions rest m)
  unfolding order_actions
  order_actions-Sorted search j actions [] m e h = h
  order_actions-Sorted search j actions (act ∷ rest) m e h =
      >>=-Ends (λ _ m'. Sorted m') (λ _ m'. Sorted m') (λ _ m'. Sorted m') ⊥
        (λ _.
          order_actions core_account pushtx_n evmtx_n configchange_n search (suc j) actions rest)
        (order_action core_account pushtx_n evmtx_n configchange_n search j actions act) m
        (order_action-Orders search j actions act m (omega arith) h)
        λ _ m' h'. order_actions-Sorted search (suc j) actions rest m' (omega arith) h'
