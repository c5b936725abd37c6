-- ===== src/Ship/Append/From.antt =====
-- A property of the action traces that the source takes in `append_to_block` of
-- src/ship_receiver_plugin.cpp is one of all actions of the native block.
pub mod Pushed
use eos_evm_node.Base.{
  ℕ, suc, ◌≡◌, refl, inl, inr, true, false, not, ◌&&◌, ◌||◌, Bool-cases, All, All-append,
  All-reverse, List, [], ◌∷◌, Option, none, some, is_empty, ltb, ◌==◌, ==→eq, if◌then◌else◌,
}
use eos_evm_node.Base.Action.{
  Outcome, ok, throw, undefined, pure, modify, of_outcome, Ends, >>=-Ends, ◌>>=◌, ◌>>◌,
}
use eos_evm_node.Channels.{NativeAction, NativeBlock}
use eos_evm_node.Ship.Append.Batch.{push}
use eos_evm_node.Ship.Append.{
  ActionTrace, TransactionTrace, TraceMap, Building, ShipError, native_action_of, has_value,
  back_differs, assign, is_relevant, own_sequence, order_action, order_actions, take_configchange,
  take_transaction, take_action, take_actions, check_names, push_transaction, append_ordered,
  action_to_search, append_to_block, append_traces,
}

abbrev pub Each : (ActionTrace → Type 0) → TraceMap → Type 0
Each P m = All (λ e. P e.1) m

assign-Each :
    (P : ActionTrace → Type 0) (key : ℕ) (value : ActionTrace) (m : TraceMap)
    → P value
    → Each P m
    → Each P (assign key value m)
unfolding assign
assign-Each P key value [] here h = (here, tt)
assign-Each P key value ((k, v) ∷ rest) here h = elim (Bool-cases (ltb key k)) [
  | inl below ↦ rw below (here, h)
  | inr up ↦ elim (Bool-cases (key == k)) [
    | inl same ↦ rw (up, same) (here, h.1)
    | inr apart ↦ rw (up, apart) (h.0, assign-Each P key value rest here h.1)
  ]
]

module _ (core_account pushtx_n evmtx_n configchange_n : ℕ) where
  module _ (P : ActionTrace → Type 0) (origin : NativeBlock) where
    order_action-Each :
        (search j : ℕ) (actions : List ActionTrace) (act : ActionTrace) (m : TraceMap)
        → (is_relevant core_account pushtx_n evmtx_n configchange_n search act ≡ true → P act)
        → Each P m
        → Ends
            (λ _ m'. Each P m')
            (λ _ _. Unit)
            Unit
            (order_action core_account pushtx_n evmtx_n configchange_n search j actions act m)
    unfolding order_action
    order_action-Each search j actions act m good h =
        elim (Bool-cases (is_relevant core_account pushtx_n evmtx_n configchange_n search act)) [
          | inl relevant ↦ rw relevant (
              keyed
                (own_sequence core_account pushtx_n evmtx_n configchange_n j actions act
                  act.receipt)
                (good relevant))
          | inr other ↦ rw other h
        ]
      where
        keyed :
            (r : Outcome ShipError ℕ)
            → P act
            → Ends
                (λ _ m'. Each P m')
                (λ _ _. Unit)
                Unit
                ((of_outcome r >>= λ key. modify (assign key act)) m)
        keyed (ok key) here = assign-Each P key act m here h
        keyed (throw e) here = tt
        keyed undefined here = tt

    pub order_actions-Each :
        (search j : ℕ) (actions rest : List ActionTrace) (m : TraceMap)
        → All
            (λ act.
              is_relevant core_account pushtx_n evmtx_n configchange_n search act ≡ true → P act)
            rest
        → Each P m
        → Ends
            (λ _ m'. Each P m')
            (λ _ _. Unit)
            Unit
            (order_actions core_account pushtx_n evmtx_n configchange_n search j actions rest m)
    unfolding order_actions
    order_actions-Each search j actions [] m good h = h
    order_actions-Each search j actions (act ∷ rest) m good h =
        >>=-Ends (λ _ m'. Each P m') (λ _ m'. Each P m') (λ _ _. Unit) Unit
          (λ _.
            order_actions core_account pushtx_n evmtx_n configchange_n search (suc j) actions rest)
          (order_action core_account pushtx_n evmtx_n configchange_n search j actions act) m
          (order_action-Each search j actions act m good.0 h)
          (λ _ m' k. order_actions-Each search (suc j) actions rest m' good.1 k)

    -- The action is that of a trace that has the property.
    abbrev pub From : NativeAction → Type 0
    From act = (a : ActionTrace) × (act ≡ native_action_of a) × P a

    abbrev pub ConfigFrom : Option NativeAction → Type 0
    ConfigFrom none = Unit
    ConfigFrom (some act) = From act × (act.name ≡ configchange_n)

    abbrev pub ActionFrom : NativeAction → Type 0
    ActionFrom act = From act × ((act.name == configchange_n) ≡ false)

    -- What `start_native_block` has set.
    abbrev pub SamePlace : NativeBlock → Type 0
    SamePlace b =
        (b.id ≡ origin.id)
        × (b.prev ≡ origin.prev)
        × (b.block_num ≡ origin.block_num)
        × (b.timestamp ≡ origin.timestamp)

    abbrev pub BlockFrom : NativeBlock → Type 0
    BlockFrom b =
        SamePlace b
        × ConfigFrom b.new_config
        × All (λ trx. All ActionFrom trx.actions) b.transactions

    abbrev pub Gathered : Unit {0} → Building → Type 0
    Gathered _ c = All ActionFrom c.pending × BlockFrom c.block

    take_configchange-Gathered :
        (act : NativeAction) (c : Building)
        → From act
        → act.name ≡ configchange_n
        → Gathered tt c
        → Ends Gathered
            (λ _ _. Unit)
            Unit
            (take_configchange core_account pushtx_n evmtx_n configchange_n act c)
    unfolding take_configchange
    take_configchange-Gathered act c here named h =
        elim (Bool-cases (has_value c.block.new_config)) [
          | inl configured ↦ rw configured tt
          | inr first ↦
              elim (Bool-cases (not (is_empty c.pending) || not (is_empty c.block.transactions))) [
                | inl used ↦ rw (first, used) tt
                | inr fresh ↦ rw (first, fresh) (h.0, (h.1.0, (here, named), h.1.2))
              ]
        ]

    take_transaction-Gathered :
        (act : NativeAction) (c : Building)
        → ActionFrom act
        → Gathered tt c
        → Ends Gathered
            (λ _ _. Unit)
            Unit
            (take_transaction core_account pushtx_n evmtx_n configchange_n act c)
    unfolding take_transaction
    take_transaction-Gathered act c here h =
        elim (Bool-cases (has_value c.block.new_config && act.name == pushtx_n)) [
          | inl configured ↦ rw configured tt
          | inr plain ↦ elim (Bool-cases (back_differs act.name c.pending)) [
            | inl differs ↦ rw (plain, differs) tt
            | inr same ↦ rw (plain, same) ((here, h.0), h.1)
          ]
        ]

    take_action-Gathered :
        (act : NativeAction) (c : Building)
        → From act
        → Gathered tt c
        → Ends Gathered
            (λ _ _. Unit)
            Unit
            (take_action core_account pushtx_n evmtx_n configchange_n act c)
    unfolding take_action
    take_action-Gathered act c here h = elim (Bool-cases (act.name == configchange_n)) [
      | inl named ↦ rw named (take_configchange-Gathered act c here (==→eq _ _ named) h)
      | inr other ↦ rw other (take_transaction-Gathered act c (here, other) h)
    ]

    pub take_actions-Gathered :
        (ordered : TraceMap) (c : Building)
        → Each P ordered
        → Gathered tt c
        → Ends Gathered
            (λ _ _. Unit)
            Unit
            (take_actions core_account pushtx_n evmtx_n configchange_n ordered c)
    unfolding take_actions
    take_actions-Gathered [] c from h = h
    take_actions-Gathered ((sequence, act) ∷ rest) c from h =
        >>=-Ends Gathered Gathered (λ _ _. Unit) Unit
          (λ _. take_actions core_account pushtx_n evmtx_n configchange_n rest)
          (take_action core_account pushtx_n evmtx_n configchange_n (native_action_of act)) c
          (take_action-Gathered (native_action_of act) c (act, refl, from.0) h)
          (λ _ d k. take_actions-Gathered rest d from.1 k)
