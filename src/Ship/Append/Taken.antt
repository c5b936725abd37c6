-- ===== src/Ship/Append/Taken.antt =====
-- What the actions of one transaction leave in the loop of `append_to_block`, in
-- src/ship_receiver_plugin.cpp.
use eos_evm_node.Base.{
  ℕ, ◌≡◌, refl, ◌⊎◌, inl, inr, Bool, true, false, not, ◌&&◌, ◌||◌, Bool-cases, List, [], ◌∷◌,
  is_empty, ◌==◌, if◌then◌else◌,
}
use eos_evm_node.Base.Action.{ok, Ends, >>=-Ends}
use eos_evm_node.Channels.{NativeAction, NativeTrx}
use eos_evm_node.Ship.Append.{
  Building, TraceMap, ActionTrace, native_action_of, has_value, back_differs, take_configchange,
  take_transaction, take_action, take_actions,
}

-- There is an action.
abbrev pub NonEmpty : {A : Type 0} → List A → Type 0
NonEmpty [] = ⊥
NonEmpty (x ∷ xs) = Unit

-- An action was taken, or the block had no transactions before.
abbrev pub Taken : Unit {0} → Building → Type 0
Taken _ c = NonEmpty c.pending ⊎ (c.block.transactions ≡ [])

module _ (core_account pushtx_n evmtx_n configchange_n : ℕ) where
  take_configchange-Taken :
      (act : NativeAction) (c : Building)
      → Ends Taken
          (λ _ _. Unit)
          ⊥
          (take_configchange core_account pushtx_n evmtx_n configchange_n act c)
  unfolding take_configchange
  take_configchange-Taken act c = elim (Bool-cases (has_value c.block.new_config)) [
    | inl configured ↦ rw configured tt
    | inr first ↦
        elim (Bool-cases (not (is_empty c.pending) || not (is_empty c.block.transactions))) [
          | inl used ↦ rw (first, used) tt
          | inr fresh ↦
              rw (first, fresh) (inr (no_transactions c.block.transactions c.pending fresh))
        ]
  ]
    where
      no_transactions :
          (trxs : List NativeTrx) (pending : List NativeAction)
          → (not (is_empty pending) || not (is_empty trxs)) ≡ false
          → trxs ≡ []
      no_transactions [] pending e = refl
      no_transactions (trx ∷ trxs) [] e = cc
      no_transactions (trx ∷ trxs) (a ∷ pending) e = cc

  take_transaction-Taken :
      (act : NativeAction) (c : Building)
      → Ends Taken
          (λ _ _. Unit)
          ⊥
          (take_transaction core_account pushtx_n evmtx_n configchange_n act c)
  unfolding take_transaction
  take_transaction-Taken act c =
      elim (Bool-cases (has_value c.block.new_config && act.name == pushtx_n)) [
        | inl configured ↦ rw configured tt
        | inr plain ↦ elim (Bool-cases (back_differs act.name c.pending)) [
          | inl differs ↦ rw (plain, differs) tt
          | inr same ↦ rw (plain, same) (inl tt)
        ]
      ]

  take_action-Taken :
      (act : NativeAction) (c : Building)
      → Ends Taken (λ _ _. Unit) ⊥ (take_action core_account pushtx_n evmtx_n configchange_n act c)
  unfolding take_action
  take_action-Taken act c = either (act.name == configchange_n)
    where
      either :
          (b : Bool)
          → Ends Taken
              (λ _ _. Unit)
              ⊥
              ((if b
                  then take_configchange core_account pushtx_n evmtx_n configchange_n act
                  else take_transaction core_account pushtx_n evmtx_n configchange_n act)
                c)
      either true = take_configchange-Taken act c
      either false = take_transaction-Taken act c

  -- The last action decides.
  pub take_actions-Taken :
      (sequence : ℕ) (act : ActionTrace) (rest : TraceMap) (c : Building)
      → Ends Taken
          (λ _ _. Unit)
          ⊥
          (take_actions core_account pushtx_n evmtx_n configchange_n ((sequence, act) ∷ rest) c)
  unfolding take_actions
  take_actions-Taken sequence act [] c =
      >>=-Ends Taken Taken (λ _ _. Unit) ⊥ (λ _ d. (ok tt, d))
        (take_action core_account pushtx_n evmtx_n configchange_n (native_action_of act)) c
        (take_action-Taken (native_action_of act) c) (λ _ d h. h)
  take_actions-Taken sequence act ((next, act') ∷ rest) c =
      >>=-Ends Taken Taken (λ _ _. Unit) ⊥
        (λ _. take_actions core_account pushtx_n evmtx_n configchange_n ((next, act') ∷ rest))
        (take_action core_account pushtx_n evmtx_n configchange_n (native_action_of act)) c
        (take_action-Taken (native_action_of act) c) (λ _ d h. take_actions-Taken next act' rest d)
