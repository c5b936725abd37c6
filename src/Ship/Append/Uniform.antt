-- ===== src/Ship/Append/Uniform.antt =====
-- The names of the actions that one transaction contributes, in src/ship_receiver_plugin.cpp.
use eos_evm_node.Base.{
  ℕ, ◌≡◌, ◌≢◌, refl, ◌∙◌, Bool, true, false, not, ◌&&◌, ◌||◌, Bool-cases, inl, inr, All, All-map,
  List, [], ◌∷◌, ◌==◌, ==→eq, ==-false→ne, is_empty,
}
use eos_evm_node.Base.Action.{Outcome, Ends, Ends-mono, >>=-Ends}
use eos_evm_node.Channels.{NativeAction}
use eos_evm_node.Ship.Append.{
  Building, ShipError, TraceMap, native_action_of, has_value, back_differs, take_configchange,
  take_transaction, take_action, take_actions,
}

-- All actions have one name, which is not that of a configuration.
abbrev pub Uniform : ℕ → List NativeAction → Type 0
Uniform configchange_n [] = Unit
Uniform configchange_n (act ∷ older) =
    (act.name ≢ configchange_n) × All (λ b. b.name ≡ act.name) older

module _ (core_account pushtx_n evmtx_n configchange_n : ℕ) where
  -- The block's transactions stay, and the pending actions are uniform.
  abbrev pub Takes : Building → Outcome ShipError (Unit {0}) × Building → Type 0
  Takes c =
      Ends (λ _ d. (d.block.transactions ≡ c.block.transactions) × Uniform configchange_n d.pending)
        (λ _ d. d.block.transactions ≡ c.block.transactions) ⊥

  take_configchange-Takes :
      (act : NativeAction) (c : Building)
      → Uniform configchange_n c.pending
      → Takes c (take_configchange core_account pushtx_n evmtx_n configchange_n act c)
  unfolding take_configchange
  take_configchange-Takes act c h = elim (Bool-cases (has_value c.block.new_config)) [
    | inl configured ↦ rw configured refl
    | inr first ↦
        elim (Bool-cases (not (is_empty c.pending) || not (is_empty c.block.transactions))) [
          | inl used ↦ rw (first, used) refl
          | inr fresh ↦ rw (first, fresh) (refl, h)
        ]
  ]

  pushed-Uniform :
      (act : NativeAction) (pending : List NativeAction)
      → act.name ≢ configchange_n
      → back_differs act.name pending ≡ false
      → Uniform configchange_n pending
      → Uniform configchange_n (act ∷ pending)
  pushed-Uniform act [] ne same h = (ne, tt)
  pushed-Uniform act (last ∷ older) ne same h =
      let agree : last.name ≡ act.name = ==→eq _ _ (not-false (last.name == act.name) same) in
      (ne, (agree, All-map older (λ b e. e ∙ agree) h.1))
    where
      not-false : (b : Bool) → not b ≡ false → b ≡ true
      not-false true e = refl
      not-false false e = cc

  take_transaction-Takes :
      (act : NativeAction) (c : Building)
      → act.name ≢ configchange_n
      → Uniform configchange_n c.pending
      → Takes c (take_transaction core_account pushtx_n evmtx_n configchange_n act c)
  unfolding take_transaction
  take_transaction-Takes act c ne h =
      elim (Bool-cases (has_value c.block.new_config && act.name == pushtx_n)) [
        | inl configured ↦ rw configured refl
        | inr plain ↦ elim (Bool-cases (back_differs act.name c.pending)) [
          | inl differs ↦ rw (plain, differs) refl
          | inr same ↦ rw (plain, same) (refl, pushed-Uniform act c.pending ne same h)
        ]
      ]

  take_action-Takes :
      (act : NativeAction) (c : Building)
      → Uniform configchange_n c.pending
      → Takes c (take_action core_account pushtx_n evmtx_n configchange_n act c)
  unfolding take_action
  take_action-Takes act c h = elim (Bool-cases (act.name == configchange_n)) [
    | inl config ↦ rw config (take_configchange-Takes act c h)
    | inr other ↦ rw other (take_transaction-Takes act c (==-false→ne _ _ other) h)
  ]

  -- Where the actions taken before have one name, other than that of a configuration, so have those
  -- taken when the loop over the ordered actions returns. Whether it returns or throws, the
  -- transactions that the block has already stay, and nothing is undefined.
  pub take_actions-Uniform :
      (ordered : TraceMap) (c : Building)
      → Uniform configchange_n c.pending
      → Ends
          (λ _ d. (d.block.transactions ≡ c.block.transactions) × Uniform configchange_n d.pending)
          (λ _ d. d.block.transactions ≡ c.block.transactions)
          ⊥
          (take_actions core_account pushtx_n evmtx_n configchange_n ordered c)
  unfolding take_actions
  take_actions-Uniform [] c h = (refl, h)
  take_actions-Uniform ((sequence, act) ∷ rest) c h =
      >>=-Ends
        (λ _ d. (d.block.transactions ≡ c.block.transactions) × Uniform configchange_n d.pending)
        (λ _ d. (d.block.transactions ≡ c.block.transactions) × Uniform configchange_n d.pending)
        (λ _ d. d.block.transactions ≡ c.block.transactions) ⊥
        (λ _. take_actions core_account pushtx_n evmtx_n configchange_n rest)
        (take_action core_account pushtx_n evmtx_n configchange_n (native_action_of act)) c
        (take_action-Takes (native_action_of act) c h)
        λ _ d k.
          Ends-mono
            (λ _ e.
              (e.block.transactions ≡ d.block.transactions) × Uniform configchange_n e.pending)
            (λ _ e.
              (e.block.transactions ≡ c.block.transactions) × Uniform configchange_n e.pending)
            (λ _ e. e.block.transactions ≡ d.block.transactions)
            (λ _ e. e.block.transactions ≡ c.block.transactions) ⊥ _
            (take_actions-Uniform rest d k.1) (λ _ e q. (q.0 ∙ k.0, q.1)) (λ _ e q. q ∙ k.0)
