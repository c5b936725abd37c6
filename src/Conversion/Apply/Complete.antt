-- ===== src/Conversion/Apply/Complete.antt =====
-- Which actions the visitor in src/block_conversion_plugin.cpp takes into a block with transactions.
use eos_evm_node.Base.{
  ℕ, ◌≡◌, ◌↔◌, sym, ap, subst, ◌∙◌, inl, inr, false, List, [], ◌∷◌, some, arith, All, All-map,
  is_empty,
}
use eos_evm_node.Base.Action.{
  Outcome, ok, throw, undefined, Ends, Ends-mono, Ends-map, >>=-Ends, or_raise, ◌>>=◌, ◌>>◌, modify,
}
use eos_evm_node.Channels.{NativeAction}
use eos_evm_node.Evm.{EvmBlock, EvmtxType, evmtx_v1, evmtx_v3, version_of, rlpx_of}
use eos_evm_node.External.{External}
use eos_evm_node.Conversion.State.{Error, unable_to_decode, deserialize_tx}
use eos_evm_node.Conversion.Content.{Pushed}
use eos_evm_node.Conversion.Apply.{
  Current, check_version, set_block_prices, same_prices, apply_v3, apply_prices_of, apply_prices,
  set_block_fee, apply_base_fee_of, apply_base_fee, append_tx, decode_and_append, add_parsed,
  add_action, add_actions, add_transactions,
}
use eos_evm_node.Conversion.Apply.Settled.{
  SameTerms, SameTerms-refl, SameTerms-trans, HasFees, FeesAgree,
}
use eos_evm_node.Conversion.Apply.Adds.{Fits}
use eos_evm_node.Conversion.State.{FromInput}
use eos_evm_node.Conversion.Apply.Frame.{SamePlace, add_transactions-Pushed}
use eos_evm_node.Conversion.Apply.Uniform.{Bears, Agreed, Left, at_version, add_transactions-Agreed}

module _ {Tx : Type 0} (ext : External Tx) where
  -- The call returns, with the terms of the block and its transactions as before.
  abbrev Passes : Current Tx → Outcome Error (Unit {0}) × Current Tx → Type 0
  Passes c = Ends (λ _ d. SameTerms c d × (d.transactions ≡ c.transactions)) (λ _ _. ⊥) ⊥

  check_version-Passes :
      (v : ℕ) (c : Current Tx) → c.block_version ≡ v → Passes c (check_version ext v c)
  unfolding check_version
  check_version-Passes v c e = ground arith

  apply_prices-Passes :
      (dtx : EvmtxType) (c : Current Tx) → FeesAgree ext c dtx → Passes c (apply_prices ext dtx c)
  unfolding apply_prices apply_prices_of apply_v3 set_block_prices same_prices
  apply_prices-Passes (evmtx_v1 tx) c h = ground arith
  apply_prices-Passes (evmtx_v3 tx) c h = ground arith

  apply_base_fee-Passes :
      (dtx : EvmtxType) (c : Current Tx) → FeesAgree ext c dtx → Passes c (apply_base_fee ext dtx c)
  unfolding apply_base_fee apply_base_fee_of set_block_fee
  apply_base_fee-Passes (evmtx_v1 tx) c h = ground arith
  apply_base_fee-Passes (evmtx_v3 tx) c h = ground arith

  Fits-SameTerms :
      (dtx : EvmtxType) (c d : Current Tx) → SameTerms c d → Fits ext c dtx → Fits ext d dtx
  Fits-SameTerms (evmtx_v1 tx) c d t (v, h) = (t.same_version ∙ v, ground arith)
  Fits-SameTerms (evmtx_v3 tx) c d t (v, h) = (t.same_version ∙ v, ground arith)

  -- The action carries a transaction that has the version and the fees of the block, and that decodes.
  abbrev pub Accepted : Current Tx → NativeAction → Type 0
  Accepted c act =
      (dtx : EvmtxType) × (deserialize_tx ext act ≡ ok dtx)
      × Fits ext c dtx
      × (tx : Tx) × (ext.decode_tx (rlpx_of dtx) ≡ some tx)

  SameTerms-append : (tx : Tx) (c d : Current Tx) → SameTerms c d → SameTerms c (append_tx ext tx d)
  unfolding append_tx
  SameTerms-append tx c d t = record {
    same_version = t.same_version;
    same_nonce = t.same_nonce;
    same_gas_prices = t.same_gas_prices;
    same_base_fee = t.same_base_fee;
  }

  -- The call returns with the terms of the block as before.
  abbrev Goes : Current Tx → Outcome Error (Unit {0}) × Current Tx → Type 0
  Goes c = Ends (λ _ d. SameTerms c d) (λ _ _. ⊥) ⊥

  add_parsed-Goes :
      (dtx : EvmtxType) (c : Current Tx) (tx : Tx)
      → Fits ext c dtx
      → ext.decode_tx (rlpx_of dtx) ≡ some tx
      → Goes c (add_parsed ext dtx c)
  unfolding add_parsed decode_and_append
  add_parsed-Goes dtx c tx fits good =
      >>=-Ends (λ _ d. SameTerms c d) (λ _ d. SameTerms c d) (λ _ _. ⊥) ⊥
        (λ _. apply_prices ext dtx >> decode_and_append ext dtx)
        (check_version ext (version_of dtx)) c
        (Ends-mono _ (λ _ d. SameTerms c d) (λ _ _. ⊥) (λ _ _. ⊥) ⊥ _
          (check_version-Passes (version_of dtx) c fits.0) (λ _ _ h. h.0) (λ _ _ h. h))
        λ _ d s.
          >>=-Ends (λ _ e. SameTerms c e) (λ _ e. SameTerms c e) (λ _ _. ⊥) ⊥
            (λ _. decode_and_append ext dtx) (apply_prices ext dtx) d
            (Ends-mono _ (λ _ e. SameTerms c e) (λ _ _. ⊥) (λ _ _. ⊥) ⊥ _
              (apply_prices-Passes dtx d (Fits-SameTerms dtx c d s fits).1)
              (λ _ e h. SameTerms-trans ext c d e s h.0) (λ _ _ h. h))
            λ _ e s'. last e s'
    where
      last : (e : Current Tx) → SameTerms c e → Goes c (decode_and_append ext dtx e)
      last e s =
          subst
            (λ o. Goes c (
              (or_raise o unable_to_decode >>= λ t.
              apply_base_fee ext dtx >> modify (append_tx ext t))
                e))
            (sym good)
            (>>=-Ends (λ _ f. SameTerms c f) (λ _ f. SameTerms c f) (λ _ _. ⊥) ⊥
              (λ _. modify (append_tx ext tx)) (apply_base_fee ext dtx) e
              (Ends-mono _ (λ _ f. SameTerms c f) (λ _ _. ⊥) (λ _ _. ⊥) ⊥ _
                (apply_base_fee-Passes dtx e (Fits-SameTerms dtx c e s fits).1)
                (λ _ f h. SameTerms-trans ext c e f s h.0) (λ _ _ h. h))
              λ _ f s'. SameTerms-append tx c f s')

  add_action-Goes :
      (act : NativeAction) (c : Current Tx) → Accepted c act → Goes c (add_action ext act c)
  unfolding add_action
  add_action-Goes act c (dtx, e, fits, tx, good) = rw e (add_parsed-Goes dtx c tx fits good)

  add_actions-Goes :
      (acts : List NativeAction) (c : Current Tx)
      → All (Accepted c) acts
      → Goes c (add_actions ext acts c)
  unfolding add_actions
  add_actions-Goes [] c h = SameTerms-refl ext c
  add_actions-Goes (act ∷ acts) c h =
      >>=-Ends (λ _ d. SameTerms c d) (λ _ d. SameTerms c d) (λ _ _. ⊥) ⊥
        (λ _. add_actions ext acts) (add_action ext act) c (add_action-Goes act c h.0)
        λ _ d s.
          Ends-mono (λ _ e. SameTerms d e) (λ _ e. SameTerms c e) (λ _ _. ⊥) (λ _ _. ⊥) ⊥ _
            (add_actions-Goes acts d (
              All-map acts
                (λ a (dtx, e, fits, tx, good). (dtx, e, Fits-SameTerms dtx c d s fits, tx, good))
                h.1))
            (λ _ e k. SameTerms-trans ext c d e s k) (λ _ _ k. k)

  SameTerms-sym : (c d : Current Tx) → SameTerms c d → SameTerms d c
  SameTerms-sym c d t = record {
    same_version = sym t.same_version;
    same_nonce = sym t.same_nonce;
    same_gas_prices = sym t.same_gas_prices;
    same_base_fee = sym t.same_base_fee;
  }

  deserialized_once :
      (act : NativeAction) (x y : EvmtxType)
      → deserialize_tx ext act ≡ ok x
      → deserialize_tx ext act ≡ ok y
      → x ≡ y
  deserialized_once act x y ex ey = ap from (sym ex ∙ ey)
    where
      from : Outcome Error EvmtxType → EvmtxType
      from (ok d) = d
      from (throw e) = x
      from undefined = x

  fitting_each :
      (acts : List NativeAction) (c d : Current Tx) (before after : List Tx)
      → SameTerms c d
      → All (Bears ext d) acts
      → Pushed ext acts before after
      → All (Accepted c) acts
  fitting_each [] c d before after t h p = tt
  fitting_each (act ∷ acts) c d before after t ((dtx, e, fits), h) (tx, (dtx', e', good), p) = (
    (
      dtx,
      e,
      Fits-SameTerms dtx d c (SameTerms-sym c d t) fits,
      tx,
      subst (λ x. ext.decode_tx (rlpx_of x) ≡ some tx) (deserialized_once act dtx' dtx e' e) good,
    ),
    fitting_each acts c d (tx ∷ before) after t h p,
  )

  abbrev pub Returns : Outcome Error (Unit {0}) × EvmBlock Tx → Type 0
  Returns = Ends (λ _ _. Unit) (λ _ _. ⊥) ⊥

  fitting_enough :
      (version : ℕ) (acts : List NativeAction) (b : EvmBlock Tx)
      → All (Accepted (at_version ext version b)) acts
      → Returns (add_transactions ext version acts b)
  unfolding add_transactions
  fitting_enough version acts b h =
      Ends-map (λ (c : Current Tx). c.block) (λ _ _. Unit) (λ _ _. ⊥) ⊥ _
        (Ends-mono _ (λ _ _. Unit) (λ _ _. ⊥) (λ _ _. ⊥) ⊥ _
          (add_actions-Goes acts (at_version ext version b) h) (λ _ _ k. tt) (λ _ _ k. k))

  -- On an EVM block that has transactions and the fees that its version calls for, adding a native
  -- block's actions returns exactly if each action carries a transaction that decodes and has the
  -- version of the block and its base fee or its prices.
  pub add_transactions-Returns :
      (version : ℕ) (acts : List NativeAction) (b : EvmBlock Tx)
      → is_empty b.transactions ≡ false
      → HasFees ext (at_version ext version b)
      → Returns (add_transactions ext version acts b)
        ↔ All (Accepted (at_version ext version b)) acts
  add_transactions-Returns version acts b filled fees = (
    λ r.
        accepted (add_transactions ext version acts b) r
          (add_transactions-Agreed ext version acts b (inr fees))
          (add_transactions-Pushed ext version acts b),
    fitting_enough version acts b,
  )
    where
      accepted :
          (r : Outcome Error (Unit {0}) × EvmBlock Tx)
          → Returns r
          → Ends
              (λ _ b'. (v : ℕ) × Agreed ext acts (at_version ext version b) (at_version ext v b'))
              (λ _ b'. (v : ℕ) × Left ext (at_version ext version b) (at_version ext v b'))
              ⊥
              r
          → Ends
              (λ _ b'. SamePlace b b' × Pushed ext acts b.transactions b'.transactions)
              (λ e b'. FromInput e × SamePlace b b')
              ⊥
              r
          → All (Accepted (at_version ext version b)) acts
      accepted (throw e, b') r a p = absurd r
      accepted (undefined, b') r a p = absurd r
      accepted (ok done, b') r (v, agreed) (place, pushed) = elim agreed.keeps [
        | inl empty ↦ absurd (cc (sym filled ∙ empty))
        | inr t ↦
            fitting_each acts (at_version ext version b) (at_version ext v b') b.transactions
              b'.transactions t agreed.all_fit pushed
      ]
