-- ===== src/Blockchain/Shutdown.antt =====
-- Stopping the plugin of src/blockchain_plugin.cpp after the blocks it has received.
use eos_evm_node.Base.{
  ℕ, ◌≡◌, refl, sym, ap, subst, ◌∙◌, inl, inr, ◌⊎◌, Bool, true, false, List, [], ◌∷◌, Option-cases,
  Option, none, some, if◌then◌else◌,
}
use eos_evm_node.Base.Action.{
  Action, Outcome, ok, throw, undefined, Ends, >>=-Ends, Ends-mono, >>=-Leads, modify, ◌>>◌, ◌>>=◌,
}
use eos_evm_node.Evm.{EvmBlock}
use eos_evm_node.External.{External}
use eos_evm_node.Blockchain.{
  Blockchain, Call, EngineError, mdbx_exception, std_exception, unknown_exception, make_engine,
  open_engine, insert_block, stop_engine, close_engine, answered, ask, ensure_open, verify_if_due,
  process_block, caught, on_evm_block, shutdown,
}
use eos_evm_node.Blockchain.Keeps.{ask-Keeps, insert-Keeps}

module _ {Tx : Type 0} (ext : External Tx)
    (fails : List (Call Tx) → Call Tx → Option EngineError) where
  -- Among the calls, newest first, the constructor of the engine has returned.
  abbrev pub Made : List (Call Tx) → Type 0
  Made [] = ⊥
  Made (call ∷ before) = ((call ≡ make_engine) × (fails before call ≡ none)) ⊎ Made before

  abbrev Running : Blockchain Tx → Type 0
  Running c = (c.engine_open ≡ true) × Made c.calls

  abbrev Without : Blockchain Tx → Type 0
  Without c = (c.engine_open ≡ false) × (¬ Made c.calls)

  abbrev after_making : Action (Blockchain Tx) EngineError (Unit {0})
  after_making = modify (λ d. record d { engine_open = true }) >> ask ext fails open_engine

  ensure_open-eq :
      (c : Blockchain Tx) {b : Bool}
      → c.engine_open ≡ b
      → ensure_open ext fails c
        ≡ (if b then (ok tt, c) else (ask ext fails make_engine >> after_making) c)
  unfolding ensure_open
  ensure_open-eq c e =
      ap (λ x. if x then (ok tt, c) else (ask ext fails make_engine >> after_making) c) e

  ask-eq :
      (call : Call Tx) (c : Blockchain Tx) {o : Option EngineError}
      → fails c.calls call ≡ o
      → ask ext fails call c ≡ answered ext fails o (record c { calls = call ∷ c.calls })
  unfolding ask
  ask-eq call c e = ap (λ o. answered ext fails o (record c { calls = call ∷ c.calls })) e

  -- The engine is there afterwards, or its constructor has thrown.
  ensure_open-cases :
      (c : Blockchain Tx)
      → Running c ⊎ Without c
      → Running (ensure_open ext fails c).1
        ⊎ ((e : EngineError) × (d : Blockchain Tx) × (ensure_open ext fails c ≡ (throw e, d))
            × Without d)
  unfolding answered
  ensure_open-cases c (inl p) = inl (subst (λ r. Running r.1) (sym (ensure_open-eq c p.0)) p)
  ensure_open-cases c (inr (closed, never)) = made (fails c.calls make_engine) refl
    where
      first : Blockchain Tx
      first = record c { calls = make_engine ∷ c.calls }

      run :
          {o : Option EngineError}
          → fails c.calls make_engine ≡ o
          → ensure_open ext fails c ≡ ((λ _. answered ext fails o first) >>= λ _. after_making) c
      run e =
          ensure_open-eq c closed
          ∙ ap (λ r. ((λ _. r) >>= λ _. after_making) c) (ask-eq make_engine c e)

      threw : (e : EngineError) → fails c.calls make_engine ≡ some e → ¬ Made first.calls
      threw e bad (inl (same, fine)) = cc (sym bad ∙ fine)
      threw e bad (inr before) = never before

      made :
          (o : Option EngineError)
          → fails c.calls make_engine ≡ o
          → Running (ensure_open ext fails c).1
            ⊎ ((e : EngineError) × (d : Blockchain Tx) × (ensure_open ext fails c ≡ (throw e, d))
                × Without d)
      made none fine = inl (
          subst (λ r. Running r.1) (sym (run fine))
            (ask-Keeps ext fails Running (λ _ _ p. (p.0, inr p.1)) (λ _ _ p. p) open_engine
              (record first { engine_open = true }) (refl, inl (refl, fine))))
      made (some e) bad = inr (e, first, run bad, (closed, threw e bad))

  -- The engine is there, or there is none and the application was asked to quit.
  abbrev Known : Blockchain Tx → Type 0
  Known d = Running d ⊎ (Without d × (d.quits ≡ true))

  on_evm_block-Known :
      (evm_lib : ℕ) (block : EvmBlock Tx) (c : Blockchain Tx)
      → Running c ⊎ Without c
      → Known (on_evm_block ext fails evm_lib block c)
  unfolding on_evm_block process_block
  on_evm_block-Known evm_lib block c h = elim (ensure_open-cases c h) [
    | inl runs ↦ inl (
        after (process_block ext fails evm_lib block c) (
          >>=-Leads (λ _. Unit {0}) Running Running (λ _ q. q) (λ _. insertion)
            (λ _.
              insert-Keeps ext fails Running (λ _ _ p. (p.0, inr p.1)) (λ _ _ p. p) evm_lib block)
            (λ _. ensure_open ext fails c) (λ _ _. runs) c tt))
    | inr (e, d, stopped, none_made) ↦ inr (
        subst (λ r. Without (caught ext fails r.0 r.1) × ((caught ext fails r.0 r.1).quits ≡ true))
          (sym (ap (λ r. ((λ _. r) >>= λ _. insertion) c) stopped)) (refused e d none_made))
  ]
    where
      insertion : Action (Blockchain Tx) EngineError (Unit {0})
      insertion = ask ext fails (insert_block block) >> verify_if_due ext fails evm_lib block

      refused :
          (e : EngineError) (d : Blockchain Tx)
          → Without d
          → Without (caught ext fails (throw e) d) × ((caught ext fails (throw e) d).quits ≡ true)
      refused mdbx_exception d w = (w, refl)
      refused std_exception d w = (w, refl)
      refused unknown_exception d w = (w, refl)

      after :
          (r : Outcome EngineError (Unit {0}) × Blockchain Tx)
          → Running r.1
          → Running (caught ext fails r.0 r.1)
      after (ok done, d) q = q
      after (throw mdbx_exception, d) q = q
      after (throw std_exception, d) q = q
      after (throw unknown_exception, d) q = q
      after (undefined, d) q = q

  -- The blocks that the subscriber received, each with the LIB at that time, oldest first.
  abbrev pub received : List (ℕ × EvmBlock Tx) → Blockchain Tx → Blockchain Tx
  received [] c = c
  received ((evm_lib, block) ∷ later) c = received later (on_evm_block ext fails evm_lib block c)

  received-Known :
      (blocks : List (ℕ × EvmBlock Tx)) (c : Blockchain Tx) → Known c → Known (received blocks c)
  received-Known [] c h = h
  received-Known ((evm_lib, block) ∷ later) c h =
      received-Known later (on_evm_block ext fails evm_lib block c)
        (on_evm_block-Known evm_lib block c (elim h [ inl runs ↦ inl runs | inr w ↦ inr w.0 ]))

  -- The engine was stopped and closed, as far as it did not throw.
  abbrev pub Stops : Blockchain Tx → Outcome EngineError (Unit {0}) × Blockchain Tx → Type 0
  Stops c =
      Ends (λ _ d. d.calls ≡ close_engine ∷ stop_engine ∷ c.calls)
        (λ _ d.
          (d.calls ≡ stop_engine ∷ c.calls) ⊎ (d.calls ≡ close_engine ∷ stop_engine ∷ c.calls))
        ⊥

  ask-calls :
      (call : Call Tx) (c : Blockchain Tx)
      → Ends
          (λ _ d. d.calls ≡ call ∷ c.calls)
          (λ _ d. d.calls ≡ call ∷ c.calls)
          ⊥
          (ask ext fails call c)
  unfolding ask answered
  ask-calls call c = elim (Option-cases (fails c.calls call)) [
    | inl fine ↦ rw (fine, answered) refl
    | inr (e, bad) ↦ rw (bad, answered) refl
  ]

  shutdown-Stops : (c : Blockchain Tx) → c.engine_open ≡ true → Stops c (shutdown ext fails c)
  unfolding shutdown
  shutdown-Stops c q = either c.engine_open q
    where
      Both : Unit {0} → Blockchain Tx → Type 0
      Both _ d = d.calls ≡ close_engine ∷ stop_engine ∷ c.calls

      One : EngineError → Blockchain Tx → Type 0
      One _ d = (d.calls ≡ stop_engine ∷ c.calls) ⊎ (d.calls ≡ close_engine ∷ stop_engine ∷ c.calls)

      either :
          (b : Bool)
          → b ≡ true
          → Stops c (
              if b
              then (ask ext fails stop_engine >> ask ext fails close_engine) c
              else (undefined, c))
      either false e = cc
      either true e =
          >>=-Ends (λ _ d. d.calls ≡ stop_engine ∷ c.calls) Both One ⊥
            (λ _. ask ext fails close_engine) (ask ext fails stop_engine) c
            (Ends-mono (λ _ d. d.calls ≡ stop_engine ∷ c.calls)
              (λ _ d. d.calls ≡ stop_engine ∷ c.calls) (λ _ d. d.calls ≡ stop_engine ∷ c.calls) One
              ⊥ _ (ask-calls stop_engine c) (λ _ _ h. h) (λ _ _ h. inl h))
            λ _ d h.
              Ends-mono (λ _ x. x.calls ≡ close_engine ∷ d.calls) Both
                (λ _ x. x.calls ≡ close_engine ∷ d.calls) One ⊥ _ (ask-calls close_engine d)
                (λ _ _ k. k ∙ ap (λ l. close_engine ∷ l) h)
                (λ _ _ k. inr (k ∙ ap (λ l. close_engine ∷ l) h))

  -- From a plugin that has called nothing yet, a shutdown after some blocks is undefined exactly if no
  -- constructor of an engine has returned; then no block came, or the application was asked to quit.
  -- Where one has returned, whatever the engine threw at the blocks, the shutdown stops the engine and
  -- closes it, unless one of these calls throws.
  pub shutdown-received :
      (blocks : List (ℕ × EvmBlock Tx)) (c : Blockchain Tx)
      → c.engine_open ≡ false
      → c.calls ≡ []
      → let d = received blocks c in
        (Made d.calls × Stops d (shutdown ext fails d))
        ⊎ ((¬ Made d.calls)
            × ((shutdown ext fails d).0 ≡ undefined)
            × ((blocks ≡ []) ⊎ (d.quits ≡ true)))
  unfolding shutdown
  shutdown-received blocks c closed none_yet = ends blocks refl
    where
      never : ¬ Made c.calls
      never = rw none_yet (λ made. made)

      unmade : (d : Blockchain Tx) → d.engine_open ≡ false → (shutdown ext fails d).0 ≡ undefined
      unmade d e = rw e refl

      ends :
          (l : List (ℕ × EvmBlock Tx))
          → blocks ≡ l
          → let d = received l c in
            (Made d.calls × Stops d (shutdown ext fails d))
            ⊎ ((¬ Made d.calls)
                × ((shutdown ext fails d).0 ≡ undefined)
                × ((l ≡ []) ⊎ (d.quits ≡ true)))
      ends [] e = inr (never, unmade c closed, inl refl)
      ends ((evm_lib, block) ∷ later) e =
          elim (received-Known later (on_evm_block ext fails evm_lib block c)
            (on_evm_block-Known evm_lib block c (inr (closed, never)))) [
              | inl (open_now, made) ↦ inl (made, shutdown-Stops _ open_now)
              | inr ((shut, none_made), quits) ↦ inr (none_made, unmade _ shut, inr quits)
            ]
