-- ===== src/Programs/Trace.antt =====
-- The calls that the programs of src/eos-evm-node.cpp and src/eos-evm-rpc.cpp make of appbase, and how
-- they end, against the life of an application.
use eos_evm_node.Base.{
  ◌≡◌, refl, sym, subst, ◌⊎◌, inl, inr, Bool, Bool-cases, true, false, All, List, [], ◌∷◌,
}
use eos_evm_node.Programs.{
  PluginName, blockchain_plugin, engine_plugin, ship_receiver_plugin, sys_plugin,
  block_conversion_plugin, rpc_plugin, AppCall, register_plugin, initialize, startup, exec, Answer,
  returned, runtime_error, std_exception, other_exception, Exit, minus_one, zero_status, terminated,
  refuses, after_call, node_calls, rpc_calls, run_calls, node_main, rpc_main,
}

-- The call returns, and `initialize` with true.
abbrev pub GoesOn : AppCall → Answer → Type 0
GoesOn (initialize plugins) (returned true) = Unit
GoesOn (initialize plugins) (returned false) = ⊥
GoesOn (initialize plugins) runtime_error = ⊥
GoesOn (initialize plugins) std_exception = ⊥
GoesOn (initialize plugins) other_exception = ⊥
GoesOn call (returned value) = Unit
GoesOn call answer = ⊥

-- The call is `initialize`, and it has answered true.
abbrev Confirms : AppCall → Answer → Type 0
Confirms (initialize plugins) (returned true) = Unit
Confirms call answer = ⊥

-- With which status a program may end after its last call: -1 only for an `initialize` that has
-- answered false, 0 after the event loop has ended or for an exception that is caught.
abbrev pub EndsAs : Exit → AppCall → Answer → Type 0
EndsAs minus_one (initialize plugins) (returned false) = Unit
EndsAs zero_status exec (returned value) = Unit
EndsAs zero_status call runtime_error = Unit
EndsAs zero_status call std_exception = Unit
EndsAs terminated call other_exception = Unit
EndsAs status call answer = ⊥

-- The calls made come newest first.
abbrev pub Registered : List AppCall → PluginName → Type 0
Registered [] plugin = ⊥
Registered (call ∷ before) plugin = (call ≡ register_plugin plugin) ⊎ Registered before plugin

abbrev pub Started : List AppCall → Type 0
Started [] = ⊥
Started (call ∷ before) = (call ≡ startup) ⊎ Started before

-- `plugins` are those that the program is made of.
module _ (answers : List AppCall → AppCall → Answer) (plugins : List PluginName) where
  abbrev pub Initialized : List AppCall → Type 0
  Initialized [] = ⊥
  Initialized (call ∷ before) = Confirms call (answers before call) ⊎ Initialized before

  -- When an application may make a call: plugins are initialized once all are registered, started
  -- once they are initialized, and the event loop runs once they are started.
  abbrev pub Allowed : AppCall → List AppCall → Type 0
  Allowed (initialize initialized) before =
      All (Registered before) plugins × All (Registered before) initialized
  Allowed startup before = Initialized before
  Allowed exec before = Started before
  Allowed call before = Unit

  -- Each of the calls was allowed, and has returned without a refusal.
  abbrev pub Passed : List AppCall → Type 0
  Passed [] = Unit
  Passed (call ∷ before) = (GoesOn call (answers before call) × Allowed call before) × Passed before

  -- The last call was allowed too, and the program has ended as its answer asks for.
  abbrev pub Lived : Exit × List AppCall → Type 0
  Lived (status, []) = ⊥
  Lived (status, call ∷ before) =
      EndsAs status call (answers before call) × Allowed call before × Passed before

  -- The calls to come are allowed as far as those before go on, and the last one is `exec`.
  abbrev Plan : AppCall → List AppCall → List AppCall → Type 0
  Plan call [] made = Allowed call made × (call ≡ exec)
  Plan call (next ∷ calls) made =
      Allowed call made × (GoesOn call (answers made call) → Plan next calls (call ∷ made))

  -- What a call that has returned leads to, whose value was or was not refused.
  refused-Lived :
      (call : AppCall) (value : Bool) (made : List AppCall)
      → answers made call ≡ returned value
      → refuses call value ≡ true
      → Allowed call made
      → Passed made
      → Lived (minus_one, call ∷ made)
  unfolding refuses
  refused-Lived (initialize names) false made e r a p = rw e (tt, a, p)
  refused-Lived (initialize names) true made e r a p = cc
  refused-Lived call value made e r a p = cc

  goes_on :
      (call : AppCall) (value : Bool) → refuses call value ≡ false → GoesOn call (returned value)
  unfolding refuses
  goes_on (initialize names) true r = tt
  goes_on (initialize names) false r = cc
  goes_on call value r = tt

  caught_runtime : (call : AppCall) → EndsAs zero_status call runtime_error
  caught_runtime exec = tt
  caught_runtime call = tt

  caught_std : (call : AppCall) → EndsAs zero_status call std_exception
  caught_std exec = tt
  caught_std call = tt

  uncaught : (call : AppCall) → EndsAs terminated call other_exception
  uncaught exec = tt
  uncaught call = tt

  Allowed-Plan :
      (call : AppCall) (calls made : List AppCall) → Plan call calls made → Allowed call made
  Allowed-Plan call [] made plan = plan.0
  Allowed-Plan call (next ∷ calls) made plan = plan.0

  -- The event loop has returned.
  exec_ends : (a : Answer) → GoesOn exec a → EndsAs zero_status exec a
  exec_ends (returned value) g = tt
  exec_ends runtime_error g = tt
  exec_ends std_exception g = tt
  exec_ends other_exception g = g

  -- One call, and what comes of the rest where it goes on.
  after_call-Lived :
      (call : AppCall) (made : List AppCall) (rest : Exit × List AppCall)
      → Allowed call made
      → Passed made
      → (GoesOn call (answers made call) → Lived rest)
      → Lived (after_call call (call ∷ made) rest (answers made call))
  unfolding after_call
  after_call-Lived call made rest allowed p go = answered (answers made call) refl
    where
      answered : (a : Answer) → answers made call ≡ a → Lived (after_call call (call ∷ made) rest a)
      answered (returned value) e = elim (Bool-cases (refuses call value)) [
        | inl r ↦ rw r (refused-Lived call value made e r allowed p)
        | inr r ↦ rw r (go (subst (GoesOn call) (sym e) (goes_on call value r)))
      ]
      answered runtime_error e =
          (subst (EndsAs zero_status call) (sym e) (caught_runtime call), allowed, p)
      answered std_exception e =
          (subst (EndsAs zero_status call) (sym e) (caught_std call), allowed, p)
      answered other_exception e =
          (subst (EndsAs terminated call) (sym e) (uncaught call), allowed, p)

  -- Such calls end well, on top of calls that have passed.
  run_calls-Lived :
      (call : AppCall) (calls made : List AppCall)
      → Passed made
      → Plan call calls made
      → Lived (run_calls answers (call ∷ calls) made)
  unfolding run_calls
  run_calls-Lived call [] made p plan =
      after_call-Lived call made (zero_status, call ∷ made) plan.0 p
        (λ g. (
          subst (λ c. GoesOn c (answers made c) → EndsAs zero_status c (answers made c))
              (sym plan.1) (exec_ends (answers made exec)) g,
          plan.0,
          p,
        ))
  run_calls-Lived call (next ∷ calls) made p plan =
      after_call-Lived call made (run_calls answers (next ∷ calls) (call ∷ made)) plan.0 p
        (λ g. run_calls-Lived next calls (call ∷ made) ((g, plan.0), p) (plan.1 g))

  -- The same for a whole program.
  abbrev PlanOf : List AppCall → Type 0
  PlanOf [] = ⊥
  PlanOf (call ∷ calls) = Plan call calls []

  run_all-Lived : (calls : List AppCall) → PlanOf calls → Lived (run_calls answers calls [])
  run_all-Lived [] plan = absurd plan
  run_all-Lived (call ∷ calls) plan = run_calls-Lived call calls [] tt plan

-- The plugins of the two programs.
abbrev pub node_plugins : List PluginName
node_plugins =
    blockchain_plugin ∷ engine_plugin ∷ ship_receiver_plugin ∷ sys_plugin ∷ block_conversion_plugin
    ∷ []

abbrev pub rpc_plugins : List PluginName
rpc_plugins = sys_plugin ∷ rpc_plugin ∷ []

module _ (answers : List AppCall → AppCall → Answer) where
  confirmed :
      (names : List PluginName) (a : Answer)
      → GoesOn (initialize names) a
      → Confirms (initialize names) a
  confirmed names (returned true) g = tt
  confirmed names (returned false) g = g
  confirmed names runtime_error g = g
  confirmed names std_exception g = g
  confirmed names other_exception g = g

  node_main-Lived : Lived answers node_plugins (node_main answers)
  unfolding node_main
  node_main-Lived = run_all-Lived answers node_plugins node_calls (
    tt,
    λ _. (
      tt,
      λ _. (
        tt,
        λ _. (
          tt,
          λ _. (
            tt,
            λ _. (
              tt,
              λ _. (
                tt,
                λ _. (
                  (search (inl, inr), search (inl, inr)),
                  λ g. (
                    inl (confirmed (sys_plugin ∷ []) _ g),
                    λ _. (tt, λ _. (search (inl, inr), refl)),
                  ),
                ),
              ),
            ),
          ),
        ),
      ),
    ),
  )

  rpc_main-Lived : Lived answers rpc_plugins (rpc_main answers)
  unfolding rpc_main
  rpc_main-Lived = run_all-Lived answers rpc_plugins rpc_calls (
    tt,
    λ _. (
      tt,
      λ _. (
        tt,
        λ _. (
          tt,
          λ _. (
            (search (inl, inr), search (inl, inr)),
            λ g. (
              inl (confirmed (sys_plugin ∷ rpc_plugin ∷ []) _ g),
              λ _. (tt, λ _. (search (inl, inr), refl)),
            ),
          ),
        ),
      ),
    ),
  )

  -- Whatever appbase answers, each program ends after one of its calls, where all calls before it have
  -- returned and `initialize`, if it was among them, has answered true. Plugins are initialized only
  -- once all plugins of the program are registered, started only once `initialize` has answered true,
  -- and the event loop runs only after the start. The status is -1 exactly where the last call is an
  -- `initialize` that has answered false; it is 0 where the event loop has returned or the last call
  -- has thrown what a clause catches; an exception that no clause catches terminates the program.
  pub mains-Lived :
      Lived answers node_plugins (node_main answers) × Lived answers rpc_plugins (rpc_main answers)
  mains-Lived = (node_main-Lived, rpc_main-Lived)
