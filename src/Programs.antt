-- ===== src/Programs.antt =====
-- The two programs, src/eos-evm-node.cpp and src/eos-evm-rpc.cpp: the calls of `main` and its exit
-- status. The application framework is what it answers a call, given the calls before.
pub mod Trace
use eos_evm_node.Base.{
  ◌≡◌, refl, sym, ap, subst, Bool-cases, if◌then◌else◌, ◌⊎◌, inl, inr, Bool, true, false, List, [],
  ◌∷◌, ◌++◌,
}

pub data PluginName : Type 0 where
  blockchain_plugin engine_plugin ship_receiver_plugin sys_plugin block_conversion_plugin
        rpc_plugin :
      PluginName

-- What `main` calls of appbase.
pub data AppCall : Type 0 where
  set_version_string set_full_version_string : AppCall
  register_plugin : PluginName → AppCall
  initialize : List PluginName → AppCall
  startup set_thread_priority_max exec : AppCall

-- The call returns, with the value of `initialize` where it has one, or throws.
pub data Answer : Type 0 where
  returned : Bool → Answer
  runtime_error std_exception other_exception : Answer

-- `main` returns -1 or 0, or an exception that no clause catches ends the program.
pub data Exit : Type 0 where
  minus_one zero_status terminated : Exit

-- Whether `main` leaves by `return -1`, given the value.
unfoldable pub refuses : AppCall → Bool → Bool
refuses (initialize plugins) true = false
refuses (initialize plugins) false = true
refuses _ value = false

-- How a call ends the program: by `return -1`, by a catch clause, which logs and falls through to the
-- end of `main`, or by an exception that no clause catches.
unfoldable pub after_call :
    AppCall → List AppCall → Exit × List AppCall → Answer → Exit × List AppCall
unfolding refuses
after_call call made rest (returned value) = if refuses call value then (minus_one, made) else rest
after_call call made rest runtime_error = (zero_status, made)
after_call call made rest std_exception = (zero_status, made)
after_call call made rest other_exception = (terminated, made)

-- The calls of src/eos-evm-node.cpp and of src/eos-evm-rpc.cpp, in their order.
abbrev pub node_calls : List AppCall
node_calls =
    set_version_string
    ∷ set_full_version_string
    ∷ register_plugin blockchain_plugin
    ∷ register_plugin engine_plugin
    ∷ register_plugin ship_receiver_plugin
    ∷ register_plugin sys_plugin
    ∷ register_plugin block_conversion_plugin
    ∷ initialize (sys_plugin ∷ [])
    ∷ startup
    ∷ set_thread_priority_max
    ∷ exec
    ∷ []

abbrev pub rpc_calls : List AppCall
rpc_calls =
    set_version_string
    ∷ set_full_version_string
    ∷ register_plugin sys_plugin
    ∷ register_plugin rpc_plugin
    ∷ initialize (sys_plugin ∷ rpc_plugin ∷ [])
    ∷ startup
    ∷ set_thread_priority_max
    ∷ exec
    ∷ []

module _ (answers : List AppCall → AppCall → Answer) where
  -- The body of the `try`, from a call on; `made` holds the calls made, newest first.
  unfoldable pub run_calls : List AppCall → List AppCall → Exit × List AppCall
  unfolding after_call
  run_calls [] made = (zero_status, made)
  run_calls (call ∷ calls) made =
      let rest = run_calls calls (call ∷ made) in
      after_call call (call ∷ made) rest (answers made call)

  unfoldable pub node_main : Exit × List AppCall
  unfolding run_calls
  node_main = run_calls node_calls []

  unfoldable pub rpc_main : Exit × List AppCall
  unfolding run_calls
  rpc_main = run_calls rpc_calls []
