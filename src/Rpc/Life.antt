-- ===== src/Rpc/Life.antt =====
-- The calls of the plugin of src/rpc_plugin.cpp, against a machine of three phases.
use eos_evm_node.Base.{◌≡◌, refl, true, false, List, [], ◌∷◌, Option, none, some}
use eos_evm_node.Base.Action.{Outcome, ok, throw, undefined}
use eos_evm_node.Rpc.{
  LogSettings, RpcOptions, DaemonSettings, RpcImpl, RpcPlugin, RpcError, RpcCall, initialize,
  startup, shutdown, daemon_settings, reset_impl, plugin_initialize, start_daemon, plugin_startup,
  join_daemon, plugin_shutdown, call_plugin, call_all,
}

-- Not initialized; no daemon runs; one does.
pub data Phase : Type 0 where
  unset : Phase
  idle busy : RpcOptions → Phase

-- The phase after a call, and the options of the daemons run; none where the call must not come.
abbrev pub next : Phase → List RpcOptions → RpcCall → Option (Phase × List RpcOptions)
next unset runs (initialize options) = some (idle options, runs)
next unset runs _ = none
next (idle _) runs (initialize options) = some (idle options, runs)
next (idle options) runs startup = some (busy options, options ∷ runs)
next (idle options) runs shutdown = some (idle options, runs)
next (busy options) runs shutdown = some (idle options, runs)
next (busy _) runs _ = none

abbrev pub nexts :
    List RpcCall → Option (Phase × List RpcOptions) → Option (Phase × List RpcOptions)
nexts [] o = o
nexts (call ∷ calls) none = none
nexts (call ∷ calls) (some (phase, runs)) = nexts calls (next phase runs call)

module _ (defaults sys : LogSettings) where
  abbrev pub daemons_of : List RpcOptions → List DaemonSettings
  unfolding daemon_settings
  daemons_of [] = []
  daemons_of (options ∷ runs) = daemon_settings defaults sys options ∷ daemons_of runs

  abbrev pub impl_in : Phase → Option RpcImpl
  unfolding daemon_settings
  impl_in unset = none
  impl_in (idle options) =
      some (record { settings = daemon_settings defaults sys options; joinable = false })
  impl_in (busy options) =
      some (record { settings = daemon_settings defaults sys options; joinable = true })

  -- The plugin in a phase.
  abbrev pub plugin_in : Phase → List RpcOptions → RpcPlugin
  plugin_in phase runs = record { impl = impl_in phase; daemons = daemons_of runs }

  -- The calls return in the state of the machine, or they do not return and the machine has none.
  abbrev pub Follows :
      Outcome RpcError (Unit {0}) × RpcPlugin → Option (Phase × List RpcOptions) → Type 0
  Follows (ok _, p) (some (phase, runs)) = p ≡ plugin_in phase runs
  Follows (ok _, p) none = ⊥
  Follows (throw e, p) (some _) = ⊥
  Follows (undefined, p) (some _) = ⊥
  Follows _ none = Unit

  none_stays : (calls : List RpcCall) → nexts calls none ≡ none
  none_stays [] = refl
  none_stays (call ∷ calls) = refl

  -- In any phase, any sequence of calls of the plugin returns, in the state of the machine, exactly if
  -- the machine takes it: a start comes after an initialization and not while a daemon runs, and runs
  -- one daemon with the settings of the last initialization; otherwise the calls end in undefined
  -- behaviour or the program is terminated.
  pub call_all-Follows :
      (calls : List RpcCall) (phase : Phase) (runs : List RpcOptions)
      → Follows
          (call_all defaults sys calls (plugin_in phase runs))
          (nexts calls (some (phase, runs)))
  unfolding call_all call_plugin plugin_initialize plugin_startup plugin_shutdown reset_impl
      start_daemon join_daemon
  call_all-Follows [] phase runs = refl
  call_all-Follows (initialize options ∷ calls) unset runs =
      call_all-Follows calls (idle options) runs
  call_all-Follows (startup ∷ calls) unset runs = rw (none_stays calls) tt
  call_all-Follows (shutdown ∷ calls) unset runs = rw (none_stays calls) tt
  call_all-Follows (initialize options ∷ calls) (idle old) runs =
      call_all-Follows calls (idle options) runs
  call_all-Follows (startup ∷ calls) (idle options) runs =
      call_all-Follows calls (busy options) (options ∷ runs)
  call_all-Follows (shutdown ∷ calls) (idle options) runs =
      call_all-Follows calls (idle options) runs
  call_all-Follows (initialize options ∷ calls) (busy old) runs = rw (none_stays calls) tt
  call_all-Follows (startup ∷ calls) (busy options) runs = rw (none_stays calls) tt
  call_all-Follows (shutdown ∷ calls) (busy options) runs =
      call_all-Follows calls (idle options) runs
