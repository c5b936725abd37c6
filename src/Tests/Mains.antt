-- ===== src/Tests/Mains.antt =====
-- The programs of src/eos-evm-node.cpp and src/eos-evm-rpc.cpp at concrete answers, and the plugins of
-- the second one with concrete options.
use eos_evm_node.Base.{◌≡◌, refl, true, false, List, [], ◌∷◌, some}
use eos_evm_node.Programs.{
  AppCall, Answer, returned, runtime_error, minus_one, zero_status, initialize, startup, node_main,
  rpc_main,
}
use eos_evm_node.Programs.Trace.{Lived, node_plugins, rpc_plugins, mains-Lived}
use eos_evm_node.Base.Action.{undefined}
use eos_evm_node.Rpc as Rpc
use eos_evm_node.Rpc.{
  SysOptions, LogSettings, log_settings_of, RpcOptions, RpcCall, shutdown, call_all,
}
use eos_evm_node.Rpc.Life.{unset, idle, nexts, plugin_in, Follows, call_all-Follows}

-- The start of the plugins throws.
abbrev failing : List AppCall → AppCall → Answer
failing made startup = runtime_error
failing made _ = returned true

-- The options are wrong, so `initialize` answers false.
abbrev refusing : List AppCall → AppCall → Answer
refusing made (initialize plugins) = returned false
refusing made _ = returned true

node_main_fails : (node_main failing).0 ≡ zero_status
unfolding node_main
node_main_fails = refl

rpc_main_refuses : (rpc_main refusing).0 ≡ minus_one
unfolding rpc_main
rpc_main_refuses = refl

mains-Lived_example :
    Lived failing node_plugins (node_main failing) × Lived failing rpc_plugins (rpc_main failing)
mains-Lived_example = mains-Lived failing

-- The options are those of the command line's defaults.
abbrev sys : LogSettings
unfolding log_settings_of
sys = log_settings_of (record { verbosity = 0; stdout = false; nocolor = false; log_file = "" })

abbrev options : RpcOptions
options = record {
  http_port = "127.0.0.1:8545";
  eos_evm_node = "127.0.0.1:9090";
  rpc_threads = 16;
  chaindata = "./";
  rpc_max_readers = 32000;
  api_spec = "eth";
  chain_id = 25555;
  rpc_quirk_flag = 0;
}

abbrev life : List RpcCall
life = Rpc.initialize options ∷ Rpc.startup ∷ shutdown ∷ []

one_daemon : nexts life (some (unset, [])) ≡ some (idle options, options ∷ [])
one_daemon = refl

not_initialized : (call_all sys sys (Rpc.startup ∷ []) (plugin_in sys sys unset [])).0 ≡ undefined
unfolding call_all
not_initialized = refl

call_all-Follows_example :
    Follows sys sys
      (call_all sys sys life (plugin_in sys sys unset []))
      (nexts life (some (unset, [])))
call_all-Follows_example = call_all-Follows sys sys life unset []
