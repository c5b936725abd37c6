-- ===== src/Rpc.antt =====
-- The RPC program's plugins: src/rpc_plugin.cpp, with the log settings of src/sys_plugin.cpp. The options
-- have default values, so each of them has a value.
pub mod Life
use Prim.Native.String.{String}
use eos_evm_node.Base.{
  ℕ, ◌≡◌, refl, Bool, true, false, List, [], ◌∷◌, Option, none, some, if◌then◌else◌,
}
use eos_evm_node.Base.Action.{Action, Outcome, ok, throw, undefined, pure, ◌>>◌}

pub record SysOptions : Type 0 where
  pub verbosity : ℕ
  pub stdout : Bool
  pub nocolor : Bool
  pub log_file : String

-- `silkworm::log::Settings`, as far as it is set.
pub record LogSettings : Type 0 where
  pub log_verbosity : ℕ
  pub log_std_out : Bool
  pub log_nocolor : Bool
  pub log_file : String

-- `sys_plugin::plugin_initialize`, on the settings that the plugin has.
unfoldable pub log_settings_of : SysOptions → LogSettings
log_settings_of options = record {
  log_verbosity = options.verbosity;
  log_std_out = options.stdout;
  log_nocolor = options.nocolor;
  log_file = options.log_file;
}

pub record RpcOptions : Type 0 where
  pub http_port : String
  pub eos_evm_node : String
  pub rpc_threads : ℕ
  pub chaindata : String
  pub rpc_max_readers : ℕ
  pub api_spec : String
  pub chain_id : ℕ
  pub rpc_quirk_flag : ℕ

-- `silkworm::rpc::DaemonSettings`, as far as it is set; the settings of the context pool are silkworm's.
pub record DaemonSettings : Type 0 where
  pub log_settings : LogSettings
  pub datadir : String
  pub eth_end_point : String
  pub engine_end_point : String
  pub eth_api_spec : String
  pub private_api_addr : String
  pub num_workers : ℕ
  pub skip_protocol_check : Bool
  pub rpc_quirk_flag : ℕ
  pub max_readers : ℕ

-- `my`: the settings, and whether the daemon's thread is joinable.
pub record RpcImpl : Type 0 where
  pub settings : DaemonSettings
  pub joinable : Bool

-- `impl` is none where `my` is null; `daemons` holds the settings of the daemons run, newest first.
pub record RpcPlugin : Type 0 where
  pub impl : Option RpcImpl
  pub daemons : List DaemonSettings

-- `std::terminate`, on a joinable thread that is assigned to or destroyed.
pub data RpcError : Type 0 where
  terminated : RpcError

-- `defaults` is what silkworm sets where the source sets nothing.
module _ (defaults : LogSettings) where
  -- The verbosity comes from `sys_plugin::get_verbosity`.
  unfoldable pub daemon_settings : LogSettings → RpcOptions → DaemonSettings
  daemon_settings sys options = record {
    log_settings = record defaults { log_verbosity = sys.log_verbosity };
    datadir = options.chaindata;
    eth_end_point = options.http_port;
    engine_end_point = "";
    eth_api_spec = options.api_spec;
    private_api_addr = options.eos_evm_node;
    num_workers = options.rpc_threads;
    skip_protocol_check = true;
    rpc_quirk_flag = options.rpc_quirk_flag;
    max_readers = options.rpc_max_readers;
  }

  -- `my.reset(...)`, by what `my` holds.
  unfoldable pub reset_impl : DaemonSettings → Option RpcImpl → Action RpcPlugin RpcError (Unit {0})
  reset_impl settings none p =
      (ok tt, record p { impl = some (record { settings = settings; joinable = false }) })
  reset_impl settings (some impl) p =
      if impl.joinable
      then (throw terminated, p)
      else (ok tt, record p { impl = some (record { settings = settings; joinable = false }) })

  unfoldable pub plugin_initialize : LogSettings → RpcOptions → Action RpcPlugin RpcError (Unit {0})
  unfolding daemon_settings reset_impl
  plugin_initialize sys options p = reset_impl (daemon_settings sys options) p.impl p

unfoldable pub start_daemon : Option RpcImpl → Action RpcPlugin RpcError (Unit {0})
start_daemon none p = (undefined, p)
start_daemon (some impl) p =
    let started = record p {
      impl = some (record impl { joinable = true });
      daemons = impl.settings ∷ p.daemons;
    } in
    if impl.joinable then (throw terminated, started) else (ok tt, started)

unfoldable pub plugin_startup : Action RpcPlugin RpcError (Unit {0})
unfolding start_daemon
plugin_startup p = start_daemon p.impl p

-- `join` returns when the daemon has ended.
unfoldable pub join_daemon : Option RpcImpl → Action RpcPlugin RpcError (Unit {0})
join_daemon none p = (undefined, p)
join_daemon (some impl) p =
    if impl.joinable
    then (ok tt, record p { impl = some (record impl { joinable = false }) })
    else (ok tt, p)

unfoldable pub plugin_shutdown : Action RpcPlugin RpcError (Unit {0})
unfolding join_daemon
plugin_shutdown p = join_daemon p.impl p

-- What the application framework calls of the plugin.
pub data RpcCall : Type 0 where
  initialize : RpcOptions → RpcCall
  startup shutdown : RpcCall

module _ (defaults sys : LogSettings) where
  unfoldable pub call_plugin : RpcCall → Action RpcPlugin RpcError (Unit {0})
  unfolding plugin_initialize plugin_startup plugin_shutdown
  call_plugin (initialize options) = plugin_initialize defaults sys options
  call_plugin startup = plugin_startup
  call_plugin shutdown = plugin_shutdown

  unfoldable pub call_all : List RpcCall → Action RpcPlugin RpcError (Unit {0})
  unfolding call_plugin
  call_all [] = pure tt
  call_all (call ∷ calls) = call_plugin call >> call_all calls
