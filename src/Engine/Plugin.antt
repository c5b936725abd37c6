-- ===== src/Engine/Plugin.antt =====
-- The plugin of src/engine_plugin.cpp: its options, the settings made of them, and the calls that the
-- other plugins and the application make of it.
pub mod Restart
use Prim.Native.String.{String}
use eos_evm_node.Base.{ℕ, Bool, true, false, not, Option, none, some, if◌then◌else◌}
use eos_evm_node.Base.Action.{Action, Outcome, ok, throw, undefined}
use eos_evm_node.Engine.Setup.{
  Chaindata, Platform, SetupError, not_opened, EngineImpl, opened, construct, startup, shutdown,
}

-- All have default values but `genesis-json`.
pub record EngineOptions : Type 0 where
  pub chain_data : String
  pub engine_port : String
  pub threads : ℕ
  pub genesis_json : Option String
  pub max_readers : ℕ

-- `node_settings` and `server_settings`, as far as the constructor sets them from the options.
pub record EngineSettings : Type 0 where
  pub data_directory : String
  pub max_readers : ℕ
  pub exclusive : Bool
  pub create : Bool
  pub address_uri : String
  pub num_contexts : ℕ

-- `exists` is about the directory of the database, `open_env` says whether the database can be opened,
-- and `build_and_start` whether silkworm can start its server, such as at the address asked for.
pub record Storage : Type 0 where
  pub exists : String → Bool
  pub open_env : EngineSettings → Bool
  pub build_and_start : EngineSettings → Bool

-- `my`: the settings and the rest of the engine.
pub record EngineRun (Config : Type 0) : Type 0 where
  pub settings : EngineSettings
  pub engine : EngineImpl Config

-- `run` is none where `my` is null; `disk` is what is committed in the directory of the options.
pub record EnginePlugin (Config : Type 0) : Type 0 where
  pub run : Option (EngineRun Config)
  pub disk : Chaindata Config

unfoldable pub settings_of : Storage → EngineOptions → EngineSettings
settings_of storage options = record {
  data_directory = options.chain_data;
  max_readers = options.max_readers;
  exclusive = false;
  create = not (storage.exists options.chain_data);
  address_uri = options.engine_port;
  num_contexts = options.threads;
}

module _ {Config : Type 0} where
  -- `my.reset(new ...)`: an exception of the constructor leaves `my` as it was.
  unfoldable pub made :
      EngineSettings
      → Outcome SetupError (Unit {0}) × EngineImpl Config
      → EnginePlugin Config
      → Outcome SetupError (Unit {0}) × EnginePlugin Config
  made settings (ok _, e) p = (
    ok tt,
    record { run = some (record { settings = settings; engine = e }); disk = e.chaindata },
  )
  made settings (throw error, e) p = (throw error, record p { disk = e.chaindata })
  made settings (undefined, e) p = (undefined, record p { disk = e.chaindata })

  -- A call of a method of `my`, which keeps the settings.
  unfoldable pub within :
      EnginePlugin Config
      → EngineSettings
      → Outcome SetupError (Unit {0}) × EngineImpl Config
      → Outcome SetupError (Unit {0}) × EnginePlugin Config
  within p settings (r, e) =
      (r, record p { run = some (record { settings = settings; engine = e }) })

  unfoldable pub call_engine :
      (EngineSettings → Action (EngineImpl Config) SetupError (Unit {0}))
      → Option (EngineRun Config)
      → Action (EnginePlugin Config) SetupError (Unit {0})
  unfolding within
  call_engine m none p = (undefined, p)
  call_engine m (some my) p = within p my.settings (m my.settings my.engine)

  unfoldable pub of_settings :
      {A : Type 0} → (EngineSettings → A) → Option (EngineRun Config) → Outcome SetupError A
  of_settings f none = undefined
  of_settings f (some my) = ok (f my.settings)

  unfoldable pub get_address : Action (EnginePlugin Config) SetupError String
  unfolding of_settings
  get_address p = (of_settings (λ settings. settings.address_uri) p.run, p)

  unfoldable pub get_threads : Action (EnginePlugin Config) SetupError ℕ
  unfolding of_settings
  get_threads p = (of_settings (λ settings. settings.num_contexts) p.run, p)

module _ {Config Json : Type 0} (platform : Platform Config Json) (storage : Storage) where
  unfoldable pub plugin_initialize :
      EngineOptions → Action (EnginePlugin Config) SetupError (Unit {0})
  unfolding made settings_of
  plugin_initialize options p =
      let settings = settings_of storage options in
      if storage.open_env settings
      then made settings (construct platform options.genesis_json (opened platform p.disk)) p
      else (throw not_opened, p)

  unfoldable pub plugin_startup : Action (EnginePlugin Config) SetupError (Unit {0})
  unfolding call_engine
  plugin_startup p =
      call_engine (λ settings. startup platform (storage.build_and_start settings)) p.run p

  unfoldable pub plugin_shutdown : Action (EnginePlugin Config) SetupError (Unit {0})
  unfolding call_engine
  plugin_shutdown p = call_engine (λ _. shutdown platform) p.run p
