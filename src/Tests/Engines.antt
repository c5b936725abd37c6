-- ===== src/Tests/Engines.antt =====
-- The constructor and the plugin of src/engine_plugin.cpp at concrete inputs.
use mathlib.Core.Option.{some-injective}
use eos_evm_node.Base.{ℕ, ◌≡◌, refl, sym, ap, true, false, none, some, ◌⊎◌, ◌==◌}
use eos_evm_node.Base.Action.{Ends, ok, throw, undefined, ◌>>◌}
use eos_evm_node.Engine.Setup.{Chaindata, Platform, not_built, opened, construct, startup}
use eos_evm_node.Engine.Plugin.{
  EngineOptions, Storage, EngineRun, EnginePlugin, settings_of, plugin_initialize, plugin_startup,
  get_address,
}
use eos_evm_node.Engine.Plugin.Restart.{Restarts, plugin_initialize-Restarts}
use eos_evm_node.Engine.Setup.Ready.{IsReady, IsRefused, KeepsChain, construct-Ready}

-- A configuration is its chain id, and a genesis is one too.
abbrev platform : Platform ℕ ℕ
platform = record {
  is_regular_file = λ _. true;
  parse_file = λ _. some 15555;
  initialize_genesis =
      λ json before. some (record { chain_config = some json; genesis_header_hash = some 77 });
  chain_id = λ config. config;
}

abbrev empty_disk : Chaindata ℕ
empty_disk = record { chain_config = none; genesis_header_hash = none }

written_config :
    (json : ℕ) (before after : Chaindata ℕ)
    → platform.initialize_genesis json before ≡ some after
    → (config : ℕ) × (after.chain_config ≡ some config)
written_config json before after e =
    (json, sym (ap (λ d. d.chain_config) (some-injective _ after e)))

construct_refuses : (construct platform none (opened platform empty_disk)).1.quits ≡ true
unfolding construct
construct_refuses = refl

-- A start after a refusal would use the server that there is not.
construct_then_startup :
    ((construct platform none >> startup platform true) (opened platform empty_disk)).0 ≡ undefined
unfolding construct startup
construct_then_startup = refl

construct_writes :
    (construct platform (some "genesis.json") (opened platform empty_disk)).1.chaindata
    ≡ record { chain_config = some 15555; genesis_header_hash = some 77 }
unfolding construct
construct_writes = refl

construct-Ready_example :
    Ends
      (λ _ d. (IsReady platform d × KeepsChain empty_disk d) ⊎ IsRefused empty_disk d)
      (λ _ d. (d.server ≡ false) × KeepsChain empty_disk d)
      ⊥
      (construct platform (some "genesis.json") (opened platform empty_disk))
construct-Ready_example = construct-Ready platform written_config empty_disk (some "genesis.json")

-- The first start has a genesis file, the second one has not.
abbrev first_options : EngineOptions
first_options = record {
  chain_data = "data";
  engine_port = "127.0.0.1:8080";
  threads = 16;
  genesis_json = some "genesis.json";
  max_readers = 1024;
}

abbrev later_options : EngineOptions
later_options = record first_options { genesis_json = none; threads = 4 }

abbrev storage : Storage
storage = record {
  exists = λ _. false;
  open_env = λ _. true;
  build_and_start = λ settings. settings.num_contexts == 4;
}

abbrev made_disk : Chaindata ℕ
made_disk = record { chain_config = some 15555; genesis_header_hash = some 77 }

abbrev new_plugin : Chaindata ℕ → EnginePlugin ℕ
new_plugin disk = record { run = none; disk = disk }

-- What the first start makes.
abbrev first_run : EngineRun ℕ
unfolding settings_of
first_run = record {
  settings = settings_of storage first_options;
  engine = record (opened platform made_disk) {
    node_config = some 15555;
    network_id = 15555;
    genesis_hash = some 77;
    server = true;
  };
}

first_start :
    plugin_initialize platform storage first_options (new_plugin empty_disk)
    ≡ (ok tt, record { run = some first_run; disk = made_disk })
unfolding plugin_initialize construct
first_start = refl

-- A server that cannot be started with the settings.
second_start_fails :
    ((plugin_initialize platform storage first_options >> plugin_startup platform storage)
      (new_plugin made_disk)).0
    ≡ throw not_built
unfolding plugin_initialize construct plugin_startup startup
second_start_fails = refl

address_after_start :
    (plugin_initialize platform storage first_options >> get_address) (new_plugin empty_disk)
    ≡ (ok "127.0.0.1:8080", record { run = some first_run; disk = made_disk })
unfolding plugin_initialize construct get_address
address_after_start = refl

plugin_initialize-Restarts_example :
    Restarts platform storage (settings_of storage later_options) made_disk (
      (plugin_initialize platform storage later_options >> plugin_startup platform storage)
        (new_plugin made_disk))
unfolding first_run
plugin_initialize-Restarts_example =
    plugin_initialize-Restarts platform storage written_config first_options later_options
      (new_plugin empty_disk) (record { run = some first_run; disk = made_disk })
      (new_plugin made_disk) first_run first_start refl refl refl refl
