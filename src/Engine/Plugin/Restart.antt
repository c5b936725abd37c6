-- ===== src/Engine/Plugin/Restart.antt =====
-- A second start of the plugin of src/engine_plugin.cpp, on the database that the first one has left.
use Prim.Native.String.{String}
use mathlib.Core.Option.{some-injective}
use mathlib.Core.Bool.{true≢false}
use eos_evm_node.Base.{
  ℕ, Bool, ◌≡◌, refl, sym, ap, subst, ◌∙◌, true, false, Bool-cases, Option, some, ◌⊎◌, inl, inr,
  if◌then◌else◌,
}
use eos_evm_node.Base.Action.{Outcome, ok, throw, undefined, Ends, ◌>>◌, >>=-ok}
use eos_evm_node.Engine.Setup.{
  Chaindata, Platform, SetupError, not_opened, not_built, EngineImpl, opened, check_genesis,
  load_network, load_genesis_hash, finish_setup, construct, startup,
}
use eos_evm_node.Engine.Setup.Ready.{IsReady, IsRefused, KeepsChain, construct-Ready}
use eos_evm_node.Engine.Plugin.{
  EngineOptions, EngineSettings, Storage, EngineRun, EnginePlugin, settings_of, made, within,
  call_engine, plugin_initialize, plugin_startup,
}

-- The plugin has an engine for the chain in the database, whose server runs or does not.
pub record HasEngine {Config Json : Type 0} (platform : Platform Config Json)
    (settings : EngineSettings) (chaindata : Chaindata Config) (runs : Bool)
    (q : EnginePlugin Config) : Type 0 where
  pub my : EngineRun Config
  pub there : q.run ≡ some my
  pub same_settings : my.settings ≡ settings
  pub ready : IsReady platform my.engine
  pub started : my.engine.started ≡ runs
  pub same_chain : my.engine.chaindata ≡ chaindata
  pub kept : q.disk ≡ chaindata

-- How a start on the chain ends: the server runs, exactly if it can be started, and otherwise the
-- plugin throws and has an engine that does not run.
abbrev pub Restarts :
    {Config Json : Type 0}
    → Platform Config Json
    → Storage
    → EngineSettings
    → Chaindata Config
    → Outcome SetupError (Unit {0}) × EnginePlugin Config
    → Type 0
Restarts platform storage settings chaindata =
    Ends
      (λ _ q.
        (storage.build_and_start settings ≡ true) × HasEngine platform settings chaindata true q)
      (λ e q.
        (e ≡ not_built)
        × (storage.build_and_start settings ≡ false)
        × HasEngine platform settings chaindata false q)
      ⊥

module _ {Config Json : Type 0} (platform : Platform Config Json) where
  abbrev for_chain : Config → ℕ → Chaindata Config
  for_chain config hash = record { chain_config = some config; genesis_header_hash = some hash }

  -- The engine that the constructor makes for a stored chain.
  abbrev engine_for : Config → ℕ → EngineImpl Config
  engine_for config hash = record {
    chaindata = for_chain config hash;
    txn = for_chain config hash;
    node_config = some config;
    network_id = platform.chain_id config;
    genesis_hash = some hash;
    server = true;
    started = false;
    quits = false;
  }

  construct-stored :
      (genesis_json : Option String) (config : Config) (hash : ℕ)
      → construct platform genesis_json (opened platform (for_chain config hash))
        ≡ (ok tt, engine_for config hash)
  unfolding construct check_genesis finish_setup load_network load_genesis_hash
  construct-stored genesis_json config hash = refl

  ready-stored :
      (d : EngineImpl Config) (r : IsReady platform d) → d.chaindata ≡ for_chain r.config r.hash
  ready-stored d r =
      ap (λ c. record { chain_config = c; genesis_header_hash = d.chaindata.genesis_header_hash })
        r.stored_config
      ∙ ap (λ h. record { chain_config = some r.config; genesis_header_hash = h }) r.stored_hash

  module _ (storage : Storage) where
    -- The plugin after its initialization.
    initialized :
        (options : EngineOptions) (q : EnginePlugin Config)
        → storage.open_env (settings_of storage options) ≡ true
        → plugin_initialize platform storage options q
          ≡ made
              (settings_of storage options)
              (construct platform options.genesis_json (opened platform q.disk))
              q
    unfolding plugin_initialize
    initialized options q opens =
        ap
          (λ b.
            if b
            then made (settings_of storage options)
                (construct platform options.genesis_json (opened platform q.disk)) q
            else (throw not_opened, q))
          opens

    initialized-stored :
        (options : EngineOptions) (config : Config) (hash : ℕ) (q : EnginePlugin Config)
        → storage.open_env (settings_of storage options) ≡ true
        → q.disk ≡ for_chain config hash
        → plugin_initialize platform storage options q ≡ (
          ok tt,
          record {
            run = some (record {
              settings = settings_of storage options;
              engine = engine_for config hash;
            });
            disk = for_chain config hash;
          },
        )
    unfolding made
    initialized-stored options config hash q opens stored =
        initialized options q opens
        ∙ ap
            (λ d.
              made (settings_of storage options)
                (construct platform options.genesis_json (opened platform d)) q)
            stored
        ∙ ap (λ r. made (settings_of storage options) r q)
            (construct-stored options.genesis_json config hash)

    -- The plugin of an engine for a stored chain.
    started-HasEngine :
        (options : EngineOptions) (d : EngineImpl Config) (r : IsReady platform d) (runs : Bool)
        → HasEngine platform (settings_of storage options) d.chaindata runs (record {
          run = some (record {
            settings = settings_of storage options;
            engine = record (engine_for r.config r.hash) { started = runs };
          });
          disk = for_chain r.config r.hash;
        })
    started-HasEngine options d r runs = record {
      my = record {
        settings = settings_of storage options;
        engine = record (engine_for r.config r.hash) { started = runs };
      };
      there = refl;
      same_settings = refl;
      ready = record {
        config = r.config;
        hash = r.hash;
        stored_config = refl;
        stored_hash = refl;
        same_config = refl;
        same_network = refl;
        same_hash = refl;
        has_server = refl;
        goes_on = refl;
      };
      started = refl;
      same_chain = sym (ready-stored d r);
      kept = sym (ready-stored d r);
    }

    -- The plugin after both calls, on a stored chain.
    restart-stored :
        (options : EngineOptions) (d : EngineImpl Config) (q : EnginePlugin Config)
        → IsReady platform d
        → storage.open_env (settings_of storage options) ≡ true
        → q.disk ≡ d.chaindata
        → Restarts platform storage
            (settings_of storage options)
            d.chaindata
            ((plugin_initialize platform storage options >> plugin_startup platform storage) q)
    unfolding plugin_startup call_engine within startup
    restart-stored options d q r opens same =
        subst (Restarts platform storage (settings_of storage options) d.chaindata)
          (sym (
            >>=-ok (plugin_initialize platform storage options)
              (λ _. plugin_startup platform storage) q
              (initialized-stored options r.config r.hash q opens (same ∙ ready-stored d r))))
          (elim (Bool-cases (storage.build_and_start (settings_of storage options))) [
            | inl builds ↦ rw builds (refl, started-HasEngine options d r true)
            | inr fails ↦ rw fails (refl, refl, started-HasEngine options d r false)
          ])

    module _
        (written_config : (json : Json) (before after : Chaindata Config)
          → platform.initialize_genesis json before ≡ some after
          → (config : Config) × (after.chain_config ≡ some config)) where
      -- The first initialization: the engine is ready, and what it has stored is on the disk.
      first-IsReady :
          (options : EngineOptions) (p p' : EnginePlugin Config) (my : EngineRun Config)
          → plugin_initialize platform storage options p ≡ (ok tt, p')
          → p'.run ≡ some my
          → my.engine.quits ≡ false
          → IsReady platform my.engine × (p'.disk ≡ my.engine.chaindata)
      unfolding plugin_initialize made
      first-IsReady options p p' my h there going =
          elim (Bool-cases (storage.open_env (settings_of storage options))) [
            | inl opens ↦
                from (construct platform options.genesis_json (opened platform p.disk))
                  (construct-Ready platform written_config p.disk options.genesis_json)
                  (sym (initialized options p opens) ∙ h)
            | inr closed ↦ cc (rw closed at h)
          ]
        where
          made_same :
              (d : EngineImpl Config)
              → made (settings_of storage options) (ok tt, d) p ≡ (ok tt, p')
              → d ≡ my.engine
          made_same d eq =
              ap (λ (m : EngineRun Config). m.engine)
                (some-injective (record { settings = settings_of storage options; engine = d }) my
                  (ap (λ x. x.1.run) eq ∙ there))

          from :
              (r : Outcome SetupError (Unit {0}) × EngineImpl Config)
              → Ends
                  (λ _ d. (IsReady platform d × KeepsChain p.disk d) ⊎ IsRefused p.disk d)
                  (λ _ d. (d.server ≡ false) × KeepsChain p.disk d)
                  ⊥
                  r
              → made (settings_of storage options) r p ≡ (ok tt, p')
              → IsReady platform my.engine × (p'.disk ≡ my.engine.chaindata)
          from (throw e, d) ends eq = cc
          from (undefined, d) ends eq = cc
          from (ok _, d) (inl (ready, k)) eq =
              let same : d ≡ my.engine = made_same d eq in
              (
                subst (IsReady platform) same ready,
                sym (ap (λ x. x.1.disk) eq) ∙ ap (λ e. e.chaindata) same,
              )
          from (ok _, d) (inr refused) eq =
              let same : d ≡ my.engine = made_same d eq in
              let stops : d.quits ≡ true = refused.stops in
              absurd (true≢false (sym stops ∙ ap (λ e. e.quits) same ∙ going))

      -- Where writing a genesis stores a configuration: when an initialization has returned without the
      -- request to quit, then any plugin on the database that it has left, with any options with which
      -- the database can be opened and also without a genesis file, is initialized, with the settings
      -- of its own options, for the chain of the first one, and leaves the database as it is. It is
      -- started exactly if silkworm can start a server with these settings; otherwise the start throws
      -- this error and no other, and the server does not run.
      pub plugin_initialize-Restarts :
          (options again : EngineOptions) (p p' q : EnginePlugin Config) (my : EngineRun Config)
          → plugin_initialize platform storage options p ≡ (ok tt, p')
          → p'.run ≡ some my
          → my.engine.quits ≡ false
          → storage.open_env (settings_of storage again) ≡ true
          → q.disk ≡ p'.disk
          → Restarts platform storage
              (settings_of storage again)
              p'.disk
              ((plugin_initialize platform storage again >> plugin_startup platform storage) q)
      plugin_initialize-Restarts options again p p' q my h there going opens left =
          let (ready, same) = first-IsReady options p p' my h there going in
          subst
            (λ c.
              Restarts platform storage (settings_of storage again) c
                ((plugin_initialize platform storage again >> plugin_startup platform storage) q))
            (sym same) (restart-stored again my.engine q ready opens (left ∙ same))
