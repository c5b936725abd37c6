-- ===== src/Engine/Setup.antt =====
-- The constructor of the engine in src/engine_plugin.cpp, and its start and stop. The database and
-- the genesis file belong to silkworm and to the file system, and come as what they answer.
pub mod Ready
use Prim.Native.String.{String}
use eos_evm_node.Base.{ℕ, Bool, true, false, not, Option, none, some, if◌then◌else◌}
use eos_evm_node.Base.Action.{
  Action, Outcome, ok, throw, undefined, raise, undefined_behaviour, pure, gets, put, modify, ◌>>=◌,
  ◌>>◌,
}

-- What is stored: the configuration of the chain, and the hash of the canonical header of height 0.
pub record Chaindata (Config : Type 0) : Type 0 where
  pub chain_config : Option Config
  pub genesis_header_hash : Option ℕ

-- `boost::filesystem::is_regular_file`, reading and parsing the file (`none` is an exception),
-- `silkworm::db::initialize_genesis` on the open transaction (`none` is an exception), and
-- `ChainConfig::chain_id`.
pub record Platform (Config Json : Type 0) : Type 0 where
  pub is_regular_file : String → Bool
  pub parse_file : String → Option Json
  pub initialize_genesis : Json → Chaindata Config → Option (Chaindata Config)
  pub chain_id : Config → ℕ

pub data SetupError : Type 0 where
  not_opened : SetupError
  parse_error : SetupError
  genesis_error : SetupError
  no_genesis_hash : SetupError
  not_built : SetupError

-- `chaindata` is what is committed, `txn` what the open transaction sees. `server` says that
-- `server` and `eth` are set, `started` that the server runs, and `quits` that `sys::error` was
-- called.
pub record EngineImpl (Config : Type 0) : Type 0 where
  pub chaindata : Chaindata Config
  pub txn : Chaindata Config
  pub node_config : Option Config
  pub network_id : ℕ
  pub genesis_hash : Option ℕ
  pub server : Bool
  pub started : Bool
  pub quits : Bool

module _ {Config Json : Type 0} (platform : Platform Config Json) where
  -- What the constructor makes before the transaction is opened.
  abbrev pub opened : Chaindata Config → EngineImpl Config
  opened chaindata = record {
    chaindata = chaindata;
    txn = chaindata;
    node_config = none;
    network_id = 0;
    genesis_hash = none;
    server = false;
    started = false;
    quits = false;
  }

  unfoldable pub write_genesis :
      Option (Chaindata Config) → Action (EngineImpl Config) SetupError (Unit {0})
  write_genesis none = raise genesis_error
  write_genesis (some written) = modify (λ s. record s { txn = written })

  unfoldable pub initialize_from : Option Json → Action (EngineImpl Config) SetupError (Unit {0})
  unfolding write_genesis
  initialize_from none s = (throw parse_error, s)
  initialize_from (some json) s = write_genesis (platform.initialize_genesis json s.txn) s

  abbrev sys_error : Action (EngineImpl Config) SetupError Bool
  sys_error s = (ok false, record s { quits = true })

  -- `if (!existing_config.has_value())`; whether the constructor goes on.
  unfoldable pub provide_genesis : Option String → Action (EngineImpl Config) SetupError Bool
  unfolding initialize_from
  provide_genesis none = sys_error
  provide_genesis (some genesis_file) =
      if platform.is_regular_file genesis_file
      then initialize_from (platform.parse_file genesis_file) >> pure true
      else sys_error

  unfoldable pub check_genesis :
      Option Config → Option String → Action (EngineImpl Config) SetupError Bool
  unfolding provide_genesis
  check_genesis (some existing_config) genesis_json = pure true
  check_genesis none genesis_json = provide_genesis genesis_json

  unfoldable pub load_network : Option Config → Action (EngineImpl Config) SetupError (Unit {0})
  load_network none = undefined_behaviour
  load_network (some config) =
      modify (λ s. record s { node_config = some config; network_id = platform.chain_id config })

  unfoldable pub load_genesis_hash : Option ℕ → Action (EngineImpl Config) SetupError (Unit {0})
  load_genesis_hash none = raise no_genesis_hash
  load_genesis_hash (some hash) = modify (λ s. record s { genesis_hash = some hash })

  -- From `txn.commit()` on.
  unfoldable pub finish_setup : Action (EngineImpl Config) SetupError (Unit {0})
  unfolding load_network load_genesis_hash
  finish_setup = do
    modify (λ s. record s { chaindata = s.txn })
    chain_config ← gets (λ s. s.chaindata.chain_config)
    load_network chain_config
    hash ← gets (λ s. s.chaindata.genesis_header_hash)
    load_genesis_hash hash
    modify (λ s. record s { server = true })

  unfoldable pub construct : Option String → Action (EngineImpl Config) SetupError (Unit {0})
  unfolding check_genesis finish_setup
  construct genesis_json = do
    existing_config ← gets (λ s. s.txn.chain_config)
    going ← check_genesis existing_config genesis_json
    if going then finish_setup else pure tt

  -- `server` is a null pointer where the constructor has ended early. The argument says whether
  -- silkworm's `build_and_start` returns, and does not throw.
  unfoldable pub startup : Bool → Action (EngineImpl Config) SetupError (Unit {0})
  startup builds s =
      if s.server
      then (if builds then (ok tt, record s { started = true }) else (throw not_built, s))
      else (undefined, s)

  unfoldable pub shutdown : Action (EngineImpl Config) SetupError (Unit {0})
  shutdown s = if s.server then (ok tt, record s { started = false }) else (undefined, s)
