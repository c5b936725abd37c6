-- ===== src/Engine/Setup/Ready.antt =====
-- How the constructor of the engine in src/engine_plugin.cpp ends.
use Prim.Native.String.{String}
use eos_evm_node.Base.{
  ℕ, ◌≡◌, refl, sym, ap, subst, ◌∙◌, Bool, true, false, Option, none, some, ◌⊎◌, inl, inr,
  Bool-cases, if◌then◌else◌,
}
use eos_evm_node.Base.Action.{pure, >>=-Ends, Ends}
use eos_evm_node.Engine.Setup.{
  Chaindata, Platform, SetupError, EngineImpl, opened, write_genesis, initialize_from,
  provide_genesis, check_genesis, load_network, load_genesis_hash, finish_setup, construct,
}

-- The engine is made for the chain that is stored.
pub record IsReady {Config Json : Type 0} (platform : Platform Config Json) (d : EngineImpl Config)
    : Type 0 where
  pub config : Config
  pub hash : ℕ
  pub stored_config : d.chaindata.chain_config ≡ some config
  pub stored_hash : d.chaindata.genesis_header_hash ≡ some hash
  pub same_config : d.node_config ≡ some config
  pub same_network : d.network_id ≡ platform.chain_id config
  pub same_hash : d.genesis_hash ≡ some hash
  pub has_server : d.server ≡ true
  pub goes_on : d.quits ≡ false

-- The engine is not made, the program is asked to quit, and the database is as it was.
pub record IsRefused {Config : Type 0} (disk : Chaindata Config) (d : EngineImpl Config)
    : Type 0 where
  pub no_config : disk.chain_config ≡ none
  pub unchanged : d.chaindata ≡ disk
  pub no_server : d.server ≡ false
  pub stops : d.quits ≡ true

-- A stored configuration is not written again.
abbrev pub KeepsChain : {Config : Type 0} → Chaindata Config → EngineImpl Config → Type 0
KeepsChain disk d = (d.chaindata ≡ disk) ⊎ (disk.chain_config ≡ none)

module _ {Config Json : Type 0} (platform : Platform Config Json)
    (written_config : (json : Json) (before after : Chaindata Config)
      → platform.initialize_genesis json before ≡ some after
      → (config : Config) × (after.chain_config ≡ some config))
    (disk : Chaindata Config) where
  abbrev Ready : Unit {0} → EngineImpl Config → Type 0
  Ready _ d = (IsReady platform d × KeepsChain disk d) ⊎ IsRefused disk d

  abbrev Fails : SetupError → EngineImpl Config → Type 0
  Fails _ d = (d.server ≡ false) × KeepsChain disk d

  abbrev during : Chaindata Config → EngineImpl Config
  during txn = record (opened platform disk) { txn = txn }

  -- The transaction sees a configuration.
  abbrev configured : Config → Option ℕ → Chaindata Config
  configured config hash = record { chain_config = some config; genesis_header_hash = hash }

  commit-Ready :
      (config : Config) (hash : Option ℕ)
      → (configured config hash ≡ disk) ⊎ (disk.chain_config ≡ none)
      → Ends Ready Fails ⊥ (finish_setup platform (during (configured config hash)))
  unfolding finish_setup load_network load_genesis_hash
  commit-Ready config none k = (refl, k)
  commit-Ready config (some hash) k = inl (
    record {
      config = config;
      hash = hash;
      stored_config = refl;
      stored_hash = refl;
      same_config = refl;
      same_network = refl;
      same_hash = refl;
      has_server = refl;
      goes_on = refl;
    },
    k,
  )

  finish_setup-Ready :
      (txn : Chaindata Config) (config : Config)
      → txn.chain_config ≡ some config
      → (txn ≡ disk) ⊎ (disk.chain_config ≡ none)
      → Ends Ready Fails ⊥ (finish_setup platform (during txn))
  finish_setup-Ready txn config e k =
      subst (λ t. Ends Ready Fails ⊥ (finish_setup platform (during t))) (sym split)
        (commit-Ready config txn.genesis_header_hash
          (elim k [ inl same ↦ inl (sym split ∙ same) | inr empty ↦ inr empty ]))
    where
      split : txn ≡ configured config txn.genesis_header_hash
      split = ap (λ c. record { chain_config = c; genesis_header_hash = txn.genesis_header_hash }) e

  -- After the check of the genesis, the constructor goes on with a configuration, or it has refused.
  abbrev Checked : Bool → EngineImpl Config → Type 0
  Checked true d =
      (txn : Chaindata Config) × (d ≡ during txn)
      × (config : Config) × (txn.chain_config ≡ some config)
      × ((txn ≡ disk) ⊎ (disk.chain_config ≡ none))
  Checked false d = IsRefused disk d

  write_genesis-Checked :
      (json : Json) (written : Option (Chaindata Config))
      → platform.initialize_genesis json disk ≡ written
      → disk.chain_config ≡ none
      → Ends (λ _ d. Checked true d) Fails ⊥ (write_genesis platform written (during disk))
  unfolding write_genesis
  write_genesis-Checked json none e empty = (refl, inl refl)
  write_genesis-Checked json (some after) e empty =
      let (config, there) = written_config json disk after e in
      (after, refl, config, there, inr empty)

  initialize_from-Checked :
      (json : Option Json)
      → disk.chain_config ≡ none
      → Ends (λ _ d. Checked true d) Fails ⊥ (initialize_from platform json (during disk))
  unfolding initialize_from
  initialize_from-Checked none empty = (refl, inl refl)
  initialize_from-Checked (some json) empty = write_genesis-Checked json _ refl empty

  provide_genesis-Checked :
      (genesis_json : Option String)
      → disk.chain_config ≡ none
      → Ends Checked Fails ⊥ (provide_genesis platform genesis_json (during disk))
  unfolding provide_genesis
  provide_genesis-Checked none empty = record {
    no_config = empty;
    unchanged = refl;
    no_server = refl;
    stops = refl;
  }
  provide_genesis-Checked (some genesis_file) empty =
      elim (Bool-cases (platform.is_regular_file genesis_file)) [
        | inl regular ↦ rw regular (
            >>=-Ends (λ _ d. Checked true d) Checked Fails ⊥ (λ _. pure true)
              (initialize_from platform (platform.parse_file genesis_file)) (during disk)
              (initialize_from-Checked (platform.parse_file genesis_file) empty) (λ _ d h. h))
        | inr other ↦
            rw other
              (record { no_config = empty; unchanged = refl; no_server = refl; stops = refl })
      ]

  check_genesis-Checked :
      (existing_config : Option Config) (genesis_json : Option String)
      → disk.chain_config ≡ existing_config
      → Ends Checked Fails ⊥ (check_genesis platform existing_config genesis_json (during disk))
  unfolding check_genesis
  check_genesis-Checked (some config) genesis_json e = (disk, refl, config, e, inl refl)
  check_genesis-Checked none genesis_json e = provide_genesis-Checked genesis_json e

  going_on-Ready :
      (going : Bool) (d : EngineImpl Config)
      → Checked going d
      → Ends Ready Fails ⊥ ((if going then finish_setup platform else pure tt) d)
  going_on-Ready false d refused = inr refused
  going_on-Ready true d (txn, e, config, there, k) =
      subst (λ x. Ends Ready Fails ⊥ (finish_setup platform x)) (sym e)
        (finish_setup-Ready txn config there k)

  -- Where writing a genesis stores a configuration, the constructor of the engine does not run into
  -- undefined behaviour on any database and any option. If it returns, either the engine is made for
  -- the stored configuration and genesis hash, or there was no configuration, the database is as
  -- before, there is no server, and the program is asked to quit. If it throws, there is no server. In
  -- all cases, a database with a configuration is as before.
  pub construct-Ready :
      (genesis_json : Option String)
      → Ends
          (λ _ d. (IsReady platform d × KeepsChain disk d) ⊎ IsRefused disk d)
          (λ _ d. (d.server ≡ false) × KeepsChain disk d)
          ⊥
          (construct platform genesis_json (opened platform disk))
  unfolding construct
  construct-Ready genesis_json =
      >>=-Ends Checked Ready Fails ⊥ (λ going. if going then finish_setup platform else pure tt)
        (check_genesis platform disk.chain_config genesis_json) (opened platform disk)
        (check_genesis-Checked disk.chain_config genesis_json refl) going_on-Ready
