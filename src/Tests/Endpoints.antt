-- ===== src/Tests/Endpoints.antt =====
-- The options of src/ship_receiver_plugin.cpp at concrete inputs.
use eos_evm_node.Base.{ℕ, ◌≡◌, refl, List, [], ◌∷◌, ◌++◌, none, arith}
use eos_evm_node.Ship.Options.{
  Options, colon, plugin_initialize, with_endpoint, plugin_initialize-endpoint,
}

-- The host "ab", the port "80", and the endpoint "127:8".
abbrev host : List ℕ
host = 97 ∷ 98 ∷ []

abbrev port : List ℕ
port = 56 ∷ 48 ∷ []

abbrev options : Options
options = record {
  ship_endpoint = 49 ∷ 50 ∷ 55 ∷ colon ∷ 56 ∷ [];
  ship_core_account = 5;
  ship_max_retry = none;
  ship_delay_second = none;
  ship_start_from_canonical_height = none;
}

plugin_initialize_host : (plugin_initialize options).host ≡ 49 ∷ 50 ∷ 55 ∷ []
unfolding plugin_initialize
plugin_initialize_host = refl

plugin_initialize-endpoint_example :
    ((plugin_initialize (with_endpoint (host ++ colon ∷ port) options)).host ≡ host)
    × ((plugin_initialize (with_endpoint (host ++ colon ∷ port) options)).port ≡ port)
    × ((plugin_initialize (with_endpoint host options)).host ≡ host)
    × ((plugin_initialize (with_endpoint host options)).port ≡ host)
plugin_initialize-endpoint_example =
    plugin_initialize-endpoint options host port (omega arith, (omega arith, tt))
