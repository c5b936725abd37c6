-- ===== src/Lib.antt =====
-- The EOS EVM node: it follows an Antelope chain through the state history, builds EVM blocks from
-- the actions that its EVM contract receives, and hands them to an execution engine.
--
-- How the parts interact. `ship_receiver_plugin` reads blocks of the state history and publishes
-- native blocks on a channel; `block_conversion_plugin` keeps the recent native blocks and the EVM
-- blocks made of them, follows forks, and publishes completed EVM blocks on another channel;
-- `blockchain_plugin` inserts these into the execution engine and has the chain verified;
-- `engine_plugin` answers from which block to resume.
--
-- Which file models what:
--   Channels    src/channels.hpp: native actions, transactions and blocks, the orders of visits
--   Evm         src/block_conversion_plugin.hpp: the actions' payloads; EVM blocks and headers
--   External    what the code calls of silkworm, eosevm, abieos and ethash, with the laws used
--   Utils       src/utils.hpp: `endian_reverse_u32`, `to_block_num`, `checksum256_from_string`
--   Conversion  src/block_conversion_plugin.cpp, in child modules:
--     State     the lists, `timestamp_to_evm_block_num`, `deserialize_tx`, `set_upper_bound`
--     Fork      from the search for a duplicate to the reset of the upper bound
--     Extend    `generate_new_evm_block`, `compute_transaction_root` and the extending loop
--     Apply     the configuration, and the visitor that adds the transactions of a block
--     Prune     the last irreversible EVM block and what is dropped below it
--     Handler   `load_head` and the subscriber, which composes all of these
--     Delivery  what is published, and in which order
--     Terms     version and fees of the EVM blocks, over the whole handler
--     Quiet     which properties of the EVM blocks the parts of the handler keep
--     Content, Invariant  what it means that the two chains belong together
--   Ship        src/ship_receiver_plugin.cpp: Append for `to_native` and `append_to_block`,
--               Connection for `reset_connection` and the choice of `sync`, Session for the
--               callbacks and what the network answers them, Options for `plugin_initialize`
--   Engine      src/engine_plugin.cpp: `find_block_with_valid_eos_id` and its caller, and in Setup
--               the constructor of the engine, its start and stop, in Plugin the
--               options and calls; Resume for the block returned
--   Blockchain  src/blockchain_plugin.cpp: the subscriber of EVM blocks, catch clauses, shutdown
--   Dispatch    src/channels.hpp: the policy `exit_on_exceptions`
--   Node        the two subscribers with the queue of published EVM blocks between them; Start for
--               what `load_head` leaves for the first blocks
--   Abi         src/abi_utils.hpp: `verify_variant` and `get_type`
--   Rpc         src/rpc_plugin.cpp and the settings of src/sys_plugin.cpp; Life for its calls
--   Programs    src/eos-evm-node.cpp and src/eos-evm-rpc.cpp: the two `main` functions
--   Base        shared names, tests, lists, bits, and the monad of state and exceptions
--   Tests       runs at concrete inputs, and the theorems applied there
--
-- Conventions. A handler is a function from a state to an outcome and the state after it; an
-- exception keeps the state as it was at the throw. `undefined` is undefined behaviour, such as
-- `back()` of an empty list, so a theorem that excludes it says that no such call happens. Lists
-- that grow at their end hold their newest entry first. A 32-byte value is the number its bytes
-- spell; arithmetic on `uint32_t` and `size_t` wraps where it can. The assertion in
-- `timestamp_to_evm_block_num` is compiled out, as in a Release build. `SILKWORM_ASSERT` aborts the
-- process, and no clause catches that; here it ends the handler by `assertion_failed`, which counts as
-- an error of the input. Log lines are left out but for the two whose operands read a list that may be
-- empty.
--
-- Fuel. The extending loop runs on fuel one above the number asked for; each round raises the
-- height by one, so it ends before the fuel does, which its theorem states. All other loops go down
-- a list or a number.
--
-- Not modelled: decoding of bytes (abieos) and of transactions (silkworm), which are parameters;
-- the opening and reading of the database (silkworm), reading an ABI from its file, the fixed fields
-- of the request for blocks, and log lines, which are glue around libraries. `verify_variant` and
-- `get_type` are called nowhere in the program.
pub mod Base
pub mod Utils
pub mod Channels
pub mod Evm
pub mod External
pub mod Conversion
pub mod Ship
pub mod Engine
pub mod Blockchain
pub mod Dispatch
pub mod Node
pub mod Abi
pub mod Rpc
pub mod Programs
pub mod Tests
