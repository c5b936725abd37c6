-- ===== src/Tests/Fixture.antt =====
-- Functions that stand for the libraries that the program calls.
use eos_evm_node.Base.{
  ℕ, suc, ◌+◌, ◌-◌, ◌*◌, ◌/◌, ◌%◌, ◌^◌, ◌≡◌, refl, ap, Bytes, true, false, List, [], ◌∷◌, Option,
  none, some, arith,
}
use mathlib.Core.Option.{some-injective}
use eos_evm_node.Channels.{NativeAction, NativeTrx, NativeBlock}
use eos_evm_node.Evm.{Header, EvmBlock, BlockMapping}
use eos_evm_node.External.{External, Laws}
use eos_evm_node.Utils.{be_value}
use eos_evm_node.Conversion.Content.{IsCanonical}

-- A transaction is a number, and its encoding the list of this number alone.
abbrev decode_one : Bytes → Option ℕ
decode_one [] = none
decode_one (n ∷ []) = some n
decode_one (n ∷ m ∷ rest) = none

abbrev header_at : ℕ → ℕ → ℕ → Header
header_at number parent_hash upper_bound = record {
  number = number;
  timestamp = number;
  parent_hash = parent_hash;
  transactions_root = 0;
  prev_randao = upper_bound;
  nonce = 0;
  base_fee_per_gas = none;
  rest = [];
}

abbrev pub ext : External ℕ
ext = record {
  eosio_name = λ _. 7;
  mapped_block_num = λ bm t. (t / 1000000 - bm.genesis_timestamp + 1) % 2 ^ 32;
  prepare_block_header = λ h bm contract number version fee. record h { number = number };
  default_header = header_at 0 0 0;
  header_hash = λ h. 1000 + h.number;
  root_hash = λ entries. suc (sizes entries);
  empty_root = 1;
  encode_tx = λ tx. tx ∷ [];
  decode_tx = decode_one;
  keccak256 = λ bytes. be_value 0 bytes;
  nonce_to_version = λ n. n;
  version_to_nonce = λ v. v;
  calculate_base_fee_per_gas = λ a b. a + b;
  pushtx_from_bin = λ bytes. some (record { miner = 0; rlpx = bytes });
  evmtx_from_bin = λ _. none;
  config_from_bin = λ _. none;
  consensus_hash = λ p. p.gas_sset;
  logs_critical = true;
}
  where
    sizes : List Bytes → ℕ
    sizes [] = 0
    sizes (e ∷ es) = be_value 0 e + sizes es

pub laws : Laws ext
laws = record {
  mapped_u32 = λ bm t. omega arith;
  prepared_number = λ h bm contract number version fee. refl;
}

-- Decoding inverts encoding, and nothing else decodes.
decode_one_inv : (bytes : Bytes) (tx : ℕ) → decode_one bytes ≡ some tx → bytes ≡ tx ∷ []
decode_one_inv [] tx h = cc
decode_one_inv (n ∷ []) tx h = ap (λ k. k ∷ []) (some-injective n tx h)
decode_one_inv (n ∷ m ∷ rest) tx h = cc

pub canonical : (act : NativeAction) → IsCanonical ext act
canonical act dtx tx e h = ap (be_value 0) (decode_one_inv _ tx h)

abbrev pub bm : BlockMapping
bm = record { genesis_timestamp = 10; block_interval = 1 }

abbrev pub push_action : ℕ → NativeAction
push_action tx = record { ordinal = 1; receiver = 2; account = 2; name = 7; payload = tx ∷ [] }

abbrev pub trx_of : ℕ → NativeTrx
trx_of tx = record { id = tx; cpu_usage_us = 0; elapsed = 0; actions = push_action tx ∷ [] }

-- A block of the Antelope chain at a time in seconds.
abbrev pub native_at : ℕ → ℕ → ℕ → ℕ → List NativeTrx → NativeBlock
native_at id prev seconds lib trxs = record {
  id = id;
  prev = prev;
  block_num = id;
  timestamp = seconds * 1000000;
  lib = lib;
  new_config = none;
  transactions = trxs;
}

abbrev pub evm_at : ℕ → List ℕ → EvmBlock ℕ
evm_at number txs = record {
  header = header_at number (1000 + (number - 1)) 0;
  transactions = txs;
  irreversible = false;
  consensus_parameter_index = none;
  gas_prices = none;
}
