-- ===== src/Conversion/Handler/Reached.antt =====
-- The life of the plugin, in src/block_conversion_plugin.cpp: the state after `load_head`, and those
-- that the handler reaches from there.
use eos_evm_node.Base.{◌≤◌, ◌≡◌, refl, sym, subst, inl, inr, Bool, [], Option, some}
use eos_evm_node.Base.Action.{ok, Ends}
use eos_evm_node.Channels.{NativeBlock}
use eos_evm_node.Evm.{EvmBlock, Header, BlockMapping, ChainConfig}
use eos_evm_node.External.{External, Laws}
use eos_evm_node.Conversion.State.{State, FromInput}
use eos_evm_node.Conversion.Content.{num}
use eos_evm_node.Conversion.Handler.{loaded_native, load_head, on_native_block}
use eos_evm_node.Conversion.Handler.Append.{Stands, Took-Stands}
use eos_evm_node.Conversion.Handler.Safety.{Arrives, Handled, on_native_block-Good}

-- The mapping that `load_head` makes from the genesis header.
abbrev pub mapping_of : Header → BlockMapping
mapping_of genesis_header = record {
  genesis_timestamp = genesis_header.timestamp;
  block_interval = 1;
}

module _ {Tx : Type 0} (ext : External Tx) where
  -- From empty lists, with a start block and a genesis header read, `load_head` leaves two chains of
  -- one block each that belong together, where the time of the start block's header lies in an EVM
  -- block of at least its own number, and of at least 1.
  pub load_head-Stands :
      (start_block : EvmBlock Tx) (genesis_header : Header) (s : State Tx)
      → s.native_blocks ≡ []
      → s.evm_blocks ≡ []
      → 1 ≤ num ext (mapping_of genesis_header) (loaded_native start_block)
      → start_block.header.number ≤ num ext (mapping_of genesis_header) (loaded_native start_block)
      → Stands ext
          (mapping_of genesis_header)
          (loaded_native start_block)
          ((load_head (some start_block) (some genesis_header) s).1)
  unfolding load_head loaded_native
  load_head-Stands start_block genesis_header s en ee positive low = record {
    older = [];
    back = start_block;
    rest = [];
    mapped = refl;
    en = rw en refl;
    ee = rw ee refl;
    valid = record {
      native_chain = (tt, tt);
      distinct = (tt, tt);
      rising = (tt, tt);
      positive = (positive, tt);
      removable = (tt, tt);
      evm_chain = (tt, tt);
      tip = inr (refl, refl, low);
      covers = (low, tt);
      built = ((start_block.transactions, (λ _. refl), (λ _. refl), tt), tt);
    };
  }

-- The states that the handler reaches, where each received block arrives as the chain promises.
pub data Reached {Tx : Type 0} (ext : External Tx) (laws : Laws ext) (config : Option ChainConfig)
    (bm : BlockMapping) (start : State Tx) : State Tx → Type 0 where
  here : Reached ext laws config bm start start
  next :
      {s s' : State Tx} (engine_open : Bool) (new_block : NativeBlock)
      → Reached ext laws config bm start s
      → Arrives ext laws config bm engine_open new_block s
      → on_native_block ext config engine_open new_block s ≡ (ok tt, s')
      → Reached ext laws config bm start s'

module _ {Tx : Type 0} (ext : External Tx) (laws : Laws ext) (config : Option ChainConfig)
    (bm : BlockMapping) where
  Handled-Stands :
      (new_block newest : NativeBlock) (s s' : State Tx)
      → Stands ext bm newest s
      → Handled ext laws config bm new_block s s'
      → (nb : NativeBlock) × Stands ext bm nb s'
  Handled-Stands new_block newest s s' t (inl taken) =
      (new_block, Took-Stands ext bm new_block s' taken)
  Handled-Stands new_block newest s s' t (inr (dup, known, same)) =
      (newest, subst (Stands ext bm newest) (sym same) t)

  -- From a state whose two chains belong together, the handler reaches only such states, where every
  -- block arrives as the chain promises and the handler returns.
  pub Reached-Stands :
      (oldest : NativeBlock) (start s : State Tx)
      → Stands ext bm oldest start
      → Reached ext laws config bm start s
      → (newest : NativeBlock) × Stands ext bm newest s
  Reached-Stands oldest start s t here = (oldest, t)
  Reached-Stands oldest start s' t (next {s} engine_open new_block r a run) =
      let (newest, before) = Reached-Stands oldest start s t r in
      Handled-Stands new_block newest s s' before (
        subst (Ends (λ _ u. Handled ext laws config bm new_block s u) (λ e _. FromInput e) ⊥) run
          (on_native_block-Good ext laws config bm engine_open new_block newest s before a))
