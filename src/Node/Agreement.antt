-- ===== src/Node/Agreement.antt =====
-- The EVM blocks that reach the execution engine, in src/blockchain_plugin.cpp, against those that
-- src/block_conversion_plugin.cpp has published.
use mathlib.Core.List.{append_assoc}
use eos_evm_node.Base.{
  ℕ, ◌≡◌, refl, sym, ap, subst, ◌∙◌, ◌⊎◌, inl, inr, Bool, true, false, All, List, [], ◌∷◌, ◌++◌,
  reverse, Option, none, some, get_elem?, length, arith,
}
use eos_evm_node.Base.Action.{Outcome, ok, throw, undefined}
use eos_evm_node.Channels.{NativeBlock}
use eos_evm_node.Evm.{EvmBlock, Header, ChainConfig}
use eos_evm_node.External.{External, Laws}
use eos_evm_node.Conversion.State.{State, Error}
use eos_evm_node.Conversion.Handler.{load_head, on_native_block}
use eos_evm_node.Conversion.Delivery.Order.{Anchored, Ordered, Delivered, on_native_block-Delivered}
use eos_evm_node.Blockchain.{Call, EngineError}
use eos_evm_node.Blockchain.Pending.{inserted, Counts, on_evm_block-Counts}
use eos_evm_node.Blockchain.Quits.{on_evm_block-Quits}
use eos_evm_node.Dispatch.{dispatch}
use eos_evm_node.Node.{Node, receive, deliver, deliver_block}
use eos_evm_node.Node.Queue.{next_waiting}

module _ {Tx : Type 0} (ext : External Tx) (config : Option ChainConfig)
    (fails : List (Call Tx) → Call Tx → Option EngineError) where
  -- The blocks inserted are the oldest of those published, in the same order; the others wait.
  pub record Agrees (start : ℕ) (n : Node Tx) : Type 0 where
    pub waiting : List (EvmBlock Tx)
    pub split : n.conversion.published ≡ waiting ++ inserted n.chain.calls
    pub seen : n.delivered ≡ length (inserted n.chain.calls)
    pub counts : Counts n.chain
    pub ordered : Delivered ext start n.conversion

  -- The same, unless the application was asked to quit because the engine has failed.
  abbrev pub Agreement : ℕ → Node Tx → Type 0
  Agreement start n = Agrees start n ⊎ (n.chain.quits ≡ true)

  -- Whatever the handler does, only the state of the conversion and the request to quit change.
  received :
      (new_block : NativeBlock) (n : Node Tx)
      → (q : Bool) × (receive ext config fails new_block n ≡ record n {
        conversion = (on_native_block ext config n.chain.engine_open new_block n.conversion).1;
        quits = q;
      })
  unfolding receive dispatch
  received new_block n =
      ended (on_native_block ext config n.chain.engine_open new_block n.conversion) refl
    where
      ended :
          (r : Outcome Error (Unit {0}) × State Tx)
          → on_native_block ext config n.chain.engine_open new_block n.conversion ≡ r
          → (q : Bool) × (receive ext config fails new_block n
              ≡ record n { conversion = r.1; quits = q })
      ended (ok done, s) e = (n.quits, rw (e, receive) refl)
      ended (throw x, s) e = (true, rw (e, receive) refl)
      ended (undefined, s) e = (n.quits, rw (e, receive) refl)

  receive-Agrees :
      (laws : Laws ext) (start : ℕ) (new_block : NativeBlock) (n : Node Tx)
      → Agrees start n
      → Agrees start (receive ext config fails new_block n)
  receive-Agrees laws start new_block n a =
      let (q, same) = received new_block n in
      let ((fresh, grown), ordered) =
        on_native_block-Delivered ext laws config n.chain.engine_open start new_block n.conversion
          a.ordered in
      subst (Agrees start) (sym same) (record {
        waiting = fresh ++ a.waiting;
        split = grown ∙ ap (λ t. fresh ++ t) a.split ∙ sym (append_assoc fresh a.waiting _);
        seen = a.seen;
        counts = a.counts;
        ordered = ordered;
      })

  deliver-Agreement :
      (start : ℕ) (n : Node Tx) → Agrees start n → Agreement start (deliver ext config fails n)
  unfolding deliver deliver_block
  deliver-Agreement start n a = next (get_elem? (reverse n.conversion.published) n.delivered) refl
    where
      next :
          (o : Option (EvmBlock Tx))
          → get_elem? (reverse n.conversion.published) n.delivered ≡ o
          → Agreement start (deliver_block ext config fails n o)
      next none e = inl a
      next (some block) e =
          let (left, parts) = next_waiting a.waiting (inserted n.chain.calls) (
            subst (λ t. get_elem? (reverse t) (length (inserted n.chain.calls)) ≡ some block)
              a.split
              (subst (λ k. get_elem? (reverse n.conversion.published) k ≡ some block) a.seen e)) in
          elim (on_evm_block-Counts ext fails n.conversion.evm_lib block n.chain a.counts) [
            | inl (counts, same, waits, more) ↦ inl (record {
              waiting = left;
              split =
                  a.split
                  ∙ ap (λ t. t ++ inserted n.chain.calls) parts
                  ∙ append_assoc left (block ∷ []) (inserted n.chain.calls)
                  ∙ ap (λ t. left ++ t) (sym more);
              seen = omega (arith, a.seen, ap length more);
              counts = counts;
              ordered = a.ordered;
            })
            | inr (refused, quits) ↦ inr quits
          ]

-- The node before anything has been received.
abbrev pub idle : {Tx : Type 0} → State Tx → Node Tx
idle s = record {
  conversion = s;
  chain = record { engine_open = false; block_count = 0; calls = []; quits = false };
  delivered = 0;
  quits = false;
}

-- After `load_head` nothing has been published or inserted, and the blocks kept are at the start's
-- height.
pub load_head-Agrees :
    {Tx : Type 0} (ext : External Tx) (config : Option ChainConfig)
    (fails : List (Call Tx) → Call Tx → Option EngineError) (start_block : EvmBlock Tx)
    (genesis_header : Header) (s : State Tx)
    → s.evm_blocks ≡ []
    → s.published ≡ []
    → Agrees ext config fails start_block.header.number
        (idle ((load_head (some start_block) (some genesis_header) s).1))
unfolding load_head
load_head-Agrees ext config fails start_block genesis_header s ee none_yet = record {
  waiting = [];
  split = none_yet;
  seen = refl;
  counts = (refl, omega arith);
  ordered = (
    subst (Ordered ext start_block.header.number) (sym none_yet) tt,
    subst (λ t. All (Anchored ext start_block.header.number s.published) (start_block ∷ t)) (sym ee)
        (inl refl, tt),
  );
}

-- The steps of the node, in any order: a native block comes in, or a published EVM block goes on.
pub data Reaches {Tx : Type 0} (ext : External Tx) (config : Option ChainConfig)
    (fails : List (Call Tx) → Call Tx → Option EngineError) (start : Node Tx)
    : Node Tx → Type 0 where
  here : Reaches ext config fails start start
  receives :
      {n : Node Tx} (new_block : NativeBlock)
      → Reaches ext config fails start n
      → Reaches ext config fails start (receive ext config fails new_block n)
  delivers :
      {n : Node Tx}
      → Reaches ext config fails start n
      → Reaches ext config fails start (deliver ext config fails n)

module _ {Tx : Type 0} (ext : External Tx) (laws : Laws ext) (config : Option ChainConfig)
    (fails : List (Call Tx) → Call Tx → Option EngineError) (start : ℕ) where
  quits-delivers :
      (n : Node Tx) → n.chain.quits ≡ true → (deliver ext config fails n).chain.quits ≡ true
  unfolding deliver deliver_block
  quits-delivers n q = next (get_elem? (reverse n.conversion.published) n.delivered)
    where
      next : (o : Option (EvmBlock Tx)) → (deliver_block ext config fails n o).chain.quits ≡ true
      next none = q
      next (some block) = on_evm_block-Quits ext fails n.conversion.evm_lib block n.chain q

  quits-receives :
      (new_block : NativeBlock) (n : Node Tx)
      → n.chain.quits ≡ true
      → (receive ext config fails new_block n).chain.quits ≡ true
  quits-receives new_block n q =
      let (r, same) = received ext config fails new_block n in
      ap (λ (m : Node Tx). m.chain.quits) same ∙ q

  Ordered-suffix :
      (waiting seen : List (EvmBlock Tx))
      → Ordered ext start (waiting ++ seen)
      → Ordered ext start seen
  Ordered-suffix [] seen h = h
  Ordered-suffix (b ∷ waiting) seen h = Ordered-suffix waiting seen h.1

  Reaches-Agreement :
      (first n : Node Tx)
      → Agrees ext config fails start first
      → Reaches ext config fails first n
      → Agreement ext config fails start n
  Reaches-Agreement first n a here = inl a
  Reaches-Agreement first n a (receives {n = m} new_block r) =
      elim (Reaches-Agreement first m a r) [
        | inl agrees ↦ inl (receive-Agrees ext config fails laws start new_block m agrees)
        | inr quits ↦ inr (quits-receives new_block m quits)
      ]
  Reaches-Agreement first n a (delivers {n = m} r) = elim (Reaches-Agreement first m a r) [
    | inl agrees ↦ deliver-Agreement ext config fails start m agrees
    | inr quits ↦ inr (quits-delivers m quits)
  ]

  -- From a node where the blocks inserted into the engine are the oldest of those published, in order,
  -- and each published block is at the start's height or comes after its parent: in every node that
  -- any sequence of received and delivered blocks reaches, the blocks inserted are the oldest of those
  -- published, in the same order, and each of them is at the start's height or was inserted after its
  -- parent, unless the engine has failed and the application was asked to quit.
  pub Reaches-Ordered :
      (first n : Node Tx)
      → Agrees ext config fails start first
      → Reaches ext config fails first n
      → ((waiting : List (EvmBlock Tx)) × (n.conversion.published
            ≡ waiting ++ inserted n.chain.calls)
          × Ordered ext start (inserted n.chain.calls))
        ⊎ (n.chain.quits ≡ true)
  Reaches-Ordered first n a r = elim (Reaches-Agreement first n a r) [
    | inl agrees ↦ inl (
      agrees.waiting,
      agrees.split,
      Ordered-suffix agrees.waiting (inserted n.chain.calls)
          (subst (Ordered ext start) agrees.split agrees.ordered.0),
    )
    | inr quits ↦ inr quits
  ]
