-- ===== src/Conversion/Handler/Safety.antt =====
-- The handler of the channel `native_blocks` as a whole, in src/block_conversion_plugin.cpp, over
-- one block and over a sequence of blocks.
use eos_evm_node.Base.{
  ℕ, ◌≤◌, ◌<◌, ◌≡◌, ◌≢◌, refl, sym, ap, subst, ◌∙◌, ◌⊎◌, inl, inr, Bool, true, false, not,
  Bool-cases, All, All-map, All-suffix, All-reverse, find-none, List, ◌∷◌, reverse, Option, none,
  some, arith, ◌==◌, ==→eq, ==-false→ne, lt→leb-false, if◌then◌else◌,
}
use mathlib.Core.List.{reverse-reverse}
use eos_evm_node.Base.Action.{
  Action, Outcome, ok, throw, Ends, Ends-mono, >>=-ok, or_raise, pure, ◌>>=◌,
}
use eos_evm_node.Channels.{NativeBlock}
use eos_evm_node.Evm.{BlockMapping, ChainConfig}
use eos_evm_node.External.{External, Laws}
use eos_evm_node.Conversion.State.{
  State, Error, FromInput, unable_to_find_fork_block, bad_optional_access,
}
use eos_evm_node.Conversion.Content.{num}
use eos_evm_node.Conversion.Invariant.{Removable}
use eos_evm_node.Conversion.Fork.{find_by_id, resolve_fork}
use eos_evm_node.Conversion.Fork.Rewind.{Resolved}
use eos_evm_node.Conversion.Fork.Resolve.{ForkEnds, resolve_fork-ForkEnds}
use eos_evm_node.Conversion.Handler.{
  is_unlinked, link, append_block, on_mapped_block, on_native_block,
}
use eos_evm_node.Conversion.Handler.Append.{CanConfigure, Stands, Took, Takes, append_block-Takes}

-- A block that is not found has a new id.
pub find_by_id-none :
    (id : ℕ) (xs : List NativeBlock) → find_by_id id xs ≡ none → All (λ m. m.id ≢ id) xs
unfolding find_by_id
find_by_id-none id xs e = subst (All (λ m. m.id ≢ id)) (reverse-reverse xs) (
    All-reverse (λ m. m.id ≢ id) (reverse xs)
      (All-map (reverse xs) (λ m h. ==-false→ne _ _ h)
        (find-none (λ nb. nb.id == id) (reverse xs) e)))

module _ {Tx : Type 0} (ext : External Tx) (laws : Laws ext) (config : Option ChainConfig)
    (bm : BlockMapping) where
  -- What the chain promises of a block that it sends: its time is after the genesis and not before
  -- that of its parent, ids do not repeat along a chain, its transactions have no wrapper, and a
  -- configuration comes when the database is open.
  pub record Arrives (engine_open : Bool) (new_block : NativeBlock) (s : State Tx) : Type 0 where
    pub later : bm.genesis_timestamp < new_block.timestamp
    pub after_genesis : 1 ≤ num ext bm new_block
    pub removable : Removable ext bm new_block
    pub can : CanConfigure engine_open new_block
    pub parent_time :
        All (λ m. m.id ≡ new_block.prev → num ext bm m ≤ num ext bm new_block) s.native_blocks
    pub new_id :
        is_unlinked new_block s.native_blocks ≡ false
        → All (λ m. m.id ≢ new_block.id) s.native_blocks

  -- The block is taken in, or it was already there and nothing changes.
  abbrev pub Handled : NativeBlock → State Tx → State Tx → Type 0
  Handled new_block s s' =
      Took ext bm new_block s'
      ⊎ ((dup : NativeBlock) × (find_by_id new_block.id s.native_blocks ≡ some dup) × (s' ≡ s))

  module _ (engine_open : Bool) (new_block newest : NativeBlock) (s : State Tx)
      (t : Stands ext bm newest s) (a : Arrives engine_open new_block s) where
    abbrev Good : Outcome Error (Unit {0}) × State Tx → Type 0
    Good = Ends (λ _ s'. Handled new_block s s') (λ e _. FromInput e) ⊥

    abbrev Good-of_Takes :
        (r : Outcome Error (Unit {0}) × State Tx) → Takes ext bm new_block r → Good r
    Good-of_Takes r h =
        Ends-mono (λ _ s'. Took ext bm new_block s') (λ _ s'. Handled new_block s s')
          (λ e _. FromInput e) (λ e _. FromInput e) ⊥ r h (λ _ s' k. inl k) (λ _ _ k. k)

    is_unlinked-newest :
        (b : Bool)
        → not (newest.id == new_block.prev) ≡ b
        → is_unlinked new_block s.native_blocks ≡ b
    unfolding is_unlinked
    is_unlinked-newest b e = ap (is_unlinked new_block) t.en ∙ e

    -- The parent is `native_blocks.back()`.
    straight-Takes :
        newest.id ≡ new_block.prev
        → Takes ext bm new_block (append_block ext config bm engine_open new_block s)
    straight-Takes e =
        append_block-Takes ext laws config bm engine_open new_block newest t.older t.back t.rest
          a.can
          (record {
            linked = sym e;
            new_id =
                subst (All (λ m. m.id ≢ new_block.id)) t.en
                  (a.new_id (is_unlinked-newest false (ground arith)));
            later = (above, All-map t.older (λ m h. omega (arith, above)) t.valid.rising.0);
            after_genesis = a.after_genesis;
            removable = a.removable;
          })
          t.valid s t.mapped t.en t.ee
      where
        above : num ext bm newest ≤ num ext bm new_block
        above =
            (subst (All (λ m. m.id ≡ new_block.prev → num ext bm m ≤ num ext bm new_block)) t.en
                a.parent_time).0
              e

    -- The parent is another block of the list.
    forked-Takes :
        (f : NativeBlock) (s' : State Tx)
        → find_by_id new_block.id (newest ∷ t.older) ≡ none
        → f.id ≡ new_block.prev
        → Resolved ext bm f (newest ∷ t.older) s s'
        → Takes ext bm new_block (append_block ext config bm engine_open new_block s')
    forked-Takes f s' fresh at r =
        append_block-Takes ext laws config bm engine_open new_block f r.post r.back r.older a.can
          (record {
            linked = sym at;
            new_id =
                All-suffix (λ m. m.id ≢ new_block.id) r.gone (f ∷ r.post)
                  (subst (All (λ m. m.id ≢ new_block.id)) r.split
                    (find_by_id-none new_block.id _ fresh));
            later = (above, All-map r.post (λ m h. omega (arith, above)) r.valid.rising.0);
            after_genesis = a.after_genesis;
            removable = a.removable;
          })
          r.valid s' (ap (λ (u : State Tx). u.bm) r.state ∙ t.mapped)
          (ap (λ (u : State Tx). u.native_blocks) r.state)
          (ap (λ (u : State Tx). u.evm_blocks) r.state)
      where
        above : num ext bm f ≤ num ext bm new_block
        above =
            (All-suffix (λ m. m.id ≡ new_block.prev → num ext bm m ≤ num ext bm new_block) r.gone
                (f ∷ r.post)
                (subst (All (λ m. m.id ≡ new_block.prev → num ext bm m ≤ num ext bm new_block))
                  (t.en ∙ r.split) a.parent_time)).0
              at

    -- What follows `link`.
    abbrev go_on : Bool → Action (State Tx) Error (Unit {0})
    go_on goes_on = if goes_on then append_block ext config bm engine_open new_block else pure tt

    linked_run :
        (r : Outcome Error Bool) (s' : State Tx)
        → link ext config bm engine_open new_block s ≡ (r, s')
        → on_mapped_block ext config bm engine_open new_block s ≡ ((λ _. (r, s')) >>= go_on) s
    unfolding on_mapped_block
    linked_run r s' e = rw (lt→leb-false _ _ a.later) (ap (λ x. ((λ _. x) >>= go_on) s) e)

    link-unlinked :
        not (newest.id == new_block.prev) ≡ true
        → link ext config bm engine_open new_block s ≡ resolve_fork ext bm new_block s
    unfolding link
    link-unlinked e = rw (is_unlinked-newest true e) refl

    link-linked :
        not (newest.id == new_block.prev) ≡ false
        → link ext config bm engine_open new_block s ≡ (ok true, s)
    unfolding link
    link-linked e = rw (is_unlinked-newest false e) refl

    forked-Good :
        not (newest.id == new_block.prev) ≡ true
        → newest.id ≢ new_block.prev
        → ForkEnds ext bm new_block (newest ∷ t.older) s (resolve_fork ext bm new_block s)
        → Good (on_mapped_block ext config bm engine_open new_block s)
    forked-Good u ne (inl (dup, known, run)) =
        subst Good (sym (linked_run (ok false) s (link-unlinked u ∙ run)))
          (inr (dup, ap (find_by_id new_block.id) t.en ∙ known, refl))
    forked-Good u ne (inr (inl (fresh, unknown, run))) =
        subst Good (sym (linked_run (throw unable_to_find_fork_block) s (link-unlinked u ∙ run))) tt
    forked-Good u ne (inr (inr (f, s', fresh, found, at, run, r))) =
        subst Good (sym (linked_run (ok true) s' (link-unlinked u ∙ run)))
          (Good-of_Takes _ (forked-Takes f s' fresh at r))

    on_mapped_block-Good : Good (on_mapped_block ext config bm engine_open new_block s)
    on_mapped_block-Good = elim (Bool-cases (newest.id == new_block.prev)) [
      | inl same ↦
          subst Good (sym (linked_run (ok true) s (link-linked (ap not same))))
            (Good-of_Takes _ (straight-Takes (==→eq _ _ same)))
      | inr apart ↦ forked-Good (ap not apart) (==-false→ne _ _ apart) (
          resolve_fork-ForkEnds ext bm new_block newest t.older t.back t.rest t.valid
            (==-false→ne _ _ apart) s t.en t.ee)
    ]

    -- Where the two chains of the state belong together and the block arrives as the chain promises,
    -- the handler returns with the block as the newest of two chains that belong together, or with
    -- the state as it was, for a block that is in the list already, or it throws an error for what
    -- the block carries or for an unknown parent. It runs into no undefined behaviour, and throws none
    -- of the errors that say that its own lists do not fit together.
    pub on_native_block-Good :
        Ends
          (λ _ s'. Handled new_block s s')
          (λ e _. FromInput e)
          ⊥
          (on_native_block ext config engine_open new_block s)
    unfolding on_native_block
    on_native_block-Good =
        subst Good
          (sym (
            >>=-ok (λ (u : State Tx). or_raise u.bm bad_optional_access u)
              (λ bm'. on_mapped_block ext config bm' engine_open new_block) s
              (ap (λ o. or_raise o bad_optional_access s) t.mapped)))
          on_mapped_block-Good
