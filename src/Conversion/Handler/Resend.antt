-- ===== src/Conversion/Handler/Resend.antt =====
-- Blocks that come again, as they do after a reconnection: the handler of
-- src/block_conversion_plugin.cpp on blocks that it keeps.
use mathlib.Core.List.{head-eq_of_cons-eq}
use eos_evm_node.Base.{
  ◌<◌, ◌≡◌, ◌≢◌, refl, sym, ap, subst, ◌∙◌, inl, inr, Bool, true, false, not, All, All-suffix, List,
  [], ◌∷◌, ◌++◌, Option, Option-cases, some, ◌==◌, ==→eq, Bool-cases, lt→leb-false, if◌then◌else◌,
}
use eos_evm_node.Base.Action.{Action, ok, >>=-ok, or_raise, pure, ◌>>=◌, ◌>>◌}
use eos_evm_node.Channels.{NativeBlock}
use eos_evm_node.Evm.{BlockMapping, ChainConfig}
use eos_evm_node.External.{External}
use eos_evm_node.Conversion.State.{State, Error, bad_optional_access}
use eos_evm_node.Conversion.Invariant.{NativeChain, Distinct}
use eos_evm_node.Conversion.Fork.{find_by_id, unless_known, roll_back_to, resolve_fork}
use eos_evm_node.Conversion.Fork.Rewind.{NativeChain-suffix}
use eos_evm_node.Conversion.Handler.{
  is_unlinked, link, append_block, on_mapped_block, on_native_block,
}
use eos_evm_node.Conversion.Handler.Append.{Stands}
use eos_evm_node.Conversion.Handler.Safety.{find_by_id-none}

-- Along a chain of distinct blocks, the newest is not the parent of one that has its parent there.
newest_not_parent :
    (pre : List NativeBlock) (nb parent : NativeBlock) (post : List NativeBlock)
    (newest : NativeBlock) (older : List NativeBlock)
    → NativeChain (pre ++ nb ∷ parent ∷ post)
    → Distinct (pre ++ nb ∷ parent ∷ post)
    → newest ∷ older ≡ pre ++ nb ∷ parent ∷ post
    → newest.id ≢ nb.prev
newest_not_parent [] nb parent post newest older chain distinct e h =
    distinct.0.0 (sym chain.0 ∙ sym h ∙ ap (λ (m : NativeBlock). m.id) (head-eq_of_cons-eq e))
newest_not_parent (x ∷ pre) nb parent post newest older chain distinct e h =
    (All-suffix (λ m. m.id ≢ x.id) pre (nb ∷ parent ∷ post) distinct.0).1.0 (
      sym (NativeChain-suffix pre (nb ∷ parent ∷ post) chain.1).0
      ∙ sym h
      ∙ ap (λ (m : NativeBlock). m.id) (head-eq_of_cons-eq e))

-- The block is kept, and its parent too.
abbrev pub IsKept : List NativeBlock → NativeBlock → Type 0
IsKept natives nb =
    (pre : List NativeBlock) × (parent : NativeBlock) × (post : List NativeBlock) × (natives
      ≡ pre ++ nb ∷ parent ∷ post)

module _ {Tx : Type 0} (ext : External Tx) (config : Option ChainConfig) (engine_open : Bool)
    (bm : BlockMapping) (newest : NativeBlock) (s : State Tx) (t : Stands ext bm newest s) where
  module _ (nb : NativeBlock) (kept : IsKept s.native_blocks nb) where
    split : newest ∷ t.older ≡ kept.0 ++ nb ∷ kept.1 ∷ kept.2
    split = sym t.en ∙ kept.3

    known : (dup : NativeBlock) × (find_by_id nb.id s.native_blocks ≡ some dup)
    known = elim (Option-cases (find_by_id nb.id s.native_blocks)) [
      | inl missing ↦ absurd (
          (All-suffix (λ m. m.id ≢ nb.id) kept.0 (nb ∷ kept.1 ∷ kept.2)
              (subst (All (λ m. m.id ≢ nb.id)) kept.3
                (find_by_id-none nb.id s.native_blocks missing))).0
            refl)
      | inr found ↦ found
    ]

    unlinked : is_unlinked nb s.native_blocks ≡ true
    unfolding is_unlinked
    unlinked = ap (is_unlinked nb) t.en ∙ elim (Bool-cases (newest.id == nb.prev)) [
      | inl same ↦ absurd (
          newest_not_parent kept.0 nb kept.1 kept.2 newest t.older
            (subst NativeChain split t.valid.native_chain) (subst Distinct split t.valid.distinct)
            split (==→eq _ _ same))
      | inr apart ↦ ap not apart
    ]

    resolved : resolve_fork ext bm nb s ≡ (ok false, s)
    unfolding resolve_fork unless_known
    resolved =
        ap
          (λ o.
            unless_known ext bm
              (roll_back_to ext bm s.native_blocks (find_by_id nb.prev s.native_blocks)) o s)
          known.1

    linked : link ext config bm engine_open nb s ≡ (ok false, s)
    unfolding link
    linked = ap (λ b. (if b then resolve_fork ext bm nb else pure true) s) unlinked ∙ resolved

    mapped_unchanged :
        bm.genesis_timestamp < nb.timestamp
        → on_mapped_block ext config bm engine_open nb s ≡ (ok tt, s)
    unfolding on_mapped_block
    mapped_unchanged later = rw (lt→leb-false _ _ later) (
        ap
          (λ x.
            ((λ _. x) >>= λ goes_on.
            if goes_on then append_block ext config bm engine_open nb else pure tt)
              s)
          linked)

    resend_one :
        bm.genesis_timestamp < nb.timestamp
        → on_native_block ext config engine_open nb s ≡ (ok tt, s)
    unfolding on_native_block
    resend_one later =
        >>=-ok (λ (u : State Tx). or_raise u.bm bad_optional_access u)
          (λ bm'. on_mapped_block ext config bm' engine_open nb) s
          (ap (λ o. or_raise o bad_optional_access s) t.mapped)
        ∙ mapped_unchanged later

  abbrev pub receive_all : List NativeBlock → Action (State Tx) Error (Unit {0})
  receive_all [] = pure tt
  receive_all (nb ∷ later) = on_native_block ext config engine_open nb >> receive_all later

  -- In a state whose two chains belong together, the handler leaves the state as it is and returns on
  -- any sequence of blocks that are after the genesis and kept with their parents.
  pub receive_all-resent :
      (blocks : List NativeBlock)
      → All (λ nb. IsKept s.native_blocks nb × (bm.genesis_timestamp < nb.timestamp)) blocks
      → receive_all blocks s ≡ (ok tt, s)
  receive_all-resent [] h = refl
  receive_all-resent (nb ∷ later) h =
      >>=-ok (on_native_block ext config engine_open nb) (λ _. receive_all later) s
        (resend_one nb h.0.0 h.0.1)
      ∙ receive_all-resent later h.1
