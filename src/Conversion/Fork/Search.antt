-- ===== src/Conversion/Fork/Search.antt =====
-- Finding the fork block and dropping the EVM blocks above it, in src/block_conversion_plugin.cpp.
use mathlib.Core.List.{reverse-cons}
use mathlib.Core.Option.{some-injective}
use eos_evm_node.Base.{
  ℕ, ◌≤◌, ◌≡◌, ◌≢◌, refl, sym, ap, subst, ◌∙◌, false, Bool-cases, Option-cases, inl, inr, All,
  All-reverse, find, find-All, find-append_some, find-append_none, List, [], ◌∷◌, ◌++◌, reverse,
  some, arith, ltb, ltb→lt, ltb-false→le, ◌==◌, ==→eq,
}
use eos_evm_node.Channels.{NativeBlock}
use eos_evm_node.Evm.{EvmBlock}
use eos_evm_node.External.{External}
use eos_evm_node.Conversion.Invariant.{Distinct, EvmChain, oldest_number}
use eos_evm_node.Conversion.Fork.{find_by_id, drop_forked}

abbrev Splits : ℕ → List NativeBlock → NativeBlock → Type 0
Splits id xs f =
    (pre : List NativeBlock) × (post : List NativeBlock) × (xs ≡ pre ++ f ∷ post)
    × (f.id ≡ id)
    × All (λ m. m.id ≢ id) pre

-- The block that is found splits the list, and no newer block has its id.
pub find_by_id-Splits :
    (id : ℕ) (xs : List NativeBlock) (f : NativeBlock)
    → Distinct xs
    → find_by_id id xs ≡ some f
    → Splits id xs f
unfolding find_by_id find
find_by_id-Splits id [] f d e = absurd (cc e)
find_by_id-Splits id (x ∷ xs) f d e =
    elim (Option-cases (find (λ (nb : NativeBlock). nb.id == id) (reverse xs))) [
      | inl missing ↦
          let last : find (λ (nb : NativeBlock). nb.id == id) (x ∷ []) ≡ some f =
            sym (find-append_none (λ (nb : NativeBlock). nb.id == id) (reverse xs) (x ∷ []) missing)
            ∙ rw (reverse-cons x xs) at e in
          elim (Bool-cases (x.id == id)) [
            | inl hit ↦
                let same : x ≡ f = some-injective x f (rw hit at last) in
                (
                  [],
                  xs,
                  ap (λ t. t ∷ xs) same,
                  subst (λ (t : NativeBlock). t.id ≡ id) same (==→eq _ _ hit),
                  tt,
                )
            | inr miss ↦ absurd (cc (rw miss at last))
          ]
      | inr (g, found) ↦
          let same : g ≡ f = some-injective g f (
            sym (find-append_some (λ (nb : NativeBlock). nb.id == id) (reverse xs) (x ∷ []) found)
            ∙ rw (reverse-cons x xs) at e) in
          let found_f : find_by_id id xs ≡ some f = found ∙ ap (λ t. some t) same in
          let (pre, post, split, at, others) = find_by_id-Splits id xs f d.1 found_f in
          let apart : f.id ≢ x.id =
            find-All (λ m. m.id ≢ x.id) (λ nb. nb.id == id) (reverse xs)
              (All-reverse (λ m. m.id ≢ x.id) xs d.0) found_f in
          (x ∷ pre, post, ap (λ t. x ∷ t) split, at, (λ h. apart (at ∙ sym h), others))
    ]

ltb-of_le : (k n : ℕ) → n ≤ k → ltb k n ≡ false
ltb-of_le k n h = ground arith

module _ {Tx : Type 0} (ext : External Tx) where
  abbrev pub ForkedCut : ℕ → List (EvmBlock Tx) → Type 0
  ForkedCut k evm =
      (c : EvmBlock Tx) × (older : List (EvmBlock Tx)) × (dropped : List (EvmBlock Tx))
      × (drop_forked k evm ≡ c ∷ older)
      × (c.header.number ≡ k)
      × (evm ≡ dropped ++ c ∷ older)

  -- Down to a height that the chain covers, the loop stops at the block of that height.
  pub drop_forked-ForkedCut :
      (k : ℕ) (b : EvmBlock Tx) (rest : List (EvmBlock Tx))
      → EvmChain ext (b ∷ rest)
      → oldest_number b rest ≤ k
      → k ≤ b.header.number
      → ForkedCut k (b ∷ rest)
  unfolding drop_forked
  drop_forked-ForkedCut k b [] chain low high =
      (b, [], [], rw (ltb-of_le k b.header.number low) refl, omega arith, refl)
  drop_forked-ForkedCut k b (a ∷ rest) chain low high = elim (Bool-cases (ltb k b.header.number)) [
    | inl more ↦
        let (c, older, dropped, run, at, split) =
          drop_forked-ForkedCut k a rest chain.1 low (omega (arith, ltb→lt _ _ more, chain.0.0)) in
        (c, older, b ∷ dropped, rw more run, at, ap (λ t. b ∷ t) split)
    | inr done ↦ (b, a ∷ rest, [], rw done refl, omega (arith, ltb-false→le _ _ done), refl)
  ]
