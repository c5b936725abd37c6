-- ===== src/Abi/Variant.antt =====
-- What the check of a variant in src/abi_utils.hpp tells of the bytes.
use Prim.Native.String.{String}
use text.Mathlib.Text.{◌==◌ as str_eq}
use text.Mathlib.TextEquality.{eq_iff}
use eos_evm_node.Base.{
  ℕ, zero, suc, ◌≡◌, refl, ap, subst, ◌∙◌, ◌↔◌, false, Bool-cases, inl, inr, Bytes, List, [], ◌∷◌,
  Option, none, some, get_elem?, length, leb, arith,
}
use eos_evm_node.Base.Action.{Action, ok, ◌>>=◌}
use eos_evm_node.Abi.{
  AbiType, AbiError, as_variant, index_of, read_index, check_alternative, check_variant,
  verify_variant,
}

module _ (varuint32_from_bin : Bytes → Option (ℕ × Bytes)) where
  -- The stream starts with the index of the alternative that has the expected name.
  abbrev pub Holds : AbiType → String → Bytes → Bytes → Type 0
  Holds type expected bin rest =
      (index : ℕ) × (v : List String) × (varuint32_from_bin bin ≡ some (index, rest))
      × (as_variant type ≡ some v)
      × (get_elem? v index ≡ some expected)

  check_alternative-ok :
      (expected : String) (o : Option String) (rest : Bytes)
      → check_alternative expected o rest ≡ (ok tt, rest)
      → o ≡ some expected
  unfolding check_alternative
  check_alternative-ok expected none rest h = cc
  check_alternative-ok expected (some name) rest h = elim (Bool-cases (str_eq name expected)) [
    | inl same ↦ ap (λ s. some s) ((eq_iff name expected).0 same)
    | inr apart ↦ absurd (cc (rw apart at h))
  ]

  variant_ok :
      (type : AbiType) (expected : String) (index : ℕ) (rest : Bytes) (o : Option (List String))
      → check_variant index expected o rest ≡ (ok tt, rest)
      → (v : List String) × (o ≡ some v) × (get_elem? v index ≡ some expected)
  unfolding check_variant
  variant_ok type expected index rest none h = cc
  variant_ok type expected index rest (some v) h = elim (Bool-cases (leb (length v) index)) [
    | inl beyond ↦ absurd (cc (rw beyond at h))
    | inr within ↦
        (v, refl, check_alternative-ok expected (get_elem? v index) rest (rw within at h))
  ]

  within :
      (v : List String) (index : ℕ) {x : String}
      → get_elem? v index ≡ some x
      → leb (length v) index ≡ false
  within [] index e = cc
  within (y ∷ v) zero e = ground arith
  within (y ∷ v) (suc index) {x} e =
      let later : leb (length v) index ≡ false = within v index e in ground arith

  -- From the index on.
  abbrev after_index : AbiType → String → ℕ → Action Bytes AbiError (Unit {0})
  after_index type expected index = check_variant index expected (as_variant type)

  after_index-ok :
      (type : AbiType) (expected : String) (index : ℕ) (rest : Bytes) (v : List String)
      → as_variant type ≡ some v
      → get_elem? v index ≡ some expected
      → after_index type expected index rest ≡ (ok tt, rest)
  unfolding check_variant check_alternative
  after_index-ok type expected index rest v alternatives found =
      ap (λ o. check_variant index expected o rest) alternatives
      ∙ rw (within v index found, found, (eq_iff expected expected).1 refl) refl

  unchanged :
      (type : AbiType) (expected : String) (index : ℕ) (left rest : Bytes)
      → after_index type expected index left ≡ (ok tt, rest)
      → left ≡ rest
  unfolding check_variant check_alternative
  unchanged type expected index left rest h = ground arith

  -- The check returns with a rest of the stream exactly if the type is a variant and the stream holds,
  -- before this rest, the index of an alternative of the expected name.
  pub verify_variant-ok :
      (type : AbiType) (expected : String) (bin rest : Bytes)
      → (verify_variant varuint32_from_bin type expected bin ≡ (ok tt, rest))
        ↔ Holds type expected bin rest
  unfolding verify_variant read_index index_of
  verify_variant-ok type expected bin rest = (
    forth (varuint32_from_bin bin) refl,
    λ (index, v, read, alternatives, found).
        ap (λ o. ((λ _. index_of o bin) >>= after_index type expected) bin) read
        ∙ after_index-ok type expected index rest v alternatives found,
  )
    where
      forth :
          (o : Option (ℕ × Bytes))
          → varuint32_from_bin bin ≡ o
          → ((λ _. index_of o bin) >>= after_index type expected) bin ≡ (ok tt, rest)
          → Holds type expected bin rest
      forth none e h = cc
      forth (some (index, left)) e h =
          let same : left ≡ rest = unchanged type expected index left rest h in
          let (v, alternatives, found) =
            variant_ok type expected index rest (as_variant type)
              (subst (λ x. after_index type expected index x ≡ (ok tt, rest)) same h) in
          (index, v, e ∙ ap (λ x. some (index, x)) same, alternatives, found)
