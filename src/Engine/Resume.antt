-- ===== src/Engine/Resume.antt =====
-- The block from which src/engine_plugin.cpp lets the program resume.
use mathlib.Core.Option.{some-injective}
use eos_evm_node.Base.{
  ℕ, ◌≤◌, ◌<◌, ◌≡◌, refl, sym, ap, subst, ◌∙◌, ◌⊎◌, inl, inr, true, false, Bool-cases, ltb, Option,
  none, some, arith,
}
use eos_evm_node.Evm.{EvmBlock, Header}
use eos_evm_node.Engine.{
  Database, has_eos_id, capped, default_height, effective_height, block_of, block_from,
  get_canonical_block_at_height,
}
use eos_evm_node.Engine.Search.{IsLastBelow, find_block_with_valid_eos_id-IsLastBelow}

-- What silkworm's tables promise: a canonical header is stored under its number, and a block that is
-- read by its number has the canonical header of this number.
pub record IsConsistent {Tx : Type 0} (db : Database Tx) : Type 0 where
  pub numbered : (n : ℕ) (h : Header) → db.canonical_header n ≡ some h → h.number ≡ n
  pub canonical :
      (n : ℕ) (b : EvmBlock Tx)
      → db.block_by_number n ≡ some b
      → db.canonical_header n ≡ some b.header

abbrev pub AtMost : ℕ → Option ℕ → Type 0
AtMost n none = Unit
AtMost n (some m) = n ≤ m

-- The least of the numbers that are there, of which there is one.
abbrev pub IsLeast : ℕ → Option ℕ → Option ℕ → Type 0
IsLeast n l h = AtMost n l × AtMost n h × ((l ≡ some n) ⊎ (h ≡ some n))

abbrev pub number_of : Option Header → Option ℕ
number_of none = none
number_of (some h) = some h.number

-- The height that the search starts from: the one asked for, or the lower of the stored height and
-- the head, as far as they are there.
abbrev pub IsTarget : {Tx : Type 0} → Database Tx → Option ℕ → ℕ → Type 0
IsTarget db (some height) target = target ≡ height
IsTarget db none target = IsLeast target db.stored_evm_lib (number_of db.head_header)

module _ {Tx : Type 0} (db : Database Tx) where
  default_height-IsLeast :
      (lib : Option ℕ) (header : Option Header) (target : ℕ)
      → default_height db lib header ≡ some target
      → IsLeast target lib (number_of header)
  unfolding default_height capped
  default_height-IsLeast (some lib) none target e =
      (ground arith, tt, inl (ap some (some-injective _ _ e)))
  default_height-IsLeast (some lib) (some h) target e = elim (Bool-cases (ltb h.number lib)) [
    | inl over ↦
        let same : h.number ≡ target = some-injective _ _ (rw over at e) in
        (ground arith, ground arith, inr (ap some same))
    | inr under ↦
        let same : lib ≡ target = some-injective _ _ (rw under at e) in
        (ground arith, ground arith, inl (ap some same))
  ]
  default_height-IsLeast none none target e = cc
  default_height-IsLeast none (some h) target e =
      (tt, ground arith, inr (ap some (some-injective _ _ e)))

  effective_height-IsTarget :
      (height : Option ℕ) (target : ℕ)
      → effective_height db height ≡ some target
      → IsTarget db height target
  unfolding effective_height
  effective_height-IsTarget (some height) target e = sym (some-injective height target e)
  effective_height-IsTarget none target e =
      default_height-IsLeast db.stored_evm_lib db.head_header target e

  -- The block is canonical and the highest with an id from the target downwards, or that of height 0.
  pub record IsResumed (height : Option ℕ) (b : EvmBlock Tx) : Type 0 where
    pub target : ℕ
    pub aimed : IsTarget db height target
    pub low : b.header.number ≤ target
    pub on_chain : db.canonical_header b.header.number ≡ some b.header
    pub identified : (has_eos_id (some b.header) ≡ true) ⊎ (b.header.number ≡ 0)
    pub skipped :
        (k : ℕ) → b.header.number < k → k ≤ target → has_eos_id (db.canonical_header k) ≡ false

  module _ (consistent : IsConsistent db) where
    read_at :
        (height : Option ℕ) (target m : ℕ) (b : EvmBlock Tx) (o : Option Header)
        → IsTarget db height target
        → IsLastBelow db target m
        → db.canonical_header m ≡ o
        → block_of db o ≡ some b
        → IsResumed height b
    unfolding block_of
    read_at height target m b none aimed last e found = cc
    read_at height target m b (some h) aimed (low, at, skipped, stop) e found = record {
      target = target;
      aimed = aimed;
      low = subst (λ n. n ≤ target) (sym same) low;
      on_chain = ap db.canonical_header same ∙ there;
      identified = elim stop [
        | inl here ↦ inl (ap has_eos_id (sym there) ∙ here)
        | inr first ↦ inr (same ∙ first)
      ];
      skipped = λ k above high. skipped k (subst (λ n. n < k) same above) high;
    }
      where
        numbered : h.number ≡ m
        numbered = consistent.numbered m h e

        there : db.canonical_header m ≡ some b.header
        there = ap db.canonical_header (sym numbered) ∙ consistent.canonical h.number b found

        same : b.header.number ≡ m
        same = consistent.numbered m b.header there

    -- On a consistent database, the search for the block to resume from starts at the height asked for
    -- or, if none is, at the lower of the stored height and the head (at the one there is, if the other
    -- is missing). The block is canonical, not above that height, and has an Antelope block id or height
    -- 0; no canonical header above it, up to that height, has an id.
    pub get_canonical_block_at_height-IsResumed :
        (height : Option ℕ) (b : EvmBlock Tx)
        → get_canonical_block_at_height db height ≡ some b
        → IsResumed height b
    unfolding get_canonical_block_at_height block_from
    get_canonical_block_at_height-IsResumed height b found =
        from (effective_height db height) refl found
      where
        from :
            (o : Option ℕ)
            → effective_height db height ≡ o
            → block_from db o ≡ some b
            → IsResumed height b
        from none e h = cc
        from (some target) e h =
            let (m, last) = find_block_with_valid_eos_id-IsLastBelow db target in
            read_at height target m b (db.canonical_header m)
              (effective_height-IsTarget height target e) last refl
              (ap (block_of db) (sym last.1) ∙ h)
