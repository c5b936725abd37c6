-- ===== src/Conversion/Prune/Split.antt =====
-- The loops over the oldest blocks, in src/block_conversion_plugin.cpp, as operations on lists.
use mathlib.Core.Option.{some-injective}
use mathlib.Core.List.{reverse-cons, reverse-append, reverse-reverse}
use eos_evm_node.Base.{
  ℕ, ◌≡◌, refl, sym, ap, subst, ◌∙◌, Bool, true, false, Bool-cases, Option-cases, inl, inr, All,
  All-reverse, last_of, last_of-append, List, [], ◌∷◌, ◌++◌, reverse, some, ltb,
}
use eos_evm_node.Channels.{NativeBlock}
use eos_evm_node.Conversion.Prune.{last_irreversible, pop_front_while, drop_oldest_while}

module _ {A : Type 0} (p : A → Bool) where
  -- The first entry of `ys ++ x ∷ []`.
  abbrev first_of : List A → A → A
  first_of [] x = x
  first_of (y ∷ ys) x = y

  -- An entry at the end that fails the test stops the loop.
  pop_front_while-splits :
      (xs : List A) (x : A)
      → p x ≡ false
      → (ys : List A) × (zs : List A) × (pop_front_while p (xs ++ x ∷ []) ≡ some (ys ++ x ∷ []))
        × (xs ≡ zs ++ ys)
        × All (λ z. p z ≡ true) zs
        × (p (first_of ys x) ≡ false)
  unfolding pop_front_while
  pop_front_while-splits [] x h = ([], [], rw h refl, refl, tt, h)
  pop_front_while-splits (y ∷ xs) x h = elim (Bool-cases (p y)) [
    | inl more ↦
        let (ys, zs, run, split, dropped, stop) = pop_front_while-splits xs x h in
        (ys, y ∷ zs, rw more run, ap (λ t. y ∷ t) split, (more, dropped), stop)
    | inr done ↦ (y ∷ xs, [], rw done refl, refl, tt, done)
  ]

  last_of-reverse : (x : A) (ys : List A) → last_of x (reverse ys) ≡ first_of ys x
  last_of-reverse x [] = refl
  last_of-reverse x (y ∷ ys) = rw (reverse-cons y ys) (last_of-append x y (reverse ys))

  -- The newest entry fails the test: the loop drops a run of the oldest entries that pass it.
  pub drop_oldest_while-splits :
      (x : A) (older : List A)
      → p x ≡ false
      → (kept : List A) × (dropped : List A) × (drop_oldest_while p (x ∷ older) ≡ some (x ∷ kept))
        × (older ≡ kept ++ dropped)
        × All (λ z. p z ≡ true) dropped
        × (p (last_of x kept) ≡ false)
  unfolding drop_oldest_while
  drop_oldest_while-splits x older h =
      let (ys, zs, run, split, all, stop) = pop_front_while-splits (reverse older) x h in
      (
        reverse ys,
        reverse zs,
        rw (reverse-cons x older, run) (ap (λ t. some t) (reverse-append ys (x ∷ []))),
        sym (reverse-reverse older) ∙ ap reverse split ∙ reverse-append zs ys,
        All-reverse (λ z. p z ≡ true) zs all,
        rw (last_of-reverse x ys) stop,
      )

pub last_irreversible-All :
    (P : NativeBlock → Type 0) (lib : ℕ) (xs : List NativeBlock) {nb : NativeBlock}
    → All P xs
    → last_irreversible lib xs ≡ some nb
    → P nb
unfolding last_irreversible
last_irreversible-All P lib [] h e = cc
last_irreversible-All P lib (x ∷ xs) {nb} h e = elim (Bool-cases (ltb lib x.block_num)) [
  | inl above ↦ absurd (cc (rw above at e))
  | inr low ↦ elim (Option-cases (last_irreversible lib xs)) [
    | inl alone ↦ subst P (some-injective x nb (rw (low, alone) at e)) h.0
    | inr (best, later) ↦ last_irreversible-All P lib xs h.1 (later ∙ rw (low, later) at e)
  ]
]
