-- ===== src/Node/Queue.antt =====
-- Reading a log from its oldest entry on.
use mathlib.Core.Option.{some-injective}
use mathlib.Core.List.{reverse-cons, reverse-append, reverse-reverse}
use eos_evm_node.Base.{
  ◌≡◌, refl, sym, ap, ap₂, ◌∙◌, List, [], ◌∷◌, ◌++◌, reverse, some, get_elem?, length,
  length-append, arith,
}

module _ {A : Type 0} where
  length-reverse : (xs : List A) → length (reverse xs) ≡ length xs
  length-reverse [] = refl
  length-reverse (x ∷ xs) =
      rw (reverse-cons x xs) (omega (arith, length-append (reverse xs) (x ∷ []), length-reverse xs))

  get_elem?-append : (xs ys : List A) → get_elem? (xs ++ ys) (length xs) ≡ get_elem? ys 0
  get_elem?-append [] ys = refl
  get_elem?-append (x ∷ xs) ys = get_elem?-append xs ys

  -- The next entry after those that have been read is the oldest of those that wait.
  pub next_waiting :
      (waiting seen : List A) {x : A}
      → get_elem? (reverse (waiting ++ seen)) (length seen) ≡ some x
      → (left : List A) × (waiting ≡ left ++ x ∷ [])
  next_waiting waiting seen {x} e = first_of (reverse waiting) refl (
      sym (get_elem?-append (reverse seen) (reverse waiting))
      ∙ ap₂ get_elem? (sym (reverse-append waiting seen)) (length-reverse seen)
      ∙ e)
    where
      first_of :
          (ws : List A)
          → reverse waiting ≡ ws
          → get_elem? (reverse waiting) 0 ≡ some x
          → (left : List A) × (waiting ≡ left ++ x ∷ [])
      first_of [] w h = absurd (cc (rw w at h))
      first_of (y ∷ ys) w h =
          let same : y ≡ x = some-injective y x (rw w at h) in
          (
            reverse ys,
            sym (reverse-reverse waiting)
                ∙ ap reverse w
                ∙ reverse-cons y ys
                ∙ ap (λ t. reverse ys ++ t ∷ []) same,
          )
