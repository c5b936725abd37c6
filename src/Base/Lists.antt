-- ===== src/Base/Lists.antt =====
-- Lists measured by native numbers, Boolean searches, and the predicate that all entries satisfy.
use Prim.Native.Nat.{ℕ, zero, suc, ◌+◌}
use mathlib.Core.Path.{◌≡◌, refl, sym, subst}
use mathlib.Core.Bool.{Bool, true, false}
use mathlib.Core.List.{List, [], ◌∷◌, ◌++◌, reverse, reverse-cons}
use mathlib.Core.Option.{Option, none, some, some-injective}
use mathlib.Core.Logic.{inl, inr}
use native.Mathlib.Omega.{arith}
use eos_evm_node.Base.Tests.{if◌then◌else◌, Bool-cases}

module _ {ℓ} {A : Type ℓ} where
  abbrev pub length : List A → ℕ
  length [] = 0
  length (x ∷ xs) = suc (length xs)

  abbrev pub get_elem? : List A → ℕ → Option A
  get_elem? [] i = none
  get_elem? (x ∷ xs) zero = some x
  get_elem? (x ∷ xs) (suc i) = get_elem? xs i

  -- `container.empty()`
  abbrev pub is_empty : List A → Bool
  is_empty [] = true
  is_empty (x ∷ xs) = false

  -- The first entry, in the order of the list, that passes the test.
  unfoldable pub find : (A → Bool) → List A → Option A
  find p [] = none
  find p (x ∷ xs) = if p x then some x else find p xs

  abbrev pub All {κ} : (A → Type κ) → List A → Type κ
  All P [] = Unit
  All P (x ∷ xs) = P x × All P xs

  pub All-append {κ} : (P : A → Type κ) (xs ys : List A) → All P xs → All P ys → All P (xs ++ ys)
  All-append P [] ys hx hy = hy
  All-append P (x ∷ xs) ys hx hy = (hx.0, All-append P xs ys hx.1 hy)

  pub All-map {κ μ} :
      {P : A → Type κ} {Q : A → Type μ} (xs : List A) → ((x : A) → P x → Q x) → All P xs → All Q xs
  All-map [] f h = tt
  All-map (x ∷ xs) f h = (f x h.0, All-map xs f h.1)

  pub All-prefix {κ} : (P : A → Type κ) (xs ys : List A) → All P (xs ++ ys) → All P xs
  All-prefix P [] ys h = tt
  All-prefix P (x ∷ xs) ys h = (h.0, All-prefix P xs ys h.1)

  pub All-suffix {κ} : (P : A → Type κ) (xs ys : List A) → All P (xs ++ ys) → All P ys
  All-suffix P [] ys h = h
  All-suffix P (x ∷ xs) ys h = All-suffix P xs ys h.1

  pub All-reverse {κ} : (P : A → Type κ) (xs : List A) → All P xs → All P (reverse xs)
  All-reverse P [] h = tt
  All-reverse P (x ∷ xs) h =
      subst (All P) (sym (reverse-cons x xs))
        (All-append P (reverse xs) (x ∷ []) (All-reverse P xs h.1) (h.0, tt))

  -- The last entry of `x ∷ xs`.
  abbrev pub last_of : A → List A → A
  last_of x [] = x
  last_of x (y ∷ ys) = last_of y ys

  pub last_of-append : (x y : A) (xs : List A) → last_of x (xs ++ y ∷ []) ≡ y
  last_of-append x y [] = refl
  last_of-append x y (z ∷ zs) = last_of-append z y zs

  pub All-last_of {κ} : (P : A → Type κ) (x : A) (xs : List A) → All P (x ∷ xs) → P (last_of x xs)
  All-last_of P x [] h = h.0
  All-last_of P x (y ∷ ys) h = All-last_of P y ys h.1

  pub find-All {κ} :
      (P : A → Type κ) (p : A → Bool) (xs : List A) {x : A} → All P xs → find p xs ≡ some x → P x
  unfolding find
  find-All P p [] h e = cc
  find-All P p (y ∷ ys) {x} h e = elim (Bool-cases (p y)) [
    | inl hit ↦ subst P (some-injective y x (rw hit at e)) h.0
    | inr miss ↦ find-All P p ys h.1 (rw miss at e)
  ]

  pub find_sound : (p : A → Bool) (xs : List A) {x : A} → find p xs ≡ some x → p x ≡ true
  unfolding find
  find_sound p [] e = cc
  find_sound p (y ∷ ys) {x} e = elim (Bool-cases (p y)) [
    | inl hit ↦ subst (λ t. p t ≡ true) (some-injective y x (rw hit at e)) hit
    | inr miss ↦ find_sound p ys (rw miss at e)
  ]

  pub find-append_some :
      (p : A → Bool) (xs ys : List A) {x : A} → find p xs ≡ some x → find p (xs ++ ys) ≡ some x
  unfolding find
  find-append_some p [] ys e = cc
  find-append_some p (z ∷ zs) ys e = elim (Bool-cases (p z)) [
    | inl hit ↦ rw hit (rw hit at e)
    | inr miss ↦ rw miss (find-append_some p zs ys (rw miss at e))
  ]

  pub find-append_none :
      (p : A → Bool) (xs ys : List A) → find p xs ≡ none → find p (xs ++ ys) ≡ find p ys
  unfolding find
  find-append_none p [] ys e = refl
  find-append_none p (z ∷ zs) ys e = elim (Bool-cases (p z)) [
    | inl hit ↦ absurd (cc (rw hit at e))
    | inr miss ↦ rw miss (find-append_none p zs ys (rw miss at e))
  ]

  pub find-none : (p : A → Bool) (xs : List A) → find p xs ≡ none → All (λ x. p x ≡ false) xs
  unfolding find
  find-none p [] e = tt
  find-none p (y ∷ ys) e = elim (Bool-cases (p y)) [
    | inl hit ↦ absurd (cc (rw hit at e))
    | inr miss ↦ (miss, find-none p ys (rw miss at e))
  ]

  pub length-append : (xs ys : List A) → length (xs ++ ys) ≡ length xs + length ys
  length-append [] ys = omega arith
  length-append (x ∷ xs) ys = omega (arith, length-append xs ys)
