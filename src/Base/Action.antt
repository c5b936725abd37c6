-- ===== src/Base/Action.antt =====
-- A handler: explicit state and exceptions. The state comes back after a throw too, since what
-- was written stays written.
use mathlib.Core.Path.{◌≡◌, refl, ap}
use mathlib.Core.Bool.{Bool, true, false}
use mathlib.Core.Option.{Option, none, some}
use eos_evm_node.Base.Tests.{if◌then◌else◌}

-- How a call ends: it returns, it throws, or it has run into undefined behaviour, such as `back()`
-- of an empty container.
pub data Outcome (E A : Type 0) : Type 0 where
  ok : A → Outcome E A
  throw : E → Outcome E A
  undefined : Outcome E A

-- `S` is what the call may change, `E` what it may throw.
abbrev pub Action : Type 0 → Type 0 → Type 0 → Type 0
Action S E A = S → Outcome E A × S

module _ {S E A : Type 0} where
  abbrev pub pure : A → Action S E A
  pure a s = (ok a, s)

  abbrev pub raise : E → Action S E A
  raise e s = (throw e, s)

  abbrev pub undefined_behaviour : Action S E A
  undefined_behaviour s = (undefined, s)

  abbrev pub gets : (S → A) → Action S E A
  gets f s = (ok (f s), s)

  abbrev pub or_raise : Option A → E → Action S E A
  or_raise none e s = (throw e, s)
  or_raise (some a) e s = (ok a, s)

module _ {S E : Type 0} where
  abbrev pub put : S → Action S E (Unit {0})
  put s' s = (ok tt, s')

  abbrev pub modify : (S → S) → Action S E (Unit {0})
  modify f s = (ok tt, f s)

  abbrev pub raise_if : Bool → E → Action S E (Unit {0})
  raise_if b e s = (if b then throw e else ok tt, s)

infixl 5 ◌>>=◌ ◌>>◌
abbrev pub ◌>>=◌ : {S E A B : Type 0} → Action S E A → (A → Action S E B) → Action S E B
◌>>=◌ m f s =
    let (r, s') = m s in
    elim r [ ok a ↦ f a s' | throw e ↦ (throw e, s') | undefined ↦ (undefined, s') ]

abbrev pub ◌>>◌ : {S E A B : Type 0} → Action S E A → Action S E B → Action S E B
m >> k = m >>= λ _. k

-- A call that neither reads nor writes the state.
abbrev pub of_outcome : {S E A : Type 0} → Outcome E A → Action S E A
of_outcome r s = (r, s)

-- How a call ended: `Q` of what it returned, `X` of what it threw, and `U` if it is undefined.
abbrev pub Ends :
    {S E A : Type 0} → (A → S → Type 0) → (E → S → Type 0) → Type 0 → Outcome E A × S → Type 0
Ends Q X U (ok a, s) = Q a s
Ends Q X U (throw e, s) = X e s
Ends Q X U (undefined, s) = U

module _ {S E A B : Type 0} (Q : A → S → Type 0) (R : B → S → Type 0) (X : E → S → Type 0)
    (U : Type 0) (f : A → Action S E B) where
  bind_Ends :
      (r : Outcome E A × S)
      → Ends Q X U r
      → ((a : A) (s : S) → Q a s → Ends R X U (f a s))
      → Ends R X U (((λ _. r) >>= f) r.1)
  bind_Ends (ok a, s) h k = k a s h
  bind_Ends (throw e, s) h k = h
  bind_Ends (undefined, s) h k = h

  -- The rule of a sequence: what the first call ensures is what the second one starts from.
  pub >>=-Ends :
      (m : Action S E A) (s : S)
      → Ends Q X U (m s)
      → ((a : A) (s' : S) → Q a s' → Ends R X U (f a s'))
      → Ends R X U ((m >>= f) s)
  >>=-Ends m s h k = bind_Ends (m s) h k

module _ {S E A : Type 0} (Q R : A → S → Type 0) (X Y : E → S → Type 0) (U : Type 0) where
  -- The rule of consequence.
  pub Ends-mono :
      (r : Outcome E A × S)
      → Ends Q X U r
      → ((a : A) (s : S) → Q a s → R a s)
      → ((e : E) (s : S) → X e s → Y e s)
      → Ends R Y U r
  Ends-mono (ok a, s) h q x = q a s h
  Ends-mono (throw e, s) h q x = x e s h
  Ends-mono (undefined, s) h q x = h

-- The state is a part of a larger one.
pub Ends-map :
    {S T E A : Type 0} (g : S → T) (Q : A → T → Type 0) (X : E → T → Type 0) (U : Type 0)
    (r : Outcome E A × S)
    → Ends (λ a s. Q a (g s)) (λ e s. X e (g s)) U r
    → Ends Q X U (r.0, g r.1)
Ends-map g Q X U (ok a, s) h = h
Ends-map g Q X U (throw e, s) h = h
Ends-map g Q X U (undefined, s) h = h

pub >>=-ok :
    {S E A B : Type 0} (m : Action S E A) (f : A → Action S E B) (s : S) {a : A} {s' : S}
    → m s ≡ (ok a, s')
    → (m >>= f) s ≡ f a s'
>>=-ok m f s h = ap (λ r. ((λ _. r) >>= f) s) h

-- Inversion of a sequence that has returned.
pub >>=-eq-ok :
    {S E A B : Type 0} (m : Action S E A) (f : A → Action S E B) (s : S) {b : B} {s'' : S}
    → (m >>= f) s ≡ (ok b, s'')
    → (a : A) × (s' : S) × (m s ≡ (ok a, s')) × (f a s' ≡ (ok b, s''))
>>=-eq-ok {S} {E} {A} {B} m f s {b} {s''} h = invert (m s) refl h
  where
    invert :
        (r : Outcome E A × S)
        → m s ≡ r
        → ((λ _. r) >>= f) s ≡ (ok b, s'')
        → (a : A) × (s' : S) × (m s ≡ (ok a, s')) × (f a s' ≡ (ok b, s''))
    invert (ok a, s') e h = (a, s', e, h)
    invert (throw x, s') e h = cc
    invert (undefined, s') e h = cc

-- What holds of the state holds after the call too, however it ends.
abbrev pub Keeps : {S E A : Type 0} → (S → Type 0) → Action S E A → Type 0
Keeps {S} P m = (s : S) → P s → P (m s).1

module _ {S E A B : Type 0} (P : S → Type 0) (f : A → Action S E B)
    (k : (a : A) → Keeps P (f a)) where
  after-Keeps : (r : Outcome E A × S) → P r.1 → P (((λ _. r) >>= f) r.1).1
  after-Keeps (ok a, s) h = k a s h
  after-Keeps (throw e, s) h = h
  after-Keeps (undefined, s) h = h

  pub >>=-Keeps : (m : Action S E A) → Keeps P m → Keeps P (m >>= f)
  >>=-Keeps m h s p = after-Keeps (m s) (h s p)

-- What holds of the state before, and what then holds after the call, however it ends.
abbrev pub Leads : {S E A : Type 0} → (S → Type 0) → (S → Type 0) → Action S E A → Type 0
Leads {S} P Q m = (s : S) → P s → Q (m s).1

module _ {S E A B : Type 0} (P Q R : S → Type 0) (weaken : (s : S) → Q s → R s)
    (f : A → Action S E B) (k : (a : A) → Leads Q R (f a)) where
  after-Leads : (r : Outcome E A × S) → Q r.1 → R (((λ _. r) >>= f) r.1).1
  after-Leads (ok a, s) h = k a s h
  after-Leads (throw e, s) h = weaken s h
  after-Leads (undefined, s) h = weaken s h

  pub >>=-Leads : (m : Action S E A) → Leads P Q m → Leads P R (m >>= f)
  >>=-Leads m h s p = after-Leads (m s) (h s p)

pub if-Keeps :
    {S E A : Type 0} (P : S → Type 0) (b : Bool) (m k : Action S E A)
    → Keeps P m
    → Keeps P k
    → Keeps P (if b then m else k)
if-Keeps P true m k hm hk = hm
if-Keeps P false m k hm hk = hk

-- A call that ends as required leaves the state as both kinds of ends require.
pub Ends-Keeps :
    {S E A : Type 0} (Q : A → S → Type 0) (X : E → S → Type 0) (P : S → Type 0)
    (r : Outcome E A × S)
    → Ends Q X ⊥ r
    → ((a : A) (s : S) → Q a s → P s)
    → ((e : E) (s : S) → X e s → P s)
    → P r.1
Ends-Keeps Q X P (ok a, s) h q x = q a s h
Ends-Keeps Q X P (throw e, s) h q x = x e s h
Ends-Keeps Q X P (undefined, s) h q x = absurd h
