-- ===== src/Dispatch.antt =====
-- `exit_on_exceptions` of src/channels.hpp: the policy by which a channel runs its callbacks.
use eos_evm_node.Base.{◌≡◌, refl, List, [], ◌∷◌, All}
use eos_evm_node.Base.Action.{Action, Outcome, ok, throw, undefined, Ends, Ends-mono}

-- The loop over the callbacks: one that throws has the application asked to quit, by `quit`, and the
-- loop goes on.
module _ {S E : Type 0} (quit : S → S) where
  unfoldable pub after_callback :
      Action S E (Unit {0}) → Outcome E (Unit {0}) → Action S E (Unit {0})
  after_callback rest (ok done) s = rest s
  after_callback rest (throw e) s = rest (quit s)
  after_callback rest undefined s = (undefined, s)

  unfoldable pub dispatch : List (Action S E (Unit {0})) → Action S E (Unit {0})
  unfolding after_callback
  dispatch [] s = (ok tt, s)
  dispatch (callback ∷ callbacks) s =
      let (r, s') = callback s in after_callback (dispatch callbacks) r s'

  -- Each callback runs once, in the order of the list, on the state that the one before has left, and
  -- on that of `quit` after one that has thrown.
  pub data RunsAll : List (Action S E (Unit {0})) → S → S → Type 0 where
    all_done : {s : S} → RunsAll [] s s
    returns :
        {callback : Action S E (Unit {0})} {callbacks : List (Action S E (Unit {0}))} {s t u : S}
        → callback s ≡ (ok tt, t)
        → RunsAll callbacks t u
        → RunsAll (callback ∷ callbacks) s u
    throws :
        {callback : Action S E (Unit {0})} {callbacks : List (Action S E (Unit {0}))} {s t u : S}
        (e : E)
        → callback s ≡ (throw e, t)
        → RunsAll callbacks (quit t) u
        → RunsAll (callback ∷ callbacks) s u

  module _ (P : S → Type 0) (quit-Keeps : (s : S) → P s → P (quit s)) where
    -- The callback keeps what holds of the state, whether it returns or throws, and is defined.
    abbrev pub Behaves : Action S E (Unit {0}) → Type 0
    Behaves callback = (s : S) → P s → Ends (λ _ s'. P s') (λ _ s'. P s') ⊥ (callback s)

    -- From `s`, the callbacks have all run.
    abbrev Completed : List (Action S E (Unit {0})) → S → Outcome E (Unit {0}) × S → Type 0
    Completed callbacks s = Ends (λ _ s'. RunsAll callbacks s s' × P s') (λ _ _. ⊥) ⊥

    Completed-mono :
        (callbacks longer : List (Action S E (Unit {0}))) (s t : S) (r : Outcome E (Unit {0}) × S)
        → ((u : S) → RunsAll callbacks s u → RunsAll longer t u)
        → Completed callbacks s r
        → Completed longer t r
    Completed-mono callbacks longer s t r more h =
        Ends-mono (λ _ u. RunsAll callbacks s u × P u) (λ _ u. RunsAll longer t u × P u) (λ _ _. ⊥)
          (λ _ _. ⊥) ⊥ r h (λ _ u k. (more u k.0, k.1)) (λ _ _ k. k)

    after_callback-Ends :
        (callback : Action S E (Unit {0})) (callbacks : List (Action S E (Unit {0}))) (s : S)
        (r : Outcome E (Unit {0}) × S)
        → callback s ≡ r
        → Ends (λ _ s'. P s') (λ _ s'. P s') ⊥ r
        → ((t : S) → P t → Completed callbacks t (dispatch callbacks t))
        → Completed (callback ∷ callbacks) s (after_callback (dispatch callbacks) r.0 r.1)
    unfolding after_callback
    after_callback-Ends callback callbacks s (ok done, t) e p h =
        Completed-mono callbacks (callback ∷ callbacks) t s (dispatch callbacks t) (λ u. returns e)
          (h t p)
    after_callback-Ends callback callbacks s (throw x, t) e p h =
        Completed-mono callbacks (callback ∷ callbacks) (quit t) s (dispatch callbacks (quit t))
          (λ u. throws x e) (h (quit t) (quit-Keeps t p))
    after_callback-Ends callback callbacks s (undefined, t) e p h = absurd p

    -- Where each callback keeps a property of the state, whether it returns or throws, and asking the
    -- application to quit keeps it too: the loop returns and keeps it, and has run each callback once,
    -- in the order of the list, also those after one that throws; the application is asked to quit
    -- after each callback that throws, before the next one runs.
    pub dispatch-RunsAll :
        (callbacks : List (Action S E (Unit {0}))) (s : S)
        → All Behaves callbacks
        → P s
        → Ends (λ _ s'. RunsAll callbacks s s' × P s') (λ _ _. ⊥) ⊥ (dispatch callbacks s)
    unfolding dispatch
    dispatch-RunsAll [] s h p = (all_done, p)
    dispatch-RunsAll (callback ∷ callbacks) s h p =
        after_callback-Ends callback callbacks s (callback s) refl (h.0 s p)
          (λ t q. dispatch-RunsAll callbacks t h.1 q)
