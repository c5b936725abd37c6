-- ===== src/Ship/Session/Stall.antt =====
-- The receiver of src/ship_receiver_plugin.cpp over a sequence of callbacks: it never waits for
-- nothing, and gives up when no block comes.
use eos_evm_node.Base.{
  ℕ, ◌-◌, ◌*◌, ◌≤◌, ◌<◌, ◌≡◌, ◌≢◌, refl, sym, ap, subst, ◌⊎◌, inl, inr, true, All, List, [], ◌∷◌,
  arith, length,
}
use eos_evm_node.Base.Action.{Outcome, ok, throw, undefined, Ends, Ends-mono, >>=-Ends}
use eos_evm_node.Ship.Append.{BlockResult, to_native}
use eos_evm_node.Ship.Connection.{Receiver}
use eos_evm_node.Ship.Session.{
  Session, Pending, idle, resolving, reading, Reply, replied, Answers, SessionError, on_resolved,
  on_read, run_callback, on_event, run_events,
}
use eos_evm_node.Ship.Session.Progress.{
  Sound, left, left_of, Alive, Stops, Quiet, Reads, Undefined, on_resolved-Quiet, on_read-Settles,
}

Pending-cases : (p : Pending) → (p ≡ idle) ⊎ (p ≢ idle)
Pending-cases idle = inl refl
Pending-cases resolving = inr (λ e. cc e)
Pending-cases reading = inr (λ e. cc e)

left-positive : (p : Pending) (r : Receiver) → p ≢ idle → 1 ≤ left_of p r
left-positive idle r h = absurd (h refl)
left-positive resolving r h = omega arith
left-positive reading r h = omega arith

-- An operation waits on a sound receiver, or the receiver has given up.
abbrev Waits : Session → Type 0
Waits s = ((s.pending ≢ idle) × Sound s.receiver) ⊎ ((s.pending ≡ idle) × (s.receiver.quits ≡ true))

abbrev Ended : Outcome SessionError (Unit {0}) × Session → Type 0
Ended = Ends (λ _ s'. (s'.pending ≡ idle) × (s'.receiver.quits ≡ true)) Stops ⊥

module _ (core_account pushtx_n evmtx_n configchange_n : ℕ) where
  -- What an event leads to: the session is alive, and has read a block or comes closer to giving up.
  abbrev pub Advances : Reply BlockResult → Session → Unit {0} → Session → Type 0
  Advances read s _ s' =
      (s'.pending ≢ idle → Sound s'.receiver)
      × Alive s'
      × ((left s' < left s) ⊎ Reads core_account pushtx_n evmtx_n configchange_n read s s')

  module _ {Tx : Type 0} where
    run_callback-Advances :
        (p : Pending) (answers : Answers Tx) (s : Session)
        → s.pending ≡ p
        → p ≢ idle
        → Sound s.receiver
        → Ends
            (Advances answers.read s)
            Stops
            (Undefined core_account pushtx_n evmtx_n configchange_n answers)
            (run_callback core_account pushtx_n evmtx_n configchange_n p answers
              (record s { pending = idle }))
    unfolding run_callback
    run_callback-Advances idle answers s at busy sound = absurd (busy refl)
    run_callback-Advances resolving answers s at busy sound =
        settled (on_resolved answers (record s { pending = idle }))
          (on_resolved-Quiet (record s { pending = idle }) sound refl answers)
      where
        settled :
            (r : Outcome SessionError (Unit {0}) × Session)
            → Quiet (left_of reading s.receiver) r
            → Ends
                (Advances answers.read s)
                Stops
                (Undefined core_account pushtx_n evmtx_n configchange_n answers)
                r
        settled (ok done, s') k = (k.0, k.1, inl (rw at (omega (arith, k.2))))
        settled (throw e, s') k = k
        settled (undefined, s') k = absurd k
    run_callback-Advances reading answers s at busy sound =
        Ends-mono
          (λ _ s'.
            (s'.pending ≢ idle → Sound s'.receiver)
            × Alive s'
            × ((left s' ≤ 2 * (s.receiver.max_retry - s.receiver.retry_count))
                ⊎ Reads core_account pushtx_n evmtx_n configchange_n answers.read
                    (record s { pending = idle }) s'))
          (Advances answers.read s) Stops Stops
          (Undefined core_account pushtx_n evmtx_n configchange_n answers)
          (on_read core_account pushtx_n evmtx_n configchange_n answers.read
            (record s { pending = idle }))
          (on_read-Settles core_account pushtx_n evmtx_n configchange_n
            (record s { pending = idle }) answers.read sound refl)
          (λ _ s' k. (k.0, k.1, closer s' k.2)) (λ _ _ k. k)
      where
        closer :
            (s' : Session)
            → (left s' ≤ 2 * (s.receiver.max_retry - s.receiver.retry_count))
              ⊎ Reads core_account pushtx_n evmtx_n configchange_n answers.read
                  (record s { pending = idle })
                  s'
            → (left s' < left s)
              ⊎ Reads core_account pushtx_n evmtx_n configchange_n answers.read s s'
        closer s' (inl low) = inl (rw at (omega (arith, low)))
        closer s' (inr more) = inr more

    -- Where an operation waits on a sound receiver, its callback leaves another one waiting or has
    -- asked the application to quit; it has passed a block on or leaves fewer callbacks to go. After
    -- an exception no operation waits. It is undefined only where `to_native` is.
    pub on_event-Advances :
        (answers : Answers Tx) (s : Session)
        → s.pending ≢ idle
        → Sound s.receiver
        → Ends
            (λ _ s'.
              (s'.pending ≢ idle → Sound s'.receiver)
              × (s'.pending ≡ idle → s'.receiver.quits ≡ true)
              × ((left s' < left s)
                  ⊎ Reads core_account pushtx_n evmtx_n configchange_n answers.read s s'))
            (λ _ s'. s'.pending ≡ idle)
            ((res : BlockResult) × (answers.read ≡ replied res)
              × (to_native core_account pushtx_n evmtx_n configchange_n res ≡ undefined))
            (on_event core_account pushtx_n evmtx_n configchange_n answers s)
    unfolding on_event
    on_event-Advances answers s busy sound =
        run_callback-Advances s.pending answers s refl busy sound

    -- The events bring no message with a block.
    abbrev pub BringsNothing : Answers Tx → Type 0
    BringsNothing answers = (res : BlockResult) → answers.read ≢ replied res

    on_event-idle :
        (answers : Answers Tx) (s : Session)
        → s.pending ≡ idle
        → on_event core_account pushtx_n evmtx_n configchange_n answers s
          ≡ (ok tt, record s { pending = idle })
    unfolding on_event run_callback
    on_event-idle answers s e =
        ap
          (λ p.
            run_callback core_account pushtx_n evmtx_n configchange_n p answers
              (record s { pending = idle }))
          e

    on_event-Waits :
        (answers : Answers Tx) (s : Session)
        → BringsNothing answers
        → Waits s
        → Ends
            (λ _ s'. Waits s' × (left s' ≤ left s - 1))
            Stops
            ⊥
            (on_event core_account pushtx_n evmtx_n configchange_n answers s)
    on_event-Waits answers s none_comes (inr (e, q)) =
        subst (Ends (λ _ s'. Waits s' × (left s' ≤ left s - 1)) Stops ⊥)
          (sym (on_event-idle answers s e)) (inr (refl, q), omega arith)
    on_event-Waits answers s none_comes (inl (busy, sound)) =
        settled (on_event core_account pushtx_n evmtx_n configchange_n answers s)
          (on_event-Advances answers s busy sound)
      where
        settled :
            (r : Outcome SessionError (Unit {0}) × Session)
            → Ends
                (Advances answers.read s)
                Stops
                (Undefined core_account pushtx_n evmtx_n configchange_n answers)
                r
            → Ends (λ _ s'. Waits s' × (left s' ≤ left s - 1)) Stops ⊥ r
        settled (ok done, s') (sound', alive, inl closer) = (
          elim (Pending-cases s'.pending) [
            | inl e ↦ inr (e, alive e)
            | inr ne ↦ inl (ne, sound' ne)
          ],
          omega arith,
        )
        settled (ok done, s') (sound', alive, inr (res, block, came, taken, sent)) =
            absurd (none_comes res came)
        settled (throw e, s') k = k
        settled (undefined, s') (res, came, odd) = absurd (none_comes res came)

    run_events-Ended :
        (events : List (Answers Tx)) (s : Session)
        → All BringsNothing events
        → Waits s
        → left s ≤ length events
        → Ended (run_events core_account pushtx_n evmtx_n configchange_n events s)
    unfolding run_events
    run_events-Ended [] s h (inl (busy, sound)) enough =
        absurd (omega (arith, left-positive s.pending s.receiver busy))
    run_events-Ended [] s h (inr gone) enough = gone
    run_events-Ended (answers ∷ events) s h w enough =
        >>=-Ends (λ _ s'. Waits s' × (left s' ≤ left s - 1))
          (λ _ s'. (s'.pending ≡ idle) × (s'.receiver.quits ≡ true)) Stops ⊥
          (λ _. run_events core_account pushtx_n evmtx_n configchange_n events)
          (on_event core_account pushtx_n evmtx_n configchange_n answers) s
          (on_event-Waits answers s h.0 w)
          (λ _ s' k. run_events-Ended events s' h.1 k.0 (omega (arith, k.1)))

    -- Where no block comes, the receiver gives up after as many callbacks as are left, or after fewer:
    -- it then waits for nothing and has asked the application to quit, or an exception has come up.
    -- It has room for one retry more than its limit in 32 bits.
    pub run_events-quits :
        (events : List (Answers Tx)) (s : Session)
        → All BringsNothing events
        → s.pending ≢ idle
        → Sound s.receiver
        → left s ≤ length events
        → Ends
            (λ _ s'. (s'.pending ≡ idle) × (s'.receiver.quits ≡ true))
            (λ _ s'. s'.pending ≡ idle)
            ⊥
            (run_events core_account pushtx_n evmtx_n configchange_n events s)
    run_events-quits events s none_comes busy sound =
        run_events-Ended events s none_comes (inl (busy, sound))
