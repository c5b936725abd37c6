-- ===== src/Ship/Connection/Retries.antt =====
-- How often the receiver of src/ship_receiver_plugin.cpp reconnects.
use eos_evm_node.Base.{
  ℕ, zero, suc, ◌+◌, ◌%◌, ◌^◌, ◌≤◌, ◌<◌, ◌≡◌, refl, ◌⊎◌, true, false, arith, ltb,
}
use eos_evm_node.Ship.Connection.{Receiver, resolve, retry, reset_connection, resume_from}

-- Resets with no successful read between them.
abbrev pub resets : ℕ → Receiver → Receiver
resets zero r = r
resets (suc n) r = reset_connection (resets n r)

abbrev pub Tried : ℕ → Receiver → Receiver → Type 0
Tried n r r' =
    (r'.connected ≡ true)
    × (r'.retry_count ≡ n)
    × (r'.max_retry ≡ r.max_retry)
    × (r'.attempts ≡ r.attempts + n)
    × (r'.quits ≡ false)

ltb-true : (a b : ℕ) → a < b → ltb a b ≡ true
ltb-true a b h = ground arith

ltb-false : (a b : ℕ) → b ≤ a → ltb a b ≡ false
ltb-false a b h = ground arith

module _ (r : Receiver) (connected : r.connected ≡ true) (fresh : r.retry_count ≡ 0)
    (running : r.quits ≡ false) (low : r.max_retry + 1 < 2 ^ 32) where
  reset_tries :
      (n : ℕ) (q : Receiver) → n < r.max_retry → Tried n r q → Tried (suc n) r (reset_connection q)
  unfolding reset_connection retry resolve
  reset_tries n q h (up, count, limit, attempts, on) =
      rw (up, ltb-false q.max_retry ((q.retry_count + 1) % 2 ^ 32) (omega arith))
        (refl, omega arith, limit, omega arith, on)

  resets-Tried : (n : ℕ) → n ≤ r.max_retry → Tried n r (resets n r)
  resets-Tried zero h = (connected, fresh, refl, omega arith, running)
  resets-Tried (suc n) h = reset_tries n (resets n r) (omega arith) (resets-Tried n (omega arith))

  reset_stops : (q : Receiver) → Tried r.max_retry r q → (reset_connection q).quits ≡ true
  unfolding reset_connection retry resolve
  reset_stops q (up, count, limit, attempts, on) =
      rw (up, ltb-true q.max_retry ((q.retry_count + 1) % 2 ^ 32) (omega arith)) refl

  -- From a receiver that is connected, runs and has a retry count of 0, where `max_retry + 1` fits
  -- into 32 bits: after each of the first `max_retry` resets in a row it has tried to connect once
  -- more and runs, and the reset after them asks the application to quit.
  pub resets-quits :
      ((n : ℕ) → n ≤ r.max_retry → Tried n r (resets n r))
      × ((resets (suc r.max_retry) r).quits ≡ true)
  resets-quits =
      (resets-Tried, reset_stops (resets r.max_retry r) (resets-Tried r.max_retry (omega arith)))

-- After a disconnection the receiver asks for no block beyond the successor of the last irreversible
-- one or of the last one received, and for one of these two, where their numbers fit into 32 bits.
pub resume_from-bounds :
    (last_lib last_block_num : ℕ)
    → last_lib + 1 < 2 ^ 32
    → last_block_num + 1 < 2 ^ 32
    → (resume_from last_lib last_block_num ≤ last_lib + 1)
      × (resume_from last_lib last_block_num ≤ last_block_num + 1)
      × ((resume_from last_lib last_block_num ≡ last_lib + 1)
          ⊎ (resume_from last_lib last_block_num ≡ last_block_num + 1))
unfolding resume_from
resume_from-bounds last_lib last_block_num h k = ground arith
