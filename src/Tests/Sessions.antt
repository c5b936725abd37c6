-- ===== src/Tests/Sessions.antt =====
-- The callbacks of src/ship_receiver_plugin.cpp at concrete answers.
use eos_evm_node.Base.{ℕ, ◌<◌, ◌≡◌, ◌≢◌, refl, ◌⊎◌, true, false, List, [], ◌∷◌, none, some, arith}
use eos_evm_node.Base.Action.{undefined, Ends}
use eos_evm_node.Ship.Append.{BlockResult, to_native}
use eos_evm_node.Ship.Connection.{initial, reset_connection, record_read}
use eos_evm_node.Ship.Session.{
  Session, idle, resolving, reading, failed, replied, Answers, startup, on_event, run_events,
  gives_up,
}
use eos_evm_node.Ship.Session.Progress.{Sound, left, Reads}
use eos_evm_node.Ship.Session.Memory.{Remembers, run_events-Remembers}
use eos_evm_node.Ship.Session.Stall.{BringsNothing, on_event-Advances, run_events-quits}

abbrev started : Session
started = record {
  receiver = record {
    connected = true;
    retry_count = 0;
    max_retry = 1;
    last_lib = 0;
    last_block_num = 0;
    start_from_canonical_height = none;
    attempts = 1;
    quits = false;
  };
  pending = resolving;
  published = [];
}

startup_run : startup (initial none 1) ≡ started
unfolding startup reset_connection gives_up initial
startup_run = refl

abbrev refused : Answers ℕ
refused = record {
  resolve_fails = false;
  connect_fails = true;
  initial_read_fails = false;
  abi_loads = true;
  status = failed;
  start_block = none;
  send_fails = false;
  read = failed;
}

abbrev block_result : BlockResult
block_result = record {
  this_block = some (101, 7);
  prev_block = some 6;
  block = some 14;
  lib = 90;
  traces = [];
}

abbrev reads_block : Answers ℕ
reads_block = record refused { read = replied block_result }

on_event-Advances_example :
    Ends
      (λ _ s'.
        (s'.pending ≢ idle → Sound s'.receiver)
        × (s'.pending ≡ idle → s'.receiver.quits ≡ true)
        × ((left s' < left (record started { pending = reading }))
            ⊎ Reads 5 1 2 3 reads_block.read (record started { pending = reading }) s'))
      (λ _ s'. s'.pending ≡ idle)
      ((res : BlockResult) × (reads_block.read ≡ replied res) × (to_native 5 1 2 3 res ≡ undefined))
      (on_event 5 1 2 3 reads_block (record started { pending = reading }))
on_event-Advances_example =
    on_event-Advances 5 1 2 3 reads_block (record started { pending = reading }) (λ e. cc e)
      (refl, omega arith, omega arith)

abbrev four : List (Answers ℕ)
four = refused ∷ refused ∷ refused ∷ refused ∷ []

nothing_comes : BringsNothing 5 1 2 3 refused
nothing_comes res e = cc e

run_events-quits_example :
    Ends
      (λ _ s'. (s'.pending ≡ idle) × (s'.receiver.quits ≡ true))
      (λ _ s'. s'.pending ≡ idle)
      ⊥
      (run_events 5 1 2 3 four started)
run_events-quits_example =
    run_events-quits 5 1 2 3 four started
      (nothing_comes, (nothing_comes, (nothing_comes, (nothing_comes, tt)))) (λ e. cc e)
      (refl, omega arith, omega arith) (omega arith)

-- A block is read, and then the connection breaks.
abbrev reads_then_breaks : List (Answers ℕ)
reads_then_breaks = reads_block ∷ refused ∷ []

abbrev reading_first : Session
reading_first = record started { pending = reading }

numbers_after_break :
    let s = (run_events 5 1 2 3 reads_then_breaks reading_first).1 in
    (s.receiver.last_block_num ≡ 101) × (s.receiver.last_lib ≡ 90) × (s.pending ≡ resolving)
unfolding run_events to_native reset_connection record_read
numbers_after_break = (refl, refl, refl)

run_events-Remembers_example :
    Ends
      (λ _ s'. Remembers 5 1 2 3 s')
      (λ _ s'. Remembers 5 1 2 3 s')
      Unit
      (run_events 5 1 2 3 reads_then_breaks reading_first)
run_events-Remembers_example =
    run_events-Remembers 5 1 2 3 reads_then_breaks reading_first ((refl, refl), tt)
