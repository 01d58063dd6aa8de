-- ===== src/Runner/Tests.antt =====
-- A day of the runner.
use trouveur.Prelude.{
  arith, ℕ, zero, suc, ◌+◌, ◌≡◌, refl, Bool, true, false, some, none, List, [], ◌∷◌, length, filter,
  take, sort_by, insert_by, leb,
}
use trouveur.Db.{Tx}
use trouveur.Runs.{Run, Runs, cancelled, scheduled, manual, new_run, enqueue_run}
use trouveur.Runner.{
  Schedule, Action, finished, Answers, maybe_enqueue_scheduled, recent_runs, is_scheduled_run_due,
  prepare_arrivals,
}
use trouveur.Runner.Slot.{maybe_enqueue_once}
use trouveur.Runner.Waiting.{prepare_arrivals_ends}

abbrev at : ℕ → Tx
at now = record { now = now; locked_items = []; locked_jobs = [] }

abbrev at_seven : Schedule
at_seven = record { run_daily = true; slot_today = λ now. 7 }

abbrev no_runs : Runs
no_runs = record { rows = []; next_run = 1 }

maybe_enqueue_once_example :
    maybe_enqueue_scheduled at_seven (at 9) 10 (maybe_enqueue_scheduled at_seven (at 8) 8 no_runs)
    ≡ maybe_enqueue_scheduled at_seven (at 8) 8 no_runs
unfolding is_scheduled_run_due recent_runs filter take sort_by
maybe_enqueue_once_example =
    maybe_enqueue_once at_seven (at 8) (at 9) 8 10 no_runs tt (omega arith) refl refl

-- The transaction of the first tick began just before the slot, and its check came after it.
queued_twice :
    length
      (maybe_enqueue_scheduled at_seven
        (at 9)
        9
        (maybe_enqueue_scheduled at_seven (at 6) 7 no_runs)).rows
    ≡ 2
unfolding maybe_enqueue_scheduled enqueue_run new_run is_scheduled_run_due recent_runs filter take
    sort_by insert_by
queued_twice = refl

-- Fifty runs for single readers, queued after the scheduled one.
abbrev manual_runs : ℕ → List Run
unfolding new_run
manual_runs zero = []
manual_runs (suc n) = new_run (at (20 + n)) manual (some 1) (2 + n) ∷ manual_runs n

abbrev busy_day : Runs
unfolding manual_runs
busy_day = record { rows = new_run (at 8) scheduled none 1 ∷ manual_runs 50; next_run = 52 }

second_scheduled : length (maybe_enqueue_scheduled at_seven (at 90) 90 busy_day).rows ≡ 52
unfolding maybe_enqueue_scheduled busy_day manual_runs new_run enqueue_run is_scheduled_run_due
    recent_runs filter take sort_by insert_by
second_scheduled = refl

abbrev nightly : Run
unfolding new_run
nightly = new_run (at 8) scheduled none 1

-- The reader stops the run while its arrivals are prepared, and then it cannot be finished so.
abbrev refuses_cancelled : Action → Bool
refuses_cancelled (finished cancelled) = true
refuses_cancelled action = false

abbrev stopped : Answers
stopped = record {
  raises = refuses_cancelled;
  is_cancelled = false;
  stops_prepared = true;
  has_smtp = true;
  matches = [];
}

-- Each round prepares one posting; the deadline is after the second.
abbrev waits : ℕ → ℕ
waits s = s

abbrev never : ℕ → Bool
never s = false

abbrev is_over : ℕ → Bool
is_over s = leb s 3

abbrev one_less : ℕ → ℕ × Bool
one_less zero = (0, false)
one_less (suc n) = (n, true)

prepare_arrivals_ends_example :
    (result : ℕ × ℕ) × (prepare_arrivals waits never is_over one_less 2 5 ≡ some result)
prepare_arrivals_ends_example = prepare_arrivals_ends waits never is_over one_less 1 5 refl
