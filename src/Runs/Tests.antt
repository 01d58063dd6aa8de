-- ===== src/Runs/Tests.antt =====
-- Two runs in the queue.
use trouveur.Prelude.{
  ℕ, ◌≡◌, refl, false, some, none, [], ◌==◌, nat_eq, filter, elem, sort_by, insert_by, update_where,
}
use trouveur.Db.{Tx}
use trouveur.Runs.{scheduled, manual, Run, Runs, new_run, start_run, enqueue_run, claim_next_run}
use trouveur.Runs.States.{IsReached, IsValid, at_start, later, enqueues, reached-IsValid}
use trouveur.Runs.Claims.{claim_next_run-claim_next_run}

abbrev at : ℕ → Tx
at now = record { now = now; locked_items = []; locked_jobs = [] }

abbrev nothing : Runs
nothing = record { rows = []; next_run = 1 }

abbrev one : Runs
one = (enqueue_run (at 10) scheduled none nothing).0

abbrev two : Runs
two = (enqueue_run (at 11) manual (some 7) one).0

two-IsReached : IsReached two
two-IsReached =
    later {t = at 11} (later {t = at 10} at_start (enqueues scheduled none))
      (enqueues manual (some 7))

reached-IsValid_example : IsValid two
reached-IsValid_example = reached-IsValid two two-IsReached

abbrev first_run : Run
first_run = start_run (at 20) (new_run (at 10) scheduled none 1)

abbrev second_run : Run
second_run = start_run (at 21) (new_run (at 11) manual (some 7) 2)

first_claimed : (claim_next_run (at 20) [] two).1 ≡ some first_run
unfolding claim_next_run enqueue_run new_run filter elem sort_by insert_by update_where start_run
first_claimed = refl

second_claimed : (claim_next_run (at 21) [] (claim_next_run (at 20) [] two).0).1 ≡ some second_run
unfolding claim_next_run enqueue_run new_run filter elem sort_by insert_by update_where start_run
second_claimed = refl

claim_next_run-claim_next_run_example : (first_run.id == second_run.id) ≡ false
claim_next_run-claim_next_run_example =
    claim_next_run-claim_next_run (at 20) (at 21) [] [] two first_run second_run
      (reached-IsValid two two-IsReached) first_claimed second_claimed
