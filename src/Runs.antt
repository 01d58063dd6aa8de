-- ===== src/Runs.antt =====
-- The queue of pipeline runs in trouveur/db/queries/admin.py, with the states of
-- trouveur/models/operations.py.
pub mod States
pub mod Claims
mod Tests
use trouveur.Prelude.{
  ℕ, ◌+◌, ◌-◌, ◌*◌, Bool, true, false, not, ◌&&◌, ◌||◌, Option, some, none, List, [], ◌∷◌, ◌++◌,
  String, ltb, leb, ◌==◌, nat_eq, is_none, is_some, length, filter, take, count, update_where, find,
  elem, any, sort_by, if◌then◌else◌, ◌≡◌, ◌↔◌, arith, Eq,
}
use trouveur.Db.{Text, second, Tx}

pub data RunStatus : Type 0 where
  queued running success failed cancelled : RunStatus

pub data RunStage : Type 0 where
  fetch prepare match_ email discover : RunStage

pub data RunTrigger : Type 0 where
  scheduled manual : RunTrigger

abbrev pub is_queued : RunStatus → Bool
is_queued queued = true
is_queued s = false

abbrev pub is_running : RunStatus → Bool
is_running running = true
is_running s = false

-- a row of pipeline_run
pub record Run : Type 0 where
  pub id : ℕ
  pub trigger : RunTrigger
  pub match_user_id : Option ℕ
  pub status : RunStatus
  pub queued_at : ℕ
  pub not_before : ℕ
  pub started_at : Option ℕ
  pub finished_at : Option ℕ
  pub attempts : ℕ
  pub cancel_requested : Bool
  pub sources_total : Option ℕ
  pub sources_done : ℕ
  pub current_source : Option Text
  pub stage : Option RunStage
  -- the latest entry of a stage counts
  pub stage_started : List (RunStage × ℕ)
  pub error : Option Text

pub record Runs : Type 0 where
  pub rows : List Run
  pub next_run : ℕ

unfoldable pub new_run : Tx → RunTrigger → Option ℕ → ℕ → Run
new_run t trigger match_user_id id = record {
  id = id;
  trigger = trigger;
  match_user_id = match_user_id;
  status = queued;
  queued_at = t.now;
  not_before = t.now;
  started_at = none;
  finished_at = none;
  attempts = 0;
  cancel_requested = false;
  sources_total = none;
  sources_done = 0;
  current_source = none;
  stage = none;
  stage_started = [];
  error = none;
}

unfoldable pub enqueue_run : Tx → RunTrigger → Option ℕ → Runs → Runs × ℕ
unfolding new_run
enqueue_run t trigger match_user_id rs = (
  record {
    rows = rs.rows ++ new_run t trigger match_user_id rs.next_run ∷ [];
    next_run = rs.next_run + 1;
  },
  rs.next_run,
)

-- `ready`, without its ORDER BY; the rows that others hold locked are passed over
abbrev pub is_ready : Tx → List ℕ → Run → Bool
is_ready t locked r = is_queued r.status && leb r.not_before t.now && not (elem r.id locked)

abbrev run_before : Run → Run → Bool
run_before r s = ltb r.not_before s.not_before || (r.not_before == s.not_before && leb r.id s.id)

unfoldable pub start_run : Tx → Run → Run
start_run t r = record r { status = running; started_at = some t.now; attempts = r.attempts + 1 }

unfoldable pub start_first : Tx → List Run → Runs → Runs × Option Run
unfolding start_run
start_first t [] rs = (rs, none)
start_first t (r ∷ later) rs = (
  record rs { rows = update_where (λ s. s.id == r.id) (start_run t) rs.rows },
  some (start_run t r),
)

unfoldable pub claim_next_run : Tx → List ℕ → Runs → Runs × Option Run
unfolding start_first
claim_next_run t locked rs =
    start_first t (sort_by run_before (filter (is_ready t locked) rs.rows)) rs

abbrev at_run : ℕ → Run → Bool
at_run run_id r = r.id == run_id

-- `(error or "")[:4000] or None`
abbrev error_text : Option Text → Option Text
error_text none = none
error_text (some []) = none
error_text (some (c ∷ cs)) = some (take 4000 (c ∷ cs))

unfoldable pub finish_run : Tx → ℕ → RunStatus → Option Text → Runs → Runs
finish_run t run_id status error rs = record rs {
  rows =
      update_where (at_run run_id)
        (λ r. record r { status = status; finished_at = some t.now; error = error_text error })
        rs.rows;
}

abbrev at_queued : ℕ → Run → Bool
at_queued run_id r = r.id == run_id && is_queued r.status

abbrev at_running : ℕ → Run → Bool
at_running run_id r = r.id == run_id && is_running r.status

unfoldable pub request_cancel : Tx → ℕ → Runs → Runs × Bool
request_cancel t run_id rs =
    if any (at_queued run_id) rs.rows
    then (
      record rs {
        rows =
            update_where (at_queued run_id)
              (λ r. record r {
                status = cancelled;
                finished_at = some t.now;
                cancel_requested = true;
              })
              rs.rows;
      },
      true,
    )
    else (
      record rs {
        rows = update_where (at_running run_id) (λ r. record r { cancel_requested = true }) rs.rows;
      },
      any (at_running run_id) rs.rows,
    )

abbrev entering : Tx → RunStage → Run → Run
entering t stage r = record r {
  stage = some stage;
  stage_started = (stage, t.now) ∷ r.stage_started;
}

unfoldable pub start_run_progress : Tx → ℕ → ℕ → Runs → Runs
start_run_progress t run_id sources_total rs = record rs {
  rows =
      update_where (at_run run_id)
        (λ r. entering t fetch (record r {
          sources_total = some sources_total;
          sources_done = 0;
          current_source = none;
        }))
        rs.rows;
}

unfoldable pub set_run_stage : Tx → ℕ → RunStage → Runs → Runs
set_run_stage t run_id stage rs = record rs {
  rows = update_where (at_run run_id) (entering t stage) rs.rows;
}

unfoldable pub advance_run_progress : ℕ → ℕ → Option Text → Runs → Runs
advance_run_progress run_id done current_source rs = record rs {
  rows =
      update_where (at_run run_id)
        (λ r. record r { sources_done = done; current_source = current_source }) rs.rows;
}

abbrev pub six_hours : ℕ
six_hours = 21600 * second

abbrev started_before : Option ℕ → ℕ → Bool
started_before none cutoff = false
started_before (some started) cutoff = ltb started cutoff

-- The text of the error is a parameter.
unfoldable pub fail_orphaned_runs : Tx → Text → Runs → Runs × ℕ
fail_orphaned_runs t disappeared rs =
    let orphaned =
      (λ (r : Run). is_running r.status && started_before r.started_at (t.now - six_hours)) in
    (
      record rs {
        rows =
            update_where orphaned
              (λ r. record r {
                status = failed;
                finished_at = some t.now;
                error = some disappeared;
              })
              rs.rows;
      },
      count orphaned rs.rows,
    )
