-- ===== src/Runner.antt =====
-- trouveur/runner/service.py: when the nightly run is queued, what a run does in which order, and
-- how long it waits for its arrivals. What the stages themselves do is a parameter.
pub mod Slot
pub mod Night
pub mod Waiting
mod Tests
use trouveur.Prelude.{
  ℕ, zero, suc, ◌+◌, Bool, true, false, not, ◌&&◌, ◌||◌, Option, some, none, List, [], ◌∷◌, ◌++◌,
  map, ltb, leb, ◌==◌, nat_eq, is_none, is_some, length, take, filter, any, sort_by, if◌then◌else◌,
}
use trouveur.Db.{Text, Tx}
use trouveur.Runs.{
  Run, Runs, RunStatus, RunStage, RunTrigger, success, failed, cancelled, prepare, match_, email,
  discover, scheduled, enqueue_run,
}

-- the settings that decide on a slot: `slot_today` is the time of today's slot, by the clock's zone
pub record Schedule : Type 0 where
  pub run_daily : Bool
  pub slot_today : ℕ → ℕ

unfoldable pub is_scheduled_run_due : Schedule → ℕ → Option ℕ → Bool
is_scheduled_run_due settings now last_queued_at =
    if not settings.run_daily
    then false
    else if ltb now (settings.slot_today now)
    then false
    else elim last_queued_at [ none ↦ true | some last ↦ ltb last (settings.slot_today now) ]

-- ORDER BY queued_at DESC
abbrev pub queued_later : Run → Run → Bool
queued_later r s = ltb s.queued_at r.queued_at

unfoldable pub recent_runs : ℕ → Runs → List Run
recent_runs limit rs = take limit (sort_by queued_later rs.rows)

abbrev pub is_scheduled : Run → Bool
is_scheduled r = elim r.trigger [ RunTrigger.scheduled ↦ true | RunTrigger.manual ↦ false ]

abbrev pub last_queued : List Run → Option ℕ
last_queued [] = none
last_queued (r ∷ runs) = some r.queued_at

-- `clock` is the process's own time, and `t.now` the time at which the transaction began.
unfoldable pub maybe_enqueue_scheduled : Schedule → Tx → ℕ → Runs → Runs
unfolding is_scheduled_run_due recent_runs enqueue_run
maybe_enqueue_scheduled settings t clock rs =
    let last = last_queued (filter is_scheduled (recent_runs 50 rs)) in
    if is_scheduled_run_due settings clock last then (enqueue_run t scheduled none rs).0 else rs

-- what a user's match leaves for the verdict
pub record MatchReport : Type 0 where
  pub user_id : ℕ
  pub scored : ℕ
  pub errors : List Text

abbrev is_failed : MatchReport → Bool
is_failed report = elim report.errors [ [] ↦ false | e ∷ es ↦ report.scored == 0 ]

-- _match_verdict, the messages apart
unfoldable pub match_verdict : List MatchReport → RunStatus
match_verdict matches = if any is_failed matches then failed else success

-- the calls of a run, in the words of the functions called
pub data Action : Type 0 where
  swept prepared asked judged dated matched checked digested counted reported shared : Action
  judged_cards : Action
  staged : RunStage → Action
  finished : RunStatus → Action

-- What the calls answer: which of them raise, whether the reader cancelled, and how they end.
pub record Answers : Type 0 where
  pub raises : Action → Bool
  pub is_cancelled : Bool
  pub stops_prepared : Bool
  pub has_smtp : Bool
  pub matches : List MatchReport

-- A call, and whether an exception leaves it.
abbrev pub Call : Type 0
Call = Action × Bool

-- a call in a try of its own, which lets no exception out, and one in none
abbrev pub isolated : Action → Call
isolated action = (action, false)

abbrev pub bare : Answers → Action → Call
bare a action = (action, a.raises action)

-- The calls made, and whether an exception ended them.
unfoldable pub perform : List Call → List Call × Bool
perform [] = ([], false)
perform (call ∷ calls) =
    let rest = perform calls in if call.1 then (call ∷ [], true) else (call ∷ rest.0, rest.1)

-- _execute of a run with a sweep
abbrev pub discovery : Answers → RunStatus → List Call
discovery a status =
    isolated counted
    ∷ bare a reported
    ∷ bare a (staged discover)
    ∷ isolated shared
    ∷ isolated judged_cards
    ∷ bare a (finished status)
    ∷ []

abbrev pub editions : Answers → List Call
editions a =
    bare a (staged match_)
      ∷ isolated judged
      ∷ bare a dated
      ∷ bare a matched
      ∷ isolated checked
      ∷ (if a.has_smtp then bare a (staged email) ∷ bare a digested ∷ [] else [])
    ++ discovery a (match_verdict a.matches)

unfoldable pub execute_sweep : Answers → List Call
unfolding match_verdict
execute_sweep a =
    bare a swept
    ∷ (if a.is_cancelled
        then bare a (finished cancelled) ∷ []
        else bare a (staged prepare)
          ∷ bare a prepared
          ∷ bare a asked
          ∷ (if a.stops_prepared then bare a (finished cancelled) ∷ [] else editions a))

-- _execute_match_only
unfoldable pub execute_match_only : Answers → List Call
unfolding match_verdict
execute_match_only a =
    bare a (staged match_) ∷ bare a matched ∷ bare a (finished (match_verdict a.matches)) ∷ []

unfoldable pub execute : Run → Answers → List Call
unfolding execute_sweep execute_match_only
execute run a = if is_some run.match_user_id then execute_match_only a else execute_sweep a

-- The part of _tick that executes a claimed run: an exception finishes it as failed, outside any
-- try.
unfoldable pub execute_claimed : Run → Answers → List Call
unfolding execute perform
execute_claimed run a =
    let done = perform (execute run a) in
    if done.1 then done.0 ++ bare a (finished failed) ∷ [] else done.0

-- prepare_arrivals over a state of the queues, its rounds bounded by fuel
module _ {ℓ} {State : Type ℓ} (waiting : State → ℕ) (should_stop is_late : State → Bool)
    (drain : State → State × Bool) where
  unfoldable pub prepare_arrivals : ℕ → State → Option (State × ℕ)
  prepare_arrivals zero s = none
  prepare_arrivals (suc fuel) s =
      let drained = drain s in
      let rest = prepare_arrivals fuel drained.0 in
      if waiting s == 0
      then some (s, 0)
      else if should_stop s
      then some (s, waiting s)
      else if is_late drained.0 || not drained.1
      then some (drained.0, waiting s)
      else rest
