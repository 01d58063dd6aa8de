-- ===== src/Runner/Night.antt =====
-- How a run ends, whatever the calls answer or raise.
use trouveur.Prelude.{Bool, true, false, ◌&&◌, not, ◌||◌, List, [], ◌∷◌, ◌++◌, if◌then◌else◌}
use trouveur.Runs.{failed}
use trouveur.Runner.{Action, finished, Call, perform}

abbrev is_finish : Action → Bool
is_finish (finished status) = true
is_finish action = false

abbrev is_failure : Action → Bool
is_failure (finished failed) = true
is_failure action = false

-- The call finished the run, and returned.
abbrev pub has_finished : Call → Bool
has_finished call = is_finish call.0 && not call.1

-- The run is finished by the last call and by no other, and as failed where a call raised.
abbrev finishes_after : Bool → List Call → Bool
finishes_after raised [] = false
finishes_after raised (call ∷ []) = has_finished call && (not raised || is_failure call.0)
finishes_after raised (call ∷ next ∷ calls) =
    not (has_finished call) && finishes_after (raised || call.1) (next ∷ calls)

abbrev pub finishes_once : List Call → Bool
finishes_once calls = finishes_after false calls

-- Calls of which the last finishes the run and no other does.
abbrev is_plan : List Call → Bool
is_plan [] = false
is_plan (call ∷ []) = is_finish call.0
is_plan (call ∷ next ∷ calls) = not (is_finish call.0) && is_plan (next ∷ calls)

-- The calls as made, with the handler's, which returns.
abbrev settled : List Call → List Call
unfolding perform
settled calls =
    if (perform calls).1
    then (perform calls).0 ++ (finished failed, false) ∷ []
    else (perform calls).0
