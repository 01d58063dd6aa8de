-- ===== src/Timeline.antt =====
-- step_spans of trouveur/web/timeline.py: where the time of a run went.
mod Joined
mod Tests
use trouveur.Prelude.{
  ℕ, ◌+◌, Bool, true, false, not, ◌&&◌, ◌||◌, Option, some, none, List, [], ◌∷◌, ◌++◌, map, ltb,
  ◌==◌, nat_eq, any, filter, coalesce, sort_by, if◌then◌else◌,
}
use trouveur.Runs.{Run, RunStage, fetch, prepare, match_, email, discover}

-- `order.index(stage)`, in the order of STEPS
abbrev pub stage_index : RunStage → ℕ
stage_index fetch = 0
stage_index prepare = 1
stage_index match_ = 2
stage_index email = 3
stage_index discover = 4

-- the entries of the dict `stage_started`: of several for one stage the latest, which stands first
unfoldable pub latest_of : List (RunStage × ℕ) → List (RunStage × ℕ)
latest_of [] = []
latest_of (e ∷ entries) =
    e ∷ filter (λ (o : RunStage × ℕ). not (stage_index o.0 == stage_index e.0)) (latest_of entries)

abbrev pub began_before : RunStage × ℕ → RunStage × ℕ → Bool
began_before x y = ltb x.1 y.1 || (x.1 == y.1 && ltb (stage_index x.0) (stage_index y.0))

pub record Span : Type 0 where
  pub stage : Option RunStage
  pub start : ℕ
  pub stop : ℕ

abbrev times : List (RunStage × ℕ) → List ℕ
times = map (λ e. e.1)

-- `starts`: the first step starts with the run
abbrev pub starts_of : ℕ → List (RunStage × ℕ) → List ℕ
starts_of started [] = started ∷ []
starts_of started (e ∷ began) = started ∷ times began

-- `ends`: starts[1:] + [end]
abbrev pub ends_of : List ℕ → ℕ → List ℕ
ends_of [] end = end ∷ []
ends_of (start ∷ starts) end = starts ++ end ∷ []

-- The strict zip, which never raises here: the three lists are equally long.
unfoldable pub zip_spans : List (RunStage × ℕ) → List ℕ → List ℕ → List Span
zip_spans (e ∷ began) (start ∷ starts) (stop ∷ ends) =
    record { stage = some e.0; start = start; stop = stop } ∷ zip_spans began starts ends
zip_spans _ _ _ = []

unfoldable pub spans_of : ℕ → List (RunStage × ℕ) → ℕ → List Span
unfolding zip_spans
spans_of started [] end = record { stage = none; start = started; stop = end } ∷ []
spans_of started (e ∷ began) end =
    let starts = starts_of started (e ∷ began) in zip_spans (e ∷ began) starts (ends_of starts end)

unfoldable pub step_spans : Run → ℕ → List Span
unfolding latest_of spans_of
step_spans run now = elim run.started_at [
  | none ↦ []
  | some started ↦
      spans_of started (sort_by began_before (latest_of run.stage_started))
        (coalesce run.finished_at now)
]
