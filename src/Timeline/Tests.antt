-- ===== src/Timeline/Tests.antt =====
-- A run with two steps.
use trouveur.Prelude.{
  arith, ◌≡◌, refl, true, false, some, none, [], ◌∷◌, map, filter, sort_by, insert_by,
}
use trouveur.Runs.{Run, fetch, prepare, running, scheduled}
use trouveur.Timeline.{Span, step_spans}
use trouveur.Timeline.Joined.{covers, step_spans-covers}

-- The fetch was started twice.
abbrev nightly : Run
nightly = record {
  id = 1;
  trigger = scheduled;
  match_user_id = none;
  status = running;
  queued_at = 5;
  not_before = 5;
  started_at = some 10;
  finished_at = none;
  attempts = 1;
  cancel_requested = false;
  sources_total = none;
  sources_done = 0;
  current_source = none;
  stage = some prepare;
  stage_started = (prepare, 30) ∷ (fetch, 14) ∷ (fetch, 12) ∷ [];
  error = none;
}

two_steps : map (λ (s : Span). s.stop) (step_spans nightly 50) ≡ 30 ∷ 50 ∷ []
unfolding step_spans filter sort_by insert_by
two_steps = refl

step_spans-covers_example : covers 10 (step_spans nightly 50) 50 ≡ true
step_spans-covers_example =
    step_spans-covers nightly 50 10 refl (omega arith)
      ((omega arith, omega arith), ((omega arith, omega arith), ((omega arith, omega arith), tt)))
