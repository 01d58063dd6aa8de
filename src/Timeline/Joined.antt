-- ===== src/Timeline/Joined.antt =====
-- The steps of a run lie end to end and none runs backwards.
use trouveur.Prelude.{
  ℕ, ◌≤◌, ◌≡◌, Bool, true, false, ◌&&◌, some, List, [], ◌∷◌, ◌++◌, ◌==◌, nat_eq, coalesce, sort_by,
  insert_by, beq_same, leb, All, All-sort_by, All-insert_by, All-filter, All-map, arith, Bool-cases,
  inl, inr, map,
}
use trouveur.Runs.{Run, RunStage}
use trouveur.Timeline.{Span, zip_spans, spans_of, step_spans, latest_of, began_before}

-- The spans cover the time from `start` to `end`: each starts where the one before it stops, and
-- stops no earlier than it started.
abbrev pub covers : ℕ → List Span → ℕ → Bool
covers start [] end = false
covers start (span ∷ []) end = span.start == start && leb start span.stop && span.stop == end
covers start (span ∷ next ∷ spans) end =
    span.start == start && leb start span.stop && covers span.stop (next ∷ spans) end

-- The times of the entries ascend.
IsAscending : List (RunStage × ℕ) → Type 0
IsAscending [] = Unit
IsAscending (e ∷ began) = All (λ (d : RunStage × ℕ). e.1 ≤ d.1) began × IsAscending began

insert_by-IsAscending :
    (e : RunStage × ℕ) (began : List (RunStage × ℕ))
    → IsAscending began
    → IsAscending (insert_by began_before e began)
unfolding insert_by IsAscending
insert_by-IsAscending e [] up = (tt, tt)
insert_by-IsAscending e (d ∷ began) up = elim (Bool-cases (began_before d e)) [
  | inl later ↦
      let le : d.1 ≤ e.1 = ground (arith, later) in
      rw later (
        All-insert_by began_before (λ (c : RunStage × ℕ). d.1 ≤ c.1) e began le up.0,
        insert_by-IsAscending e began up.1,
      )
  | inr first ↦
      let le : e.1 ≤ d.1 = ground (arith, first) in
      rw first (
        (le, All-map (λ (c : RunStage × ℕ). d.1 ≤ c.1) (λ c h. omega (arith, h, le)) began up.0),
        up,
      )
]

sort_by-IsAscending : (began : List (RunStage × ℕ)) → IsAscending (sort_by began_before began)
unfolding sort_by IsAscending
sort_by-IsAscending [] = tt
sort_by-IsAscending (e ∷ began) =
    insert_by-IsAscending e (sort_by began_before began) (sort_by-IsAscending began)

-- The moment lies within the run.
abbrev pub IsWithin : ℕ → ℕ → RunStage × ℕ → Type 0
IsWithin start end e = (start ≤ e.1) × (e.1 ≤ end)

-- From any start, the entries after the first bound the spans.
zip_spans-covers :
    (start end : ℕ) (e : RunStage × ℕ) (began : List (RunStage × ℕ))
    → start ≤ end
    → All (IsWithin start end) began
    → IsAscending began
    → covers start
        (zip_spans (e ∷ began) (start ∷ map (λ d. d.1) began) (map (λ d. d.1) began ++ end ∷ []))
        end
      ≡ true
unfolding zip_spans IsAscending
zip_spans-covers start end e [] le within up =
    rw (beq_same start, beq_same end) (ground (arith, le))
zip_spans-covers start end e (d ∷ []) le within up =
    rw (beq_same start, beq_same d.1, beq_same end) (ground (arith, within.0))
zip_spans-covers start end e (d ∷ c ∷ began) le within up =
    let inner = both d.1 end (c ∷ began) up.0 within.1 in
    let rest = zip_spans-covers d.1 end d (c ∷ began) (within.0.1) inner up.1 in
    rw (beq_same start) (ground (arith, within.0, rest))
  where
    both :
        (low high : ℕ) (xs : List (RunStage × ℕ))
        → All (λ (x : RunStage × ℕ). low ≤ x.1) xs
        → All (IsWithin start high) xs
        → All (IsWithin low high) xs
    both low high [] above inside = tt
    both low high (x ∷ xs) above inside = ((above.0, inside.0.1), both low high xs above.1 inside.1)

spans_of-covers :
    (start end : ℕ) (began : List (RunStage × ℕ))
    → start ≤ end
    → All (IsWithin start end) began
    → IsAscending began
    → covers start (spans_of start began end) end ≡ true
unfolding spans_of IsAscending
spans_of-covers start end [] le within up = rw (beq_same start, beq_same end) (ground (arith, le))
spans_of-covers start end (e ∷ began) le within up =
    zip_spans-covers start end e began le within.1 up.1

latest_of-All :
    (P : RunStage × ℕ → Type 0) (entries : List (RunStage × ℕ))
    → All P entries
    → All P (latest_of entries)
unfolding latest_of
latest_of-All P [] h = tt
latest_of-All P (e ∷ entries) h =
    (h.0, All-filter P _ (latest_of entries) (latest_of-All P entries h.1))

-- Where a run has started, and its stages were entered between its start and its end, or now while
-- it has none, its steps cover that time: each starts where the one before it stopped and stops no
-- earlier than it started.
pub step_spans-covers :
    (run : Run) (now started : ℕ)
    → run.started_at ≡ some started
    → started ≤ coalesce run.finished_at now
    → All (IsWithin started (coalesce run.finished_at now)) run.stage_started
    → covers started (step_spans run now) (coalesce run.finished_at now) ≡ true
unfolding step_spans
step_spans-covers run now started begun le within =
    let end = coalesce run.finished_at now in
    rw (begun, step_spans)
      (spans_of-covers started end (sort_by began_before (latest_of run.stage_started)) le
        (All-sort_by began_before (IsWithin started end) (latest_of run.stage_started)
          (latest_of-All (IsWithin started end) run.stage_started within))
        (sort_by-IsAscending (latest_of run.stage_started)))
