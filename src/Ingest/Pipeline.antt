-- ===== src/Ingest/Pipeline.antt =====
-- trouveur/ingest/pipeline.py: sweeping the sources one by one, and closing postings afterwards.
-- The world outside a function is a parameter `World`, and a source's own sweep a function on it.
use trouveur.Prelude.{
  ℕ, ◌+◌, ◌-◌, Bool, true, false, not, ◌&&◌, Option, some, none, List, [], ◌∷◌, ◌++◌, map, String,
  is_some, filter, if◌then◌else◌,
}
use trouveur.Db.{Text, Db, Tx}
use trouveur.Sources.{Failure, SweepOutcome, is_complete, Blocked, by_provider}
use trouveur.Ingest.{close_unseen, close_stale}

-- what went wrong: the exception, the errors that the outcome lists, or in the row of source_sweep
-- what blocked the source
pub data ReportError : Type 0 where
  raised_with : Text → ReportError
  listed : List (Text × Failure) → ReportError
  blocked_by : Blocked → ReportError

pub record SourceReport : Type 0 where
  pub documents : ℕ
  pub upserted : ℕ
  pub changed : ℕ
  pub closed : ℕ
  pub expected : Option ℕ
  pub partitions_total : ℕ
  pub partitions_done : ℕ
  pub partitions_overflowed : ℕ
  pub complete : Bool
  pub error : Option ReportError
  pub blocked : Option Blocked
  pub answered : List Text

-- max(0, expected - documents), where something is expected
abbrev pub coverage_shortfall : SourceReport → ℕ
coverage_shortfall r = elim r.expected [ none ↦ 0 | some expected ↦ expected - r.documents ]

unfoldable pub apply_lifecycle : Tx → String → SweepOutcome → ℕ → ℕ → Db → Db × ℕ
apply_lifecycle t source outcome started_at stale_close db = elim outcome.closable_scopes [
  | [] ↦ close_stale t source stale_close db
  | scope ∷ scopes ↦ close_unseen t source (scope ∷ scopes) started_at db
]

-- How the adapter's sweep ends.
pub data Swept : Type 0 where
  returned : SweepOutcome → Swept
  raised_blocked raised : Text → Swept

-- what the sink has counted
pub record Counts : Type 0 where
  pub documents : ℕ
  pub upserted : ℕ
  pub changed : ℕ

-- SweepOutcome()
abbrev pub nothing_swept : SweepOutcome
nothing_swept = record {
  closable_scopes = [];
  partitions_total = 0;
  partitions_done = 0;
  partitions_overflowed = 0;
  documents = 0;
  scope_results = [];
  expected = none;
  errors = [];
  blocked = none;
}

abbrev outcome_from : Swept → SweepOutcome
outcome_from (returned outcome) = outcome
outcome_from (raised_blocked text) = record nothing_swept { blocked = some (by_provider text) }
outcome_from (raised text) = nothing_swept

abbrev has_raised : Swept → Bool
has_raised (returned outcome) = false
has_raised (raised_blocked text) = true
has_raised (raised text) = true

abbrev error_of : Swept → Option ReportError
error_of (returned outcome) = elim outcome.errors [ [] ↦ none | e ∷ es ↦ some (listed (e ∷ es)) ]
error_of (raised_blocked text) = some (raised_with text)
error_of (raised text) = some (raised_with text)

-- report.error or report.blocked
abbrev error_or : Option ReportError → Option Blocked → Option ReportError
error_or (some error) blocked = some error
error_or none none = none
error_or none (some blocked) = some (blocked_by blocked)

-- the columns that finish_sweep writes
pub record Finished : Type 0 where
  pub ok : Bool
  pub complete : Bool
  pub documents_seen : ℕ
  pub jobs_upserted : ℕ
  pub jobs_closed : ℕ
  pub partitions_total : ℕ
  pub partitions_done : ℕ
  pub partitions_overflowed : ℕ
  pub error : Option ReportError
  pub blocked : Bool

-- `_sweep_source`, after the adapter's sweep, which began at `started_at`, has left the tables as
-- they are: the tables, the report, and the row of source_sweep. What the sink does is persist
-- (Ingest/Persist), and the scopes are recorded by Health.
unfoldable pub sweep_source :
    Tx → String → ℕ → ℕ → Counts → Swept → Db → Db × SourceReport × Finished
unfolding apply_lifecycle
sweep_source t source started_at stale_close counts swept db =
    let outcome = outcome_from swept in
    let (db', closed) =
      if has_raised swept
      then (db, 0)
      else apply_lifecycle t source outcome started_at stale_close db in
    (
      db',
      record {
        documents = counts.documents;
        upserted = counts.upserted;
        changed = counts.changed;
        closed = closed;
        expected = outcome.expected;
        partitions_total = outcome.partitions_total;
        partitions_done = outcome.partitions_done;
        partitions_overflowed = outcome.partitions_overflowed;
        error = error_of swept;
        answered = map (λ r. r.scope) (filter (λ r. not r.is_blocked) outcome.scope_results);
        complete = is_complete outcome;
        blocked = outcome.blocked;
      },
      record {
        ok = not (has_raised swept) && elim outcome.errors [ [] ↦ true | e ∷ es ↦ false ];
        complete = is_complete outcome;
        documents_seen = counts.documents;
        jobs_upserted = counts.upserted;
        jobs_closed = closed;
        partitions_total = outcome.partitions_total;
        partitions_done = outcome.partitions_done;
        partitions_overflowed = outcome.partitions_overflowed;
        error = error_or (error_of swept) outcome.blocked;
        blocked = is_some outcome.blocked;
      },
    )

-- the loop of `sweep_sources`
module _ {ℓ} {World Source Report : Type ℓ} (should_stop : World → World × Bool)
    (sweep_one_source : Source → World → World × Report)
    (source_done : ℕ → Option Source → World → World) where
  pub record IngestReport : Type ℓ where
    pub per_source : List (Source × Report)
    pub skipped : List Source

  abbrev next_of : List Source → Option Source
  next_of [] = none
  next_of (s ∷ later) = some s

  unfoldable pub sweep_sources_from : ℕ → List Source → World → IngestReport → World × IngestReport
  sweep_sources_from index [] world report = (world, report)
  sweep_sources_from index (source ∷ later) world report =
      let (asked, stop) = should_stop world in
      let (swept, r) = sweep_one_source source asked in
      let rest =
        sweep_sources_from (index + 1) later (source_done (index + 1) (next_of later) swept)
          (record report { per_source = report.per_source ++ (source, r) ∷ [] }) in
      if stop then (asked, record report { skipped = source ∷ later }) else rest

  unfoldable pub sweep_sources : List Source → World → World × IngestReport
  unfolding sweep_sources_from
  sweep_sources sources world =
      sweep_sources_from 0 sources world (record { per_source = []; skipped = [] })
