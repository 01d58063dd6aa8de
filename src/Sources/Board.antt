-- ===== src/Sources/Board.antt =====
-- trouveur/sources/board.py: sweeping sources that publish a tenant's whole board in one response.
-- The client, the decoder and the adapter's functions are parameters; what goes to the sink is the
-- list of batches, beside the result.
pub mod Answers
pub mod Accounts
pub mod Sweep
use trouveur.Prelude.{
  ℕ, suc, ◌+◌, ◌*◌, Bool, true, false, not, ◌&&◌, Option, some, none, List, [], ◌∷◌, ◌++◌, map, ltb,
  leb, ◌==◌, nat_eq, is_none, coalesce, length, concat, chunks, if◌then◌else◌,
}
use trouveur.Db.{Text}
use trouveur.Sources.{
  Failure, source_blocked, source_refused, fetch_error, Result, ok, err, ◌>>=◌, source_burst,
  Blocked, by_provider, in_a_row, of_tried, ScopeResult, SweepOutcome,
}

abbrev pub batch : ℕ
batch = 200

-- RawDocument, with the fields that a listing sets apart from its source
pub record Document {ℓ} (Row : Type ℓ) : Type ℓ where
  pub external_id : Text
  pub scope : Text
  pub payload : Row

abbrev pub scoped_id : Text → Text → Text
scoped_id scope job_id = scope ++ b':' ∷ job_id

-- What a sweep of one board, or of all, has handed to the sink.
abbrev pub Batches {ℓ} : Type ℓ → Type ℓ
Batches Row = List (List (Document Row))

-- What the adapter and the client bring: the response to a board's request, its status, and how
-- its body reads. `identify` gives the id of a row as text, or nothing where the id is falsy.
pub record Adapter {ℓ} (Response Payload Row : Type ℓ) : Type ℓ where
  pub get : Text → Result Response
  pub status_code : Response → ℕ
  pub decode : Response → Result Payload
  pub extract : Payload → Result (List Row)
  pub identify : Row → Option Text
  pub expected_for : Payload → Option ℕ
  -- what the texts of the failures say
  pub no_such_board : Text → Text
  pub refused_board : Text → Text
  pub bad_status : Text → ℕ → Text

module _ {ℓ} {Response Payload Row : Type ℓ} (a : Adapter Response Payload Row) where
  unfoldable pub documents_of : Text → List Row → List (Document Row)
  documents_of scope [] = []
  documents_of scope (row ∷ rows) = elim (a.identify row) [
    | none ↦ documents_of scope rows
    | some job_id ↦
        record { external_id = scoped_id scope job_id; scope = scope; payload = row }
        ∷ documents_of scope rows
  ]

  -- the status tests of `_sweep_one`, which raise
  unfoldable pub check_status : Text → Response → Result Response
  check_status scope response =
      let status = a.status_code response in
      if status == 404
      then err (fetch_error (a.no_such_board scope))
      else if status == 403
      then err (source_refused (a.refused_board scope))
      else if not (status == 200)
      then err (fetch_error (a.bad_status scope status))
      else ok response

  -- A batch with no identified row is not handed to the sink.
  unfoldable pub sink_batches : Text → List (List Row) → Batches Row
  unfolding documents_of
  sink_batches scope [] = []
  sink_batches scope (rows ∷ rest) = elim (documents_of scope rows) [
    | [] ↦ sink_batches scope rest
    | d ∷ ds ↦ (d ∷ ds) ∷ sink_batches scope rest
  ]

  -- `_sweep_one`: the batches sunk, how many documents they hold, and the count that the payload
  -- promises.
  unfoldable pub sweep_one : Text → Result (Batches Row × ℕ × Option ℕ)
  unfolding check_status sink_batches
  sweep_one scope = do
    response ← a.get scope
    response ← check_status scope response
    payload ← a.decode response
    rows ← a.extract payload
    let sunk = sink_batches scope (chunks batch rows)
    ok (sunk, length (concat sunk), a.expected_for payload)

  -- The loop's variables.
  pub record Loop : Type ℓ where
    pub outcome : SweepOutcome
    pub sunk : Batches Row
    pub refused : ℕ
    pub refused_in_a_row : ℕ

  abbrev failed_result : Text → Failure → Bool → ScopeResult
  failed_result scope failure is_blocked = record {
    scope = scope;
    is_ok = false;
    documents = 0;
    error = some failure;
    is_blocked = is_blocked;
  }

  -- Both handlers record the failure, as an error and as the scope's result.
  abbrev record_failure : Text → Failure → Bool → SweepOutcome → SweepOutcome
  record_failure scope failure is_blocked o = record o {
    errors = o.errors ++ (scope, failure) ∷ [];
    scope_results = o.scope_results ++ failed_result scope failure is_blocked ∷ [];
  }

  -- the handlers of the loop; the flag is `break`
  unfoldable pub on_failure : Text → Failure → Loop → Loop × Bool
  on_failure scope (source_blocked text) l = (
    record l {
      outcome = record (record_failure scope (source_blocked text) true l.outcome) {
        blocked = some (by_provider text);
      };
    },
    true,
  )
  on_failure scope (source_refused text) l =
      let o = record_failure scope (source_refused text) false l.outcome in
      let row = l.refused_in_a_row + 1 in
      let l' = record l { outcome = o; refused = l.refused + 1; refused_in_a_row = row } in
      if leb source_burst row
      then (record l' { outcome = record o { blocked = some (in_a_row row) } }, true)
      else (l', false)
  on_failure scope (fetch_error text) l = (
    record l {
      outcome = record_failure scope (fetch_error text) false l.outcome;
      refused_in_a_row = 0;
    },
    false,
  )

  unfoldable pub on_board : Text → Batches Row × ℕ × Option ℕ → Loop → Loop
  on_board scope (sunk, seen, expected) l =
      let o = l.outcome in
      record l {
        refused_in_a_row = 0;
        sunk = l.sunk ++ sunk;
        outcome = record o {
          documents = o.documents + seen;
          partitions_done = o.partitions_done + 1;
          expected = some (coalesce o.expected 0 + coalesce expected seen);
          scope_results =
              o.scope_results
              ++ record {
                scope = scope;
                is_ok = true;
                documents = seen;
                error = none;
                is_blocked = false;
              }
                ∷ [];
          closable_scopes = o.closable_scopes ++ scope ∷ [];
        };
      }

  unfoldable pub sweep_from : List Text → Loop → Loop
  unfolding sweep_one on_failure on_board
  sweep_from [] l = l
  sweep_from (scope ∷ scopes) l = elim (sweep_one scope) [
    | ok found ↦ sweep_from scopes (on_board scope found l)
    | err failure ↦
        let (l', stop) = on_failure scope failure l in
        elim stop [ true ↦ l' | false ↦ sweep_from scopes l' ]
  ]

  abbrev pub start : List Text → Loop
  start scopes = record {
    outcome = record {
      closable_scopes = [];
      partitions_total = length scopes;
      partitions_done = 0;
      partitions_overflowed = 0;
      documents = 0;
      scope_results = [];
      expected = some 0;
      errors = [];
      blocked = none;
    };
    sunk = [];
    refused = 0;
    refused_in_a_row = 0;
  }

  -- the test after the loop
  unfoldable pub mostly_refused : Loop → SweepOutcome
  mostly_refused l =
      let o = l.outcome in
      let tried = length o.scope_results in
      if is_none o.blocked && leb source_burst l.refused && ltb tried (l.refused * 2)
      then record o { blocked = some (of_tried l.refused tried) }
      else o

  unfoldable pub sweep_boards : List Text → SweepOutcome × Batches Row
  unfolding sweep_from mostly_refused
  sweep_boards scopes = let l = sweep_from scopes (start scopes) in (mostly_refused l, l.sunk)
