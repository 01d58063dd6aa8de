-- ===== src/Workers/Details.antt =====
-- drain_detail of trouveur/ingest/workers.py: descriptions fetched concurrently. The order in which
-- the fetches start and their answers land is a list of steps, which the event loop chooses.
pub mod Stops
pub mod Held
mod Tests
use trouveur.Prelude.{
  ℕ, zero, suc, ◌+◌, ◌*◌, Bool, true, false, not, ◌&&◌, ◌||◌, Option, some, none, List, [], ◌∷◌,
  ◌++◌, map, String, ltb, leb, ◌==◌, nat_eq, string_eq, list_eq, length, filter, any, elem, first,
  if◌then◌else◌,
}
use trouveur.Db.{Text, second, detail, Item, Job, Db, Tx, item_ids}
use trouveur.Queue.{claim_across_boards, complete, fail}
use trouveur.Queue.Upkeep.{pause_source}
use trouveur.Sources.{source_burst}
use trouveur.Ingest.{close_retired}
use trouveur.Ingest.Archive.{RawDocument, Archive, archive_documents}
use trouveur.Ingest.Persist.{Setting, PersistResult, persist}
use trouveur.Workers.{worker, jobs_of, load_jobs}

-- _DETAIL_PER_BOARD, SOURCE_PAUSE
abbrev pub detail_per_board : ℕ
detail_per_board = 20

abbrev pub source_pause : ℕ
source_pause = 3600 * second

-- What a fetch comes to: nothing was asked, or what the source answered. An exception that is no
-- SourceError has been made a FetchError.
pub data Outcome {ℓ} (Payload : Type ℓ) : Type ℓ where
  skipped gone : Outcome Payload
  refused errored : Text → Outcome Payload
  fetched : RawDocument Payload → Outcome Payload

-- a fetch passes the gate, or its answer arrives
pub data Step {ℓ} (Payload : Type ℓ) : Type ℓ where
  starts : Job → Step Payload
  lands : Job → Outcome Payload → Step Payload

-- the dicts that the fetches share
pub record Fetching {ℓ} (Payload : Type ℓ) : Type ℓ where
  pub stopped : List (String × Text)
  pub failed_in_a_row : String → ℕ
  pub outcomes : List (ℕ × Outcome Payload)

-- The reasons that are written out: of a block, of a burst, and of a source that is not registered.
pub record Wording : Type 0 where
  pub of_block : String → Text → Text
  pub of_burst : String → Text → Text
  pub of_unknown : String → Text

-- the item of a posting, as `by_job` has it
abbrev pub items_for : List Item → ℕ → List ℕ
items_for items job_id = item_ids (filter (λ (r : Item). r.job_id == job_id) items)

-- the variables of the loop over the targets
pub record Settling {ℓ} (Payload : Type ℓ) : Type ℓ where
  pub db : Db
  pub documents : List (RawDocument Payload)
  pub ids : List (String × Text)
  pub done : List ℕ
  pub retired : List ℕ

unfoldable pub pause_stopped : Tx → List ℕ → List (String × Text) → Db → Db
pause_stopped t claimed_ids [] db = db
pause_stopped t claimed_ids (e ∷ stopped) db =
    pause_stopped t claimed_ids stopped
      (pause_source t detail e.0 source_pause e.1 claimed_ids db).0

-- `fetched`: the sources in the order in which they first come, each with its ids
abbrev pub ids_of_source : String → List (String × Text) → List Text
ids_of_source source ids =
    map (λ (e : String × Text). e.1) (filter (λ (e : String × Text). e.0 == source) ids)

unfoldable pub fetched_sources : List String → List (String × Text) → List String
fetched_sources seen [] = seen
fetched_sources seen (e ∷ ids) =
    if any (λ source. source == e.0) seen
    then fetched_sources seen ids
    else fetched_sources (seen ++ e.0 ∷ []) ids

module _ {ℓ} {Payload : Type ℓ} where
  abbrev pub is_stopped : String → Fetching Payload → Bool
  is_stopped source f = any (λ (e : String × Text). e.0 == source) f.stopped

  -- `stopped.setdefault(source, reason)`
  abbrev pub stop : String → Text → Fetching Payload → Fetching Payload
  stop source reason f =
      if is_stopped source f then f else record f { stopped = f.stopped ++ (source, reason) ∷ [] }

  abbrev pub count_failed : String → ℕ → Fetching Payload → Fetching Payload
  count_failed source n f = record f {
    failed_in_a_row = λ other. if other == source then n else f.failed_in_a_row other;
  }

  abbrev pub settled : Job → Outcome Payload → Fetching Payload → Fetching Payload
  settled row outcome f = record f { outcomes = f.outcomes ++ (row.id, outcome) ∷ [] }

  unfoldable pub land : Wording → Job → Outcome Payload → Fetching Payload → Fetching Payload
  land w row skipped f = settled row skipped f
  land w row (refused error) f =
      settled row (refused error) (stop row.source (w.of_block row.source error) f)
  land w row (errored error) f =
      let n = f.failed_in_a_row row.source + 1 in
      let counted = count_failed row.source n f in
      settled row (errored error) (
        if leb source_burst n
        then stop row.source (w.of_burst row.source error) counted
        else counted)
  land w row gone f = settled row gone (count_failed row.source 0 f)
  land w row (fetched document) f = settled row (fetched document) (count_failed row.source 0 f)

  unfoldable pub take_step : Wording → Step Payload → Fetching Payload → Fetching Payload
  unfolding land
  take_step w (starts row) f = if is_stopped row.source f then settled row skipped f else f
  take_step w (lands row outcome) f = land w row outcome f

  unfoldable pub take_steps : Wording → List (Step Payload) → Fetching Payload → Fetching Payload
  unfolding take_step
  take_steps w [] f = f
  take_steps w (step ∷ steps) f = take_steps w steps (take_step w step f)

  abbrev pub not_started : Fetching Payload
  not_started = record { stopped = []; failed_in_a_row = λ source. 0; outcomes = [] }

  unfoldable pub detail_outcome : Fetching Payload → ℕ → Option (Outcome Payload)
  detail_outcome f job_id = elim (first (λ (e : ℕ × Outcome Payload). e.0 == job_id) f.outcomes) [
    | none ↦ none
    | some e ↦ some e.1
  ]

  unfoldable pub settle_row :
      Wording → Tx → List Item → Fetching Payload → Job → Settling Payload → Settling Payload
  unfolding detail_outcome
  settle_row w t items f row s =
      let own = items_for items row.id in
      elim (detail_outcome f row.id) [
        | none ↦ record s { db = fail t own (w.of_unknown row.source) s.db }
        | some outcome ↦ elim outcome [
          | skipped ↦ s
          | refused error ↦ s
          | errored error ↦ record s { db = fail t own error s.db }
          | gone ↦ record s { retired = s.retired ++ row.id ∷ []; done = s.done ++ own }
          | fetched document ↦ record s {
            documents = s.documents ++ document ∷ [];
            ids = s.ids ++ (row.source, row.external_id) ∷ [];
            done = s.done ++ own;
          }
        ]
      ]

  unfoldable pub settle_rows :
      Wording → Tx → List Item → Fetching Payload → List Job → Settling Payload → Settling Payload
  unfolding settle_row
  settle_rows w t items f [] s = s
  settle_rows w t items f (row ∷ rows) s =
      settle_rows w t items f rows (settle_row w t items f row s)

  unfoldable pub persist_each :
      Tx
      → (String → Setting Payload)
      → Archive Payload
      → List (String × Text)
      → List String
      → Db
      → Option Db
  unfolding persist
  persist_each t settings ar ids [] db = some db
  persist_each t settings ar ids (source ∷ sources) db =
      elim (persist (settings source) t ar (ids_of_source source ids) db) [
        | none ↦ none
        | some r ↦ persist_each t settings ar ids sources r.0
      ]

  -- The rest of drain_detail, once the fetches are done: the tables and the archive, or an exception.
  unfoldable pub finish_details :
      Wording
      → Tx
      → (String → Setting Payload)
      → List Item
      → Fetching Payload
      → List Job
      → Db
      → Archive Payload
      → Option (Db × (Archive Payload × ℕ))
  unfolding settle_rows pause_stopped persist_each fetched_sources complete
  finish_details w t settings items f targets db ar =
      let s =
        settle_rows w t items f targets
          (record { db = db; documents = []; ids = []; done = []; retired = [] }) in
      let paused = pause_stopped t (item_ids items) f.stopped s.db in
      elim (archive_documents s.documents ar) [
        | none ↦ none
        | some ar' ↦ elim (persist_each t settings ar' s.ids (fetched_sources [] s.ids) paused) [
          | none ↦ none
          | some persisted ↦
              some (complete t s.done (close_retired t s.retired persisted).0, (ar', length s.done))
        ]
      ]

  -- A posting of a source that is not registered is not fetched: the steps are of the others.
  unfoldable pub drain_detail :
      Wording
      → Tx
      → (String → Setting Payload)
      → List (Step Payload)
      → ℕ
      → Db
      → Archive Payload
      → Option (Db × (Archive Payload × ℕ))
  unfolding take_steps finish_details load_jobs claim_across_boards
  drain_detail w t settings steps limit db ar =
      let (claimed, items) = claim_across_boards t detail limit detail_per_board worker db in
      elim items [
        | [] ↦ some (claimed, (ar, 0))
        | r ∷ rest ↦
            finish_details w t settings (r ∷ rest) (take_steps w steps not_started)
              (load_jobs (jobs_of (r ∷ rest)) claimed) claimed ar
      ]
