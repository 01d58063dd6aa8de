-- ===== src/Sources/Feed.antt =====
-- trouveur/sources/feed.py: sweeping one corpus that is paged newest first. The adapter's functions
-- are parameters; a page is fetched at a cursor, and may answer otherwise the next time, so `fetch`
-- is also given the number of pages left.
pub mod Batching
pub mod Rows
pub mod Complete
pub mod Sweep
use trouveur.Prelude.{
  ℕ, zero, suc, ◌+◌, ◌-◌, Bool, true, false, not, ◌&&◌, ◌||◌, Option, some, none, List, [], ◌∷◌,
  ◌++◌, ltb, leb, ◌==◌, nat_eq, is_none, is_some, length, take, drop, elem, Eq, list_eq,
  if◌then◌else◌,
}
use trouveur.Db.{Text}
use trouveur.Sources.{Failure, Result, ok, err, ◌>>=◌, ScopeResult, SweepOutcome, global_scope}
use trouveur.Sources.Board.{batch, Document, Batches}

abbrev pub max_pages : ℕ
max_pages = 20000

pub record Adapter {ℓ} (Cursor Payload Row : Type ℓ) : Type ℓ where
  pub fetch : ℕ → Option Cursor → Result Payload
  pub extract : Payload → Result (List Row)
  pub next_cursor : Payload → Option Cursor
  pub identify : Row → Option Text
  pub published_at : Row → Option ℕ
  pub expected_for : Payload → Option ℕ

-- the keyword arguments, and the time of the run
pub record Options : Type 0 where
  pub backfill : Bool
  pub delta_window : ℕ
  pub complete_on_backfill : Bool
  pub server_side_window : Bool
  pub now : ℕ

unfoldable pub cutoff : Options → Option ℕ
cutoff o = if o.backfill || o.server_side_window then none else some (o.now - o.delta_window)

-- whether `posted < cutoff`, where both are there
abbrev pub is_outside : Option ℕ → Option ℕ → Bool
is_outside (some c) (some posted) = ltb posted c
is_outside c posted = false

module _ {ℓ} {Cursor Payload Row : Type ℓ} (a : Adapter Cursor Payload Row) where
  -- the variables of the row loop
  pub record Page : Type ℓ where
    pub seen_ids : List Text
    pub pending : List (Document Row)
    pub added : ℕ
    pub in_window : ℕ

  abbrev listing : Text → Row → Document Row
  listing external_id row = record {
    external_id = external_id;
    scope = global_scope;
    payload = row;
  }

  unfoldable pub take_new : Option ℕ → Text → Row → Page → Page
  take_new cut external_id row p =
      let p' = record p { added = p.added + 1; seen_ids = external_id ∷ p.seen_ids } in
      if is_outside cut (a.published_at row) then p' else record p' {
        in_window = p.in_window + 1;
        pending = p.pending ++ listing external_id row ∷ [];
      }

  unfoldable pub take_row : Option ℕ → Row → Page → Page
  unfolding take_new
  take_row cut row p = elim (a.identify row) [
    | none ↦ p
    | some external_id ↦ if elem external_id p.seen_ids then p else take_new cut external_id row p
  ]

  unfoldable pub take_rows : Option ℕ → List Row → Page → Page
  unfolding take_row
  take_rows cut [] p = p
  take_rows cut (row ∷ rows) p = take_rows cut rows (take_row cut row p)

  -- the state of the page loop
  pub record Walk : Type ℓ where
    pub seen_ids : List Text
    pub pending : List (Document Row)
    pub sunk : Batches Row
    pub documents : ℕ
    pub expected : Option ℕ
    pub reached_end : Bool

  -- `while len(pending) >= BATCH`; each round takes 200 documents, so their number bounds the rounds.
  unfoldable pub flush_from : ℕ → Walk → Walk
  flush_from zero w = w
  flush_from (suc rounds) w =
      let rest = flush_from rounds (record w {
        sunk = w.sunk ++ take batch w.pending ∷ [];
        documents = w.documents + batch;
        pending = drop batch w.pending;
      }) in
      if leb batch (length w.pending) then rest else w

  unfoldable pub flush : Walk → Walk
  unfolding flush_from
  flush w = flush_from (length w.pending) w

  -- One page: the walk after it, and the cursor to go on at, if it does not stop here.
  unfoldable pub take_page : Option ℕ → Payload → List Row → Walk → Walk × Option Cursor
  unfolding take_rows flush
  take_page cut payload [] w = (record w { reached_end = true }, none)
  take_page cut payload (row ∷ rows) w =
      let p =
        take_rows cut (row ∷ rows)
          (record { seen_ids = w.seen_ids; pending = w.pending; added = 0; in_window = 0 }) in
      let w' = flush (record w { seen_ids = p.seen_ids; pending = p.pending }) in
      if is_some cut && not (p.added == 0) && p.in_window == 0
      then (record w' { reached_end = true }, none)
      else if p.added == 0
      then (w', none)
      else elim (a.next_cursor payload) [
        | none ↦ (record w' { reached_end = true }, none)
        | some next ↦ (w', some next)
      ]

  -- `if outcome.expected is None and expected_for`
  abbrev promised : Payload → Walk → Walk
  promised payload w =
      if is_none w.expected then record w { expected = a.expected_for payload } else w

  -- The page loop: the walk as it stands at the end, and the exception that ended it, if one did.
  unfoldable pub walk : Option ℕ → ℕ → Option Cursor → Walk → Walk × Option Failure
  unfolding take_page
  walk cut zero cursor w = (w, none)
  walk cut (suc pages) cursor w = elim (a.fetch pages cursor) [
    | err failure ↦ (w, some failure)
    | ok payload ↦ elim (a.extract payload) [
      | err failure ↦ (promised payload w, some failure)
      | ok rows ↦
          let (w', cursor') = take_page cut payload rows (promised payload w) in
          elim cursor' [ none ↦ (w', none) | some next ↦ walk cut pages (some next) w' ]
    ]
  ]

  -- `if pending: await sink(pending)`
  unfoldable pub sink_rest : Walk → Walk
  sink_rest w = elim w.pending [
    | [] ↦ w
    | d ∷ ds ↦ record w {
      sunk = w.sunk ++ (d ∷ ds) ∷ [];
      documents = w.documents + length (d ∷ ds);
    }
  ]

  unfoldable pub outcome_of : Options → Walk → SweepOutcome
  outcome_of o w =
      let whole = o.backfill && w.reached_end && o.complete_on_backfill in
      record {
        closable_scopes = if whole then global_scope ∷ [] else [];
        partitions_total = 1;
        partitions_done = if w.reached_end then 1 else 0;
        partitions_overflowed = 0;
        documents = w.documents;
        scope_results =
            record {
              scope = global_scope;
              is_ok = w.reached_end;
              documents = w.documents;
              error = none;
              is_blocked = false;
            }
            ∷ [];
        expected = if whole then w.expected else none;
        errors = [];
        blocked = none;
      }

  abbrev pub first_walk : Walk
  first_walk = record {
    seen_ids = [];
    pending = [];
    sunk = [];
    documents = 0;
    expected = none;
    reached_end = false;
  }

  -- What was sunk, and the outcome or the exception. A page that raises leaves what is pending.
  unfoldable pub sweep_feed : Options → ℕ → Batches Row × Result SweepOutcome
  unfolding walk sink_rest outcome_of cutoff
  sweep_feed o pages =
      let (w, raised) = walk (cutoff o) pages none first_walk in
      elim raised [
        | some failure ↦ (w.sunk, err failure)
        | none ↦ let w' = sink_rest w in (w'.sunk, ok (outcome_of o w'))
      ]
