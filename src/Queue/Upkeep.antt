-- ===== src/Queue/Upkeep.antt =====
-- trouveur/work/queue.py, from `pause_source` on: pausing, requeueing, releasing and refilling.
use trouveur.Prelude.{
  ℕ, zero, suc, ◌+◌, ◌-◌, max, Bool, true, false, not, ◌&&◌, ◌||◌, Option, none, some, List, [],
  ◌∷◌, map, String, ltb, leb, ◌==◌, nat_eq, string_eq, is_none, is_some, coalesce, take, filter,
  any, count, update_where, find, elem, sort_by, last_of,
}
use trouveur.Db.{
  Text, WorkKind, detail, derive, embed, dedup, kind_eq, Version, numbered, named, version_beq,
  Item, Job, Facet, Embedding, Db, Tx, job_ids,
}
use trouveur.Queue.{max_attempts, error_chars, enqueue}

abbrev pub is_pausable : WorkKind → String → List ℕ → Db → Item → Bool
is_pausable kind source claimed_ids db r =
    r.kind == kind
    && ltb r.attempts max_attempts
    && elem r.job_id (job_ids (filter (λ j. j.source == source) db.jobs))
    && (is_none r.claimed_at || elem r.id claimed_ids)

abbrev pub pause_item : Tx → ℕ → Text → Item → Item
pause_item t pause reason r = record r {
  not_before = max r.not_before (t.now + pause);
  claimed_at = none;
  claimed_by = none;
  last_error = some (take error_chars reason);
}

unfoldable pub pause_source : Tx → WorkKind → String → ℕ → Text → List ℕ → Db → Db × ℕ
pause_source t kind source pause reason claimed_ids db =
    let test = is_pausable kind source claimed_ids db in
    (
      record db { items = update_where test (pause_item t pause reason) db.items },
      count test db.items,
    )

abbrev pub is_parked : WorkKind → Item → Bool
is_parked kind r = r.kind == kind && leb max_attempts r.attempts

-- _DROPPED_ON_CLOSE
abbrev pub dropped_on_close : WorkKind → Bool
dropped_on_close detail = true
dropped_on_close derive = false
dropped_on_close embed = true
dropped_on_close dedup = false

abbrev pub closed_jobs : Db → List ℕ
closed_jobs db = job_ids (filter (λ j. is_some j.closed_at) db.jobs)

abbrev pub is_dropped : WorkKind → Db → Item → Bool
is_dropped kind db r = dropped_on_close kind && is_parked kind r && elem r.job_id (closed_jobs db)

abbrev requeue_item : Tx → Item → Item
requeue_item t r = record r { attempts = 0; last_error = none; not_before = t.now }

-- (requeued, dropped)
unfoldable pub requeue_parked : Tx → WorkKind → Db → Db × ℕ × ℕ
requeue_parked t kind db =
    let kept = filter (λ r. not (is_dropped kind db r)) db.items in
    (
      record db { items = update_where (is_parked kind) (requeue_item t) kept },
      count (is_parked kind) kept,
      count (is_dropped kind db) db.items,
    )

abbrev pub is_stale_claim : ℕ → Item → Bool
is_stale_claim cutoff r = elim r.claimed_at [ none ↦ false | some at ↦ ltb at cutoff ]

-- `clock` is the process's own time, which the code reads here in place of now().
unfoldable pub release_stale : ℕ → ℕ → Db → Db × ℕ
release_stale clock older_than db =
    let test = is_stale_claim (clock - older_than) in
    (
      record db {
        items = update_where test (λ r. record r { claimed_at = none; claimed_by = none }) db.items;
      },
      count test db.items,
    )

-- trouveur/db/queries/freshness.py
abbrev pub published_at : Job → ℕ
published_at j = coalesce j.posted_at j.first_seen_at

abbrev pub is_fresh : ℕ → Job → Bool
is_fresh fresh_since j = ltb fresh_since (published_at j)

abbrev lacks_vector : Version → Option Embedding → Bool
lacks_vector target none = true
lacks_vector target (some e) = not (version_beq e.embedding_version target)

abbrev pub needs_vector : Version → ℕ → List Embedding → Job → Bool
needs_vector target fresh_since embeddings j =
    is_none j.closed_at
    && is_fresh fresh_since j
    && lacks_vector target (find (λ (e : Embedding). e.job_id) j.id embeddings)

-- The rows of `_stale_query` before its cursor, order and limit; `none` is its ValueError: `int` of
-- a text that is no numeral, or detail work.
unfoldable pub stale_rows : WorkKind → Version → ℕ → Db → Option (List ℕ)
stale_rows detail target fresh_since db = none
stale_rows derive (numbered n) fresh_since db =
    some (map (λ f. f.job_id) (filter (λ (f : Facet). ltb f.derive_version n) db.facets))
stale_rows derive (named s) fresh_since db = none
stale_rows dedup (numbered n) fresh_since db =
    some (job_ids (filter (λ j. ltb j.dedup_version n) db.jobs))
stale_rows dedup (named s) fresh_since db = none
stale_rows embed target fresh_since db =
    some (job_ids (filter (needs_vector target fresh_since db.embeddings) db.jobs))

-- WHERE id > after ORDER BY id LIMIT limit
unfoldable pub keyset : ℕ → ℕ → List ℕ → List ℕ
keyset after limit ids = take limit (sort_by ltb (filter (ltb after) ids))

-- one chunk, from the rows of the query: what was queued, and the cursor for the next chunk
unfoldable pub queue_rows : Tx → WorkKind → Version → Db → List ℕ → Db × ℕ × Option ℕ
unfolding last_of
queue_rows t kind target db [] = (db, 0, none)
queue_rows t kind target db (id ∷ ids) =
    let (db', enqueued) = enqueue t kind (id ∷ ids) target db in
    (db', enqueued, some (last_of id ids))

unfoldable pub refill : Tx → WorkKind → Version → ℕ → ℕ → ℕ → Db → Option (Db × ℕ × Option ℕ)
unfolding queue_rows keyset
refill t kind target chunk_size after fresh_since db =
    elim (stale_rows kind target fresh_since db) [
      | none ↦ none
      | some ids ↦ some (queue_rows t kind target db (keyset after chunk_size ids))
    ]

-- How `refill_all` ends: with the rows queued in all, by the ValueError of its query, or not at all
-- within the fuel.
pub data Refilled : Type 0 where
  refilled : Db → ℕ → Refilled
  value_error : Refilled
  out_of_fuel : Refilled

-- The loop; `tx` gives the transaction of each round and `fresh_since` what each round reads off
-- the clock, by the rounds that are left, and nobody else writes in between.
unfoldable pub refill_from : (ℕ → Tx) → WorkKind → Version → ℕ → (ℕ → ℕ) → ℕ → ℕ → ℕ → Db → Refilled
refill_from tx kind target chunk_size fresh_since zero cursor total db = out_of_fuel
refill_from tx kind target chunk_size fresh_since (suc fuel) cursor total db =
    elim (refill (tx fuel) kind target chunk_size cursor (fresh_since fuel) db) [
      | none ↦ value_error
      | some (db', queued, none) ↦ refilled db' (total + queued)
      | some (db', queued, some next) ↦
          refill_from tx kind target chunk_size fresh_since fuel next (total + queued) db'
    ]

unfoldable pub refill_all : (ℕ → Tx) → WorkKind → Version → ℕ → (ℕ → ℕ) → ℕ → Db → Refilled
unfolding refill_from
refill_all tx kind target chunk_size fresh_since fuel db =
    refill_from tx kind target chunk_size fresh_since fuel 0 0 db

-- The inner join counts an item once, with its posting.
unfoldable pub waiting_since : Tx → ℕ → Db → ℕ
waiting_since t first_seen_since db =
    count
      (λ r.
        any (λ j. j.id == r.job_id && ltb first_seen_since j.first_seen_at) db.jobs
        && leb r.not_before t.now)
      db.items

pub record Depth : Type 0 where
  pub total : ℕ
  pub parked : ℕ
  pub claimed : ℕ

-- One group of `backlog`; a kind with no items has no group in the source, and zeros here.
unfoldable pub backlog : Db → WorkKind → Depth
backlog db kind = record {
  total = count (λ r. r.kind == kind) db.items;
  parked = count (λ r. r.kind == kind && leb max_attempts r.attempts) db.items;
  claimed = count (λ r. r.kind == kind && is_some r.claimed_at) db.items;
}
