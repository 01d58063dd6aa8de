-- ===== src/Queue.antt =====
-- trouveur/work/queue.py: the versioned work queue. Each function is one statement, or the
-- statements of one Python function in their order, over the tables of `Db`.
pub mod Upkeep
pub mod Valid
pub mod Claims
pub mod Enqueue
pub mod Ready
pub mod Retries
pub mod Refill
pub mod Stale
mod Tests
use trouveur.Prelude.{
  ℕ, zero, suc, ◌+◌, ◌*◌, ◌-◌, ◌^◌, max, Bool, true, false, not, ◌&&◌, ◌||◌, Option, none, some,
  List, [], ◌∷◌, ◌++◌, map, String, ltb, leb, if◌then◌else◌, ◌==◌, nat_eq, string_eq, list_eq,
  is_none, is_some, coalesce, length, take, filter, any, count, update_where, find, elem, sort_by,
}
use trouveur.Db.{
  Text, second, WorkKind, detail, derive, embed, dedup, kind_eq, Version, numbered, named,
  version_beq, Item, Job, Db, Tx, item_ids, job_ids,
}

abbrev pub max_attempts : ℕ
max_attempts = 5

abbrev pub backoff_base_seconds : ℕ
backoff_base_seconds = 60

-- 30 minutes
abbrev pub stale_claim_after : ℕ
stale_claim_after = 1800 * second

-- interval '30 days'
abbrev pub parked_for : ℕ
parked_for = 2592000 * second

-- the longest error text that is stored
abbrev pub error_chars : ℕ
error_chars = 2000

abbrev pub at_item : WorkKind → ℕ → Item → Bool
at_item kind job_id r = r.kind == kind && r.job_id == job_id

-- the row that VALUES gives, with the defaults of the schema
abbrev pub new_item : Tx → WorkKind → Version → ℕ → ℕ → Item
new_item t kind target id job_id = record {
  id = id;
  kind = kind;
  job_id = job_id;
  target_version = target;
  not_before = t.now;
  attempts = 0;
  last_error = none;
  claimed_at = none;
  claimed_by = none;
}

-- the SET of the conflict clause
abbrev pub reset_item : Tx → Version → Item → Item
reset_item t target r = record r {
  target_version = target;
  not_before = t.now;
  claimed_at = none;
  claimed_by = none;
  attempts = 0;
  last_error = none;
}

-- One row of the upsert. The conflict target is the unique (kind, job_id), so at most one row is
-- there; its version decides whether the statement changes it, and counts it.
unfoldable pub enqueue_one : Tx → WorkKind → Version → ℕ → Db → Db × ℕ
enqueue_one t kind target job_id db =
    if any (at_item kind job_id) db.items
    then (let stale =
          λ (r : Item). at_item kind job_id r && not (version_beq r.target_version target) in
        (
          record db { items = update_where stale (reset_item t target) db.items },
          count stale db.items,
        ))
    else (
      record db {
        items = db.items ++ new_item t kind target db.next_item job_id ∷ [];
        next_item = db.next_item + 1;
      },
      1,
    )

-- `enqueue`: the ids of one call are distinct, as Postgres refuses to write one row twice.
unfoldable pub enqueue : Tx → WorkKind → List ℕ → Version → Db → Db × ℕ
enqueue t kind [] target db = (db, 0)
enqueue t kind (job_id ∷ job_ids) target db =
    let (db', n) = enqueue_one t kind target job_id db in
    let (db'', rest) = enqueue t kind job_ids target db' in (db'', n + rest)

-- the WHERE of both claims
abbrev pub is_due : Tx → WorkKind → Item → Bool
is_due t kind r = r.kind == kind && is_none r.claimed_at && leb r.not_before t.now

-- ORDER BY not_before, id
abbrev pub item_before : Item → Item → Bool
item_before x y = ltb x.not_before y.not_before || (x.not_before == y.not_before && ltb x.id y.id)

abbrev pub claim_item : Tx → String → Item → Item
claim_item t worker r = record r { claimed_at = some t.now; claimed_by = some worker }

-- UPDATE … WHERE id IN (…) RETURNING, of the rows that the subquery picked
unfoldable pub take_claims : Tx → String → List Item → Db → Db × List Item
take_claims t worker picked db = (
  record db {
    items = update_where (λ r. elem r.id (item_ids picked)) (claim_item t worker) db.items;
  },
  map (claim_item t worker) picked,
)

abbrev pub is_unlocked : Tx → Item → Bool
is_unlocked t r = not (elem r.id t.locked_items)

-- SKIP LOCKED passes over a locked row and goes on to the next, so the limit counts free rows.
unfoldable pub claimable : Tx → WorkKind → ℕ → Db → List Item
claimable t kind limit db =
    take limit (sort_by item_before (filter (λ r. is_due t kind r && is_unlocked t r) db.items))

unfoldable pub claim : Tx → WorkKind → ℕ → String → Db → Db × List Item
unfolding claimable take_claims
claim t kind limit worker db = take_claims t worker (claimable t kind limit db) db

-- PARTITION BY takes two missing scopes as equal.
abbrev scope_beq : Option Text → Option Text → Bool
scope_beq none none = true
scope_beq none (some s) = false
scope_beq (some s) none = false
scope_beq (some s) (some r) = s == r

abbrev same_board_as : Option Job → Option Job → Bool
same_board_as (some a) (some b) = a.source == b.source && scope_beq a.scope b.scope
same_board_as a b = false

abbrev pub job_of : Db → Item → Option Job
job_of db r = find (λ (j : Job). j.id) r.job_id db.jobs

abbrev pub same_board : Db → Item → Item → Bool
same_board db x y = same_board_as (job_of db x) (job_of db y)

-- The inner join with job drops an item whose posting is not there.
unfoldable pub board_due : Tx → WorkKind → Db → List Item
board_due t kind db = filter (λ r. is_due t kind r && is_some (job_of db r)) db.items

-- row_number() within the board
unfoldable pub board_rank : Db → List Item → Item → ℕ
board_rank db due r = 1 + count (λ y. same_board db y r && item_before y r) due

abbrev pub rank_before : Db → List Item → Item → Item → Bool
rank_before db due x y =
    ltb (board_rank db due x) (board_rank db due y)
    || (board_rank db due x == board_rank db due y && ltb x.id y.id)

unfoldable pub picked_across_boards : Tx → WorkKind → ℕ → ℕ → Db → List Item
unfolding board_due board_rank
picked_across_boards t kind limit per_board db =
    let due = board_due t kind db in
    take limit
      (sort_by (rank_before db due) (filter (λ r. leb (board_rank db due r) per_board) due))

-- Here the rows are picked first, so a locked one among them leaves the batch short.
unfoldable pub claim_across_boards : Tx → WorkKind → ℕ → ℕ → String → Db → Db × List Item
unfolding picked_across_boards take_claims
claim_across_boards t kind limit per_board worker db =
    take_claims t worker (filter (is_unlocked t) (picked_across_boards t kind limit per_board db))
      db

-- _READY_AFTER
abbrev pub holds_back : WorkKind → Bool
holds_back dedup = false
holds_back _ = true

abbrev pub is_live : ℕ → Item → Bool
is_live job_id r = r.job_id == job_id && holds_back r.kind && ltb r.attempts max_attempts

abbrev pub becomes_ready : Tx → List Item → Job → Bool
becomes_ready t items j =
    is_none j.ready_at && not (any (is_live j.id) items) && not (elem j.id t.locked_jobs)

unfoldable pub mark_ready : Tx → Db → Db × ℕ
mark_ready t db = (
  record db {
    jobs =
        update_where (becomes_ready t db.items) (λ j. record j { ready_at = some t.now }) db.jobs;
  },
  count (becomes_ready t db.items) db.jobs,
)

unfoldable pub complete : Tx → List ℕ → Db → Db
unfolding mark_ready
complete t [] db = db
complete t (i ∷ ids) db =
    (mark_ready t (record db { items = filter (λ r. not (elem r.id (i ∷ ids))) db.items })).0

-- The row as `fail` leaves it. All values are of the row before the statement.
unfoldable pub fail_item : Tx → Text → Item → Item
fail_item t error r = record r {
  attempts = r.attempts + 1;
  last_error = some (take error_chars error);
  claimed_at = none;
  claimed_by = none;
  not_before =
      if leb max_attempts (r.attempts + 1)
      then t.now + parked_for
      else t.now + backoff_base_seconds * 2 ^ r.attempts * second;
}

unfoldable pub fail : Tx → List ℕ → Text → Db → Db
unfolding fail_item mark_ready
fail t [] error db = db
fail t (i ∷ ids) error db =
    (mark_ready t (record db {
      items = update_where (λ r. elem r.id (i ∷ ids)) (fail_item t error) db.items;
    })).0
