-- ===== src/Ingest.antt =====
-- trouveur/db/queries/ingest.py: the statements that write and close postings. Of the columns of
-- job that upsert_jobs writes, those of `Incoming` are kept.
pub mod Archive
pub mod Blocks
pub mod Closing
pub mod Left
pub mod Lifecycle
pub mod Persist
pub mod Pipeline
pub mod Seen
mod Tests
use trouveur.Prelude.{
  ℕ, ◌+◌, ◌-◌, Bool, true, false, not, ◌&&◌, ◌||◌, Option, some, none, List, [], ◌∷◌, ◌++◌, map,
  String, ltb, ◌==◌, nat_eq, string_eq, list_eq, is_none, is_some, length, filter, any,
  update_where, elem, if◌then◌else◌,
}
use trouveur.Db.{
  Text, WorkKind, detail, embed, kind_eq, numbered, Item, Job, Facet, Embedding, Db, Tx, job_ids,
}

-- a row of upsert_jobs
pub record Incoming : Type 0 where
  pub source : String
  pub external_id : Text
  pub scope : Option Text
  pub posted_at : Option ℕ
  pub content_hash : ℕ
  pub normalize_version : ℕ

-- the unique constraint job_provenance_uniq
abbrev pub is_posting : Incoming → Job → Bool
is_posting r j = j.source == r.source && j.external_id == r.external_id

abbrev pub same_posting : Incoming → Incoming → Bool
same_posting r s = r.source == s.source && r.external_id == s.external_id

unfoldable pub refresh_job : Tx → Incoming → Job → Job
refresh_job t r j = record j {
  scope = r.scope;
  posted_at = r.posted_at;
  content_hash = r.content_hash;
  normalize_version = r.normalize_version;
  last_seen_at = t.now;
  closed_at = none;
}

unfoldable pub new_job : Tx → Incoming → ℕ → Job
new_job t r id = record {
  id = id;
  source = r.source;
  external_id = r.external_id;
  scope = r.scope;
  posted_at = r.posted_at;
  content_hash = r.content_hash;
  normalize_version = r.normalize_version;
  first_seen_at = t.now;
  last_seen_at = t.now;
  ready_at = none;
  closed_at = none;
  dedup_version = 0;
}

unfoldable pub upsert_one : Tx → Incoming → Db → Db
unfolding refresh_job new_job
upsert_one t r db =
    if any (is_posting r) db.jobs
    then record db { jobs = update_where (is_posting r) (refresh_job t r) db.jobs }
    else record db { jobs = db.jobs ++ new_job t r db.next_job ∷ []; next_job = db.next_job + 1 }

unfoldable pub upsert_each : Tx → List Incoming → Db → Db
unfolding upsert_one
upsert_each t [] db = db
upsert_each t (r ∷ rows) db = upsert_each t rows (upsert_one t r db)

-- Whether two rows name one posting.
unfoldable pub has_repeat : List Incoming → Bool
has_repeat [] = false
has_repeat (r ∷ rows) = any (same_posting r) rows || has_repeat rows

-- One statement. PostgreSQL refuses to write one row twice in it, which raises: nothing here.
unfoldable pub upsert_jobs : Tx → List Incoming → Db → Option Db
unfolding upsert_each has_repeat
upsert_jobs t rows db = if has_repeat rows then none else some (upsert_each t rows db)

unfoldable pub ensure_facet_row : ℕ → Db → Db
ensure_facet_row job_id db =
    if elem job_id (map (λ f. f.job_id) db.facets)
    then db
    else record db { facets = db.facets ++ record { job_id = job_id; derive_version = 0 } ∷ [] }

unfoldable pub ensure_facet_rows : List ℕ → Db → Db
unfolding ensure_facet_row
ensure_facet_rows [] db = db
ensure_facet_rows (job_id ∷ ids) db = ensure_facet_rows ids (ensure_facet_row job_id db)

unfoldable pub touch_seen : Tx → List ℕ → Db → Db
touch_seen t ids db = record db {
  jobs = update_where (λ j. elem j.id ids) (λ j. record j { last_seen_at = t.now }) db.jobs;
}

-- the kinds that _DROP_CLOSED deletes
abbrev pub drops : WorkKind → Bool
drops kind = kind == detail || kind == embed

-- The statement of both templates: `p` is the rest of its WHERE.
unfoldable pub close_where : Tx → (Job → Bool) → Db → Db × ℕ
close_where t p db =
    let closing = (λ (j : Job). is_none j.closed_at && p j) in
    let closed = job_ids (filter closing db.jobs) in
    (
      record db {
        jobs = update_where closing (λ j. record j { closed_at = some t.now }) db.jobs;
        embeddings = filter (λ e. not (elem e.job_id closed)) db.embeddings;
        items = filter (λ r. not (elem r.job_id closed && drops r.kind)) db.items;
      },
      length closed,
    )

-- `scope = ANY(…)`, which a missing scope does not satisfy
abbrev pub in_scopes : Option Text → List Text → Bool
in_scopes none scopes = false
in_scopes (some scope) scopes = elem scope scopes

abbrev pub is_unseen : String → List Text → ℕ → Job → Bool
is_unseen source scopes sweep_started_at j =
    j.source == source && ltb j.last_seen_at sweep_started_at && in_scopes j.scope scopes

unfoldable pub close_unseen : Tx → String → List Text → ℕ → Db → Db × ℕ
unfolding close_where
close_unseen t source [] sweep_started_at db = (db, 0)
close_unseen t source (scope ∷ scopes) sweep_started_at db =
    close_where t (is_unseen source (scope ∷ scopes) sweep_started_at) db

unfoldable pub close_stale : Tx → String → ℕ → Db → Db × ℕ
unfolding close_where
close_stale t source older_than db =
    close_where t (λ j. j.source == source && ltb j.last_seen_at (t.now - older_than)) db

unfoldable pub close_retired : Tx → List ℕ → Db → Db × ℕ
unfolding close_where
close_retired t ids db = elim ids [
  | [] ↦ (db, 0)
  | id ∷ rest ↦ close_where t (λ j. elem j.id (id ∷ rest)) db
]
