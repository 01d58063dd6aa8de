-- ===== src/Ingest/Persist.antt =====
-- trouveur/ingest/persist.py: from the archive into the job table, and the work that follows.
pub mod Live
pub mod Work
pub mod Again
mod Tests
use trouveur.Prelude.{
  ℕ, ◌+◌, Bool, true, false, not, ◌&&◌, ◌||◌, Option, some, none, List, [], ◌∷◌, ◌++◌, map, String,
  ltb, ◌==◌, nat_eq, string_eq, list_eq, is_none, length, filter, any, count, elem, find, first,
  if◌then◌else◌,
}
use trouveur.Db.{
  Text, WorkKind, derive, embed, dedup, Version, numbered, named, Job, Db, Tx, job_ids,
}
use trouveur.Db
use trouveur.Queue.{enqueue}
use trouveur.Queue.Upkeep.{is_fresh}
use trouveur.Ingest.{Incoming, is_posting, upsert_jobs, ensure_facet_rows}
use trouveur.Ingest.Archive.{Archive, Archived, listing, detail, latest_document}

-- What persist reads of the posting that a normalizer gives.
pub record Canonical : Type 0 where
  pub posted_at : Option ℕ
  pub content_hash : ℕ

-- What stands outside of the function: the source's normalizer, the versions in force, and the
-- time before which a posting is too old to embed.
pub record Setting {ℓ} (Payload : Type ℓ) : Type ℓ where
  pub source : String
  pub normalize : Payload → Option Payload → Text → Option Canonical
  pub normalize_version : ℕ
  pub derive_version : ℕ
  pub dedup_version : ℕ
  pub embedding_version : Version
  pub fresh_since : ℕ
  pub requires_detail : Bool

pub record PersistResult : Type 0 where
  pub upserted : ℕ
  pub changed : List ℕ
  pub unchanged : ℕ
  pub skipped : ℕ
  pub needs_detail : List Text

-- the variables of the loop over the ids
pub record Gathered : Type 0 where
  pub rows : List Incoming
  pub skipped : ℕ
  pub needs_detail : List Text

module _ {ℓ} {Payload : Type ℓ} (s : Setting Payload) where
  abbrev payload_of : Option (Archived Payload) → Option Payload
  payload_of none = none
  payload_of (some a) = some (a.document).payload

  abbrev pub detail_of : Archive Payload → Text → Option (Archived Payload)
  detail_of ar external_id =
      if s.requires_detail then latest_document s.source detail external_id ar else none

  -- q.job_row, with the columns that the tables keep
  abbrev pub row_of : Archived Payload → Text → Canonical → Incoming
  row_of a external_id item = record {
    source = s.source;
    external_id = external_id;
    scope = (a.document).scope;
    posted_at = item.posted_at;
    content_hash = item.content_hash;
    normalize_version = s.normalize_version;
  }

  -- The row of one id, if its listing is archived and reads as a posting.
  unfoldable pub incoming : Archive Payload → Text → Option Incoming
  unfolding latest_document
  incoming ar external_id = elim (latest_document s.source listing external_id ar) [
    | none ↦ none
    | some a ↦
        elim (s.normalize (a.document).payload (payload_of (detail_of ar external_id))
          external_id) [ none ↦ none | some item ↦ some (row_of a external_id item) ]
  ]

  abbrev pub lacks_detail : Archive Payload → Text → Bool
  lacks_detail ar external_id = s.requires_detail && is_none (detail_of ar external_id)

  unfoldable pub gather : Archive Payload → List Text → Gathered
  unfolding incoming
  gather ar [] = record { rows = []; skipped = 0; needs_detail = [] }
  gather ar (external_id ∷ ids) =
      let g = gather ar ids in
      elim (incoming ar external_id) [
        | none ↦ record g { skipped = g.skipped + 1 }
        | some row ↦ record g {
          rows = row ∷ g.rows;
          needs_detail =
              if lacks_detail ar external_id then external_id ∷ g.needs_detail else g.needs_detail;
        }
      ]

  -- The posting of a row: `stored` before the upsert, `job_ids` after it.
  abbrev pub posting_of : Incoming → Db → Option Job
  posting_of r db = first (is_posting r) db.jobs

  unfoldable pub ids_in : Db → List Incoming → List ℕ
  ids_in db [] = []
  ids_in db (r ∷ rows) = elim (posting_of r db) [
    | none ↦ ids_in db rows
    | some j ↦ j.id ∷ ids_in db rows
  ]

  unfoldable pub is_changed : Db → Incoming → Bool
  is_changed db r = elim (posting_of r db) [
    | none ↦ true
    | some previous ↦ not (previous.content_hash == r.content_hash)
  ]

  unfoldable pub is_renormalized : Db → Incoming → Bool
  is_renormalized db r = elim (posting_of r db) [
    | none ↦ false
    | some previous ↦
        previous.content_hash == r.content_hash
        && ltb previous.normalize_version s.normalize_version
  ]

  unfoldable pub fresh_subset : List ℕ → Db → List ℕ
  fresh_subset ids db = job_ids (filter (λ j. elem j.id ids && is_fresh s.fresh_since j) db.jobs)

  abbrev pub needs_one : List Text → Incoming → Bool
  needs_one needs_detail r = elem r.external_id needs_detail

  -- The work that the upsert calls for: `old` are the tables before it, `db` after it.
  unfoldable pub queue_work : Tx → Db → Gathered → Db → Db
  unfolding ids_in is_changed is_renormalized fresh_subset
  queue_work t old g db =
      let changed = ids_in db (filter (is_changed old) g.rows) in
      let renormalized = ids_in db (filter (is_renormalized old) g.rows) in
      let pending = ids_in db (filter (needs_one g.needs_detail) g.rows) in
      let derived = (enqueue t derive (changed ++ renormalized) (numbered s.derive_version) db).0 in
      let deduped = (enqueue t dedup changed (numbered s.dedup_version) derived).0 in
      let detailed = (enqueue t Db.detail pending (numbered 1) deduped).0 in
      let embeddable = filter (λ k. not (elem k pending)) changed in
      (enqueue t embed (fresh_subset embeddable detailed) s.embedding_version detailed).0

  unfoldable pub persist : Tx → Archive Payload → List Text → Db → Option (Db × PersistResult)
  unfolding gather queue_work upsert_jobs ensure_facet_rows
  persist t ar external_ids db =
      let g = gather ar external_ids in
      elim (upsert_jobs t g.rows db) [
        | none ↦ none
        | some upserted ↦
            let db' = ensure_facet_rows (ids_in upserted g.rows) upserted in
            let changed = filter (is_changed db) g.rows in
            some (
              queue_work t db g db',
              record {
                upserted = length g.rows;
                changed = ids_in db' changed;
                unchanged = count (λ r. not (is_changed db r)) g.rows;
                skipped = g.skipped;
                needs_detail = g.needs_detail;
              },
            )
      ]
