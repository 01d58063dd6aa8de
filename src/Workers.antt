-- ===== src/Workers.antt =====
-- trouveur/ingest/workers.py: the drainers of the queue, with the statements of
-- trouveur/db/queries/jobs.py that they run. One drainer is one transaction.
pub mod Claimed
pub mod Writes
pub mod Vectors
pub mod Drains
pub mod Embeds
pub mod Details
mod Tests
use trouveur.Prelude.{
  ℕ, ◌+◌, Bool, true, false, ◌&&◌, Option, some, none, List, [], ◌∷◌, ◌++◌, map, String, ◌==◌,
  nat_eq, is_none, length, filter, any, elem, update_where, if◌then◌else◌,
}
use trouveur.Db.{
  Text, derive, embed, dedup, Version, Item, Job, Facet, Embedding, Db, Tx, item_ids, job_ids,
}
use trouveur.Queue.{claim, complete, fail}

abbrev pub worker : String
worker = "runner"

-- the postings that a batch of items is about
abbrev pub jobs_of : List Item → List ℕ
jobs_of = map (λ r. r.job_id)

-- load_for_derive, load_for_dedup and detail_targets differ in the columns that they read.
unfoldable pub load_jobs : List ℕ → Db → List Job
load_jobs ids db = filter (λ j. elem j.id ids) db.jobs

unfoldable pub load_for_embedding : List ℕ → Db → List Job
load_for_embedding ids db = filter (λ j. elem j.id ids && is_none j.closed_at) db.jobs

abbrev pub facet_of : ℕ → Facet → Bool
facet_of job_id f = f.job_id == job_id

-- one row of write_facets
unfoldable pub write_facet : ℕ → ℕ → Db → Db
write_facet version job_id db =
    if any (facet_of job_id) db.facets
    then record db {
      facets =
          update_where (facet_of job_id) (λ f. record f { derive_version = version }) db.facets;
    }
    else record db {
      facets = db.facets ++ record { job_id = job_id; derive_version = version } ∷ [];
    }

unfoldable pub write_facets : ℕ → List ℕ → Db → Db
unfolding write_facet
write_facets version [] db = db
write_facets version (job_id ∷ ids) db = write_facets version ids (write_facet version job_id db)

abbrev pub vector_of : ℕ → Embedding → Bool
vector_of job_id e = e.job_id == job_id

-- one row of write_embeddings
unfoldable pub write_embedding : Version → ℕ → Db → Db
write_embedding version job_id db =
    if any (vector_of job_id) db.embeddings
    then record db {
      embeddings =
          update_where (vector_of job_id) (λ e. record e { embedding_version = version })
            db.embeddings;
    }
    else record db {
      embeddings = db.embeddings ++ record { job_id = job_id; embedding_version = version } ∷ [];
    }

unfoldable pub write_embeddings : Version → List ℕ → Db → Db
unfolding write_embedding
write_embeddings version [] db = db
write_embeddings version (job_id ∷ ids) db =
    write_embeddings version ids (write_embedding version job_id db)

unfoldable pub write_dedup_markers : ℕ → List ℕ → Db → Db
write_dedup_markers version ids db = record db {
  jobs = update_where (λ j. elem j.id ids) (λ j. record j { dedup_version = version }) db.jobs;
}

unfoldable pub drain_derive : Tx → ℕ → ℕ → Db → Db × ℕ
unfolding load_jobs write_facets claim complete
drain_derive t version limit db =
    let (claimed, items) = claim t derive limit worker db in
    elim items [
      | [] ↦ (claimed, 0)
      | r ∷ rest ↦
          let rows = load_jobs (jobs_of (r ∷ rest)) claimed in
          (
            complete t (item_ids (r ∷ rest)) (write_facets version (job_ids rows) claimed),
            length rows,
          )
    ]

unfoldable pub drain_dedup : Tx → ℕ → ℕ → Db → Db × ℕ
unfolding load_jobs write_dedup_markers claim complete
drain_dedup t version limit db =
    let (claimed, items) = claim t dedup limit worker db in
    elim items [
      | [] ↦ (claimed, 0)
      | r ∷ rest ↦
          let rows = load_jobs (jobs_of (r ∷ rest)) claimed in
          (
            complete t (item_ids (r ∷ rest)) (write_dedup_markers version (job_ids rows) claimed),
            length rows,
          )
    ]

-- What drain_embed does with the items that it claimed; `provider` says what embedding the texts of
-- the rows raises, if it raises.
unfoldable pub embed_batch : (List Job → Option Text) → Tx → Version → Db → List Item → Db × ℕ
unfolding load_for_embedding write_embeddings complete fail
embed_batch provider t version claimed [] = (claimed, 0)
embed_batch provider t version claimed (r ∷ rest) =
    let ids = item_ids (r ∷ rest) in
    elim (load_for_embedding (jobs_of (r ∷ rest)) claimed) [
      | [] ↦ (complete t ids claimed, 0)
      | row ∷ rows ↦ elim (provider (row ∷ rows)) [
        | some error ↦ (fail t ids error claimed, 0)
        | none ↦ (
          complete t ids (write_embeddings version (job_ids (row ∷ rows)) claimed),
          length (row ∷ rows),
        )
      ]
    ]

unfoldable pub drain_embed : (List Job → Option Text) → Tx → Version → ℕ → Db → Db × ℕ
unfolding embed_batch claim
drain_embed provider t version limit db =
    let (claimed, items) = claim t embed limit worker db in
    embed_batch provider t version claimed items
