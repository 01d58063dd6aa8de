-- ===== src/Workers/Vectors.antt =====
-- What drain_embed writes stays written.
use trouveur.Prelude.{
  ℕ, ◌≡◌, refl, ap, subst, ◌∙◌, Bool, true, ◌&&◌, List, [], ◌∷◌, arith, ◌==◌, nat_eq, filter, elem,
  any, any-append, any_updated, any_turned, is_none, Bool-cases, inl, inr, beq_same,
}
use trouveur.Db.{Version, version_beq, Job, Db, Tx, job_ids}
use trouveur.Queue.{mark_ready, complete}
use trouveur.Queue.Enqueue.{version_beq_refl}
use trouveur.Workers.{load_for_embedding, vector_of, write_embedding, write_embeddings}

-- The posting has a vector of the version.
abbrev pub is_embedded : Version → ℕ → Db → Bool
is_embedded version job_id db =
    any (λ e. e.job_id == job_id && version_beq e.embedding_version version) db.embeddings

write_embedding_embedded :
    (version : Version) (job_id : ℕ) (db : Db)
    → is_embedded version job_id (write_embedding version job_id db) ≡ true
unfolding write_embedding any
write_embedding_embedded version job_id db =
    elim (Bool-cases (any (vector_of job_id) db.embeddings)) [
      | inl old ↦ rw old (
          any_turned _ (vector_of job_id) _
            (λ e here. rw (version_beq_refl version) (ground (arith, here))) db.embeddings old)
      | inr new ↦ rw (new, any-append, beq_same job_id, version_beq_refl version) (ground arith)
    ]

write_embedding_keeps :
    (version : Version) (job_id other : ℕ) (db : Db)
    → is_embedded version other db ≡ true
    → is_embedded version other (write_embedding version job_id db) ≡ true
unfolding write_embedding
write_embedding_keeps version job_id other db h =
    elim (Bool-cases (any (vector_of job_id) db.embeddings)) [
      | inl old ↦ rw old (
          any_updated _ (vector_of job_id) _
            (λ e there here. rw (version_beq_refl version) (ground (arith, there))) db.embeddings h)
      | inr new ↦ rw (new, any-append, h) refl
    ]

write_embeddings_keeps :
    (version : Version) (other : ℕ) (ids : List ℕ) (db : Db)
    → is_embedded version other db ≡ true
    → is_embedded version other (write_embeddings version ids db) ≡ true
unfolding write_embeddings
write_embeddings_keeps version other [] db h = h
write_embeddings_keeps version other (job_id ∷ ids) db h =
    write_embeddings_keeps version other ids (write_embedding version job_id db)
      (write_embedding_keeps version job_id other db h)

pub write_embeddings_embedded :
    (version : Version) (other : ℕ) (ids : List ℕ) (db : Db)
    → elem other ids ≡ true
    → is_embedded version other (write_embeddings version ids db) ≡ true
unfolding write_embeddings elem
write_embeddings_embedded version other [] db h = absurd (ground (arith, h))
write_embeddings_embedded version other (job_id ∷ ids) db h = elim (Bool-cases (job_id == other)) [
  | inl same ↦ write_embeddings_keeps version other ids (write_embedding version job_id db) (
      subst (λ k. is_embedded version k (write_embedding version job_id db) ≡ true)
        ((nat_eq.beq_iff job_id other).0 same) (write_embedding_embedded version job_id db))
  | inr apart ↦
      write_embeddings_embedded version other ids (write_embedding version job_id db)
        (ground (arith, h, apart))
]

pub write_embeddings-items :
    (version : Version) (ids : List ℕ) (db : Db)
    → (write_embeddings version ids db).items ≡ db.items
unfolding write_embeddings write_embedding
write_embeddings-items version [] db = refl
write_embeddings-items version (job_id ∷ ids) db =
    write_embeddings-items version ids (write_embedding version job_id db) ∙ ground arith

pub complete-embeddings :
    (t : Tx) (ids : List ℕ) (db : Db) → (complete t ids db).embeddings ≡ db.embeddings
unfolding complete mark_ready
complete-embeddings t [] db = refl
complete-embeddings t (i ∷ ids) db = refl

abbrev pub has_open : ℕ → Db → Bool
has_open job_id db = any (λ j. j.id == job_id && is_none j.closed_at) db.jobs

load_open_each :
    (ids : List ℕ) (job_id : ℕ) (jobs : List Job)
    → any (λ j. j.id == job_id && is_none j.closed_at) jobs ≡ true
    → elem job_id ids ≡ true
    → elem job_id (job_ids (filter (λ j. elem j.id ids && is_none j.closed_at) jobs)) ≡ true
unfolding any filter elem
load_open_each ids job_id [] there wanted = absurd (ground (arith, there))
load_open_each ids job_id (j ∷ jobs) there wanted =
    elim (Bool-cases (j.id == job_id && is_none j.closed_at)) [
      | inl same ↦
          let listed : elem j.id ids ≡ true =
            ap (λ k. elem k ids) ((nat_eq.beq_iff j.id job_id).0 (ground (arith, same))) ∙ wanted in
          rw listed (ground (arith, same))
      | inr other ↦ elim (Bool-cases (elem j.id ids && is_none j.closed_at)) [
        | inl listed ↦
            rw listed
              (ground (arith, load_open_each ids job_id jobs (ground (arith, there, other)) wanted))
        | inr left ↦ rw left (load_open_each ids job_id jobs (ground (arith, there, other)) wanted)
      ]
    ]

pub load_for_embedding-elem :
    (ids : List ℕ) (job_id : ℕ) (db : Db)
    → has_open job_id db ≡ true
    → elem job_id ids ≡ true
    → elem job_id (job_ids (load_for_embedding ids db)) ≡ true
unfolding load_for_embedding
load_for_embedding-elem ids job_id db there wanted = load_open_each ids job_id db.jobs there wanted
