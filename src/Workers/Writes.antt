-- ===== src/Workers/Writes.antt =====
-- What the drainers write stays written.
use trouveur.Prelude.{
  ℕ, ◌≡◌, refl, ap, subst, ◌∙◌, Bool, true, ◌&&◌, List, [], ◌∷◌, arith, ◌==◌, nat_eq, filter, elem,
  any, any-append, any_updated, any_turned, any-update_where, update_where, Bool-cases, inl, inr,
  beq_same,
}
use trouveur.Db.{Job, Db, Tx, job_ids}
use trouveur.Queue.{mark_ready, complete}
use trouveur.Workers.{load_jobs, facet_of, write_facet, write_facets, write_dedup_markers}

abbrev pub has_job : ℕ → Db → Bool
has_job job_id db = any (λ j. j.id == job_id) db.jobs

-- The posting has facets of the version; its marker.
abbrev pub is_derived : ℕ → ℕ → Db → Bool
is_derived version job_id db =
    any (λ f. f.job_id == job_id && f.derive_version == version) db.facets

abbrev pub is_marked : ℕ → ℕ → Db → Bool
is_marked version job_id db = any (λ j. j.id == job_id && j.dedup_version == version) db.jobs

write_facet_derived :
    (version job_id : ℕ) (db : Db)
    → is_derived version job_id (write_facet version job_id db) ≡ true
unfolding write_facet any
write_facet_derived version job_id db = elim (Bool-cases (any (facet_of job_id) db.facets)) [
  | inl old ↦ rw old (
      any_turned _ (facet_of job_id) _ (λ f here. rw (beq_same version) (ground (arith, here)))
        db.facets old)
  | inr new ↦ rw (new, any-append, beq_same job_id, beq_same version) (ground arith)
]

write_facet_keeps :
    (version job_id other : ℕ) (db : Db)
    → is_derived version other db ≡ true
    → is_derived version other (write_facet version job_id db) ≡ true
unfolding write_facet
write_facet_keeps version job_id other db h = elim (Bool-cases (any (facet_of job_id) db.facets)) [
  | inl old ↦ rw old (
      any_updated _ (facet_of job_id) _
        (λ f there here. rw (beq_same version) (ground (arith, there))) db.facets h)
  | inr new ↦ rw (new, any-append, h) refl
]

write_facets_keeps :
    (version other : ℕ) (ids : List ℕ) (db : Db)
    → is_derived version other db ≡ true
    → is_derived version other (write_facets version ids db) ≡ true
unfolding write_facets
write_facets_keeps version other [] db h = h
write_facets_keeps version other (job_id ∷ ids) db h =
    write_facets_keeps version other ids (write_facet version job_id db)
      (write_facet_keeps version job_id other db h)

pub write_facets_derived :
    (version other : ℕ) (ids : List ℕ) (db : Db)
    → elem other ids ≡ true
    → is_derived version other (write_facets version ids db) ≡ true
unfolding write_facets elem
write_facets_derived version other [] db h = absurd (ground (arith, h))
write_facets_derived version other (job_id ∷ ids) db h = elim (Bool-cases (job_id == other)) [
  | inl same ↦ write_facets_keeps version other ids (write_facet version job_id db) (
      subst (λ k. is_derived version k (write_facet version job_id db) ≡ true)
        ((nat_eq.beq_iff job_id other).0 same) (write_facet_derived version job_id db))
  | inr apart ↦
      write_facets_derived version other ids (write_facet version job_id db)
        (ground (arith, h, apart))
]

pub write_facets-items :
    (version : ℕ) (ids : List ℕ) (db : Db) → (write_facets version ids db).items ≡ db.items
unfolding write_facets write_facet
write_facets-items version [] db = refl
write_facets-items version (job_id ∷ ids) db =
    write_facets-items version ids (write_facet version job_id db) ∙ ground arith

pub complete-facets : (t : Tx) (ids : List ℕ) (db : Db) → (complete t ids db).facets ≡ db.facets
unfolding complete mark_ready
complete-facets t [] db = refl
complete-facets t (i ∷ ids) db = refl

load_jobs_each :
    (ids : List ℕ) (job_id : ℕ) (jobs : List Job)
    → any (λ j. j.id == job_id) jobs ≡ true
    → elem job_id ids ≡ true
    → elem job_id (job_ids (filter (λ j. elem j.id ids) jobs)) ≡ true
unfolding any filter elem
load_jobs_each ids job_id [] there wanted = absurd (ground (arith, there))
load_jobs_each ids job_id (j ∷ jobs) there wanted = elim (Bool-cases (j.id == job_id)) [
  | inl same ↦
      let listed : elem j.id ids ≡ true =
        ap (λ k. elem k ids) ((nat_eq.beq_iff j.id job_id).0 same) ∙ wanted in
      rw listed (rw same refl)
  | inr other ↦ elim (Bool-cases (elem j.id ids)) [
    | inl listed ↦
        rw listed (rw other (load_jobs_each ids job_id jobs (ground (arith, there, other)) wanted))
    | inr left ↦ rw left (load_jobs_each ids job_id jobs (ground (arith, there, other)) wanted)
  ]
]

pub complete_marked :
    (t : Tx) (ids : List ℕ) (version job_id : ℕ) (db : Db)
    → is_marked version job_id (complete t ids db) ≡ is_marked version job_id db
unfolding complete mark_ready
complete_marked t [] version job_id db = refl
complete_marked t (i ∷ ids) version job_id db = any-update_where _ _ _ (λ j. refl) db.jobs

marked_each :
    (version job_id : ℕ) (ids : List ℕ) (jobs : List Job)
    → any (λ j. j.id == job_id) jobs ≡ true
    → elem job_id ids ≡ true
    → any
        (λ j. j.id == job_id && j.dedup_version == version)
        (update_where (λ j. elem j.id ids) (λ j. record j { dedup_version = version }) jobs)
      ≡ true
unfolding any update_where
marked_each version job_id ids [] there wanted = absurd (ground (arith, there))
marked_each version job_id ids (j ∷ jobs) there wanted = elim (Bool-cases (j.id == job_id)) [
  | inl same ↦
      let listed : elem j.id ids ≡ true =
        ap (λ k. elem k ids) ((nat_eq.beq_iff j.id job_id).0 same) ∙ wanted in
      rw listed (rw (same, beq_same version) refl)
  | inr other ↦
      let rest = marked_each version job_id ids jobs (ground (arith, there, other)) wanted in
      ground (arith, rest)
]

pub write_dedup_markers_marked :
    (version job_id : ℕ) (ids : List ℕ) (db : Db)
    → has_job job_id db ≡ true
    → elem job_id ids ≡ true
    → is_marked version job_id (write_dedup_markers version ids db) ≡ true
unfolding write_dedup_markers
write_dedup_markers_marked version job_id ids db there wanted =
    marked_each version job_id ids db.jobs there wanted

marks_none :
    (version : ℕ) (jobs : List Job)
    → update_where (λ j. elem j.id []) (λ j. record j { dedup_version = version }) jobs ≡ jobs
unfolding update_where elem
marks_none version [] = refl
marks_none version (j ∷ jobs) = ap (◌∷◌ j) (marks_none version jobs)

pub write_dedup_markers_none : (version : ℕ) (db : Db) → write_dedup_markers version [] db ≡ db
unfolding write_dedup_markers
write_dedup_markers_none version db =
    ap (λ jobs. record db { jobs = jobs }) (marks_none version db.jobs)

pub write_dedup_markers-items :
    (version : ℕ) (ids : List ℕ) (db : Db) → (write_dedup_markers version ids db).items ≡ db.items
unfolding write_dedup_markers
write_dedup_markers-items version ids db = refl

filter_none : (jobs : List Job) → filter (λ j. elem j.id []) jobs ≡ []
unfolding filter elem
filter_none [] = refl
filter_none (j ∷ jobs) = filter_none jobs

pub load_jobs_none : (db : Db) → load_jobs [] db ≡ []
unfolding load_jobs
load_jobs_none db = filter_none db.jobs

pub load_jobs-elem :
    (ids : List ℕ) (job_id : ℕ) (db : Db)
    → has_job job_id db ≡ true
    → elem job_id ids ≡ true
    → elem job_id (job_ids (load_jobs ids db)) ≡ true
unfolding load_jobs
load_jobs-elem ids job_id db there wanted = load_jobs_each ids job_id db.jobs there wanted
