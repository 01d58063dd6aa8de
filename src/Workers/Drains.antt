-- ===== src/Workers/Drains.antt =====
-- A drainer takes an item off the queue only with its work done.
use trouveur.Prelude.{
  ℕ, ◌≡◌, ◌⊎◌, refl, sym, ap, ◌∙◌, subst, true, ◌&&◌, some, none, ◌==◌, nat_eq, elem, any,
  List-cases, Bool-cases, inl, inr,
}
use trouveur.Db.{WorkKind, derive, dedup, Item, Db, Tx, item_ids, job_ids}
use trouveur.Queue.{take_claims, claim, complete}
use trouveur.Queue.Valid.{IsValid}
use trouveur.Queue.Claims.{item_at}
use trouveur.Workers.{
  worker, jobs_of, load_jobs, write_facets, write_dedup_markers, drain_derive, drain_dedup,
}
use trouveur.Workers.Claimed.{claim-jobs_of, claimed_gone}
use trouveur.Workers.Writes.{
  has_job, is_derived, is_marked, write_facets_derived, write_facets-items,
  write_dedup_markers_marked, complete-facets, complete_marked, load_jobs-elem, load_jobs_none,
  write_dedup_markers_none, write_dedup_markers-items,
}

pub claim-jobs :
    (t : Tx) (kind : WorkKind) (limit : ℕ) (db : Db)
    → (claim t kind limit worker db).0.jobs ≡ db.jobs
unfolding claim take_claims
claim-jobs t kind limit db = refl

drain_derive_whole :
    (t : Tx) (version limit : ℕ) (db : Db)
    → (drain_derive t version limit db).0 ≡ (
        let claimed = (claim t derive limit worker db).0 in
        let items = (claim t derive limit worker db).1 in
        complete t
          (item_ids items)
          (write_facets version (job_ids (load_jobs (jobs_of items) claimed)) claimed))
unfolding drain_derive complete write_facets
drain_derive_whole t version limit db = elim (List-cases (claim t derive limit worker db).1) [
  | inl e ↦ rw (e, drain_derive, load_jobs_none (claim t derive limit worker db).0) refl
  | inr (r, rest, e) ↦ rw (e, drain_derive) refl
]

-- After drain_derive on a valid queue, an item whose posting stands is as it was, or it is gone
-- and the posting has facets of the version.
pub drain_derive_settles :
    (t : Tx) (version limit : ℕ) (db : Db) (r : Item)
    → IsValid db
    → item_at r.id db ≡ some r
    → has_job r.job_id db ≡ true
    → (item_at r.id (drain_derive t version limit db).0 ≡ some r)
      ⊎ ((item_at r.id (drain_derive t version limit db).0 ≡ none)
          × (is_derived version r.job_id (drain_derive t version limit db).0 ≡ true))
drain_derive_settles t version limit db r v present there =
    let claimed = (claim t derive limit worker db).0 in
    let items = (claim t derive limit worker db).1 in
    let ids = job_ids (load_jobs (jobs_of items) claimed) in
    let written = write_facets version ids claimed in
    let gone =
      ap (item_at r.id) (drain_derive_whole t version limit db)
      ∙ claimed_gone t derive limit db r written v present
          (write_facets-items version ids claimed) in
    elim (Bool-cases (elem r.id (item_ids items))) [
      | inr left ↦ inl (gone ∙ rw left refl)
      | inl taken ↦
          let wanted =
            load_jobs-elem (jobs_of items) r.job_id claimed
              (subst (λ jobs. any (λ j. j.id == r.job_id) jobs ≡ true)
                (sym (claim-jobs t derive limit db)) there)
              (claim-jobs_of t derive limit db r v present taken) in
          inr (
            gone ∙ rw taken refl,
            ap (is_derived version r.job_id) (drain_derive_whole t version limit db)
                ∙ ap
                    (λ facets.
                      any (λ f. f.job_id == r.job_id && f.derive_version == version) facets)
                    (complete-facets t (item_ids items) written)
                ∙ write_facets_derived version r.job_id ids claimed wanted,
          )
    ]

drain_dedup_whole :
    (t : Tx) (version limit : ℕ) (db : Db)
    → (drain_dedup t version limit db).0 ≡ (
        let claimed = (claim t dedup limit worker db).0 in
        let items = (claim t dedup limit worker db).1 in
        complete t
          (item_ids items)
          (write_dedup_markers version (job_ids (load_jobs (jobs_of items) claimed)) claimed))
unfolding drain_dedup complete
drain_dedup_whole t version limit db = elim (List-cases (claim t dedup limit worker db).1) [
  | inl e ↦
      rw (e, drain_dedup, load_jobs_none (claim t dedup limit worker db).0)
        (sym (write_dedup_markers_none version (claim t dedup limit worker db).0))
  | inr (r, rest, e) ↦ rw (e, drain_dedup) refl
]

-- After drain_dedup on a valid queue, an item whose posting stands is as it was, or it is gone and
-- the posting is marked at the version.
pub drain_dedup_settles :
    (t : Tx) (version limit : ℕ) (db : Db) (r : Item)
    → IsValid db
    → item_at r.id db ≡ some r
    → has_job r.job_id db ≡ true
    → (item_at r.id (drain_dedup t version limit db).0 ≡ some r)
      ⊎ ((item_at r.id (drain_dedup t version limit db).0 ≡ none)
          × (is_marked version r.job_id (drain_dedup t version limit db).0 ≡ true))
drain_dedup_settles t version limit db r v present there =
    let claimed = (claim t dedup limit worker db).0 in
    let items = (claim t dedup limit worker db).1 in
    let ids = job_ids (load_jobs (jobs_of items) claimed) in
    let written = write_dedup_markers version ids claimed in
    let gone =
      ap (item_at r.id) (drain_dedup_whole t version limit db)
      ∙ claimed_gone t dedup limit db r written v present
          (write_dedup_markers-items version ids claimed) in
    elim (Bool-cases (elem r.id (item_ids items))) [
      | inr left ↦ inl (gone ∙ rw left refl)
      | inl taken ↦
          let standing =
            subst (λ jobs. any (λ j. j.id == r.job_id) jobs ≡ true)
              (sym (claim-jobs t dedup limit db)) there in
          let wanted =
            load_jobs-elem (jobs_of items) r.job_id claimed standing
              (claim-jobs_of t dedup limit db r v present taken) in
          inr (
            gone ∙ rw taken refl,
            ap (is_marked version r.job_id) (drain_dedup_whole t version limit db)
                ∙ complete_marked t (item_ids items) version r.job_id written
                ∙ write_dedup_markers_marked version r.job_id ids claimed standing wanted,
          )
    ]
