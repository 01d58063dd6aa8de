-- ===== src/Ingest/Persist/Work.antt =====
-- The work that `persist` queues for what changed.
use trouveur.Prelude.{
  ◌≡◌, refl, sym, ◌∙◌, subst, ℕ, true, false, List, some, arith, elem, elem-append_left, filter,
  ◌==◌, nat_eq,
}
use trouveur.Db.{
  Text, WorkKind, detail, derive, embed, dedup, kind_eq, Version, numbered, Db, Tx, Item,
}
use trouveur.Queue.{enqueue}
use trouveur.Queue.Enqueue.{item_for, enqueue_reaches, enqueue_other}
use trouveur.Ingest.Archive.{Archive}
use trouveur.Ingest.Persist.{
  Setting, PersistResult, Gathered, gather, ids_in, is_changed, queue_work, persist,
}
use trouveur.Ingest.Persist.Live.{persist-IsPersisted}

-- The posting has a work item of the kind, at the version.
abbrev pub IsWanted : WorkKind → Version → ℕ → Db → Type 0
IsWanted kind target job_id db =
    (i : Item) × (item_for kind job_id db ≡ some i) × (i.target_version ≡ target)

IsWanted-other :
    (t : Tx) (kind k : WorkKind) (target version : Version) (ids : List ℕ) (job_id : ℕ) (db : Db)
    → (kind == k) ≡ false
    → IsWanted k version job_id db
    → IsWanted k version job_id (enqueue t kind ids target db).0
IsWanted-other t kind k target version ids job_id db apart (i, found, same) =
    (i, enqueue_other t kind target ids k job_id db (ground (arith, apart)) ∙ found, same)

module _ {ℓ} {Payload : Type ℓ} (s : Setting Payload) where
  queue_work_changed :
      (t : Tx) (old : Db) (g : Gathered) (db : Db) (job_id : ℕ)
      → elem job_id (ids_in s db (filter (is_changed s old) g.rows)) ≡ true
      → IsWanted derive (numbered s.derive_version) job_id (queue_work s t old g db)
        × IsWanted dedup (numbered s.dedup_version) job_id (queue_work s t old g db)
  unfolding queue_work
  queue_work_changed t old g db job_id h = (
    IsWanted-other t embed derive _ _ _ job_id _ refl (
        IsWanted-other t detail derive _ _ _ job_id _ refl (
          IsWanted-other t dedup derive _ _ _ job_id _ refl
            (enqueue_reaches t derive _ _ db job_id (elem-append_left job_id _ _ h)))),
    IsWanted-other t embed dedup _ _ _ job_id _ refl (
        IsWanted-other t detail dedup _ _ _ job_id _ refl (enqueue_reaches t dedup _ _ _ job_id h)),
  )

  -- Where persist returns, every posting that it reports as changed has its derive and its dedup
  -- item at the versions in force.
  pub persist_queued :
      (t : Tx) (ar : Archive Payload) (ids : List Text) (db db' : Db) (r : PersistResult)
      (job_id : ℕ)
      → persist s t ar ids db ≡ some (db', r)
      → elem job_id r.changed ≡ true
      → IsWanted derive (numbered s.derive_version) job_id db'
        × IsWanted dedup (numbered s.dedup_version) job_id db'
  persist_queued t ar ids db db' r job_id h member =
      let p = persist-IsPersisted s t ar ids db db' r h in
      subst
        (λ d.
          IsWanted derive (numbered s.derive_version) job_id d
          × IsWanted dedup (numbered s.dedup_version) job_id d)
        (sym p.queued)
        (queue_work_changed t db (gather s ar ids) p.ensured job_id
          (subst (λ ks. elem job_id ks ≡ true) p.changed member))
