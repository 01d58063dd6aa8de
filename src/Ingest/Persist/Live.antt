-- ===== src/Ingest/Persist/Live.antt =====
-- What was archived and reads as a posting is live after `persist`.
use trouveur.Prelude.{
  ℕ, ◌≡◌, refl, sym, ap, ◌∙◌, subst, Bool, true, false, not, ◌&&◌, some, none, List, [], ◌∷◌, map,
  arith, ltb, nat_eq, string_eq, list_eq, any, filter, All, All_of_map, length, Option-cases, inl,
  inr,
}
use trouveur.Db.{Text, Db, Tx}
use trouveur.Queue.Stale.{enqueue-tables}
use trouveur.Ingest.{upsert_jobs, ensure_facet_row, ensure_facet_rows}
use trouveur.Ingest.Seen.{is_seen, has_seen, upsert_jobs_seen}
use trouveur.Ingest.Archive.{Archive, RawDocument, DocumentKind, archive_documents, latest_document}
use trouveur.Ingest.Archive.Latest.{is_answered, archive_documents_answered}
use trouveur.Ingest.Persist.{
  payload_of, row_of, Setting, PersistResult, Gathered, incoming, gather, ids_in, queue_work,
  is_changed, persist, detail_of,
}

ensure_facet_row-jobs : (job_id : ℕ) (db : Db) → (ensure_facet_row job_id db).jobs ≡ db.jobs
unfolding ensure_facet_row
ensure_facet_row-jobs job_id db = ground arith

pub ensure_facet_rows-jobs : (ids : List ℕ) (db : Db) → (ensure_facet_rows ids db).jobs ≡ db.jobs
unfolding ensure_facet_rows
ensure_facet_rows-jobs [] db = refl
ensure_facet_rows-jobs (job_id ∷ ids) db =
    ensure_facet_rows-jobs ids (ensure_facet_row job_id db) ∙ ensure_facet_row-jobs job_id db

module _ {ℓ} {Payload : Type ℓ} (s : Setting Payload) where
  pub queue_work-jobs :
      (t : Tx) (old : Db) (g : Gathered) (db : Db) → (queue_work s t old g db).jobs ≡ db.jobs
  unfolding queue_work
  queue_work-jobs t old g db =
      (enqueue-tables t _ _ _ _).0
      ∙ (enqueue-tables t _ _ _ _).0
      ∙ (enqueue-tables t _ _ _ _).0
      ∙ (enqueue-tables t _ _ _ _).0

  -- A normal return came from an upsert, and left its postings as they were.
  pub record IsPersisted (t : Tx) (ar : Archive Payload) (ids : List Text) (db db' : Db)
      (r : PersistResult) : Type ℓ where
    pub upserted : Db
    pub written : upsert_jobs t (gather s ar ids).rows db ≡ some upserted
    pub ensured : Db
    pub seeded : ensured ≡ ensure_facet_rows (ids_in s upserted (gather s ar ids).rows) upserted
    pub queued : db' ≡ queue_work s t db (gather s ar ids) ensured
    pub changed : r.changed ≡ ids_in s ensured (filter (is_changed s db) (gather s ar ids).rows)
    pub counted : r.upserted ≡ length (gather s ar ids).rows

  pub persist-IsPersisted :
      (t : Tx) (ar : Archive Payload) (ids : List Text) (db db' : Db) (r : PersistResult)
      → persist s t ar ids db ≡ some (db', r)
      → IsPersisted t ar ids db db' r
  unfolding persist
  persist-IsPersisted t ar ids db db' r h =
      elim (Option-cases (upsert_jobs t (gather s ar ids).rows db)) [
        | inl e ↦ absurd (ground (arith, h, e))
        | inr (up, e) ↦ record {
          upserted = up;
          written = e;
          ensured = ensure_facet_rows (ids_in s up (gather s ar ids).rows) up;
          seeded = refl;
          queued = ground (arith, h, e);
          changed = ground (arith, h, e);
          counted = ground (arith, h, e);
        }
      ]

  pub persisted-jobs :
      (t : Tx) (ar : Archive Payload) (ids : List Text) (db db' : Db) (r : PersistResult)
      (p : IsPersisted t ar ids db db' r)
      → db'.jobs ≡ p.upserted.jobs
  persisted-jobs t ar ids db db' r p =
      ap (λ (d : Db). d.jobs) p.queued
      ∙ queue_work-jobs t db (gather s ar ids) p.ensured
      ∙ ap (λ (d : Db). d.jobs) p.seeded
      ∙ ensure_facet_rows-jobs (ids_in s p.upserted (gather s ar ids).rows) p.upserted

  -- The posting of an id is open and seen now, if its listing is archived and reads as one.
  abbrev pub is_live : ℕ → Archive Payload → Db → Text → Bool
  is_live now ar db external_id = elim (incoming s ar external_id) [
    | none ↦ true
    | some row ↦ has_seen now row db
  ]

  gathered_live :
      (now : ℕ) (ar : Archive Payload) (db : Db) (ids : List Text)
      → All (λ row. has_seen now row db ≡ true) (gather s ar ids).rows
      → All (λ external_id. is_live now ar db external_id ≡ true) ids
  unfolding gather
  gathered_live now ar db [] h = tt
  gathered_live now ar db (external_id ∷ ids) h = elim (Option-cases (incoming s ar external_id)) [
    | inl e ↦ (rw (e, is_live) refl, gathered_live now ar db ids (rw (e, gather) at h))
    | inr (row, e) ↦
        let h' = rw (e, gather) at h in (rw (e, is_live) h'.0, gathered_live now ar db ids h'.1)
  ]

  pub persist_live :
      (t : Tx) (ar : Archive Payload) (ids : List Text) (db db' : Db) (r : PersistResult)
      → persist s t ar ids db ≡ some (db', r)
      → All (λ external_id. is_live t.now ar db' external_id ≡ true) ids
  persist_live t ar ids db db' r h =
      let p = persist-IsPersisted t ar ids db db' r h in
      gathered_live t.now ar db' ids (
        subst (λ jobs. All (λ row. any (is_seen t.now row) jobs ≡ true) (gather s ar ids).rows)
          (sym (persisted-jobs t ar ids db db' r p))
          (upsert_jobs_seen t (gather s ar ids).rows db p.upserted p.written))

  -- The archive answers the document's id with a listing as new as it, and the posting that the
  -- normalizer reads there, if it reads one, is open and seen now.
  abbrev pub is_stored : ℕ → Archive Payload → Db → RawDocument Payload → Bool
  is_stored now ar db d = elim (latest_document s.source DocumentKind.listing d.external_id ar) [
    | none ↦ false
    | some a ↦
        not (ltb (a.document).fetched_at d.fetched_at)
        && elim (s.normalize (a.document).payload (payload_of s (detail_of s ar d.external_id))
            d.external_id) [
              | none ↦ true
              | some item ↦ has_seen now (row_of s a d.external_id item) db
            ]
  ]

  is_stored_lem :
      (now : ℕ) (ar : Archive Payload) (db : Db) (d : RawDocument Payload)
      → d.source ≡ s.source
      → d.kind ≡ DocumentKind.listing
      → is_answered ar d ≡ true
      → is_live now ar db d.external_id ≡ true
      → is_stored now ar db d ≡ true
  unfolding incoming
  is_stored_lem now ar db d own kind answered live =
      let answered' : is_answered ar (record d { source = s.source; kind = DocumentKind.listing })
          ≡ true =
        subst (λ k. is_answered ar (record d { source = s.source; kind = k }) ≡ true) kind
          (subst (λ source. is_answered ar (record d { source = source }) ≡ true) own answered) in
      elim (Option-cases (latest_document s.source DocumentKind.listing d.external_id ar)) [
        | inl e ↦ absurd (ground (arith, answered', e))
        | inr (a, e) ↦
            elim (Option-cases (
              s.normalize (a.document).payload (payload_of s (detail_of s ar d.external_id))
                d.external_id)) [
                  | inl f ↦ rw (e, is_stored, f) (ground (arith, answered', e))
                  | inr (item, f) ↦ rw (e, is_stored, f) (ground (arith, answered', e, live, f))
                ]
      ]

  is_stored_each :
      (now : ℕ) (ar : Archive Payload) (db : Db) (documents : List (RawDocument Payload))
      → All (λ d. (d.source ≡ s.source) × (d.kind ≡ DocumentKind.listing)) documents
      → All (λ d. is_answered ar d ≡ true) documents
      → All (λ d. is_live now ar db d.external_id ≡ true) documents
      → All (λ d. is_stored now ar db d ≡ true) documents
  is_stored_each now ar db [] own answered live = tt
  is_stored_each now ar db (d ∷ documents) own answered live = (
    is_stored_lem now ar db d (own.0).0 (own.0).1 answered.0 live.0,
    is_stored_each now ar db documents own.1 answered.1 live.1,
  )

  -- Where a batch of a source's listings is archived and its ids are then persisted, both without
  -- an error, the archive answers each document's id with a listing as new as the document, and
  -- the posting that the normalizer reads there, if it reads one, is open and seen now.
  pub stored_live :
      (t : Tx) (documents : List (RawDocument Payload)) (ar ar' : Archive Payload) (db db' : Db)
      (r : PersistResult)
      → All (λ d. (d.source ≡ s.source) × (d.kind ≡ DocumentKind.listing)) documents
      → archive_documents documents ar ≡ some ar'
      → persist s t ar' (map (λ d. d.external_id) documents) db ≡ some (db', r)
      → All (λ d. is_stored t.now ar' db' d ≡ true) documents
  stored_live t documents ar ar' db db' r own kept h =
      let answered = archive_documents_answered documents ar ar' kept in
      let live =
        All_of_map (λ external_id. is_live t.now ar' db' external_id ≡ true) (λ d. d.external_id)
          documents (persist_live t ar' _ db db' r h) in
      is_stored_each t.now ar' db' documents own answered live
