-- ===== src/Ingest/Persist/Again.antt =====
-- A second `persist` of what the archive already gave.
use trouveur.Prelude.{
  ◌≡◌, refl, sym, ap, ◌∙◌, subst, Bool, true, false, ◌&&◌, not, List, [], ◌∷◌, some, arith, filter,
  ◌==◌, any, count, length, any-append, count-append, any-update_where, count-update_none,
  count-update_all, count_and_none, beq_same, beq_sym, beq_meets, first_of_any, first_fails, All,
  Bool-cases, inl, inr, nat_eq, string_eq, list_eq,
}
use trouveur.Db.{Text, Job, Db, Tx}
use trouveur.Ingest.{
  Incoming, is_posting, same_posting, refresh_job, new_job, upsert_one, upsert_each, has_repeat,
  upsert_jobs,
}
use trouveur.Ingest.Archive.{Archive}
use trouveur.Ingest.Persist.{Setting, PersistResult, gather, is_changed, persist}
use trouveur.Ingest.Persist.Live.{persist-IsPersisted, persisted-jobs}

abbrev differs : Incoming → Job → Bool
differs r j = is_posting r j && not (j.content_hash == r.content_hash)

-- The table has the row's posting, with the row's content.
abbrev IsHeld : Incoming → List Job → Type 0
IsHeld r jobs = (any (is_posting r) jobs ≡ true) × (count (differs r) jobs ≡ 0)

is_posting_meets :
    (r s : Incoming) (j : Job)
    → is_posting r j ≡ true
    → is_posting s j ≡ true
    → same_posting r s ≡ true
is_posting_meets r s j h k = ground (
  arith,
  h,
  k,
  beq_sym j.source r.source,
  beq_sym j.source s.source,
  beq_meets r.source s.source j.source,
  beq_sym j.external_id r.external_id,
  beq_sym j.external_id s.external_id,
  beq_meets r.external_id s.external_id j.external_id,
)

upsert_one-IsHeld : (t : Tx) (r : Incoming) (db : Db) → IsHeld r (upsert_one t r db).jobs
unfolding upsert_one refresh_job new_job any count
upsert_one-IsHeld t r db = elim (Bool-cases (any (is_posting r) db.jobs)) [
  | inl old ↦ rw old (
    rw (any-update_where (is_posting r) (is_posting r) (refresh_job t r) (λ j. refl) db.jobs) old,
    count-update_all (λ j. not (j.content_hash == r.content_hash)) (is_posting r) (refresh_job t r)
        (λ j here. rw (beq_same r.content_hash) refl) db.jobs,
  )
  | inr new ↦ rw new (
    rw (any-append, beq_same r.source, beq_same r.external_id) (ground arith),
    rw
        (
          count-append,
          beq_same r.content_hash,
          count_and_none (is_posting r) (λ j. not (j.content_hash == r.content_hash)) db.jobs new,
        )
        (ground arith),
  )
]

upsert_one_keeps_IsHeld :
    (t : Tx) (r s : Incoming) (db : Db)
    → same_posting r s ≡ false
    → IsHeld r db.jobs
    → IsHeld r (upsert_one t s db).jobs
unfolding upsert_one refresh_job new_job any count
upsert_one_keeps_IsHeld t r s db apart h = elim (Bool-cases (any (is_posting s) db.jobs)) [
  | inl old ↦ rw old (
    rw (any-update_where (is_posting r) (is_posting s) (refresh_job t s) (λ j. refl) db.jobs) h.0,
    count-update_none (differs r) (is_posting s) (refresh_job t s)
        (λ j here. ground (arith, here, apart, is_posting_meets r s j)) db.jobs h.1,
  )
  | inr new ↦ rw new (
    rw (any-append, h.0) refl,
    rw (count-append, h.1)
        (ground (arith, apart, beq_sym s.source r.source, beq_sym s.external_id r.external_id)),
  )
]

upsert_each_keeps_IsHeld :
    (t : Tx) (r : Incoming) (rows : List Incoming) (db : Db)
    → any (same_posting r) rows ≡ false
    → IsHeld r db.jobs
    → IsHeld r (upsert_each t rows db).jobs
unfolding upsert_each any
upsert_each_keeps_IsHeld t r [] db apart h = h
upsert_each_keeps_IsHeld t r (s ∷ rows) db apart h =
    upsert_each_keeps_IsHeld t r rows (upsert_one t s db) (ground (arith, apart))
      (upsert_one_keeps_IsHeld t r s db (ground (arith, apart)) h)

upsert_each-IsHeld :
    (t : Tx) (rows : List Incoming) (db : Db)
    → has_repeat rows ≡ false
    → All (λ r. IsHeld r (upsert_each t rows db).jobs) rows
unfolding upsert_each has_repeat
upsert_each-IsHeld t [] db once = tt
upsert_each-IsHeld t (r ∷ rows) db once = (
  upsert_each_keeps_IsHeld t r rows (upsert_one t r db) (ground (arith, once))
      (upsert_one-IsHeld t r db),
  upsert_each-IsHeld t rows (upsert_one t r db) (ground (arith, once)),
)

upsert_jobs_once :
    (t : Tx) (rows : List Incoming) (db : Db)
    → has_repeat rows ≡ false
    → upsert_jobs t rows db ≡ some (upsert_each t rows db)
unfolding upsert_jobs
upsert_jobs_once t rows db once = rw once refl

upsert_jobs-once :
    (t : Tx) (rows : List Incoming) (db db' : Db)
    → upsert_jobs t rows db ≡ some db'
    → (has_repeat rows ≡ false) × (upsert_each t rows db ≡ db')
unfolding upsert_jobs
upsert_jobs-once t rows db db' h = elim (Bool-cases (has_repeat rows)) [
  | inl twice ↦ absurd (ground (arith, h, twice))
  | inr once ↦ (once, ground (arith, h, once))
]

module _ {ℓ} {Payload : Type ℓ} (s : Setting Payload) where
  held-is_changed : (r : Incoming) (db : Db) → IsHeld r db.jobs → is_changed s db r ≡ false
  unfolding is_changed
  held-is_changed r db h =
      let (j, found) = first_of_any (is_posting r) db.jobs h.0 in
      let same =
        first_fails (is_posting r) (λ j. not (j.content_hash == r.content_hash)) db.jobs j found
          h.1 in
      rw (found, is_changed) (ground (arith, same))

  none_changed :
      (rows : List Incoming) (db : Db)
      → All (λ r. IsHeld r db.jobs) rows
      → (filter (is_changed s db) rows ≡ [])
        × (count (λ r. not (is_changed s db r)) rows ≡ length rows)
  unfolding filter count
  none_changed [] db h = (refl, refl)
  none_changed (r ∷ rows) db h =
      let rest = none_changed rows db h.1 in
      (rw (held-is_changed r db h.0) rest.0, rw (held-is_changed r db h.0) (ground (arith, rest.1)))

  -- Where persist returns, persisting the same ids from the same archive again returns too, writes
  -- as many postings, and reports none of them as changed and all as unchanged.
  pub persist-persist :
      (t t' : Tx) (ar : Archive Payload) (ids : List Text) (db db' : Db) (r : PersistResult)
      → persist s t ar ids db ≡ some (db', r)
      → (again : Db × PersistResult) × (persist s t' ar ids db' ≡ some again)
        × ((again.1).changed ≡ [])
        × ((again.1).unchanged ≡ r.upserted)
        × ((again.1).upserted ≡ r.upserted)
  unfolding persist
  persist-persist t t' ar ids db db' r h =
      let p = persist-IsPersisted s t ar ids db db' r h in
      let rows = (gather s ar ids).rows in
      let (once, up) = upsert_jobs-once t rows db p.upserted p.written in
      let held : All (λ r. IsHeld r db'.jobs) rows =
        subst (λ jobs. All (λ r. IsHeld r jobs) rows)
          (ap (λ (d : Db). d.jobs) up ∙ sym (persisted-jobs s t ar ids db db' r p))
          (upsert_each-IsHeld t rows db once) in
      let same = none_changed rows db' held in
      rw (upsert_jobs_once t' rows db' once, persist)
        (_, refl, rw same.0 refl, same.1 ∙ sym p.counted, sym p.counted)
