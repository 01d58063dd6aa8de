-- ===== src/Ingest/Seen.antt =====
-- Postings that a sweep stores are live, and its closing statement leaves them so.
use trouveur.Prelude.{
  ℕ, ◌+◌, ◌≤◌, ◌≡◌, refl, Bool, true, ◌&&◌, some, List, [], ◌∷◌, String, arith, ◌==◌, nat_eq,
  string_eq, list_eq, beq_same, is_none, any, any-append, any_updated, any_turned, subst, All,
  All-map, Bool-cases, inl, inr,
}
use trouveur.Db.{Text, Job, Db, Tx}
use trouveur.Ingest.{
  Incoming, is_posting, refresh_job, new_job, upsert_one, upsert_each, has_repeat, upsert_jobs,
  close_where, close_unseen, close_stale,
}

-- The posting of the row, open and seen now.
abbrev pub is_seen : ℕ → Incoming → Job → Bool
is_seen now r j = is_posting r j && (is_none j.closed_at && j.last_seen_at == now)

abbrev pub has_seen : ℕ → Incoming → Db → Bool
has_seen now r db = any (is_seen now r) db.jobs

upsert_one_keeps :
    (t : Tx) (r s : Incoming) (db : Db)
    → has_seen t.now r db ≡ true
    → has_seen t.now r (upsert_one t s db) ≡ true
unfolding upsert_one refresh_job
upsert_one_keeps t r s db h = elim (Bool-cases (any (is_posting s) db.jobs)) [
  | inl old ↦ rw old (
      any_updated (is_seen t.now r) (is_posting s) (refresh_job t s)
        (λ j seen here. rw (beq_same t.now) (ground arith)) db.jobs h)
  | inr new ↦ rw (new, any-append, h) refl
]

upsert_one_seen : (t : Tx) (r : Incoming) (db : Db) → has_seen t.now r (upsert_one t r db) ≡ true
unfolding upsert_one refresh_job new_job any
upsert_one_seen t r db = elim (Bool-cases (any (is_posting r) db.jobs)) [
  | inl old ↦ rw old (
      any_turned (is_seen t.now r) (is_posting r) (refresh_job t r)
        (λ j here. rw (beq_same t.now) (ground (arith, here))) db.jobs old)
  | inr new ↦
      rw (new, any-append, beq_same t.now, beq_same r.source, beq_same r.external_id) (ground arith)
]

upsert_each_keeps :
    (t : Tx) (r : Incoming) (rows : List Incoming) (db : Db)
    → has_seen t.now r db ≡ true
    → has_seen t.now r (upsert_each t rows db) ≡ true
unfolding upsert_each
upsert_each_keeps t r [] db h = h
upsert_each_keeps t r (s ∷ rows) db h =
    upsert_each_keeps t r rows (upsert_one t s db) (upsert_one_keeps t r s db h)

upsert_each_seen :
    (t : Tx) (rows : List Incoming) (db : Db)
    → All (λ r. has_seen t.now r (upsert_each t rows db) ≡ true) rows
unfolding upsert_each
upsert_each_seen t [] db = tt
upsert_each_seen t (r ∷ rows) db = (
  upsert_each_keeps t r rows (upsert_one t r db) (upsert_one_seen t r db),
  upsert_each_seen t rows (upsert_one t r db),
)

-- Every row that the statement wrote is a posting that is open and seen now.
pub upsert_jobs_seen :
    (t : Tx) (rows : List Incoming) (db db' : Db)
    → upsert_jobs t rows db ≡ some db'
    → All (λ r. has_seen t.now r db' ≡ true) rows
unfolding upsert_jobs
upsert_jobs_seen t rows db db' h = elim (Bool-cases (has_repeat rows)) [
  | inl twice ↦ absurd (ground (arith, h, twice))
  | inr once ↦
      let same : upsert_each t rows db ≡ db' = ground (arith, h, once) in
      subst (λ d. All (λ r. has_seen t.now r d ≡ true) rows) same (upsert_each_seen t rows db)
]

-- A posting seen lately is not stale.
pub close_stale_spares :
    (t : Tx) (source : String) (older_than now : ℕ) (r : Incoming) (db : Db)
    → t.now ≤ now + older_than
    → has_seen now r db ≡ true
    → has_seen now r (close_stale t source older_than db).0 ≡ true
unfolding close_stale close_where
close_stale_spares t source older_than now r db late h =
    any_updated (is_seen now r) _ _ (λ j seen closing. absurd (ground (arith, seen, closing, late)))
      db.jobs h

-- A posting seen since the sweep began is not closed by it.
pub close_unseen_spares :
    (t : Tx) (source : String) (scopes : List Text) (started now : ℕ) (r : Incoming) (db : Db)
    → started ≤ now
    → has_seen now r db ≡ true
    → has_seen now r (close_unseen t source scopes started db).0 ≡ true
unfolding close_unseen close_where
close_unseen_spares t source [] started now r db late h = h
close_unseen_spares t source (scope ∷ scopes) started now r db late h =
    any_updated (is_seen now r) _ _ (λ j seen closing. absurd (ground (arith, seen, closing, late)))
      db.jobs h

-- What a sweep stored in one of its batches, at its start or later, is still open after the
-- statement that closes what the sweep did not see.
pub close_unseen-upsert_jobs :
    (t t' : Tx) (source : String) (scopes : List Text) (started : ℕ) (rows : List Incoming)
    (db db' : Db)
    → started ≤ t.now
    → upsert_jobs t rows db ≡ some db'
    → All (λ r. has_seen t.now r (close_unseen t' source scopes started db').0 ≡ true) rows
close_unseen-upsert_jobs t t' source scopes started rows db db' late h =
    All-map (λ r. has_seen t.now r db' ≡ true)
      (λ r. close_unseen_spares t' source scopes started t.now r db' late) rows
      (upsert_jobs_seen t rows db db' h)
