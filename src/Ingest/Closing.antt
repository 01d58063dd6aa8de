-- ===== src/Ingest/Closing.antt =====
-- What the closing statements do to a posting, its vector and its work.
use trouveur.Prelude.{
  ℕ, ◌+◌, ◌≡◌, refl, sym, ap, ◌∙◌, Bool, true, false, not, ◌&&◌, Option, some, List, [], ◌∷◌,
  String, arith, ◌==◌, nat_eq, string_eq, list_eq, is_none, length, filter, any, update_where, elem,
  find, find-update_where, length-map, count, if◌then◌else◌, elem-keys_of_find, Option-cases, inl,
  inr, is_some, Bool-cases, any_congr, ◌||◌,
}
use mathlib.Core.Option
use trouveur.Db.{
  Text, WorkKind, detail, derive, embed, dedup, kind_eq, Item, Job, Embedding, Db, Tx, job_ids,
}
use trouveur.Ingest.{drops, close_where, close_unseen, close_stale, close_retired}

abbrev pub job_at : ℕ → Db → Option Job
job_at k db = find (λ j. j.id) k db.jobs

-- The posting after a closing statement at `now` whose WHERE also says `p`.
abbrev pub closed_if : ℕ → (Job → Bool) → Job → Job
closed_if now p j = if is_none j.closed_at && p j then record j { closed_at = some now } else j

pub job_at-close_where :
    (t : Tx) (p : Job → Bool) (k : ℕ) (db : Db)
    → job_at k (close_where t p db).0 ≡ Option.map (closed_if t.now p) (job_at k db)
unfolding close_where
job_at-close_where t p k db =
    find-update_where (λ (j : Job). j.id) (λ j. is_none j.closed_at && p j)
      (λ j. record j { closed_at = some t.now }) (λ j. refl) k db.jobs

pub closed_if_spared :
    (now : ℕ) (p : Job → Bool) (j : Job)
    → (is_none j.closed_at && p j) ≡ false
    → closed_if now p j ≡ j
closed_if_spared now p j h = rw h refl

-- One of the three closing statements.
pub data Closes (t : Tx) (db : Db) : Db → Type 0 where
  by_sweep :
      (source : String) (scopes : List Text) (started : ℕ)
      → Closes t db (close_unseen t source scopes started db).0
  by_age : (source : String) (older_than : ℕ) → Closes t db (close_stale t source older_than db).0
  by_report : (ids : List ℕ) → Closes t db (close_retired t ids db).0

drops_lem : (kind : WorkKind) → (kind == detail || kind == embed) ≡ drops kind
drops_lem detail = refl
drops_lem derive = refl
drops_lem embed = refl
drops_lem dedup = refl

-- Nothing is left to fetch, to embed or to recall for this posting.
pub record IsDropped (k : ℕ) (db : Db) : Type 0 where
  pub no_vector : any (λ e. e.job_id == k) db.embeddings ≡ false
  pub no_work : any (λ r. r.job_id == k && (r.kind == detail || r.kind == embed)) db.items ≡ false

no_vector_left :
    (k : ℕ) (closed : List ℕ) (es : List Embedding)
    → elem k closed ≡ true
    → any (λ e. e.job_id == k) (filter (λ e. not (elem e.job_id closed)) es) ≡ false
unfolding any filter
no_vector_left k closed [] h = refl
no_vector_left k closed (e ∷ es) h = elim (Bool-cases (e.job_id == k)) [
  | inl here ↦ rw ((nat_eq.beq_iff e.job_id k).0 here) (rw h (no_vector_left k closed es h))
  | inr other ↦ ground (arith, no_vector_left k closed es h)
]

no_work_left :
    (k : ℕ) (closed : List ℕ) (rs : List Item)
    → elem k closed ≡ true
    → any
        (λ r. r.job_id == k && drops r.kind)
        (filter (λ r. not (elem r.job_id closed && drops r.kind)) rs)
      ≡ false
unfolding any filter
no_work_left k closed [] h = refl
no_work_left k closed (r ∷ rs) h = elim (Bool-cases (r.job_id == k)) [
  | inl here ↦ rw ((nat_eq.beq_iff r.job_id k).0 here) (
      rw h (elim (Bool-cases (drops r.kind)) [
        | inl gone ↦ rw gone (no_work_left k closed rs h)
        | inr stays ↦ ground (arith, no_work_left k closed rs h)
      ]))
  | inr other ↦ ground (arith, no_work_left k closed rs h)
]

-- The posting was open before, and is closed after.
pub record IsClosedBetween (k : ℕ) (db db' : Db) : Type 0 where
  pub before : Job
  pub after : Job
  pub found_before : job_at k db ≡ some before
  pub found_after : job_at k db' ≡ some after
  pub was_open : is_none before.closed_at ≡ true
  pub is_shut : is_some after.closed_at ≡ true

some_inj : {a b : Job} → some a ≡ some b → a ≡ b
some_inj h = cc

-- No row that stays as it is was open and is closed.
shut_or_open : (a b : Job) → a ≡ b → is_none a.closed_at ≡ true → is_some b.closed_at ≡ true → ⊥
shut_or_open a b same was shut = elim (Option-cases a.closed_at) [
  | inl e ↦ absurd (ground (arith, e, sym (ap (λ (j : Job). j.closed_at) same), shut))
  | inr (c, e) ↦ absurd (ground (arith, e, was))
]

close_where-IsDropped :
    (t : Tx) (p : Job → Bool) (k : ℕ) (db : Db)
    → IsClosedBetween k db (close_where t p db).0
    → IsDropped k (close_where t p db).0
unfolding close_where
close_where-IsDropped t p k db c =
    let closing = (λ (j : Job). is_none j.closed_at && p j) in
    let same : closed_if t.now p c.before ≡ c.after = some_inj (
      sym (ap (Option.map (closed_if t.now p)) c.found_before)
      ∙ sym (job_at-close_where t p k db)
      ∙ c.found_after) in
    elim (Bool-cases (closing c.before)) [
      | inr kept ↦ absurd (
          shut_or_open c.before c.after (sym (closed_if_spared t.now p c.before kept) ∙ same)
            c.was_open c.is_shut)
      | inl gone ↦
          let named =
            elem-keys_of_find (λ (j : Job). j.id) closing k db.jobs c.before c.found_before gone in
          record {
            no_vector = no_vector_left k (job_ids (filter closing db.jobs)) db.embeddings named;
            no_work =
                any_congr _ _ _ (λ r. ap (λ b. r.job_id == k && b) (drops_lem r.kind))
                ∙ no_work_left k (job_ids (filter closing db.jobs)) db.items named;
          }
    ]

unchanged-IsDropped : (k : ℕ) (db : Db) → IsClosedBetween k db db → IsDropped k db
unchanged-IsDropped k db c = absurd (
    shut_or_open c.before c.after (some_inj (sym c.found_before ∙ c.found_after)) c.was_open
      c.is_shut)

-- A posting that one of the closing statements closes has no vector left, and no detail or embed
-- work.
pub closing-IsDropped :
    (t : Tx) (db db' : Db) (k : ℕ) → Closes t db db' → IsClosedBetween k db db' → IsDropped k db'
unfolding close_unseen close_stale close_retired
closing-IsDropped t db _ k (by_sweep source [] started) c = unchanged-IsDropped k db c
closing-IsDropped t db _ k (by_sweep source (scope ∷ scopes) started) c =
    close_where-IsDropped t _ k db c
closing-IsDropped t db _ k (by_age source older_than) c = close_where-IsDropped t _ k db c
closing-IsDropped t db _ k (by_report []) c = unchanged-IsDropped k db c
closing-IsDropped t db _ k (by_report (id ∷ ids)) c = close_where-IsDropped t _ k db c

-- The number that a closing statement answers is the number of open postings that it closed.
abbrev pub open_jobs : Db → ℕ
open_jobs db = count (λ (j : Job). is_none j.closed_at) db.jobs

closing_counted :
    (now : ℕ) (p : Job → Bool) (js : List Job)
    → count
          (λ (j : Job). is_none j.closed_at)
          (update_where
            (λ j. is_none j.closed_at && p j)
            (λ j. record j { closed_at = some now })
            js)
        + length (filter (λ j. is_none j.closed_at && p j) js)
      ≡ count (λ (j : Job). is_none j.closed_at) js
unfolding count update_where filter
closing_counted now p [] = refl
closing_counted now p (j ∷ js) = elim (Bool-cases (is_none j.closed_at)) [
  | inl open_ ↦ elim (Bool-cases (p j)) [
    | inl hit ↦ rw (open_, hit) (omega (arith, closing_counted now p js))
    | inr miss ↦ rw (open_, miss) (rw open_ (omega (arith, closing_counted now p js)))
  ]
  | inr shut ↦ rw shut (rw shut (omega (arith, closing_counted now p js)))
]

-- The number that the closing statement answers is the number of open postings that it closed.
pub close_unseen_counted :
    (t : Tx) (source : String) (scopes : List Text) (started : ℕ) (db : Db)
    → open_jobs (close_unseen t source scopes started db).0
        + (close_unseen t source scopes started db).1
      ≡ open_jobs db
unfolding close_unseen close_where
close_unseen_counted t source [] started db = omega arith
close_unseen_counted t source (scope ∷ scopes) started db =
    rw length-map (closing_counted t.now _ db.jobs)
