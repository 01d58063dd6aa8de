-- ===== src/Queue/Stale.antt =====
-- What the query of `_stale_query` names, after items are queued and as its bound on the age moves.
use trouveur.Prelude.{
  sym, Bool, ◌==◌, ℕ, ◌≤◌, ◌≡◌, refl, true, List, [], ◌∷◌, some, arith, elem, any, filter,
  Bool-cases, inl, inr, nat_eq, ◌∙◌,
}
use trouveur.Db.{
  WorkKind, detail, derive, embed, dedup, Version, numbered, named, Job, Embedding, job_ids, Db, Tx,
}
use trouveur.Queue.{at_item, enqueue_one, enqueue}
use trouveur.Queue.Upkeep.{needs_vector, stale_rows}

enqueue_one-tables :
    (t : Tx) (kind : WorkKind) (target : Version) (i : ℕ) (db : Db)
    → ((enqueue_one t kind target i db).0.jobs ≡ db.jobs)
      × ((enqueue_one t kind target i db).0.facets ≡ db.facets)
      × ((enqueue_one t kind target i db).0.embeddings ≡ db.embeddings)
unfolding enqueue_one
enqueue_one-tables t kind target i db = elim (Bool-cases (any (at_item kind i) db.items)) [
  | inl e ↦ rw e (refl, refl, refl)
  | inr e ↦ rw e (refl, refl, refl)
]

pub enqueue-tables :
    (t : Tx) (kind : WorkKind) (ids : List ℕ) (target : Version) (db : Db)
    → ((enqueue t kind ids target db).0.jobs ≡ db.jobs)
      × ((enqueue t kind ids target db).0.facets ≡ db.facets)
      × ((enqueue t kind ids target db).0.embeddings ≡ db.embeddings)
unfolding enqueue
enqueue-tables t kind [] target db = (refl, refl, refl)
enqueue-tables t kind (i ∷ ids) target db =
    let one = enqueue_one-tables t kind target i db in
    let rest = enqueue-tables t kind ids target (enqueue_one t kind target i db).0 in
    (rest.0 ∙ one.0, rest.1 ∙ one.1, rest.2 ∙ one.2)

-- Queueing work leaves the rows that the query reads as they were.
pub stale_rows-enqueue :
    (t : Tx) (kind k : WorkKind) (ids : List ℕ) (target w : Version) (fresh_since : ℕ) (db : Db)
    → stale_rows k w fresh_since (enqueue t kind ids target db).0 ≡ stale_rows k w fresh_since db
unfolding stale_rows
stale_rows-enqueue t kind detail ids target w fresh_since db = refl
stale_rows-enqueue t kind derive ids target (numbered n) fresh_since db =
    rw ((enqueue-tables t kind ids target db).1) refl
stale_rows-enqueue t kind derive ids target (named s) fresh_since db = refl
stale_rows-enqueue t kind embed ids target w fresh_since db =
    rw ((enqueue-tables t kind ids target db).0, (enqueue-tables t kind ids target db).2) refl
stale_rows-enqueue t kind dedup ids target (numbered n) fresh_since db =
    rw ((enqueue-tables t kind ids target db).0) refl
stale_rows-enqueue t kind dedup ids target (named s) fresh_since db = refl

elem-filter_shrinks :
    (p q : Job → Bool) (k : ℕ) (js : List Job)
    → ((j : Job) → p j ≡ true → q j ≡ true)
    → elem k (job_ids (filter p js)) ≡ true
    → elem k (job_ids (filter q js)) ≡ true
unfolding filter elem
elem-filter_shrinks p q k [] sub m = absurd (ground (arith, m))
elem-filter_shrinks p q k (j ∷ js) sub m = elim (Bool-cases (p j)) [
  | inl hit ↦ rw (sub j hit) (elim (Bool-cases (j.id == k)) [
    | inl here ↦ rw here refl
    | inr other ↦ rw other (elem-filter_shrinks p q k js sub (rw (hit, other) at m))
  ])
  | inr miss ↦
      let rest = elem-filter_shrinks p q k js sub (rw miss at m) in
      elim (Bool-cases (q j)) [
        | inl kept ↦ rw kept (ground (arith, rest))
        | inr gone ↦ rw gone rest
      ]
]

-- What the query names with an earlier bound on the age and with a later one: the later one names
-- nothing that the earlier one does not.
record IsWider (kind : WorkKind) (target : Version) (early : ℕ) (late : List ℕ) (db : Db)
    : Type 0 where
  ids : List ℕ
  named_early : stale_rows kind target early db ≡ some ids
  within : (k : ℕ) → elem k late ≡ true → elem k ids ≡ true

same_list : (xs ys : List ℕ) → some xs ≡ some ys → (k : ℕ) → elem k ys ≡ true → elem k xs ≡ true
same_list xs ys h k m = ground (arith, h, m)

stale_rows-IsWider :
    (kind : WorkKind) (target : Version) (early late : ℕ) (db : Db) (ys : List ℕ)
    → early ≤ late
    → stale_rows kind target late db ≡ some ys
    → IsWider kind target early ys db
unfolding stale_rows
stale_rows-IsWider detail target early late db ys le h = absurd (ground (arith, h))
stale_rows-IsWider derive (numbered n) early late db ys le h = record {
  ids = ys;
  named_early = h;
  within = λ k m. m;
}
stale_rows-IsWider derive (named s) early late db ys le h = absurd (ground (arith, h))
stale_rows-IsWider dedup (numbered n) early late db ys le h = record {
  ids = ys;
  named_early = h;
  within = λ k m. m;
}
stale_rows-IsWider dedup (named s) early late db ys le h = absurd (ground (arith, h))
stale_rows-IsWider embed target early late db ys le h = record {
  ids = job_ids (filter (needs_vector target early db.embeddings) db.jobs);
  named_early = refl;
  within = λ k m.
      elem-filter_shrinks (needs_vector target late db.embeddings)
        (needs_vector target early db.embeddings) k db.jobs
        (λ j fresh. fresher target early late db.embeddings j le fresh)
        (same_list (job_ids (filter (needs_vector target late db.embeddings) db.jobs)) ys h k m);
}
  where
    fresher :
        (target : Version) (early late : ℕ) (es : List Embedding) (j : Job)
        → early ≤ late
        → needs_vector target late es j ≡ true
        → needs_vector target early es j ≡ true
    fresher target early late es j le h = ground (arith, h, le)

-- The query with a bound that lies between two others names all that the later one names, and
-- nothing that the earlier one does not.
pub record IsBetween (kind : WorkKind) (target : Version) (bound : ℕ) (all lasting : List ℕ)
    (db : Db) : Type 0 where
  pub ids : List ℕ
  pub rows : stale_rows kind target bound db ≡ some ids
  pub below : (k : ℕ) → elem k lasting ≡ true → elem k ids ≡ true
  pub above : (k : ℕ) → elem k ids ≡ true → elem k all ≡ true

pub stale_rows-IsBetween :
    (kind : WorkKind) (target : Version) (early bound late : ℕ) (db : Db) (all lasting : List ℕ)
    → early ≤ bound
    → bound ≤ late
    → stale_rows kind target early db ≡ some all
    → stale_rows kind target late db ≡ some lasting
    → IsBetween kind target bound all lasting db
stale_rows-IsBetween kind target early bound late db all lasting le le' he hl =
    let w = stale_rows-IsWider kind target bound late db lasting le' hl in
    let v = stale_rows-IsWider kind target early bound db w.ids le w.named_early in
    record {
      ids = w.ids;
      rows = w.named_early;
      below = w.within;
      above = λ k m. same_list all v.ids (sym he ∙ v.named_early) k (v.within k m);
    }
