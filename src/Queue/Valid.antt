-- ===== src/Queue/Valid.antt =====
-- The invariant of work_item, and that every operation of the queue keeps it.
use trouveur.Prelude.{
  ℕ, ◌+◌, ◌≤◌, ◌<◌, ◌≡◌, refl, Bool, true, false, ◌&&◌, List, [], ◌∷◌, ◌++◌, String, arith, ◌==◌,
  nat_eq, is_none, filter, any, count, update_where, All, IsDistinct, All-map, All-append,
  All-filter, All-update_where, count-append, count-filter-le, count-update_where, count_of_not-any,
  keys-update_where, IsDistinct-filter, if◌then◌else◌, Bool-cases, inl, inr, IsDistinct-append,
  elem-keys_above,
}
use trouveur.Db.{Text, WorkKind, Version, Item, Db, Tx, item_ids, kind_eq, kind_beq_iff}
use trouveur.Queue.{
  at_item, new_item, reset_item, enqueue_one, enqueue, take_claims, claim, claim_across_boards,
  mark_ready, complete, fail_item, fail,
}
use trouveur.Queue.Upkeep.{pause_source, requeue_parked, release_stale}

abbrev item_key : Item → ℕ
item_key r = r.id

-- A claim has a worker and a time, or neither.
abbrev pub IsPaired : Item → Type 0
IsPaired r = is_none r.claimed_at ≡ is_none r.claimed_by

pub record IsValid (db : Db) : Type 0 where
  pub distinct : IsDistinct (item_ids db.items)
  pub below : All (λ r. r.id < db.next_item) db.items
  pub unique : (kind : WorkKind) (job_id : ℕ) → count (at_item kind job_id) db.items ≤ 1
  pub paired : All IsPaired db.items

-- A change of the rows that leaves id, kind and posting alone.
abbrev Keeps : (Item → Item) → Type 0
Keeps f = (r : Item) → (f r).id ≡ r.id × ((f r).kind ≡ r.kind) × ((f r).job_id ≡ r.job_id)

update-IsValid :
    (p : Item → Bool) (f : Item → Item) (db : Db)
    → Keeps f
    → ((r : Item) → IsPaired r → IsPaired (f r))
    → IsValid db
    → IsValid (record db { items = update_where p f db.items })
update-IsValid p f db keeps pairs v = record {
  distinct = rw (keys-update_where (λ (r : Item). r.id) p f (λ r. (keeps r).0) db.items) v.distinct;
  below =
      All-update_where (λ r. r.id < db.next_item) p f (λ r h. rw ((keeps r).0) h) db.items v.below;
  unique = λ kind job_id.
      rw
        (count-update_where (at_item kind job_id) p f (λ r. rw ((keeps r).1, (keeps r).2)) db.items)
        (v.unique kind job_id);
  paired = All-update_where IsPaired p f pairs db.items v.paired;
}

same_key :
    (kind k : WorkKind) (job_id j : ℕ)
    → (kind == k && job_id == j) ≡ true
    → (kind ≡ k) × (job_id ≡ j)
same_key kind k job_id j h =
    ((kind_beq_iff kind k).0 (ground arith), (nat_eq.beq_iff job_id j).0 (ground arith))

only_one :
    (kind k : WorkKind) (job_id j : ℕ) (items : List Item)
    → any (at_item kind job_id) items ≡ false
    → count (at_item k j) items ≤ 1
    → count (at_item k j) items + ((if kind == k && job_id == j then 1 else 0) + 0) ≤ 1
only_one kind k job_id j items new one = elim (Bool-cases (kind == k && job_id == j)) [
  | inl e ↦
      let (a, b) = same_key kind k job_id j e in
      rw e (rw (← a, ← b) (omega (arith, count_of_not-any (at_item kind job_id) items new)))
  | inr e ↦ rw e (omega arith)
]

filter-IsValid :
    (p : Item → Bool) (db : Db) → IsValid db → IsValid (record db { items = filter p db.items })
filter-IsValid p db v = record {
  distinct = IsDistinct-filter (λ r. r.id) p db.items v.distinct;
  below = All-filter (λ r. r.id < db.next_item) p db.items v.below;
  unique = λ kind job_id.
      omega (arith, v.unique kind job_id, count-filter-le (at_item kind job_id) p db.items);
  paired = All-filter IsPaired p db.items v.paired;
}

insert-IsValid :
    (t : Tx) (kind : WorkKind) (target : Version) (job_id : ℕ) (db : Db)
    → any (at_item kind job_id) db.items ≡ false
    → IsValid db
    → IsValid (record db {
      items = db.items ++ new_item t kind target db.next_item job_id ∷ [];
      next_item = db.next_item + 1;
    })
unfolding count
insert-IsValid t kind target job_id db new v = record {
  distinct =
      IsDistinct-append item_key db.items _ v.distinct
        (elem-keys_above item_key db.next_item db.items v.below);
  below =
      All-append (λ r. r.id < db.next_item + 1) db.items _
        (All-map (λ r. r.id < db.next_item) (λ r h. omega arith) db.items v.below)
        (omega arith, tt);
  unique = λ k j. rw count-append (only_one kind k job_id j db.items new (v.unique k j));
  paired = All-append IsPaired db.items _ v.paired (refl, tt);
}

mark_ready-IsValid : (t : Tx) (db : Db) → IsValid db → IsValid (mark_ready t db).0
unfolding mark_ready
mark_ready-IsValid t db v = record {
  distinct = v.distinct;
  below = v.below;
  unique = v.unique;
  paired = v.paired;
}

pub take_claims-IsValid :
    (t : Tx) (worker : String) (picked : List Item) (db : Db)
    → IsValid db
    → IsValid (take_claims t worker picked db).0
unfolding take_claims
take_claims-IsValid t worker picked db =
    update-IsValid _ _ db (λ r. (refl, refl, refl)) (λ r h. refl)

pub claim-IsValid :
    (t : Tx) (kind : WorkKind) (limit : ℕ) (worker : String) (db : Db)
    → IsValid db
    → IsValid (claim t kind limit worker db).0
unfolding claim
claim-IsValid t kind limit worker db = take_claims-IsValid t worker _ db

pub claim_across_boards-IsValid :
    (t : Tx) (kind : WorkKind) (limit per_board : ℕ) (worker : String) (db : Db)
    → IsValid db
    → IsValid (claim_across_boards t kind limit per_board worker db).0
unfolding claim_across_boards
claim_across_boards-IsValid t kind limit per_board worker db = take_claims-IsValid t worker _ db

pub complete-IsValid : (t : Tx) (ids : List ℕ) (db : Db) → IsValid db → IsValid (complete t ids db)
unfolding complete
complete-IsValid t [] db v = v
complete-IsValid t (i ∷ ids) db v = mark_ready-IsValid t _ (filter-IsValid _ db v)

pub fail-IsValid :
    (t : Tx) (ids : List ℕ) (error : Text) (db : Db) → IsValid db → IsValid (fail t ids error db)
unfolding fail
fail-IsValid t [] error db v = v
fail-IsValid t (i ∷ ids) error db v =
    mark_ready-IsValid t _
      (update-IsValid _ (fail_item t error) db (λ r. (refl, refl, refl)) (λ r h. refl) v)

pub pause_source-IsValid :
    (t : Tx) (kind : WorkKind) (source : String) (pause : ℕ) (reason : Text) (ids : List ℕ)
    (db : Db)
    → IsValid db
    → IsValid (pause_source t kind source pause reason ids db).0
unfolding pause_source
pause_source-IsValid t kind source pause reason ids db =
    update-IsValid _ _ db (λ r. (refl, refl, refl)) (λ r h. refl)

pub requeue_parked-IsValid :
    (t : Tx) (kind : WorkKind) (db : Db) → IsValid db → IsValid (requeue_parked t kind db).0
unfolding requeue_parked
requeue_parked-IsValid t kind db v =
    update-IsValid _ _ _ (λ r. (refl, refl, refl)) (λ r h. h) (filter-IsValid _ db v)

pub release_stale-IsValid :
    (clock older_than : ℕ) (db : Db) → IsValid db → IsValid (release_stale clock older_than db).0
unfolding release_stale
release_stale-IsValid clock older_than db =
    update-IsValid _ _ db (λ r. (refl, refl, refl)) (λ r h. refl)

enqueue_one-IsValid :
    (t : Tx) (kind : WorkKind) (target : Version) (job_id : ℕ) (db : Db)
    → IsValid db
    → IsValid (enqueue_one t kind target job_id db).0
unfolding enqueue_one
enqueue_one-IsValid t kind target job_id db v =
    elim (Bool-cases (any (at_item kind job_id) db.items)) [
      | inl there ↦
          rw there
            (update-IsValid _ (reset_item t target) db (λ r. (refl, refl, refl)) (λ r h. refl) v)
      | inr new ↦ rw new (insert-IsValid t kind target job_id db new v)
    ]

-- Enqueueing keeps a valid queue valid.
pub enqueue-IsValid :
    (t : Tx) (kind : WorkKind) (ids : List ℕ) (target : Version) (db : Db)
    → IsValid db
    → IsValid (enqueue t kind ids target db).0
unfolding enqueue
enqueue-IsValid t kind [] target db v = v
enqueue-IsValid t kind (i ∷ ids) target db v =
    enqueue-IsValid t kind ids target (enqueue_one t kind target i db).0
      (enqueue_one-IsValid t kind target i db v)
