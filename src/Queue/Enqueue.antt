-- ===== src/Queue/Enqueue.antt =====
-- What `enqueue` leaves in the queue: an item at the target version for each posting, untouched if
-- it was there already, and every other item as it was.
use trouveur.Prelude.{
  ℕ, ◌≡◌, refl, Bool, true, false, not, ◌&&◌, List, [], ◌∷◌, some, none, arith, ◌==◌, nat_eq, any,
  count, elem, first, All, any-update_where, any-append, count-append, count-update_le,
  count-update_self, update_where_nothing, first-update_where, first-append, first_of_any,
  first_fails, count_and-none, if◌then◌else◌, Bool-cases, Option-cases, inl, inr, Option, string_eq,
  ap, ◌∙◌, All-elem_at, any_of_first, first_spared,
}
use trouveur.Db.{
  WorkKind, kind_eq, kind_beq_iff, Version, numbered, named, version_beq, Item, Db, Tx,
}
use trouveur.Queue.{at_item, new_item, reset_item, enqueue_one, enqueue}

pub version_beq_refl : (v : Version) → version_beq v v ≡ true
version_beq_refl (numbered n) = ground arith
version_beq_refl (named s) = (string_eq.beq_iff s s).1 refl

pub version_of_beq : (v w : Version) → version_beq v w ≡ true → v ≡ w
version_of_beq (numbered n) (numbered m) h = ap numbered ((nat_eq.beq_iff n m).0 h)
version_of_beq (numbered n) (named s) h = absurd (ground arith)
version_of_beq (named s) (numbered n) h = absurd (ground arith)
version_of_beq (named s) (named r) h = ap named ((string_eq.beq_iff s r).0 h)

new_at_item :
    (t : Tx) (kind : WorkKind) (target : Version) (id job_id : ℕ)
    → at_item kind job_id (new_item t kind target id job_id) ≡ true
new_at_item t kind target id job_id = ground (arith, (kind_beq_iff kind kind).1 refl)

at_item_apart :
    (kind k : WorkKind) (job_id other : ℕ) (r : Item)
    → (kind == k && job_id == other) ≡ false
    → at_item k other r ≡ true
    → at_item kind job_id r ≡ false
at_item_apart kind k job_id other r apart h = ground arith

-- The item of a posting, of one kind of work.
abbrev pub item_for : WorkKind → ℕ → Db → Option Item
item_for kind job_id db = first (at_item kind job_id) db.items

module _ (kind : WorkKind) (target : Version) where
  abbrev pub outdated : Item → Bool
  outdated r = not (version_beq r.target_version target)

  abbrev pub stale : ℕ → Item → Bool
  stale job_id r = at_item kind job_id r && outdated r

  -- The posting has an item, and none below the target.
  abbrev pub IsQueued : Db → ℕ → Type 0
  IsQueued db job_id =
      (any (at_item kind job_id) db.items ≡ true) × (count (stale job_id) db.items ≡ 0)

  pub IsQueued-item :
      (db : Db) (job_id : ℕ)
      → IsQueued db job_id
      → (r : Item) × (item_for kind job_id db ≡ some r) × (r.target_version ≡ target)
  IsQueued-item db job_id q =
      let (r, found) = first_of_any (at_item kind job_id) db.items q.0 in
      let fails = first_fails (at_item kind job_id) outdated db.items r found q.1 in
      (r, found, version_of_beq r.target_version target (ground arith))

module _ (t : Tx) (kind : WorkKind) (target : Version) where
  reset_current : (job_id : ℕ) (r : Item) → stale kind target job_id (reset_item t target r) ≡ false
  reset_current job_id r = ground (arith, version_beq_refl target)

  enqueue_one-IsQueued :
      (job_id : ℕ) (db : Db) → IsQueued kind target (enqueue_one t kind target job_id db).0 job_id
  unfolding enqueue_one any count
  enqueue_one-IsQueued job_id db = elim (Bool-cases (any (at_item kind job_id) db.items)) [
    | inl there ↦ rw there (
      rw
          (any-update_where (at_item kind job_id) (stale kind target job_id) (reset_item t target)
            (λ r. refl) db.items)
          there,
      count-update_self (stale kind target job_id) (reset_item t target) (reset_current job_id)
          db.items,
    )
    | inr new ↦ rw new (
      rw any-append (ground (arith, new_at_item t kind target db.next_item job_id)),
      rw count-append (
          ground (
            arith,
            count_and-none (at_item kind job_id) (outdated kind target) db.items new,
            version_beq_refl target,
          )),
    )
  ]

  -- Queueing one posting keeps another queued.
  enqueue_one-keeps :
      (job_id other : ℕ) (db : Db)
      → IsQueued kind target db other
      → IsQueued kind target (enqueue_one t kind target job_id db).0 other
  unfolding enqueue_one any count
  enqueue_one-keeps job_id other db q = elim (Bool-cases (any (at_item kind job_id) db.items)) [
    | inl there ↦ rw there (
      rw
          (any-update_where (at_item kind other) (stale kind target job_id) (reset_item t target)
            (λ r. refl) db.items)
          q.0,
      omega (
        arith,
        q.1,
        count-update_le (stale kind target other) (stale kind target job_id) (reset_item t target)
            (reset_current other) db.items,
      ),
    )
    | inr new ↦ rw new (
      rw any-append (ground (arith, q.0)),
      rw count-append (ground (arith, q.1, version_beq_refl target)),
    )
  ]

  -- A queued posting is left alone.
  enqueue_one_again :
      (u : Tx) (job_id : ℕ) (db : Db)
      → IsQueued kind target db job_id
      → enqueue_one u kind target job_id db ≡ (db, 0)
  unfolding enqueue_one
  enqueue_one_again u job_id db q =
      rw
        (
          q.0,
          q.1,
          update_where_nothing (stale kind target job_id) (reset_item u target) db.items q.1,
        )
        refl

  pub enqueue-keeps :
      (ids : List ℕ) (other : ℕ) (db : Db)
      → IsQueued kind target db other
      → IsQueued kind target (enqueue t kind ids target db).0 other
  unfolding enqueue
  enqueue-keeps [] other db q = q
  enqueue-keeps (i ∷ ids) other db q =
      enqueue-keeps ids other (enqueue_one t kind target i db).0 (enqueue_one-keeps i other db q)

  pub enqueue-All :
      (ids : List ℕ) (db : Db) → All (IsQueued kind target (enqueue t kind ids target db).0) ids
  unfolding enqueue
  enqueue-All [] db = tt
  enqueue-All (i ∷ ids) db = (
    enqueue-keeps ids i (enqueue_one t kind target i db).0 (enqueue_one-IsQueued i db),
    enqueue-All ids (enqueue_one t kind target i db).0,
  )

  enqueue_queued :
      (u : Tx) (ids : List ℕ) (db : Db)
      → All (IsQueued kind target db) ids
      → enqueue u kind ids target db ≡ (db, 0)
  unfolding enqueue
  enqueue_queued u [] db q = refl
  enqueue_queued u (i ∷ ids) db q =
      rw (enqueue_one_again u i db q.0, enqueue_queued u ids db q.1) refl

  -- Queueing the same postings again for the same kind and version changes nothing and counts
  -- none.
  pub enqueue-enqueue :
      (u : Tx) (ids : List ℕ) (db : Db)
      → enqueue u kind ids target (enqueue t kind ids target db).0
        ≡ ((enqueue t kind ids target db).0, 0)
  enqueue-enqueue u ids db =
      enqueue_queued u ids (enqueue t kind ids target db).0 (enqueue-All ids db)

  -- After enqueueing, every posting named has an item at the target version.
  pub enqueue_reaches :
      (ids : List ℕ) (db : Db) (job_id : ℕ)
      → elem job_id ids ≡ true
      → (r : Item) × (item_for kind job_id (enqueue t kind ids target db).0 ≡ some r)
        × (r.target_version ≡ target)
  enqueue_reaches ids db job_id h =
      let db' = (enqueue t kind ids target db).0 in
      IsQueued-item kind target db' job_id
        (All-elem_at (IsQueued kind target db') job_id ids (enqueue-All ids db) h)

  enqueue_one_current :
      (job_id other : ℕ) (db : Db) (r : Item)
      → item_for kind other db ≡ some r
      → r.target_version ≡ target
      → item_for kind other (enqueue_one t kind target job_id db).0 ≡ some r
  unfolding enqueue_one
  enqueue_one_current job_id other db r h same =
      elim (Bool-cases (any (at_item kind job_id) db.items)) [
        | inl there ↦
            rw
              (
                there,
                first-update_where (at_item kind other) (stale kind target job_id)
                    (reset_item t target) (λ r. refl) db.items,
                h,
              )
              (ground (arith, ap (λ v. version_beq v target) same, version_beq_refl target))
        | inr new ↦ rw (new, first-append, any_of_first (at_item kind other) db.items r h) h
      ]

  new_other :
      (job_id : ℕ) (k : WorkKind) (other : ℕ) (db : Db)
      → (kind == k && job_id == other) ≡ false
      → (if any (at_item k other) db.items
          then first (at_item k other) db.items
          else if at_item k other (new_item t kind target db.next_item job_id)
          then some (new_item t kind target db.next_item job_id)
          else none)
        ≡ first (at_item k other) db.items
  new_other job_id k other db apart =
      rw apart (elim (Option-cases (first (at_item k other) db.items)) [
        | inl e ↦ rw e (ground arith)
        | inr (r, e) ↦ rw (any_of_first (at_item k other) db.items r e) refl
      ])

  enqueue_one_other :
      (job_id : ℕ) (k : WorkKind) (other : ℕ) (db : Db)
      → (kind == k && job_id == other) ≡ false
      → item_for k other (enqueue_one t kind target job_id db).0 ≡ item_for k other db
  unfolding enqueue_one
  enqueue_one_other job_id k other db apart =
      elim (Bool-cases (any (at_item kind job_id) db.items)) [
        | inl there ↦
            rw
              (
                there,
                first-update_where (at_item k other) (stale kind target job_id)
                    (reset_item t target) (λ r. refl) db.items,
              )
              (first_spared (at_item k other) (stale kind target job_id) (reset_item t target)
                (λ r h. ground (arith, at_item_apart kind k job_id other r apart h)) db.items)
        | inr new ↦ rw (new, first-append) (new_other job_id k other db apart)
      ]

  -- An item that stands at the target version is left as it is, its backoff and its claim
  -- included.
  pub enqueue_current :
      (ids : List ℕ) (other : ℕ) (db : Db) (r : Item)
      → item_for kind other db ≡ some r
      → r.target_version ≡ target
      → item_for kind other (enqueue t kind ids target db).0 ≡ some r
  unfolding enqueue
  enqueue_current [] other db r h same = h
  enqueue_current (i ∷ ids) other db r h same =
      enqueue_current ids other (enqueue_one t kind target i db).0 r
        (enqueue_one_current i other db r h same) same

  -- Items of other kinds of work, and of postings that are not named, stay as they were.
  pub enqueue_other :
      (ids : List ℕ) (k : WorkKind) (other : ℕ) (db : Db)
      → (kind == k && elem other ids) ≡ false
      → item_for k other (enqueue t kind ids target db).0 ≡ item_for k other db
  unfolding enqueue elem
  enqueue_other [] k other db apart = refl
  enqueue_other (i ∷ ids) k other db apart =
      enqueue_other ids k other (enqueue_one t kind target i db).0 (ground arith)
      ∙ enqueue_one_other i k other db (ground arith)
