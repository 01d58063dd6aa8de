-- ===== src/Queue/Refill.antt =====
-- `refill_all` comes to an end, and by then every row below the version has its item.
use trouveur.Prelude.{
  ℕ, zero, suc, ◌+◌, ◌≤◌, ◌<◌, ◌≡◌, refl, true, List, [], ◌∷◌, some, none, arith, ltb, leb, leb→le,
  leb→lt, elem, count, take, filter, sort_by, last_of, last_of-elem, elem-take_sorted,
  count_above-lt, elem-take, elem-filter, elem-sort_by, sort_by-IsSorted, All-elem_at, Bool-cases,
  inl, inr, ◌⊎◌, nat_eq, ◌∙◌, length, count-le-length,
}
use trouveur.Db.{WorkKind, Version, Item, Db, Tx}
use trouveur.Queue.{enqueue}
use trouveur.Queue.Enqueue.{IsQueued, item_for, IsQueued-item, enqueue-keeps, enqueue-All}
use trouveur.Queue.Upkeep.{
  stale_rows, keyset, queue_rows, refill, refill_from, refill_all, Refilled, refilled,
}
use trouveur.Queue.Stale.{stale_rows-enqueue, stale_rows-IsBetween}

module _ (after limit : ℕ) (ids : List ℕ) where
  -- A chunk holds ids of the query that lie above the cursor.
  elem-keyset : (y : ℕ) → elem y (keyset after limit ids) ≡ true → (elem y ids ≡ true) × (after < y)
  unfolding keyset
  elem-keyset y m =
      let sorted = sort_by ltb (filter (ltb after) ids) in
      let there = elem-take limit y sorted m in
      ground (arith, there, elem-sort_by y (filter (ltb after) ids), elem-filter (ltb after) y ids)

  -- An id above the cursor and not above the chunk's last one stands in the chunk.
  keyset-elem :
      (y c : ℕ) (cs : List ℕ)
      → keyset after limit ids ≡ c ∷ cs
      → elem y ids ≡ true
      → after < y
      → y ≤ last_of c cs
      → elem y (c ∷ cs) ≡ true
  unfolding keyset
  keyset-elem y c cs e m above within =
      elem-take_sorted limit (sort_by ltb (filter (ltb after) ids)) y c cs
        (sort_by-IsSorted (filter (ltb after) ids)) e
        (ground (arith, elem-sort_by y (filter (ltb after) ids), elem-filter (ltb after) y ids))
        within

nil-elem : (y : ℕ) (s : List ℕ) (n : ℕ) → take (suc n) s ≡ [] → elem y s ≡ true → ⊥
unfolding take elem
nil-elem y [] n e m = absurd (ground arith)
nil-elem y (x ∷ xs) n e m = absurd (ground arith)

List-cases : (xs : List ℕ) → (xs ≡ []) ⊎ ((c : ℕ) × (cs : List ℕ) × (xs ≡ c ∷ cs))
List-cases [] = inl refl
List-cases (c ∷ cs) = inr (c, cs, refl)

-- An empty chunk means that no id lies above the cursor.
keyset-nil :
    (after limit : ℕ) (ids : List ℕ) (y : ℕ)
    → 0 < limit
    → keyset after limit ids ≡ []
    → elem y ids ≡ true
    → after < y
    → ⊥
unfolding keyset take
keyset-nil after zero ids y pos e m above = absurd (omega arith)
keyset-nil after (suc n) ids y pos e m above =
    nil-elem y (sort_by ltb (filter (ltb after) ids)) n e
      (ground (arith, elem-sort_by y (filter (ltb after) ids), elem-filter (ltb after) y ids))

module _ (tx : ℕ → Tx) (kind : WorkKind) (target : Version) (chunk_size : ℕ) (fresh_since : ℕ → ℕ)
    (all lasting : List ℕ) (pos : 0 < chunk_size) where
  -- What holds when the loop has ended from a cursor.
  record IsDone (cursor : ℕ) (db : Db) (r : Refilled) : Type 0 where
    pub final : Db
    pub total : ℕ
    pub ended : r ≡ refilled final total
    pub keeps : (k : ℕ) → IsQueued kind target db k → IsQueued kind target final k
    pub queued : (k : ℕ) → elem k lasting ≡ true → cursor < k → IsQueued kind target final k

  refill_at_end :
      (t : Tx) (cursor bound : ℕ) (ids : List ℕ) (db : Db)
      → stale_rows kind target bound db ≡ some ids
      → keyset cursor chunk_size ids ≡ []
      → refill t kind target chunk_size cursor bound db ≡ some (db, 0, none)
  unfolding refill queue_rows
  refill_at_end t cursor bound ids db same e = rw (same, refill) (rw (e, queue_rows) refl)

  refill_in_chunk :
      (t : Tx) (cursor bound : ℕ) (ids : List ℕ) (db : Db) (c : ℕ) (cs : List ℕ)
      → stale_rows kind target bound db ≡ some ids
      → keyset cursor chunk_size ids ≡ c ∷ cs
      → refill t kind target chunk_size cursor bound db
        ≡ some (
          (enqueue t kind (c ∷ cs) target db).0,
          (enqueue t kind (c ∷ cs) target db).1,
          some (last_of c cs),
        )
  unfolding refill queue_rows
  refill_in_chunk t cursor bound ids db c cs same e = rw (same, refill) (rw (e, queue_rows) refl)

  -- The last id of a chunk is one of the query's, above the cursor.
  last_of_chunk :
      (cursor c : ℕ) (cs ids : List ℕ)
      → keyset cursor chunk_size ids ≡ c ∷ cs
      → (elem (last_of c cs) ids ≡ true) × (cursor < last_of c cs)
  last_of_chunk cursor c cs ids e =
      elem-keyset cursor chunk_size ids (last_of c cs) (rw e (last_of-elem c cs))

  fewer :
      {fuel : ℕ} (cursor c : ℕ) (cs ids : List ℕ)
      → ((k : ℕ) → elem k ids ≡ true → elem k all ≡ true)
      → keyset cursor chunk_size ids ≡ c ∷ cs
      → count (ltb cursor) all < suc fuel
      → count (ltb (last_of c cs)) all < fuel
  fewer cursor c cs ids within e enough =
      let (there, beyond) = last_of_chunk cursor c cs ids e in
      omega (arith, count_above-lt cursor (last_of c cs) all beyond (within (last_of c cs) there))

  -- What the rest of the loop queues, and what the chunk did, cover all that is above the cursor.
  after_chunk :
      (t : Tx) (cursor : ℕ) (db : Db) (c : ℕ) (cs ids : List ℕ) {r : Refilled}
      → ((k : ℕ) → elem k lasting ≡ true → elem k ids ≡ true)
      → keyset cursor chunk_size ids ≡ c ∷ cs
      → IsDone (last_of c cs) (enqueue t kind (c ∷ cs) target db).0 r
      → IsDone cursor db r
  after_chunk t cursor db c cs ids below e rest = record {
    final = rest.final;
    total = rest.total;
    ended = rest.ended;
    keeps = λ k q. rest.keeps k (enqueue-keeps t kind target (c ∷ cs) k db q);
    queued = λ k m above. elim (Bool-cases (leb k (last_of c cs))) [
      | inl within ↦ rest.keeps k (
          All-elem_at (IsQueued kind target (enqueue t kind (c ∷ cs) target db).0) k (c ∷ cs)
            (enqueue-All t kind target (c ∷ cs) db)
            (keyset-elem cursor chunk_size ids k c cs e (below k m) above
              (leb→le k (last_of c cs) within)))
      | inr beyond ↦ rest.queued k m (leb→lt k (last_of c cs) beyond)
    ];
  }

  module _ (early late : ℕ)
      (between : (n : ℕ) → (early ≤ fresh_since n) × (fresh_since n ≤ late)) where
    refill_from-IsDone :
        (fuel cursor total : ℕ) (db : Db)
        → stale_rows kind target early db ≡ some all
        → stale_rows kind target late db ≡ some lasting
        → count (ltb cursor) all < fuel
        → IsDone cursor db (refill_from tx kind target chunk_size fresh_since fuel cursor total db)
    unfolding refill_from refill queue_rows
    refill_from-IsDone zero cursor total db he hl enough = absurd (omega arith)
    refill_from-IsDone (suc fuel) cursor total db he hl enough =
        let t = tx fuel in
        let bound = fresh_since fuel in
        let b =
          stale_rows-IsBetween kind target early bound late db all lasting (between fuel).0
            (between fuel).1 he hl in
        elim (List-cases (keyset cursor chunk_size b.ids)) [
          | inl e ↦
              rw (refill_at_end t cursor bound b.ids db b.rows e, refill_from)
                (record {
                  final = db;
                  total = total + 0;
                  ended = refl;
                  keeps = λ k q. q;
                  queued = λ k m above.
                      absurd (keyset-nil cursor chunk_size b.ids k pos e (b.below k m) above);
                })
          | inr (c, cs, e) ↦
              let next = (enqueue t kind (c ∷ cs) target db).0 in
              rw (refill_in_chunk t cursor bound b.ids db c cs b.rows e, refill_from)
                (after_chunk t cursor db c cs b.ids b.below e (
                  refill_from-IsDone fuel (last_of c cs)
                    (total + (enqueue t kind (c ∷ cs) target db).1) next
                    (stale_rows-enqueue t kind kind (c ∷ cs) target target early db ∙ he)
                    (stale_rows-enqueue t kind kind (c ∷ cs) target target late db ∙ hl)
                    (fewer cursor c cs b.ids b.above e enough)))
        ]

-- Where the bounds on the age that the rounds read off the clock lie between an early and a late
-- one, then with a chunk size above 0 and more rounds of fuel than the query names postings with
-- the early bound, refilling ends, and then every posting that the query names with the late
-- bound, its id above 0, has an item at the target version.
pub refill_all_reaches :
    (tx : ℕ → Tx) (kind : WorkKind) (target : Version) (chunk_size : ℕ) (fresh_since : ℕ → ℕ)
    (early late fuel : ℕ) (db : Db) (all lasting : List ℕ) (k : ℕ)
    → 0 < chunk_size
    → ((n : ℕ) → (early ≤ fresh_since n) × (fresh_since n ≤ late))
    → stale_rows kind target early db ≡ some all
    → stale_rows kind target late db ≡ some lasting
    → length all < fuel
    → elem k lasting ≡ true
    → 0 < k
    → (final : Db) × (total : ℕ) × (r : Item) × (refill_all tx kind target chunk_size fresh_since
          fuel db
        ≡ refilled final total)
      × (item_for kind k final ≡ some r)
      × (r.target_version ≡ target)
unfolding refill_all
refill_all_reaches tx kind target chunk_size fresh_since early late fuel db all lasting k pos
      between he hl enough m above =
    let done =
      refill_from-IsDone tx kind target chunk_size fresh_since all lasting pos early late between
        fuel 0 0 db he hl (omega (arith, count-le-length (ltb 0) all)) in
    let (r, found, at_target) = IsQueued-item kind target done.final k (done.queued k m above) in
    (done.final, done.total, r, done.ended, found, at_target)
