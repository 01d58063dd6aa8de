-- ===== src/Queue/Claims.antt =====
-- What a claim takes: due rows only, never a row that another worker holds, and no more than asked.
use trouveur.Prelude.{
  ℕ, ◌≤◌, ◌≡◌, refl, true, false, ◌&&◌, List, [], ◌∷◌, Option, some, none, String, arith, nat_eq,
  is_some, leb, length, take, filter, elem, find, map, sort_by, All, IsDistinct, All-map, All-take,
  All-filter, filter-All, All-sort_by, All-zip, All-elem, find_self, find-update_ids, length-take,
  length-map, if◌then◌else◌, Bool-cases, and_left, ap, inl, inr,
}
use mathlib.Core.Option
use trouveur.Db.{kind_beq_iff, WorkKind, Item, Db, Tx, item_ids}
use trouveur.Queue.{
  is_due, is_unlocked, item_before, claim_item, take_claims, claimable, claim, board_due, job_of,
  board_rank, rank_before, picked_across_boards, claim_across_boards,
}
use trouveur.Queue.Valid.{IsValid, claim-IsValid}

abbrev pub item_key : Item → ℕ
item_key r = r.id

abbrev pub item_at : ℕ → Db → Option Item
item_at k db = find item_key k db.items

-- What picks a row for a claim: it is in the table under its id, due, and not locked elsewhere.
pub record IsTakable (t : Tx) (kind : WorkKind) (db : Db) (k : ℕ) : Type 0 where
  pub row : Item
  pub present : item_at k db ≡ some row
  pub of_kind : row.kind ≡ kind
  pub unclaimed : row.claimed_at ≡ none
  pub due : row.not_before ≤ t.now
  pub unlocked : elem k t.locked_items ≡ false

module _ (t : Tx) (kind : WorkKind) (db : Db) (distinct : IsDistinct (item_ids db.items)) where
  due_row_lem :
      (r : Item)
      → (find item_key r.id db.items ≡ some r) × ((is_due t kind r && is_unlocked t r) ≡ true)
      → IsTakable t kind db r.id
  due_row_lem r h = record {
    row = r;
    present = h.0;
    of_kind = (kind_beq_iff r.kind kind).0 (ground arith);
    unclaimed = ground arith;
    due = ground arith;
    unlocked = ground arith;
  }

  All-claimable : (limit : ℕ) → All (λ r. IsTakable t kind db r.id) (claimable t kind limit db)
  unfolding claimable
  All-claimable limit =
      let P = λ (r : Item). IsTakable t kind db r.id in
      let ready = λ (r : Item). is_due t kind r && is_unlocked t r in
      let found = λ (r : Item). find item_key r.id db.items ≡ some r in
      let rows = filter ready db.items in
      All-take P limit (sort_by item_before rows) (
        All-sort_by item_before P rows (
          All-map (λ r. found r × (ready r ≡ true)) due_row_lem rows
            (All-zip found (λ r. ready r ≡ true) rows
              (All-filter found ready db.items (find_self item_key db.items distinct))
              (filter-All ready db.items))))

  claimable-IsTakable :
      (limit k : ℕ) → elem k (item_ids (claimable t kind limit db)) ≡ true → IsTakable t kind db k
  claimable-IsTakable limit k =
      All-elem item_key (IsTakable t kind db) k (claimable t kind limit db) (All-claimable limit)

  free_row_lem :
      (r : Item)
      → ((find item_key r.id db.items ≡ some r) × (is_due t kind r ≡ true))
        × (is_unlocked t r ≡ true)
      → IsTakable t kind db r.id
  free_row_lem r h = record {
    row = r;
    present = h.0.0;
    of_kind = (kind_beq_iff r.kind kind).0 (ground arith);
    unclaimed = ground arith;
    due = ground arith;
    unlocked = ground arith;
  }

  All-board_due :
      All
        (λ r. (find item_key r.id db.items ≡ some r) × (is_due t kind r ≡ true))
        (board_due t kind db)
  unfolding board_due
  All-board_due =
      let found = λ (r : Item). find item_key r.id db.items ≡ some r in
      let test = λ (r : Item). is_due t kind r && is_some (job_of db r) in
      let rows = filter test db.items in
      All-map (λ r. found r × (test r ≡ true)) (λ r h. (h.0, and_left _ _ h.1)) rows
        (All-zip found (λ r. test r ≡ true) rows
          (All-filter found test db.items (find_self item_key db.items distinct))
          (filter-All test db.items))

  All-across_boards :
      (limit per_board : ℕ)
      → All
          (λ r. IsTakable t kind db r.id)
          (filter (is_unlocked t) (picked_across_boards t kind limit per_board db))
  unfolding picked_across_boards
  All-across_boards limit per_board =
      let found = λ (r : Item). find item_key r.id db.items ≡ some r in
      let Due = λ (r : Item). found r × (is_due t kind r ≡ true) in
      let rows = board_due t kind db in
      let near = filter (λ r. leb (board_rank db rows r) per_board) rows in
      let picked = take limit (sort_by (rank_before db rows) near) in
      All-map (λ r. Due r × (is_unlocked t r ≡ true)) free_row_lem (filter (is_unlocked t) picked)
        (All-zip Due (λ r. is_unlocked t r ≡ true) (filter (is_unlocked t) picked)
          (All-filter Due (is_unlocked t) picked (
            All-take Due limit (sort_by (rank_before db rows) near) (
              All-sort_by (rank_before db rows) Due near
                (All-filter Due (λ r. leb (board_rank db rows r) per_board) rows All-board_due))))
          (filter-All (is_unlocked t) picked))

module _ (t : Tx) (worker : String) where
  ids-claim_item : (rows : List Item) → item_ids (map (claim_item t worker) rows) ≡ item_ids rows
  ids-claim_item [] = refl
  ids-claim_item (r ∷ rows) = ap (◌∷◌ r.id) (ids-claim_item rows)

  item_at-take_claims :
      (picked : List Item) (db : Db) (k : ℕ)
      → item_at k (take_claims t worker picked db).0 ≡ (
          if elem k (item_ids (take_claims t worker picked db).1)
          then Option.map (claim_item t worker) (item_at k db)
          else item_at k db)
  unfolding take_claims
  item_at-take_claims picked db k =
      rw ids-claim_item
        (find-update_ids item_key (item_ids picked) (claim_item t worker) (λ r. refl) k db.items)

  -- The rows that a claim on a valid queue returns are in it, of the kind asked for, unclaimed,
  -- due and unlocked.
  pub claim-IsTakable :
      (kind : WorkKind) (limit : ℕ) (db : Db) (k : ℕ)
      → IsValid db
      → elem k (item_ids (claim t kind limit worker db).1) ≡ true
      → IsTakable t kind db k
  unfolding claim
  claim-IsTakable kind limit db k v h =
      All-elem item_key (IsTakable t kind db) k (claimable t kind limit db)
        (All-claimable t kind db v.distinct limit) (rw ids-claim_item at h)

  -- The rows that the claim across boards returns, on a valid queue, are in it, of the kind asked
  -- for, unclaimed, due and unlocked.
  pub claim_across_boards-IsTakable :
      (kind : WorkKind) (limit per_board : ℕ) (db : Db) (k : ℕ)
      → IsValid db
      → elem k (item_ids (claim_across_boards t kind limit per_board worker db).1) ≡ true
      → IsTakable t kind db k
  unfolding claim_across_boards
  claim_across_boards-IsTakable kind limit per_board db k v h =
      All-elem item_key (IsTakable t kind db) k _
        (All-across_boards t kind db v.distinct limit per_board) (rw ids-claim_item at h)

  length-claim :
      (kind : WorkKind) (limit : ℕ) (db : Db) → length (claim t kind limit worker db).1 ≤ limit
  unfolding claim claimable
  length-claim kind limit db = omega (
    arith,
    length-map (claimable t kind limit db) (claim_item t worker),
    length-take limit
        (sort_by item_before (filter (λ r. is_due t kind r && is_unlocked t r) db.items)),
  )

  -- A claim marks exactly the rows that it returns, at most `limit` of them.
  pub claim_effect :
      (kind : WorkKind) (limit : ℕ) (db : Db) (k : ℕ)
      → (item_at k (claim t kind limit worker db).0 ≡ (
          if elem k (item_ids (claim t kind limit worker db).1)
          then Option.map (claim_item t worker) (item_at k db)
          else item_at k db))
        × (length (claim t kind limit worker db).1 ≤ limit)
  unfolding claim
  claim_effect kind limit db k =
      (item_at-take_claims (claimable t kind limit db) db k, length-claim kind limit db)

-- In a valid queue, a row that one claim returned is not returned by the next claim, of whatever
-- kind and worker.
pub claim-claim :
    (t u : Tx) (kind other : WorkKind) (limit more : ℕ) (worker second : String) (db : Db) (k : ℕ)
    → IsValid db
    → elem k (item_ids (claim t kind limit worker db).1) ≡ true
    → elem k (item_ids (claim u other more second (claim t kind limit worker db).0).1) ≡ false
claim-claim t u kind other limit more worker second db k v h =
    elim (Bool-cases
      (elem k (item_ids (claim u other more second (claim t kind limit worker db).0).1))) [
        | inl again ↦
            let first = claim-IsTakable t worker kind limit db k v h in
            let later =
              claim-IsTakable u second other more (claim t kind limit worker db).0 k
                (claim-IsValid t kind limit worker db v) again in
            absurd (
              ground (
                arith,
                (claim_effect t worker kind limit db k).0,
                h,
                first.present,
                later.present,
                later.unclaimed,
              ))
        | inr no_more ↦ no_more
      ]

-- A row that another transaction holds locked is not returned.
pub claim_locked :
    (u : Tx) (kind : WorkKind) (limit : ℕ) (worker : String) (db : Db) (k : ℕ)
    → IsValid db
    → elem k u.locked_items ≡ true
    → elem k (item_ids (claim u kind limit worker db).1) ≡ false
claim_locked u kind limit worker db k v h =
    elim (Bool-cases (elem k (item_ids (claim u kind limit worker db).1))) [
      | inl taken ↦
          absurd (ground (arith, (claim-IsTakable u worker kind limit db k v taken).unlocked))
      | inr no_more ↦ no_more
    ]
