-- ===== src/Workers/Claimed.antt =====
-- What a drainer's claim leaves to it: the items of the batch, and their postings.
use trouveur.Prelude.{
  ℕ, ◌≡◌, refl, sym, ap, ◌∙◌, true, not, ◌&&◌, List, [], ◌∷◌, some, none, map, arith, ◌==◌, nat_eq,
  filter, elem, find, sort_by, All, All-take, All-sort_by, All-filter, find_self, IsDistinct,
  keep_if, find-filter, subst, Option-cases, Bool-cases, inl, inr, if◌then◌else◌,
}
use trouveur.Db.{WorkKind, Item, Db, Tx, item_ids}
use trouveur.Queue.{
  is_due, is_unlocked, item_before, claim_item, take_claims, claimable, claim, mark_ready, complete,
}
use trouveur.Queue.Valid.{IsValid, claim-IsValid}
use trouveur.Queue.Claims.{item_key, item_at, claim_effect}
use trouveur.Workers.{jobs_of, worker}

item_at-complete :
    (t : Tx) (ids : List ℕ) (db : Db) (k : ℕ)
    → IsDistinct (item_ids db.items)
    → item_at k (complete t ids db) ≡ keep_if (λ r. not (elem r.id ids)) (item_at k db)
unfolding complete mark_ready elem
item_at-complete t [] db k distinct = elim (Option-cases (item_at k db)) [
  | inl e ↦ rw (e, keep_if) refl
  | inr (r, e) ↦ rw (e, keep_if) refl
]
item_at-complete t (i ∷ ids) db k distinct =
    find-filter item_key (λ r. not (elem r.id (i ∷ ids))) k db.items distinct

module _ (t : Tx) (kind : WorkKind) (limit : ℕ) (db : Db) where
  claimable_found :
      IsDistinct (item_ids db.items)
      → All (λ r. find item_key r.id db.items ≡ some r) (claimable t kind limit db)
  unfolding claimable
  claimable_found distinct =
      let found = λ (r : Item). find item_key r.id db.items ≡ some r in
      let ready = λ (r : Item). is_due t kind r && is_unlocked t r in
      All-take found limit (sort_by item_before (filter ready db.items)) (
        All-sort_by item_before found (filter ready db.items)
          (All-filter found ready db.items (find_self item_key db.items distinct)))

  job_of_member :
      (rows : List Item) (r : Item)
      → All (λ x. find item_key x.id db.items ≡ some x) rows
      → item_at r.id db ≡ some r
      → elem r.id (item_ids rows) ≡ true
      → elem r.job_id (jobs_of rows) ≡ true
  unfolding elem
  job_of_member [] r found present member = absurd (ground (arith, member))
  job_of_member (x ∷ rows) r found present member = elim (Bool-cases (x.id == r.id)) [
    | inr other ↦ ground (arith, member, other, job_of_member rows r found.1 present)
    | inl same ↦
        let here : some x ≡ some r =
          sym found.0 ∙ ap (λ k. item_at k db) (ground (arith, same)) ∙ present in
        let job : x.job_id ≡ r.job_id = ground (arith, here) in ground (arith, job)
  ]

  jobs-claim_item : (rows : List Item) → jobs_of (map (claim_item t worker) rows) ≡ jobs_of rows
  jobs-claim_item [] = refl
  jobs-claim_item (r ∷ rows) = ap (◌∷◌ r.job_id) (jobs-claim_item rows)

  ids_claimed : (rows : List Item) → item_ids (map (claim_item t worker) rows) ≡ item_ids rows
  ids_claimed [] = refl
  ids_claimed (r ∷ rows) = ap (◌∷◌ r.id) (ids_claimed rows)

  -- The posting of a claimed item is among those that the drainer loads.
  pub claim-jobs_of :
      (r : Item)
      → IsValid db
      → item_at r.id db ≡ some r
      → elem r.id (item_ids (claim t kind limit worker db).1) ≡ true
      → elem r.job_id (jobs_of (claim t kind limit worker db).1) ≡ true
  unfolding claim take_claims
  claim-jobs_of r v present member =
      let rows = claimable t kind limit db in
      rw (jobs-claim_item rows) (
        job_of_member rows r (claimable_found v.distinct) present (rw (ids_claimed rows) at member))

  kept :
      (ids : List ℕ) (r : Item)
      → keep_if
          (λ x. not (elem x.id ids))
          (if elem r.id ids then some (claim_item t worker r) else some r)
        ≡ (if elem r.id ids then none else some r)
  kept ids r = elim (Bool-cases (elem r.id ids)) [
    | inl taken ↦ ground (arith, taken)
    | inr left ↦ ground (arith, left)
  ]

  -- Completing the batch takes away what was claimed and nothing else.
  pub claimed_gone :
      (r : Item) (db' : Db)
      → IsValid db
      → item_at r.id db ≡ some r
      → db'.items ≡ (claim t kind limit worker db).0.items
      → item_at r.id (complete t (item_ids (claim t kind limit worker db).1) db')
        ≡ (if elem r.id (item_ids (claim t kind limit worker db).1) then none else some r)
  unfolding complete
  claimed_gone r db' v present same =
      let claimed = (claim t kind limit worker db).0 in
      let ids = item_ids (claim t kind limit worker db).1 in
      let valid = claim-IsValid t kind limit worker db v in
      let before : item_at r.id db'
          ≡ (if elem r.id ids then some (claim_item t worker r) else some r) =
        ap (find item_key r.id) same
        ∙ (claim_effect t worker kind limit db r.id).0
        ∙ rw present refl in
      item_at-complete t ids db' r.id
        (subst (λ rows. IsDistinct (item_ids rows)) (sym same) valid.distinct)
      ∙ ap (keep_if (λ x. not (elem x.id ids))) before
      ∙ kept ids r
