-- ===== src/Queue/Ready.antt =====
-- When a posting becomes ready.
use mathlib.Core.Option
use trouveur.Prelude.{
  All, ◌⊎◌, none, ℕ, ◌+◌, ◌≤◌, ◌≡◌, refl, Bool, true, false, not, ◌&&◌, List, [], ◌∷◌, Option, some,
  arith, ◌==◌, nat_eq, is_none, elem, any, find, filter, update_where, find-update_where,
  any-filter, if◌then◌else◌, Bool-cases, inl, inr, ltb, ◌∙◌, find_key, any-update, any_congr,
  string_eq,
}
use trouveur.Db.{Text, WorkKind, detail, derive, embed, dedup, Item, Job, Db, Tx, kind_eq}
use trouveur.Queue.{
  max_attempts, holds_back, is_live, becomes_ready, mark_ready, complete, fail_item, fail,
}

abbrev pub job_key : Job → ℕ
job_key j = j.id

abbrev pub job_at : ℕ → Db → Option Job
job_at k db = find job_key k db.jobs

-- Whether an item holds the posting back once the items `ids` have failed.
abbrev pub live_after_failure : List ℕ → ℕ → Item → Bool
live_after_failure ids k r =
    r.job_id == k
    && holds_back r.kind
    && ltb (if elem r.id ids then r.attempts + 1 else r.attempts) max_attempts

live_failed :
    (t : Tx) (ids : List ℕ) (error : Text) (k : ℕ) (r : Item)
    → is_live k (if elem r.id ids then fail_item t error r else r) ≡ live_after_failure ids k r
unfolding fail_item
live_failed t ids error k r = ground arith

-- With the items `ids` done, this item does not keep posting `k` from being ready.
pub data Spares (ids : List ℕ) (k : ℕ) (r : Item) : Type 0 where
  is_done : elem r.id ids ≡ true → Spares ids k r
  of_another : (¬ (r.job_id ≡ k)) → Spares ids k r
  is_dedup : r.kind ≡ dedup → Spares ids k r
  is_spent : 5 ≤ r.attempts → Spares ids k r

holds_back_only : (kind : WorkKind) → holds_back kind ≡ false → kind ≡ dedup
holds_back_only detail h = absurd (ground (arith, h))
holds_back_only derive h = absurd (ground (arith, h))
holds_back_only embed h = absurd (ground (arith, h))
holds_back_only dedup h = refl

Spares-held :
    (ids : List ℕ) (k : ℕ) (r : Item)
    → Spares ids k r
    → (not (elem r.id ids) && is_live k r) ≡ false
Spares-held ids k r (is_done done) = rw done refl
Spares-held ids k r (of_another other) = elim (Bool-cases (r.job_id == k)) [
  | inl same ↦ absurd (other ((nat_eq.beq_iff r.job_id k).0 same))
  | inr apart ↦ rw apart (ground arith)
]
Spares-held ids k r (is_dedup kind) = rw kind (ground arith)
Spares-held ids k r (is_spent spent) = ground (arith, spent)

held-Spares :
    (ids : List ℕ) (k : ℕ) (r : Item)
    → (not (elem r.id ids) && is_live k r) ≡ false
    → Spares ids k r
held-Spares ids k r h = elim (Bool-cases (elem r.id ids)) [
  | inl done ↦ is_done done
  | inr open_ ↦ elim (Bool-cases (r.job_id == k)) [
    | inr apart ↦ of_another (λ same. absurd (ground (arith, apart, same)))
    | inl same ↦ elim (Bool-cases (holds_back r.kind)) [
      | inr free ↦ is_dedup (holds_back_only r.kind free)
      | inl holds ↦ is_spent (ground (arith, h, open_, same, holds))
    ]
  ]
]

none_held :
    (ids : List ℕ) (k : ℕ) (rs : List Item)
    → All (Spares ids k) rs
    → any (λ r. not (elem r.id ids) && is_live k r) rs ≡ false
unfolding any
none_held ids k [] spared = refl
none_held ids k (r ∷ rs) spared = rw (Spares-held ids k r spared.0) (none_held ids k rs spared.1)

all_spared :
    (ids : List ℕ) (k : ℕ) (rs : List Item)
    → any (λ r. not (elem r.id ids) && is_live k r) rs ≡ false
    → All (Spares ids k) rs
unfolding any
all_spared ids k [] h = tt
all_spared ids k (r ∷ rs) h =
    let here : (not (elem r.id ids) && is_live k r) ≡ false = ground (arith, h) in
    (held-Spares ids k r here, all_spared ids k rs (ground (arith, h)))

module _ (t : Tx) where
  job_at-mark_ready :
      (db : Db) (k : ℕ)
      → job_at k (mark_ready t db).0
        ≡ Option.map
            (λ j. if becomes_ready t db.items j then record j { ready_at = some t.now } else j)
            (job_at k db)
  unfolding mark_ready
  job_at-mark_ready db k =
      find-update_where job_key (becomes_ready t db.items) _ (λ j. refl) k db.jobs

  -- `held` is whether an item holds the posting back.
  mark_ready-held :
      (db : Db) (k : ℕ) (j : Job) (held : Bool)
      → job_at k db ≡ some j
      → elem k t.locked_jobs ≡ false
      → any (is_live k) db.items ≡ held
      → job_at k (mark_ready t db).0
        ≡ some (if is_none j.ready_at && not held then record j { ready_at = some t.now } else j)
  mark_ready-held db k j held found free e =
      rw (job_at-mark_ready db k, found)
        (ground (arith, find_key job_key k db.jobs j found, e, free))

  -- Once items are done, a posting with no ready_at that nobody holds locked is made ready where
  -- each of its other items is parked or is dedup work, and is left as it is elsewhere.
  pub complete_ready :
      (i : ℕ) (ids : List ℕ) (db : Db) (k : ℕ) (j : Job)
      → job_at k db ≡ some j
      → j.ready_at ≡ none
      → elem k t.locked_jobs ≡ false
      → (All (Spares (i ∷ ids) k) db.items
          × (job_at k (complete t (i ∷ ids) db) ≡ some (record j { ready_at = some t.now })))
        ⊎ ((¬ All (Spares (i ∷ ids) k) db.items) × (job_at k (complete t (i ∷ ids) db) ≡ some j))
  unfolding complete
  complete_ready i ids db k j found unready free =
      let at =
        mark_ready-held (record db { items = filter (λ r. not (elem r.id (i ∷ ids))) db.items }) k j
          _ found free (any-filter (is_live k) (λ r. not (elem r.id (i ∷ ids))) db.items) in
      elim (Bool-cases (any (λ r. not (elem r.id (i ∷ ids)) && is_live k r) db.items)) [
        | inl held ↦ inr (
          λ spared. absurd (ground (arith, held, none_held (i ∷ ids) k db.items spared)),
          at ∙ rw (held, unready) refl,
        )
        | inr none_left ↦
            inl (all_spared (i ∷ ids) k db.items none_left, at ∙ rw (none_left, unready) refl)
      ]

  -- A failure makes a posting that nobody holds locked ready exactly when it was not ready and no
  -- item holds it back once the failed ones have one attempt more.
  pub fail_ready :
      (i : ℕ) (ids : List ℕ) (error : Text) (db : Db) (k : ℕ) (j : Job)
      → job_at k db ≡ some j
      → elem k t.locked_jobs ≡ false
      → job_at k (fail t (i ∷ ids) error db)
        ≡ some (
            if is_none j.ready_at && not (any (live_after_failure (i ∷ ids) k) db.items)
            then record j { ready_at = some t.now }
            else j)
  unfolding fail
  fail_ready i ids error db k j found free =
      mark_ready-held
        (record db { items = update_where (λ r. elem r.id (i ∷ ids)) (fail_item t error) db.items })
        k j _ found free
        (any-update (is_live k) (λ r. elem r.id (i ∷ ids)) (fail_item t error) db.items
          ∙ any_congr _ _ db.items (live_failed t (i ∷ ids) error k))
