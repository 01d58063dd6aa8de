-- ===== src/Queue/Retries.antt =====
-- What becomes of items that fail or are paused.
use mathlib.Core.Option
use trouveur.Prelude.{
  ℕ, ◌+◌, ◌*◌, ◌^◌, ◌≤◌, ◌<◌, ◌≡◌, refl, true, false, not, ◌&&◌, List, [], ◌∷◌, some, String, arith,
  ◌==◌, nat_eq, is_none, elem, find-update_ids, find-update_where, if◌then◌else◌, Bool-cases, inl,
  inr, leb, is_some, find_key, ◌||◌, string_eq, elem-keys_of_find, ap,
}
use trouveur.Db.{Text, second, WorkKind, Item, Job, Db, Tx, item_ids, kind_eq, kind_beq_iff}
use trouveur.Queue.{max_attempts, parked_for, backoff_base_seconds, fail_item, fail, claim}
use trouveur.Queue.Valid.{IsValid, fail-IsValid, pause_source-IsValid}
use trouveur.Queue.Claims.{item_key, item_at, claim-IsTakable}
use trouveur.Queue.Ready.{job_at, job_key}
use trouveur.Queue.Upkeep.{is_pausable, pause_item, pause_source}

-- A failure rewrites the items that it names and no other; posting rows aside, nothing else moves.
pub item_at-fail :
    (t : Tx) (ids : List ℕ) (error : Text) (db : Db) (k : ℕ)
    → item_at k (fail t ids error db)
      ≡ (if elem k ids then Option.map (fail_item t error) (item_at k db) else item_at k db)
unfolding fail elem
item_at-fail t [] error db k = refl
item_at-fail t (i ∷ ids) error db k =
    find-update_ids item_key (i ∷ ids) (fail_item t error) (λ r. refl) k db.items

-- How long an item waits after a failure, by the attempts that it had spent before.
abbrev pub delay : ℕ → ℕ
delay attempts =
    if leb max_attempts (attempts + 1)
    then parked_for
    else backoff_base_seconds * 2 ^ attempts * second

-- In a valid queue, an item that has failed is not returned by a claim before its backoff is over.
pub claim-fail :
    (t u : Tx) (kind : WorkKind) (limit : ℕ) (worker : String) (ids : List ℕ) (error : Text)
    (db : Db) (k : ℕ) (r : Item)
    → IsValid db
    → item_at k db ≡ some r
    → elem k ids ≡ true
    → u.now < t.now + delay r.attempts
    → elem k (item_ids (claim u kind limit worker (fail t ids error db)).1) ≡ false
unfolding fail_item
claim-fail t u kind limit worker ids error db k r v found failed early =
    elim (Bool-cases (elem k (item_ids (claim u kind limit worker (fail t ids error db)).1))) [
      | inl taken ↦
          let again =
            claim-IsTakable u worker kind limit (fail t ids error db) k
              (fail-IsValid t ids error db v) taken in
          absurd (ground (arith, again.present, again.due, item_at-fail t ids error db k))
      | inr left ↦ left
    ]

module _ (t : Tx) (kind : WorkKind) (source : String) (pause : ℕ) (reason : Text) (ids : List ℕ)
    (db : Db) (k : ℕ) (r : Item) (found : item_at k db ≡ some r) where
  item_at-pause_source :
      item_at k (pause_source t kind source pause reason ids db).0
      ≡ some (if is_pausable kind source ids db r then pause_item t pause reason r else r)
  unfolding pause_source
  item_at-pause_source =
      rw
        (
          find-update_where item_key (is_pausable kind source ids db) (pause_item t pause reason)
              (λ r. refl),
          found,
        )
        refl

  -- Pausing a source keeps the item that stands under an id, spends none of its attempts and does
  -- not bring it forward.
  pub pause_source_gentle :
      (r' : Item) × (item_at k (pause_source t kind source pause reason ids db).0 ≡ some r')
      × (r'.attempts ≡ r.attempts)
      × (r.not_before ≤ r'.not_before)
  pause_source_gentle = (
    if is_pausable kind source ids db r then pause_item t pause reason r else r,
    item_at-pause_source,
    ground arith,
    ground arith,
  )

  -- A parked item is not touched, nor is one that another worker holds.
  pub pause_source_spares :
      (leb max_attempts r.attempts || is_some r.claimed_at && not (elem k ids)) ≡ true
      → item_at k (pause_source t kind source pause reason ids db).0 ≡ some r
  pause_source_spares spared =
      rw item_at-pause_source (ground (arith, find_key item_key k db.items r found))

  pausable :
      (j : Job)
      → r.kind ≡ kind
      → job_at r.job_id db ≡ some j
      → j.source ≡ source
      → r.attempts < max_attempts
      → (is_none r.claimed_at || elem k ids) ≡ true
      → is_pausable kind source ids db r ≡ true
  pausable j of_kind posted of_source live free =
      let same = find_key item_key k db.items r found in
      ground (
        arith,
        (kind_beq_iff r.kind kind).1 of_kind,
        elem-keys_of_find job_key (λ j. j.source == source) r.job_id db.jobs j posted
            ((string_eq.beq_iff j.source source).1 of_source),
        ap (λ n. elem n ids) same,
      )

  -- In a valid queue, an item of a paused source and kind that is not parked, and is unclaimed or
  -- one of the caller's, is not returned by a claim before the pause is over.
  pub claim-pause_source :
      (u : Tx) (limit : ℕ) (worker : String) (j : Job)
      → IsValid db
      → r.kind ≡ kind
      → job_at r.job_id db ≡ some j
      → j.source ≡ source
      → r.attempts < max_attempts
      → (is_none r.claimed_at || elem k ids) ≡ true
      → u.now < t.now + pause
      → elem k (
          item_ids (claim u kind limit worker (pause_source t kind source pause reason ids db).0).1)
        ≡ false
  claim-pause_source u limit worker j v of_kind posted of_source live free early =
      let paused = (pause_source t kind source pause reason ids db).0 in
      elim (Bool-cases (elem k (item_ids (claim u kind limit worker paused).1))) [
        | inl taken ↦
            let again =
              claim-IsTakable u worker kind limit paused k
                (pause_source-IsValid t kind source pause reason ids db v) taken in
            absurd (
              ground (
                arith,
                again.present,
                again.due,
                item_at-pause_source,
                pausable j of_kind posted of_source live free,
              ))
        | inr left ↦ left
      ]
