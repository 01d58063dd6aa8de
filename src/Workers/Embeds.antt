-- ===== src/Workers/Embeds.antt =====
-- A batch of embeddings: written, not needed any more, or failed as a whole.
use trouveur.Prelude.{
  ℕ, ◌≡◌, ◌⊎◌, refl, sym, ap, ◌∙◌, subst, true, not, ◌&&◌, ◌||◌, List, [], ◌∷◌, Option, some, none,
  arith, ◌==◌, nat_eq, elem, any, is_none, find-update_ids, List-cases, Option-cases, Bool-cases,
  inl, inr, if◌then◌else◌,
}
use mathlib.Core.Option
use trouveur.Db.{Text, embed, Version, version_beq, Item, Job, Db, Tx, item_ids, job_ids}
use trouveur.Queue.{claim_item, mark_ready, claim, complete, fail_item, fail}
use trouveur.Queue.Valid.{IsValid}
use trouveur.Queue.Claims.{item_key, item_at, claim_effect}
use trouveur.Workers.{
  worker, jobs_of, load_for_embedding, write_embeddings, embed_batch, drain_embed,
}
use trouveur.Workers.Claimed.{claim-jobs_of, claimed_gone}
use trouveur.Workers.Drains.{claim-jobs}
use trouveur.Workers.Vectors.{
  has_open, is_embedded, write_embeddings_embedded, write_embeddings-items, complete-embeddings,
  load_for_embedding-elem,
}

-- What a batch comes to for an item of the queue: it is left as it is; it is gone, and an open
-- posting has the vector; or it has failed, and waits for its next attempt.
abbrev pub IsSettled : Tx → Version → Item → Db → Db → Type 0
IsSettled t version r before db =
    (item_at r.id db ≡ some r)
    ⊎ ((item_at r.id db ≡ none)
        × ((is_embedded version r.job_id db || not (has_open r.job_id before)) ≡ true))
    ⊎ ((error : Text) × (item_at r.id db ≡ some (fail_item t error (claim_item t worker r))))

pub item_at-fail :
    (t : Tx) (ids : List ℕ) (error : Text) (db : Db) (k : ℕ)
    → item_at k (fail t ids error db)
      ≡ (if elem k ids then Option.map (fail_item t error) (item_at k db) else item_at k db)
unfolding fail mark_ready elem fail_item
item_at-fail t [] error db k = refl
item_at-fail t (i ∷ ids) error db k =
    find-update_ids item_key (i ∷ ids) (fail_item t error) (λ r. refl) k db.items

module _ (provider : List Job → Option Text) (t : Tx) (version : Version) where
  -- The ways through a batch.
  embed_batch-cases :
      (claimed : Db) (items : List Item)
      → ((items ≡ []) × ((embed_batch provider t version claimed items).0 ≡ claimed))
        ⊎ ((load_for_embedding (jobs_of items) claimed ≡ [])
            × ((embed_batch provider t version claimed items).0
                ≡ complete t (item_ids items) claimed))
        ⊎ ((error : Text) × ((embed_batch provider t version claimed items).0
              ≡ fail t (item_ids items) error claimed))
        ⊎ ((embed_batch provider t version claimed items).0
            ≡ complete t (item_ids items) (
                write_embeddings version
                  (job_ids (load_for_embedding (jobs_of items) claimed))
                  claimed))
  unfolding embed_batch
  embed_batch-cases claimed [] = inl (refl, refl)
  embed_batch-cases claimed (r ∷ rest) =
      elim (List-cases (load_for_embedding (jobs_of (r ∷ rest)) claimed)) [
        | inl f ↦ inr (inl (f, rw (f, embed_batch) refl))
        | inr (row, rows, f) ↦ elim (Option-cases (provider (row ∷ rows))) [
          | inr (error, g) ↦ inr (inr (inl (error, rw (f, embed_batch, g) refl)))
          | inl g ↦ inr (inr (inr (rw (f, embed_batch, g) refl)))
        ]
      ]

  module _ (limit : ℕ) (db : Db) (r : Item) (v : IsValid db)
      (present : item_at r.id db ≡ some r) where
    abbrev claimed : Db
    claimed = (claim t embed limit worker db).0

    abbrev items : List Item
    items = (claim t embed limit worker db).1

    at_claimed :
        item_at r.id claimed
        ≡ (if elem r.id (item_ids items) then some (claim_item t worker r) else some r)
    at_claimed = (claim_effect t worker embed limit db r.id).0 ∙ rw present refl

    -- Where the posting is open and the item was claimed, the posting was loaded.
    loaded :
        elem r.id (item_ids items) ≡ true
        → has_open r.job_id db ≡ true
        → elem r.job_id (job_ids (load_for_embedding (jobs_of items) claimed)) ≡ true
    loaded taken standing =
        load_for_embedding-elem (jobs_of items) r.job_id claimed
          (subst (λ jobs. any (λ j. j.id == r.job_id && is_none j.closed_at) jobs ≡ true)
            (sym (claim-jobs t embed limit db)) standing)
          (claim-jobs_of t embed limit db r v present taken)

    fail-IsSettled :
        (error : Text) → IsSettled t version r db (fail t (item_ids items) error claimed)
    fail-IsSettled error = elim (Bool-cases (elem r.id (item_ids items))) [
      | inr left ↦
          inl (item_at-fail t (item_ids items) error claimed r.id ∙ rw (at_claimed, left) refl)
      | inl taken ↦ inr (
          inr (
            error,
            item_at-fail t (item_ids items) error claimed r.id ∙ rw (at_claimed, taken) refl,
          ))
    ]

    complete-IsSettled :
        (db' : Db)
        → db'.items ≡ claimed.items
        → (elem r.id (item_ids items) ≡ true
            → (is_embedded version r.job_id db' || not (has_open r.job_id db)) ≡ true)
        → IsSettled t version r db (complete t (item_ids items) db')
    complete-IsSettled db' same fine = elim (Bool-cases (elem r.id (item_ids items))) [
      | inr left ↦ inl (claimed_gone t embed limit db r db' v present same ∙ rw left refl)
      | inl taken ↦ inr (
          inl (
            claimed_gone t embed limit db r db' v present same ∙ rw taken refl,
            ap
                  (λ vectors.
                    any (λ e. e.job_id == r.job_id && version_beq e.embedding_version version)
                      vectors
                    || not (has_open r.job_id db))
                  (complete-embeddings t (item_ids items) db')
                ∙ fine taken,
          ))
    ]

    nothing_loaded :
        load_for_embedding (jobs_of items) claimed ≡ []
        → elem r.job_id (job_ids (load_for_embedding (jobs_of items) claimed)) ≡ true
        → ⊥
    unfolding elem
    nothing_loaded e member =
        let none_in : elem r.job_id [] ≡ true =
          subst (λ rows. elem r.job_id (job_ids rows) ≡ true) e member in
        ground (arith, none_in)

    embed_batch-IsSettled :
        IsSettled t version r db (embed_batch provider t version claimed items).0
    unfolding elem
    embed_batch-IsSettled = elim (embed_batch-cases claimed items) [
      | inl (e, same) ↦ inl (
          ap (item_at r.id) same
          ∙ at_claimed
          ∙ ap (λ rows. if elem r.id (item_ids rows) then some (claim_item t worker r) else some r)
              e)
      | inr (inl (e, same)) ↦ subst (IsSettled t version r db) (sym same) (
          complete-IsSettled claimed refl (λ taken. elim (Bool-cases (has_open r.job_id db)) [
            | inr shut ↦ rw shut (ground arith)
            | inl standing ↦ absurd (nothing_loaded e (loaded taken standing))
          ]))
      | inr (inr (inl (error, same))) ↦
          subst (IsSettled t version r db) (sym same) (fail-IsSettled error)
      | inr (inr (inr same)) ↦ subst (IsSettled t version r db) (sym same) (
          complete-IsSettled
            (write_embeddings version (job_ids (load_for_embedding (jobs_of items) claimed))
              claimed)
            (write_embeddings-items version (job_ids (load_for_embedding (jobs_of items) claimed))
              claimed)
            (λ taken. elim (Bool-cases (has_open r.job_id db)) [
              | inr shut ↦ rw shut (ground arith)
              | inl standing ↦
                  rw
                    (write_embeddings_embedded version r.job_id
                      (job_ids (load_for_embedding (jobs_of items) claimed)) claimed
                      (loaded taken standing))
                    refl
            ]))
    ]

    -- After drain_embed on a valid queue, an item is as it was, or it is gone and its posting has
    -- a vector of the version or was not open, or it was claimed and has failed with an error's
    -- text.
    pub drain_embed_settles : IsSettled t version r db (drain_embed provider t version limit db).0
    unfolding drain_embed
    drain_embed_settles = embed_batch-IsSettled
