-- ===== src/Workers/Details/Held.antt =====
-- A posting that was not asked for, or whose source refused, is charged no attempt.
use trouveur.Prelude.{
  ℕ, ◌≡◌, refl, ◌∙◌, Bool, true, false, not, ◌||◌, List, [], ◌∷◌, some, none, arith, nat_eq, elem,
  elem-append_none, All, Option-cases, inl, inr,
}
use trouveur.Db.{Text, Item, Job, Db, Tx}
use trouveur.Queue.{fail}
use trouveur.Queue.Claims.{item_at}
use trouveur.Workers.Embeds.{item_at-fail}
use trouveur.Workers.Details.{
  Outcome, skipped, gone, refused, errored, fetched, Fetching, Wording, detail_outcome, items_for,
  Settling, settle_row, settle_rows,
}

fail_other :
    (t : Tx) (ids : List ℕ) (error : Text) (db : Db) (k : ℕ)
    → elem k ids ≡ false
    → item_at k (fail t ids error db) ≡ item_at k db
fail_other t ids error db k other = item_at-fail t ids error db k ∙ rw other refl

module _ {ℓ} {Payload : Type ℓ} where
  -- Nothing was asked for the posting, or its source refused.
  abbrev pub is_held : Fetching Payload → ℕ → Bool
  is_held f job_id = elim (detail_outcome f job_id) [
    | none ↦ false
    | some outcome ↦ elim outcome [
      | skipped ↦ true
      | gone ↦ false
      | refused error ↦ true
      | errored error ↦ false
      | fetched document ↦ false
    ]
  ]

  -- The target is another item's, or it was held back.
  abbrev pub is_spared : List Item → Fetching Payload → ℕ → Job → Bool
  is_spared items f k row = not (elem k (items_for items row.id)) || is_held f row.id

  settle_row_asked :
      (w : Wording) (t : Tx) (items : List Item) (f : Fetching Payload) (k : ℕ) (row : Job)
      (s : Settling Payload) (outcome : Outcome Payload)
      → detail_outcome f row.id ≡ some outcome
      → is_spared items f k row ≡ true
      → elem k s.done ≡ false
      → (item_at k (settle_row w t items f row s).db ≡ item_at k s.db)
        × (elem k (settle_row w t items f row s).done ≡ false)
  unfolding settle_row
  settle_row_asked w t items f k row s skipped e spared undone = rw (e, settle_row) (refl, undone)
  settle_row_asked w t items f k row s (refused error) e spared undone =
      rw (e, settle_row) (refl, undone)
  settle_row_asked w t items f k row s (errored error) e spared undone =
      rw (e, settle_row)
        (fail_other t (items_for items row.id) error s.db k (ground (arith, spared, e)), undone)
  settle_row_asked w t items f k row s gone e spared undone =
      rw (e, settle_row)
        (
          refl,
          elem-append_none k s.done (items_for items row.id) undone (ground (arith, spared, e)),
        )
  settle_row_asked w t items f k row s (fetched document) e spared undone =
      rw (e, settle_row)
        (
          refl,
          elem-append_none k s.done (items_for items row.id) undone (ground (arith, spared, e)),
        )

  settle_row_spares :
      (w : Wording) (t : Tx) (items : List Item) (f : Fetching Payload) (k : ℕ) (row : Job)
      (s : Settling Payload)
      → is_spared items f k row ≡ true
      → elem k s.done ≡ false
      → (item_at k (settle_row w t items f row s).db ≡ item_at k s.db)
        × (elem k (settle_row w t items f row s).done ≡ false)
  unfolding settle_row
  settle_row_spares w t items f k row s spared undone =
      elim (Option-cases (detail_outcome f row.id)) [
        | inl e ↦
            rw (e, settle_row)
              (
                fail_other t (items_for items row.id) (w.of_unknown row.source) s.db k
                    (ground (arith, spared, e)),
                undone,
              )
        | inr (outcome, e) ↦ settle_row_asked w t items f k row s outcome e spared undone
      ]

  -- Where the targets of an item were not asked for or refused, and it is not yet completed,
  -- settling the targets leaves the item as it was, charged no attempt, and does not complete it.
  pub settle_rows_spares :
      (w : Wording) (t : Tx) (items : List Item) (f : Fetching Payload) (rows : List Job) (k : ℕ)
      (s : Settling Payload)
      → All (λ row. is_spared items f k row ≡ true) rows
      → elem k s.done ≡ false
      → (item_at k (settle_rows w t items f rows s).db ≡ item_at k s.db)
        × (elem k (settle_rows w t items f rows s).done ≡ false)
  unfolding settle_rows
  settle_rows_spares w t items f [] k s spared undone = (refl, undone)
  settle_rows_spares w t items f (row ∷ rows) k s spared undone =
      let here = settle_row_spares w t items f k row s spared.0 undone in
      let rest =
        settle_rows_spares w t items f rows k (settle_row w t items f row s) spared.1 here.1 in
      (rest.0 ∙ here.0, rest.1)
