-- ===== src/Sources/Feed/Batching.antt =====
-- The feed's walk keeps its accounts: every document is sunk once, in a batch of at most 200, is
-- counted, and lies inside the window.
use trouveur.Prelude.{
  ℕ, zero, suc, ◌+◌, ◌≤◌, ◌<◌, leb→le, leb→lt, ◌≡◌, refl, sym, ap, ◌∙◌, subst, true, false, Option,
  some, List, [], ◌∷◌, ◌++◌, map, append_assoc, append-nil, arith, leb, nat_eq, length,
  length-append, length-take, length-drop, take, drop, take-append-drop, concat, concat-append,
  elem, IsDistinct, IsDistinct-append, elem-keys_outside, All, All-append, All-map, beq_same,
  list_eq, Bool-cases, Option-cases, inl, inr,
}
use trouveur.Db.{Text}
use trouveur.Sources.Board.{batch, Document, Batches}
use trouveur.Sources.Feed.{
  Adapter, is_outside, Page, listing, take_new, take_row, take_rows, Walk, flush_from,
}

abbrev pub ids_of {ℓ} : {Row : Type ℓ} → List (Document Row) → List Text
ids_of = map (λ d. d.external_id)

-- All that the walk has kept so far, sunk or waiting.
abbrev pub kept {ℓ} : {Row : Type ℓ} → Batches Row → List (Document Row) → List (Document Row)
kept sunk pending = concat sunk ++ pending

module _ {ℓ} {Row : Type ℓ} (sunk : Batches Row) (b : List (Document Row)) where
  pub concat-sink : concat (sunk ++ b ∷ []) ≡ concat sunk ++ b
  unfolding concat
  concat-sink = concat-append sunk (b ∷ []) ∙ ap (λ docs. concat sunk ++ docs) (append-nil b)

  pub kept_sink : (rest : List (Document Row)) → kept (sunk ++ b ∷ []) rest ≡ kept sunk (b ++ rest)
  kept_sink rest = rw concat-sink (append_assoc (concat sunk) b rest)

  pub length-concat-sink : length (concat (sunk ++ b ∷ [])) ≡ length (concat sunk) + length b
  length-concat-sink = rw concat-sink (length-append (concat sunk) b)

module _ {ℓ} {Cursor Payload Row : Type ℓ} (a : Adapter Cursor Payload Row) (cut : Option ℕ) where
  -- The document is of its row, and its row lies inside the window.
  abbrev pub IsListed : Document Row → Type 0
  IsListed d =
      (a.identify d.payload ≡ some d.external_id)
      × (is_outside cut (a.published_at d.payload) ≡ false)

  -- The documents kept, and the ids seen.
  pub record IsKept (docs : List (Document Row)) (seen : List Text) : Type ℓ where
    pub distinct : IsDistinct (ids_of docs)
    pub known : All (λ d. elem d.external_id seen ≡ true) docs
    pub listed : All IsListed docs

  seen_more :
      (external_id : Text) (docs : List (Document Row)) (seen : List Text)
      → IsKept docs seen
      → IsKept docs (external_id ∷ seen)
  unfolding elem
  seen_more external_id docs seen k = record {
    distinct = k.distinct;
    known = All-map (λ d. elem d.external_id seen ≡ true) (λ d h. ground arith) docs k.known;
    listed = k.listed;
  }

  IsKept-more :
      (docs : List (Document Row)) (seen : List Text) (d : Document Row)
      → elem d.external_id seen ≡ false
      → IsListed d
      → IsKept docs seen
      → IsKept (docs ++ d ∷ []) (d.external_id ∷ seen)
  unfolding elem
  IsKept-more docs seen d new listed k = record {
    distinct =
        IsDistinct-append (λ d. d.external_id) docs d k.distinct
          (elem-keys_outside (λ d. d.external_id) seen d.external_id docs k.known new);
    known =
        All-append (λ x. elem x.external_id (d.external_id ∷ seen) ≡ true) docs (d ∷ [])
          (All-map (λ x. elem x.external_id seen ≡ true) (λ x h. ground arith) docs k.known)
          (rw (beq_same d.external_id) refl, tt);
    listed = All-append IsListed docs (d ∷ []) k.listed (listed, tt);
  }

  take_new-IsKept :
      (sunk : Batches Row) (external_id : Text) (row : Row) (p : Page a)
      → a.identify row ≡ some external_id
      → elem external_id p.seen_ids ≡ false
      → IsKept (kept sunk p.pending) p.seen_ids
      → IsKept
          (kept sunk (take_new a cut external_id row p).pending)
          (take_new a cut external_id row p).seen_ids
  unfolding take_new
  take_new-IsKept sunk external_id row p named new k =
      elim (Bool-cases (is_outside cut (a.published_at row))) [
        | inl out ↦ rw out (seen_more external_id (kept sunk p.pending) p.seen_ids k)
        | inr inside ↦ rw inside (
            subst (λ docs. IsKept docs (external_id ∷ p.seen_ids))
              (append_assoc (concat sunk) p.pending (listing a external_id row ∷ []))
              (IsKept-more (kept sunk p.pending) p.seen_ids (listing a external_id row) new
                (named, inside) k))
      ]

  take_row-IsKept :
      (sunk : Batches Row) (row : Row) (p : Page a)
      → IsKept (kept sunk p.pending) p.seen_ids
      → IsKept (kept sunk (take_row a cut row p).pending) (take_row a cut row p).seen_ids
  unfolding take_row
  take_row-IsKept sunk row p k = elim (Option-cases (a.identify row)) [
    | inl e ↦ rw (e, take_row) k
    | inr (external_id, e) ↦
        rw (e, take_row)
          (elim (Bool-cases (elem external_id p.seen_ids)) [
            | inl old ↦ rw old k
            | inr new ↦ rw new (take_new-IsKept sunk external_id row p e new k)
          ])
  ]

  pub take_rows-IsKept :
      (sunk : Batches Row) (rows : List Row) (p : Page a)
      → IsKept (kept sunk p.pending) p.seen_ids
      → IsKept (kept sunk (take_rows a cut rows p).pending) (take_rows a cut rows p).seen_ids
  unfolding take_rows
  take_rows-IsKept sunk [] p k = k
  take_rows-IsKept sunk (row ∷ rows) p k =
      take_rows-IsKept sunk rows (take_row a cut row p) (take_row-IsKept sunk row p k)

  -- The walk's accounts: what is kept, and how it was sunk and counted.
  pub record IsSound (w : Walk a) : Type ℓ where
    pub all_kept : IsKept (kept w.sunk w.pending) w.seen_ids
    pub short : All (λ b. length b ≤ batch) w.sunk
    pub counted : w.documents ≡ length (concat w.sunk)

  pub flush_from-IsSound : (rounds : ℕ) (w : Walk a) → IsSound w → IsSound (flush_from a rounds w)
  unfolding flush_from
  flush_from-IsSound zero w s = s
  flush_from-IsSound (suc rounds) w s = elim (Bool-cases (leb batch (length w.pending))) [
    | inl full ↦ rw full (
        flush_from-IsSound rounds _ (record {
          all_kept =
              subst (λ docs. IsKept docs w.seen_ids)
                (sym (
                  kept_sink w.sunk (take batch w.pending) (drop batch w.pending)
                  ∙ ap (λ docs. concat w.sunk ++ docs) (take-append-drop batch w.pending)))
                s.all_kept;
          short =
              All-append (λ b. length b ≤ batch) w.sunk (take batch w.pending ∷ []) s.short
                (omega (arith, length-take batch w.pending), tt);
          counted = omega (
            arith,
            s.counted,
            leb→le batch (length w.pending) full,
            length-take batch w.pending,
            length-concat-sink w.sunk (take batch w.pending),
          );
        }))
    | inr rest ↦ rw rest s
  ]

  -- Enough rounds leave less than a batch.
  pub flush_from-short :
      (rounds : ℕ) (w : Walk a)
      → length w.pending ≤ rounds
      → length (flush_from a rounds w).pending < batch
  unfolding flush_from
  flush_from-short zero w h = omega (arith, h)
  flush_from-short (suc rounds) w h = elim (Bool-cases (leb batch (length w.pending))) [
    | inl full ↦ rw full (
        flush_from-short rounds _
          (omega (arith, h, leb→le batch (length w.pending) full, length-drop batch w.pending)))
    | inr rest ↦ rw rest (leb→lt batch (length w.pending) rest)
  ]
