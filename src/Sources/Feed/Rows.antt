-- ===== src/Sources/Feed/Rows.antt =====
-- What a page of a feed adds to what is seen and kept.
use trouveur.Prelude.{
  ℕ, zero, suc, ◌≡◌, refl, sym, ap, ◌∙◌, subst, Bool, true, Option, some, none, List, [], ◌∷◌, ◌++◌,
  append_assoc, map-append, beq_same, arith, leb, nat_eq, elem-append_left, length, take, drop,
  take-append-drop, concat, elem, All, All-map, list_eq, Bool-cases, Option-cases, inl, inr,
}
use trouveur.Db.{Text}
use trouveur.Sources.{ok}
use trouveur.Sources.Board.{batch, Batches}
use trouveur.Sources.Feed.{Adapter, Page, listing, take_new, take_row, take_rows, Walk, flush_from}
use trouveur.Sources.Feed.Batching.{ids_of, kept, kept_sink}

module _ {ℓ} {Cursor Payload Row : Type ℓ} (a : Adapter Cursor Payload Row) where
  -- The rows that the feed lists from a cursor on to its end.
  pub data IsRead : ℕ → Option Cursor → List Row → Type ℓ where
    at_empty :
        {pages : ℕ} {cursor : Option Cursor} {payload : Payload}
        → a.fetch pages cursor ≡ ok payload
        → a.extract payload ≡ ok []
        → IsRead (suc pages) cursor []
    at_last :
        {pages : ℕ} {cursor : Option Cursor} {payload : Payload} {rows : List Row}
        → a.fetch pages cursor ≡ ok payload
        → a.extract payload ≡ ok rows
        → a.next_cursor payload ≡ none
        → IsRead (suc pages) cursor rows
    and_on :
        {pages : ℕ} {cursor : Option Cursor} {payload : Payload} {rows rest : List Row}
        {next : Cursor}
        → a.fetch pages cursor ≡ ok payload
        → a.extract payload ≡ ok rows
        → a.next_cursor payload ≡ some next
        → IsRead pages (some next) rest
        → IsRead (suc pages) cursor (rows ++ rest)

  -- Whether a row is one of those with these ids, or names none.
  abbrev pub is_among : List Text → Row → Bool
  is_among ids row = elim (a.identify row) [ none ↦ true | some id ↦ elem id ids ]

  -- Without a window, an id that was seen belongs to a document that is kept.
  unfoldable pub IsCovered : List Text → List Text → Type 0
  IsCovered docs seen = All (λ id. elem id docs ≡ true) seen

  elem-append_last : (id : Text) (xs : List Text) → elem id (xs ++ id ∷ []) ≡ true
  unfolding elem
  elem-append_last id [] = rw (beq_same id) refl
  elem-append_last id (x ∷ xs) = ground (arith, elem-append_last id xs)

  module _ (sunk : Batches Row) where
    take_row-IsCovered :
        (row : Row) (p : Page a)
        → IsCovered (ids_of (kept sunk p.pending)) p.seen_ids
        → IsCovered
            (ids_of (kept sunk (take_row a none row p).pending))
            (take_row a none row p).seen_ids
    unfolding take_row take_new IsCovered
    take_row-IsCovered row p c = elim (Option-cases (a.identify row)) [
      | inl e ↦ rw (e, take_row) c
      | inr (id, e) ↦
          rw (e, take_row)
            (elim (Bool-cases (elem id p.seen_ids)) [
              | inl old ↦ rw old c
              | inr new ↦ rw new (
                  subst (λ docs. IsCovered docs (id ∷ p.seen_ids))
                    (sym (
                        map-append (λ d. d.external_id) (kept sunk p.pending)
                          (listing a id row ∷ []))
                      ∙ ap ids_of (append_assoc (concat sunk) p.pending (listing a id row ∷ [])))
                    (
                      elem-append_last id (ids_of (kept sunk p.pending)),
                      All-map (λ i. elem i (ids_of (kept sunk p.pending)) ≡ true)
                          (λ i. elem-append_left i (ids_of (kept sunk p.pending)) (id ∷ []))
                          p.seen_ids c,
                    ))
            ])
    ]

    pub take_rows-IsCovered :
        (rows : List Row) (p : Page a)
        → IsCovered (ids_of (kept sunk p.pending)) p.seen_ids
        → IsCovered
            (ids_of (kept sunk (take_rows a none rows p).pending))
            (take_rows a none rows p).seen_ids
    unfolding take_rows
    take_rows-IsCovered [] p c = c
    take_rows-IsCovered (row ∷ rows) p c =
        take_rows-IsCovered rows (take_row a none row p) (take_row-IsCovered row p c)

  -- What is seen stays seen, and each row is among what is seen.
  take_row-grows :
      (id : Text) (row : Row) (p : Page a)
      → elem id p.seen_ids ≡ true
      → elem id (take_row a none row p).seen_ids ≡ true
  unfolding take_row take_new elem
  take_row-grows id row p h = elim (Option-cases (a.identify row)) [
    | inl e ↦ rw (e, take_row) h
    | inr (i, e) ↦
        rw (e, take_row)
          (elim (Bool-cases (elem i p.seen_ids)) [
            | inl old ↦ rw old h
            | inr new ↦ rw new (ground arith)
          ])
  ]

  among_named :
      (row : Row) (id : Text) (ids : List Text)
      → a.identify row ≡ some id
      → is_among ids row ≡ elem id ids
  among_named row id ids e = rw (e, is_among) refl

  take_row-among : (row : Row) (p : Page a) → is_among (take_row a none row p).seen_ids row ≡ true
  unfolding take_row take_new elem
  take_row-among row p = elim (Option-cases (a.identify row)) [
    | inl e ↦ rw (e, is_among) refl
    | inr (i, e) ↦
        rw (among_named row i _ e, e, take_row)
          (elim (Bool-cases (elem i p.seen_ids)) [
            | inl old ↦ rw old old
            | inr new ↦ rw new (rw (beq_same i) refl)
          ])
  ]

  pub take_rows-grows :
      (id : Text) (rows : List Row) (p : Page a)
      → elem id p.seen_ids ≡ true
      → elem id (take_rows a none rows p).seen_ids ≡ true
  unfolding take_rows
  take_rows-grows id [] p h = h
  take_rows-grows id (row ∷ rows) p h =
      take_rows-grows id rows (take_row a none row p) (take_row-grows id row p h)

  pub among-grows :
      (seen more : List Text) (row : Row)
      → ((id : Text) → elem id seen ≡ true → elem id more ≡ true)
      → is_among seen row ≡ true
      → is_among more row ≡ true
  among-grows seen more row grows h = elim (Option-cases (a.identify row)) [
    | inl e ↦ rw (e, is_among) refl
    | inr (i, e) ↦ rw (among_named row i more e) (grows i (sym (among_named row i seen e) ∙ h))
  ]

  pub take_rows-among :
      (rows : List Row) (p : Page a)
      → All (λ row. is_among (take_rows a none rows p).seen_ids row ≡ true) rows
  unfolding take_rows
  take_rows-among [] p = tt
  take_rows-among (row ∷ rows) p =
      let p' = take_row a none row p in
      (
        among-grows p'.seen_ids _ row (λ id. take_rows-grows id rows p') (take_row-among row p),
        take_rows-among rows p',
      )

  pub flush_from-kept :
      (rounds : ℕ) (w : Walk a)
      → kept (flush_from a rounds w).sunk (flush_from a rounds w).pending ≡ kept w.sunk w.pending
  unfolding flush_from
  flush_from-kept zero w = refl
  flush_from-kept (suc rounds) w = elim (Bool-cases (leb batch (length w.pending))) [
    | inl full ↦ rw full (
        flush_from-kept rounds _
        ∙ kept_sink w.sunk (take batch w.pending) (drop batch w.pending)
        ∙ ap (λ docs. concat w.sunk ++ docs) (take-append-drop batch w.pending))
    | inr rest ↦ rw rest refl
  ]

  -- Flushing leaves the ids seen and the end as they are.
  pub flush_from-same :
      (rounds : ℕ) (w : Walk a)
      → ((flush_from a rounds w).seen_ids ≡ w.seen_ids)
        × ((flush_from a rounds w).reached_end ≡ w.reached_end)
  unfolding flush_from
  flush_from-same zero w = (refl, refl)
  flush_from-same (suc rounds) w = elim (Bool-cases (leb batch (length w.pending))) [
    | inl full ↦ rw full (flush_from-same rounds _)
    | inr rest ↦ rw rest (refl, refl)
  ]
