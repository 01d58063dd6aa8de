-- ===== src/Sources/Feed/Complete.antt =====
-- A backfill that calls itself complete has read the feed to its end and sunk every row of it.
use trouveur.Prelude.{
  ℕ, zero, suc, ◌≡◌, refl, sym, ap, ◌∙◌, subst, true, false, ◌&&◌, Option, some, none, List, [],
  ◌∷◌, ◌++◌, append-nil, arith, ◌==◌, nat_eq, is_none, length, concat, elem, All, All-append,
  All-map, All-elem_at, list_eq, Bool-cases, List-cases, Option-cases, inl, inr, ◌⊎◌,
}
use trouveur.Db.{Text}
use trouveur.Sources.{Failure, Result, ok, err, Result-cases, SweepOutcome, is_complete}
use trouveur.Sources.Board.{Batches}
use trouveur.Sources.Feed.{
  Adapter, Options, cutoff, Page, take_rows, Walk, flush, take_page, promised, walk, sink_rest,
  outcome_of, first_walk, sweep_feed,
}
use trouveur.Sources.Feed.Batching.{ids_of, kept, concat-sink}
use trouveur.Sources.Feed.Rows.{
  at_empty, at_last, and_on, IsRead, is_among, IsCovered, take_rows-grows, among-grows,
  take_rows-among, flush_from-kept, flush_from-same, take_rows-IsCovered,
}

module _ {ℓ} {Cursor Payload Row : Type ℓ} (a : Adapter Cursor Payload Row) where
  page_of : Walk a → Page a
  page_of w = record { seen_ids = w.seen_ids; pending = w.pending; added = 0; in_window = 0 }

  with_page : Walk a → Page a → Walk a
  with_page w p = record w { seen_ids = p.seen_ids; pending = p.pending }

  -- The walk after the rows of a page, before it is decided whether to go on.
  after_page : List Row → Walk a → Walk a
  unfolding page_of with_page
  after_page rows w = flush a (with_page w (take_rows a none rows (page_of w)))

  ended : Walk a → Walk a
  ended w = record w { reached_end = true }

  take_page-cases :
      (payload : Payload) (row : Row) (rows : List Row) (w : Walk a)
      → ((take_page a none payload (row ∷ rows) w ≡ (ended (after_page (row ∷ rows) w), none))
          × (a.next_cursor payload ≡ none))
        ⊎ ((take_page a none payload (row ∷ rows) w ≡ (after_page (row ∷ rows) w, none))
            ⊎ ((next : Cursor) × (take_page a none payload (row ∷ rows) w
                  ≡ (after_page (row ∷ rows) w, some next))
                × (a.next_cursor payload ≡ some next)))
  unfolding take_page after_page page_of with_page ended
  take_page-cases payload row rows w =
      elim (Bool-cases ((take_rows a none (row ∷ rows) (page_of w)).added == 0)) [
        | inl old ↦ inr (inl (rw old refl))
        | inr new ↦ elim (Option-cases (a.next_cursor payload)) [
          | inl e ↦ inl (rw (new, e) refl, e)
          | inr (next, e) ↦ inr (inr (next, rw (new, e) refl, e))
        ]
      ]

  -- The ids of the documents kept by a walk.
  kept_ids : Walk a → List Text
  kept_ids w = ids_of (kept w.sunk w.pending)

  -- What is known of a walk, and of the one that it grew from.
  record IsTracked (seen : List Text) (w : Walk a) : Type ℓ where
    covered : IsCovered a (kept_ids w) w.seen_ids
    grows : (id : Text) → elem id seen ≡ true → elem id w.seen_ids ≡ true

  after_page-IsTracked :
      (seen : List Text) (rows : List Row) (w : Walk a)
      → IsTracked seen w
      → IsTracked seen (after_page rows w)
        × All (λ row. is_among a (after_page rows w).seen_ids row ≡ true) rows
        × ((after_page rows w).reached_end ≡ w.reached_end)
  unfolding after_page with_page page_of flush kept_ids IsCovered
  after_page-IsTracked seen rows w t =
      let p = take_rows a none rows (page_of w) in
      let same = flush_from-same a (length p.pending) (with_page w p) in
      (
        record {
          covered =
              rw (flush_from-kept a (length p.pending) (with_page w p), same.0)
                (take_rows-IsCovered a w.sunk rows (page_of w) t.covered);
          grows = λ id h. rw same.0 (take_rows-grows a id rows (page_of w) (t.grows id h));
        },
        rw same.0 (take_rows-among a rows (page_of w)),
        same.1,
      )

  ended-IsTracked : (seen : List Text) (w : Walk a) → IsTracked seen w → IsTracked seen (ended w)
  unfolding ended kept_ids
  ended-IsTracked seen w t = record { covered = t.covered; grows = t.grows }

  promised-IsTracked :
      (seen : List Text) (payload : Payload) (w : Walk a)
      → IsTracked seen w
      → IsTracked seen (promised a payload w) × ((promised a payload w).reached_end ≡ w.reached_end)
  unfolding kept_ids
  promised-IsTracked seen payload w t = elim (Bool-cases (is_none w.expected)) [
    | inl e ↦ rw e (record { covered = t.covered; grows = t.grows }, refl)
    | inr e ↦ rw e (t, refl)
  ]

  -- What a walk without a window shows, where it returns having reached the end.
  IsWhole : ℕ → Option Cursor → List Text → Walk a × Option Failure → Type ℓ
  IsWhole pages cursor seen (w, raised) =
      raised ≡ none
      → w.reached_end ≡ true
      → IsTracked seen w
        × ((rows : List Row) × IsRead a pages cursor rows
            × All (λ row. is_among a w.seen_ids row ≡ true) rows)

  IsTracked-self : (w : Walk a) (seen : List Text) → IsTracked seen w → IsTracked w.seen_ids w
  IsTracked-self w seen t = record { covered = t.covered; grows = λ id h. h }

  -- After a page that named its successor.
  goes_on :
      (pages : ℕ) (cursor : Option Cursor) (seen : List Text) (w : Walk a) (payload : Payload)
      (rows : List Row) (next : Cursor)
      → a.fetch pages cursor ≡ ok payload
      → a.extract payload ≡ ok rows
      → a.next_cursor payload ≡ some next
      → IsTracked seen w
      → All (λ row. is_among a w.seen_ids row ≡ true) rows
      → (r : Walk a × Option Failure) → IsWhole pages (some next) w.seen_ids r
      → IsWhole (suc pages) cursor seen r
  unfolding IsWhole
  goes_on pages cursor seen w payload rows next fetched read on t among (w', raised) whole quiet
        end =
      let (t', (rest, is_read, among')) = whole quiet end in
      (
        record { covered = t'.covered; grows = λ id h. t'.grows id (t.grows id h) },
        (
          rows ++ rest,
          and_on fetched read on is_read,
          All-append (λ row. is_among a w'.seen_ids row ≡ true) rows rest
              (All-map (λ row. is_among a w.seen_ids row ≡ true)
                (λ row. among-grows a w.seen_ids w'.seen_ids row t'.grows) rows among)
              among',
        ),
      )

  abbrev proceed : ℕ → Walk a × Option Cursor → Walk a × Option Failure
  proceed pages (w, none) = (w, none)
  proceed pages (w, some next) = walk a none pages (some next) w

  page-IsWhole :
      (pages : ℕ) (cursor : Option Cursor) (seen : List Text) (w : Walk a) (payload : Payload)
      (rows : List Row)
      → a.fetch pages cursor ≡ ok payload
      → a.extract payload ≡ ok rows
      → IsTracked seen w
      → w.reached_end ≡ false
      → ((next : Cursor) (w' : Walk a) (seen' : List Text)
          → IsTracked seen' w'
          → w'.reached_end ≡ false
          → IsWhole pages (some next) seen' (walk a none pages (some next) w'))
      → IsWhole (suc pages) cursor seen (proceed pages (take_page a none payload rows w))
  unfolding IsWhole ended take_page
  page-IsWhole pages cursor seen w payload [] fetched read t open_ later =
      λ quiet end. (ended-IsTracked seen w t, ([], at_empty fetched read, tt))
  page-IsWhole pages cursor seen w payload (row ∷ rows) fetched read t open_ later =
      let (t', among, same) = after_page-IsTracked seen (row ∷ rows) w t in
      elim (take_page-cases payload row rows w) [
        | inl (e, last) ↦
            subst (λ r. IsWhole (suc pages) cursor seen (proceed pages r)) (sym e)
              (λ quiet end.
                (ended-IsTracked seen _ t', (row ∷ rows, at_last fetched read last, among)))
        | inr (inl e) ↦
            subst (λ r. IsWhole (suc pages) cursor seen (proceed pages r)) (sym e)
              (λ quiet end. absurd (ground (arith, end, same, open_)))
        | inr (inr (next, e, on)) ↦
            subst (λ r. IsWhole (suc pages) cursor seen (proceed pages r)) (sym e)
              (goes_on pages cursor seen (after_page (row ∷ rows) w) payload (row ∷ rows) next
                fetched read on t' among _
                (later next _ _ (IsTracked-self _ seen t') (same ∙ open_)))
      ]

  walk-IsWhole :
      (pages : ℕ) (cursor : Option Cursor) (seen : List Text) (w : Walk a)
      → IsTracked seen w
      → w.reached_end ≡ false
      → IsWhole pages cursor seen (walk a none pages cursor w)
  unfolding walk IsWhole
  walk-IsWhole zero cursor seen w t open_ = λ quiet end. absurd (ground (arith, end, open_))
  walk-IsWhole (suc pages) cursor seen w t open_ = elim (Result-cases (a.fetch pages cursor)) [
    | inr (failure, e) ↦ rw (e, walk) (λ quiet end. absurd (ground (arith, quiet)))
    | inl (payload, e) ↦
        rw (e, walk)
          (elim (Result-cases (a.extract payload)) [
            | inr (failure, e') ↦ rw e' (λ quiet end. absurd (ground (arith, quiet)))
            | inl (rows, e') ↦
                let (t', same) = promised-IsTracked seen payload w t in
                rw e' (
                  page-IsWhole pages cursor seen (promised a payload w) payload rows e e' t'
                    (same ∙ open_)
                    (λ next w' seen' t' open'. walk-IsWhole pages (some next) seen' w' t' open'))
          ])
  ]

  sink_rest-ids : (w : Walk a) → ids_of (concat (sink_rest a w).sunk) ≡ kept_ids w
  unfolding sink_rest kept_ids
  sink_rest-ids w = elim (List-cases w.pending) [
    | inl e ↦ rw (e, sink_rest) (ap ids_of (sym (append-nil (concat w.sunk))))
    | inr (d, ds, e) ↦ rw (e, sink_rest) (ap ids_of (concat-sink w.sunk (d ∷ ds)))
  ]

  sink_rest-reached_end : (w : Walk a) → (sink_rest a w).reached_end ≡ w.reached_end
  unfolding sink_rest
  sink_rest-reached_end w = elim (List-cases w.pending) [
    | inl e ↦ rw (e, sink_rest) refl
    | inr (d, ds, e) ↦ rw (e, sink_rest) refl
  ]

  complete_only_if :
      (o : Options) (w : Walk a)
      → is_complete (outcome_of a o w) ≡ true
      → (o.backfill ≡ true) × (w.reached_end ≡ true)
  unfolding outcome_of
  complete_only_if o w h =
      elim (Bool-cases (o.backfill && w.reached_end && o.complete_on_backfill)) [
        | inl whole ↦ (ground (arith, whole), ground (arith, whole))
        | inr part ↦ absurd (ground (arith, h, part))
      ]

  -- A feed read to its end, whose rows are all among the ids.
  abbrev pub IsFeedIn : ℕ → List Text → Type ℓ
  IsFeedIn pages ids =
      (rows : List Row) × IsRead a pages none rows × All (λ row. is_among a ids row ≡ true) rows

  IsAll : Options → ℕ → Batches Row × Result SweepOutcome → Type ℓ
  IsAll o pages (sunk, ok outcome) =
      is_complete outcome ≡ true → (o.backfill ≡ true) × IsFeedIn pages (ids_of (concat sunk))
  IsAll o pages (sunk, err failure) = Unit

  no_cutoff : (o : Options) → o.backfill ≡ true → cutoff o ≡ none
  unfolding cutoff
  no_cutoff o h = rw h refl

  first-IsTracked : IsTracked [] (first_walk a)
  unfolding kept_ids IsCovered elem
  first-IsTracked = record { covered = tt; grows = λ id h. h }

  returned-IsAll :
      (o : Options) (pages : ℕ)
      → (walk a (cutoff o) pages none (first_walk a)).1 ≡ none
      → is_complete (outcome_of a o (sink_rest a (walk a (cutoff o) pages none (first_walk a)).0))
        ≡ true
      → (o.backfill ≡ true)
        × IsFeedIn pages
            (ids_of (concat (sink_rest a (walk a (cutoff o) pages none (first_walk a)).0).sunk))
  unfolding IsWhole IsCovered
  returned-IsAll o pages quiet complete =
      let w = (walk a (cutoff o) pages none (first_walk a)).0 in
      let (backfill, end) = complete_only_if o (sink_rest a w) complete in
      let whole =
        subst (λ c. IsWhole pages none [] (walk a c pages none (first_walk a)))
          (sym (no_cutoff o backfill))
          (walk-IsWhole pages none [] (first_walk a) first-IsTracked refl) in
      let (t, (rows, is_read, among)) = whole quiet (sym (sink_rest-reached_end w) ∙ end) in
      (
        backfill,
        (
          rows,
          is_read,
          rw (sink_rest-ids w) (
              All-map (λ row. is_among a w.seen_ids row ≡ true)
                (λ row.
                  among-grows a w.seen_ids (kept_ids w) row
                    (λ id. All-elem_at (λ i. elem i (kept_ids w) ≡ true) id w.seen_ids t.covered))
                rows among),
        ),
      )

  answer-IsAll : (o : Options) (pages : ℕ) → IsAll o pages (sweep_feed a o pages)
  unfolding sweep_feed IsAll
  answer-IsAll o pages = elim (Option-cases (walk a (cutoff o) pages none (first_walk a)).1) [
    | inl e ↦ rw (e, sweep_feed) (returned-IsAll o pages e)
    | inr (failure, e) ↦ rw (e, sweep_feed) tt
  ]

  -- Where a feed's sweep returns and calls itself complete, it was a backfill, the pages were read
  -- to the feed's end, and every row that names an id has a document among those handed to the
  -- sink.
  pub sweep_feed_complete :
      (o : Options) (pages : ℕ) (sunk : Batches Row) (outcome : SweepOutcome)
      → sweep_feed a o pages ≡ (sunk, ok outcome)
      → is_complete outcome ≡ true
      → (o.backfill ≡ true) × IsFeedIn pages (ids_of (concat sunk))
  unfolding IsAll
  sweep_feed_complete o pages sunk outcome h = subst (IsAll o pages) h (answer-IsAll o pages)
