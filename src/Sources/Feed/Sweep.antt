-- ===== src/Sources/Feed/Sweep.antt =====
-- What a sweep of a feed sinks: each document once, in the window, in short batches, and counted.
use trouveur.Prelude.{
  ℕ, zero, suc, ◌≤◌, ◌<◌, ◌≡◌, refl, sym, subst, true, not, ◌&&◌, Option, some, none, List, [], ◌∷◌,
  ◌++◌, append-nil, arith, ◌==◌, nat_eq, is_none, is_some, length, concat, IsDistinct, All,
  All-append, list_eq, Bool-cases, List-cases, All-prefix, IsDistinct-prefix, map-append,
  Option-cases, inl, inr,
}
use trouveur.Db.{Text}
use trouveur.Sources.{Result, ok, err, Result-cases, SweepOutcome}
use trouveur.Sources.Board.{batch, Document, Batches}
use trouveur.Sources.Feed.{
  Adapter, Options, cutoff, take_rows, Walk, flush, take_page, promised, walk, sink_rest,
  outcome_of, first_walk, sweep_feed,
}
use trouveur.Sources.Feed.Batching.{
  ids_of, IsListed, IsKept, IsSound, take_rows-IsKept, flush_from-IsSound, flush_from-short,
  concat-sink, length-concat-sink,
}

module _ {ℓ} {Cursor Payload Row : Type ℓ} (a : Adapter Cursor Payload Row) where
  module _ (cut : Option ℕ) where
    -- Between two pages less than a batch waits.
    record IsSettled (w : Walk a) : Type ℓ where
      sound : IsSound a cut w
      waiting : length w.pending < batch

    end_reached : (w : Walk a) → IsSettled w → IsSettled (record w { reached_end = true })
    end_reached w s = record {
      sound = record {
        all_kept = s.sound.all_kept;
        short = s.sound.short;
        counted = s.sound.counted;
      };
      waiting = s.waiting;
    }

    flush-IsSettled : (w : Walk a) → IsSound a cut w → IsSettled (flush a w)
    unfolding flush
    flush-IsSettled w s = record {
      sound = flush_from-IsSound a cut (length w.pending) w s;
      waiting = flush_from-short a cut (length w.pending) w (omega arith);
    }

    take_page-IsSettled :
        (payload : Payload) (rows : List Row) (w : Walk a)
        → IsSettled w
        → IsSettled (take_page a cut payload rows w).0
    unfolding take_page
    take_page-IsSettled payload [] w s = end_reached w s
    take_page-IsSettled payload (row ∷ rows) w s =
        let p =
          take_rows a cut (row ∷ rows)
            (record { seen_ids = w.seen_ids; pending = w.pending; added = 0; in_window = 0 }) in
        let w' = flush a (record w { seen_ids = p.seen_ids; pending = p.pending }) in
        let s' : IsSettled w' = flush-IsSettled _ (record {
          all_kept = take_rows-IsKept a cut w.sunk (row ∷ rows) _ s.sound.all_kept;
          short = s.sound.short;
          counted = s.sound.counted;
        }) in
        elim (Bool-cases (is_some cut && not (p.added == 0) && p.in_window == 0)) [
          | inl passed ↦ rw passed (end_reached w' s')
          | inr within ↦ rw within (elim (Bool-cases (p.added == 0)) [
            | inl old ↦ rw old s'
            | inr new ↦ rw new (elim (Option-cases (a.next_cursor payload)) [
              | inl e ↦ rw e (end_reached w' s')
              | inr (next, e) ↦ rw e s'
            ])
          ])
        ]

    promised-IsSettled :
        (payload : Payload) (w : Walk a) → IsSettled w → IsSettled (promised a payload w)
    promised-IsSettled payload w s = elim (Bool-cases (is_none w.expected)) [
      | inl e ↦ rw e (record {
        sound = record {
          all_kept = s.sound.all_kept;
          short = s.sound.short;
          counted = s.sound.counted;
        };
        waiting = s.waiting;
      })
      | inr e ↦ rw e s
    ]

    walk-IsSettled :
        (pages : ℕ) (cursor : Option Cursor) (w : Walk a)
        → IsSettled w
        → IsSettled (walk a cut pages cursor w).0
    unfolding walk
    walk-IsSettled zero cursor w s = s
    walk-IsSettled (suc pages) cursor w s = elim (Result-cases (a.fetch pages cursor)) [
      | inr (failure, e) ↦ rw (e, walk) s
      | inl (payload, e) ↦
          rw (e, walk)
            (elim (Result-cases (a.extract payload)) [
              | inr (failure, e') ↦ rw e' (promised-IsSettled payload w s)
              | inl (rows, e') ↦ rw e' (
                  let s' =
                    take_page-IsSettled payload rows (promised a payload w)
                      (promised-IsSettled payload w s) in
                  elim (Option-cases (take_page a cut payload rows (promised a payload w)).1) [
                    | inl last ↦ rw last s'
                    | inr (next, on) ↦ rw on (walk-IsSettled pages (some next) _ s')
                  ])
            ])
    ]

    -- What a finished or a broken sweep has handed to the sink.
    pub record IsSunk (sunk : Batches Row) : Type ℓ where
      pub distinct : IsDistinct (ids_of (concat sunk))
      pub listed : All (IsListed a cut) (concat sunk)
      pub short : All (λ b. length b ≤ batch) sunk

    IsKept-IsSunk :
        (sunk : Batches Row) (docs : List (Document Row)) (seen : List Text)
        → IsKept a cut docs seen
        → concat sunk ≡ docs
        → All (λ b. length b ≤ batch) sunk
        → IsSunk sunk
    IsKept-IsSunk sunk docs seen k same short = record {
      distinct = rw same k.distinct;
      listed = rw same k.listed;
      short = short;
    }

    sink_rest-IsSunk :
        (w : Walk a)
        → IsSettled w
        → IsSunk (sink_rest a w).sunk
          × ((sink_rest a w).documents ≡ length (concat (sink_rest a w).sunk))
    unfolding sink_rest
    sink_rest-IsSunk w s = elim (List-cases w.pending) [
      | inl e ↦
          rw (e, sink_rest)
            (
              IsKept-IsSunk w.sunk _ w.seen_ids s.sound.all_kept
                  (sym (rw e (append-nil (concat w.sunk)))) s.sound.short,
              s.sound.counted,
            )
      | inr (d, ds, e) ↦
          rw (e, sink_rest)
            (
              IsKept-IsSunk (w.sunk ++ (d ∷ ds) ∷ []) _ w.seen_ids s.sound.all_kept
                  (rw e (concat-sink w.sunk (d ∷ ds)))
                  (All-append (λ b. length b ≤ batch) w.sunk ((d ∷ ds) ∷ []) s.sound.short
                    (subst (λ ps. length ps ≤ batch) e (omega (arith, s.waiting)), tt)),
              omega (arith, s.sound.counted, length-concat-sink w.sunk (d ∷ ds)),
            )
    ]

    settled-IsSunk : (w : Walk a) → IsSettled w → IsSunk w.sunk
    settled-IsSunk w s = record {
      distinct =
          IsDistinct-prefix (ids_of (concat w.sunk)) (ids_of w.pending)
            (subst IsDistinct (map-append _ (concat w.sunk) w.pending) s.sound.all_kept.distinct);
      listed = All-prefix (IsListed a cut) (concat w.sunk) w.pending s.sound.all_kept.listed;
      short = s.sound.short;
    }

  first_walk-IsSettled : (cut : Option ℕ) → IsSettled cut (first_walk a)
  unfolding concat
  first_walk-IsSettled cut = record {
    sound = record {
      all_kept = record { distinct = tt; known = tt; listed = tt };
      short = tt;
      counted = refl;
    };
    waiting = omega arith;
  }

  -- However a feed's sweep ends, what it handed to the sink has distinct ids, each the id of its
  -- row with the row in the window, in batches of at most 200.
  pub sweep_feed-IsSunk : (o : Options) (pages : ℕ) → IsSunk (cutoff o) (sweep_feed a o pages).0
  unfolding sweep_feed
  sweep_feed-IsSunk o pages =
      let s =
        walk-IsSettled (cutoff o) pages none (first_walk a) (first_walk-IsSettled (cutoff o)) in
      elim (Option-cases (walk a (cutoff o) pages none (first_walk a)).1) [
        | inl e ↦ rw (e, sweep_feed) (sink_rest-IsSunk (cutoff o) _ s).0
        | inr (failure, e) ↦ rw (e, sweep_feed) (settled-IsSunk (cutoff o) _ s)
      ]

  -- A normal return has counted what it sunk.
  IsCounted : Batches Row × Result SweepOutcome → Type 0
  IsCounted (sunk, ok outcome) = outcome.documents ≡ length (concat sunk)
  IsCounted (sunk, err failure) = Unit

  answer-IsCounted : (o : Options) (pages : ℕ) → IsCounted (sweep_feed a o pages)
  unfolding sweep_feed IsCounted outcome_of
  answer-IsCounted o pages =
      let s =
        walk-IsSettled (cutoff o) pages none (first_walk a) (first_walk-IsSettled (cutoff o)) in
      elim (Option-cases (walk a (cutoff o) pages none (first_walk a)).1) [
        | inl e ↦ rw (e, sweep_feed) (sink_rest-IsSunk (cutoff o) _ s).1
        | inr (failure, e) ↦ rw (e, sweep_feed) tt
      ]

  -- A feed's sweep that returns has counted the documents that it handed to the sink.
  pub sweep_feed-counted :
      (o : Options) (pages : ℕ) (sunk : Batches Row) (outcome : SweepOutcome)
      → sweep_feed a o pages ≡ (sunk, ok outcome)
      → outcome.documents ≡ length (concat sunk)
  unfolding IsCounted
  sweep_feed-counted o pages sunk outcome h = subst IsCounted h (answer-IsCounted o pages)
