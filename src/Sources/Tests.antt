-- ===== src/Sources/Tests.antt =====
-- Sweeps of two small sources: a few boards, one of them refusing and one blocked, and a feed of
-- two pages.
use trouveur.Prelude.{
  ℕ, ◌≡◌, refl, true, false, List, [], ◌∷◌, some, none, ◌==◌, nat_eq, length, concat, All,
  if◌then◌else◌, elem,
}
use trouveur.Db.{Text}
use trouveur.Sources.{global_scope, source_blocked, ok, err, SweepOutcome}
use trouveur.Sources.Board.{Adapter as BoardAdapter, Batches, sweep_boards}
use trouveur.Sources.Board.Accounts.{IsStored}
use trouveur.Sources.Board.Sweep.{sweep_boards-IsStored}
use trouveur.Sources.Feed.{Adapter, Options, cutoff, sweep_feed}
use trouveur.Sources.Feed.Sweep.{IsSunk, sweep_feed-IsSunk}
use trouveur.Sources.Feed.Complete.{IsFeedIn, sweep_feed_complete}
use trouveur.Sources.Feed.Batching.{ids_of}

-- Board 1 lists two postings, board 2 refuses, and the provider blocks at board 3.
abbrev boards : BoardAdapter (ℕ × List ℕ) (List ℕ) ℕ
boards = record {
  get = λ scope. elim scope [
    | [] ↦ ok (404, [])
    | s ∷ rest ↦
        if s == 1
        then ok (200, 10 ∷ 11 ∷ [])
        else if s == 2
        then ok (403, [])
        else err (source_blocked (7 ∷ []))
  ];
  status_code = λ r. r.0;
  decode = λ r. ok r.1;
  extract = λ rows. ok rows;
  identify = λ row. some (row ∷ []);
  expected_for = λ rows. some (length rows);
  no_such_board = λ scope. scope;
  refused_board = λ scope. scope;
  bad_status = λ scope status. status ∷ scope;
}

abbrev all_boards : List Text
all_boards = (1 ∷ []) ∷ (2 ∷ []) ∷ (3 ∷ []) ∷ (1 ∷ []) ∷ []

boards_swept : length (sweep_boards boards all_boards).0.scope_results ≡ 3
unfolding sweep_boards
boards_swept = refl

sweep_boards-IsStored_example :
    All
      (IsStored boards (sweep_boards boards all_boards).1)
      (sweep_boards boards all_boards).0.closable_scopes
sweep_boards-IsStored_example = sweep_boards-IsStored boards all_boards

-- Two pages, the second one the last, with a posting that both list.
abbrev pages : Adapter ℕ ℕ ℕ
pages = record {
  fetch = λ left cursor. elim cursor [ none ↦ ok 1 | some page ↦ ok page ];
  extract = λ page. if page == 1 then ok (10 ∷ 11 ∷ []) else ok (11 ∷ 12 ∷ []);
  next_cursor = λ page. if page == 1 then some 2 else none;
  identify = λ row. some (row ∷ []);
  published_at = λ row. some row;
  expected_for = λ page. some 3;
}

abbrev whole_feed : Options
whole_feed = record {
  backfill = true;
  delta_window = 5;
  complete_on_backfill = true;
  server_side_window = false;
  now = 20;
}

abbrev fed : Batches ℕ
fed = (sweep_feed pages whole_feed 9).0

abbrev feed_outcome : SweepOutcome
feed_outcome = record {
  closable_scopes = global_scope ∷ [];
  partitions_total = 1;
  partitions_done = 1;
  partitions_overflowed = 0;
  documents = 3;
  scope_results =
      record { scope = global_scope; is_ok = true; documents = 3; error = none; is_blocked = false }
      ∷ [];
  expected = some 3;
  errors = [];
  blocked = none;
}

feed_swept : sweep_feed pages whole_feed 9 ≡ (fed, ok feed_outcome)
unfolding sweep_feed elem
feed_swept = refl

sweep_feed-IsSunk_example : IsSunk pages (cutoff whole_feed) (sweep_feed pages whole_feed 9).0
sweep_feed-IsSunk_example = sweep_feed-IsSunk pages whole_feed 9

sweep_feed_complete_example : (true ≡ true) × IsFeedIn pages 9 (ids_of (concat fed))
sweep_feed_complete_example =
    sweep_feed_complete pages whole_feed 9 fed feed_outcome feed_swept refl
