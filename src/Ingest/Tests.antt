-- ===== src/Ingest/Tests.antt =====
-- The ingest statements on small tables.
use trouveur.Prelude.{
  filter, ◌⊎◌, ℕ, ◌+◌, ◌≡◌, refl, leb, Bool, true, false, List, [], ◌∷◌, Option, some, none, arith,
  elem, any, update_where, find, count, All,
}
use trouveur.Db.{Text, embed, named, Item, Job, Db, Tx}
use trouveur.Ingest.{Incoming, upsert_jobs, upsert_each, has_repeat, close_where, close_unseen}
use trouveur.Ingest.Closing.{job_at, by_sweep, IsDropped, IsClosedBetween, closing-IsDropped}
use trouveur.Ingest.Left.{IsLeft, close_unseen_exact}
use trouveur.Ingest.Seen.{has_seen, close_unseen-upsert_jobs}
use trouveur.Ingest.Blocks.{Sweep, History, block_history}
use trouveur.Ingest.Blocks.Streak.{
  AreApart, is_unanswered, finished_of, streak_in, block_history_streak,
}
use trouveur.Ingest.Pipeline.{Counts, returned, nothing_swept, sweep_source, sweep_sources}
use trouveur.Ingest.Lifecycle.{sweep_source_spares}

abbrev at : ℕ → Tx
at now = record { now = now; locked_items = []; locked_jobs = [] }

abbrev board : Text
board = 7 ∷ []

abbrev row : Incoming
row = record {
  source = "lever";
  external_id = 8 ∷ [];
  scope = some board;
  posted_at = none;
  content_hash = 1;
  normalize_version = 1;
}

-- A posting last seen at 5, with a vector and an embed item.
abbrev posting : Job
posting = record {
  id = 1;
  source = "lever";
  external_id = 9 ∷ [];
  scope = some board;
  posted_at = none;
  content_hash = 1;
  normalize_version = 1;
  first_seen_at = 5;
  last_seen_at = 5;
  ready_at = none;
  closed_at = none;
  dedup_version = 0;
}

abbrev work : Item
work = record {
  id = 1;
  kind = embed;
  job_id = 1;
  target_version = named "m";
  not_before = 5;
  attempts = 0;
  last_error = none;
  claimed_at = none;
  claimed_by = none;
}

abbrev tables : Db
tables = record {
  items = work ∷ [];
  jobs = posting ∷ [];
  facets = [];
  embeddings = record { job_id = 1; embedding_version = named "m" } ∷ [];
  next_item = 2;
  next_job = 2;
}

abbrev swept : Db
swept = upsert_each (at 20) (row ∷ []) tables

upserted : upsert_jobs (at 20) (row ∷ []) tables ≡ some swept
unfolding upsert_jobs has_repeat any
upserted = refl

close_unseen-upsert_jobs_example :
    All
      (λ r. has_seen 20 r (close_unseen (at 30) "lever" (board ∷ []) 10 swept).0 ≡ true)
      (row ∷ [])
close_unseen-upsert_jobs_example =
    close_unseen-upsert_jobs (at 20) (at 30) "lever" (board ∷ []) 10 (row ∷ []) tables swept
      (omega arith) upserted

close_unseen_exact_example :
    (IsLeft "lever" (board ∷ []) 10 posting
      × (job_at 1 (close_unseen (at 30) "lever" (board ∷ []) 10 tables).0
          ≡ some (record posting { closed_at = some 30 })))
    ⊎ ((¬ IsLeft "lever" (board ∷ []) 10 posting)
        × (job_at 1 (close_unseen (at 30) "lever" (board ∷ []) 10 tables).0 ≡ some posting))
unfolding find
close_unseen_exact_example =
    close_unseen_exact (at 30) "lever" (board ∷ []) 10 1 tables posting refl

abbrev closed : Db
closed = (close_unseen (at 30) "lever" (board ∷ []) 10 tables).0

closed_between : IsClosedBetween 1 tables closed
unfolding close_unseen close_where find update_where elem
closed_between = record {
  before = posting;
  after = record posting { closed_at = some 30 };
  found_before = refl;
  found_after = refl;
  was_open = refl;
  is_shut = refl;
}

closing-IsDropped_example : IsDropped 1 closed
closing-IsDropped_example =
    closing-IsDropped (at 30) tables closed 1 (by_sweep "lever" (board ∷ []) 10) closed_between

-- Two blocked sweeps after one that was not.
abbrev sweeps : List Sweep
sweeps =
    record { source = "lever"; started_at = 3; finished_at = some 4; blocked = true }
    ∷ record { source = "lever"; started_at = 2; finished_at = some 3; blocked = true }
    ∷ record { source = "lever"; started_at = 1; finished_at = some 2; blocked = false }
    ∷ []

two_blocked : count (is_unanswered (finished_of "lever" sweeps)) (finished_of "lever" sweeps) ≡ 2
unfolding count filter any
two_blocked = refl

apart : AreApart (finished_of "lever" sweeps)
unfolding filter AreApart
apart = (
  ((λ h. absurd (omega (arith, h))), ((λ h. absurd (omega (arith, h))), tt)),
  (((λ h. absurd (omega (arith, h))), tt), (tt, tt)),
)

block_history_streak_example :
    streak_in (block_history 9 14 sweeps "lever")
    ≡ count (is_unanswered (finished_of "lever" sweeps)) (finished_of "lever" sweeps)
block_history_streak_example = block_history_streak 9 14 sweeps "lever" apart

abbrev history : History
history = record { streak = 2; recent = 2; last_blocked_at = some 4 }

abbrev counts : Counts
counts = record { documents = 1; upserted = 1; changed = 1 }

sweep_source_spares_example :
    has_seen 20 row (sweep_source (at 30) "lever" 10 15 counts (returned nothing_swept) swept).0
    ≡ true
unfolding upsert_each any
sweep_source_spares_example =
    sweep_source_spares (at 30) "lever" 10 15 counts (returned nothing_swept) 20 row swept
      (omega arith) (omega arith) refl

-- Three sources, and a run that is cancelled before the third.
abbrev stop_at : ℕ → ℕ × Bool
stop_at done = (done, leb 2 done)

abbrev sweep_it : ℕ → ℕ → ℕ × ℕ
sweep_it source done = (done + 1, source)

abbrev is_done : ℕ → Option ℕ → ℕ → ℕ
is_done index next done = done

two_swept : (sweep_sources stop_at sweep_it is_done (5 ∷ 6 ∷ 7 ∷ []) 0).1.skipped ≡ 7 ∷ []
unfolding sweep_sources
two_swept = refl
