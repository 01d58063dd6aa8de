-- ===== src/Workers/Details/Tests.antt =====
-- Details fetched for two boards, one of which refuses.
use trouveur.Prelude.{
  ℕ, ◌≡◌, refl, nat_eq, true, false, List, [], ◌∷◌, some, none, String, elem, any, first, filter,
}
use trouveur.Db.{detail, numbered, Item, Job, Db, Tx}
use trouveur.Queue.Claims.{item_at}
use trouveur.Workers.Details.{
  gone, refused, skipped, Step, starts, lands, Fetching, Wording, is_stopped, take_steps,
  not_started, detail_outcome, Settling, settle_rows,
}
use trouveur.Workers.Details.Stops.{stops, fetched-stops}
use trouveur.Workers.Details.Held.{settle_rows_spares}

abbrev wording : Wording
wording = record {
  of_block = λ source error. error;
  of_burst = λ source error. error;
  of_unknown = λ source. [];
}

abbrev posting : ℕ → String → Job
posting id source = record {
  id = id;
  source = source;
  external_id = id ∷ [];
  scope = none;
  posted_at = none;
  content_hash = 1;
  normalize_version = 1;
  first_seen_at = 5;
  last_seen_at = 5;
  ready_at = none;
  closed_at = none;
  dedup_version = 0;
}

abbrev work : ℕ → Item
work id = record {
  id = id;
  kind = detail;
  job_id = id;
  target_version = numbered 1;
  not_before = 100;
  attempts = 0;
  last_error = none;
  claimed_at = some 200;
  claimed_by = some "runner";
}

-- The first source answers that a posting is gone; the second refuses, and its next is not asked.
abbrev steps : List (Step ℕ)
steps =
    starts (posting 1 "lever")
    ∷ starts (posting 2 "workday")
    ∷ lands (posting 2 "workday") (refused [])
    ∷ starts (posting 3 "workday")
    ∷ lands (posting 1 "lever") gone
    ∷ []

abbrev landed : Fetching ℕ
unfolding take_steps
landed = take_steps wording steps not_started

third_skipped : detail_outcome landed 3 ≡ some skipped
unfolding take_steps landed detail_outcome first any
third_skipped = refl

fetched-stops_example : is_stopped "workday" (take_steps wording steps not_started) ≡ true
unfolding stops
fetched-stops_example = fetched-stops wording "workday" steps

abbrev claimed : Db
claimed = record {
  items = work 1 ∷ work 2 ∷ work 3 ∷ [];
  jobs = posting 1 "lever" ∷ posting 2 "workday" ∷ posting 3 "workday" ∷ [];
  facets = [];
  embeddings = [];
  next_item = 4;
  next_job = 4;
}

abbrev at : ℕ → Tx
at now = record { now = now; locked_items = []; locked_jobs = [] }

abbrev begun : Settling ℕ
begun = record { db = claimed; documents = []; ids = []; done = []; retired = [] }

settle_rows_spares_example :
    (item_at 3 (settle_rows wording (at 300) claimed.items landed claimed.jobs begun).db
      ≡ item_at 3 claimed)
    × (elem 3 (settle_rows wording (at 300) claimed.items landed claimed.jobs begun).done ≡ false)
unfolding take_steps landed detail_outcome first any elem filter
settle_rows_spares_example =
    settle_rows_spares wording (at 300) claimed.items landed claimed.jobs 3 begun
      (refl, (refl, (refl, tt))) refl
