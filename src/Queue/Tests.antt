-- ===== src/Queue/Tests.antt =====
-- The queue on small tables: tests of its functions, and the theorems at concrete inputs.
use trouveur.Prelude.{
  zero, suc, ◌≤◌, ◌⊎◌, All, ℕ, ◌≡◌, refl, false, [], ◌∷◌, some, none, arith, elem, nat_eq, subst,
  take, filter, any, count, update_where, first, find, sort_by, insert_by,
}
use trouveur.Db.{detail, derive, numbered, Item, Job, Db, Tx, item_ids}
use trouveur.Queue.{enqueue_one, enqueue, claim, claim_across_boards, complete, fail}
use trouveur.Queue.Upkeep.{pause_source, requeue_parked, stale_rows, refill_all, refilled}
use trouveur.Queue.Valid.{IsValid, enqueue-IsValid}
use trouveur.Queue.Claims.{claim-claim}
use trouveur.Queue.Enqueue.{item_for}
use trouveur.Queue.Ready.{Spares, job_at, complete_ready}
use trouveur.Queue.Retries.{claim-fail, claim-pause_source}
use trouveur.Queue.Refill.{refill_all_reaches}

abbrev posting : ℕ → Job
posting id = record {
  id = id;
  source = "lever";
  external_id = b'a' ∷ b':' ∷ b'1' ∷ [];
  scope = some (b'a' ∷ []);
  posted_at = none;
  content_hash = 7;
  normalize_version = 1;
  first_seen_at = 5;
  last_seen_at = 5;
  ready_at = none;
  closed_at = none;
  dedup_version = 0;
}

abbrev empty : Db
empty = record {
  items = [];
  jobs = posting 1 ∷ posting 2 ∷ [];
  facets =
      record { job_id = 1; derive_version = 3 } ∷ record { job_id = 2; derive_version = 2 } ∷ [];
  embeddings = [];
  next_item = 1;
  next_job = 3;
}

abbrev at : ℕ → Tx
at now = record { now = now; locked_items = []; locked_jobs = [] }

-- one derive item for each posting, due at 100
abbrev item : ℕ → Item
item id = record {
  id = id;
  kind = derive;
  job_id = id;
  target_version = numbered 3;
  not_before = 100;
  attempts = 0;
  last_error = none;
  claimed_at = none;
  claimed_by = none;
}

abbrev two : Db
two = record empty { items = item 1 ∷ item 2 ∷ []; next_item = 3 }

program : Unit {0}
unfolding enqueue claim claim_across_boards complete fail pause_source requeue_parked stale_rows
    refill_all filter any count update_where first find sort_by insert_by elem take
program = tt

both_queued : enqueue (at 100) derive (1 ∷ 2 ∷ []) (numbered 3) empty ≡ (two, 2)
unfolding program enqueue_one
both_queued = refl

claim_one : item_ids (claim (at 100) derive 1 "runner" two).1 ≡ 1 ∷ []
unfolding program
claim_one = refl

claim_one_board : item_ids (claim_across_boards (at 100) derive 5 1 "runner" two).1 ≡ 1 ∷ []
unfolding program
claim_one_board = refl

claim_early : item_ids (claim (at 99) derive 5 "runner" two).1 ≡ []
unfolding program
claim_early = refl

stale_facets : stale_rows derive (numbered 3) 0 empty ≡ some (2 ∷ [])
unfolding program
stale_facets = refl

stale_details : stale_rows detail (numbered 1) 0 empty ≡ none
unfolding program
stale_details = refl

empty-IsValid : IsValid empty
unfolding count
empty-IsValid = record {
  distinct = tt;
  below = tt;
  unique = λ kind job_id. omega arith;
  paired = tt;
}

two-IsValid : IsValid two
two-IsValid =
    subst (λ (p : Db × ℕ). IsValid p.0) both_queued
      (enqueue-IsValid (at 100) derive (1 ∷ 2 ∷ []) (numbered 3) empty empty-IsValid)

claim-claim_example :
    elem 1 (item_ids (claim (at 900) derive 5 "other" (claim (at 100) derive 1 "runner" two).0).1)
    ≡ false
unfolding program
claim-claim_example =
    claim-claim (at 100) (at 900) derive derive 1 5 "runner" "other" two 1 two-IsValid refl

claim-fail_example :
    elem 1 (item_ids (claim (at 60000000) derive 5 "runner" (fail (at 100) (1 ∷ []) [] two)).1)
    ≡ false
unfolding program
claim-fail_example =
    claim-fail (at 100) (at 60000000) derive 5 "runner" (1 ∷ []) [] two 1 (item 1) two-IsValid refl
      refl (omega arith)

complete_ready_example :
    (All (Spares (1 ∷ []) 1) two.items
      × (job_at 1 (complete (at 200) (1 ∷ []) two)
          ≡ some (record (posting 1) { ready_at = some 200 })))
    ⊎ ((¬ All (Spares (1 ∷ []) 1) two.items)
        × (job_at 1 (complete (at 200) (1 ∷ []) two) ≡ some (posting 1)))
unfolding program
complete_ready_example = complete_ready (at 200) 1 [] two 1 (posting 1) refl refl refl

claim-pause_source_example :
    elem 1 (
      item_ids
        (claim
          (at 3000)
          derive
          5
          "runner"
          (pause_source (at 100) derive "lever" 3600 [] [] two).0).1)
    ≡ false
unfolding program
claim-pause_source_example =
    claim-pause_source (at 100) derive "lever" 3600 [] [] two 1 (item 1) refl (at 3000) 5 "runner"
      (posting 1) two-IsValid refl refl refl (omega arith) refl (omega arith)

-- The clock passes midnight between the rounds.
abbrev midnight : ℕ → ℕ
midnight zero = 11
midnight (suc n) = 10

midnight_between : (n : ℕ) → (10 ≤ midnight n) × (midnight n ≤ 11)
midnight_between zero = (omega arith, omega arith)
midnight_between (suc n) = (omega arith, omega arith)

refill_all_reaches_example :
    (final : Db) × (total : ℕ) × (r : Item) × (refill_all at derive
        (numbered 3)
        5000
        midnight
        2
        empty
      ≡ refilled final total)
    × (item_for derive 2 final ≡ some r)
    × (r.target_version ≡ numbered 3)
unfolding program
refill_all_reaches_example =
    refill_all_reaches at derive (numbered 3) 5000 midnight 10 11 2 empty (2 ∷ []) (2 ∷ []) 2
      (omega arith) midnight_between refl refl (omega arith) refl (omega arith)
