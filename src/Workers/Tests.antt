-- ===== src/Workers/Tests.antt =====
-- Drainers on a queue with an item of each kind.
use trouveur.Prelude.{
  ℕ, ◌≡◌, ◌⊎◌, refl, true, List, [], ◌∷◌, Option, some, none, count, arith, elem, filter, any, find,
  take, sort_by, insert_by, subst,
}
use trouveur.Db.{Text, WorkKind, derive, embed, Version, numbered, named, Item, Job, Db, Tx}
use trouveur.Queue.{enqueue, enqueue_one}
use trouveur.Queue.Valid.{IsValid, enqueue-IsValid}
use trouveur.Queue.Claims.{item_at}
use trouveur.Workers.{drain_derive, drain_embed}
use trouveur.Workers.Writes.{is_derived}
use trouveur.Workers.Drains.{drain_derive_settles}
use trouveur.Workers.Embeds.{IsSettled, drain_embed_settles}

abbrev at : ℕ → Tx
at now = record { now = now; locked_items = []; locked_jobs = [] }

abbrev posting : Job
posting = record {
  id = 1;
  source = "lever";
  external_id = 9 ∷ [];
  scope = none;
  posted_at = none;
  content_hash = 1;
  normalize_version = 1;
  first_seen_at = 5;
  last_seen_at = 5;
  ready_at = none;
  closed_at = none;
  dedup_version = 0;
}

abbrev bare : Db
bare = record {
  items = [];
  jobs = posting ∷ [];
  facets = [];
  embeddings = [];
  next_item = 1;
  next_job = 2;
}

bare-IsValid : IsValid bare
unfolding count
bare-IsValid = record {
  distinct = tt;
  below = tt;
  unique = λ kind job_id. omega arith;
  paired = tt;
}

abbrev work : WorkKind → Version → Item
work kind version = record {
  id = 1;
  kind = kind;
  job_id = 1;
  target_version = version;
  not_before = 100;
  attempts = 0;
  last_error = none;
  claimed_at = none;
  claimed_by = none;
}

abbrev queued : WorkKind → Version → Db
queued kind version = record bare { items = work kind version ∷ []; next_item = 2 }

one_queued :
    (kind : WorkKind) (version : Version)
    → enqueue (at 100) kind (1 ∷ []) version bare ≡ (queued kind version, 1)
unfolding enqueue any enqueue_one
one_queued kind version = refl

queued-IsValid : (kind : WorkKind) (version : Version) → IsValid (queued kind version)
queued-IsValid kind version =
    subst (λ (p : Db × ℕ). IsValid p.0) (one_queued kind version)
      (enqueue-IsValid (at 100) kind (1 ∷ []) version bare bare-IsValid)

derived_one : (drain_derive (at 200) 3 10 (queued derive (numbered 3))).1 ≡ 1
unfolding drain_derive filter elem sort_by insert_by take any
derived_one = refl

drain_derive_settles_example :
    (item_at 1 (drain_derive (at 200) 3 10 (queued derive (numbered 3))).0
      ≡ some (work derive (numbered 3)))
    ⊎ ((item_at 1 (drain_derive (at 200) 3 10 (queued derive (numbered 3))).0 ≡ none)
        × (is_derived 3 1 (drain_derive (at 200) 3 10 (queued derive (numbered 3))).0 ≡ true))
unfolding find any
drain_derive_settles_example =
    drain_derive_settles (at 200) 3 10 (queued derive (numbered 3)) (work derive (numbered 3))
      (queued-IsValid derive (numbered 3)) refl refl

abbrev offline : List Job → Option Text
offline rows = some (7 ∷ [])

drain_embed_settles_example :
    IsSettled
      (at 200)
      (named "p:m:8")
      (work embed (named "p:m:8"))
      (queued embed (named "p:m:8"))
      (drain_embed offline (at 200) (named "p:m:8") 10 (queued embed (named "p:m:8"))).0
unfolding find
drain_embed_settles_example =
    drain_embed_settles offline (at 200) (named "p:m:8") 10 (queued embed (named "p:m:8"))
      (work embed (named "p:m:8")) (queued-IsValid embed (named "p:m:8")) refl
