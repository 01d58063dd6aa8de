-- ===== src/Ingest/Persist/Tests.antt =====
-- Documents stored, persisted and persisted again, on small tables.
use trouveur.Prelude.{
  ℕ, zero, suc, ◌≡◌, any, filter, first, count, refl, true, List, [], ◌∷◌, Option, some, none, All,
  elem, nat_eq,
}
use trouveur.Db.{Text, derive, dedup, named, numbered, Db, Tx}
use trouveur.Ingest.Archive.{RawDocument, DocumentKind, Archive, archive_documents, archive_each}
use trouveur.Ingest.Persist.{Canonical, Setting, PersistResult, persist}
use trouveur.Ingest.Persist.Live.{is_stored, stored_live}
use trouveur.Ingest.Persist.Work.{IsWanted, persist_queued}
use trouveur.Ingest.Persist.Again.{persist-persist}

abbrev at : ℕ → Tx
at now = record { now = now; locked_items = []; locked_jobs = [] }

-- A payload is a number, 0 what the normalizer cannot read.
abbrev read : ℕ → Option ℕ → Text → Option Canonical
read zero detail external_id = none
read (suc n) detail external_id = some (record { posted_at = none; content_hash = n })

abbrev lever : Setting ℕ
lever = record {
  source = "lever";
  normalize = read;
  normalize_version = 1;
  derive_version = 3;
  dedup_version = 2;
  embedding_version = named "p:m:8";
  fresh_since = 0;
  requires_detail = true;
}

abbrev listed : Text → ℕ → RawDocument ℕ
listed external_id payload = record {
  source = "lever";
  external_id = external_id;
  kind = DocumentKind.listing;
  scope = none;
  payload = payload;
  payload_sha256 = payload;
  fetched_at = 10;
}

abbrev batch_of_two : List (RawDocument ℕ)
batch_of_two = listed (1 ∷ []) 5 ∷ listed (2 ∷ []) 0 ∷ []

abbrev no_documents : Archive ℕ
no_documents = record { rows = []; next_document = 1 }

abbrev empty : Db
empty = record { items = []; jobs = []; facets = []; embeddings = []; next_item = 1; next_job = 1 }

abbrev archived : Archive ℕ
unfolding archive_each
archived = archive_each batch_of_two no_documents

abbrev persisted : Option (Db × PersistResult)
unfolding persist
persisted = persist lever (at 20) archived ((1 ∷ []) ∷ (2 ∷ []) ∷ []) empty

abbrev no_result : Db × PersistResult
no_result =
    (empty, record { upserted = 0; changed = []; unchanged = 0; skipped = 0; needs_detail = [] })

abbrev result_of : Option (Db × PersistResult) → Db × PersistResult
result_of none = no_result
result_of (some r) = r

reported : (result_of persisted).1 ≡ record {
  upserted = 1;
  changed = 1 ∷ [];
  unchanged = 0;
  skipped = 1;
  needs_detail = (1 ∷ []) ∷ [];
}
unfolding persist persisted archived filter any first count elem
reported = refl

two_archived : archive_documents batch_of_two no_documents ≡ some archived
unfolding archive_documents archived any
two_archived = refl

one_persisted :
    persist lever (at 20) archived ((1 ∷ []) ∷ (2 ∷ []) ∷ []) empty ≡ some (result_of persisted)
unfolding persist persisted archived filter any
one_persisted = refl

stored_live_example :
    All (λ d. is_stored lever 20 archived (result_of persisted).0 d ≡ true) batch_of_two
stored_live_example =
    stored_live lever (at 20) batch_of_two no_documents archived empty (result_of persisted).0
      (result_of persisted).1 ((refl, refl), ((refl, refl), tt)) two_archived one_persisted

persist_queued_example :
    IsWanted derive (numbered 3) 1 (result_of persisted).0
    × IsWanted dedup (numbered 2) 1 (result_of persisted).0
unfolding persist persisted archived filter any elem first
persist_queued_example =
    persist_queued lever (at 20) archived ((1 ∷ []) ∷ (2 ∷ []) ∷ []) empty (result_of persisted).0
      (result_of persisted).1 1 one_persisted refl

persist-persist_example :
    (again : Db × PersistResult) × (persist lever
        (at 30)
        archived
        ((1 ∷ []) ∷ (2 ∷ []) ∷ [])
        (result_of persisted).0
      ≡ some again)
    × ((again.1).changed ≡ [])
    × ((again.1).unchanged ≡ 1)
    × ((again.1).upserted ≡ 1)
unfolding persist persisted archived filter any first count elem
persist-persist_example =
    persist-persist lever (at 20) (at 30) archived ((1 ∷ []) ∷ (2 ∷ []) ∷ []) empty
      (result_of persisted).0 (result_of persisted).1 one_persisted
