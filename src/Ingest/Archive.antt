-- ===== src/Ingest/Archive.antt =====
-- The archive of documents in trouveur/db/queries/ingest.py: archive_documents and
-- latest_documents over the rows of source_document. `Payload` is what a source sends.
pub mod Latest
use trouveur.Prelude.{
  ℕ, ◌+◌, Bool, true, false, ◌&&◌, ◌||◌, Option, some, none, List, [], ◌∷◌, ◌++◌, String, ltb, ◌==◌,
  nat_eq, string_eq, list_eq, filter, any, update_where, if◌then◌else◌,
}
use trouveur.Db.{Text}

pub data DocumentKind : Type 0 where
  listing detail : DocumentKind

abbrev pub same_kind : DocumentKind → DocumentKind → Bool
same_kind listing listing = true
same_kind detail detail = true
same_kind a b = false

-- RawDocument
pub record RawDocument {ℓ} (Payload : Type ℓ) : Type ℓ where
  pub source : String
  pub external_id : Text
  pub kind : DocumentKind
  pub scope : Option Text
  pub payload : Payload
  pub payload_sha256 : ℕ
  pub fetched_at : ℕ

-- a row of source_document
pub record Archived {ℓ} (Payload : Type ℓ) : Type ℓ where
  pub id : ℕ
  pub document : RawDocument Payload

pub record Archive {ℓ} (Payload : Type ℓ) : Type ℓ where
  pub rows : List (Archived Payload)
  pub next_document : ℕ

module _ {ℓ} {Payload : Type ℓ} where
  -- the unique constraint source_document_identity_uniq
  abbrev pub same_document : RawDocument Payload → RawDocument Payload → Bool
  same_document d e =
      d.source == e.source
      && d.external_id == e.external_id
      && same_kind d.kind e.kind
      && d.payload_sha256 == e.payload_sha256

  -- the SET of the conflict clause
  abbrev pub refetched : RawDocument Payload → Archived Payload → Archived Payload
  refetched d a = record a { document = record a.document { fetched_at = d.fetched_at } }

  unfoldable pub archive_one : RawDocument Payload → Archive Payload → Archive Payload
  archive_one d ar =
      if any (λ a. same_document d a.document) ar.rows
      then record ar { rows = update_where (λ a. same_document d a.document) (refetched d) ar.rows }
      else record {
        rows = ar.rows ++ record { id = ar.next_document; document = d } ∷ [];
        next_document = ar.next_document + 1;
      }

  unfoldable pub archive_each : List (RawDocument Payload) → Archive Payload → Archive Payload
  unfolding archive_one
  archive_each [] ar = ar
  archive_each (d ∷ documents) ar = archive_each documents (archive_one d ar)

  unfoldable pub repeats_document : List (RawDocument Payload) → Bool
  repeats_document [] = false
  repeats_document (d ∷ documents) = any (same_document d) documents || repeats_document documents

  -- One statement; PostgreSQL refuses to write one row twice in it, which raises: nothing here.
  unfoldable pub archive_documents :
      List (RawDocument Payload) → Archive Payload → Option (Archive Payload)
  unfolding archive_each repeats_document
  archive_documents documents ar =
      if repeats_document documents then none else some (archive_each documents ar)

  -- DISTINCT ON with the newest first: of several the first that none is newer than, where
  -- PostgreSQL may take any
  unfoldable pub newest : List (Archived Payload) → Option (Archived Payload)
  newest [] = none
  newest (a ∷ rows) = elim (newest rows) [
    | none ↦ some a
    | some b ↦ if ltb (a.document).fetched_at (b.document).fetched_at then some b else some a
  ]

  abbrev pub is_of : String → DocumentKind → Text → Archived Payload → Bool
  is_of source kind external_id a =
      (a.document).source == source
      && same_kind (a.document).kind kind
      && (a.document).external_id == external_id

  -- The entry of `latest_documents` under one of the ids that it was asked for.
  unfoldable pub latest_document :
      String → DocumentKind → Text → Archive Payload → Option (Archived Payload)
  unfolding newest
  latest_document source kind external_id ar =
      newest (filter (is_of source kind external_id) ar.rows)
