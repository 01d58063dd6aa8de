-- ===== src/Db.antt =====
-- trouveur/db/schema.py: the tables that the queue and the ingest statements read and write, with
-- the columns that they use. A time is a number of microseconds, a text that is cut or measured is
-- a list of code points, and a digest is read as a number.
use trouveur.Prelude.{
  ℕ, ◌≡◌, ◌↔◌, Bool, true, false, Option, List, String, arith, Eq, nat_eq, string_eq, ◌==◌, map,
}

abbrev pub Text : Type 0
Text = List ℕ

-- one second, as a length of time
abbrev pub second : ℕ
second = 1000000

pub data WorkKind : Type 0 where
  detail derive embed dedup : WorkKind

abbrev kind_code : WorkKind → ℕ
kind_code detail = 0
kind_code derive = 1
kind_code embed = 2
kind_code dedup = 3

abbrev pub kind_beq : WorkKind → WorkKind → Bool
kind_beq a b = kind_code a == kind_code b

pub kind_beq_iff : (a b : WorkKind) → (kind_beq a b ≡ true) ↔ (a ≡ b)
kind_beq_iff a b = ground arith

instance abbrev pub kind_eq : Eq WorkKind
kind_eq = record { beq = kind_beq; beq_iff = kind_beq_iff }

-- A target version is text: `numbered n` is the numeral of `n`, as `str` writes it, and `named s`
-- any other text, such as provider:model:dim.
pub data Version : Type 0 where
  numbered : ℕ → Version
  named : String → Version

abbrev pub version_beq : Version → Version → Bool
version_beq (numbered n) (numbered m) = n == m
version_beq (numbered n) (named s) = false
version_beq (named s) (numbered n) = false
version_beq (named s) (named r) = s == r

-- a row of work_item
pub record Item : Type 0 where
  pub id : ℕ
  pub kind : WorkKind
  pub job_id : ℕ
  pub target_version : Version
  pub not_before : ℕ
  pub attempts : ℕ
  pub last_error : Option Text
  pub claimed_at : Option ℕ
  pub claimed_by : Option String

-- a row of job
pub record Job : Type 0 where
  pub id : ℕ
  pub source : String
  pub external_id : Text
  pub scope : Option Text
  pub posted_at : Option ℕ
  pub content_hash : ℕ
  pub normalize_version : ℕ
  pub first_seen_at : ℕ
  pub last_seen_at : ℕ
  pub ready_at : Option ℕ
  pub closed_at : Option ℕ
  pub dedup_version : ℕ

-- a row of job_facet
pub record Facet : Type 0 where
  pub job_id : ℕ
  pub derive_version : ℕ

-- a row of job_embedding
pub record Embedding : Type 0 where
  pub job_id : ℕ
  pub embedding_version : Version

pub record Db : Type 0 where
  pub items : List Item
  pub jobs : List Job
  pub facets : List Facet
  pub embeddings : List Embedding
  -- the next id that work_item hands out
  pub next_item : ℕ
  -- and the one that job does
  pub next_job : ℕ

-- What a statement sees of its surroundings: the transaction's now(), and the rows that other
-- transactions hold locked, which SKIP LOCKED passes over.
pub record Tx : Type 0 where
  pub now : ℕ
  pub locked_items : List ℕ
  pub locked_jobs : List ℕ

abbrev pub item_ids : List Item → List ℕ
item_ids = map (λ r. r.id)

abbrev pub job_ids : List Job → List ℕ
job_ids = map (λ r. r.id)
