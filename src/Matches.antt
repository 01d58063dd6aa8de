-- ===== src/Matches.antt =====
-- The statements on user_job_match in trouveur/db/queries/match.py. `Score` is the float of a
-- retrieval, `Flags` the JSON of a verdict.
pub mod Kept
pub mod Once
mod Tests
use trouveur.Prelude.{
  ℕ, ◌+◌, Bool, true, false, not, ◌&&◌, ◌||◌, Option, some, none, List, [], ◌∷◌, ◌++◌, map, String,
  ltb, ◌==◌, nat_eq, string_eq, is_none, is_some, elem, take, filter, any, update_where, sort_by,
  if◌then◌else◌,
}
use trouveur.Db.{Text, Tx}

-- a row of user_job_match
pub record Match {ℓ} (Score Flags : Type ℓ) : Type ℓ where
  pub user_id : ℕ
  pub job_id : ℕ
  pub profile_version : ℕ
  pub retrieval_score : Option Score
  pub dense_rank : Option ℕ
  pub lexical_rank : Option ℕ
  pub llm_score : Option ℕ
  pub llm_reason : Option Text
  pub llm_red_flags : Option Flags
  pub scored_at : Option ℕ
  pub notified_at : Option ℕ
  pub state : String
  pub state_changed_at : Option ℕ
  pub created_at : ℕ

-- a row of upsert_matches
pub record Found {ℓ} (Score : Type ℓ) : Type ℓ where
  pub user_id : ℕ
  pub job_id : ℕ
  pub profile_version : ℕ
  pub retrieval_score : Option Score
  pub dense_rank : Option ℕ
  pub lexical_rank : Option ℕ

-- a row of apply_scores
pub record Verdict {ℓ} (Flags : Type ℓ) : Type ℓ where
  pub job_id : ℕ
  pub profile_version : ℕ
  pub score : ℕ
  pub reason : Text
  pub red_flags : Flags

module _ {ℓ} {Score Flags : Type ℓ} where
  -- the primary key
  abbrev pub is_match : ℕ → ℕ → Match Score Flags → Bool
  is_match user_id job_id m = m.user_id == user_id && m.job_id == job_id

  abbrev pub blank : Tx → ℕ → ℕ → ℕ → String → Match Score Flags
  blank t user_id job_id profile_version state = record {
    user_id = user_id;
    job_id = job_id;
    profile_version = profile_version;
    retrieval_score = none;
    dense_rank = none;
    lexical_rank = none;
    llm_score = none;
    llm_reason = none;
    llm_red_flags = none;
    scored_at = none;
    notified_at = none;
    state = state;
    state_changed_at = none;
    created_at = t.now;
  }

  -- an upsert on the key: `f` is the SET of its conflict clause
  abbrev pub upsert :
      ℕ
      → ℕ
      → Match Score Flags
      → (Match Score Flags → Match Score Flags)
      → List (Match Score Flags)
      → List (Match Score Flags)
  upsert user_id job_id row f matches =
      if any (is_match user_id job_id) matches
      then update_where (is_match user_id job_id) f matches
      else matches ++ row ∷ []

  abbrev pub refound : Found Score → Match Score Flags → Match Score Flags
  refound r m = record m {
    retrieval_score = r.retrieval_score;
    dense_rank = r.dense_rank;
    lexical_rank = r.lexical_rank;
  }

  unfoldable pub upsert_match :
      Tx → Found Score → List (Match Score Flags) → List (Match Score Flags)
  upsert_match t r matches =
      upsert r.user_id r.job_id (refound r (blank t r.user_id r.job_id r.profile_version "new"))
        (refound r) matches

  unfoldable pub upsert_matches :
      Tx → List (Found Score) → List (Match Score Flags) → List (Match Score Flags)
  unfolding upsert_match
  upsert_matches t [] matches = matches
  upsert_matches t (r ∷ rows) matches = upsert_matches t rows (upsert_match t r matches)

  unfoldable pub set_state :
      Tx → ℕ → ℕ → String → List (Match Score Flags) → List (Match Score Flags)
  set_state t user_id job_id state matches =
      upsert user_id job_id
        (record (blank t user_id job_id 0 state) { state_changed_at = some t.now })
        (λ m. record m { state = state; state_changed_at = some t.now }) matches

  -- One row of apply_scores; the version is that of the first.
  abbrev pub scored_as : Tx → ℕ → Verdict Flags → Match Score Flags → Match Score Flags
  scored_as t version v m = record m {
    llm_score = some v.score;
    llm_reason = some v.reason;
    llm_red_flags = some v.red_flags;
    profile_version = version;
    scored_at = some t.now;
  }

  unfoldable pub apply_each :
      Tx → ℕ → ℕ → List (Verdict Flags) → List (Match Score Flags) → List (Match Score Flags)
  apply_each t user_id version [] matches = matches
  apply_each t user_id version (v ∷ rows) matches =
      apply_each t user_id version rows
        (update_where (is_match user_id v.job_id) (scored_as t version v) matches)

  unfoldable pub apply_scores :
      Tx → ℕ → List (Verdict Flags) → List (Match Score Flags) → List (Match Score Flags)
  unfolding apply_each
  apply_scores t user_id [] matches = matches
  apply_scores t user_id (v ∷ rows) matches =
      apply_each t user_id v.profile_version (v ∷ rows) matches

  unfoldable pub mark_notified :
      Tx → ℕ → List ℕ → List (Match Score Flags) → List (Match Score Flags)
  mark_notified t user_id job_ids matches =
      update_where (λ m. m.user_id == user_id && elem m.job_id job_ids)
        (λ m. record m { notified_at = some t.now }) matches

  -- WHERE of pending_rerank; `is_open` are the postings that are open and have facets
  abbrev pub is_unscored : ℕ → Match Score Flags → Bool
  is_unscored version m = is_none m.llm_score || ltb m.profile_version version

  unfoldable pub pending_rerank :
      (Option Score → Option Score → Bool)
      → (ℕ → Bool)
      → ℕ
      → ℕ
      → List ℕ
      → List (Match Score Flags)
      → List (Match Score Flags)
  pending_rerank is_higher is_open user_id version job_ids matches =
      sort_by (λ m n. is_higher m.retrieval_score n.retrieval_score)
        (filter
          (λ m.
            m.user_id == user_id
            && elem m.job_id job_ids
            && is_open m.job_id
            && is_unscored version m)
          matches)

  abbrev pub higher_score : Match Score Flags → Match Score Flags → Bool
  higher_score m n = elim m.llm_score [
    | none ↦ false
    | some a ↦ elim n.llm_score [ none ↦ true | some b ↦ ltb b a ]
  ]

  abbrev pub is_unsent : ℕ → (ℕ → Bool) → Match Score Flags → Bool
  is_unsent user_id is_open m =
      m.user_id == user_id
      && is_none m.notified_at
      && is_some m.llm_score
      && not (m.state == "dismissed")
      && is_open m.job_id

  unfoldable pub pending_digest :
      (ℕ → Bool) → ℕ → ℕ → List (Match Score Flags) → List (Match Score Flags)
  pending_digest is_open user_id limit matches =
      take limit (sort_by higher_score (filter (is_unsent user_id is_open) matches))
