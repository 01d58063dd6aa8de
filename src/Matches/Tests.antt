-- ===== src/Matches/Tests.antt =====
-- One reader's matches: found, scored, found again, mailed.
use trouveur.Prelude.{
  ℕ, ◌≡◌, refl, nat_eq, ◌==◌, Bool, true, false, Option, some, none, List, [], ◌∷◌, elem, any,
  count, filter, sort_by, ltb,
}
use trouveur.Db.{Tx}
use trouveur.Matches.{
  Match, Found, Verdict, upsert_matches, apply_scores, mark_notified, pending_rerank,
  pending_digest,
}
use trouveur.Matches.Kept.{Statement, finds, sets, scores, notifies, execute_all}
use trouveur.Matches.Once.{scored_once, notified_once}

abbrev at : ℕ → Tx
at now = record { now = now; locked_items = []; locked_jobs = [] }

abbrev found : ℕ → Found ℕ
found version = record {
  user_id = 1;
  job_id = 7;
  profile_version = version;
  retrieval_score = some 50;
  dense_rank = some 1;
  lexical_rank = none;
}

abbrev verdict : Verdict ℕ
verdict = record { job_id = 7; profile_version = 2; score = 80; reason = []; red_flags = 0 }

abbrev matches : List (Match ℕ ℕ)
unfolding upsert_matches any
matches = upsert_matches (at 5) (found 2 ∷ []) []

abbrev higher : Option ℕ → Option ℕ → Bool
higher none b = false
higher (some a) none = true
higher (some a) (some b) = ltb b a

abbrev every : ℕ → Bool
every job_id = true

one_pending : count (λ m. true) (pending_rerank higher every 1 2 (7 ∷ []) matches) ≡ 1
unfolding matches upsert_matches any pending_rerank filter elem sort_by count
one_pending = refl

abbrev later : List (Statement ℕ ℕ)
later = finds (at 9) (found 1 ∷ []) ∷ sets (at 10) 1 7 "saved" ∷ notifies (at 11) 1 (7 ∷ []) ∷ []

scored_once_example :
    count
      (λ m. m.job_id == 7)
      (pending_rerank higher every 1 2
        (7 ∷ [])
        (execute_all later (apply_scores (at 6) 1 (verdict ∷ []) matches)))
    ≡ 0
unfolding matches upsert_matches any elem
scored_once_example =
    scored_once higher every (at 6) 1 7 verdict [] (7 ∷ []) later matches refl refl
      (refl, (refl, (refl, tt)))

notified_once_example :
    count
      (λ m. m.job_id == 7)
      (pending_digest every 1 25 (
        execute_all
          (scores (at 12) 1 (verdict ∷ []) ∷ [])
          (mark_notified (at 8) 1 (7 ∷ []) matches)))
    ≡ 0
unfolding matches upsert_matches any elem
notified_once_example =
    notified_once every (at 8) 1 7 25 (7 ∷ []) (scores (at 12) 1 (verdict ∷ []) ∷ []) matches refl
      refl
