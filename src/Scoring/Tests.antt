-- ===== src/Scoring/Tests.antt =====
-- Scoring a few postings.
use trouveur.Prelude.{
  ℕ, ◌+◌, ◌*◌, ◌≤◌, ◌≡◌, refl, Option, some, none, List, [], ◌∷◌, arith, chunks, drop, sort_by,
  slices, take, insert_by,
}
use trouveur.Scoring.{block_size, Row, Score, Answer, answered, Account, score_pending}
use trouveur.Scoring.Limits.{score_pending_within}
use trouveur.Scoring.Charges.{score_pending_charged}
use trouveur.Scoring.DeadDay.{score_pending_dead_day}

abbrev weak_score : Score
weak_score = record { score = 10; reason = []; red_flags = [] }

-- Every posting costs a thousandth of a dollar and scores 10.
abbrev ask_weak : Row → Answer
ask_weak row = answered (some weak_score) 100 10 1000000

abbrev posting : ℕ → Row
posting id = record { job_id = id; content_hash = id }

abbrev pending : List Row
pending = posting 1 ∷ posting 2 ∷ posting 3 ∷ []

abbrev uncached : ℕ → Option Score
uncached hash = none

abbrev account : Account
account = record { ceiling = 10000000; today = 0; granted = 20000000; spent = 5 }

three_bought : (score_pending ask_weak pending uncached account).cost_usd ≡ 3000000
unfolding score_pending chunks slices take drop sort_by insert_by
three_bought = refl

score_pending_within_example :
    ((score_pending ask_weak pending uncached account).account.today
      ≤ (score_pending ask_weak pending uncached account).account.ceiling)
    × ((score_pending ask_weak pending uncached account).account.spent
        ≤ (score_pending ask_weak pending uncached account).account.granted)
score_pending_within_example =
    score_pending_within ask_weak 1000000 (λ row. omega arith) pending uncached account
      (omega arith) (omega arith) (omega arith)

score_pending_charged_example :
    ((score_pending ask_weak pending uncached account).account.today
      ≡ 0 + (score_pending ask_weak pending uncached account).cost_usd)
    × ((score_pending ask_weak pending uncached account).account.spent
        ≡ 5 + (score_pending ask_weak pending uncached account).cost_usd)
score_pending_charged_example = score_pending_charged ask_weak account pending uncached

score_pending_dead_day_example :
    (score_pending ask_weak pending uncached account).cost_usd ≤ 2 * (1000000 * block_size)
score_pending_dead_day_example =
    score_pending_dead_day ask_weak 1000000 (λ row. omega arith) (λ row. omega arith) pending
      uncached account (omega arith)
