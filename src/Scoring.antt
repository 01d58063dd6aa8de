-- ===== src/Scoring.antt =====
-- trouveur/match/pipeline.py (_score_pending) and rerank.py: buying scores for the postings that a
-- user's search retrieved, in blocks, within the user's limits. Money is a number of nanodollars;
-- the model's answer to a posting is a parameter, and so are the rows that the queries load. A
-- negative balance and an empty one are both 0, which `affordable` treats alike.
pub mod Charges
pub mod DeadDay
pub mod Limits
mod Tests
use trouveur.Prelude.{
  ℕ, ◌+◌, ◌-◌, ◌*◌, ◌/◌, ◌%◌, max, Bool, true, false, not, ◌&&◌, ◌||◌, Option, some, none, List, [],
  ◌∷◌, ◌++◌, map, ltb, leb, ◌==◌, nat_eq, is_none, length, drop, chunks, sort_by, if◌then◌else◌,
}
use trouveur.Db.{Text}

-- BLOCK
abbrev pub block_size : ℕ
block_size = 25

abbrev pub score_floor : ℕ
score_floor = 30

abbrev pub weak_blocks_before_stopping : ℕ
weak_blocks_before_stopping = 2

-- Decimal("0.002")
abbrev pub first_estimate : ℕ
first_estimate = 2000000

pub record Row : Type 0 where
  pub job_id : ℕ
  pub content_hash : ℕ

pub record Score : Type 0 where
  pub score : ℕ
  pub reason : Text
  pub red_flags : List Text

-- `attempt`: an LlmError, or the parsed score, if it could be parsed, and the usage
pub data Answer : Type 0 where
  failed : Text → Answer
  answered : Option Score → (tokens_in tokens_out cost_usd : ℕ) → Answer

-- a row of `scored`
pub record Update : Type 0 where
  pub job_id : ℕ
  pub content_hash : ℕ
  pub given : Score

-- What the database says of a user's money: the day's ceiling and spend, all grants and all spend.
pub record Account : Type 0 where
  pub ceiling : ℕ
  pub today : ℕ
  pub granted : ℕ
  pub spent : ℕ

-- the cost part of add_spend
unfoldable pub add_spend : ℕ → Account → Account
add_spend cost_usd a = record a { today = a.today + cost_usd; spent = a.spent + cost_usd }

unfoldable pub affordable : ℕ → ℕ → Bool
affordable remaining need = ltb 0 remaining && leb need remaining

-- the variables of the loop over a block's results
pub record Bill : Type 0 where
  pub tokens_in : ℕ
  pub tokens_out : ℕ
  pub cost : ℕ
  pub estimate : ℕ
  pub updates : List Update
  pub failures : List Text
  pub all_failed : Bool

abbrev pub nothing_yet : ℕ → Bill
nothing_yet estimate = record {
  tokens_in = 0;
  tokens_out = 0;
  cost = 0;
  estimate = estimate;
  updates = [];
  failures = [];
  all_failed = true;
}

-- why the loop stopped, where it did not run out of blocks
pub data Stop : Type 0 where
  on_ceiling on_credit on_failures on_scores : Stop

-- the loop's variables, with what it has written
pub record Scoring : Type 0 where
  pub account : Account
  pub estimate : ℕ
  pub weak_blocks : ℕ
  pub failures : List Text
  pub scored : List Update
  pub cost_usd : ℕ
  pub stopped : Option Stop

-- statistics.median(scores) < SCORE_FLOOR; of an even number of scores the mean of the middle two
abbrev head_or_zero : List ℕ → ℕ
head_or_zero [] = 0
head_or_zero (x ∷ xs) = x

unfoldable pub median_is_low : List ℕ → Bool
median_is_low scores =
    let ordered = sort_by leb scores in
    let n = length scores in
    let upper = head_or_zero (drop (n / 2) ordered) in
    if n % 2 == 1
    then ltb upper score_floor
    else ltb (head_or_zero (drop (n / 2 - 1) ordered) + upper) (2 * score_floor)

unfoldable pub is_weak : List Update → Bool
unfolding median_is_low
is_weak [] = true
is_weak (u ∷ us) = median_is_low (map (λ (v : Update). (v.given).score) (u ∷ us))

unfoldable pub uncached_of : (ℕ → Option Score) → List Row → List Row
uncached_of cached [] = []
uncached_of cached (row ∷ rows) = elim (cached row.content_hash) [
  | none ↦ row ∷ uncached_of cached rows
  | some hit ↦ uncached_of cached rows
]

unfoldable pub from_cache : (ℕ → Option Score) → List Row → List Update
from_cache cached [] = []
from_cache cached (row ∷ rows) = elim (cached row.content_hash) [
  | none ↦ from_cache cached rows
  | some hit ↦
      record { job_id = row.job_id; content_hash = row.content_hash; given = hit }
      ∷ from_cache cached rows
]

unfoldable pub settle_one : Row → Answer → Bill → Bill
settle_one row (failed text) b = record b { failures = b.failures ++ text ∷ [] }
settle_one row (answered none tokens_in tokens_out cost_usd) b = record b {
  tokens_in = b.tokens_in + tokens_in;
  tokens_out = b.tokens_out + tokens_out;
  cost = b.cost + cost_usd;
  estimate = max b.estimate cost_usd;
  all_failed = false;
}
settle_one row (answered (some score) tokens_in tokens_out cost_usd) b = record b {
  tokens_in = b.tokens_in + tokens_in;
  tokens_out = b.tokens_out + tokens_out;
  cost = b.cost + cost_usd;
  estimate = max b.estimate cost_usd;
  all_failed = false;
  updates =
      b.updates
      ++ record { job_id = row.job_id; content_hash = row.content_hash; given = score } ∷ [];
}

module _ (ask : Row → Answer) where
  unfoldable pub settle : List Row → Bill → Bill
  unfolding settle_one
  settle [] b = b
  settle (row ∷ rows) b = settle rows (settle_one row (ask row) b)

  -- A block that is bought: one transaction, within one day of the meter. The code leaves out the
  -- spending of nothing, which moves no meter.
  unfoldable pub buy_block : List Row → Scoring → Scoring
  unfolding settle add_spend is_weak
  buy_block block s =
      let b = settle block (nothing_yet s.estimate) in
      let s' = record s {
        account = add_spend b.cost s.account;
        estimate = b.estimate;
        failures = s.failures ++ b.failures;
        scored = s.scored ++ b.updates;
        cost_usd = s.cost_usd + b.cost;
      } in
      if b.all_failed
      then record s' { stopped = some on_failures }
      else if is_weak b.updates
      then record s' {
        weak_blocks = s.weak_blocks + 1;
        stopped =
            if leb weak_blocks_before_stopping (s.weak_blocks + 1) then some on_scores else none;
      }
      else record s' { weak_blocks = 0 }

  unfoldable pub score_block : List Row → Scoring → Scoring
  unfolding affordable buy_block
  score_block block s =
      let need = s.estimate * length block in
      if not (affordable (s.account.ceiling - s.account.today) need)
      then record s { stopped = some on_ceiling }
      else if not (affordable (s.account.granted - s.account.spent) need)
      then record s { stopped = some on_credit }
      else buy_block block s

  unfoldable pub score_blocks : List (List Row) → Scoring → Scoring
  unfolding score_block
  score_blocks [] s = s
  score_blocks (block ∷ later) s =
      let s' = score_block block s in
      elim (is_none s'.stopped) [ false ↦ s' | true ↦ score_blocks later s' ]

  -- `_score_pending`, for the pending rows and the scores in the cache
  unfoldable pub score_pending : List Row → (ℕ → Option Score) → Account → Scoring
  unfolding score_blocks uncached_of from_cache
  score_pending pending cached a =
      score_blocks (chunks block_size (uncached_of cached pending)) (record {
        account = a;
        estimate = first_estimate;
        weak_blocks = 0;
        failures = [];
        scored = from_cache cached pending;
        cost_usd = 0;
        stopped = none;
      })
