-- ===== src/Scoring/Limits.antt =====
-- What buying scores may cost: never more than the ceiling and the credit, where no call costs more
-- than the estimate.
use trouveur.Prelude.{
  ℕ, ◌+◌, ◌-◌, ◌*◌, ◌≤◌, Option, some, none, List, [], ◌∷◌, arith, length, chunks, Bool-cases,
  Option-cases, inl, inr,
}
use native.Mathlib.Nat.{mul-le-mul_right}
use trouveur.Scoring.{
  block_size, first_estimate, Row, Score, Answer, failed, answered, Account, add_spend, affordable,
  Bill, nothing_yet, is_weak, settle_one, settle, Stop, on_ceiling, on_credit, Scoring, buy_block,
  score_block, score_blocks, uncached_of, score_pending,
}

-- No answer costs more than this.
abbrev pub IsCheap : ℕ → Answer → Type 0
IsCheap price (failed text) = Unit
IsCheap price (answered score tokens_in tokens_out cost_usd) = cost_usd ≤ price

-- A bill of so many answers.
pub record IsBilled (price rows : ℕ) (b : Bill) : Type 0 where
  pub within : b.cost ≤ price * rows
  pub priced : price ≤ b.estimate

settle_one-IsBilled :
    (price n : ℕ) (row : Row) (answer : Answer) (b : Bill)
    → IsCheap price answer
    → IsBilled price n b
    → IsBilled price (n + 1) (settle_one row answer b)
unfolding settle_one
settle_one-IsBilled price n row (failed text) b cheap k = record {
  within = omega (arith, k.within);
  priced = k.priced;
}
settle_one-IsBilled price n row (answered none tokens_in tokens_out cost) b cheap k = record {
  within = omega (arith, k.within, cheap);
  priced = omega (arith, k.priced);
}
settle_one-IsBilled price n row (answered (some score) tokens_in tokens_out cost) b cheap k =
    record { within = omega (arith, k.within, cheap); priced = omega (arith, k.priced) }

module _ (ask : Row → Answer) (price : ℕ) (cheap : (row : Row) → IsCheap price (ask row)) where
  pub settle-IsBilled :
      (rows : List Row) (n : ℕ) (b : Bill)
      → IsBilled price n b
      → IsBilled price (n + length rows) (settle ask rows b)
  unfolding settle
  settle-IsBilled [] n b k = record { within = omega (arith, k.within); priced = k.priced }
  settle-IsBilled (row ∷ rows) n b k =
      let k' =
        settle-IsBilled rows (n + 1) (settle_one row (ask row) b)
          (settle_one-IsBilled price n row (ask row) b (cheap row) k) in
      record { within = omega (arith, k'.within); priced = k'.priced }

  -- What is spent stands within both limits, and the estimate covers a call.
  record IsWithin (s : Scoring) : Type 0 where
    today : s.account.today ≤ s.account.ceiling
    spent : s.account.spent ≤ s.account.granted
    priced : price ≤ s.estimate

  buy_block-IsWithin :
      (block : List Row) (s : Scoring)
      → IsWithin s
      → s.estimate * length block ≤ s.account.ceiling - s.account.today
      → s.estimate * length block ≤ s.account.granted - s.account.spent
      → IsWithin (buy_block ask block s)
  unfolding buy_block add_spend
  buy_block-IsWithin block s w ceiling credit =
      let k =
        settle-IsBilled block 0 (nothing_yet s.estimate)
          (record { within = omega arith; priced = w.priced }) in
      let more : price * length block ≤ s.estimate * length block =
        mul-le-mul_right (length block) w.priced in
      let b = settle ask block (nothing_yet s.estimate) in
      let today' : s.account.today + b.cost ≤ s.account.ceiling =
        omega (arith, k.within, more, ceiling, w.today) in
      let spent' : s.account.spent + b.cost ≤ s.account.granted =
        omega (arith, k.within, more, credit, w.spent) in
      elim (Bool-cases b.all_failed) [
        | inl every ↦ rw every (record { today = today'; spent = spent'; priced = k.priced })
        | inr some_answered ↦ rw some_answered (elim (Bool-cases (is_weak b.updates)) [
          | inl weak ↦ rw weak (record { today = today'; spent = spent'; priced = k.priced })
          | inr strong ↦ rw strong (record { today = today'; spent = spent'; priced = k.priced })
        ])
      ]

  stopped-IsWithin :
      (why : Stop) (s : Scoring) → IsWithin s → IsWithin (record s { stopped = some why })
  stopped-IsWithin why s w = record { today = w.today; spent = w.spent; priced = w.priced }

  score_block-IsWithin :
      (block : List Row) (s : Scoring) → IsWithin s → IsWithin (score_block ask block s)
  unfolding score_block affordable
  score_block-IsWithin block s w =
      let need = s.estimate * length block in
      elim (Bool-cases (affordable (s.account.ceiling - s.account.today) need)) [
        | inr over ↦ rw over (stopped-IsWithin on_ceiling s w)
        | inl fits ↦
            rw fits (elim (Bool-cases (affordable (s.account.granted - s.account.spent) need)) [
              | inr over ↦ rw over (stopped-IsWithin on_credit s w)
              | inl fits' ↦
                  rw fits'
                    (buy_block-IsWithin block s w (ground (arith, fits)) (ground (arith, fits')))
            ])
      ]

  score_blocks-IsWithin :
      (blocks : List (List Row)) (s : Scoring) → IsWithin s → IsWithin (score_blocks ask blocks s)
  unfolding score_blocks
  score_blocks-IsWithin [] s w = w
  score_blocks-IsWithin (block ∷ later) s w =
      let w' = score_block-IsWithin block s w in
      elim (Option-cases (score_block ask block s).stopped) [
        | inl on ↦ rw (on, score_blocks) (score_blocks-IsWithin later (score_block ask block s) w')
        | inr (why, stop) ↦ rw (stop, score_blocks) w'
      ]

  -- Where no call costs more than the first estimate, a run that begins within the day's ceiling
  -- and the granted credit ends within both.
  pub score_pending_within :
      (pending : List Row) (cached : ℕ → Option Score) (a : Account)
      → price ≤ first_estimate
      → a.today ≤ a.ceiling
      → a.spent ≤ a.granted
      → ((score_pending ask pending cached a).account.today
          ≤ (score_pending ask pending cached a).account.ceiling)
        × ((score_pending ask pending cached a).account.spent
            ≤ (score_pending ask pending cached a).account.granted)
  unfolding score_pending
  score_pending_within pending cached a low today spent =
      let w =
        score_blocks-IsWithin (chunks block_size (uncached_of cached pending)) _
          (record { today = today; spent = spent; priced = low }) in
      (w.today, w.spent)
