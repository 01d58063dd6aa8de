-- ===== src/Scoring/Charges.antt =====
-- What buying scores is charged, and when it stops.
use trouveur.Prelude.{
  ℕ, ◌+◌, ◌-◌, ◌*◌, ◌≡◌, Option, List, [], ◌∷◌, arith, nat_eq, length, chunks, Bool-cases,
  Option-cases, inl, inr,
}
use trouveur.Scoring.{
  block_size, Row, Score, Answer, Account, add_spend, affordable, nothing_yet, is_weak, settle,
  Scoring, buy_block, score_block, score_blocks, uncached_of, score_pending,
}

-- The account has paid what the run reports, from what it held at the start.
IsCharged : Account → Scoring → Type 0
IsCharged a s = (s.account.today ≡ a.today + s.cost_usd) × (s.account.spent ≡ a.spent + s.cost_usd)

module _ (ask : Row → Answer) (a : Account) where
  buy_block-IsCharged :
      (block : List Row) (s : Scoring) → IsCharged a s → IsCharged a (buy_block ask block s)
  unfolding IsCharged buy_block add_spend
  buy_block-IsCharged block s c =
      let b = settle ask block (nothing_yet s.estimate) in
      let today : s.account.today + b.cost ≡ a.today + (s.cost_usd + b.cost) = omega (arith, c.0) in
      let spent : s.account.spent + b.cost ≡ a.spent + (s.cost_usd + b.cost) = omega (arith, c.1) in
      elim (Bool-cases b.all_failed) [
        | inl every ↦ rw every (today, spent)
        | inr some_answered ↦ rw some_answered (elim (Bool-cases (is_weak b.updates)) [
          | inl weak ↦ rw weak (today, spent)
          | inr strong ↦ rw strong (today, spent)
        ])
      ]

  score_block-IsCharged :
      (block : List Row) (s : Scoring) → IsCharged a s → IsCharged a (score_block ask block s)
  unfolding score_block IsCharged
  score_block-IsCharged block s c =
      let need = s.estimate * length block in
      elim (Bool-cases (affordable (s.account.ceiling - s.account.today) need)) [
        | inr over ↦ rw over c
        | inl fits ↦
            rw fits (elim (Bool-cases (affordable (s.account.granted - s.account.spent) need)) [
              | inr over ↦ rw over c
              | inl fits' ↦ rw fits' (buy_block-IsCharged block s c)
            ])
      ]

  score_blocks-IsCharged :
      (blocks : List (List Row)) (s : Scoring)
      → IsCharged a s
      → IsCharged a (score_blocks ask blocks s)
  unfolding score_blocks
  score_blocks-IsCharged [] s c = c
  score_blocks-IsCharged (block ∷ later) s c =
      let c' = score_block-IsCharged block s c in
      elim (Option-cases (score_block ask block s).stopped) [
        | inl on ↦ rw (on, score_blocks) (score_blocks-IsCharged later (score_block ask block s) c')
        | inr (why, stop) ↦ rw (stop, score_blocks) c'
      ]

  -- Both meters of the account go up by what the run reports as its cost.
  pub score_pending_charged :
      (pending : List Row) (cached : ℕ → Option Score)
      → ((score_pending ask pending cached a).account.today
          ≡ a.today + (score_pending ask pending cached a).cost_usd)
        × ((score_pending ask pending cached a).account.spent
            ≡ a.spent + (score_pending ask pending cached a).cost_usd)
  unfolding score_pending IsCharged
  score_pending_charged pending cached =
      score_blocks-IsCharged (chunks block_size (uncached_of cached pending)) _
        (omega arith, omega arith)
