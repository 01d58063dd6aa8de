-- ===== src/Scoring/DeadDay.antt =====
-- A day on which nothing scores well is given up after two blocks.
use trouveur.Prelude.{
  ℕ, zero, suc, ◌+◌, ◌-◌, ◌*◌, ◌/◌, ◌≤◌, ◌<◌, ◌≡◌, refl, true, Option, some, none, List, [], ◌∷◌,
  map, arith, leb, nat_eq, length, All, All-append, drop, sort_by, All-sort_by, chunks,
  chunks-short, Bool-cases, Option-cases, inl, inr,
}
use native.Mathlib.Nat.{mul-le-mul_left, mul-le-mul_right}
use trouveur.Scoring.{
  block_size, score_floor, first_estimate, Row, Score, Answer, failed, answered, Update, Account,
  affordable, Bill, nothing_yet, head_or_zero, median_is_low, is_weak, settle_one, settle, Scoring,
  Stop, on_ceiling, on_credit, buy_block, score_block, score_blocks, uncached_of, score_pending,
}
use trouveur.Scoring.Limits.{IsCheap, settle-IsBilled}

-- No score in the answer reaches the floor.
abbrev pub IsLow : Answer → Type 0
IsLow (failed text) = Unit
IsLow (answered none tokens_in tokens_out cost_usd) = Unit
IsLow (answered (some s) tokens_in tokens_out cost_usd) = s.score < score_floor

abbrev IsLowUpdate : Update → Type 0
IsLowUpdate u = (u.given).score < score_floor

All-drop_low :
    (n : ℕ) (xs : List ℕ) → All (λ x. x < score_floor) xs → head_or_zero (drop n xs) < score_floor
unfolding drop
All-drop_low zero [] h = omega arith
All-drop_low zero (x ∷ xs) h = h.0
All-drop_low (suc n) [] h = omega arith
All-drop_low (suc n) (x ∷ xs) h = All-drop_low n xs h.1

median_low : (scores : List ℕ) → All (λ x. x < score_floor) scores → median_is_low scores ≡ true
unfolding median_is_low
median_low scores h =
    let ordered = sort_by leb scores in
    let low = All-sort_by leb (λ x. x < score_floor) scores h in
    let n = length scores in
    ground (arith, All-drop_low (n / 2) ordered low, All-drop_low (n / 2 - 1) ordered low)

low_scores :
    (us : List Update)
    → All IsLowUpdate us
    → All (λ x. x < score_floor) (map (λ (v : Update). (v.given).score) us)
low_scores [] h = tt
low_scores (u ∷ us) h = (h.0, low_scores us h.1)

low_is_weak : (us : List Update) → All IsLowUpdate us → is_weak us ≡ true
unfolding is_weak
low_is_weak [] h = refl
low_is_weak (u ∷ us) h =
    median_low (map (λ (v : Update). (v.given).score) (u ∷ us)) (low_scores (u ∷ us) h)

settle_one-low :
    (row : Row) (answer : Answer) (b : Bill)
    → IsLow answer
    → All IsLowUpdate b.updates
    → All IsLowUpdate (settle_one row answer b).updates
unfolding settle_one
settle_one-low row (failed text) b low h = h
settle_one-low row (answered none tokens_in tokens_out cost) b low h = h
settle_one-low row (answered (some s) tokens_in tokens_out cost) b low h =
    All-append IsLowUpdate b.updates _ h (low, tt)

module _ (ask : Row → Answer) (price : ℕ) (cheap : (row : Row) → IsCheap price (ask row))
    (low : (row : Row) → IsLow (ask row)) where
  settle-low :
      (rows : List Row) (b : Bill)
      → All IsLowUpdate b.updates
      → All IsLowUpdate (settle ask rows b).updates
  unfolding settle
  settle-low [] b h = h
  settle-low (row ∷ rows) b h =
      settle-low rows (settle_one row (ask row) b) (settle_one-low row (ask row) b (low row) h)

  -- While the loop runs, each block bought was weak; at most two are bought.
  record IsDead (s : Scoring) : Type 0 where
    bounded : s.cost_usd ≤ 2 * (price * block_size)
    running : s.stopped ≡ none → s.cost_usd ≤ s.weak_blocks * (price * block_size)
    few : s.stopped ≡ none → s.weak_blocks ≤ 1
    priced : price ≤ s.estimate

  buy_block-IsDead :
      (block : List Row) (s : Scoring)
      → length block ≤ block_size
      → s.stopped ≡ none
      → IsDead s
      → IsDead (buy_block ask block s)
  unfolding buy_block
  buy_block-IsDead block s short on d =
      let b = settle ask block (nothing_yet s.estimate) in
      let k =
        settle-IsBilled ask price cheap block 0 (nothing_yet s.estimate)
          (record { within = omega arith; priced = d.priced }) in
      let more : price * length block ≤ price * block_size = mul-le-mul_left price short in
      let weak = low_is_weak b.updates (settle-low block (nothing_yet s.estimate) tt) in
      let total : s.cost_usd + b.cost ≤ (s.weak_blocks + 1) * (price * block_size) =
        omega (arith, k.within, more, d.running on) in
      let two : s.cost_usd + b.cost ≤ 2 * (price * block_size) = omega (
        arith,
        total,
        mul-le-mul_right {m = s.weak_blocks + 1} {n = 2} (price * block_size)
            (omega (arith, d.few on)),
      ) in
      elim (Bool-cases b.all_failed) [
        | inl every ↦ rw every (record {
          bounded = two;
          running = λ e. absurd (ground (arith, e));
          few = λ e. absurd (ground (arith, e));
          priced = k.priced;
        })
        | inr some_answered ↦
            rw (some_answered, weak)
              (record {
                bounded = two;
                running = λ e. total;
                few = λ e. ground (arith, e);
                priced = k.priced;
              })
      ]

  stopped-IsDead : (why : Stop) (s : Scoring) → IsDead s → IsDead (record s { stopped = some why })
  stopped-IsDead why s d = record {
    bounded = d.bounded;
    running = λ e. absurd (ground (arith, e));
    few = λ e. absurd (ground (arith, e));
    priced = d.priced;
  }

  score_block-IsDead :
      (block : List Row) (s : Scoring)
      → length block ≤ block_size
      → s.stopped ≡ none
      → IsDead s
      → IsDead (score_block ask block s)
  unfolding score_block
  score_block-IsDead block s short on d =
      let need = s.estimate * length block in
      elim (Bool-cases (affordable (s.account.ceiling - s.account.today) need)) [
        | inr over ↦ rw over (stopped-IsDead on_ceiling s d)
        | inl fits ↦
            rw fits (elim (Bool-cases (affordable (s.account.granted - s.account.spent) need)) [
              | inr over ↦ rw over (stopped-IsDead on_credit s d)
              | inl fits' ↦ rw fits' (buy_block-IsDead block s short on d)
            ])
      ]

  score_blocks-IsDead :
      (blocks : List (List Row)) (s : Scoring)
      → All (λ block. length block ≤ block_size) blocks
      → s.stopped ≡ none
      → IsDead s
      → IsDead (score_blocks ask blocks s)
  unfolding score_blocks
  score_blocks-IsDead [] s short on d = d
  score_blocks-IsDead (block ∷ later) s short on d =
      let d' = score_block-IsDead block s short.0 on d in
      elim (Option-cases (score_block ask block s).stopped) [
        | inl on' ↦
            rw (on', score_blocks)
              (score_blocks-IsDead later (score_block ask block s) short.1 on' d')
        | inr (why, stop) ↦ rw (stop, score_blocks) d'
      ]

  -- Where no score reaches the floor and no call costs more than the first estimate, a run pays
  -- for two blocks of postings at most.
  pub score_pending_dead_day :
      (pending : List Row) (cached : ℕ → Option Score) (a : Account)
      → price ≤ first_estimate
      → (score_pending ask pending cached a).cost_usd ≤ 2 * (price * block_size)
  unfolding score_pending
  score_pending_dead_day pending cached a cheap_enough =
      (score_blocks-IsDead (chunks block_size (uncached_of cached pending)) _
        (chunks-short block_size (uncached_of cached pending)) refl
        (record {
          bounded = omega arith;
          running = λ e. omega arith;
          few = λ e. omega arith;
          priced = cheap_enough;
        })).bounded
